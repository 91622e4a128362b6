-- ===== src/Policies/Assignment.antt =====
-- `DefaultSlotAssignmentPolicy` and `BalancedSlotAssignmentPolicy`, and the distance of branches.
pub mod Claims
pub mod Choice
pub mod Nearest
pub mod Balance
use onion_architecture.Base.{
  Bool, true, false, ◌&&◌, Option, none, some, List, [], ◌∷◌, map, ltb, ◌==◌, if◌then◌else◌, zero,
}
use onion_architecture.Base.Rows.{find}
use onion_architecture.Base.Sort.{sort_by}
use onion_architecture.Domain.{Text, Double, SlotType, Branch, ParkingSlot}
use onion_architecture.World.{World}
use onion_architecture.World.Env.{Env, DoubleOps, Strategy, default_strategy, balanced_strategy}
use onion_architecture.World.Action.{Action, ok, pure, ◌>>=◌}
use onion_architecture.Repositories.Slots as Slots
use onion_architecture.Repositories.Branches as Branches
use onion_architecture.Repositories.Branches.{branch_id}
use onion_architecture.Repositories.Slots.{OccupancySummary, summary_branch}

-- `SlotAssignmentResult`
pub data Assignment : Type 0 where
  assigned : ParkingSlot → Assignment
  suggest_other_branch : Branch → Double → Assignment
  no_availability : Assignment

-- `Branch.toRad`
abbrev pub to_rad : DoubleOps → Double → Double
to_rad m degrees = m.div (m.mul degrees m.pi) (m.of_int 180)

abbrev square : DoubleOps → Double → Double
square m x = m.mul x x

-- `Branch.distanceKmTo`: the haversine formula, over the doubles' operations.
unfoldable pub distance_km_to : DoubleOps → Branch → Branch → Double
distance_km_to m here other =
    let d_lat = to_rad m (m.sub other.lat here.lat) in
    let d_lng = to_rad m (m.sub other.lng here.lng) in
    let a = m.add (square m (m.sin (m.div d_lat (m.of_int 2)))) (
      m.mul (m.mul (m.cos (to_rad m here.lat)) (m.cos (to_rad m other.lat)))
        (square m (m.sin (m.div d_lng (m.of_int 2))))) in
    let c = m.mul (m.of_int 2) (m.atan2 (m.sqrt a) (m.sqrt (m.sub (m.of_int 1) a))) in
    m.mul (m.of_int 6371) c

-- A branch with its distance, and the number by which it is ranked.
pub record Candidate : Type 0 where
  pub branch : Branch
  pub distance_km : Double
  pub score : Double

abbrev pub by_score : DoubleOps → Candidate → Candidate → Bool
by_score m a b = m.le a.score b.score

abbrev pub by_distance : DoubleOps → Branch → Branch → Candidate
by_distance m here b =
    let d = distance_km_to m here b in record { branch = b; distance_km = d; score = d }

-- The loop over the ranked branches.
unfoldable pub suggest_first : List Candidate → Option SlotType → Action World Assignment
unfolding Slots.has_availability
suggest_first [] t = pure no_availability
suggest_first (c ∷ rest) t = do
  available ← Slots.has_availability c.branch.id t
  let found = suggest_other_branch c.branch c.distance_km
  (if available then pure found else suggest_first rest t)

unfoldable pub default_rank : Env → Branch → Option SlotType → Action World Assignment
unfolding Branches.find_all_except suggest_first
default_rank env here t = do
  others ← Branches.find_all_except here.id
  suggest_first (sort_by (by_score env.doubles) (map (by_distance env.doubles here) others)) t

-- `otherBranches.filter((_, index) => availabilityFlags[index])`
unfoldable pub available_branches : List Branch → Option SlotType → Action World (List Branch)
unfolding Slots.has_availability
available_branches [] t = pure []
available_branches (b ∷ bs) t = do
  available ← Slots.has_availability b.id t
  rest ← available_branches bs t
  pure (if available then b ∷ rest else rest)

-- OCCUPANCY_PENALTY_KM
abbrev pub occupancy_penalty_km : Text
occupancy_penalty_km = 5

-- `occupancyByBranch.get(branch.id)`, and its ratio
abbrev pub occupancy_ratio : DoubleOps → Option OccupancySummary → Double
occupancy_ratio m none = m.of_int 0
occupancy_ratio m (some s) =
    if ltb 0 s.total_slots
    then m.div (m.of_int s.occupied_or_reserved) (m.of_int s.total_slots)
    else m.of_int 0

-- `BalancedSlotAssignmentPolicy.score`
abbrev pub by_load : DoubleOps → Branch → List OccupancySummary → Branch → Candidate
by_load m here summaries b =
    let d = distance_km_to m here b in
    record {
      branch = b;
      distance_km = d;
      score = m.add d (
          m.mul (occupancy_ratio m (find summary_branch b.id summaries))
            (m.of_int occupancy_penalty_km));
    }

-- `ranked[0]`
abbrev pub take_best : List Candidate → Assignment
take_best [] = no_availability
take_best (c ∷ cs) = suggest_other_branch c.branch c.distance_km

unfoldable pub balanced_rank : Env → Branch → Option SlotType → Action World Assignment
unfolding Branches.find_all_except available_branches Slots.get_occupancy_summary
balanced_rank env here t = do
  others ← Branches.find_all_except here.id
  candidates ← available_branches others t
  summaries ← Slots.get_occupancy_summary (map branch_id candidates)
  pure (
      take_best
        (sort_by (by_score env.doubles) (map (by_load env.doubles here summaries) candidates)))

-- What either policy does where the branch has no slot left, given its way to rank the others.
unfoldable pub suggest : (Branch → Action World Assignment) → Text → Action World Assignment
unfolding Branches.find_by_id
suggest rank b = do
  current ← Branches.find_by_id b
  (elim current [ none ↦ pure no_availability | some here ↦ rank here ])

abbrev pub or_suggest : Option ParkingSlot → Action World Assignment → Action World Assignment
or_suggest (some s) rest w = (ok (assigned s), w)
or_suggest none rest w = rest w

-- `DefaultSlotAssignmentPolicy.assign`
unfoldable pub default_assign : Env → Text → Option SlotType → Action World Assignment
unfolding Slots.claim_available_slot suggest default_rank
default_assign env b t = do
  claimed ← Slots.claim_available_slot env b t
  or_suggest claimed (suggest (λ here. default_rank env here t) b)

-- `BalancedSlotAssignmentPolicy.assign`
unfoldable pub balanced_assign : Env → Text → Option SlotType → Action World Assignment
unfolding Slots.claim_least_recently_used_slot suggest balanced_rank
balanced_assign env b t = do
  claimed ← Slots.claim_least_recently_used_slot env b t
  or_suggest claimed (suggest (λ here. balanced_rank env here t) b)

-- The factory of `SLOT_ASSIGNMENT_POLICY`.
abbrev pub assign_by : Strategy → Env → Text → Option SlotType → Action World Assignment
assign_by default_strategy = default_assign
assign_by balanced_strategy = balanced_assign

unfoldable pub assign : Env → Text → Option SlotType → Action World Assignment
unfolding default_assign balanced_assign
assign env = assign_by env.strategy env
