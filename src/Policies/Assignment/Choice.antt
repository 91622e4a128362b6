-- ===== src/Policies/Assignment/Choice.antt =====
-- Which slot is claimed, and which branch is suggested.
use onion_architecture.Base.{
  ℕ, ◌≡◌, ◌≢◌, ◌≤◌, refl, ◌⊎◌, inl, inr, Bool, true, false, not, Option, none, some, List, [], ◌∷◌,
  Mem, arith, Option-cases, ◌==◌,
}
use onion_architecture.Base.Rows.{All, find, select, select_min, Keyed}
use onion_architecture.Base.Rows.Queries.{select_min-holds}
use onion_architecture.Base.Rows.Sweep.{All-mono, All-found, All-select, All-select_holds}
use onion_architecture.Base.Rows.Choice.{
  All-unselect, select_min-none, select_min-All, select_min-Mem,
}
use onion_architecture.Base.Sort.{sort_by, sort_by-All, All-sort_by}
use onion_architecture.Domain.{Text, Double, SlotType, Branch, ParkingSlot}
use onion_architecture.World.{World}
use onion_architecture.World.Env.{Env, DoubleOps}
use onion_architecture.World.Action.{Action, Result, ok, err, ◌>>=◌}
use onion_architecture.Repositories.Slots.{is_claimable, take_row, reserve}
use onion_architecture.Repositories.Branches as Branches
use onion_architecture.Repositories.Branches.{branch_id, by_name}
use onion_architecture.Policies.Assignment.{
  Assignment, assigned, suggest_other_branch, no_availability, Candidate, distance_km_to, suggest,
  or_suggest,
}
use onion_architecture.Policies.Assignment.Claims.{offers}

-- What the comparison of doubles has to be for a sort to make sense.
pub record IsOrder (le : Double → Double → Bool) : Type 0 where
  pub total : (a b : Double) → le a b ≡ false → le b a ≡ true
  pub trans : (a b c : Double) → le a b ≡ true → le b c ≡ true → le a c ≡ true

-- Another branch than the one asked for that offers a slot.
abbrev pub IsChoice : Branch → Option SlotType → World → Branch → Type 0
IsChoice here t w b = (b.id ≢ here.id) × (offers t w b ≡ true)

-- The suggested branch is another row of the table that offers a slot, at its distance, and none
-- that offers one has a lesser score.
pub record IsBest (m : DoubleOps) (score : Branch → Double) (here : Branch) (t : Option SlotType)
    (w : World) (b : Branch) (d : Double) : Type 0 where
  pub row : find branch_id b.id w.branches ≡ some b
  pub choice : IsChoice here t w b
  pub distance : d ≡ distance_km_to m here b
  pub best : All (λ c. IsChoice here t w c → m.le (score b) (score c) ≡ true) w.branches

abbrev pub NoChoice : Branch → Option SlotType → World → Type 0
NoChoice here t w = All (λ c. c.id ≢ here.id → offers t w c ≡ false) w.branches

-- What a ranking returns.
abbrev pub Ranks :
    DoubleOps → (Branch → Double) → Branch → Option SlotType → World → Result Assignment → Type 0
Ranks m score here t w (ok (suggest_other_branch b d)) = IsBest m score here t w b d
Ranks m score here t w (ok no_availability) = NoChoice here t w
Ranks m score here t w _ = ⊥

-- What an assignment returns: the row of a free slot with the least sort key, which is reserved now;
-- where there is none, what the ranking from the branch returns; nothing, where there is no such
-- branch.
abbrev pub Chooses :
    Env
    → (ParkingSlot → ℕ)
    → (Branch → Branch → Double)
    → Text
    → Option SlotType
    → World
    → Result Assignment
    → Type 0
Chooses env key score b t w (ok (assigned s)) =
    (q : ParkingSlot) × Mem q w.slots
    × (is_claimable b t q ≡ true)
    × (s ≡ reserve env.now q)
    × All (λ r. is_claimable b t r ≡ true → key q ≤ key r) w.slots
Chooses env key score b t w x =
    All (λ r. is_claimable b t r ≡ false) w.slots
    × ((find branch_id b w.branches ≡ none) × (x ≡ ok no_availability)
        ⊎ (here : Branch) × (find branch_id b w.branches ≡ some here)
          × Ranks env.doubles (score here) here t w x)

-- What is known of a candidate: it is another row of the table, with its distance and its score.
pub record IsCandidate (m : DoubleOps) (score : Branch → Double) (here : Branch) (w : World)
    (c : Candidate) : Type 0 where
  pub row : find branch_id c.branch.id w.branches ≡ some c.branch
  pub elsewhere : c.branch.id ≢ here.id
  pub distance : c.distance_km ≡ distance_km_to m here c.branch
  pub scored : c.score ≡ score c.branch

-- The other branches, in the order of their names.
abbrev pub others : Branch → World → List Branch
others here w = sort_by by_name (select (λ b. not (b.id == here.id)) w.branches)

module _ (here : Branch) (w : World) where
  pub others-rows :
      Keyed branch_id w.branches
      → All (λ b. (find branch_id b.id w.branches ≡ some b) × (b.id ≢ here.id)) (others here w)
  others-rows k = sort_by-All by_name _ _ (
      rows _
        (All-select _ (λ b. not (b.id == here.id)) w.branches (All-found branch_id w.branches k))
        (All-select_holds (λ b. not (b.id == here.id)) w.branches))
    where
      rows :
          (bs : List Branch)
          → All (λ b. find branch_id b.id w.branches ≡ some b) bs
          → All (λ b. not (b.id == here.id) ≡ true) bs
          → All (λ b. (find branch_id b.id w.branches ≡ some b) × (b.id ≢ here.id)) bs
      rows [] f n = tt
      rows (b ∷ bs) f n = ((f.0, ground (arith, n.0)), rows bs f.1 n.1)

  -- What holds of the other branches holds of every row but that of the branch.
  pub All-others :
      (P : Branch → Type 0) → All P (others here w) → All (λ b. b.id ≢ here.id → P b) w.branches
  All-others P h =
      All-mono (λ b. not (b.id == here.id) ≡ true → P b) _ (λ b f n. f (ground arith)) w.branches
        (All-unselect (λ b. not (b.id == here.id)) P w.branches (All-sort_by by_name P _ h))

-- Either policy, given its sort key, its score and its ranking.
module _ (env : Env) (key : ParkingSlot → ℕ) (score : Branch → Branch → Double) (b : Text)
    (t : Option SlotType) (w : World) (rank : Branch → Action World Assignment)
    (ranks : (here : Branch) → Ranks env.doubles (score here) here t w (rank here w).0) where
  ranked-Chooses :
      All (λ r. is_claimable b t r ≡ false) w.slots
      → {here : Branch} → find branch_id b w.branches ≡ some here
      → (x : Result Assignment) → Ranks env.doubles (score here) here t w x
      → Chooses env key score b t w x
  ranked-Chooses n {here = here} f (ok (suggest_other_branch c d)) h = (n, inr (here, f, h))
  ranked-Chooses n {here = here} f (ok no_availability) h = (n, inr (here, f, h))
  ranked-Chooses n f (ok (assigned s)) h = absurd h
  ranked-Chooses n f (err e) h = absurd h

  suggest-Chooses :
      All (λ r. is_claimable b t r ≡ false) w.slots
      → Chooses env key score b t w (suggest rank b w).0
  unfolding suggest Branches.find_by_id
  suggest-Chooses n = elim (Option-cases (find branch_id b w.branches)) [
    | inl e ↦ rw e (n, inl (e, refl))
    | inr (here, e) ↦ rw e (ranked-Chooses n e _ (ranks here))
  ]

  pub claimed-Chooses :
      (x : Option ParkingSlot)
      → select_min (is_claimable b t) key w.slots ≡ x
      → Chooses env key score b t w
          (((λ (v : World). take_row env v x) >>= λ claimed. or_suggest claimed (suggest rank b))
            w).0
  claimed-Chooses none e = suggest-Chooses (select_min-none (is_claimable b t) key w.slots e)
  claimed-Chooses (some s) e = (
    s,
    select_min-Mem (is_claimable b t) key w.slots {s = s} e,
    select_min-holds (is_claimable b t) key w.slots {s = s} e,
    refl,
    select_min-All (is_claimable b t) key w.slots {s = s} e,
  )
