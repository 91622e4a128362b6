-- ===== src/Policies/Assignment/Nearest.antt =====
-- The default policy suggests the nearest branch.
use onion_architecture.Base.{
  ◌≡◌, ◌≢◌, refl, sym, inl, inr, true, Option, none, some, List, [], ◌∷◌, map, Bool-cases,
}
use onion_architecture.Base.Rows.{All, first, Keyed}
use onion_architecture.Base.Rows.Queries.{first-holds}
use onion_architecture.Base.Rows.Sweep.{All-mono}
use onion_architecture.Base.Rows.Choice.{All-unmap, map-All, first-All, All-first, first-IsSorted}
use onion_architecture.Base.Sort.{sort_by, sort_by-All, All-sort_by, sort_by-IsSorted}
use onion_architecture.Domain.{Double, SlotType, Branch}
use onion_architecture.World.{World}
use onion_architecture.World.Env.{Env}
use onion_architecture.World.Action.{ok}
use onion_architecture.Repositories.Slots as Slots
use onion_architecture.Repositories.Slots.{is_claimable, take_row, reserve}
use onion_architecture.Repositories.Branches as Branches
use onion_architecture.Repositories.Branches.{branch_id, by_name}
use onion_architecture.Policies.Assignment.{
  Assignment, suggest_other_branch, no_availability, Candidate, distance_km_to, by_distance,
  by_score, suggest_first, default_rank,
}
use onion_architecture.Policies.Assignment.Claims.{offers}
use onion_architecture.Policies.Assignment.Choice.{
  IsOrder, IsChoice, Ranks, IsCandidate, others, others-rows, All-others,
}

-- The loop returns the first candidate that offers a slot.
abbrev first_offer : Option Candidate → Assignment
first_offer none = no_availability
first_offer (some c) = suggest_other_branch c.branch c.distance_km

suggest_first-first :
    (cs : List Candidate) (t : Option SlotType) (w : World)
    → suggest_first cs t w ≡ (ok (first_offer (first (λ c. offers t w c.branch) cs)), w)
unfolding suggest_first Slots.has_availability first
suggest_first-first [] t w = refl
suggest_first-first (c ∷ cs) t w = elim (Bool-cases (offers t w c.branch)) [
  | inl e ↦ rw e refl
  | inr e ↦ rw e (suggest_first-first cs t w)
]

module _ (env : Env) (o : IsOrder env.doubles.le) (here : Branch) (t : Option SlotType) (w : World)
    (k : Keyed branch_id w.branches) where
  abbrev distance : Branch → Double
  distance = distance_km_to env.doubles here

  abbrev ranked : List Candidate
  ranked = sort_by (by_score env.doubles) (map (by_distance env.doubles here) (others here w))

  ranked-rows : All (IsCandidate env.doubles distance here w) ranked
  ranked-rows = sort_by-All (by_score env.doubles) _ _ (
      map-All _ (by_distance env.doubles here) (others here w) (
        All-mono _ (λ b. IsCandidate env.doubles distance here w (by_distance env.doubles here b))
          (λ b h. record { row = h.0; elsewhere = h.1; distance = refl; scored = refl })
          (others here w) (others-rows here w k)))

  spread :
      (P : Candidate → Type 0)
      → All P ranked
      → All (λ b. b.id ≢ here.id → P (by_distance env.doubles here b)) w.branches
  spread P h = All-others here w _ (
      All-unmap P (by_distance env.doubles here) (others here w)
        (All-sort_by (by_score env.doubles) P _ h))

  offer-Ranks :
      (x : Option Candidate)
      → first (λ c. offers t w c.branch) ranked ≡ x
      → Ranks env.doubles distance here t w (ok (first_offer x))
  offer-Ranks none e = spread _ (first-All (λ c. offers t w c.branch) ranked e)
  offer-Ranks (some c) e =
      let p =
        All-first (λ c. offers t w c.branch) (IsCandidate env.doubles distance here w) ranked
          {x = c} ranked-rows e in
      record {
        row = p.row;
        choice = (p.elsewhere, first-offers ranked e);
        distance = p.distance;
        best =
            All-mono _
              (λ b. IsChoice here t w b → env.doubles.le (distance c.branch) (distance b) ≡ true)
              (λ b f h. rw (sym p.scored) (f h.0 h.1)) w.branches
              (spread _ (
                first-IsSorted (by_score env.doubles) (λ a b. o.total a.score b.score)
                  (λ c. offers t w c.branch) ranked {x = c}
                  (sort_by-IsSorted (by_score env.doubles) (λ a b. o.total a.score b.score)
                    (λ a b d. o.trans a.score b.score d.score) _)
                  e));
      }
    where
      first-offers :
          (cs : List Candidate)
          → first (λ c. offers t w c.branch) cs ≡ some c
          → offers t w c.branch ≡ true
      first-offers cs e = first-holds (λ c. offers t w c.branch) cs {s = c} e

  pub default_rank-Ranks : Ranks env.doubles distance here t w (default_rank env here t w).0
  unfolding default_rank Branches.find_all_except
  default_rank-Ranks = rw (suggest_first-first ranked t w) (offer-Ranks _ refl)
