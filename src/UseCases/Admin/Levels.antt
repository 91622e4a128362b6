-- ===== src/UseCases/Admin/Levels.antt =====
-- The occupancy report shows the true counts of each branch, and a level that follows them.
use onion_architecture.Base.{
  ℕ, zero, suc, ◌*◌, ◌≤◌, ◌<◌, ◌≡◌, refl, ap, ◌⊎◌, inl, inr, true, List, [], ◌∷◌, map, arith, ltb,
  ◌==◌, Bool-cases,
}
use onion_architecture.Base.Rows.{All, find, select}
use onion_architecture.Base.Rows.Groups.{positive}
use onion_architecture.Base.Sort.{sort_by}
use onion_architecture.Domain.{Text, Branch}
use onion_architecture.World.{World}
use onion_architecture.World.Action.{ok}
use onion_architecture.Repositories.Slots.{
  OccupancySummary, summary_branch, get_occupancy_summary, is_among,
}
use onion_architecture.Repositories.Slots.Occupancy.{
  total_of, taken_of, summary_of, summary_with, get_occupancy_summary_lem, taken-total,
}
use onion_architecture.Repositories.Branches as Branches
use onion_architecture.Repositories.Branches.{branch_id, by_name}
use onion_architecture.Policies.Assignment.Balance.{among-All}
use onion_architecture.UseCases.Admin.{
  OccupancyLevel, green, yellow, red, compute_occupancy_level, BranchOccupancy, occupancy_row,
  occupancy_of, chosen_branches, compare_branches_occupancy,
}

-- GREEN below a half, YELLOW below 85 of 100, RED from there on; and GREEN for a branch of nothing.
abbrev pub IsLevel : ℕ → ℕ → OccupancyLevel → Type 0
IsLevel occupied total green = (total ≡ 0) ⊎ (2 * occupied < total)
IsLevel occupied total yellow = (total ≤ 2 * occupied) × (100 * occupied < 85 * total)
IsLevel occupied total red = (0 < total) × (85 * total ≤ 100 * occupied)

-- For any counts, the level is green if there are no slots or less than half are taken, yellow
-- from a half on and below 85 of 100, and red from there on.
compute_occupancy_level-IsLevel :
    (occupied total : ℕ) → IsLevel occupied total (compute_occupancy_level occupied total)
unfolding compute_occupancy_level
compute_occupancy_level-IsLevel occupied total = elim (Bool-cases (total == 0)) [
  | inl e ↦ rw e (inl (ground arith))
  | inr e ↦ elim (Bool-cases (ltb (occupied * 2) total)) [
    | inl g ↦ rw (e, g) (inr (ground arith))
    | inr g ↦ elim (Bool-cases (ltb (occupied * 100) (total * 85))) [
      | inl y ↦ rw (e, g, y) (ground arith, ground arith)
      | inr y ↦ rw (e, g, y) (ground arith, ground arith)
    ]
  ]
]

-- The row that a branch should have.
abbrev pub true_row : World → Branch → BranchOccupancy
true_row w b = occupancy_row b (total_of b.id w) (taken_of b.id w)

occupancy_of-true : (b : Branch) (w : World) → occupancy_of b (summary_of b.id w) ≡ true_row w b
occupancy_of-true b w = counted (total_of b.id w) (taken_of b.id w) (taken-total b.id w)
  where
    counted :
        (total taken : ℕ)
        → taken ≤ total
        → occupancy_of b (summary_with b.id taken (positive total)) ≡ occupancy_row b total taken
    counted zero taken h = let e : taken ≡ 0 = omega arith in rw e refl
    counted (suc total) taken h = refl

map-true :
    (w : World) (summaries : List OccupancySummary) (ids : List Text)
    → get_occupancy_summary ids w ≡ (ok summaries, w)
    → (bs : List Branch) → All (λ b. is_among ids b.id ≡ true) bs
    → map (λ b. occupancy_of b (find summary_branch b.id summaries)) bs ≡ map (true_row w) bs
map-true w summaries ids h [] a = refl
map-true w summaries ids h (b ∷ bs) a =
    rw
      (
        get_occupancy_summary_lem ids b.id a.0 w summaries h,
        occupancy_of-true b w,
        map-true w summaries ids h bs a.1,
      )
      refl

-- The branches of a report: those asked for, or all where none is.
abbrev pub reported : List Text → World → List Branch
reported [] w = sort_by by_name w.branches
reported (i ∷ is) w = select (λ b. Branches.is_among (i ∷ is) b.id) w.branches

chosen_branches-reported :
    (ids : List Text) (w : World) → chosen_branches ids w ≡ (ok (reported ids w), w)
unfolding Branches.find_all Branches.find_by_ids
chosen_branches-reported [] w = refl
chosen_branches-reported (i ∷ is) w = refl

-- The occupancy report has one row for each branch that is asked for, or for every branch in the
-- order of names where none is, with the true number of its slots and of those reserved or
-- occupied, and changes nothing.
pub compare_branches_occupancy_lem :
    (ids : List Text) (w : World)
    → compare_branches_occupancy ids w ≡ (ok (map (true_row w) (reported ids w)), w)
unfolding compare_branches_occupancy get_occupancy_summary
compare_branches_occupancy_lem ids w = rw (chosen_branches-reported ids w) (
    ap (λ rows. (ok rows, w))
      (map-true w _ (map branch_id (reported ids w)) refl (reported ids w)
        (among-All (reported ids w))))
