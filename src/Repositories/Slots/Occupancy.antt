-- ===== src/Repositories/Slots/Occupancy.antt =====
-- The occupancy summary counts the slots of each branch.
use onion_architecture.Base.{
  ℕ, ◌≡◌, refl, ap, ◌∙◌, inl, inr, Bool, true, ◌&&◌, ◌≤◌, Option, none, some, List, [], ◌∷◌, map,
  arith, ◌==◌, Bool-cases, or_else,
}
use onion_architecture.Base.Rows.{find, count_where, group_count, lookup}
use onion_architecture.Base.Rows.Groups.{positive, or_else-positive, count-cong, lookup-group_count}
use onion_architecture.Domain.{Text, ParkingSlot, is_taken}
use onion_architecture.World.{World}
use onion_architecture.World.Action.{ok}
use onion_architecture.Repositories.Slots.{
  OccupancySummary, summary_branch, summarise, get_occupancy_summary, is_among, slot_branch,
}

abbrev pub in_branch : Text → ParkingSlot → Bool
in_branch k s = s.branch_id == k

abbrev pub taken_in : Text → ParkingSlot → Bool
taken_in k s = is_taken s.status && (s.branch_id == k)

-- The number of the branch's slots, and of those that are occupied or reserved.
abbrev pub total_of : Text → World → ℕ
total_of k w = count_where (in_branch k) w.slots

abbrev pub taken_of : Text → World → ℕ
taken_of k w = count_where (taken_in k) w.slots

-- The summary that a branch should have: none, where it has no slot.
abbrev pub summary_with : Text → ℕ → Option ℕ → Option OccupancySummary
summary_with k taken none = none
summary_with k taken (some n) =
    some (record { branch_id = k; total_slots = n; occupied_or_reserved = taken })

abbrev pub summary_of : Text → World → Option OccupancySummary
summary_of k w = summary_with k (taken_of k w) (positive (total_of k w))

find-summarise :
    (occupied : List (ℕ × ℕ)) (k : ℕ) (g : List (ℕ × ℕ))
    → find summary_branch k (map (summarise occupied) g)
      ≡ summary_with k (or_else (lookup k occupied) 0) (lookup k g)
unfolding find lookup
find-summarise occupied k [] = refl
find-summarise occupied k ((j, n) ∷ g) = ground (arith, find-summarise occupied k g)

module _ (ids : List Text) (k : Text) (listed : is_among ids k ≡ true) where
  same_total : (s : ParkingSlot) → (is_among ids s.branch_id && (s.branch_id == k)) ≡ in_branch k s
  same_total s = elim (Bool-cases (s.branch_id == k)) [
    | inl e ↦ let d : s.branch_id ≡ k = ground arith in rw (d, listed) refl
    | inr e ↦ ground arith
  ]

  same_taken :
      (s : ParkingSlot)
      → ((is_among ids s.branch_id && is_taken s.status) && (s.branch_id == k)) ≡ taken_in k s
  same_taken s = elim (Bool-cases (s.branch_id == k)) [
    | inl e ↦ let d : s.branch_id ≡ k = ground arith in rw (d, listed) refl
    | inr e ↦ ground arith
  ]

  -- The answer holds, for each branch asked for, the two counts of its slots.
  pub get_occupancy_summary_lem :
      (w : World) (summaries : List OccupancySummary)
      → get_occupancy_summary ids w ≡ (ok summaries, w)
      → find summary_branch k summaries ≡ summary_of k w
  unfolding get_occupancy_summary
  get_occupancy_summary_lem w summaries h =
      let occupied =
        group_count slot_branch (λ s. is_among ids s.branch_id && is_taken s.status) w.slots in
      let totals = group_count slot_branch (λ s. is_among ids s.branch_id) w.slots in
      let d : summaries ≡ map (summarise occupied) totals = ground arith in
      let e =
        lookup-group_count slot_branch (λ s. is_among ids s.branch_id) k w.slots
        ∙ ap positive (count-cong _ (in_branch k) w.slots same_total) in
      let f =
        ap (λ o. or_else o 0)
          (lookup-group_count slot_branch (λ s. is_among ids s.branch_id && is_taken s.status) k
            w.slots)
        ∙ or_else-positive _
        ∙ count-cong _ (taken_in k) w.slots same_taken in
      rw d (rw (find-summarise occupied k totals, e, f) refl)

taken-fewer :
    (k : Text) (ss : List ParkingSlot) → count_where (taken_in k) ss ≤ count_where (in_branch k) ss
unfolding count_where
taken-fewer k [] = omega arith
taken-fewer k (s ∷ ss) = ground (arith, taken-fewer k ss)

-- No more slots are taken than there are.
pub taken-total : (k : Text) (w : World) → taken_of k w ≤ total_of k w
taken-total k w = taken-fewer k w.slots
