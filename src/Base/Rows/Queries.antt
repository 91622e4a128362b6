-- ===== src/Base/Rows/Queries.antt =====
-- What the searches find.
use Prim.Native.Nat.{ℕ, ◌≤◌, ◌<◌}
use mathlib.Core.Path.{◌≡◌, refl}
use mathlib.Core.Logic.{inl, inr}
use mathlib.Core.Bool.{Bool, true, false}
use mathlib.Core.Option.{none, some}
use mathlib.Core.List.{List, [], ◌∷◌}
use native.Mathlib.Omega.{arith}
use onion_architecture.Base.Booleans.{Bool-cases, Option-cases}
use onion_architecture.Base.Rows.{find, Keyed, first, count_where, select_min}
use onion_architecture.Base.Rows.Keys.{find-key}

module _ {R : Type 0} (p : R → Bool) where
  pub first-holds : (rs : List R) {s : R} → first p rs ≡ some s → p s ≡ true
  unfolding first
  first-holds [] h = cc
  first-holds (r ∷ rs) {s = s} h = ground (arith, first-holds rs {s = s})

  -- A search that finds nothing tells something of every row.
  pub first-none :
      (id : R → ℕ) (i : ℕ) (rs : List R) {s : R}
      → first p rs ≡ none
      → find id i rs ≡ some s
      → p s ≡ false
  unfolding first find
  first-none id i [] n h = cc
  first-none id i (r ∷ rs) {s = s} n h = ground (arith, first-none id i rs {s = s})

  pub count-zero : (rs : List R) → count_where p rs ≡ 0 → first p rs ≡ none
  unfolding first count_where
  count-zero [] h = refl
  count-zero (r ∷ rs) h = ground (arith, count-zero rs)

  pub count-pos : (rs : List R) → 0 < count_where p rs → (s : R) × (first p rs ≡ some s)
  unfolding first count_where
  count-pos [] h = elim h [ ]
  count-pos (r ∷ rs) h = elim (Bool-cases (p r)) [
    | inl e ↦ (r, rw e)
    | inr e ↦ rw e (count-pos rs (rw e at h))
  ]

module _ {R : Type 0} (p : R → Bool) (key : R → ℕ) where
  -- The chosen row satisfies the condition.
  pub select_min-holds : (rs : List R) {s : R} → select_min p key rs ≡ some s → p s ≡ true
  unfolding select_min
  select_min-holds [] h = cc
  select_min-holds (r ∷ rs) {s = s} h = ground (arith, select_min-holds rs {s = s})

  -- Nothing is chosen only where no row satisfies it.
  pub select_min-first : (rs : List R) → select_min p key rs ≡ none → first p rs ≡ none
  unfolding select_min first
  select_min-first [] h = refl
  select_min-first (r ∷ rs) h = ground (arith, select_min-first rs)

  -- No row that satisfies it has a lesser sort key.
  pub select_min-le :
      (id : R → ℕ) (i : ℕ) (rs : List R) {s t : R}
      → select_min p key rs ≡ some s
      → find id i rs ≡ some t
      → p t ≡ true
      → key s ≤ key t
  unfolding select_min find
  select_min-le id i [] h f e = cc
  select_min-le id i (r ∷ rs) {s = s} {t = t} h f e = elim (Option-cases (select_min p key rs)) [
    | inl n ↦ ground (arith, first-none p id i rs {s = t} (select_min-first rs n))
    | inr (u, n) ↦ ground (arith, select_min-le id i rs {s = u} {t = t} n)
  ]

  pub select_min-find :
      (id : R → ℕ) (rs : List R) {s : R}
      → Keyed id rs
      → select_min p key rs ≡ some s
      → find id (id s) rs ≡ some s
  unfolding select_min find
  select_min-find id [] k h = cc
  select_min-find id (r ∷ rs) {s = s} k h =
      ground (arith, select_min-find id rs {s = s} k.1, find-key id (id s) rs {s = s})
