-- ===== src/Base/Rows/Choice.antt =====
-- What a choice among rows says of all of them.
use Prim.Native.Nat.{ℕ, ◌≤◌}
use mathlib.Core.Path.{◌≡◌, refl}
use mathlib.Core.Logic.{inl, inr}
use mathlib.Core.Bool.{Bool, true, false}
use mathlib.Core.Option.{Option, none, some}
use mathlib.Core.List.{List, [], ◌∷◌, map, Mem, mem-cons_self, mem-cons_of_mem}
use native.Mathlib.Omega.{arith}
use onion_architecture.Base.Booleans.{ltb, leb, Bool-cases, Option-cases}
use onion_architecture.Base.Rows.{All, select, first, count_where, better, select_min}
use onion_architecture.Base.Rows.Sweep.{All-mono}
use onion_architecture.Base.Sort.{IsSorted}

module _ {A B : Type 0} (P : B → Type 0) (f : A → B) where
  pub All-unmap : (xs : List A) → All P (map f xs) → All (λ x. P (f x)) xs
  All-unmap [] h = tt
  All-unmap (x ∷ xs) h = (h.0, All-unmap xs h.1)

  pub map-All : (xs : List A) → All (λ x. P (f x)) xs → All P (map f xs)
  map-All [] h = tt
  map-All (x ∷ xs) h = (h.0, map-All xs h.1)

module _ {R : Type 0} (p : R → Bool) where
  pub All-unselect :
      (P : R → Type 0) (rs : List R) → All P (select p rs) → All (λ r. p r ≡ true → P r) rs
  unfolding select
  All-unselect P [] h = tt
  All-unselect P (r ∷ rs) h = elim (Bool-cases (p r)) [
    | inl e ↦ let k : P r × All P (select p rs) = rw e at h in (λ q. k.0, All-unselect P rs k.1)
    | inr e ↦ (λ q. absurd (ground arith), All-unselect P rs (rw e at h))
  ]

  pub first-All : (rs : List R) → first p rs ≡ none → All (λ r. p r ≡ false) rs
  unfolding first
  first-All [] h = tt
  first-All (r ∷ rs) h = elim (Bool-cases (p r)) [
    | inl e ↦ absurd (ground arith)
    | inr e ↦ (e, first-All rs (rw e at h))
  ]

  -- The first row of a kind has what all rows have.
  pub All-first : (P : R → Type 0) (rs : List R) {x : R} → All P rs → first p rs ≡ some x → P x
  unfolding first
  All-first P [] a h = cc
  All-first P (r ∷ rs) {x = x} a h = elim (Bool-cases (p r)) [
    | inl e ↦ let d : x ≡ r = ground arith in rw d a.0
    | inr e ↦ All-first P rs {x = x} a.1 (rw e at h)
  ]

  pub count-All : (rs : List R) → ltb 0 (count_where p rs) ≡ false → All (λ r. p r ≡ false) rs
  unfolding count_where
  count-All [] h = tt
  count-All (r ∷ rs) h = elim (Bool-cases (p r)) [
    | inl e ↦ absurd (ground arith)
    | inr e ↦ (e, count-All rs (rw e at h))
  ]

  module _ (key : R → ℕ) where
    pub select_min-none : (rs : List R) → select_min p key rs ≡ none → All (λ r. p r ≡ false) rs
    unfolding select_min
    select_min-none [] h = tt
    select_min-none (r ∷ rs) h = elim (Bool-cases (p r)) [
      | inl e ↦ absurd (ground arith)
      | inr e ↦ (e, select_min-none rs (rw e at h))
    ]

    -- The chosen row is one of the rows.
    better-Mem :
        (r : R) (rs : List R) (o : Option R) {s : R}
        → ((t : R) → o ≡ some t → Mem t rs)
        → better key r o ≡ some s
        → Mem s (r ∷ rs)
    unfolding better
    better-Mem r rs none {s = s} f h =
        let e : s ≡ r = ground (arith, h) in rw e (mem-cons_self {a = r} {l = rs})
    better-Mem r rs (some t) {s = s} f h = elim (Bool-cases (leb (key r) (key t))) [
      | inl l ↦ let e : s ≡ r = ground (arith, l, h) in rw e (mem-cons_self {a = r} {l = rs})
      | inr l ↦ let e : s ≡ t = ground (arith, l, h) in rw e (mem-cons_of_mem r (f t refl))
    ]

    pub select_min-Mem : (rs : List R) {s : R} → select_min p key rs ≡ some s → Mem s rs
    unfolding select_min
    select_min-Mem [] h = cc
    select_min-Mem (r ∷ rs) {s = s} h = elim (Bool-cases (p r)) [
      | inl e ↦
          better-Mem r rs (select_min p key rs) {s = s} (λ t q. select_min-Mem rs {s = t} q)
            (rw e at h)
      | inr e ↦ mem-cons_of_mem r (select_min-Mem rs {s = s} (rw e at h))
    ]

    -- The chosen row has the least key of its kind.
    pub select_min-All :
        (rs : List R) {s : R}
        → select_min p key rs ≡ some s
        → All (λ r. p r ≡ true → key s ≤ key r) rs
    unfolding select_min
    select_min-All [] h = cc
    select_min-All (r ∷ rs) {s = s} h = elim (Option-cases (select_min p key rs)) [
      | inl n ↦ (
        λ q. ground arith,
        All-mono (λ r. p r ≡ false) _ (λ r e q. absurd (ground arith)) rs (select_min-none rs n),
      )
      | inr (u, n) ↦ (
        λ q. ground arith,
        All-mono (λ r. p r ≡ true → key u ≤ key r) _ (λ r f q. ground (arith, f q)) rs
            (select_min-All rs {s = u} n),
      )
    ]

module _ {A : Type 0} (le : A → A → Bool) (le_total : (a b : A) → le a b ≡ false → le b a ≡ true)
    (p : A → Bool) where
  -- The first of a kind in a sorted list comes before all of the kind.
  pub first-IsSorted :
      (xs : List A) {x : A}
      → IsSorted le xs
      → first p xs ≡ some x
      → All (λ y. p y ≡ true → le x y ≡ true) xs
  unfolding first
  first-IsSorted [] s h = cc
  first-IsSorted (y ∷ ys) {x = x} s h = elim (Bool-cases (p y)) [
    | inl e ↦
        let d : x ≡ y = ground arith in
        (
          λ q. rw d (ground (arith, le_total y y)),
          All-mono (λ z. le y z ≡ true) (λ z. p z ≡ true → le x z ≡ true) (λ z f q. rw d f) ys s.0,
        )
    | inr e ↦ (λ q. absurd (ground arith), first-IsSorted ys {x = x} s.1 (rw e at h))
  ]
