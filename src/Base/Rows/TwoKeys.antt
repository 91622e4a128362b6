-- ===== src/Base/Rows/TwoKeys.antt =====
-- A table with two keys: an update of a row under the one is the update under the other.
use Prim.Native.Nat.{ℕ}
use mathlib.Core.Path.{◌≡◌, refl, ap}
use mathlib.Core.Logic.{inl, inr}
use mathlib.Core.Bool.{true, false}
use mathlib.Core.Option.{none, some}
use mathlib.Core.List.{List, [], ◌∷◌}
use native.Mathlib.Omega.{arith}
use onion_architecture.Base.Booleans.{◌==◌, Bool-cases}
use onion_architecture.Base.Rows.{find, modify, Keyed}
use onion_architecture.Base.Rows.Keys.{find-other}

pub modify-absent :
    {R : Type 0} (id : R → ℕ) (i : ℕ) (f : R → R) (rs : List R)
    → find id i rs ≡ none
    → modify id i f rs ≡ rs
unfolding find modify
modify-absent id i f [] h = refl
modify-absent id i f (r ∷ rs) h = elim (Bool-cases (id r == i)) [
  | inl e ↦ absurd (ground arith)
  | inr e ↦ rw (e, modify-absent id i f rs (rw e at h))
]

module _ {R : Type 0} (id key : R → ℕ) (f : R → R) where
  pub modify-other_key :
      (rs : List R) {s : R}
      → Keyed id rs
      → Keyed key rs
      → find key (key s) rs ≡ some s
      → modify id (id s) f rs ≡ modify key (key s) f rs
  unfolding find modify
  modify-other_key [] k l h = refl
  modify-other_key (r ∷ rs) {s = s} k l h = elim (Bool-cases (key r == key s)) [
    | inl e ↦
        let d : r ≡ s = ground arith in
        let i : (id r == id s) ≡ true = ground (arith, ap id d) in
        let a = modify-absent id (id s) f rs (rw d at k.0) in
        let b = modify-absent key (key s) f rs (rw d at l.0) in rw (i, e, a, b) refl
    | inr e ↦
        let g : find key (key s) rs ≡ some s = rw e at h in
        let n = find-other key id (key s) rs {s = s} k.1 g in
        let i : (id r == id s) ≡ false = ground (arith, k.0, n) in
        rw (e, i, modify-other_key rs {s = s} k.1 l.1 g) refl
  ]
