-- ===== src/Base/Rows/Groups.antt =====
-- What a grouped count holds for a key: the number of the key's rows, where there is one.
use Prim.Native.Nat.{ℕ, zero, suc}
use mathlib.Core.Path.{◌≡◌, refl, ap}
use mathlib.Core.Logic.{inl, inr}
use mathlib.Core.Bool.{Bool, ◌&&◌}
use mathlib.Core.Option.{Option, none, some}
use mathlib.Core.List.{List, [], ◌∷◌}
use native.Mathlib.Omega.{arith}
use onion_architecture.Base.Booleans.{◌==◌, if◌then◌else◌, Bool-cases, or_else}
use onion_architecture.Base.Rows.{count_where, group_count, lookup, add_one}

-- No number is held for a key without rows.
abbrev pub positive : ℕ → Option ℕ
positive zero = none
positive (suc n) = some (suc n)

pub or_else-positive : (n : ℕ) → or_else (positive n) 0 ≡ n
or_else-positive zero = refl
or_else-positive (suc n) = refl

lookup-add_one :
    (k j : ℕ) (g : List (ℕ × ℕ))
    → lookup k (add_one j g) ≡ (if j == k then some (suc (or_else (lookup k g) 0)) else lookup k g)
unfolding lookup add_one
lookup-add_one k j [] = elim (Bool-cases (j == k)) [ inl e ↦ rw e refl | inr e ↦ rw e refl ]
lookup-add_one k j ((i, n) ∷ g) = ground (arith, lookup-add_one k j g)

module _ {R : Type 0} where
  pub count-cong :
      (p q : R → Bool) (rs : List R) → ((r : R) → p r ≡ q r) → count_where p rs ≡ count_where q rs
  unfolding count_where
  count-cong p q [] h = refl
  count-cong p q (r ∷ rs) h = ground (arith, h r, count-cong p q rs h)

  pub lookup-group_count :
      (key : R → ℕ) (p : R → Bool) (k : ℕ) (rs : List R)
      → lookup k (group_count key p rs) ≡ positive (count_where (λ r. p r && (key r == k)) rs)
  unfolding group_count lookup count_where
  lookup-group_count key p k [] = refl
  lookup-group_count key p k (r ∷ rs) = elim (Bool-cases (p r)) [
    | inl e ↦ elim (Bool-cases (key r == k)) [
      | inl d ↦
          rw
            (
              e,
              d,
              lookup-add_one k (key r) (group_count key p rs),
              d,
              lookup-group_count key p k rs,
            )
            (ap (λ n. some (suc n)) (or_else-positive _))
      | inr d ↦
          rw (e, d, lookup-add_one k (key r) (group_count key p rs), d)
            (lookup-group_count key p k rs)
    ]
    | inr e ↦ rw e (lookup-group_count key p k rs)
  ]
