-- ===== src/Base/Rows/Pages.antt =====
-- The first rows of a sorted table, for `ORDER BY ... LIMIT n`.
use Prim.Native.Nat.{ℕ, zero, suc, ◌≤◌}
use mathlib.Core.Path.{◌≡◌, refl, ap}
use mathlib.Core.Logic.{◌⊎◌, inl, inr}
use mathlib.Core.Bool.{Bool, true}
use mathlib.Core.List.{List, [], ◌∷◌, ◌++◌}
use native.Mathlib.Omega.{arith}
use onion_architecture.Base.Rows.{All}
use onion_architecture.Base.Rows.Sweep.{length}
use onion_architecture.Base.Sort.{IsSorted}

module _ {R : Type 0} where
  abbrev pub take : ℕ → List R → List R
  take zero rs = []
  take (suc n) [] = []
  take (suc n) (r ∷ rs) = r ∷ take n rs

  abbrev pub drop : ℕ → List R → List R
  drop zero rs = rs
  drop (suc n) [] = []
  drop (suc n) (r ∷ rs) = drop n rs

  -- A page is no longer than its limit, and falls short of it only if nothing is left.
  pub length-take : (n : ℕ) (rs : List R) → length (take n rs) ≤ n
  length-take zero rs = omega arith
  length-take (suc n) [] = omega arith
  length-take (suc n) (r ∷ rs) = omega (arith, length-take n rs)

  pub drop-full : (n : ℕ) (rs : List R) → (drop n rs ≡ []) ⊎ (length (take n rs) ≡ n)
  drop-full zero rs = inr refl
  drop-full (suc n) [] = inl refl
  drop-full (suc n) (r ∷ rs) = elim (drop-full n rs) [ inl e ↦ inl e | inr e ↦ inr (ap suc e) ]

  -- The page, and what is left, make up the rows.
  pub take-drop : (n : ℕ) (rs : List R) → take n rs ++ drop n rs ≡ rs
  take-drop zero rs = refl
  take-drop (suc n) [] = refl
  take-drop (suc n) (r ∷ rs) = ap (r ∷◌) (take-drop n rs)

  module _ (P : R → Type 0) where
    pub All-take : (n : ℕ) (rs : List R) → All P rs → All P (take n rs)
    All-take zero rs h = tt
    All-take (suc n) [] h = tt
    All-take (suc n) (r ∷ rs) h = (h.0, All-take n rs h.1)

    pub All-drop : (n : ℕ) (rs : List R) → All P rs → All P (drop n rs)
    All-drop zero rs h = h
    All-drop (suc n) [] h = h
    All-drop (suc n) (r ∷ rs) h = All-drop n rs h.1

  module _ (le : R → R → Bool) where
    pub take-IsSorted : (n : ℕ) (rs : List R) → IsSorted le rs → IsSorted le (take n rs)
    take-IsSorted zero rs h = tt
    take-IsSorted (suc n) [] h = tt
    take-IsSorted (suc n) (r ∷ rs) h = (All-take _ n rs h.0, take-IsSorted n rs h.1)

    -- What is on the page comes before what is not.
    pub take-before-drop :
        (n : ℕ) (rs : List R)
        → IsSorted le rs
        → All (λ r. All (λ s. le r s ≡ true) (drop n rs)) (take n rs)
    take-before-drop zero rs h = tt
    take-before-drop (suc n) [] h = tt
    take-before-drop (suc n) (r ∷ rs) h = (All-drop _ n rs h.0, take-before-drop n rs h.1)
