-- ===== src/Base/Rows/Sweep.antt =====
-- Rows that a query returned are updated one by one, under their keys: the same as one update of
-- all of them.
use Prim.Native.Nat.{ℕ, suc}
use mathlib.Core.Path.{◌≡◌, refl, ap, ◌∙◌}
use mathlib.Core.Logic.{◌≢◌, inl, inr}
use mathlib.Core.Bool.{Bool, true}
use mathlib.Core.Option.{none, some}
use mathlib.Core.List.{List, [], ◌∷◌}
use native.Mathlib.Omega.{arith}
use onion_architecture.Base.Booleans.{◌==◌, Bool-cases}
use onion_architecture.Base.Rows.{All, find, modify, update_many, select, count_where, Keyed}

module _ {ℓ} {A : Type ℓ} where
  abbrev pub length : List A → ℕ
  length [] = 0
  length (x ∷ xs) = suc (length xs)

pub length-select :
    {R : Type 0} (p : R → Bool) (rs : List R) → length (select p rs) ≡ count_where p rs
unfolding select count_where
length-select p [] = refl
length-select p (r ∷ rs) = ground (arith, length-select p rs)

pub All-select_holds :
    {R : Type 0} (p : R → Bool) (rs : List R) → All (λ r. p r ≡ true) (select p rs)
unfolding select
All-select_holds p [] = tt
All-select_holds p (r ∷ rs) = elim (Bool-cases (p r)) [
  | inl e ↦ rw e (e, All-select_holds p rs)
  | inr e ↦ rw e (All-select_holds p rs)
]

pub All-select :
    {R : Type 0} (P : R → Type 0) (p : R → Bool) (rs : List R) → All P rs → All P (select p rs)
unfolding select
All-select P p [] h = tt
All-select P p (r ∷ rs) h = elim (Bool-cases (p r)) [
  | inl e ↦ rw e (h.0, All-select P p rs h.1)
  | inr e ↦ rw e (All-select P p rs h.1)
]

pub All-mono :
    {R : Type 0} (P Q : R → Type 0) → ((r : R) → P r → Q r) → (rs : List R) → All P rs → All Q rs
All-mono P Q f [] h = tt
All-mono P Q f (r ∷ rs) h = (f r h.0, All-mono P Q f rs h.1)

module _ {R : Type 0} (id : R → ℕ) where
  abbrev pub Distinct : List R → Type 0
  Distinct [] = Unit {0}
  Distinct (c ∷ cs) = All (λ d. id d ≢ id c) cs × Distinct cs

  -- A key that is not found is that of no row.
  none-All : (i : ℕ) (rs : List R) → find id i rs ≡ none → All (λ d. id d ≢ i) rs
  unfolding find
  none-All i [] h = tt
  none-All i (r ∷ rs) h = elim (Bool-cases (id r == i)) [
    | inl e ↦ absurd (ground arith)
    | inr e ↦ (ground arith, none-All i rs (rw e at h))
  ]

  pub select-Distinct : (p : R → Bool) (rs : List R) → Keyed id rs → Distinct (select p rs)
  unfolding select
  select-Distinct p [] k = tt
  select-Distinct p (r ∷ rs) k = elim (Bool-cases (p r)) [
    | inl e ↦ rw e (All-select _ p rs (none-All (id r) rs k.0), select-Distinct p rs k.1)
    | inr e ↦ rw e (select-Distinct p rs k.1)
  ]

  pub All-found : (rs : List R) → Keyed id rs → All (λ r. find id (id r) rs ≡ some r) rs
  unfolding find
  All-found [] k = tt
  All-found (r ∷ rs) k = (
    ground arith,
    All-mono (λ x. find id (id x) rs ≡ some x) (λ x. find id (id x) (r ∷ rs) ≡ some x)
        (λ x e. ground (arith, k.0, e)) rs (All-found rs k.1),
  )

  module _ (f : R → R) where
    unfoldable pub sweep : List R → List R → List R
    sweep [] rs = rs
    sweep (c ∷ cs) rs = sweep cs (modify id (id c) f rs)

    modify-none : (i : ℕ) (rs : List R) → find id i rs ≡ none → modify id i f rs ≡ rs
    unfolding find modify
    modify-none i [] h = refl
    modify-none i (r ∷ rs) h = elim (Bool-cases (id r == i)) [
      | inl e ↦ absurd (ground arith)
      | inr e ↦ rw (e, modify-none i rs (rw e at h))
    ]

    modify-head :
        (r : R) (rs : List R) → find id (id r) rs ≡ none → modify id (id r) f (r ∷ rs) ≡ f r ∷ rs
    unfolding modify
    modify-head r rs h = ground (arith, modify-none (id r) rs h)

    sweep-cons :
        (x : R) (cs rs : List R) → All (λ c. id c ≢ id x) cs → sweep cs (x ∷ rs) ≡ x ∷ sweep cs rs
    unfolding sweep modify
    sweep-cons x [] rs h = refl
    sweep-cons x (c ∷ cs) rs h = elim (Bool-cases (id x == id c)) [
      | inl e ↦ absurd (h.0 (ground arith))
      | inr e ↦ rw e (sweep-cons x cs (modify id (id c) f rs) h.1)
    ]

    pub sweep-select :
        (p : R → Bool) (rs : List R)
        → ((r : R) → id (f r) ≡ id r)
        → Keyed id rs
        → sweep (select p rs) rs ≡ update_many p f rs
    unfolding sweep select update_many modify
    sweep-select p [] idf k = refl
    sweep-select p (r ∷ rs) idf k =
        let others = All-select (λ d. id d ≢ id r) p rs (none-All (id r) rs k.0) in
        elim (Bool-cases (p r)) [
          | inl e ↦ rw e (
              ap (sweep (select p rs)) (modify-head r rs k.0)
              ∙ sweep-cons (f r) (select p rs) rs (rw (idf r) others)
              ∙ ap (◌∷◌ (f r)) (sweep-select p rs idf k.1))
          | inr e ↦
              rw e (sweep-cons r (select p rs) rs others ∙ ap (◌∷◌ r) (sweep-select p rs idf k.1))
        ]
