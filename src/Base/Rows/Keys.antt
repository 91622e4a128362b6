-- ===== src/Base/Rows/Keys.antt =====
-- Rows by their key: what a lookup finds after an update or an insertion.
use Prim.Native.Nat.{ℕ}
use mathlib.Core.Path.{◌≡◌, refl, sym, subst}
use mathlib.Core.Logic.{◌⊎◌, inl, inr, ◌≢◌}
use mathlib.Core.Bool.{Bool}
use mathlib.Core.Option
use mathlib.Core.Option.{Option, none, some}
use mathlib.Core.List.{List, [], ◌∷◌, ◌++◌}
use native.Mathlib.Omega.{arith}
use onion_architecture.Base.Booleans.{◌==◌, if◌then◌else◌, Option-cases}
use onion_architecture.Base.Rows.{find, modify, update_many, first, Keyed}

module _ {R : Type 0} (id : R → ℕ) where
  pub find-key : (i : ℕ) (rs : List R) {s : R} → find id i rs ≡ some s → id s ≡ i
  unfolding find
  find-key i [] h = cc
  find-key i (r ∷ rs) {s = s} h = ground (arith, find-key i rs {s = s})

  -- A row is found under its own key.
  pub find_self : (i : ℕ) (rs : List R) {s : R} → find id i rs ≡ some s → find id (id s) rs ≡ some s
  find_self i rs {s = s} h = subst (λ j. find id j rs ≡ some s) (sym (find-key i rs {s = s} h)) h

  pub find-modify :
      (j i : ℕ) (f : R → R) (rs : List R)
      → ((r : R) → id (f r) ≡ id r)
      → find id j (modify id i f rs)
        ≡ (if j == i then Option.map f (find id j rs) else find id j rs)
  unfolding find modify
  find-modify j i f [] k = ground arith
  find-modify j i f (r ∷ rs) k = ground (arith, k r, find-modify j i f rs k)

  pub find-update_many :
      (j : ℕ) (p : R → Bool) (f : R → R) (rs : List R)
      → ((r : R) → id (f r) ≡ id r)
      → find id j (update_many p f rs) ≡ Option.map (λ r. if p r then f r else r) (find id j rs)
  unfolding find update_many
  find-update_many j p f [] k = refl
  find-update_many j p f (r ∷ rs) k = ground (arith, k r, find-update_many j p f rs k)

  -- What a lookup finds once a row stands at the end.
  pub find-append :
      (j : ℕ) (r : R) (rs : List R)
      → find id j (rs ++ r ∷ [])
        ≡ elim (find id j rs) [ none ↦ if id r == j then some r else none | some s ↦ some s ]
  unfolding find
  find-append j r [] = refl
  find-append j r (s ∷ rs) = ground (arith, find-append j r rs)

  pub modify-Keyed :
      (i : ℕ) (f : R → R) (rs : List R)
      → ((r : R) → id (f r) ≡ id r)
      → Keyed id rs
      → Keyed id (modify id i f rs)
  unfolding modify
  modify-Keyed i f [] k h = tt
  modify-Keyed i f (r ∷ rs) k h =
      ground (arith, k r, find-modify (id r) i f rs k, modify-Keyed i f rs k h.1)

  pub update_many-Keyed :
      (p : R → Bool) (f : R → R) (rs : List R)
      → ((r : R) → id (f r) ≡ id r)
      → Keyed id rs
      → Keyed id (update_many p f rs)
  unfolding update_many
  update_many-Keyed p f [] k h = tt
  update_many-Keyed p f (r ∷ rs) k h =
      ground (arith, k r, find-update_many (id r) p f rs k, update_many-Keyed p f rs k h.1)

  pub append-Keyed :
      (r : R) (rs : List R) → find id (id r) rs ≡ none → Keyed id rs → Keyed id (rs ++ r ∷ [])
  unfolding find
  append-Keyed r [] n h = (refl, tt)
  append-Keyed r (s ∷ rs) n h = ground (arith, find-append (id s) r rs, append-Keyed r rs)

  -- A row that a search finds is found again under its key.
  pub first-find :
      (p : R → Bool) (rs : List R) {s : R}
      → Keyed id rs
      → first p rs ≡ some s
      → find id (id s) rs ≡ some s
  unfolding first find
  first-find p [] k h = cc
  first-find p (r ∷ rs) {s = s} k h =
      ground (arith, first-find p rs {s = s} k.1, find-key (id s) rs {s = s})

  pub find-modify-some :
      (i k : ℕ) (f : R → R) (rs : List R) {r : R}
      → ((r : R) → id (f r) ≡ id r)
      → find id i rs ≡ some r
      → find id i (modify id k f rs) ≡ some (if i == k then f r else r)
  find-modify-some i k f rs idf e = ground (arith, find-modify i k f rs idf)

  -- A row that is found after an update was there before it, and is new only under its key.
  pub modify-find :
      (i k : ℕ) (f : R → R) (rs : List R) {s : R}
      → ((r : R) → id (f r) ≡ id r)
      → find id i (modify id k f rs) ≡ some s
      → (r : R) × (find id i rs ≡ some r) × (((i ≡ k) × (s ≡ f r)) ⊎ ((i ≢ k) × (s ≡ r)))
  modify-find i k f rs {s = s} idf h = elim (Option-cases (find id i rs)) [
    | inl n ↦ absurd (ground (arith, find-modify i k f rs idf))
    | inr (r, e) ↦ (r, e, ground (arith, find-modify i k f rs idf))
  ]

  pub update_many-find :
      (i : ℕ) (p : R → Bool) (f : R → R) (rs : List R) {s : R}
      → ((r : R) → id (f r) ≡ id r)
      → find id i (update_many p f rs) ≡ some s
      → (r : R) × (find id i rs ≡ some r) × (s ≡ (if p r then f r else r))
  update_many-find i p f rs {s = s} idf h = elim (Option-cases (find id i rs)) [
    | inl n ↦ absurd (ground (arith, find-update_many i p f rs idf))
    | inr (r, e) ↦ (r, e, ground (arith, find-update_many i p f rs idf))
  ]

  pub append-find :
      (i : ℕ) (r : R) (rs : List R) {s : R}
      → find id i (rs ++ r ∷ []) ≡ some s
      → (find id i rs ≡ some s) ⊎ ((find id i rs ≡ none) × (id r ≡ i) × (s ≡ r))
  append-find i r rs {s = s} h = elim (Option-cases (find id i rs)) [
    | inl n ↦ inr (ground (arith, find-append i r rs))
    | inr (t, e) ↦ inl (ground (arith, find-append i r rs))
  ]

-- An update under one key leaves another key alone.
module _ {R : Type 0} (id key : R → ℕ) where
  find-modify_other :
      (j i : ℕ) (f : R → R) (rs : List R)
      → ((r : R) → key (f r) ≡ key r)
      → find key j rs ≡ none
      → find key j (modify id i f rs) ≡ none
  unfolding find modify
  find-modify_other j i f [] k h = refl
  find-modify_other j i f (r ∷ rs) k h = ground (arith, k r, find-modify_other j i f rs k)

  pub modify-Keyed_other :
      (i : ℕ) (f : R → R) (rs : List R)
      → ((r : R) → key (f r) ≡ key r)
      → Keyed key rs
      → Keyed key (modify id i f rs)
  unfolding modify
  modify-Keyed_other i f [] k h = tt
  modify-Keyed_other i f (r ∷ rs) k h =
      ground (arith, k r, find-modify_other (key r) i f rs k h.0, modify-Keyed_other i f rs k h.1)

  -- A row that is found under one key is found under another that no two rows share.
  pub find-other :
      (i : ℕ) (rs : List R) {s : R}
      → Keyed key rs
      → find id i rs ≡ some s
      → find key (key s) rs ≡ some s
  unfolding find
  find-other i [] k h = cc
  find-other i (r ∷ rs) {s = s} k h =
      ground (arith, find-other i rs {s = s} k.1, find-key key (key s) rs {s = s})
