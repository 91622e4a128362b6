-- ===== src/Base/Rows.antt =====
-- A table of a relational database: its rows in the order of insertion, each with a key. The
-- queries and updates that the repositories send are written with these.
pub mod Keys
pub mod Choice
pub mod Groups
pub mod Pages
pub mod Queries
pub mod Sweep
pub mod TwoKeys
use Prim.Native.Nat.{ℕ, suc}
use mathlib.Core.Path.{◌≡◌}
use mathlib.Core.Bool.{Bool}
use mathlib.Core.Option.{Option, none, some}
use mathlib.Core.List.{List, [], ◌∷◌}
use onion_architecture.Base.Booleans.{leb, ◌==◌, if◌then◌else◌}

-- A property of every row.
abbrev pub All {ℓ κ} : {A : Type ℓ} → (A → Type κ) → List A → Type κ
All P [] = Unit
All P (x ∷ xs) = P x × All P xs

module _ {R : Type 0} where
  -- `findMany({ where })`
  unfoldable pub select : (R → Bool) → List R → List R
  select p [] = []
  select p (r ∷ rs) = if p r then r ∷ select p rs else select p rs

  -- `findFirst({ where })`
  unfoldable pub first : (R → Bool) → List R → Option R
  first p [] = none
  first p (r ∷ rs) = if p r then some r else first p rs

  -- `count({ where })`
  unfoldable pub count_where : (R → Bool) → List R → ℕ
  count_where p [] = 0
  count_where p (r ∷ rs) = if p r then suc (count_where p rs) else count_where p rs

  -- `updateMany({ where, data })`
  unfoldable pub update_many : (R → Bool) → (R → R) → List R → List R
  update_many p f [] = []
  update_many p f (r ∷ rs) = (if p r then f r else r) ∷ update_many p f rs

  -- The lesser of a row and the best of the later rows; the earlier row wins a tie.
  unfoldable pub better : (R → ℕ) → R → Option R → Option R
  better key r none = some r
  better key r (some s) = if leb (key r) (key s) then some r else some s

  -- `SELECT ... WHERE ... ORDER BY key ASC LIMIT 1`
  unfoldable pub select_min : (R → Bool) → (R → ℕ) → List R → Option R
  unfolding better
  select_min p key [] = none
  select_min p key (r ∷ rs) =
      if p r then better key r (select_min p key rs) else select_min p key rs

module _ {R : Type 0} (id : R → ℕ) where
  -- `findUnique({ where: { id } })`
  unfoldable pub find : ℕ → List R → Option R
  find i [] = none
  find i (r ∷ rs) = if id r == i then some r else find i rs

  -- `update({ where: { id }, data })`, where the row is there
  unfoldable pub modify : ℕ → (R → R) → List R → List R
  modify i f [] = []
  modify i f (r ∷ rs) = (if id r == i then f r else r) ∷ modify i f rs

  -- No two rows have one key.
  abbrev pub Keyed : List R → Type 0
  Keyed [] = Unit {0}
  Keyed (r ∷ rs) = (find (id r) rs ≡ none) × Keyed rs

-- `groupBy({ by: [key], where, _count })`: a key and the number of its rows, for each key that
-- has a row.
unfoldable pub add_one : ℕ → List (ℕ × ℕ) → List (ℕ × ℕ)
add_one k [] = (k, 1) ∷ []
add_one k ((j, n) ∷ g) = if j == k then (j, suc n) ∷ g else (j, n) ∷ add_one k g

module _ {R : Type 0} where
  unfoldable pub group_count : (R → ℕ) → (R → Bool) → List R → List (ℕ × ℕ)
  unfolding add_one
  group_count key p [] = []
  group_count key p (r ∷ rs) =
      if p r then add_one (key r) (group_count key p rs) else group_count key p rs

-- `new Map(pairs).get(k)`, where no key is given twice
unfoldable pub lookup : ℕ → List (ℕ × ℕ) → Option ℕ
lookup k [] = none
lookup k ((j, n) ∷ g) = if j == k then some n else lookup k g
