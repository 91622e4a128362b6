-- ===== src/Repositories/Branches.antt =====
-- `PrismaBranchRepository`.
use onion_architecture.Base.{Bool, false, not, ◌||◌, Option, List, [], ◌∷◌, leb, ◌==◌}
use onion_architecture.Base.Rows.{find, select}
use onion_architecture.Base.Sort.{sort_by}
use onion_architecture.Domain.{Text, Branch}
use onion_architecture.World.{World}
use onion_architecture.World.Action.{Action, ok}

abbrev pub branch_id : Branch → Text
branch_id b = b.id

-- `orderBy: { name: 'asc' }`
abbrev pub by_name : Branch → Branch → Bool
by_name a b = leb a.name b.name

unfoldable pub find_by_id : Text → Action World (Option Branch)
find_by_id i w = (ok (find branch_id i w.branches), w)

unfoldable pub find_all : Action World (List Branch)
find_all w = (ok (sort_by by_name w.branches), w)

-- `{ id: { in: ids } }`
abbrev pub is_among : List Text → Text → Bool
is_among [] i = false
is_among (j ∷ js) i = (j == i) || is_among js i

unfoldable pub find_by_ids : List Text → Action World (List Branch)
find_by_ids ids w = (ok (select (λ b. is_among ids b.id) w.branches), w)

unfoldable pub find_all_except : Text → Action World (List Branch)
find_all_except i w = (ok (sort_by by_name (select (λ b. not (b.id == i)) w.branches)), w)
