-- ===== src/Tests/Branches.antt =====
-- Assignments, prices and reports on the small system.
use onion_architecture.Base.{◌+◌, ◌-◌, ◌*◌, ◌≤◌, ◌<◌, ◌≡◌, [], ◌∷◌, map}
use onion_architecture.World.{World}
use onion_architecture.World.Action.{ok}
use onion_architecture.Policies.Pricing.{billable_hours, ms_per_hour}
use onion_architecture.Policies.Pricing.Bounds.{billable_hours-covers}
use onion_architecture.UseCases.Admin.{compare_branches_occupancy}
use onion_architecture.UseCases.Admin.Levels.{compare_branches_occupancy_lem, true_row, reported}
use onion_architecture.Tests.Data.{empty_world, inside_world, slot_in}

-- Branch 1 has no slot left, and branch 2 has one.
abbrev full_here : World
full_here = record empty_world { slots = slot_in 21 2 ∷ [] }

-- A stay of an hour and a millisecond.
billable_hours-covers_example :
    (1 ≤ 2) × (3600001 ≤ 0 + 2 * ms_per_hour) × (1 < 2 → 0 + (2 - 1) * ms_per_hour < 3600001)
unfolding billable_hours
billable_hours-covers_example = billable_hours-covers 0 3600001

compare_branches_occupancy_lem_example :
    compare_branches_occupancy [] inside_world
    ≡ (ok (map (true_row inside_world) (reported [] inside_world)), inside_world)
compare_branches_occupancy_lem_example = compare_branches_occupancy_lem [] inside_world
