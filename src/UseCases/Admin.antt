-- ===== src/UseCases/Admin.antt =====
-- The administrator's and the guards' use cases on slots, and the reports on occupancy.
pub mod Outcome
pub mod Levels
use onion_architecture.Base.{
  ℕ, ◌*◌, Bool, Option, none, some, List, [], ◌∷◌, map, ltb, or_else, ◌==◌, if◌then◌else◌,
}
use onion_architecture.Base.Rows.{find}
use onion_architecture.Domain.{
  Text, SlotStatus, no_disponible, Branch, ParkingSlot, domain, not_found, slot, branch,
}
use onion_architecture.World.{World}
use onion_architecture.World.Events.{slot_status_changed, occupancy_updated}
use onion_architecture.World.Env.{Env}
use onion_architecture.World.Action.{Action, Result, ok, err, pure, or_throw, ◌>>=◌, ◌>>◌}
use onion_architecture.Repositories.Slots as Slots
use onion_architecture.Repositories.Slots.{OccupancySummary, summary_branch}
use onion_architecture.Repositories.Branches as Branches
use onion_architecture.Repositories.Branches.{branch_id}
use onion_architecture.UseCases.CreateReservation.{send}

-- `ReportSlotBlockedUseCase.execute`
unfoldable pub report_slot_blocked : Env → Text → Action World (Unit {0})
unfolding Slots.find_by_id Slots.update_status
report_slot_blocked env id = do
  found ← Slots.find_by_id id
  s ← or_throw found (domain (not_found slot id))
  Slots.update_status env id no_disponible
  send (slot_status_changed s.branch_id id no_disponible)
  send (occupancy_updated s.branch_id)

-- `SimulateBranchFullUseCase.execute`
unfoldable pub simulate_branch_full : Env → Text → Action World (Unit {0})
unfolding Branches.find_by_id Slots.mark_all_occupied
simulate_branch_full env id = do
  found ← Branches.find_by_id id
  b ← or_throw found (domain (not_found branch id))
  Slots.mark_all_occupied env id
  send (occupancy_updated id)

-- `OccupancyLevel`
pub data OccupancyLevel : Type 0 where
  green yellow red : OccupancyLevel

-- `computeOccupancyLevel`, its ratios compared without dividing
unfoldable pub compute_occupancy_level : ℕ → ℕ → OccupancyLevel
compute_occupancy_level occupied total =
    if total == 0
    then green
    else (if ltb (occupied * 2) total
        then green
        else (if ltb (occupied * 100) (total * 85) then yellow else red))

-- `BranchOccupancyResult`
pub record BranchOccupancy : Type 0 where
  pub branch : Branch
  pub total_slots : ℕ
  pub occupied_or_reserved : ℕ
  pub level : OccupancyLevel

abbrev pub occupancy_row : Branch → ℕ → ℕ → BranchOccupancy
occupancy_row b total occupied = record {
  branch = b;
  total_slots = total;
  occupied_or_reserved = occupied;
  level = compute_occupancy_level occupied total;
}

-- A branch with no slot has no summary, and counts as empty.
abbrev pub occupancy_of : Branch → Option OccupancySummary → BranchOccupancy
occupancy_of b none = occupancy_row b 0 0
occupancy_of b (some s) = occupancy_row b s.total_slots s.occupied_or_reserved

-- `branchIds?.length ? findByIds(branchIds) : findAll()`
abbrev pub chosen_branches : List Text → Action World (List Branch)
chosen_branches [] = Branches.find_all
chosen_branches (i ∷ is) = Branches.find_by_ids (i ∷ is)

-- `CompareBranchesOccupancyUseCase.execute`; `GetOccupancyDashboardUseCase` calls it with no ids.
unfoldable pub compare_branches_occupancy : List Text → Action World (List BranchOccupancy)
unfolding Branches.find_all Branches.find_by_ids Slots.get_occupancy_summary compute_occupancy_level
compare_branches_occupancy ids = do
  branches ← chosen_branches ids
  summaries ← Slots.get_occupancy_summary (map branch_id branches)
  pure (map (λ b. occupancy_of b (find summary_branch b.id summaries)) branches)
