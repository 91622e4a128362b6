-- ===== src/Repositories/Slots.antt =====
-- `PrismaParkingSlotRepository`.
pub mod Occupancy
use onion_architecture.Base.{
  ◌≡◌, refl, ℕ, Bool, true, false, ◌||◌, [], ◌∷◌, map, or_else, ◌&&◌, Option, none, some, List, ltb,
  ◌==◌, is_some, if◌then◌else◌,
}
use onion_architecture.Base.Rows.{
  find, modify, count_where, update_many, select_min, group_count, lookup,
}
use onion_architecture.Domain.{
  Text, Millis, SlotStatus, SlotType, ParkingSlot, reservada, ocupada, is_disponible, is_available,
  is_taken, same_type,
}
use onion_architecture.World.{World}
use onion_architecture.World.Env.{Env}
use onion_architecture.World.Action.{Action, Result, ok, err, gets, throw}
use onion_architecture.Domain.{infra, record_not_found}

abbrev pub slot_id : ParkingSlot → Text
slot_id s = s.id

-- `...(type ? { type } : {})`
abbrev pub type_filter : Option SlotType → SlotType → Bool
type_filter none t = true
type_filter (some s) t = same_type s t

-- The rows that both claims and `hasAvailability` look for.
unfoldable pub is_claimable : Text → Option SlotType → ParkingSlot → Bool
is_claimable b t s = (s.branch_id == b) && (is_available s && type_filter t s.type)

unfoldable pub find_by_id : Text → Action World (Option ParkingSlot)
find_by_id i w = (ok (find slot_id i w.slots), w)

unfoldable pub has_availability : Text → Option SlotType → Action World Bool
unfolding is_claimable
has_availability b t w = (ok (ltb 0 (count_where (is_claimable b t) w.slots)), w)

-- `SET "status" = 'RESERVADA', "updatedAt" = now()`
abbrev pub reserve : Millis → ParkingSlot → ParkingSlot
reserve now s = record s { status = reservada; updated_at = now }

-- The row that the inner SELECT finds is set and returned.
abbrev pub take_row : Env → World → Option ParkingSlot → Result (Option ParkingSlot) × World
take_row env w none = (ok none, w)
take_row env w (some s) = (
  ok (some (reserve env.now s)),
  record w { slots = modify slot_id s.id (reserve env.now) w.slots },
)

-- `ORDER BY "code" ASC`
unfoldable pub claim_available_slot :
    Env → Text → Option SlotType → Action World (Option ParkingSlot)
unfolding is_claimable
claim_available_slot env b t w =
    take_row env w (select_min (is_claimable b t) (λ s. s.code) w.slots)

-- `ORDER BY "updatedAt" ASC`
unfoldable pub claim_least_recently_used_slot :
    Env → Text → Option SlotType → Action World (Option ParkingSlot)
unfolding is_claimable
claim_least_recently_used_slot env b t w =
    take_row env w (select_min (is_claimable b t) (λ s. s.updated_at) w.slots)

-- `@updatedAt` sets the time of every update.
abbrev pub with_status : Millis → SlotStatus → ParkingSlot → ParkingSlot
with_status now status s = record s { status = status; updated_at = now }

unfoldable pub update_status : Env → Text → SlotStatus → Action World (Unit {0})
update_status env i status w =
    if is_some (find slot_id i w.slots)
    then (ok tt, record w { slots = modify slot_id i (with_status env.now status) w.slots })
    else (err (infra record_not_found), w)

unfoldable pub mark_all_occupied : Env → Text → Action World (Unit {0})
mark_all_occupied env b w = (
  ok tt,
  record w {
    slots =
        update_many (λ s. (s.branch_id == b) && is_available s) (with_status env.now ocupada)
          w.slots;
  },
)

-- `BranchOccupancySummary`
pub record OccupancySummary : Type 0 where
  pub branch_id : Text
  pub total_slots : ℕ
  pub occupied_or_reserved : ℕ

abbrev pub summary_branch : OccupancySummary → Text
summary_branch s = s.branch_id

-- `{ in: branchIds }`
abbrev pub is_among : List Text → Text → Bool
is_among [] i = false
is_among (j ∷ js) i = (j == i) || is_among js i

abbrev pub slot_branch : ParkingSlot → Text
slot_branch s = s.branch_id

-- One row of the answer: the count of a group, and what the map of the second query holds for it.
abbrev pub summarise : List (ℕ × ℕ) → ℕ × ℕ → OccupancySummary
summarise occupied (b, n) = record {
  branch_id = b;
  total_slots = n;
  occupied_or_reserved = or_else (lookup b occupied) 0;
}

unfoldable pub get_occupancy_summary : List Text → Action World (List OccupancySummary)
get_occupancy_summary ids w =
    let totals = group_count slot_branch (λ s. is_among ids s.branch_id) w.slots in
    let occupied =
      group_count slot_branch (λ s. is_among ids s.branch_id && is_taken s.status) w.slots in
    (ok (map (summarise occupied) totals), w)

-- An update of a row that is there.
pub update_status-some :
    (env : Env) (i : Text) (status : SlotStatus) (w : World) {s : ParkingSlot}
    → find slot_id i w.slots ≡ some s
    → update_status env i status w
      ≡ (ok tt, record w { slots = modify slot_id i (with_status env.now status) w.slots })
unfolding update_status
update_status-some env i status w e = rw e refl
