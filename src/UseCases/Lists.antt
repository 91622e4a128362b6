-- ===== src/UseCases/Lists.antt =====
-- The use cases that list rows, and the reports on availability and revenue.
use onion_architecture.Base.{
  ℕ, zero, suc, Bool, true, ◌&&◌, Option, none, some, List, map, leb, or_else, ◌==◌, truthy,
}
use onion_architecture.Base.Rows.{select, group_count, lookup}
use onion_architecture.Base.Sort.{sort_by}
use onion_architecture.Domain.{
  Text, SlotType, regular, moto, electrico, discapacitados, ReservationStatus, Branch, ParkingSlot,
  Reservation, ParkingSession, is_available, same_status, domain, not_found, branch, reservation,
}
use onion_architecture.World.{World}
use onion_architecture.World.Action.{Action, ok, pure, or_throw, ◌>>=◌}
use onion_architecture.Repositories.Branches as Branches
use onion_architecture.Repositories.Branches.{branch_id}
use onion_architecture.Repositories.Reservations as Reservations

-- `GetReservationUseCase.execute`: whoever asks.
unfoldable pub get_reservation : Text → Action World Reservation
unfolding Reservations.find_by_id
get_reservation id = do
  found ← Reservations.find_by_id id
  or_throw found (domain (not_found reservation id))

-- `orderBy: { createdAt: 'desc' }`
abbrev newer : Reservation → Reservation → Bool
newer r s = leb s.created_at r.created_at

-- `listByUser` of the reservations, and `ListUserReservationsUseCase.execute`
unfoldable pub list_user_reservations : Text → Action World (List Reservation)
list_user_reservations u w = (ok (sort_by newer (select (λ r. r.user_id == u) w.reservations)), w)

-- `ReservationListFilters`
pub record ListFilters : Type 0 where
  pub branch_id : Option Text
  pub status : Option ReservationStatus

abbrev pub in_branch : Option Text → Reservation → Bool
in_branch none r = true
in_branch (some b) r = r.branch_id == b

abbrev pub in_status : Option ReservationStatus → Reservation → Bool
in_status none r = true
in_status (some s) r = same_status r.status s

-- `listByFilters`, and `ListReservationsUseCase.execute`
unfoldable pub list_reservations : ListFilters → Action World (List Reservation)
list_reservations f w = (
  ok (
      sort_by newer
        (select (λ r. in_branch (truthy f.branch_id) r && in_status f.status r) w.reservations)),
  w,
)

-- `orderBy: { entryAt: 'desc' }`
abbrev later_entry : ParkingSession → ParkingSession → Bool
later_entry s t = leb t.entry_at s.entry_at

-- `listByUser` of the sessions, and `ListUserSessionsUseCase.execute`
unfoldable pub list_user_sessions : Text → Action World (List ParkingSession)
list_user_sessions u w = (ok (sort_by later_entry (select (λ s. s.user_id == u) w.sessions)), w)

-- The types of slots, as the keys of a grouped count.
abbrev pub type_key : SlotType → ℕ
type_key regular = 0
type_key moto = 1
type_key electrico = 2
type_key discapacitados = 3

abbrev pub type_of : ℕ → SlotType
type_of zero = regular
type_of (suc zero) = moto
type_of (suc (suc zero)) = electrico
type_of (suc (suc (suc n))) = discapacitados

-- `SlotAvailabilityCount`
pub record SlotAvailabilityCount : Type 0 where
  pub type : SlotType
  pub total : ℕ
  pub available : ℕ

abbrev pub slot_key : ParkingSlot → ℕ
slot_key s = type_key s.type

abbrev pub availability_row : List (ℕ × ℕ) → ℕ × ℕ → SlotAvailabilityCount
availability_row availables (k, n) = record {
  type = type_of k;
  total = n;
  available = or_else (lookup k availables) 0;
}

-- `countByBranchAndType`
unfoldable pub count_by_branch_and_type : Text → Action World (List SlotAvailabilityCount)
count_by_branch_and_type b w =
    let totals = group_count slot_key (λ s. s.branch_id == b) w.slots in
    let availables = group_count slot_key (λ s. (s.branch_id == b) && is_available s) w.slots in
    (ok (map (availability_row availables) totals), w)

-- `GetBranchAvailabilityUseCase.execute`
unfoldable pub get_branch_availability : Text → Action World (Branch × List SlotAvailabilityCount)
unfolding Branches.find_by_id count_by_branch_and_type
get_branch_availability id = do
  found ← Branches.find_by_id id
  b ← or_throw found (domain (not_found branch id))
  availability ← count_by_branch_and_type id
  pure (b, availability)

-- `ListBranchesUseCase.execute`
unfoldable pub list_branches : Action World (List Branch)
unfolding Branches.find_all
list_branches = Branches.find_all
