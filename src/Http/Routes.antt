-- ===== src/Http/Routes.antt =====
-- The routes of the controllers of backend (backend/src/adapters/in/http/controllers), with their
-- bodies (dto).
use onion_architecture.Base.{Option, List}
use onion_architecture.Domain.{Text, Millis, SlotType}
use onion_architecture.UseCases.Lists.{ListFilters}

-- `CreateReservationDto`, and `ConfirmSuggestionDto` with its branch
pub record ReservationDto : Type 0 where
  pub branch_id : Text
  pub slot_type : Option SlotType
  pub start_at : Option Millis

-- The routes of each controller, with what the request gives; none: a body that the validation
-- refuses
pub data ReservationsRoute : Type 0 where
  create_route confirm_suggestion : Option ReservationDto → ReservationsRoute
  list_route : ListFilters → ReservationsRoute
  reservation_route cancel_route : (id : Text) → ReservationsRoute

pub data ParkingRoute : Type 0 where
  entry_qr exit_qr amount : (id : Text) → ParkingRoute
  entry_route exit_route : (qr : Option Text) → ParkingRoute
  report_route : (slot_id : Text) → ParkingRoute

pub data UsersRoute : Type 0 where
  my_reservations my_sessions : UsersRoute

pub data BranchesRoute : Type 0 where
  branches_route : BranchesRoute
  occupancy_route : Option (List Text) → BranchesRoute
  branch_route availability_route : (id : Text) → BranchesRoute

pub data AdminRoute : Type 0 where
  dashboard expire_now : AdminRoute
  revenue_route : Option Text → AdminRoute
  simulate_route : (branch_id : Text) → AdminRoute

pub data Route : Type 0 where
  at_reservations : ReservationsRoute → Route
  at_parking : ParkingRoute → Route
  at_users : UsersRoute → Route
  at_branches : BranchesRoute → Route
  at_admin : AdminRoute → Route
