-- ===== src/Http.antt =====
-- The HTTP side of backend: the guards (backend/src/adapters/in/http/guards), the controllers
-- (backend/src/adapters/in/http/controllers) and the filter of errors.
pub mod Status
pub mod Routes
pub mod Quiet
pub mod Effects
use onion_architecture.Base.{
  ℕ, Bool, true, false, Option, none, some, List, [], or_else, if◌then◌else◌,
}
use onion_architecture.Domain.{
  Text, Millis, SlotType, Branch, Reservation, ParkingSession, Failure, ReservationStatus,
}
use onion_architecture.World.{World}
use onion_architecture.World.Env.{Env, Reply}
use onion_architecture.Payments.Table.{BranchRevenue}
use onion_architecture.World.Action.{Action, Result, ok, err}
use onion_architecture.Auth.{Role, admin}
use onion_architecture.Auth.Tokens.{Claims, TokenUser, access_user}
use onion_architecture.Policies.Pricing.{PricingResult}
use onion_architecture.UseCases.CreateReservation.{CreateReservationInput, request_reservation}
use onion_architecture.UseCases.CancelReservation.{cancel_reservation}
use onion_architecture.UseCases.ExpireReservations.{expire_overdue}
use onion_architecture.UseCases.RegisterEntry.{enter}
use onion_architecture.UseCases.RegisterExit.{leave}
use onion_architecture.UseCases.Admin.{
  BranchOccupancy, report_slot_blocked, simulate_branch_full, compare_branches_occupancy,
}
use onion_architecture.UseCases.Queries.{calculate_amount, generate_entry_qr, generate_exit_qr}
use onion_architecture.UseCases.Lists.{
  SlotAvailabilityCount, ListFilters, get_reservation, list_user_reservations, list_reservations,
  list_user_sessions, get_branch_availability, list_branches,
}
use onion_architecture.Checkout.Revenue.{RevenueReportRow, get_revenue_report}
use onion_architecture.Http.Status.{status_of_failure}
use onion_architecture.Realtime.{is_admin}
use onion_architecture.Http.Routes.{
  ReservationDto, ReservationsRoute, create_route, confirm_suggestion, list_route,
  reservation_route, cancel_route, ParkingRoute, entry_qr, exit_qr, amount, entry_route, exit_route,
  report_route, UsersRoute, my_reservations, my_sessions, BranchesRoute, branches_route,
  occupancy_route, branch_route, availability_route, AdminRoute, dashboard, expire_now,
  revenue_route, simulate_route, Route, at_reservations, at_parking, at_users, at_branches,
  at_admin,
}

pub data Body : Type 0 where
  nothing : Body
  request_id qr_code : Text → Body
  a_reservation : Reservation → Body
  reservations : List Reservation → Body
  a_session : ParkingSession → Body
  sessions : List ParkingSession → Body
  price : PricingResult → Body
  branches : List Branch → Body
  a_branch : Branch → Body
  availability : Branch → List SlotAvailabilityCount → Body
  occupancies : List BranchOccupancy → Body
  revenues : List RevenueReportRow → Body
  number : ℕ → Body

pub record Response : Type 0 where
  pub status : ℕ
  pub content : Body

abbrev pub refuse : ℕ → Response
refuse n = record { status = n; content = nothing }

-- What the framework makes of a call of a use case.
abbrev pub respond : {A : Type 0} → ℕ → (A → Body) → Result A × World → Response × World
respond status f (ok a, w) = (record { status = status; content = f a }, w)
respond status f (err e, w) = (refuse (status_of_failure e), w)

abbrev pub input_by : Text → ReservationDto → CreateReservationInput
input_by user_id dto = record {
  user_id = user_id;
  branch_id = dto.branch_id;
  slot_type = dto.slot_type;
  start_at = dto.start_at;
}

-- `create` and `confirmSuggestion`
abbrev pub enqueue : Env → Text → Option ReservationDto → World → Response × World
enqueue env user_id none w = (refuse 400, w)
enqueue env user_id (some dto) w =
    respond 202 request_id (request_reservation env (input_by user_id dto) w)

-- `entry` and `exit`
abbrev pub scan : (Text → Action World ParkingSession) → Option Text → World → Response × World
scan act none w = (refuse 400, w)
scan act (some qr) w = respond 201 a_session (act qr w)

-- What `@Roles` asks for, where `RolesGuard` stands.
abbrev pub is_for_admin : Route → Bool
is_for_admin (at_reservations (list_route f)) = true
is_for_admin (at_admin r) = true
is_for_admin _ = false

-- Where `JwtAuthGuard` stands.
abbrev pub is_guarded : Route → Bool
is_guarded (at_branches r) = false
is_guarded _ = true

-- The handlers of the controllers, for a user whose `sub` is given.
unfoldable pub reservations_controller : Env → Text → ReservationsRoute → World → Response × World
unfolding request_reservation get_reservation cancel_reservation list_reservations
reservations_controller env sub (create_route dto) w = enqueue env sub dto w
reservations_controller env sub (confirm_suggestion dto) w = enqueue env sub dto w
reservations_controller env sub (list_route f) w = respond 200 reservations (list_reservations f w)
reservations_controller env sub (reservation_route id) w =
    respond 200 a_reservation (get_reservation id w)
reservations_controller env sub (cancel_route id) w =
    respond 200 (λ _. nothing) (cancel_reservation env id sub w)

unfoldable pub parking_controller : Env → Text → ParkingRoute → World → Response × World
unfolding generate_entry_qr generate_exit_qr calculate_amount enter leave report_slot_blocked
parking_controller env sub (entry_qr id) w = respond 200 qr_code (generate_entry_qr env id sub w)
parking_controller env sub (exit_qr id) w = respond 200 qr_code (generate_exit_qr env id sub w)
parking_controller env sub (amount id) w = respond 200 price (calculate_amount env id sub w)
parking_controller env sub (entry_route qr) w = scan (enter env) qr w
parking_controller env sub (exit_route qr) w = scan (leave env) qr w
parking_controller env sub (report_route id) w =
    respond 201 (λ _. nothing) (report_slot_blocked env id w)

unfoldable pub users_controller : Text → UsersRoute → World → Response × World
unfolding list_user_reservations list_user_sessions
users_controller sub my_reservations w = respond 200 reservations (list_user_reservations sub w)
users_controller sub my_sessions w = respond 200 sessions (list_user_sessions sub w)

unfoldable pub branches_controller : BranchesRoute → World → Response × World
unfolding list_branches compare_branches_occupancy get_branch_availability
branches_controller branches_route w = respond 200 branches (list_branches w)
branches_controller (occupancy_route ids) w =
    respond 200 occupancies (compare_branches_occupancy (or_else ids []) w)
branches_controller (branch_route id) w =
    respond 200 (λ r. a_branch r.0) (get_branch_availability id w)
branches_controller (availability_route id) w =
    respond 200 (λ r. availability r.0 r.1) (get_branch_availability id w)

unfoldable pub admin_controller :
    (List Text → Reply (List BranchRevenue)) → Env → AdminRoute → World → Response × World
unfolding compare_branches_occupancy expire_overdue get_revenue_report simulate_branch_full
admin_controller ask env dashboard w = respond 200 occupancies (compare_branches_occupancy [] w)
admin_controller ask env expire_now w = respond 201 number (expire_overdue env w)
admin_controller ask env (revenue_route id) w = respond 200 revenues (get_revenue_report ask id w)
admin_controller ask env (simulate_route id) w =
    respond 201 (λ _. nothing) (simulate_branch_full env id w)

unfoldable pub route_to :
    (List Text → Reply (List BranchRevenue)) → Env → Text → Route → World → Response × World
unfolding reservations_controller parking_controller users_controller branches_controller
    admin_controller
route_to ask env sub (at_reservations r) w = reservations_controller env sub r w
route_to ask env sub (at_parking r) w = parking_controller env sub r w
route_to ask env sub (at_users r) w = users_controller sub r w
route_to ask env sub (at_branches r) w = branches_controller r w
route_to ask env sub (at_admin r) w = admin_controller ask env r w

module _ (jwt_verify : Text → Option Claims) where
  -- `JwtAuthGuard`, with the check of the signature as a parameter; none: 401
  unfoldable pub authenticate : Option Text → Option TokenUser
  authenticate none = none
  authenticate (some t) = access_user (jwt_verify t)

  -- `RolesGuard`: whether it lets the user through
  abbrev pub has_role : Route → TokenUser → Bool
  has_role route u = if is_for_admin route then is_admin u.role else true

  -- A token with no `sub`, which auth-service does not sign, counts as that of the user ''.
  abbrev pub sub_of : TokenUser → Text
  sub_of u = or_else u.sub 0

  abbrev pub authorised :
      (List Text → Reply (List BranchRevenue))
      → Env
      → Route
      → Option TokenUser
      → World
      → Response × World
  authorised ask env route none w = (refuse 401, w)
  authorised ask env route (some u) w =
      if has_role route u then route_to ask env (sub_of u) route w else (refuse 403, w)

  -- A request, with what follows `Bearer ` in its header, where there is such a header.
  unfoldable pub serve :
      (List Text → Reply (List BranchRevenue))
      → Env
      → Option Text
      → Route
      → World
      → Response × World
  unfolding authenticate route_to
  serve ask env bearer route w =
      if is_guarded route
      then authorised ask env route (authenticate bearer) w
      else route_to ask env 0 route w
