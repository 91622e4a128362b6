-- ===== src/Policies/Parking.antt =====
-- `DefaultParkingPolicy`: entry, exit and the release of slots.
pub mod Entry
pub mod Exit
use onion_architecture.Base.{
  Bool, true, false, Option, none, some, ltb, is_some, not, if◌then◌else◌,
}
use onion_architecture.Domain.{
  Text, Millis, ReservationStatus, ocupada, disponible, Reservation, ParkingSession, Payment,
  is_active, is_approved, domain, infra, not_found, reservation, reservation_expired,
  reservation_not_started, session_already_active, payment_service_unavailable, same_status,
}
use onion_architecture.World.{World}
use onion_architecture.World.Env.{Env, Reply, answer, failed}
use onion_architecture.World.Action.{
  Action, ok, err, pure, throw, or_throw, throw_if, when, ◌>>=◌, ◌>>◌,
}
use onion_architecture.Repositories.Slots as Slots
use onion_architecture.Repositories.Reservations as Reservations
use onion_architecture.Repositories.Sessions as Sessions

-- The states in which a reservation lets nobody in.
abbrev pub is_over : ReservationStatus → Bool
is_over ReservationStatus.expired = true
is_over ReservationStatus.cancelled = true
is_over ReservationStatus.completed = true
is_over _ = false

-- `existing && existing.isActive()`
abbrev pub has_active : Option ParkingSession → Bool
has_active none = false
has_active (some s) = is_active s

unfoldable pub register_entry : Env → Text → Action World ParkingSession
unfolding Reservations.find_by_id Sessions.find_by_reservation_id Reservations.update_status
    Sessions.create Slots.update_status
register_entry env id = do
  found ← Reservations.find_by_id id
  r ← or_throw found (domain (not_found reservation id))
  throw_if (is_over r.status) (domain reservation_expired)
  throw_if (ltb env.now r.start_at) (domain reservation_not_started)
  existing ← Sessions.find_by_reservation_id r.id
  throw_if (has_active existing) (domain session_already_active)
  when (same_status r.status ReservationStatus.pending)
      (Reservations.update_status r.id ReservationStatus.confirmed (some env.now))
  s ← Sessions.create (record {
    reservation_id = r.id;
    user_id = r.user_id;
    slot_id = r.slot_id;
    entry_at = env.now;
  })
  Slots.update_status env r.slot_id ocupada
  pure s

unfoldable pub release_slot : Env → Text → Action World (Unit {0})
unfolding Slots.update_status
release_slot env slot_id = Slots.update_status env slot_id disponible

-- `ExitResult`; the session is read back, and cast without a test for null.
pub data ExitResult : Type 0 where
  released : Option ParkingSession → ExitResult
  no_active_session payment_not_approved : ExitResult

abbrev pub payment_reply : Reply (Option Payment) → Action World (Option Payment)
payment_reply (answer p) w = (ok p, w)
payment_reply failed w = (err (domain payment_service_unavailable), w)

-- `PaymentLookupPort.findBySessionId`
abbrev pub find_payment : Env → Text → Action World (Option Payment)
find_payment env id = payment_reply (env.find_payment id)

-- `payment && payment.isApproved()`
abbrev pub is_settled : Option Payment → Bool
is_settled none = false
is_settled (some p) = is_approved p

unfoldable pub release_session : Env → ParkingSession → Action World ExitResult
unfolding Sessions.mark_completed release_slot Reservations.update_status Sessions.find_by_id
release_session env s = do
  Sessions.mark_completed s.id env.now
  release_slot env s.slot_id
  Reservations.update_status s.reservation_id ReservationStatus.completed none
  updated ← Sessions.find_by_id s.id
  pure (released updated)

unfoldable pub settle_session : Env → ParkingSession → Action World ExitResult
unfolding release_session
settle_session env s = do
  payment ← find_payment env s.id
  (if is_settled payment then release_session env s else pure payment_not_approved)

unfoldable pub register_exit : Env → Text → Action World ExitResult
unfolding Sessions.find_by_id settle_session
register_exit env id = do
  found ← Sessions.find_by_id id
  (elim found [
    | none ↦ pure no_active_session
    | some s ↦ if is_active s then settle_session env s else pure no_active_session
  ])
