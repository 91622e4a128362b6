-- ===== src/UseCases/RegisterExit.antt =====
-- `RegisterExitUseCase`.
pub mod Outcome
pub mod Release
use onion_architecture.Base.{◌-◌, Bool, not, Option, none, some, ltb, truthy, if◌then◌else◌}
use onion_architecture.Domain.{
  Text, Cents, disponible, Reservation, ParkingSession, Payment, is_active, is_approved, Failure,
  domain, infra, invalid_qr_code, session_not_active, not_found, reservation, payment_not_approved,
  overstay_payment_insufficient, type_error,
}
use onion_architecture.World.{World}
use onion_architecture.World.Events.{exit_registered, slot_status_changed, occupancy_updated}
use onion_architecture.World.Env.{Env, QrPayload, entry, exit, Reply, answer, failed}
use onion_architecture.World.Action.{
  Action, Result, ok, err, pure, throw, or_throw, throw_if, ◌>>=◌, ◌>>◌,
}
use onion_architecture.Repositories.Sessions as Sessions
use onion_architecture.Repositories.Reservations as Reservations
use onion_architecture.Policies.Pricing.{calculate}
use onion_architecture.Policies.Parking as Parking
use onion_architecture.Policies.Parking.{
  ExitResult, released, no_active_session, find_payment, register_exit,
}
use onion_architecture.UseCases.CreateReservation.{send}

-- OVERSTAY_TOLERANCE, 0.01 soles
abbrev pub overstay_tolerance : Cents
overstay_tolerance = 1

-- `payload.type !== 'EXIT' || !payload.sessionId`
abbrev pub exit_target : Option QrPayload → Option Text
exit_target (some (exit id)) = truthy id
exit_target _ = none

-- `session && session.isActive()`
abbrev pub if_active : Option ParkingSession → Option ParkingSession
if_active none = none
if_active (some s) = if is_active s then some s else none

-- `payment && payment.isApproved()`
abbrev pub if_approved : Option Payment → Option Payment
if_approved none = none
if_approved (some p) = if is_approved p then some p else none

-- How the result of the policy is read.
abbrev pub settle : ExitResult → Action World ParkingSession
settle (released (some s)) = pure s
settle (released none) = throw (infra type_error)
settle no_active_session = throw (domain session_not_active)
settle Parking.payment_not_approved = throw (domain payment_not_approved)

-- `RegisterExitUseCase.execute`. What is missing of the price stops at 0 here, which is below the
-- tolerance as a negative amount is.
unfoldable pub leave : Env → Text → Action World ParkingSession
unfolding Sessions.find_by_id Reservations.find_by_id calculate register_exit
leave env qr = do
  id ← or_throw (exit_target (env.verify_qr qr)) (domain invalid_qr_code)
  found ← Sessions.find_by_id id
  s ← or_throw (if_active found) (domain session_not_active)
  stored ← Reservations.find_by_id s.reservation_id
  r ← or_throw stored (domain (not_found reservation s.reservation_id))
  paid ← find_payment env s.id
  p ← or_throw (if_approved paid) (domain payment_not_approved)
  price ← calculate (record {
    branch_id = r.branch_id;
    slot_type = r.requested_type;
    entry_at = s.entry_at;
    exit_at = env.now;
    user_id = s.user_id;
  })
  let missing = price.amount - p.amount
  throw_if (ltb overstay_tolerance missing) (domain (overstay_payment_insufficient missing))
  result ← register_exit env id
  done ← settle result
  send (exit_registered done.id r.branch_id done.slot_id)
  send (slot_status_changed r.branch_id done.slot_id disponible)
  send (occupancy_updated r.branch_id)
  pure done
