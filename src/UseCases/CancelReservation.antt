-- ===== src/UseCases/CancelReservation.antt =====
-- `CancelReservationUseCase`.
pub mod Cars
pub mod Outcome
use onion_architecture.Base.{Bool, true, false, Option, none, some, ◌==◌, not, if◌then◌else◌}
use onion_architecture.Domain.{
  Text, ReservationStatus, disponible, Reservation, is_live, domain, not_found, reservation,
  reservation_expired,
}
use onion_architecture.World.{World}
use onion_architecture.World.Events.{
  Event, AuditEventType, audit, slot_status_changed, occupancy_updated,
}
use onion_architecture.World.Env.{Env}
use onion_architecture.World.Action.{Action, Result, ok, err, pure, or_throw, throw_if, ◌>>=◌, ◌>>◌}
use onion_architecture.Repositories.Reservations as Reservations
use onion_architecture.Policies.Parking.{release_slot}
use onion_architecture.UseCases.CreateReservation.{send}

-- `!row || row.userId !== input.userId` turns into the one error, so that no user can probe for
-- another's rows.
abbrev pub owned_by : Text → Option Reservation → Option Reservation
owned_by u none = none
owned_by u (some r) = if r.user_id == u then some r else none

unfoldable pub announce_cancelled : Env → Text → Reservation → Action World (Unit {0})
announce_cancelled env user_id r = do
  send (
      audit (record {
        event_type = AuditEventType.reservation_cancelled;
        occurred_at = env.now;
        aggregate_id = r.id;
        actor_user_id = user_id;
        branch_id = r.branch_id;
        slot_id = r.slot_id;
        status = ReservationStatus.cancelled;
      }))
  send (Event.reservation_cancelled r.id r.branch_id r.slot_id)
  send (slot_status_changed r.branch_id r.slot_id disponible)
  send (occupancy_updated r.branch_id)

-- `CancelReservationUseCase.execute`
unfoldable pub cancel_reservation : Env → Text → Text → Action World (Unit {0})
unfolding Reservations.find_by_id Reservations.update_status release_slot announce_cancelled
cancel_reservation env id user_id = do
  found ← Reservations.find_by_id id
  r ← or_throw (owned_by user_id found) (domain (not_found reservation id))
  throw_if (not (is_live r.status)) (domain reservation_expired)
  Reservations.update_status r.id ReservationStatus.cancelled none
  release_slot env r.slot_id
  announce_cancelled env user_id r
