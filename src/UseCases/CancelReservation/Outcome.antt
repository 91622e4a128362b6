-- ===== src/UseCases/CancelReservation/Outcome.antt =====
-- What a cancellation does: to the owner's live reservation, and to nothing else.
use onion_architecture.Base.{◌≡◌, refl, true, false, none, some, ◌∷◌, arith}
use onion_architecture.Base.Rows.{find, modify}
use onion_architecture.Base.Rows.Keys.{find_self}
use onion_architecture.Domain.{
  Text, Reservation, ReservationStatus, is_live, disponible, domain, not_found, reservation,
  reservation_expired,
}
use onion_architecture.World.{World}
use onion_architecture.World.Events.{
  Event, AuditEventType, audit, slot_status_changed, occupancy_updated,
}
use onion_architecture.World.Env.{Env}
use onion_architecture.World.Action.{ok, err}
use onion_architecture.Repositories.Slots as Slots
use onion_architecture.Repositories.Slots.{slot_id, with_status}
use onion_architecture.Repositories.Reservations as Reservations
use onion_architecture.Repositories.Reservations.{reservation_id, set_status}
use onion_architecture.Policies.Parking.{release_slot}
use onion_architecture.UseCases.CancelReservation.{cancel_reservation, announce_cancelled, owned_by}
use onion_architecture.Invariant.{Consistent}

-- The world once a reservation is cancelled: its status, its slot, and four messages.
abbrev pub cancelled_world : Env → Text → Reservation → World → World
cancelled_world env user_id r w = record w {
  slots = modify slot_id r.slot_id (with_status env.now disponible) w.slots;
  reservations =
      modify reservation_id r.id (set_status ReservationStatus.cancelled none) w.reservations;
  sent =
      occupancy_updated r.branch_id
      ∷ slot_status_changed r.branch_id r.slot_id disponible
      ∷ Event.reservation_cancelled r.id r.branch_id r.slot_id
      ∷ audit (record {
        event_type = AuditEventType.reservation_cancelled;
        occurred_at = env.now;
        aggregate_id = r.id;
        actor_user_id = user_id;
        branch_id = r.branch_id;
        slot_id = r.slot_id;
        status = ReservationStatus.cancelled;
      })
      ∷ w.sent;
}

module _ (env : Env) (id user_id : Text) (w : World) where
  -- To cancel a reservation that does not exist or belongs to another user gives the same error
  -- and changes nothing.
  pub cancel_others :
      (owned_by user_id (find reservation_id id w.reservations) ≡ none)
      → cancel_reservation env id user_id w ≡ (err (domain (not_found reservation id)), w)
  unfolding cancel_reservation Reservations.find_by_id
  cancel_others h = rw h refl

  module _ {r : Reservation} (found : find reservation_id id w.reservations ≡ some r)
      (own : r.user_id ≡ user_id) where
    mine : owned_by user_id (find reservation_id id w.reservations) ≡ some r
    mine = ground arith

    pub cancel_dead :
        is_live r.status ≡ false
        → cancel_reservation env id user_id w ≡ (err (domain reservation_expired), w)
    unfolding cancel_reservation Reservations.find_by_id
    cancel_dead d = rw (mine, d) refl

    -- In consistent tables, the owner of a pending or confirmed reservation who cancels it
    -- succeeds: its row is cancelled, its slot is free, and an audit record and three notices
    -- are sent.
    pub cancel_live :
        Consistent w
        → is_live r.status ≡ true
        → cancel_reservation env id user_id w ≡ (ok tt, cancelled_world env user_id r w)
    unfolding cancel_reservation Reservations.find_by_id release_slot announce_cancelled
    cancel_live c l =
        let (s, es, _) = c.held id r found l in
        let here = find_self reservation_id id w.reservations {s = r} found in
        let v = record w {
          reservations =
              modify reservation_id r.id (set_status ReservationStatus.cancelled none)
                w.reservations;
        } in
        rw
          (
            mine,
            l,
            Reservations.update_status-some r.id ReservationStatus.cancelled none w here,
            Slots.update_status-some env r.slot_id disponible v es,
          )
          refl
