-- ===== src/UseCases/CreateReservation.antt =====
-- `CreateReservationUseCase`, the queue in front of it (`RequestReservationUseCase`) and its
-- consumer (`ProcessReservationRequestUseCase`).
pub mod Outcome
pub mod Queue
use onion_architecture.Base.{
  Bool, true, false, Option, none, some, ◌∷◌, if◌then◌else◌, or_else, not,
}
use onion_architecture.Domain.{
  Text, Millis, Double, SlotType, ReservationStatus, reservada, Branch, ParkingSlot, Reservation,
  Failure, domain, infra, no_availability, reservation_already_active,
  reservation_queue_unavailable,
}
use onion_architecture.World.{World}
use onion_architecture.World.Events.{
  Event, AuditEventType, RequestMessage, Resolution, ConfirmationEmail, occupancy_updated,
  slot_status_changed, confirmation_email, audit, request_resolved, request_queued,
}
use onion_architecture.World.Env.{Env, Reply, answer, failed, UserLookupResult}
use onion_architecture.World.Action.{
  Action, Result, ok, err, pure, throw, throw_if, modify, ◌>>=◌, ◌>>◌,
}
use onion_architecture.Repositories.Reservations.{create}
use onion_architecture.Repositories.Branches as Branches
use onion_architecture.Policies.Eligibility.{
  Eligibility, allowed, can_create_reservation, calculate_expires_at,
}
use onion_architecture.Policies.Assignment.{Assignment, assigned, assign}
use onion_architecture.Policies.Assignment as Assignments

-- `CreateReservationInput`
pub record CreateReservationInput : Type 0 where
  pub user_id : Text
  pub branch_id : Text
  pub slot_type : Option SlotType
  pub start_at : Option Millis

-- `CreateReservationResult`
pub data CreateReservationResult : Type 0 where
  created : Reservation → CreateReservationResult
  suggest_other_branch : Branch → Double → CreateReservationResult

abbrev pub send : Event → Action World (Unit {0})
send e w = (ok tt, record w { sent = e ∷ w.sent })

abbrev pub email_of : Env → Reservation → UserLookupResult → Branch → ConfirmationEmail
email_of env r u b = record {
  occurred_at = env.now;
  reservation_id = r.id;
  user_id = u.id;
  user_email = u.email;
  user_full_name = u.full_name;
  branch_id = b.id;
  branch_name = b.name;
  branch_address = b.address;
  slot_id = r.slot_id;
  start_at = r.start_at;
  expires_at = r.expires_at;
}

-- A message that the broker refuses is lost: the error is logged and goes no further.
abbrev pub send_email : Env → ConfirmationEmail → Action World (Unit {0})
send_email env m = if env.publish_accepted m then send (confirmation_email m) else pure tt

abbrev pub email_to :
    Env → Reservation → Option UserLookupResult → Option Branch → Action World (Unit {0})
email_to env r (some u) (some b) = send_email env (email_of env r u b)
email_to env r _ none = pure tt
email_to env r none _ = pure tt

abbrev pub answer_to : Env → Reservation → Reply (Option UserLookupResult) → Action World (Unit {0})
answer_to env r failed = pure tt
answer_to env r (answer user) = do
  branch ← Branches.find_by_id r.branch_id
  email_to env r user branch

unfoldable pub publish_confirmation_email : Env → Reservation → Action World (Unit {0})
unfolding Branches.find_by_id
publish_confirmation_email env r = answer_to env r (env.find_user r.user_id)

-- The audit record and the three notices of a new reservation, oldest first.
unfoldable pub announce_created : Env → Reservation → Action World (Unit {0})
announce_created env r = do
  send (
      audit (record {
        event_type = AuditEventType.reservation_created;
        occurred_at = env.now;
        aggregate_id = r.id;
        actor_user_id = r.user_id;
        branch_id = r.branch_id;
        slot_id = r.slot_id;
        status = r.status;
      }))
  send (Event.reservation_created r.id r.branch_id r.slot_id r.user_id r.expires_at)
  send (slot_status_changed r.branch_id r.slot_id reservada)
  send (occupancy_updated r.branch_id)

unfoldable pub reserve_slot :
    Env → CreateReservationInput → ParkingSlot → Action World CreateReservationResult
unfolding create calculate_expires_at announce_created publish_confirmation_email
reserve_slot env input s = do
  let start_at = or_else input.start_at env.now
  r ← create env (record {
    user_id = input.user_id;
    branch_id = input.branch_id;
    slot_id = s.id;
    requested_type = or_else input.slot_type s.type;
    start_at = start_at;
    expires_at = calculate_expires_at env start_at;
  })
  announce_created env r
  publish_confirmation_email env r
  pure (created r)

-- The three outcomes of an assignment.
abbrev pub conclude :
    Env → CreateReservationInput → Assignment → Action World CreateReservationResult
conclude env input Assignments.no_availability = throw (domain no_availability)
conclude env input (Assignments.suggest_other_branch b d) = pure (suggest_other_branch b d)
conclude env input (assigned s) = reserve_slot env input s

abbrev pub is_allowed : Eligibility → Bool
is_allowed allowed = true
is_allowed _ = false

-- `CreateReservationUseCase.execute`
unfoldable pub create_reservation :
    Env → CreateReservationInput → Action World CreateReservationResult
unfolding can_create_reservation assign reserve_slot
create_reservation env input = do
  eligibility ← can_create_reservation input.user_id
  throw_if (not (is_allowed eligibility)) (domain reservation_already_active)
  assignment ← assign env input.branch_id input.slot_type
  conclude env input assignment

-- `RequestReservationUseCase.execute`: the message is queued, or the caller is told that it is not.
unfoldable pub request_reservation : Env → CreateReservationInput → Action World Text
request_reservation env input =
    let m : RequestMessage = record {
      request_id = env.random_uuid;
      user_id = input.user_id;
      branch_id = input.branch_id;
      slot_type = input.slot_type;
      start_at = input.start_at;
      requested_at = env.now;
    } in
    if env.enqueue_accepted m
    then send (request_queued m) >> pure m.request_id
    else throw (domain reservation_queue_unavailable)

abbrev pub resolution_of : CreateReservationResult → Resolution
resolution_of (created r) = Resolution.created r.id r.branch_id r.slot_id r.start_at r.expires_at
resolution_of (suggest_other_branch b d) = Resolution.suggest_other_branch b.id b.name b.address d

-- The `try`/`catch` round the use case: a domain error is an answer, any other is thrown on.
abbrev pub resolve : RequestMessage → Result CreateReservationResult → Action World (Unit {0})
resolve m (ok result) = send (request_resolved m.request_id m.user_id (resolution_of result))
resolve m (err (domain e)) = send (request_resolved m.request_id m.user_id (Resolution.rejected e))
resolve m (err (infra e)) = throw (infra e)

abbrev pub input_of : RequestMessage → CreateReservationInput
input_of m = record {
  user_id = m.user_id;
  branch_id = m.branch_id;
  slot_type = m.slot_type;
  start_at = m.start_at;
}

-- `ProcessReservationRequestUseCase.execute`
unfoldable pub process_request : Env → RequestMessage → Action World (Unit {0})
unfolding create_reservation
process_request env m w =
    let (result, w') = create_reservation env (input_of m) w in resolve m result w'
