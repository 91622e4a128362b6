-- ===== src/Realtime/Publisher.antt =====
-- What backend and payments-service publish for the sockets: RabbitRealtimePublisherAdapter of
-- backend/src/adapters/out/realtime and RabbitPaymentEventsAdapter of
-- payments-service/src/adapters/out/realtime.
pub mod Name
pub mod Told
use onion_architecture.Base.{ℕ, Option, none, some, List, [], ◌∷◌}
use onion_architecture.Domain.{Text}
use onion_architecture.World.{World}
use onion_architecture.World.Action.{Result, ok, err}
use onion_architecture.World.Events.{
  Event, reservation_created, reservation_expired, reservation_cancelled, slot_status_changed,
  occupancy_updated, entry_registered, exit_registered, request_resolved, audit, confirmation_email,
  request_queued,
}
use onion_architecture.Repositories.Slots.{OccupancySummary, get_occupancy_summary}
use onion_architecture.UseCases.Admin.{OccupancyLevel, compute_occupancy_level}
use onion_architecture.Payments.{PaymentEvent, payment_registered, audit_payment}
use onion_architecture.Realtime.Publisher.Name as Name
use onion_architecture.Realtime.{Envelope, Target, to_branch, to_user, to_admin}

-- The payload: the fields of the event itself, or the occupancy that is worked out for it.
pub data Payload : Type 0 where
  of_event : Event → Payload
  occupancy : (branch_id : Text) (occupied total : ℕ) → OccupancyLevel → Payload
  of_payment : PaymentEvent → Payload

-- `toBranch`
abbrev pub to_branch_room : Text → Text → Payload → Option (Envelope Payload)
to_branch_room branch_id event payload =
    some (record { event = event; target = some (to_branch branch_id); payload = payload })

abbrev pub occupancy_payload : Text → List OccupancySummary → Payload
occupancy_payload b [] = occupancy b 0 0 (compute_occupancy_level 0 0)
occupancy_payload b (s ∷ ss) =
    occupancy b s.occupied_or_reserved s.total_slots
      (compute_occupancy_level s.occupied_or_reserved s.total_slots)

abbrev pub occupancy_from : Text → Result (List OccupancySummary) → Option (Envelope Payload)
occupancy_from b (ok summaries) =
    to_branch_room b Name.occupancy_changed (occupancy_payload b summaries)
occupancy_from b (err e) = none

-- What is published for a notice of backend, in the world where it is; none: it is no notice for
-- the sockets, or the occupancy could not be read
unfoldable pub envelope_of : World → Event → Option (Envelope Payload)
unfolding get_occupancy_summary compute_occupancy_level
envelope_of w (reservation_created r b s u t) =
    to_branch_room b Name.created (of_event (reservation_created r b s u t))
envelope_of w (reservation_expired r b s) =
    to_branch_room b Name.expired (of_event (reservation_expired r b s))
envelope_of w (reservation_cancelled r b s) =
    to_branch_room b Name.cancelled (of_event (reservation_cancelled r b s))
envelope_of w (slot_status_changed b s t) =
    to_branch_room b Name.slot_changed (of_event (slot_status_changed b s t))
envelope_of w (occupancy_updated b) = occupancy_from b (get_occupancy_summary (b ∷ []) w).0
envelope_of w (entry_registered i b s u) =
    to_branch_room b Name.entry (of_event (entry_registered i b s u))
envelope_of w (exit_registered i b s) =
    to_branch_room b Name.exit (of_event (exit_registered i b s))
envelope_of w (request_resolved i u r) = some (record {
  event = Name.resolved;
  target = some (to_user u);
  payload = of_event (request_resolved i u r);
})
envelope_of w (audit a) = none
envelope_of w (confirmation_email m) = none
envelope_of w (request_queued m) = none

-- `paymentRegistered` of payments-service
unfoldable pub envelope_of_payment : PaymentEvent → Option (Envelope Payload)
envelope_of_payment (payment_registered i s b a t) = some (record {
  event = Name.payment;
  target = some to_admin;
  payload = of_payment (payment_registered i s b a t);
})
envelope_of_payment (audit_payment i s b u a t m) = none
