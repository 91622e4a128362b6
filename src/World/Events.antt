-- ===== src/World/Events.antt =====
-- The messages that the backend publishes: `RealtimeNotifierPort`, `AuditEventPublisherPort`,
-- `NotificationPublisherPort` and `ReservationRequestQueuePort` of backend/src/core/ports/out.
-- The random `eventId` is left out, since nothing reads it.
use onion_architecture.Base.{Option}
use onion_architecture.Domain.{
  Text, Millis, Double, SlotStatus, SlotType, ReservationStatus, DomainError,
}

-- `AuditEvent`, whose payload is that of a reservation.
pub data AuditEventType : Type 0 where
  reservation_created reservation_cancelled : AuditEventType

pub record AuditEvent : Type 0 where
  pub event_type : AuditEventType
  pub occurred_at : Millis
  pub aggregate_id : Text
  pub actor_user_id : Text
  pub branch_id : Text
  pub slot_id : Text
  pub status : ReservationStatus

-- `ReservationConfirmationEvent`
pub record ConfirmationEmail : Type 0 where
  pub occurred_at : Millis
  pub reservation_id : Text
  pub user_id : Text
  pub user_email : Text
  pub user_full_name : Text
  pub branch_id : Text
  pub branch_name : Text
  pub branch_address : Text
  pub slot_id : Text
  pub start_at : Millis
  pub expires_at : Millis

-- `ReservationRequestResolvedPayload`: a rejection carries the error for its code and message.
pub data Resolution : Type 0 where
  created : (id branch_id slot_id : Text) (start_at expires_at : Millis) → Resolution
  suggest_other_branch : (id name address : Text) → Double → Resolution
  rejected : DomainError → Resolution

-- `ReservationRequestMessage`
pub record RequestMessage : Type 0 where
  pub request_id : Text
  pub user_id : Text
  pub branch_id : Text
  pub slot_type : Option SlotType
  pub start_at : Option Millis
  pub requested_at : Millis

pub data Event : Type 0 where
  reservation_created : (reservation_id branch_id slot_id user_id : Text) → Millis → Event
  reservation_expired : (reservation_id branch_id slot_id : Text) → Event
  reservation_cancelled : (reservation_id branch_id slot_id : Text) → Event
  slot_status_changed : (branch_id slot_id : Text) → SlotStatus → Event
  occupancy_updated : (branch_id : Text) → Event
  entry_registered : (session_id branch_id slot_id user_id : Text) → Event
  exit_registered : (session_id branch_id slot_id : Text) → Event
  request_resolved : (request_id user_id : Text) → Resolution → Event
  audit : AuditEvent → Event
  confirmation_email : ConfirmationEmail → Event
  request_queued : RequestMessage → Event
