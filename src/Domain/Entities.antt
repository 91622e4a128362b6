-- ===== src/Domain/Entities.antt =====
-- The entities of backend/src/core/domain/entities, with their methods.
use onion_architecture.Base.{Bool, Option}
use onion_architecture.Domain.Kinds.{Text, Millis, Cents, Double}
use onion_architecture.Domain.Enums.{
  SlotStatus, SlotType, ReservationStatus, SessionStatus, PaymentStatus, same_status, is_disponible,
  is_running, is_paid,
}

pub record Branch : Type 0 where
  pub id : Text
  pub name : Text
  pub address : Text
  pub lat : Double
  pub lng : Double
  pub price_per_hour : Cents
  pub created_at : Millis

pub record ParkingSlot : Type 0 where
  pub id : Text
  pub branch_id : Text
  pub code : Text
  pub type : SlotType
  pub status : SlotStatus
  pub updated_at : Millis

pub record Reservation : Type 0 where
  pub id : Text
  pub user_id : Text
  pub branch_id : Text
  pub slot_id : Text
  pub requested_type : SlotType
  pub status : ReservationStatus
  pub created_at : Millis
  pub start_at : Millis
  pub expires_at : Millis
  pub confirmed_at : Option Millis

pub record ParkingSession : Type 0 where
  pub id : Text
  pub reservation_id : Text
  pub user_id : Text
  pub slot_id : Text
  pub status : SessionStatus
  pub entry_at : Millis
  pub exit_at : Option Millis

pub record Payment : Type 0 where
  pub id : Text
  pub session_id : Text
  pub user_id : Text
  pub amount : Cents
  pub status : PaymentStatus
  pub external_reference : Option Text
  pub paid_at : Option Millis
  pub created_at : Millis

-- `ParkingSlot.isAvailable`
abbrev pub is_available : ParkingSlot → Bool
is_available s = is_disponible s.status

-- `Reservation.isPending`
abbrev pub is_pending : Reservation → Bool
is_pending r = same_status r.status ReservationStatus.pending

-- `ParkingSession.isActive`
abbrev pub is_active : ParkingSession → Bool
is_active s = is_running s.status

-- `Payment.isApproved`
abbrev pub is_approved : Payment → Bool
is_approved p = is_paid p.status
