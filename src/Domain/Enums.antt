-- ===== src/Domain/Enums.antt =====
-- The enums of backend/src/core/domain/enums, and their tests for equality.
use onion_architecture.Base.{Bool, true, false}

pub data SlotStatus : Type 0 where
  disponible reservada ocupada no_disponible : SlotStatus

pub data SlotType : Type 0 where
  regular moto electrico discapacitados : SlotType

pub data ReservationStatus : Type 0 where
  pending confirmed expired cancelled completed : ReservationStatus

pub data SessionStatus : Type 0 where
  active completed : SessionStatus

pub data PaymentStatus : Type 0 where
  pending approved rejected : PaymentStatus

-- `status === ReservationStatus.X`
unfoldable pub same_status : ReservationStatus → ReservationStatus → Bool
same_status ReservationStatus.pending ReservationStatus.pending = true
same_status ReservationStatus.confirmed ReservationStatus.confirmed = true
same_status ReservationStatus.expired ReservationStatus.expired = true
same_status ReservationStatus.cancelled ReservationStatus.cancelled = true
same_status ReservationStatus.completed ReservationStatus.completed = true
same_status _ _ = false

unfoldable pub same_type : SlotType → SlotType → Bool
same_type regular regular = true
same_type moto moto = true
same_type electrico electrico = true
same_type discapacitados discapacitados = true
same_type _ _ = false

abbrev pub is_disponible : SlotStatus → Bool
is_disponible disponible = true
is_disponible _ = false

-- Occupied or reserved: the `status: { in: [OCUPADA, RESERVADA] }` of the occupancy summary.
abbrev pub is_taken : SlotStatus → Bool
is_taken ocupada = true
is_taken reservada = true
is_taken _ = false

-- `status: { in: [PENDING, CONFIRMED] }`
abbrev pub is_live : ReservationStatus → Bool
is_live ReservationStatus.pending = true
is_live ReservationStatus.confirmed = true
is_live _ = false

abbrev pub is_running : SessionStatus → Bool
is_running SessionStatus.active = true
is_running SessionStatus.completed = false

abbrev pub is_paid : PaymentStatus → Bool
is_paid approved = true
is_paid _ = false
