-- ===== src/Invariant.antt =====
-- What the tables of the backend keep to, whatever requests arrive one after another.
pub mod Updates
pub mod Inserts
pub mod Retire
pub mod Create
use onion_architecture.Base.{ℕ, ◌≤◌, ◌≡◌, true, false, none, some, List}
use onion_architecture.Base.Rows.{find, Keyed}
use onion_architecture.Domain.{
  ParkingSlot, Reservation, ParkingSession, ReservationStatus, is_live, is_available, is_active,
}
use onion_architecture.World.{World}
use onion_architecture.Repositories.Slots.{slot_id}
use onion_architecture.Repositories.Reservations.{reservation_id}
use onion_architecture.Repositories.Sessions.{session_id, session_reservation}

pub record IsConsistent (slots : List ParkingSlot) (rs : List Reservation)
    (ss : List ParkingSession) (next_id : ℕ) : Type 0 where
  pub slots_keyed : Keyed slot_id slots
  pub reservations_keyed : Keyed reservation_id rs
  pub sessions_keyed : Keyed session_id ss
  pub sessions_unique : Keyed session_reservation ss
  -- Identifiers from `next_id` on are not in use.
  pub reservations_fresh : (i : ℕ) → next_id ≤ i → find reservation_id i rs ≡ none
  pub sessions_fresh : (i : ℕ) → next_id ≤ i → find session_id i ss ≡ none
  -- A user has at most one live reservation, and so has a slot.
  pub one_per_user :
      (i j : ℕ) (r s : Reservation)
      → find reservation_id i rs ≡ some r
      → find reservation_id j rs ≡ some s
      → is_live r.status ≡ true
      → is_live s.status ≡ true
      → r.user_id ≡ s.user_id
      → i ≡ j
  pub one_per_slot :
      (i j : ℕ) (r s : Reservation)
      → find reservation_id i rs ≡ some r
      → find reservation_id j rs ≡ some s
      → is_live r.status ≡ true
      → is_live s.status ≡ true
      → r.slot_id ≡ s.slot_id
      → i ≡ j
  -- The slot of a live reservation is there, and nobody else can claim it.
  pub held :
      (i : ℕ) (r : Reservation)
      → find reservation_id i rs ≡ some r
      → is_live r.status ≡ true
      → (s : ParkingSlot) × (find slot_id r.slot_id slots ≡ some s) × (is_available s ≡ false)
  -- A car inside has a confirmed reservation of the slot that it stands on.
  pub entered :
      (i : ℕ) (s : ParkingSession)
      → find session_id i ss ≡ some s
      → is_active s ≡ true
      → (r : Reservation) × (find reservation_id s.reservation_id rs ≡ some r)
        × (r.status ≡ ReservationStatus.confirmed)
        × (r.slot_id ≡ s.slot_id)

abbrev pub Consistent : World → Type 0
Consistent w = IsConsistent w.slots w.reservations w.sessions w.next_id
