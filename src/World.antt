-- ===== src/World.antt =====
-- The state that the backend's use cases work on: the tables of its database
-- (backend/prisma/schema.prisma), the messages that it has sent (newest first), and what it reads
-- from outside; and the calls that read and change that state.
pub mod Events
pub mod Action
pub mod Env
use onion_architecture.Base.{ℕ, Bool, Option, List}
use onion_architecture.Domain.{Text, Millis, Branch, ParkingSlot, Reservation, ParkingSession}
use Events.{Event}

pub record World : Type 0 where
  pub branches : List Branch
  pub slots : List ParkingSlot
  pub reservations : List Reservation
  pub sessions : List ParkingSession
  -- The `uuid()` of the next row: no identifier is given twice, and none is the empty text.
  pub next_id : Text
  -- The messages published so far, newest first.
  pub sent : List Event
