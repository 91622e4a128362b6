-- ===== src/Tests/Data.antt =====
-- A small parking system: two branches, three slots, and users 7 and 8.
use onion_architecture.Base.{
  ℕ, ◌+◌, ◌*◌, ◌-◌, true, Option, none, some, [], ◌∷◌, leb, ◌==◌, if◌then◌else◌,
}
use onion_architecture.Domain.{
  Text, Branch, ParkingSlot, Reservation, ParkingSession, ReservationStatus, SessionStatus, Payment,
  disponible, reservada, ocupada, regular, approved,
}
use onion_architecture.World.{World}
use onion_architecture.World.Env.{Env, DoubleOps, default_strategy, QrPayload, entry, exit, answer}
use onion_architecture.UseCases.CreateReservation.{CreateReservationInput}

-- Whole numbers in place of doubles; only the differences count.
abbrev pub whole : DoubleOps
whole = record {
  of_int = λ n. n;
  add = λ a b. a + b;
  sub = λ a b. a - b;
  mul = λ a b. a * b;
  div = λ a b. a;
  sin = λ a. a;
  cos = λ a. 1;
  sqrt = λ a. a;
  atan2 = λ a b. a;
  pi = 1;
  le = leb;
}

abbrev pub branch_at : Text → ℕ → Branch
branch_at id lat = record {
  id = id;
  name = id;
  address = id;
  lat = lat;
  lng = 0;
  price_per_hour = 500;
  created_at = 0;
}

abbrev pub slot_in : Text → Text → ParkingSlot
slot_in id b = record {
  id = id;
  branch_id = b;
  code = id;
  type = regular;
  status = disponible;
  updated_at = id;
}

-- Codes 1 and 2: an entry with reservation 100, an exit with session 101.
abbrev pub scan : Text → Option QrPayload
scan t =
    if t == 1 then some (entry (some 100)) else (if t == 2 then some (exit (some 101)) else none)

abbrev pub payment_of : Text → Payment
payment_of s = record {
  id = 900;
  session_id = s;
  user_id = 7;
  amount = 1000;
  status = approved;
  external_reference = none;
  paid_at = none;
  created_at = 0;
}

abbrev pub env : Env
env = record {
  now = 9000000;
  tolerance_minutes = 15;
  strategy = default_strategy;
  doubles = whole;
  verify_qr = scan;
  sign_entry_token = λ t. t;
  sign_exit_token = λ t. t;
  find_user = λ u. answer none;
  find_payment = λ s. answer (some (payment_of s));
  publish_accepted = λ m. true;
  enqueue_accepted = λ m. true;
  random_uuid = 77;
}

abbrev pub empty_world : World
empty_world = record {
  branches = branch_at 1 3 ∷ branch_at 2 9 ∷ [];
  slots = slot_in 11 1 ∷ slot_in 12 1 ∷ slot_in 21 2 ∷ [];
  reservations = [];
  sessions = [];
  next_id = 100;
  sent = [];
}

abbrev pub input : CreateReservationInput
input = record { user_id = 7; branch_id = 1; slot_type = none; start_at = none }

abbrev pub reservation_in : ReservationStatus → Reservation
reservation_in status = record {
  id = 100;
  user_id = 7;
  branch_id = 1;
  slot_id = 11;
  requested_type = regular;
  status = status;
  created_at = 1000000;
  start_at = 1000000;
  expires_at = 1900000;
  confirmed_at = none;
}

abbrev pub session : ParkingSession
session = record {
  id = 101;
  reservation_id = 100;
  user_id = 7;
  slot_id = 11;
  status = SessionStatus.active;
  entry_at = 2000000;
  exit_at = none;
}

-- Reservation 100 waits for its car.
abbrev pub waiting_world : World
waiting_world = record empty_world {
  slots = record (slot_in 11 1) { status = reservada } ∷ slot_in 12 1 ∷ slot_in 21 2 ∷ [];
  reservations = reservation_in ReservationStatus.pending ∷ [];
  next_id = 101;
}

-- Its car is inside, as session 101.
abbrev pub inside_world : World
inside_world = record empty_world {
  slots = record (slot_in 11 1) { status = ocupada } ∷ slot_in 12 1 ∷ slot_in 21 2 ∷ [];
  reservations = reservation_in ReservationStatus.confirmed ∷ [];
  sessions = session ∷ [];
  next_id = 102;
}
