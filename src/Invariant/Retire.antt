-- ===== src/Invariant/Retire.antt =====
-- A live reservation ends and its slot becomes free: what cancelling, expiring and leaving share.
use onion_architecture.Base.{ℕ, ◌≡◌, true, false, Option, some, List, arith}
use onion_architecture.Base.Rows.{find, modify}
use onion_architecture.Base.Rows.Keys.{find-modify-some}
use onion_architecture.Domain.{
  ParkingSlot, Reservation, ParkingSession, ReservationStatus, is_live, is_active, disponible,
  Millis, is_disponible,
}
use onion_architecture.Repositories.Slots.{slot_id, with_status}
use onion_architecture.Repositories.Reservations.{reservation_id, set_status}
use onion_architecture.Repositories.Sessions.{session_id}
use onion_architecture.Invariant.{IsConsistent}
use onion_architecture.Invariant.Updates.{
  set_status-IsConsistent, with_status-IsConsistent, set_status-id, was_live,
}

module _ {slots : List ParkingSlot} {rs : List Reservation} {ss : List ParkingSession} {n : ℕ}
    (c : IsConsistent slots rs ss n) (k now : ℕ) (status : ReservationStatus) (at : Option Millis)
    {r : Reservation} (found : find reservation_id k rs ≡ some r) (live : is_live r.status ≡ true)
    (dead : is_live status ≡ false)
    (outside : (i : ℕ) (s : ParkingSession)
      → find session_id i ss ≡ some s
      → is_active s ≡ true
      → s.reservation_id ≡ k
      → ⊥) where
  abbrev retired : List Reservation
  retired = modify reservation_id k (set_status status at) rs

  -- Nobody else has the slot.
  slot_left :
      (i : ℕ) (q : Reservation)
      → find reservation_id i retired ≡ some q
      → is_live q.status ≡ true
      → q.slot_id ≡ r.slot_id
      → is_disponible disponible ≡ false
  slot_left i q hq lq e =
      let (p, ep, lp, _, sp) = was_live c k status at found (λ h. live) i q hq lq in
      let same = c.one_per_slot i k p r ep found lp live (ground arith) in
      let f =
        find-modify-some reservation_id k k (set_status status at) rs {r = r}
          (set_status-id c status at) found in
      absurd (ground (arith, same, f, hq, lq, dead))

  pub retire-IsConsistent :
      IsConsistent (modify slot_id r.slot_id (with_status now disponible) slots) retired ss n
  retire-IsConsistent =
      with_status-IsConsistent
        (set_status-IsConsistent c k status at found (λ h. live)
          λ i s hs as' e. absurd (outside i s hs as' e))
        r.slot_id now disponible slot_left
