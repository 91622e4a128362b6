-- ===== src/Invariant/Inserts.antt =====
-- New rows and the statements on many rows keep the tables consistent, under their conditions.
use onion_architecture.Base.{
  ℕ, suc, ◌≡◌, ◌≢◌, refl, inl, inr, Bool, true, false, none, some, List, [], ◌∷◌, ◌++◌, arith,
  Bool-cases,
}
use onion_architecture.Base.Rows.{find, update_many}
use onion_architecture.Base.Rows.Keys.{
  find-update_many, update_many-Keyed, append-find, append-Keyed, find-append,
}
use onion_architecture.Domain.{
  ParkingSlot, Reservation, ParkingSession, ReservationStatus, is_live, is_available, ocupada,
}
use onion_architecture.Repositories.Slots.{slot_id, with_status}
use onion_architecture.Repositories.Reservations.{reservation_id}
use onion_architecture.Repositories.Sessions.{session_id, session_reservation}
use onion_architecture.Invariant.{IsConsistent}

module _ {slots : List ParkingSlot} {rs : List Reservation} {ss : List ParkingSession} {n : ℕ}
    (c : IsConsistent slots rs ss n) where
  -- Slots that are free may all be marked as taken.
  pub update_many-IsConsistent :
      (p : ParkingSlot → Bool) (now : ℕ)
      → IsConsistent (update_many p (with_status now ocupada) slots) rs ss n
  update_many-IsConsistent p now = record {
    slots_keyed =
        update_many-Keyed slot_id p (with_status now ocupada) slots (λ s. refl) c.slots_keyed;
    reservations_keyed = c.reservations_keyed;
    sessions_keyed = c.sessions_keyed;
    sessions_unique = c.sessions_unique;
    reservations_fresh = c.reservations_fresh;
    sessions_fresh = c.sessions_fresh;
    one_per_user = c.one_per_user;
    one_per_slot = c.one_per_slot;
    held = λ i r hr lr.
        let (s, es, as') = c.held i r hr lr in
        let q = find-update_many slot_id r.slot_id p (with_status now ocupada) slots (λ s. refl) in
        elim (Bool-cases (p s)) [
          | inl y ↦ (with_status now ocupada s, ground (arith, q, y), refl)
          | inr m ↦ (s, ground (arith, q, m), as')
        ];
    entered = c.entered;
  }

  module _ (r : Reservation) (new : r.id ≡ n)
      (user_free : (i : ℕ) (s : Reservation)
        → find reservation_id i rs ≡ some s
        → is_live s.status ≡ true
        → s.user_id ≢ r.user_id)
      (slot_free : (i : ℕ) (s : Reservation)
        → find reservation_id i rs ≡ some s
        → is_live s.status ≡ true
        → s.slot_id ≢ r.slot_id)
      (held : (s : ParkingSlot) × (find slot_id r.slot_id slots ≡ some s)
        × (is_available s ≡ false)) where
    -- The new reservation of a user who has none, for a slot that nobody has.
    pub new_reservation-IsConsistent : IsConsistent slots (rs ++ r ∷ []) ss (suc n)
    new_reservation-IsConsistent = record {
      slots_keyed = c.slots_keyed;
      reservations_keyed =
          append-Keyed reservation_id r rs (c.reservations_fresh r.id (omega arith))
            c.reservations_keyed;
      sessions_keyed = c.sessions_keyed;
      sessions_unique = c.sessions_unique;
      reservations_fresh = λ i h.
          ground (arith, c.reservations_fresh i (omega arith), find-append reservation_id i r rs);
      sessions_fresh = λ i h. c.sessions_fresh i (omega arith);
      one_per_user = λ i j a b ha hb la lb e. ground (
        arith,
        append-find reservation_id i r rs {s = a} ha,
        append-find reservation_id j r rs {s = b} hb,
        c.one_per_user i j a b,
        user_free i a,
        user_free j b,
      );
      one_per_slot = λ i j a b ha hb la lb e. ground (
        arith,
        append-find reservation_id i r rs {s = a} ha,
        append-find reservation_id j r rs {s = b} hb,
        c.one_per_slot i j a b,
        slot_free i a,
        slot_free j b,
      );
      held = λ i a ha la. elim (append-find reservation_id i r rs {s = a} ha) [
        | inl old ↦ c.held i a old la
        | inr (_, _, e) ↦ rw e held
      ];
      entered = λ i s hs as'.
          let (q, eq, cq, sq) = c.entered i s hs as' in
          (q, ground (arith, find-append reservation_id s.reservation_id r rs), cq, sq);
    }

  module _ (s : ParkingSession) (new : s.id ≡ n)
      (unique : find session_reservation s.reservation_id ss ≡ none)
      (confirmed : (r : Reservation) × (find reservation_id s.reservation_id rs ≡ some r)
        × (r.status ≡ ReservationStatus.confirmed)
        × (r.slot_id ≡ s.slot_id)) where
    -- The new session of a confirmed reservation.
    pub new_session-IsConsistent : IsConsistent slots rs (ss ++ s ∷ []) (suc n)
    new_session-IsConsistent = record {
      slots_keyed = c.slots_keyed;
      reservations_keyed = c.reservations_keyed;
      sessions_keyed =
          append-Keyed session_id s ss (c.sessions_fresh s.id (omega arith)) c.sessions_keyed;
      sessions_unique = append-Keyed session_reservation s ss unique c.sessions_unique;
      reservations_fresh = λ i h. c.reservations_fresh i (omega arith);
      sessions_fresh =
          λ i h. ground (arith, c.sessions_fresh i (omega arith), find-append session_id i s ss);
      one_per_user = c.one_per_user;
      one_per_slot = c.one_per_slot;
      held = c.held;
      entered = λ i t ht at'. elim (append-find session_id i s ss {s = t} ht) [
        | inl old ↦ c.entered i t old at'
        | inr (_, _, e) ↦ rw e confirmed
      ];
    }
