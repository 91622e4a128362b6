-- ===== src/Invariant/Updates.antt =====
-- Each statement of the database keeps the tables consistent, under its own condition.
use onion_architecture.Base.{
  ℕ, ◌≡◌, refl, inl, inr, true, false, Option, none, some, List, arith, Bool-cases, ◌==◌,
}
use onion_architecture.Base.Rows.{find, modify}
use onion_architecture.Base.Rows.Keys.{
  find-modify, modify-find, find-modify-some, modify-Keyed_other, modify-Keyed,
}
use onion_architecture.Domain.{
  Millis, ParkingSlot, Reservation, ParkingSession, ReservationStatus, SlotStatus, is_live,
  is_active, is_disponible,
}
use onion_architecture.Repositories.Slots.{slot_id, with_status}
use onion_architecture.Repositories.Reservations.{reservation_id, set_status}
use onion_architecture.Repositories.Sessions.{session_id, session_reservation, complete}
use onion_architecture.Invariant.{IsConsistent}

module _ {slots : List ParkingSlot} {rs : List Reservation} {ss : List ParkingSession} {n : ℕ}
    (c : IsConsistent slots rs ss n) where
  pub set_status-id :
      (status : ReservationStatus) (at : Option Millis) (r : Reservation)
      → (set_status status at r).id ≡ r.id
  set_status-id status none r = refl
  set_status-id status (some t) r = refl

  module _ (k : ℕ) (status : ReservationStatus) (at : Option Millis) {r : Reservation}
      (found : find reservation_id k rs ≡ some r)
      (live : is_live status ≡ true → is_live r.status ≡ true) where
    abbrev pub updated : List Reservation
    updated = modify reservation_id k (set_status status at) rs

    -- A live reservation was live before, of the same user and slot.
    pub was_live :
        (i : ℕ) (r' : Reservation)
        → find reservation_id i updated ≡ some r'
        → is_live r'.status ≡ true
        → (s : Reservation) × (find reservation_id i rs ≡ some s)
          × (is_live s.status ≡ true)
          × (r'.user_id ≡ s.user_id)
          × (r'.slot_id ≡ s.slot_id)
    was_live i r' h l =
        let (s, e, d) =
          modify-find reservation_id i k (set_status status at) rs {s = r'}
            (set_status-id status at) h in
        (s, e, ground (arith, d, found), ground (arith, d), ground (arith, d))

    -- A reservation takes a new status: none comes to life, and that of a car inside is confirmed.
    pub set_status-IsConsistent :
        ((i : ℕ) (s : ParkingSession)
          → find session_id i ss ≡ some s
          → is_active s ≡ true
          → s.reservation_id ≡ k
          → status ≡ ReservationStatus.confirmed)
        → IsConsistent slots updated ss n
    set_status-IsConsistent inside = record {
      slots_keyed = c.slots_keyed;
      reservations_keyed =
          modify-Keyed reservation_id k (set_status status at) rs (set_status-id status at)
            c.reservations_keyed;
      sessions_keyed = c.sessions_keyed;
      sessions_unique = c.sessions_unique;
      reservations_fresh = λ i h. ground (
        arith,
        c.reservations_fresh i h,
        find-modify reservation_id i k (set_status status at) rs (set_status-id status at),
      );
      sessions_fresh = c.sessions_fresh;
      one_per_user = λ i j a b ha hb la lb e.
          let (a', ea, la', ua, _) = was_live i a ha la in
          let (b', eb, lb', ub, _) = was_live j b hb lb in
          c.one_per_user i j a' b' ea eb la' lb' (ground arith);
      one_per_slot = λ i j a b ha hb la lb e.
          let (a', ea, la', _, ua) = was_live i a ha la in
          let (b', eb, lb', _, ub) = was_live j b hb lb in
          c.one_per_slot i j a' b' ea eb la' lb' (ground arith);
      held =
          λ i a ha la. let (a', ea, la', _, ua) = was_live i a ha la in rw ua (c.held i a' ea la');
      entered = λ i s hs as'.
          let (r', er, cr, sr) = c.entered i s hs as' in
          let q =
            find-modify-some reservation_id s.reservation_id k (set_status status at) rs {r = r'}
              (set_status-id status at) er in
          elim (Bool-cases (s.reservation_id == k)) [
            | inl y ↦ (
              set_status status at r',
              ground (arith, q),
              ground (arith, inside i s hs as'),
              ground arith,
            )
            | inr n ↦ (r', ground (arith, q), cr, sr)
          ];
    }

  -- A slot takes a new status: it may only become free where no live reservation has it.
  pub with_status-IsConsistent :
      (k now : ℕ) (status : SlotStatus)
      → ((i : ℕ) (r : Reservation)
          → find reservation_id i rs ≡ some r
          → is_live r.status ≡ true
          → r.slot_id ≡ k
          → is_disponible status ≡ false)
      → IsConsistent (modify slot_id k (with_status now status) slots) rs ss n
  with_status-IsConsistent k now status free = record {
    slots_keyed = modify-Keyed slot_id k (with_status now status) slots (λ s. refl) c.slots_keyed;
    reservations_keyed = c.reservations_keyed;
    sessions_keyed = c.sessions_keyed;
    sessions_unique = c.sessions_unique;
    reservations_fresh = c.reservations_fresh;
    sessions_fresh = c.sessions_fresh;
    one_per_user = c.one_per_user;
    one_per_slot = c.one_per_slot;
    held = λ i r hr lr.
        let (s, es, as') = c.held i r hr lr in
        let q =
          find-modify-some slot_id r.slot_id k (with_status now status) slots {r = s} (λ s. refl)
            es in
        elim (Bool-cases (r.slot_id == k)) [
          | inl y ↦ (with_status now status s, ground (arith, q), free i r hr lr (ground arith))
          | inr m ↦ (s, ground (arith, q), as')
        ];
    entered = c.entered;
  }

  -- A car leaves: its session ends, and that is all.
  pub complete-IsConsistent :
      (k at : ℕ) → IsConsistent slots rs (modify session_id k (complete at) ss) n
  complete-IsConsistent k at = record {
    slots_keyed = c.slots_keyed;
    reservations_keyed = c.reservations_keyed;
    sessions_keyed = modify-Keyed session_id k (complete at) ss (λ s. refl) c.sessions_keyed;
    sessions_unique =
        modify-Keyed_other session_id session_reservation k (complete at) ss (λ s. refl)
          c.sessions_unique;
    reservations_fresh = c.reservations_fresh;
    sessions_fresh = λ i h.
        ground
          (arith, c.sessions_fresh i h, find-modify session_id i k (complete at) ss (λ s. refl));
    one_per_user = c.one_per_user;
    one_per_slot = c.one_per_slot;
    held = c.held;
    entered = λ i s hs as'.
        let (t, et, d) = modify-find session_id i k (complete at) ss {s = s} (λ s. refl) hs in
        let same : s ≡ t = ground (arith, d) in c.entered i s (rw same et) as';
  }
