-- ===== src/UseCases/CancelReservation/Cars.antt =====
-- A cancellation and the car that may stand on the slot.
use onion_architecture.Base.{
  ◌≡◌, refl, sym, ap, ◌∙◌, inl, inr, true, Option, none, some, arith, Option-cases, Bool-cases, ℕ,
}
use onion_architecture.Base.Rows.{find}
use onion_architecture.Base.Rows.Keys.{find-key, find-modify-some}
use onion_architecture.Domain.{
  Text, Reservation, ParkingSession, ParkingSlot, ReservationStatus, is_live, is_active,
  is_available, disponible,
}
use onion_architecture.World.{World}
use onion_architecture.World.Env.{Env}
use onion_architecture.Repositories.Slots.{slot_id, with_status}
use onion_architecture.Repositories.Reservations.{reservation_id}
use onion_architecture.Repositories.Sessions.{session_id}
use onion_architecture.UseCases.CancelReservation.{cancel_reservation, owned_by}
use onion_architecture.UseCases.CancelReservation.Outcome.{
  cancelled_world, cancel_others, cancel_dead, cancel_live,
}
use onion_architecture.Invariant.{Consistent}
use onion_architecture.Invariant.Retire.{retire-IsConsistent}

-- No car is inside on the reservation.
abbrev pub NoCar : Text → World → Type 0
NoCar id w =
    (i : ℕ) (s : ParkingSession)
    → find session_id i w.sessions ≡ some s
    → is_active s ≡ true
    → s.reservation_id ≡ id
    → ⊥

owned-some :
    (u : Text) (o : Option Reservation) {r : Reservation}
    → owned_by u o ≡ some r
    → (o ≡ some r) × (r.user_id ≡ u)
owned-some u none h = cc
owned-some u (some q) {r = r} h = ground arith

module _ (env : Env) (id user_id : Text) (w : World) (c : Consistent w) where
  cancelled_world-Consistent :
      {r : Reservation}
      → find reservation_id id w.reservations ≡ some r
      → is_live r.status ≡ true
      → NoCar id w
      → Consistent (cancelled_world env user_id r w)
  cancelled_world-Consistent {r = r} f l n =
      let k = find-key reservation_id id w.reservations {s = r} f in
      retire-IsConsistent c r.id env.now ReservationStatus.cancelled none
        (ap (λ j. find reservation_id j w.reservations) k ∙ f) l refl
        (λ i s hs as' e. n i s hs as' (e ∙ k))

  -- Where no car is inside on the reservation, a cancellation keeps the tables consistent.
  pub cancel-Consistent : NoCar id w → Consistent (cancel_reservation env id user_id w).1
  cancel-Consistent n =
      elim (Option-cases (owned_by user_id (find reservation_id id w.reservations))) [
        | inl o ↦ rw (cancel_others env id user_id w o) c
        | inr (r, o) ↦
            let (f, u) = owned-some user_id (find reservation_id id w.reservations) o in
            elim (Bool-cases (is_live r.status)) [
              | inl l ↦ rw (cancel_live env id user_id w f u c l) (cancelled_world-Consistent f l n)
              | inr l ↦ rw (cancel_dead env id user_id w f u l) c
            ]
      ]

  -- In consistent tables, if the owner cancels a reservation whose car is inside, the session
  -- stays as it was, active, while its slot is free for the next claim.
  pub cancel_stranded :
      {r : Reservation} {s : ParkingSession} (i : ℕ)
      → find reservation_id id w.reservations ≡ some r
      → r.user_id ≡ user_id
      → find session_id i w.sessions ≡ some s
      → is_active s ≡ true
      → s.reservation_id ≡ id
      → (find session_id i (cancel_reservation env id user_id w).1.sessions ≡ some s)
        × (t : ParkingSlot) × (find slot_id s.slot_id (cancel_reservation env id user_id w).1.slots
            ≡ some t)
        × (is_available t ≡ true)
  cancel_stranded {r = r} {s = s} i f u g a e =
      let (q, eq, cq, sq) = c.entered i s g a in
      let same : find reservation_id id w.reservations ≡ some q =
        sym (ap (λ j. find reservation_id j w.reservations) e) ∙ eq in
      let (l, v) = lived same f cq sq in
      let (t, et, _) = c.held id r f l in
      let m =
        find-modify-some slot_id s.slot_id r.slot_id (with_status env.now disponible) w.slots
          {r = t} (λ x. refl) (sym (ap (λ j. find slot_id j w.slots) v) ∙ et) in
      rw (cancel_live env id user_id w f u c l)
        (g, with_status env.now disponible t, ground (arith, m, v), refl)
    where
      lived :
          {q r : Reservation} {k : ℕ}
          → find reservation_id id w.reservations ≡ some q
          → find reservation_id id w.reservations ≡ some r
          → q.status ≡ ReservationStatus.confirmed
          → q.slot_id ≡ k
          → (is_live r.status ≡ true) × (r.slot_id ≡ k)
      lived a b d e = (ground arith, ground arith)
