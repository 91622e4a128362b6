-- ===== src/Tests/Tables.antt =====
-- The tables of the small system are consistent.
use onion_architecture.Base.{ℕ, ◌<◌, ◌≡◌, refl, sym, ◌∙◌, none, some, [], ◌∷◌, arith}
use onion_architecture.Base.Rows.{find, Keyed}
use onion_architecture.Domain.{Reservation}
use onion_architecture.Domain.{ReservationStatus}
use onion_architecture.Repositories.Slots.{slot_id}
use onion_architecture.Repositories.Reservations.{reservation_id}
use onion_architecture.Repositories.Sessions.{session_id}
use onion_architecture.Invariant.{Consistent}
use onion_architecture.Tests.Data.{
  empty_world, waiting_world, inside_world, reservation_in, session,
}

module _ {R : Type 0} (id : R → ℕ) where
  -- A table of one row.
  found-only : (i : ℕ) (r : R) {q : R} → find id i (r ∷ []) ≡ some q → (i ≡ id r) × (q ≡ r)
  unfolding find
  found-only i r {q = q} h = ground arith

  absent : (i : ℕ) (r : R) → id r < i → find id i (r ∷ []) ≡ none
  unfolding find
  absent i r h = ground arith

pub empty-slots : Keyed slot_id empty_world.slots
unfolding find
empty-slots = (refl, (refl, (refl, tt)))

pub waiting-Consistent : Consistent waiting_world
unfolding find
waiting-Consistent =
    let only =
      λ (i : ℕ) (q : Reservation) (h : find reservation_id i waiting_world.reservations ≡ some q).
        found-only reservation_id i (reservation_in ReservationStatus.pending) {q = q} h in
    record {
      slots_keyed = (refl, (refl, (refl, tt)));
      reservations_keyed = (refl, tt);
      sessions_keyed = tt;
      sessions_unique = tt;
      reservations_fresh = λ i h. absent reservation_id i _ h;
      sessions_fresh = λ i h. refl;
      one_per_user = λ i j r s hr hs lr ls e. (only i r hr).0 ∙ sym (only j s hs).0;
      one_per_slot = λ i j r s hr hs lr ls e. (only i r hr).0 ∙ sym (only j s hs).0;
      held = λ i r hr lr. let d = (only i r hr).1 in rw d (_, refl, refl);
      entered = λ i s hs as'. cc;
    }

pub inside-Consistent : Consistent inside_world
unfolding find
inside-Consistent =
    let only =
      λ (i : ℕ) (q : Reservation) (h : find reservation_id i inside_world.reservations ≡ some q).
        found-only reservation_id i (reservation_in ReservationStatus.confirmed) {q = q} h in
    record {
      slots_keyed = (refl, (refl, (refl, tt)));
      reservations_keyed = (refl, tt);
      sessions_keyed = (refl, tt);
      sessions_unique = (refl, tt);
      reservations_fresh = λ i h. absent reservation_id i _ (omega (arith, h));
      sessions_fresh = λ i h. absent session_id i session h;
      one_per_user = λ i j r s hr hs lr ls e. (only i r hr).0 ∙ sym (only j s hs).0;
      one_per_slot = λ i j r s hr hs lr ls e. (only i r hr).0 ∙ sym (only j s hs).0;
      held = λ i r hr lr. let d = (only i r hr).1 in rw d (_, refl, refl);
      entered = λ i s hs as'.
          let d = (found-only session_id i session {q = s} hs).1 in rw d (_, refl, refl, refl);
    }
