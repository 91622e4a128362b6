-- ===== src/UseCases/RegisterEntry/Outcome.antt =====
-- What a guard's scan of an entry code comes to.
use onion_architecture.Base.{
  ◌≡◌, refl, inl, inr, false, Option, none, some, ◌∷◌, arith, ltb, Option-cases, Bool-cases,
}
use onion_architecture.Base.Rows.{find}
use onion_architecture.Base.Rows.Keys.{find-key, find-modify-some}
use onion_architecture.Domain.{
  Text, Reservation, ParkingSession, ReservationStatus, ocupada, same_status, domain,
  invalid_qr_code,
}
use onion_architecture.World.{World}
use onion_architecture.World.Events.{entry_registered, slot_status_changed, occupancy_updated}
use onion_architecture.World.Env.{Env}
use onion_architecture.World.Action.{Result, ok, err, and_then}
use onion_architecture.Repositories.Reservations as Reservations
use onion_architecture.Repositories.Reservations.{reservation_id, set_status}
use onion_architecture.Repositories.Sessions.{session_reservation}
use onion_architecture.Policies.Parking.{is_over}
use onion_architecture.Policies.Parking.Entry.{
  entered_world, entry_session, confirm_row, register_entry_admits, register_entry-Consistent,
}
use onion_architecture.UseCases.RegisterEntry.{enter, entry_target, announce_entry}
use onion_architecture.Invariant.{Consistent}

-- The world once the car is in and its entry is announced.
abbrev pub admitted_world : Env → Reservation → World → World
admitted_world env r w = record (entered_world env r w) {
  sent =
      occupancy_updated r.branch_id
      ∷ slot_status_changed r.branch_id r.slot_id ocupada
      ∷ entry_registered w.next_id r.branch_id r.slot_id r.user_id
      ∷ w.sent;
}

module _ (env : Env) (qr : Text) (w : World) where
  -- A code that is forged, or of another kind, or that names no reservation, is refused.
  pub enter_forged :
      entry_target (env.verify_qr qr) ≡ none → enter env qr w ≡ (err (domain invalid_qr_code), w)
  unfolding enter
  enter_forged h = rw h refl

  module _ {id : Text} (scanned : entry_target (env.verify_qr qr) ≡ some id) where
    -- The reservation is read back with its branch and slot.
    read_back :
        {r : Reservation}
        → find reservation_id id w.reservations ≡ some r
        → (q : Reservation) × (find reservation_id id (entered_world env r w).reservations ≡ some q)
          × (q.branch_id ≡ r.branch_id)
    read_back {r = r} f = elim (Bool-cases (same_status r.status ReservationStatus.pending)) [
      | inl p ↦
          let m =
            find-modify-some reservation_id id r.id (confirm_row env) w.reservations {r = r}
              (λ q. refl) f in
          let k = find-key reservation_id id w.reservations {s = r} f in
          (confirm_row env r, ground (arith, m, p, k), refl)
      | inr p ↦ (r, ground (arith, f, p), refl)
    ]

    -- In consistent tables, a valid entry code of a started reservation that is not over and has
    -- no session lets the car in: the session is returned and stored, a pending reservation is
    -- confirmed, the slot is occupied and three messages are sent.
    pub enter_admits :
        {r : Reservation}
        → Consistent w
        → find reservation_id id w.reservations ≡ some r
        → is_over r.status ≡ false
        → ltb env.now r.start_at ≡ false
        → find session_reservation r.id w.sessions ≡ none
        → enter env qr w ≡ (ok (entry_session env r w), admitted_world env r w)
    unfolding enter Reservations.find_by_id
    enter_admits {r = r} c f o e n =
        let (q, eq, bq) = read_back f in
        rw (scanned, register_entry_admits env id w f o e c n, eq, bq) refl

  announce_entry-Consistent :
      (r : Option Reservation) (s : ParkingSession) (v : World)
      → Consistent v
      → Consistent (announce_entry r s v).1
  announce_entry-Consistent none s v c = c
  announce_entry-Consistent (some r) s v c = c

  announced-Consistent :
      (id : Text) (x : Result ParkingSession × World)
      → Consistent x.1
      → Consistent
          (and_then x (λ s v.
            and_then
              (Reservations.find_by_id id v)
              (λ r u. and_then (announce_entry r s u) (λ t z. (ok s, z))))).1
  unfolding Reservations.find_by_id
  announced-Consistent id (err e, v) c = c
  announced-Consistent id (ok s, v) c =
      elim (Option-cases (find reservation_id id v.reservations)) [
        | inl n ↦ rw n c
        | inr (r, f) ↦ rw f c
      ]

  -- Whatever code is scanned, the tables stay consistent.
  pub enter-Consistent : Consistent w → Consistent (enter env qr w).1
  unfolding enter
  enter-Consistent c = elim (Option-cases (entry_target (env.verify_qr qr))) [
    | inl n ↦ rw n c
    | inr (id, e) ↦ rw e (announced-Consistent id _ (register_entry-Consistent env id w c))
  ]
