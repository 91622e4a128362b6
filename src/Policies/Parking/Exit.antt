-- ===== src/Policies/Parking/Exit.antt =====
-- The exit of a car: when the slot is released, and what that writes.
use onion_architecture.Base.{
  ℕ, ◌≡◌, refl, sym, ap, ◌∙◌, inl, inr, true, false, Option, none, some, List, arith, Option-cases,
  Bool-cases,
}
use onion_architecture.Base.Rows.{find, modify}
use onion_architecture.Base.Rows.Keys.{
  find_self, find-key, find-modify-some, modify-find, find-other,
}
use onion_architecture.Domain.{
  Text, ParkingSession, Payment, ReservationStatus, disponible, is_active, domain,
  payment_service_unavailable,
}
use onion_architecture.World.{World}
use onion_architecture.World.Env.{Env, Reply, answer, failed}
use onion_architecture.World.Action.{ok, err}
use onion_architecture.Repositories.Slots as Slots
use onion_architecture.Repositories.Slots.{slot_id, with_status}
use onion_architecture.Repositories.Reservations as Reservations
use onion_architecture.Repositories.Reservations.{reservation_id, set_status}
use onion_architecture.Repositories.Sessions as Sessions
use onion_architecture.Repositories.Sessions.{session_id, session_reservation, complete}
use onion_architecture.Policies.Parking.{
  register_exit, settle_session, release_session, release_slot, is_settled, released,
  no_active_session, payment_not_approved,
}
use onion_architecture.Invariant.{Consistent}
use onion_architecture.Invariant.Updates.{complete-IsConsistent}
use onion_architecture.Invariant.Retire.{retire-IsConsistent}

-- The world once the car is out.
abbrev pub left_world : Env → ParkingSession → World → World
left_world env s w = record w {
  slots = modify slot_id s.slot_id (with_status env.now disponible) w.slots;
  reservations =
      modify reservation_id s.reservation_id (set_status ReservationStatus.completed none)
        w.reservations;
  sessions = modify session_id s.id (complete env.now) w.sessions;
}

module _ (env : Env) (id : Text) (w : World) (c : Consistent w) {s : ParkingSession}
    (found : find session_id id w.sessions ≡ some s) (a : is_active s ≡ true) where
  own : find session_id s.id w.sessions ≡ some s
  own = find_self session_id id w.sessions {s = s} found

  abbrev ended : List ParkingSession
  ended = modify session_id s.id (complete env.now) w.sessions

  -- No other car is inside on the same reservation.
  alone :
      (i : ℕ) (t : ParkingSession)
      → find session_id i ended ≡ some t
      → is_active t ≡ true
      → t.reservation_id ≡ s.reservation_id
      → ⊥
  alone i t ht at' e =
      let (u, eu, d) =
        modify-find session_id i s.id (complete env.now) w.sessions {s = t} (λ s. refl) ht in
      let fu =
        find-other session_id session_reservation i w.sessions {s = u} c.sessions_unique eu in
      let fs =
        find-other session_id session_reservation id w.sessions {s = s} c.sessions_unique found in
      let same : u.reservation_id ≡ s.reservation_id = ground (arith, d, e) in
      let eq = sym fu ∙ ap (λ j. find session_reservation j w.sessions) same ∙ fs in
      ground (arith, d, eq, find-key session_id i w.sessions {s = u} eu, at')

  pub left_world-Consistent : Consistent (left_world env s w)
  left_world-Consistent =
      let (r, er, cr, sr) = c.entered id s found a in
      rw (← sr) (
        retire-IsConsistent (complete-IsConsistent c s.id env.now) s.reservation_id env.now
          ReservationStatus.completed none er (rw cr refl) refl alone)

  pub release_session-eq :
      release_session env s w ≡ (ok (released (some (complete env.now s))), left_world env s w)
  unfolding release_session release_slot Sessions.find_by_id
  release_session-eq =
      let (r, er, cr, sr) = c.entered id s found a in
      let (t, et, _) = c.held s.reservation_id r er (rw cr refl) in
      let slot : find slot_id s.slot_id w.slots ≡ some t =
        sym (ap (λ j. find slot_id j w.slots) sr) ∙ et in
      let back =
        find-modify-some session_id s.id s.id (complete env.now) w.sessions {r = s} (λ q. refl)
          own in
      let v = record w { sessions = ended } in
      let u = record v {
        slots = modify slot_id s.slot_id (with_status env.now disponible) w.slots;
      } in
      rw
        (
          Sessions.mark_completed-some s.id env.now w own,
          Slots.update_status-some env s.slot_id disponible v slot,
          Reservations.update_status-some s.reservation_id ReservationStatus.completed none u er,
        )
        (ap (λ q. (ok (released q), left_world env s w)) (ground (arith, back)))

  pub register_exit-eq :
      {p : Option Payment}
      → env.find_payment s.id ≡ answer p
      → is_settled p ≡ true
      → register_exit env id w ≡ (ok (released (some (complete env.now s))), left_world env s w)
  unfolding register_exit settle_session Sessions.find_by_id
  register_exit-eq e h = rw (found, a, e, h) release_session-eq

-- An exit that is refused changes nothing.
pub register_exit_absent :
    (env : Env) (id : Text) (w : World)
    → find session_id id w.sessions ≡ none
    → register_exit env id w ≡ (ok no_active_session, w)
unfolding register_exit Sessions.find_by_id
register_exit_absent env id w n = rw n refl

module _ (env : Env) (id : Text) (w : World) {s : ParkingSession}
    (found : find session_id id w.sessions ≡ some s) where
  pub register_exit_over : is_active s ≡ false → register_exit env id w ≡ (ok no_active_session, w)
  unfolding register_exit Sessions.find_by_id
  register_exit_over a = rw (found, a) refl

  pub register_exit_unknown :
      is_active s ≡ true
      → env.find_payment s.id ≡ failed
      → register_exit env id w ≡ (err (domain payment_service_unavailable), w)
  unfolding register_exit settle_session Sessions.find_by_id
  register_exit_unknown a e = rw (found, a, e) refl

  pub register_exit_unpaid :
      {p : Option Payment}
      → is_active s ≡ true
      → env.find_payment s.id ≡ answer p
      → is_settled p ≡ false
      → register_exit env id w ≡ (ok payment_not_approved, w)
  unfolding register_exit settle_session Sessions.find_by_id
  register_exit_unpaid a e h = rw (found, a, e, h) refl

-- Whatever payments-service answers, the policy's exit keeps the tables consistent.
pub register_exit-Consistent :
    (env : Env) (id : Text) (w : World) → Consistent w → Consistent (register_exit env id w).1
register_exit-Consistent env id w c = elim (Option-cases (find session_id id w.sessions)) [
  | inl n ↦ rw (register_exit_absent env id w n) c
  | inr (s, f) ↦ elim (Bool-cases (is_active s)) [
    | inr a ↦ rw (register_exit_over env id w f a) c
    | inl a ↦ by_reply f a (env.find_payment s.id) refl
  ]
]
  where
    by_reply :
        {s : ParkingSession}
        → find session_id id w.sessions ≡ some s
        → is_active s ≡ true
        → (p : Reply (Option Payment)) → env.find_payment s.id ≡ p
        → Consistent (register_exit env id w).1
    by_reply {s = s} f a failed e = rw (register_exit_unknown env id w f a e) c
    by_reply {s = s} f a (answer p) e = elim (Bool-cases (is_settled p)) [
      | inl h ↦ rw (register_exit-eq env id w c f a e h) (left_world-Consistent env id w c f a)
      | inr h ↦ rw (register_exit_unpaid env id w f a e h) c
    ]
