-- ===== src/Policies/Parking/Entry.antt =====
-- The entry of a car: when it is refused, and what it writes.
use onion_architecture.Base.{
  suc, ◌≡◌, refl, inl, inr, true, false, none, some, List, [], ◌∷◌, ◌++◌, arith, ltb, Option-cases,
  Bool-cases, if◌then◌else◌,
}
use onion_architecture.Base.Rows.{find, modify}
use onion_architecture.Base.Rows.Keys.{find_self, find-modify-some}
use onion_architecture.Domain.{
  Text, Reservation, ParkingSession, ReservationStatus, ocupada, is_live, is_active, same_status,
  domain, infra, not_found, reservation, reservation_expired, reservation_not_started,
  session_already_active, unique_violation,
}
use onion_architecture.World.{World}
use onion_architecture.World.Env.{Env}
use onion_architecture.World.Action.{ok, err, when}
use onion_architecture.Repositories.Slots as Slots
use onion_architecture.Repositories.Slots.{slot_id, with_status}
use onion_architecture.Repositories.Reservations as Reservations
use onion_architecture.Repositories.Reservations.{reservation_id, set_status}
use onion_architecture.Repositories.Sessions as Sessions
use onion_architecture.Repositories.Sessions.{session_id, session_reservation, new_session}
use onion_architecture.Policies.Parking.{register_entry, is_over, has_active}
use onion_architecture.Invariant.{Consistent}
use onion_architecture.Invariant.Updates.{set_status-IsConsistent, with_status-IsConsistent}
use onion_architecture.Invariant.Inserts.{new_session-IsConsistent}

-- The reservation of a car that goes in.
abbrev pub confirm_row : Env → Reservation → Reservation
confirm_row env = set_status ReservationStatus.confirmed (some env.now)

abbrev pub confirmed_rows : Env → Reservation → List Reservation → List Reservation
confirmed_rows env r rs =
    if same_status r.status ReservationStatus.pending
    then modify reservation_id r.id (confirm_row env) rs
    else rs

abbrev pub confirmed_world : Env → Reservation → World → World
confirmed_world env r w = record w { reservations = confirmed_rows env r w.reservations }

abbrev pub entry_session : Env → Reservation → World → ParkingSession
entry_session env r w =
    new_session w.next_id (record {
      reservation_id = r.id;
      user_id = r.user_id;
      slot_id = r.slot_id;
      entry_at = env.now;
    })

-- The world once the car is in.
abbrev pub entered_world : Env → Reservation → World → World
entered_world env r w = record w {
  slots = modify slot_id r.slot_id (with_status env.now ocupada) w.slots;
  reservations = confirmed_rows env r w.reservations;
  sessions = w.sessions ++ entry_session env r w ∷ [];
  next_id = suc w.next_id;
}

confirm-eq :
    (env : Env) (r : Reservation) (w : World)
    → find reservation_id r.id w.reservations ≡ some r
    → when
        (same_status r.status ReservationStatus.pending)
        (Reservations.update_status r.id ReservationStatus.confirmed (some env.now))
        w
      ≡ (ok tt, confirmed_world env r w)
confirm-eq env r w e = elim (Bool-cases (same_status r.status ReservationStatus.pending)) [
  | inl p ↦
      rw p (Reservations.update_status-some r.id ReservationStatus.confirmed (some env.now) w e)
  | inr p ↦ rw p refl
]

open-live : (r : Reservation) → is_over r.status ≡ false → is_live r.status ≡ true
open-live r h = ground arith

module _ (env : Env) (id : Text) (w : World) where
  pub register_entry_unknown :
      find reservation_id id w.reservations ≡ none
      → register_entry env id w ≡ (err (domain (not_found reservation id)), w)
  unfolding register_entry Reservations.find_by_id
  register_entry_unknown h = rw h refl

  module _ {r : Reservation} (found : find reservation_id id w.reservations ≡ some r) where
    pub register_entry_over :
        is_over r.status ≡ true → register_entry env id w ≡ (err (domain reservation_expired), w)
    unfolding register_entry Reservations.find_by_id
    register_entry_over h = rw (found, h) refl

    module _ (open_ : is_over r.status ≡ false) where
      pub register_entry_early :
          ltb env.now r.start_at ≡ true
          → register_entry env id w ≡ (err (domain reservation_not_started), w)
      unfolding register_entry Reservations.find_by_id
      register_entry_early h = rw (found, open_, h) refl

      module _ (started : ltb env.now r.start_at ≡ false) where
        here : find reservation_id r.id w.reservations ≡ some r
        here = find_self reservation_id id w.reservations {s = r} found

        pub register_entry_inside :
            has_active (find session_reservation r.id w.sessions) ≡ true
            → register_entry env id w ≡ (err (domain session_already_active), w)
        unfolding register_entry Reservations.find_by_id Sessions.find_by_reservation_id
        register_entry_inside h = rw (found, open_, started, h) refl

        -- A session of the reservation that is over blocks the insertion, after the update.
        pub register_entry_again :
            {s : ParkingSession}
            → find session_reservation r.id w.sessions ≡ some s
            → is_active s ≡ false
            → register_entry env id w ≡ (err (infra unique_violation), confirmed_world env r w)
        unfolding register_entry Reservations.find_by_id Sessions.find_by_reservation_id
            Sessions.create
        register_entry_again {s = s} h a =
            rw (found, open_, started, h, a, confirm-eq env r w here, h) refl

        pub register_entry_admits :
            Consistent w
            → find session_reservation r.id w.sessions ≡ none
            → register_entry env id w ≡ (ok (entry_session env r w), entered_world env r w)
        unfolding register_entry Reservations.find_by_id Sessions.find_by_reservation_id
            Sessions.create
        register_entry_admits c h =
            let (s, es, _) = c.held id r found (open-live r open_) in
            let v = record w {
              reservations = confirmed_rows env r w.reservations;
              sessions = w.sessions ++ entry_session env r w ∷ [];
              next_id = suc w.next_id;
            } in
            rw
              (
                found,
                open_,
                started,
                h,
                confirm-eq env r w here,
                h,
                Slots.update_status-some env r.slot_id ocupada v es,
              )
              refl

-- The rows once the reservation is confirmed.
module _ (env : Env) (id : Text) (w : World) (c : Consistent w) {r : Reservation}
    (found : find reservation_id id w.reservations ≡ some r)
    (open_ : is_over r.status ≡ false) where
  own : find reservation_id r.id w.reservations ≡ some r
  own = find_self reservation_id id w.reservations {s = r} found

  pub confirmed_world-Consistent : Consistent (confirmed_world env r w)
  confirmed_world-Consistent = elim (Bool-cases (same_status r.status ReservationStatus.pending)) [
    | inl p ↦ rw p (
        set_status-IsConsistent c r.id ReservationStatus.confirmed (some env.now) own
          (λ _. open-live r open_) (λ i s hs as' e. refl))
    | inr p ↦ rw p c
  ]

  now_confirmed :
      (q : Reservation) × (find reservation_id r.id (confirmed_rows env r w.reservations) ≡ some q)
      × (q.status ≡ ReservationStatus.confirmed)
      × (q.slot_id ≡ r.slot_id)
  unfolding same_status
  now_confirmed = elim (Bool-cases (same_status r.status ReservationStatus.pending)) [
    | inl p ↦
        let f =
          find-modify-some reservation_id r.id r.id (confirm_row env) w.reservations {r = r}
            (λ q. refl) own in
        (confirm_row env r, ground (arith, f, p), refl, refl)
    | inr p ↦ (r, ground (arith, own, p), ground (arith, p, open_), refl)
  ]

  pub entered_world-Consistent :
      find session_reservation r.id w.sessions ≡ none → Consistent (entered_world env r w)
  entered_world-Consistent h =
      with_status-IsConsistent
        (new_session-IsConsistent confirmed_world-Consistent (entry_session env r w) refl h
          now_confirmed)
        r.slot_id env.now ocupada (λ i q hq lq e. refl)

-- Whether it lets a car in or refuses it, an entry keeps the tables consistent.
pub register_entry-Consistent :
    (env : Env) (id : Text) (w : World) → Consistent w → Consistent (register_entry env id w).1
register_entry-Consistent env id w c = elim (Option-cases (find reservation_id id w.reservations)) [
  | inl n ↦ rw (register_entry_unknown env id w n) c
  | inr (r, f) ↦ elim (Bool-cases (is_over r.status)) [
    | inl o ↦ rw (register_entry_over env id w f o) c
    | inr o ↦ elim (Bool-cases (ltb env.now r.start_at)) [
      | inl e ↦ rw (register_entry_early env id w f o e) c
      | inr e ↦ elim (Option-cases (find session_reservation r.id w.sessions)) [
        | inl n ↦
            rw (register_entry_admits env id w f o e c n)
              (entered_world-Consistent env id w c f o n)
        | inr (s, g) ↦ elim (Bool-cases (is_active s)) [
          | inl a ↦ rw (register_entry_inside env id w f o e (rw g a)) c
          | inr a ↦
              rw (register_entry_again env id w f o e g a)
                (confirmed_world-Consistent env id w c f o)
        ]
      ]
    ]
  ]
]
