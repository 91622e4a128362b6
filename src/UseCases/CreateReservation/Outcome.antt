-- ===== src/UseCases/CreateReservation/Outcome.antt =====
-- What a request for a reservation comes to, on every path.
use onion_architecture.Base.{
  ◌≡◌, refl, ◌⊎◌, inl, inr, false, Option, none, some, List, [], ◌∷◌, ◌++◌, suc, arith,
  Option-cases, or_else, Bool-cases,
}
use onion_architecture.Base.Rows.{find, first, Keyed}
use onion_architecture.Domain.{Text, Reservation, ParkingSlot, Branch}
use onion_architecture.World.{World}
use onion_architecture.World.Events.{Event}
use onion_architecture.World.Env.{Env, Reply, answer, failed, UserLookupResult}
use onion_architecture.World.Action.{Result, ok, err, and_then}
use onion_architecture.Repositories.Slots.{slot_id}
use onion_architecture.Repositories.Reservations as Reservations
use onion_architecture.Repositories.Reservations.{is_live_of, new_reservation, create}
use onion_architecture.Repositories.Sessions as Sessions
use onion_architecture.Repositories.Sessions.{is_active_of}
use onion_architecture.Repositories.Branches as Branches
use onion_architecture.Policies.Eligibility.{
  Eligibility, allowed, active_reservation_exists, active_session_exists, can_create_reservation,
  check_session, calculate_expires_at,
}
use onion_architecture.Policies.Assignment as Assignments
use onion_architecture.Policies.Assignment.{Assignment, assigned, no_availability, assign}
use onion_architecture.Policies.Assignment.Claims.{Claims, Assigns, assign-Assigns}
use onion_architecture.UseCases.CreateReservation.{
  CreateReservationInput, CreateReservationResult, created, suggest_other_branch,
  create_reservation, reserve_slot, announce_created, publish_confirmation_email, email_to,
  answer_to, email_of, conclude, is_allowed,
}

-- A call that sends messages and does nothing else.
abbrev pub Sends : World → Result (Unit {0}) × World → Type 0
Sends w x = (l : List Event) × (x ≡ (ok tt, record w { sent = l }))

email_to-Sends :
    (env : Env) (r : Reservation) (u : Option UserLookupResult) (b : Option Branch) (w : World)
    → Sends w (email_to env r u b w)
email_to-Sends env r (some u) (some b) w =
    elim (Bool-cases (env.publish_accepted (email_of env r u b))) [
      | inl e ↦ rw e (_, refl)
      | inr e ↦ rw e (_, refl)
    ]
email_to-Sends env r none (some b) w = (w.sent, refl)
email_to-Sends env r none none w = (w.sent, refl)
email_to-Sends env r (some u) none w = (w.sent, refl)

answer_to-Sends :
    (env : Env) (r : Reservation) (u : Reply (Option UserLookupResult)) (w : World)
    → Sends w (answer_to env r u w)
unfolding Branches.find_by_id
answer_to-Sends env r failed w = (w.sent, refl)
answer_to-Sends env r (answer u) w =
    email_to-Sends env r u (find Branches.branch_id r.branch_id w.branches) w

publish_confirmation_email-Sends :
    (env : Env) (r : Reservation) (w : World) → Sends w (publish_confirmation_email env r w)
unfolding publish_confirmation_email
publish_confirmation_email-Sends env r w = answer_to-Sends env r (env.find_user r.user_id) w

-- The reservation that a request makes of a slot.
abbrev pub reservation_for : Env → CreateReservationInput → ParkingSlot → World → Reservation
reservation_for env input s w = new_reservation env w.next_id (record {
  user_id = input.user_id;
  branch_id = input.branch_id;
  slot_id = s.id;
  requested_type = or_else input.slot_type s.type;
  start_at = or_else input.start_at env.now;
  expires_at = calculate_expires_at env (or_else input.start_at env.now);
})

-- A reservation is made: the user had none, the slot was free, and the two rows are the change.
pub record Creates (env : Env) (input : CreateReservationInput) (w : World) (r : Reservation)
    (w' : World) : Type 0 where
  pub no_reservation : first (is_live_of input.user_id) w.reservations ≡ none
  pub no_session : first (is_active_of input.user_id) w.sessions ≡ none
  pub slot : ParkingSlot
  pub middle : World
  pub claim : Claims env input.branch_id input.slot_type w slot middle
  pub row : r ≡ reservation_for env input slot w
  pub slots : w'.slots ≡ middle.slots
  pub reservations : w'.reservations ≡ w.reservations ++ r ∷ []
  pub sessions : w'.sessions ≡ w.sessions
  pub next_id : w'.next_id ≡ suc w.next_id
  pub branches : w'.branches ≡ w.branches

abbrev pub Concludes :
    Env → CreateReservationInput → World → Result CreateReservationResult × World → Type 0
Concludes env input w (ok (created r), w') = Creates env input w r w'
Concludes env input w (ok (suggest_other_branch b d), w') = w' ≡ w
Concludes env input w (err e, w') = w' ≡ w

module _ (env : Env) (input : CreateReservationInput) (w : World) (k : Keyed slot_id w.slots)
    (no_reservation : first (is_live_of input.user_id) w.reservations ≡ none)
    (no_session : first (is_active_of input.user_id) w.sessions ≡ none) where
  reserve_slot-Creates :
      (s : ParkingSlot) (v : World)
      → Claims env input.branch_id input.slot_type w s v
      → Concludes env input w (reserve_slot env input s v)
  unfolding reserve_slot create announce_created
  reserve_slot-Creates s v c =
      let r = reservation_for env input s v in
      let u = record v { reservations = v.reservations ++ r ∷ []; next_id = suc v.next_id } in
      let (l, e) = publish_confirmation_email-Sends env r (announce_created env r u).1 in
      rw e (record {
        no_reservation = no_reservation;
        no_session = no_session;
        slot = s;
        middle = v;
        claim = c;
        row = ground (arith, c.after);
        slots = refl;
        reservations = ground (arith, c.after);
        sessions = ground (arith, c.after);
        next_id = ground (arith, c.after);
        branches = ground (arith, c.after);
      })

  conclude-Concludes :
      (x : Result Assignment × World)
      → Assigns env input.branch_id input.slot_type w x
      → Concludes env input w (and_then x (conclude env input))
  conclude-Concludes (ok (assigned s), v) h = reserve_slot-Creates s v h
  conclude-Concludes (ok (Assignments.suggest_other_branch b d), v) h = h
  conclude-Concludes (ok no_availability, v) h = h
  conclude-Concludes (err e, v) h = elim h [ ]

can_create_reservation-cases :
    (u : Text) (w : World)
    → ((e : Eligibility) × (can_create_reservation u w ≡ (ok e, w)) × (is_allowed e ≡ false))
      ⊎ ((can_create_reservation u w ≡ (ok allowed, w))
          × (first (is_live_of u) w.reservations ≡ none)
          × (first (is_active_of u) w.sessions ≡ none))
unfolding can_create_reservation check_session Reservations.find_active_by_user
    Sessions.find_active_by_user
can_create_reservation-cases u w = elim (Option-cases (first (is_live_of u) w.reservations)) [
  | inr (r, e) ↦ inl (active_reservation_exists, rw e refl, refl)
  | inl e ↦ elim (Option-cases (first (is_active_of u) w.sessions)) [
    | inr (s, d) ↦ inl (active_session_exists, rw (e, d) refl, refl)
    | inl d ↦ inr (rw (e, d) refl, e, d)
  ]
]

-- Where slots have distinct identifiers: a request that creates a reservation was made by a user
-- with no live reservation and no car inside, claimed a slot that was free, of the branch and
-- type asked for, and adds exactly that row; a request that suggests another branch or throws
-- changes nothing.
pub create_reservation-Concludes :
    (env : Env) (input : CreateReservationInput) (w : World)
    → Keyed slot_id w.slots
    → Concludes env input w (create_reservation env input w)
unfolding create_reservation
create_reservation-Concludes env input w k = elim (can_create_reservation-cases input.user_id w) [
  | inl (e, h, no_) ↦ rw (h, no_) refl
  | inr (h, d, n) ↦ rw h (
      conclude-Concludes env input w k d n _
        (assign-Assigns env input.branch_id input.slot_type w k))
]
