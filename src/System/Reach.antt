-- ===== src/System/Reach.antt =====
-- The worlds that the backend can reach.
use onion_architecture.Base.{
  ℕ, ◌≡◌, ◌≢◌, refl, sym, ap, ◌∙◌, inl, inr, true, some, [], arith, Bool-cases,
}
use onion_architecture.Base.Rows.{find, Keyed}
use onion_architecture.Base.Rows.Keys.{find-other, find-key}
use onion_architecture.Domain.{ParkingSession, is_active}
use onion_architecture.World.{World}
use onion_architecture.World.Events.{RequestMessage}
use onion_architecture.World.Env.{Env}
use onion_architecture.Repositories.Slots.{slot_id}
use onion_architecture.Repositories.Sessions.{session_id, session_reservation}
use onion_architecture.UseCases.CreateReservation.{CreateReservationInput, request_reservation}
use onion_architecture.UseCases.CancelReservation.Cars.{NoCar, cancel-Consistent}
use onion_architecture.UseCases.ExpireReservations.Outcome.{expire_overdue-Consistent}
use onion_architecture.UseCases.RegisterEntry.Outcome.{enter-Consistent}
use onion_architecture.UseCases.RegisterExit.Release.{leave-Consistent}
use onion_architecture.UseCases.Admin.Outcome.{
  report_slot_blocked-Consistent, simulate_branch_full-Consistent,
}
use onion_architecture.Invariant.{Consistent}
use onion_architecture.Invariant.Create.{create_reservation-Consistent, process_request-Consistent}
use onion_architecture.System.{
  Request, queue, create, process, cancel, expire, entry, exit, report_blocked, simulate_full,
  handle,
}

-- The requests that keep to the rule which the code does not check: nobody cancels the reservation
-- of a car that is inside.
abbrev pub IsOrderly : Request → World → Type 0
IsOrderly (cancel id user_id) w = NoCar id w
IsOrderly _ w = Unit {0}

-- A system that starts with slots of different identifiers, and with nothing else.
pub record IsStart (w : World) : Type 0 where
  pub slots_keyed : Keyed slot_id w.slots
  pub no_reservations : w.reservations ≡ []
  pub no_sessions : w.sessions ≡ []

pub data Reach : World → Type 1 where
  start : (w : World) → IsStart w → Reach w
  step : (env : Env) (q : Request) (w : World) → IsOrderly q w → Reach w → Reach (handle env q w)

request_reservation-Consistent :
    (env : Env) (input : CreateReservationInput) (w : World)
    → Consistent w
    → Consistent (request_reservation env input w).1
unfolding request_reservation
request_reservation-Consistent env input w c =
    let m : RequestMessage = record {
      request_id = env.random_uuid;
      user_id = input.user_id;
      branch_id = input.branch_id;
      slot_type = input.slot_type;
      start_at = input.start_at;
      requested_at = env.now;
    } in
    elim (Bool-cases (env.enqueue_accepted m)) [ inl e ↦ rw e c | inr e ↦ rw e c ]

-- Each request that keeps to the rule keeps the tables consistent.
pub handle-Consistent :
    (env : Env) (q : Request) (w : World)
    → IsOrderly q w
    → Consistent w
    → Consistent (handle env q w)
unfolding handle
handle-Consistent env (queue input) w o c = request_reservation-Consistent env input w c
handle-Consistent env (create input) w o c = create_reservation-Consistent env input w c
handle-Consistent env (process m) w o c = process_request-Consistent env m w c
handle-Consistent env (cancel id user_id) w o c = cancel-Consistent env id user_id w c o
handle-Consistent env expire w o c = expire_overdue-Consistent env w c
handle-Consistent env (entry qr) w o c = enter-Consistent env qr w c
handle-Consistent env (exit qr) w o c = leave-Consistent env qr w c
handle-Consistent env (report_blocked id) w o c = report_slot_blocked-Consistent env id w c
handle-Consistent env (simulate_full id) w o c = simulate_branch_full-Consistent env id w c

start-Consistent : (w : World) → IsStart w → Consistent w
unfolding find
start-Consistent w s =
    rw (s.no_reservations, s.no_sessions)
      (record {
        slots_keyed = s.slots_keyed;
        reservations_keyed = tt;
        sessions_keyed = tt;
        sessions_unique = tt;
        reservations_fresh = λ i h. refl;
        sessions_fresh = λ i h. refl;
        one_per_user = λ i j r t hr ht lr lt e. cc;
        one_per_slot = λ i j r t hr ht lr lt e. cc;
        held = λ i r hr lr. cc;
        entered = λ i t ht lt. cc;
      })

-- From a start with no reservations and no sessions, every world that requests reach, if none
-- cancels the reservation of a car inside, has consistent tables: keys are unique, a user and a
-- slot have at most one live reservation each, the slot of a live reservation is not free, and a
-- car inside has a confirmed reservation of its slot.
pub Reach-Consistent : {w : World} → Reach w → Consistent w
Reach-Consistent (start w s) = start-Consistent w s
Reach-Consistent (step env q w o r) = handle-Consistent env q w o (Reach-Consistent r)

-- In a world that is reached, if no request cancelled the reservation of a car inside, two
-- different active sessions are on different slots.
Reach-distinct_slots :
    {w : World} {s t : ParkingSession} (i j : ℕ)
    → Reach w
    → find session_id i w.sessions ≡ some s
    → find session_id j w.sessions ≡ some t
    → is_active s ≡ true
    → is_active t ≡ true
    → i ≢ j
    → s.slot_id ≢ t.slot_id
Reach-distinct_slots {w = w} {s = s} {t = t} i j r hs ht as' at' n e =
    let c = Reach-Consistent r in
    let (a, ea, ca, sa) = c.entered i s hs as' in
    let (b, eb, cb, sb) = c.entered j t ht at' in
    let same =
      c.one_per_slot s.reservation_id t.reservation_id a b ea eb (rw ca refl) (rw cb refl)
        (sa ∙ e ∙ sym sb) in
    n (one_each c hs ht same)
  where
    one_each :
        Consistent w
        → find session_id i w.sessions ≡ some s
        → find session_id j w.sessions ≡ some t
        → s.reservation_id ≡ t.reservation_id
        → i ≡ j
    one_each c hs ht same =
        let fs =
          find-other session_id session_reservation i w.sessions {s = s} c.sessions_unique hs in
        let ft =
          find-other session_id session_reservation j w.sessions {s = t} c.sessions_unique ht in
        let q = sym fs ∙ ap (λ k. find session_reservation k w.sessions) same ∙ ft in
        ground (
          arith,
          q,
          find-key session_id i w.sessions {s = s} hs,
          find-key session_id j w.sessions {s = t} ht,
        )
