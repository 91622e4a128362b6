-- ===== src/UseCases/RegisterExit/Release.antt =====
-- A car gets out only for what it has paid.
use onion_architecture.Base.{
  ◌≡◌, refl, inl, inr, true, Option, none, some, arith, ltb, ◌-◌, ◌+◌, ◌≤◌, Option-cases,
  Bool-cases,
}
use onion_architecture.Base.Rows.{find}
use onion_architecture.Domain.{
  Text, Reservation, ParkingSession, Payment, Branch, is_active, is_approved,
}
use onion_architecture.World.{World}
use onion_architecture.World.Env.{Env, Reply, answer, failed}
use onion_architecture.World.Action.{Result, ok, err}
use onion_architecture.Repositories.Branches.{branch_id}
use onion_architecture.Repositories.Reservations.{reservation_id}
use onion_architecture.Repositories.Sessions.{session_id, complete}
use onion_architecture.Policies.Parking.Exit.{left_world-Consistent}
use onion_architecture.UseCases.RegisterExit.{
  leave, exit_target, if_active, if_approved, overstay_tolerance,
}
use onion_architecture.UseCases.RegisterExit.Outcome.{
  cost, released_world, leave_forged, leave_outside, leave_unknown, leave_unpaid, leave_nowhere,
  leave_short, leave_releases,
}
use onion_architecture.Invariant.{Consistent}

-- The car that leaves was inside, and an approved payment covers its stay but for the tolerance.
pub record Leaves (env : Env) (qr : Text) (w : World) (t : ParkingSession) (w' : World)
    : Type 0 where
  pub id : Text
  pub scanned : exit_target (env.verify_qr qr) ≡ some id
  pub stay : ParkingSession
  pub found : find session_id id w.sessions ≡ some stay
  pub inside : is_active stay ≡ true
  pub booking : Reservation
  pub stored : find reservation_id stay.reservation_id w.reservations ≡ some booking
  pub place : Branch
  pub here : find branch_id booking.branch_id w.branches ≡ some place
  pub payment : Payment
  pub paid : env.find_payment stay.id ≡ answer (some payment)
  pub approved : is_approved payment ≡ true
  pub covered : cost env stay place ≤ payment.amount + overstay_tolerance
  pub ended : t ≡ complete env.now stay
  pub after : w' ≡ released_world env stay booking w

abbrev pub LeavesOrStays : Env → Text → World → Result ParkingSession × World → Type 0
LeavesOrStays env qr w (ok t, w') = Leaves env qr w t w'
LeavesOrStays env qr w (err e, w') = w' ≡ w

active-some :
    (o : Option ParkingSession) {s : ParkingSession}
    → if_active o ≡ some s
    → (o ≡ some s) × (is_active s ≡ true)
active-some none h = cc
active-some (some t) {s = s} h = ground arith

approved-some :
    (o : Option Payment) {p : Payment}
    → if_approved o ≡ some p
    → (o ≡ some p) × (is_approved p ≡ true)
approved-some none h = cc
approved-some (some t) {p = p} h = ground arith

module _ (env : Env) (qr : Text) (w : World) (c : Consistent w) where
  module _ {id : Text} (scanned : exit_target (env.verify_qr qr) ≡ some id) {s : ParkingSession}
      (found : if_active (find session_id id w.sessions) ≡ some s) where
    booked : (r : Reservation) × (find reservation_id s.reservation_id w.reservations ≡ some r)
    booked =
        let (f, a) = active-some (find session_id id w.sessions) found in
        let (r, er, _, _) = c.entered id s f a in (r, er)

    priced :
        {o : Option Payment} {p : Payment}
        → env.find_payment s.id ≡ answer o
        → if_approved o ≡ some p
        → LeavesOrStays env qr w (leave env qr w)
    priced {o = o} {p = p} e ap' =
        let (r, er) = booked in
        let (f, a) = active-some (find session_id id w.sessions) found in
        let (eo, y) = approved-some o ap' in
        elim (Option-cases (find branch_id r.branch_id w.branches)) [
          | inl n ↦ rw (leave_nowhere env qr w scanned found er e ap' n) refl
          | inr (b, eb) ↦ elim (Bool-cases (ltb overstay_tolerance (cost env s b - p.amount))) [
            | inl l ↦ rw (leave_short env qr w scanned found er e ap' eb l) refl
            | inr l ↦ rw (leave_releases env qr w scanned found er e ap' eb c l) (record {
              id = id;
              scanned = scanned;
              stay = s;
              found = f;
              inside = a;
              booking = r;
              stored = er;
              place = b;
              here = eb;
              payment = p;
              paid = rw eo at e;
              approved = y;
              covered = ground arith;
              ended = refl;
              after = refl;
            })
          ]
        ]

    replied :
        (x : Reply (Option Payment))
        → env.find_payment s.id ≡ x
        → LeavesOrStays env qr w (leave env qr w)
    replied failed e = let (r, er) = booked in rw (leave_unknown env qr w scanned found er e) refl
    replied (answer o) e =
        let (r, er) = booked in
        elim (Option-cases (if_approved o)) [
          | inl n ↦ rw (leave_unpaid env qr w scanned found er e n) refl
          | inr (p, ep) ↦ priced e ep
        ]

  -- In consistent tables, whatever exit code is scanned: if the call returns a session, that
  -- session was active, an approved payment for it covers the price of the stay but for one
  -- cent, and the world after is the one where the session is over, the reservation completed,
  -- the slot free and three messages sent; if it throws, nothing is changed.
  pub leave-LeavesOrStays : LeavesOrStays env qr w (leave env qr w)
  leave-LeavesOrStays = elim (Option-cases (exit_target (env.verify_qr qr))) [
    | inl n ↦ rw (leave_forged env qr w n) refl
    | inr (id, e) ↦ elim (Option-cases (if_active (find session_id id w.sessions))) [
      | inl n ↦ rw (leave_outside env qr w e n) refl
      | inr (s, f) ↦ replied e f (env.find_payment s.id) refl
    ]
  ]

  kept : (x : Result ParkingSession × World) → LeavesOrStays env qr w x → Consistent x.1
  kept (ok t, w') h = rw h.after (left_world-Consistent env h.id w c h.found h.inside)
  kept (err e, w') h = rw h c

  pub leave-Consistent : Consistent (leave env qr w).1
  leave-Consistent = kept _ leave-LeavesOrStays
