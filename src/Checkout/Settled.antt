-- ===== src/Checkout/Settled.antt =====
-- A driver who pays gets out.
use mathlib.Core.Option as Option
use onion_architecture.Base.{◌+◌, ◌≤◌, ◌<◌, ◌≡◌, refl, ap, ◌∙◌, true, none, some, List, arith}
use onion_architecture.Base.Rows.{find}
use onion_architecture.Domain.{Text, Reservation, ParkingSession, Branch, is_active, is_paid}
use onion_architecture.World.{World}
use onion_architecture.World.Env.{Env, answer}
use onion_architecture.World.Action.{ok}
use onion_architecture.Repositories.Branches as Branches
use onion_architecture.Repositories.Branches.{branch_id}
use onion_architecture.Repositories.Reservations as Reservations
use onion_architecture.Repositories.Reservations.{reservation_id}
use onion_architecture.Repositories.Sessions as Sessions
use onion_architecture.Repositories.Sessions.{session_id, complete}
use onion_architecture.Policies.Pricing.{calculate}
use onion_architecture.UseCases.Queries.{get_session_quote}
use onion_architecture.UseCases.RegisterExit.{leave, exit_target}
use onion_architecture.UseCases.RegisterExit.Outcome.{cost, released_world, leave_releases}
use onion_architecture.Invariant.{Consistent}
use onion_architecture.Payments.{Payment, SessionQuote, PaymentWorld, PaymentEnv}
use onion_architecture.Payments.Table.{payment_session}
use onion_architecture.Payments.Methods.{RejectsNothing}
use onion_architecture.Payments.Register.{RegisterPaymentInput, register_payment, tolerance}
use onion_architecture.Payments.Ledger.{IsBalanced}
use onion_architecture.Payments.Covers.{register_payment-Covers}
use onion_architecture.Checkout.{ask_quote, ask_payment, to_domain}

-- A car that is inside, on a reservation in a branch.
pub record IsInside (w : World) (id : Text) (s : ParkingSession) (r : Reservation) (b : Branch)
    : Type 0 where
  pub row : find session_id id w.sessions ≡ some s
  pub active : is_active s ≡ true
  pub no_exit : s.exit_at ≡ none
  pub booked : find reservation_id s.reservation_id w.reservations ≡ some r
  pub located : find branch_id r.branch_id w.branches ≡ some b

module _ (env : Env) (w : World) (id : Text) {s : ParkingSession} {r : Reservation} {b : Branch}
    (i : IsInside w id s r b) where
  abbrev pub quote_of : SessionQuote
  quote_of = record {
    session_id = s.id;
    user_id = s.user_id;
    branch_id = r.branch_id;
    active = true;
    amount = cost env s b;
  }

  -- The quote of a car inside is what leaving costs at that time.
  pub ask_quote-cost : ask_quote env w id ≡ ok quote_of
  unfolding ask_quote get_session_quote Sessions.find_by_id Reservations.find_by_id calculate
      Branches.find_by_id
  ask_quote-cost = rw (i.row, i.booked, i.located, i.active, i.no_exit) refl

-- A payment that covers the stay opens the barrier.
pub leave_paid :
    (env : Env) (qr : Text) (w : World) (id : Text) {s : ParkingSession} {r : Reservation}
    {b : Branch} (join : List Text → Text) (pw : PaymentWorld) {p : Payment}
    → Consistent w
    → IsInside w id s r b
    → exit_target (env.verify_qr qr) ≡ some id
    → env.find_payment s.id ≡ ask_payment join pw s.id
    → find payment_session s.id pw.payments ≡ some p
    → is_paid p.status ≡ true
    → cost env s b ≤ p.amount + 1
    → leave env qr w ≡ (ok (complete env.now s), released_world env s r w)
leave_paid env qr w id {s = s} {r = r} {b = b} join pw {p = p} c i q e f a l =
    leave_releases env qr w q {s = s} (rw (i.row, i.active) refl) i.booked
      (e ∙ ap (λ x. answer (Option.map (to_domain join) x)) f) {p = to_domain join p} (rw a refl)
      i.located c (ground arith)

-- In consistent tables and a balanced table of payments, with a method of payment that rejects
-- nothing but zero: if the owner of a car inside, whose stay costs more than the tolerance, pays
-- on backend's quote, and the stay costs no more when the exit code is scanned, then the exit
-- returns the completed session and releases the slot.
pub register_payment-leave :
    (env later : Env) (penv : PaymentEnv) (qr : Text) (w : World) (pw : PaymentWorld)
    (input : RegisterPaymentInput) {s : ParkingSession} {r : Reservation} {b : Branch}
    (join : List Text → Text)
    → Consistent w
    → IsBalanced pw
    → RejectsNothing penv.charge
    → IsInside w input.session_id s r b
    → s.user_id ≡ input.user_id
    → penv.get_quote input.session_id ≡ ask_quote env w input.session_id
    → exit_target (later.verify_qr qr) ≡ some input.session_id
    → later.find_payment s.id ≡ ask_payment join (register_payment penv input pw).1 s.id
    → tolerance < cost env s b
    → cost later s b ≤ cost env s b
    → leave later qr w ≡ (ok (complete later.now s), released_world later s r w)
register_payment-leave env later penv qr w pw input {s = s} {r = r} {b = b} join c pb fair i u q v e
      t l =
    let d =
      register_payment-Covers penv input pw fair pb (q ∙ ask_quote-cost env w input.session_id i) u
        t in
    leave_paid later qr w input.session_id join (register_payment penv input pw).1 c i v e d.row
      d.approved (omega (arith, l, d.enough))
