-- ===== src/Checkout/Stuck.antt =====
-- A driver whose first charge was rejected does not get out by paying again.
use mathlib.Core.Option as Option
use onion_architecture.Base.{
  ◌+◌, ◌-◌, ◌≤◌, ◌≡◌, refl, sym, ap, ◌∙◌, inl, inr, true, some, List, [], ◌∷◌, arith, leb, ◌==◌,
  Bool-cases, subst,
}
use onion_architecture.Base.Rows.{All, find}
use onion_architecture.Domain.{
  Text, Reservation, ParkingSession, Branch, rejected, domain, payment_not_approved,
}
use onion_architecture.World.{World}
use onion_architecture.World.Env.{Env, answer}
use onion_architecture.World.Action.{err}
use onion_architecture.UseCases.RegisterExit.{leave, exit_target}
use onion_architecture.UseCases.RegisterExit.Outcome.{cost, leave_unpaid}
use onion_architecture.Payments.{Payment, PaymentWorld, PaymentEnv}
use onion_architecture.Payments.Table.{payment_session}
use onion_architecture.Payments.Register.{
  RegisterPaymentInput, register_payment, top_up_if_insufficient, tolerance,
}
use onion_architecture.Payments.Covers.{register_foreign, register_pays}
use onion_architecture.Checkout.{ask_quote, ask_payment, to_domain}
use onion_architecture.Checkout.Settled.{IsInside, ask_quote-cost}

-- A request to pay: what backend is when it is asked for the quote, what payments-service is with
-- its methods of payment, and what the user sends.
pub record Try : Type 0 where
  pub backend : Env
  pub payments : PaymentEnv
  pub input : RegisterPaymentInput

-- One request after another, whatever each returns or throws.
abbrev pub pay_all : List Try → PaymentWorld → PaymentWorld
pay_all [] pw = pw
pay_all (t ∷ ts) pw = pay_all ts (register_payment t.payments t.input pw).1

module _ (w : World) (id : Text) {s : ParkingSession} {r : Reservation} {b : Branch}
    (i : IsInside w id s r b) (pw : PaymentWorld) {p : Payment}
    (found : find payment_session s.id pw.payments ≡ some p) where
  -- A request for the session, by whoever, on backend's quote, while the stay costs no more than
  -- what was charged for it, but for one cent.
  pub record IsRepeated (t : Try) : Type 0 where
    pub session : t.input.session_id ≡ id
    pub quoted : t.payments.get_quote id ≡ ask_quote t.backend w id
    pub no_dearer : cost t.backend s b ≤ p.amount + tolerance

  repeated-kept : (t : Try) → IsRepeated t → (register_payment t.payments t.input pw).1 ≡ pw
  unfolding top_up_if_insufficient
  repeated-kept t h =
      let q =
        subst (λ x. t.payments.get_quote x ≡ ask_quote t.backend w id) (sym h.session) h.quoted
        ∙ ask_quote-cost t.backend w id i in
      elim (Bool-cases (s.user_id == t.input.user_id)) [
        | inr n ↦ ap (λ x. x.1) (register_foreign t.payments t.input pw q n)
        | inl y ↦
            let l : leb (cost t.backend s b - p.amount) tolerance ≡ true =
              ground (arith, h.no_dearer) in
            ap (λ x. x.1) (register_pays t.payments t.input pw q y) ∙ rw (found, l) refl
      ]

  kept : (ts : List Try) → All IsRepeated ts → pay_all ts pw ≡ pw
  kept [] h = refl
  kept (t ∷ ts) h = rw (repeated-kept t h.0) (kept ts h.1)

  -- With any methods of payment: if the payment of a car inside is rejected, then however often
  -- anybody asks to pay for it on backend's quote, while the stay costs no more than was charged
  -- but for one cent, nothing is charged and nothing changes, and the exit code is refused, as
  -- not paid.
  pub pay_all-leave :
      (later : Env) (qr : Text) (join : List Text → Text) (ts : List Try)
      → p.status ≡ rejected
      → All IsRepeated ts
      → exit_target (later.verify_qr qr) ≡ some id
      → later.find_payment s.id ≡ ask_payment join (pay_all ts pw) s.id
      → (pay_all ts pw ≡ pw) × (leave later qr w ≡ (err (domain payment_not_approved), w))
  pay_all-leave later qr join ts refused h scanned asked =
      let k = kept ts h in
      let paid =
        asked
        ∙ ap (λ x. ask_payment join x s.id) k
        ∙ ap (λ x. answer (Option.map (to_domain join) x)) found in
      (
        k,
        leave_unpaid later qr w scanned {s = s} (rw (i.row, i.active) refl) i.booked paid
            (rw refused refl),
      )
