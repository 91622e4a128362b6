-- ===== src/Payments/Covers.antt =====
-- What a request to pay comes to.
use onion_architecture.Base.{
  ◌+◌, ◌-◌, ◌≤◌, ◌<◌, ◌≡◌, refl, inl, inr, true, false, some, arith, leb, ◌==◌, Bool-cases,
  Option-cases,
}
use onion_architecture.Base.Rows.{find}
use onion_architecture.Base.Rows.Keys.{find-append, find-modify-some}
use onion_architecture.Domain.{is_paid, domain, not_found, session, Failure}
use onion_architecture.World.Action.{Result, ok, err}
use onion_architecture.Payments.{Payment, SessionQuote, PaymentWorld, PaymentEnv}
use onion_architecture.Payments.Table as Table
use onion_architecture.Payments.Table.{payment_session}
use onion_architecture.Payments.Methods.{RejectsNothing}
use onion_architecture.Payments.Register.{
  RegisterPaymentInput, register_payment, charge_first, pay, tolerance,
}
use onion_architecture.Payments.Ledger.{
  IsBalanced, charge_first-eq, first_payment, charge_first-IsBalanced, top_up-enough, top_up-eq,
  raised, top_up-IsBalanced, asked,
}

module _ (env : PaymentEnv) (input : RegisterPaymentInput) (w : PaymentWorld) where
  -- An error of the quote is passed on, and changes nothing.
  pub register_unquoted :
      {e : Failure}
      → env.get_quote input.session_id ≡ err e
      → register_payment env input w ≡ (err e, w)
  unfolding register_payment
  register_unquoted h = rw h refl

  module _ {quote : SessionQuote} (quoted : env.get_quote input.session_id ≡ ok quote) where
    -- Nobody pays for, or learns of, a session of another user.
    pub register_foreign :
        (quote.user_id == input.user_id) ≡ false
        → register_payment env input w ≡ (err (domain (not_found session input.session_id)), w)
    unfolding register_payment
    register_foreign h = rw (quoted, h) refl

    pub register_pays :
        (quote.user_id == input.user_id) ≡ true
        → register_payment env input w
          ≡ pay env quote input.method (find payment_session quote.session_id w.payments) w
    unfolding register_payment Table.find_by_session_id
    register_pays h = rw (quoted, h) refl

  -- With a method of payment that rejects nothing but zero, a request to pay keeps the table
  -- balanced, whatever it returns or throws: the payment of each session amounts to the approved
  -- charges for it, and a rejected payment amounts to nothing.
  pub register_payment-IsBalanced :
      RejectsNothing env.charge → IsBalanced w → IsBalanced (register_payment env input w).1
  register_payment-IsBalanced fair b = by_quote (env.get_quote input.session_id) refl
    where
      by_quote :
          (x : Result SessionQuote)
          → env.get_quote input.session_id ≡ x
          → IsBalanced (register_payment env input w).1
      by_quote (err e) h = rw (register_unquoted h) b
      by_quote (ok quote) h = elim (Bool-cases (quote.user_id == input.user_id)) [
        | inr o ↦ rw (register_foreign h o) b
        | inl o ↦
            rw (register_pays h o)
              (elim (Option-cases (find payment_session quote.session_id w.payments)) [
                | inl n ↦ rw n (charge_first-IsBalanced env fair quote input.method w b n)
                | inr (p, f) ↦ rw f (top_up-IsBalanced env fair quote input.method w b f)
              ])
      ]

  -- The payment that is returned is the session's row, approved, and covers the quote but for the
  -- tolerance.
  pub record Covers (quote : SessionQuote) (x : Result Payment × PaymentWorld) : Type 0 where
    pub paid : Payment
    pub returned : x.0 ≡ ok paid
    pub row : find payment_session quote.session_id x.1.payments ≡ some paid
    pub approved : is_paid paid.status ≡ true
    pub enough : quote.amount ≤ paid.amount + tolerance

  -- Where the table is balanced, the method of payment rejects nothing but zero, and the quote
  -- is for a session of the caller and above the tolerance: the call returns a payment that is
  -- the session's row afterwards, is approved, and covers the quote but for one cent.
  pub register_payment-Covers :
      {quote : SessionQuote}
      → RejectsNothing env.charge
      → IsBalanced w
      → env.get_quote input.session_id ≡ ok quote
      → quote.user_id ≡ input.user_id
      → tolerance < quote.amount
      → Covers quote (register_payment env input w)
  unfolding charge_first Table.create
  register_payment-Covers {quote = quote} fair b h o l =
      rw (register_pays h (ground arith))
        (elim (Option-cases (find payment_session quote.session_id w.payments)) [
          | inl n ↦
              let (r, rows, _, _) = charge_first-eq env fair quote input.method w b n in
              rw n (record {
                paid = first_payment env fair quote input.method w b n;
                returned = r;
                row = rw rows (
                    ground (
                      arith,
                      find-append payment_session quote.session_id
                          (first_payment env fair quote input.method w b n) w.payments,
                      n,
                    ));
                approved = ground (arith, fair (asked env fair quote input.method w b n));
                enough = omega arith;
              })
          | inr (p, f) ↦ rw f (elim (Bool-cases (leb (quote.amount - p.amount) tolerance)) [
            | inl e ↦ rw (top_up-enough env fair quote input.method w b f (ground arith)) (record {
              paid = p;
              returned = refl;
              row = f;
              approved = ground (arith, b.rejected_empty quote.session_id p f);
              enough = ground arith;
            })
            | inr e ↦
                let (r, rows, _, _) = top_up-eq env fair quote input.method w b f (ground arith) in
                record {
                  paid = raised env fair quote input.method w b f p;
                  returned = r;
                  row = rw rows (
                      ground (
                        arith,
                        find-modify-some payment_session quote.session_id quote.session_id
                            (raised env fair quote input.method w b f) w.payments {r = p}
                            (λ q. refl) f,
                      ));
                  approved = refl;
                  enough = ground arith;
                }
          ])
        ])
