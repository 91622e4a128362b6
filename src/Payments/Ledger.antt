-- ===== src/Payments/Ledger.antt =====
-- A payment holds just what the methods of payment charged for its session.
use onion_architecture.Base.{
  ℕ, suc, ◌+◌, ◌-◌, ◌≤◌, ◌<◌, ◌≡◌, refl, ap, ◌∙◌, inl, inr, true, false, Option, none, some, List,
  [], ◌∷◌, ◌++◌, arith, leb, ◌==◌, if◌then◌else◌, Bool-cases,
}
use onion_architecture.Base.Rows.{find, modify, Keyed}
use onion_architecture.Base.Rows.Keys.{
  find-key, find_self, find-other, find-append, find-modify, append-Keyed, modify-Keyed,
  modify-Keyed_other,
}
use onion_architecture.Base.Rows.TwoKeys.{modify-other_key}
use onion_architecture.Domain.{Text, Cents, is_paid}
use onion_architecture.World.Action.{ok}
use onion_architecture.Payments.{
  Payment, PaymentMethodType, ChargeInput, SessionQuote, PaymentWorld, PaymentEnv,
}
use onion_architecture.Payments.Table as Table
use onion_architecture.Payments.Table.{
  payment_id, payment_session, new_payment, increased, CreatePaymentData,
}
use onion_architecture.Payments.Methods.{RejectsNothing}
use onion_architecture.Payments.Register.{
  top_up_if_insufficient, charge_first, status_of, paid_when, tolerance,
}

-- What was charged for a session, in all.
unfoldable pub charged_for : Text → List ChargeInput → Cents
charged_for i [] = 0
charged_for i (c ∷ cs) = (if c.session_id == i then c.amount else 0) + charged_for i cs

abbrev pub amount_of : Option Payment → Cents
amount_of none = 0
amount_of (some p) = p.amount

pub record IsBalanced (w : PaymentWorld) : Type 0 where
  pub keyed : Keyed payment_id w.payments
  pub unique : Keyed payment_session w.payments
  pub fresh : (i : ℕ) → w.next_id ≤ i → find payment_id i w.payments ≡ none
  pub balanced :
      (i : Text) → charged_for i w.charged ≡ amount_of (find payment_session i w.payments)
  -- A rejected payment is one of nothing.
  pub rejected_empty :
      (i : Text) (p : Payment)
      → find payment_session i w.payments ≡ some p
      → is_paid p.status ≡ false
      → p.amount ≡ 0

module _ (env : PaymentEnv) (fair : RejectsNothing env.charge) (quote : SessionQuote)
    (method : PaymentMethodType) (w : PaymentWorld) (b : IsBalanced w) where
  -- The first charge of a session, and its payment.
  module _ (n : find payment_session quote.session_id w.payments ≡ none) where
    abbrev pub asked : ChargeInput
    asked = record { session_id = quote.session_id; amount = quote.amount; method = method }

    abbrev pub first_payment : Payment
    first_payment = new_payment env w.next_id (record {
      session_id = quote.session_id;
      user_id = quote.user_id;
      branch_id = quote.branch_id;
      amount = quote.amount;
      status = status_of (env.charge asked).approved;
      external_reference = (env.charge asked).external_reference ∷ [];
      paid_at = paid_when (env.charge asked).approved env.now;
    })

    pub charge_first-eq :
        ((charge_first env quote method w).0 ≡ ok first_payment)
        × ((charge_first env quote method w).1.payments ≡ w.payments ++ first_payment ∷ [])
        × ((charge_first env quote method w).1.next_id ≡ suc w.next_id)
        × ((i : Text)
            → charged_for i (charge_first env quote method w).1.charged
              ≡ (if quote.session_id == i then quote.amount else 0) + charged_for i w.charged)
    unfolding charge_first Table.create charged_for
    charge_first-eq = elim (Bool-cases (env.charge asked).approved) [
      | inl e ↦ rw (e, n) (refl, refl, refl, λ i. refl)
      | inr e ↦
          let z : quote.amount ≡ 0 = ground (arith, fair asked) in
          rw (e, n) (refl, refl, refl, λ i. ground arith)
    ]

    pub charge_first-IsBalanced : IsBalanced (charge_first env quote method w).1
    charge_first-IsBalanced =
        let (r, rows, next, sums) = charge_first-eq in
        record {
          keyed = rw rows (
              append-Keyed payment_id first_payment w.payments (b.fresh w.next_id (omega arith))
                b.keyed);
          unique = rw rows (append-Keyed payment_session first_payment w.payments n b.unique);
          fresh = λ i h. rw rows (
              ground (
                arith,
                next,
                b.fresh i (omega arith),
                find-append payment_id i first_payment w.payments,
              ));
          balanced = λ i.
              rw (rows, sums i)
                (ground
                  (arith, b.balanced i, find-append payment_session i first_payment w.payments, n));
          rejected_empty = λ i p f h. ground (
            arith,
            rw rows at f,
            find-append payment_session i first_payment w.payments,
            b.rejected_empty i p,
            fair asked,
          );
        }

  -- What is missing of a payment that is there, and its payment.
  module _ {p : Payment} (f : find payment_session quote.session_id w.payments ≡ some p) where
    abbrev missing : Cents
    missing = quote.amount - p.amount

    abbrev asked_more : ChargeInput
    asked_more = record { session_id = quote.session_id; amount = missing; method = method }

    abbrev pub raised : Payment → Payment
    raised = increased missing (env.charge asked_more).external_reference env.now

    by_id : find payment_id p.id w.payments ≡ some p
    by_id = find-other payment_session payment_id quote.session_id w.payments {s = p} b.keyed f

    own : p.session_id ≡ quote.session_id
    own = find-key payment_session quote.session_id w.payments {s = p} f

    swapped :
        modify payment_id p.id raised w.payments
        ≡ modify payment_session quote.session_id raised w.payments
    swapped =
        modify-other_key payment_id payment_session raised w.payments {s = p} b.keyed b.unique
          (find_self payment_session quote.session_id w.payments {s = p} f)
        ∙ ap (λ i. modify payment_session i raised w.payments) own

    pub top_up-enough :
        missing ≤ tolerance
        → top_up_if_insufficient env p quote.amount quote.session_id method w ≡ (ok p, w)
    unfolding top_up_if_insufficient
    top_up-enough h = let l : leb missing tolerance ≡ true = ground arith in rw l refl

    pub top_up-eq :
        tolerance < missing
        → ((top_up_if_insufficient env p quote.amount quote.session_id method w).0 ≡ ok (raised p))
          × ((top_up_if_insufficient env p quote.amount quote.session_id method w).1.payments
              ≡ modify payment_session quote.session_id raised w.payments)
          × ((top_up_if_insufficient env p quote.amount quote.session_id method w).1.next_id
              ≡ w.next_id)
          × ((i : Text)
              → charged_for i
                  (top_up_if_insufficient env p quote.amount quote.session_id method w).1.charged
                ≡ (if quote.session_id == i then missing else 0) + charged_for i w.charged)
    unfolding top_up_if_insufficient Table.increase_amount charged_for
    top_up-eq h =
        let l : leb missing tolerance ≡ false = ground arith in
        let a : (env.charge asked_more).approved ≡ true = ground (arith, fair asked_more) in
        rw (l, a, by_id) (refl, swapped, refl, λ i. refl)

    pub top_up-IsBalanced :
        IsBalanced (top_up_if_insufficient env p quote.amount quote.session_id method w).1
    top_up-IsBalanced = elim (Bool-cases (leb missing tolerance)) [
      | inl l ↦ rw (top_up-enough (ground arith)) b
      | inr l ↦
          let (r, rows, next, sums) = top_up-eq (ground arith) in
          record {
            keyed = rw rows (
                modify-Keyed_other payment_session payment_id quote.session_id raised w.payments
                  (λ q. refl) b.keyed);
            unique = rw rows (
                modify-Keyed payment_session quote.session_id raised w.payments (λ q. refl)
                  b.unique);
            fresh = λ i h.
                rw (rows, ← swapped)
                  (ground (
                    arith,
                    next,
                    b.fresh i (omega arith),
                    find-modify payment_id i p.id raised w.payments (λ q. refl),
                  ));
            balanced = λ i.
                rw (rows, sums i)
                  (ground (
                    arith,
                    b.balanced i,
                    f,
                    find-modify payment_session i quote.session_id raised w.payments (λ q. refl),
                  ));
            rejected_empty = λ i q g h. ground (
              arith,
              rw rows at g,
              find-modify payment_session i quote.session_id raised w.payments (λ q. refl),
              b.rejected_empty i q,
            );
          }
    ]
