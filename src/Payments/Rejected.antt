-- ===== src/Payments/Rejected.antt =====
-- What becomes of a session whose first charge was rejected, whatever the methods of payment are.
use onion_architecture.Base.{◌-◌, ◌≡◌, some}
use onion_architecture.Base.Rows.{find}
use onion_architecture.Domain.{rejected}
use onion_architecture.World.Action.{ok}
use onion_architecture.Payments.{Payment, ChargeInput, SessionQuote, PaymentWorld, PaymentEnv}
use onion_architecture.Payments.Table as Table
use onion_architecture.Payments.Table.{payment_session}
use onion_architecture.Payments.Register.{RegisterPaymentInput}

module _ (env : PaymentEnv) (input : RegisterPaymentInput) (w : PaymentWorld) {quote : SessionQuote}
    (quoted : env.get_quote input.session_id ≡ ok quote) (own : quote.user_id ≡ input.user_id)
    {p : Payment} (found : find payment_session quote.session_id w.payments ≡ some p)
    (refused : p.status ≡ rejected) where
  abbrev asked_more : ChargeInput
  asked_more = record {
    session_id = quote.session_id;
    amount = quote.amount - p.amount;
    method = input.method;
  }
