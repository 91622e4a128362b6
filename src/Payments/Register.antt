-- ===== src/Payments/Register.antt =====
-- `RegisterPaymentUseCase`, and the use cases that read payments.
use onion_architecture.Base.{
  ◌-◌, Bool, true, false, not, Option, none, some, [], ◌∷◌, leb, ◌==◌, if◌then◌else◌,
}
use onion_architecture.Domain.{
  Text, Millis, Cents, PaymentStatus, approved, rejected, domain, not_found, session, payment,
}
use onion_architecture.World.Action.{Action, ok, pure, throw_if, or_throw, ◌>>=◌, ◌>>◌}
use onion_architecture.Payments.{
  Payment, PaymentMethodType, ChargeInput, ChargeResult, SessionQuote, payment_registered,
  audit_payment, PaymentWorld, PaymentEnv,
}
use onion_architecture.Payments.Table as Table

-- `RegisterPaymentInput`
pub record RegisterPaymentInput : Type 0 where
  pub session_id : Text
  pub user_id : Text
  pub method : PaymentMethodType

-- TOLERANCE, 0.01 soles
abbrev pub tolerance : Cents
tolerance = 1

abbrev pub publish : Payment → Action PaymentWorld (Unit {0})
publish p w = (
  ok tt,
  record w {
    sent =
        audit_payment p.id p.session_id p.branch_id p.user_id p.amount p.status p.created_at
        ∷ payment_registered p.id p.session_id p.branch_id p.amount p.status
        ∷ w.sent;
  },
)

abbrev pub note_charge : Bool → ChargeInput → PaymentWorld → PaymentWorld
note_charge true i w = record w { charged = i ∷ w.charged }
note_charge false i w = w

-- `this.paymentMethod.charge`
abbrev pub charge : PaymentEnv → ChargeInput → Action PaymentWorld ChargeResult
charge env i w = let r = env.charge i in (ok r, note_charge r.approved i w)

-- What follows the charge of a difference.
abbrev pub apply_top_up : PaymentEnv → Payment → Cents → ChargeResult → Action PaymentWorld Payment
apply_top_up env existing missing result = do
  p ← Table.increase_amount existing.id missing result.external_reference env.now
  publish p
  pure p

-- `topUpIfInsufficient`; what is missing stops at 0 here, which is within the tolerance as a
-- negative amount is.
unfoldable pub top_up_if_insufficient :
    PaymentEnv → Payment → Cents → Text → PaymentMethodType → Action PaymentWorld Payment
unfolding Table.increase_amount
top_up_if_insufficient env existing required session_id method =
    let missing = required - existing.amount in
    if leb missing tolerance
    then pure existing
    else (charge env (record { session_id = session_id; amount = missing; method = method })
        >>= λ result.
            if result.approved then apply_top_up env existing missing result else pure existing)

abbrev pub status_of : Bool → PaymentStatus
status_of true = approved
status_of false = rejected

abbrev pub paid_when : Bool → Millis → Option Millis
paid_when true now = some now
paid_when false now = none

-- The first payment of a session.
unfoldable pub charge_first :
    PaymentEnv → SessionQuote → PaymentMethodType → Action PaymentWorld Payment
unfolding Table.create
charge_first env quote method = do
  result ←
      charge env (record { session_id = quote.session_id; amount = quote.amount; method = method })
  p ← Table.create env (record {
    session_id = quote.session_id;
    user_id = quote.user_id;
    branch_id = quote.branch_id;
    amount = quote.amount;
    status = status_of result.approved;
    external_reference = result.external_reference ∷ [];
    paid_at = paid_when result.approved env.now;
  })
  publish p
  pure p

abbrev pub pay :
    PaymentEnv → SessionQuote → PaymentMethodType → Option Payment → Action PaymentWorld Payment
pay env quote method (some existing) =
    top_up_if_insufficient env existing quote.amount quote.session_id method
pay env quote method none = charge_first env quote method

-- `this.billing.getQuote`
abbrev pub get_quote : PaymentEnv → Text → Action PaymentWorld SessionQuote
get_quote env id w = (env.get_quote id, w)

-- `RegisterPaymentUseCase.execute`
unfoldable pub register_payment : PaymentEnv → RegisterPaymentInput → Action PaymentWorld Payment
unfolding Table.find_by_session_id top_up_if_insufficient charge_first
register_payment env input = do
  quote ← get_quote env input.session_id
  throw_if (not (quote.user_id == input.user_id)) (domain (not_found session input.session_id))
  existing ← Table.find_by_session_id quote.session_id
  pay env quote input.method existing

-- `GetPaymentUseCase.execute`
unfoldable pub get_payment : Text → Action PaymentWorld Payment
unfolding Table.find_by_id
get_payment id = do found ← Table.find_by_id id; or_throw found (domain (not_found payment id))
