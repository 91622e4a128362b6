-- ===== src/Payments.antt =====
-- payments-service: its table, its methods of payment, and the use case that charges a session.
pub mod Table
pub mod Methods
pub mod Register
pub mod Ledger
pub mod Covers
pub mod Revenue
pub mod Rejected
use onion_architecture.Base.{ℕ, Bool, Option, List}
use onion_architecture.Domain.{Text, Millis, Cents, PaymentStatus, Failure}
use onion_architecture.World.Action.{Result}

-- `Payment`; its external reference joins with commas those listed here, and is null where there
-- is none.
pub record Payment : Type 0 where
  pub id : Text
  pub session_id : Text
  pub user_id : Text
  pub branch_id : Text
  pub amount : Cents
  pub status : PaymentStatus
  pub external_reference : List Text
  pub paid_at : Option Millis
  pub created_at : Millis

-- `PaymentMethodType`
pub data PaymentMethodType : Type 0 where
  cash card yape plin : PaymentMethodType

-- `ChargeInput`, always in PEN
pub record ChargeInput : Type 0 where
  pub session_id : Text
  pub amount : Cents
  pub method : PaymentMethodType

-- `ChargeResult`, whose status is APPROVED or REJECTED
pub record ChargeResult : Type 0 where
  pub approved : Bool
  pub external_reference : Text

-- `SessionQuote` of the session billing port
pub record SessionQuote : Type 0 where
  pub session_id : Text
  pub user_id : Text
  pub branch_id : Text
  pub active : Bool
  pub amount : Cents

-- `PaymentEventsPort.paymentRegistered` and `publishPaymentRegistered`
pub data PaymentEvent : Type 0 where
  payment_registered : (id session_id branch_id : Text) → Cents → PaymentStatus → PaymentEvent
  audit_payment :
      (id session_id branch_id user_id : Text) → Cents → PaymentStatus → Millis → PaymentEvent

pub record PaymentWorld : Type 0 where
  pub payments : List Payment
  pub next_id : Text
  -- What the methods of payment were asked for and approved, newest first.
  pub charged : List ChargeInput
  pub sent : List PaymentEvent

pub record PaymentEnv : Type 0 where
  pub now : Millis
  -- backend's answer: a quote, its error, or that it is not available
  pub get_quote : Text → Result SessionQuote
  -- `PAYMENT_METHOD`
  pub charge : ChargeInput → ChargeResult
