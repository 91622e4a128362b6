-- ===== src/World/Env.antt =====
-- What one request reads through the ports that stand for other programs and for the machine: the
-- clock, the configuration, the QR signer, auth-service, payments-service, the message brokers
-- and the arithmetic of doubles. Each gives one answer throughout a request.
use onion_architecture.Base.{Bool, Option}
use onion_architecture.Domain.{Text, Millis, Cents, Double, Payment}
use onion_architecture.World.Events.{ConfirmationEmail, RequestMessage}

-- `Math` and the operators on numbers, for doubles other than NaN.
pub record DoubleOps : Type 0 where
  pub of_int : Text → Double
  pub add : Double → Double → Double
  pub sub : Double → Double → Double
  pub mul : Double → Double → Double
  pub div : Double → Double → Double
  pub sin : Double → Double
  pub cos : Double → Double
  pub sqrt : Double → Double
  pub atan2 : Double → Double → Double
  pub pi : Double
  -- `a - b <= 0`, what `sort` reads of a comparator `a - b`
  pub le : Double → Double → Bool

-- `QrPayload`, whose `type` says which kind it is; the field of the other kind is not read.
pub data QrPayload : Type 0 where
  entry : (reservation_id : Option Text) → QrPayload
  exit : (session_id : Option Text) → QrPayload

-- `UserLookupResult`
pub record UserLookupResult : Type 0 where
  pub id : Text
  pub email : Text
  pub full_name : Text

-- A call of another service: its answer, or a failure to answer.
pub data Reply (A : Type 0) : Type 0 where
  answer : A → Reply A
  failed : Reply A

-- SLOT_ASSIGNMENT_STRATEGY
pub data Strategy : Type 0 where
  default_strategy balanced_strategy : Strategy

pub record BranchRevenue : Type 0 where
  pub branch_id : Text
  pub total : Cents

pub record Env : Type 0 where
  pub now : Millis
  pub tolerance_minutes : Text
  pub strategy : Strategy
  pub doubles : DoubleOps
  -- none: `verify` throws `InvalidQrCodeError`
  pub verify_qr : Text → Option QrPayload
  pub sign_entry_token : Text → Text
  pub sign_exit_token : Text → Text
  pub find_user : Text → Reply (Option UserLookupResult)
  -- `failed`: `PaymentServiceUnavailableError`
  pub find_payment : Text → Reply (Option Payment)
  pub publish_accepted : ConfirmationEmail → Bool
  pub enqueue_accepted : RequestMessage → Bool
  pub random_uuid : Text
