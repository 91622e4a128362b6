-- ===== src/Notifications.antt =====
-- notifications-service: the consumer of the confirmations, with its attempts to send each mail
-- (notifications-service/src/consumer.ts, types.ts, mailer.ts).
pub mod Attempts
use onion_architecture.Base.{
  ℕ, zero, suc, ◌+◌, ◌-◌, ◌*◌, ◌≡◌, Bool, true, false, Option, none, some, List, [], ◌∷◌, ◌==◌,
  truthy, if◌then◌else◌,
}
use onion_architecture.Domain.{Text}
use onion_architecture.Audit.{Value, text}

-- What the service reads of a value: nothing, unless it is an object.
pub data Parsed : Type 0 where
  no_object : Parsed
  fields : (event_type reservation_id user_email : Value) → Parsed

-- `ReservationConfirmationEvent`, as far as it is checked; the mail is made of the other fields.
pub record Confirmation : Type 0 where
  pub reservation_id : Text
  pub user_email : Text

-- 'reservation.confirmation.email', as a number
abbrev pub confirmation_type : Text
confirmation_type = 1

-- `isReservationConfirmationEvent`, with the value as the event that it is
unfoldable pub is_reservation_confirmation_event : Parsed → Option Confirmation
is_reservation_confirmation_event (fields (text t) (text r) (text e)) =
    if t == confirmation_type then some (record { reservation_id = r; user_email = e }) else none
is_reservation_confirmation_event _ = none

-- The labels of `notificationMessages`.
pub data Outcome : Type 0 where
  invalid sent skipped failed : Outcome

-- What a message brings about: the mails that left, the attempts, and the milliseconds of `sleep`.
pub record Trace : Type 0 where
  pub outcome : Outcome
  pub mails : List Confirmation
  pub attempts : ℕ
  pub slept : ℕ

-- `config.mail.enabled`, and whether the mail server takes the k-th attempt.
pub record MailEnv : Type 0 where
  pub enabled : Bool
  pub accepts : ℕ → Bool

abbrev pub max_send_attempts : ℕ
max_send_attempts = 3

abbrev pub retry_base_delay_ms : ℕ
retry_base_delay_ms = 1000

-- `sendConfirmationEmail`: whether it returns
unfoldable pub send_confirmation_email : MailEnv → ℕ → Bool
send_confirmation_email env attempt = if env.enabled then env.accepts attempt else true

-- What leaves, and the label, once it returned.
abbrev pub delivered : MailEnv → Confirmation → ℕ → ℕ → Trace
delivered env c attempt slept = record {
  outcome = if env.enabled then sent else skipped;
  mails = if env.enabled then c ∷ [] else [];
  attempts = attempt;
  slept = slept;
}

-- The loop, with the attempts that are left after this one.
unfoldable pub send_from : MailEnv → Confirmation → (left attempt slept : ℕ) → Trace
unfolding send_confirmation_email
send_from env c zero attempt slept =
    if send_confirmation_email env attempt
    then delivered env c attempt slept
    else record { outcome = failed; mails = []; attempts = attempt; slept = slept }
send_from env c (suc left) attempt slept =
    let again = send_from env c left (attempt + 1) (slept + retry_base_delay_ms * attempt) in
    if send_confirmation_email env attempt then delivered env c attempt slept else again

abbrev pub ignored : Trace
ignored = record { outcome = invalid; mails = []; attempts = 0; slept = 0 }

abbrev pub process_event : MailEnv → Option Confirmation → Trace
process_event env none = ignored
process_event env (some c) = send_from env c (max_send_attempts - 1) 1 0

abbrev pub process_parsed : MailEnv → Option Parsed → Trace
process_parsed env none = ignored
process_parsed env (some v) = process_event env (is_reservation_confirmation_event v)

abbrev pub process_text : MailEnv → (Text → Option Parsed) → Option Text → Trace
process_text env parse_json none = ignored
process_text env parse_json (some raw) = process_parsed env (parse_json raw)

-- `processMessage`
unfoldable pub process_message : MailEnv → (Text → Option Parsed) → Option Text → Trace
unfolding is_reservation_confirmation_event send_from
process_message env parse_json value = process_text env parse_json (truthy value)
