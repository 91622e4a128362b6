-- ===== src/Notifications/Attempts.antt =====
-- How often a mail is tried, and what becomes of it.
use onion_architecture.Base.{
  ℕ, ◌≤◌, ◌<◌, ◌≡◌, refl, ◌⊎◌, inl, inr, true, false, Option, none, some, [], arith, truthy, ◌==◌,
  Bool-cases,
}
use onion_architecture.Domain.{Text}
use onion_architecture.Notifications.{
  Parsed, Confirmation, MailEnv, Trace, failed, ignored, delivered, send_confirmation_email,
  send_from, is_reservation_confirmation_event, process_event, process_parsed, process_text,
  process_message, max_send_attempts,
}

-- The mail that a message asks for.
abbrev pub asked : (Text → Option Parsed) → Option Text → Option Confirmation
asked parse_json none = none
asked parse_json (some raw) = elim (parse_json raw) [
  | none ↦ none
  | some v ↦ is_reservation_confirmation_event v
]

-- One mail leaves, and the label says so, exactly if the server takes one of three attempts; all
-- before the one it takes were refused; and the waits add up to three seconds at most.
abbrev pub IsTried : MailEnv → Option Confirmation → Trace → Type 0
IsTried env none t = t ≡ ignored
IsTried env (some c) t =
    (t.attempts ≤ max_send_attempts)
    × (t.slept ≤ 3000)
    × (1 ≤ t.attempts)
    × ((k : ℕ) → 1 ≤ k → k < t.attempts → send_confirmation_email env k ≡ false)
    × (((send_confirmation_email env t.attempts ≡ true) × (t ≡ delivered env c t.attempts t.slept))
        ⊎ ((t.attempts ≡ max_send_attempts)
            × (send_confirmation_email env max_send_attempts ≡ false)
            × (t.outcome ≡ failed)
            × (t.mails ≡ [])))

tried : (env : MailEnv) (c : Confirmation) → IsTried env (some c) (send_from env c 2 1 0)
unfolding send_from
tried env c = elim (Bool-cases (send_confirmation_email env 1)) [
  | inl a ↦
      rw a (omega arith, omega arith, omega arith, λ k x y. absurd (omega arith), inl (a, refl))
  | inr a ↦ elim (Bool-cases (send_confirmation_email env 2)) [
    | inl b ↦
        rw (a, b) (omega arith, omega arith, omega arith, λ k x y. before_2 k x y a, inl (b, refl))
    | inr b ↦ elim (Bool-cases (send_confirmation_email env 3)) [
      | inl d ↦
          rw (a, b, d)
            (omega arith, omega arith, omega arith, λ k x y. before_3 k x y a b, inl (d, refl))
      | inr d ↦
          rw (a, b, d)
            (
              omega arith,
              omega arith,
              omega arith,
              λ k x y. before_3 k x y a b,
              inr (refl, refl, refl, refl),
            )
    ]
  ]
]
  where
    before_2 :
        (k : ℕ)
        → 1 ≤ k
        → k < 2
        → send_confirmation_email env 1 ≡ false
        → send_confirmation_email env k ≡ false
    before_2 k x y a = let e : k ≡ 1 = omega arith in rw e a

    before_3 :
        (k : ℕ)
        → 1 ≤ k
        → k < 3
        → send_confirmation_email env 1 ≡ false
        → send_confirmation_email env 2 ≡ false
        → send_confirmation_email env k ≡ false
    before_3 k x y a b = elim (Bool-cases (k == 1)) [
      | inl e ↦ let q : k ≡ 1 = ground arith in rw q a
      | inr e ↦ let q : k ≡ 2 = ground arith in rw q b
    ]

-- A message with a confirmation is tried once at least and three times at most, waiting three
-- seconds at most: one mail leaves, if mail is enabled, with the first attempt that is taken,
-- all before it being refused, or none leaves and all three were refused; any other message is
-- ignored.
pub process_message-IsTried :
    (env : MailEnv) (parse_json : Text → Option Parsed) (value : Option Text)
    → IsTried env (asked parse_json (truthy value)) (process_message env parse_json value)
unfolding process_message
process_message-IsTried env parse_json value = text_tried (truthy value)
  where
    event_tried : (o : Option Confirmation) → IsTried env o (process_event env o)
    event_tried none = refl
    event_tried (some c) = tried env c

    parsed_tried :
        (o : Option Parsed)
        → IsTried env
            (elim o as (λ x. Option Confirmation) [
              | none ↦ none
              | some v ↦ is_reservation_confirmation_event v
            ])
            (process_parsed env o)
    parsed_tried none = refl
    parsed_tried (some v) = event_tried (is_reservation_confirmation_event v)

    text_tried :
        (o : Option Text) → IsTried env (asked parse_json o) (process_text env parse_json o)
    text_tried none = refl
    text_tried (some raw) = parsed_tried (parse_json raw)
