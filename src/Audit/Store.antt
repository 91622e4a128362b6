-- ===== src/Audit/Store.antt =====
-- What the store holds after any deliveries, repeated ones included.
use onion_architecture.Base.{
  ◌≡◌, refl, ◌∙◌, ◌⊎◌, inl, inr, true, Option, none, some, List, [], ◌∷◌, ◌++◌, arith, is_some,
  if◌then◌else◌, Option-cases, truthy, ◌==◌, ==_iff,
}
use onion_architecture.Base.Rows.{All, find, Keyed}
use onion_architecture.Base.Rows.Sweep.{All-mono}
use onion_architecture.Base.Rows.Keys.{find-append, append-Keyed}
use onion_architecture.Domain.{Text, Millis}
use onion_architecture.Audit.{
  AuditEvent, Parsed, Handled, thrown, done, is_audit_event, event_id, append, store_parsed,
  store_text, each_message,
}

abbrev Rows : Type 0
Rows = List AuditEvent

-- The rows once a message was handled.
abbrev pub rows_after : Handled → List AuditEvent → List AuditEvent
rows_after thrown rows = rows
rows_after (done r) rows = r

-- The row that a search finds first.
abbrev pub or_later : Option AuditEvent → Option AuditEvent → Option AuditEvent
or_later none p = p
or_later (some e) p = some e

module _ {A : Type 0} where
  abbrev pub IsAmong : A → List A → Type 0
  IsAmong m [] = ⊥
  IsAmong m (x ∷ xs) = (m ≡ x) ⊎ IsAmong m xs

module _ (parse_json : Text → Option Parsed) (parse_date : Text → Option Millis) where
  -- The event that a message carries, if it is one.
  abbrev event_parsed : Option Parsed → Option AuditEvent
  event_parsed none = none
  event_parsed (some v) = is_audit_event parse_date v

  abbrev event_text : Option Text → Option AuditEvent
  event_text none = none
  event_text (some raw) = event_parsed (parse_json raw)

  abbrev pub event_in : Option Text → Option AuditEvent
  event_in value = event_text (truthy value)

  abbrev pub appended : Option AuditEvent → Rows → Rows
  appended none rows = rows
  appended (some e) rows = append e rows

  -- Deliveries, in the order in which the broker makes them.
  unfoldable pub consume : List (Option Text) → Rows → Rows
  consume [] rows = rows
  consume (m ∷ ms) rows = consume ms (rows_after (each_message parse_json parse_date m rows) rows)

  -- The events among the messages.
  abbrev pub cons_event : Option AuditEvent → List AuditEvent → List AuditEvent
  cons_event none es = es
  cons_event (some e) es = e ∷ es

  abbrev pub events_in : List (Option Text) → List AuditEvent
  events_in [] = []
  events_in (m ∷ ms) = cons_event (event_in m) (events_in ms)

  each_message-appended :
      (m : Option Text) (rows : Rows)
      → rows_after (each_message parse_json parse_date m rows) rows ≡ appended (event_in m) rows
  unfolding each_message
  each_message-appended m rows = text_appended (truthy m)
    where
      parsed_appended :
          (v : Option Parsed)
          → rows_after (store_parsed parse_date v rows) rows ≡ appended (event_parsed v) rows
      parsed_appended none = refl
      parsed_appended (some v) = elim (Option-cases (is_audit_event parse_date v)) [
        | inl n ↦ rw n refl
        | inr (e, h) ↦ rw h refl
      ]

      text_appended :
          (t : Option Text)
          → rows_after (store_text parse_json parse_date t rows) rows ≡ appended (event_text t) rows
      text_appended none = refl
      text_appended (some raw) = parsed_appended (parse_json raw)

  append-find :
      (i : Text) (e : AuditEvent) (rows : Rows)
      → find event_id i (append e rows)
        ≡ or_later (find event_id i rows) (if e.event_id == i then some e else none)
  unfolding append
  append-find i e rows = elim (Option-cases (find event_id e.event_id rows)) [
    | inl n ↦ rw n (ground (arith, find-append event_id i e rows))
    | inr (s, h) ↦ rw h (ground (arith, ==_iff e.event_id i))
  ]

  cons_event-find :
      (i : Text) (o : Option AuditEvent) (rows : Rows) (es : List AuditEvent)
      → or_later (find event_id i (appended o rows)) (find event_id i es)
        ≡ or_later (find event_id i rows) (find event_id i (cons_event o es))
  unfolding find
  cons_event-find i none rows es = refl
  cons_event-find i (some e) rows es = ground (arith, append-find i e rows)

  or_none : (o : Option AuditEvent) → o ≡ or_later o none
  or_none none = refl
  or_none (some e) = refl

  -- After any messages, the store finds under an identifier the row that it held already, or
  -- else the first event with this identifier among the messages, those that are no events being
  -- passed over.
  pub consume-find :
      (ms : List (Option Text)) (rows : Rows) (i : Text)
      → find event_id i (consume ms rows)
        ≡ or_later (find event_id i rows) (find event_id i (events_in ms))
  unfolding consume find
  consume-find [] rows i = or_none (find event_id i rows)
  consume-find (m ∷ ms) rows i = rw (each_message-appended m rows) (
      consume-find ms (appended (event_in m) rows) i
      ∙ cons_event-find i (event_in m) rows (events_in ms))

  appended-Keyed :
      (o : Option AuditEvent) (rows : Rows) → Keyed event_id rows → Keyed event_id (appended o rows)
  unfolding append
  appended-Keyed none rows k = k
  appended-Keyed (some e) rows k = elim (Option-cases (find event_id e.event_id rows)) [
    | inl n ↦ rw n (append-Keyed event_id e rows n k)
    | inr (s, h) ↦ rw h k
  ]

  pub consume-Keyed :
      (ms : List (Option Text)) (rows : Rows)
      → Keyed event_id rows
      → Keyed event_id (consume ms rows)
  unfolding consume
  consume-Keyed [] rows k = k
  consume-Keyed (m ∷ ms) rows k =
      rw (each_message-appended m rows) (consume-Keyed ms _ (appended-Keyed (event_in m) rows k))

  -- A message that was handled before adds nothing.
  abbrev IsSettled : Option AuditEvent → Rows → Type 0
  IsSettled none rows = Unit {0}
  IsSettled (some e) rows = is_some (find event_id e.event_id rows) ≡ true

  settled-appended :
      (o : Option AuditEvent) (rows : Rows) → IsSettled o rows → appended o rows ≡ rows
  unfolding append
  settled-appended none rows h = refl
  settled-appended (some e) rows h = rw h refl

  appended-IsSettled : (o : Option AuditEvent) (rows : Rows) → IsSettled o (appended o rows)
  appended-IsSettled none rows = tt
  appended-IsSettled (some e) rows =
      ground (arith, append-find e.event_id e rows, ==_iff e.event_id e.event_id)

  keep-IsSettled :
      (o p : Option AuditEvent) (rows : Rows) → IsSettled o rows → IsSettled o (appended p rows)
  keep-IsSettled none p rows h = tt
  keep-IsSettled (some e) none rows h = h
  keep-IsSettled (some e) (some f) rows h = ground (arith, append-find e.event_id f rows)

  consume-IsSettled :
      (ms : List (Option Text)) (m : Option Text) (rows : Rows)
      → IsSettled (event_in m) rows
      → IsSettled (event_in m) (consume ms rows)
  unfolding consume
  consume-IsSettled [] m rows h = h
  consume-IsSettled (x ∷ ms) m rows h =
      rw (each_message-appended x rows)
        (consume-IsSettled ms m _ (keep-IsSettled (event_in m) (event_in x) rows h))

  among-IsSettled :
      (ms : List (Option Text)) (m : Option Text) (rows : Rows)
      → IsAmong m ms
      → IsSettled (event_in m) (consume ms rows)
  unfolding consume
  among-IsSettled [] m rows h = absurd h
  among-IsSettled (x ∷ ms) m rows (inl e) =
      rw (e, each_message-appended x rows)
        (consume-IsSettled ms x _ (appended-IsSettled (event_in x) rows))
  among-IsSettled (x ∷ ms) m rows (inr h) = among-IsSettled ms m _ h

  consume_known :
      (ms : List (Option Text)) (rows : Rows)
      → All (λ m. IsSettled (event_in m) rows) ms
      → consume ms rows ≡ rows
  unfolding consume
  consume_known [] rows h = refl
  consume_known (m ∷ ms) rows h =
      rw (each_message-appended m rows, settled-appended (event_in m) rows h.0)
        (consume_known ms rows h.1)

  consume-append :
      (ms ns : List (Option Text)) (rows : Rows)
      → consume (ms ++ ns) rows ≡ consume ns (consume ms rows)
  unfolding consume
  consume-append [] ns rows = refl
  consume-append (m ∷ ms) ns rows = consume-append ms ns _

  -- To deliver messages again that were delivered before, in any order and as often as it may
  -- be, changes nothing in the store.
  pub consume_again :
      (ms again : List (Option Text)) (rows : Rows)
      → All (λ m. IsAmong m ms) again
      → consume (ms ++ again) rows ≡ consume ms rows
  consume_again ms again rows h =
      consume-append ms again rows
      ∙ consume_known again (consume ms rows) (
          All-mono (λ m. IsAmong m ms) (λ m. IsSettled (event_in m) (consume ms rows))
            (λ m k. among-IsSettled ms m rows k) again h)
