-- ===== src/Audit.antt =====
-- audit-service: what it takes from the topic (audit-service/src/consumer.ts, types.ts), what it
-- stores (store.ts), and whom it shows it to (http.ts).
pub mod Store
pub mod Http
use onion_architecture.Base.{
  ℕ, ◌≡◌, Bool, true, false, not, ◌&&◌, ◌||◌, Option, none, some, List, [], ◌∷◌, ◌++◌, leb, ◌==◌,
  is_some, truthy, if◌then◌else◌,
}
use onion_architecture.Base.Rows.{find, select}
use onion_architecture.Base.Rows.Pages.{take}
use onion_architecture.Base.Sort.{sort_by}
use onion_architecture.Domain.{Text, Millis}

-- `AuditEvent`; the payload is its JSON.
pub record AuditEvent : Type 0 where
  pub event_id : Text
  pub event_type : Text
  pub occurred_at : Millis
  pub aggregate_id : Text
  pub actor_user_id : Text
  pub payload : Text

-- A value of a field, as `typeof` and `Array.isArray` tell it.
pub data Value : Type 0 where
  undefined null array : Value
  text : Text → Value
  scalar : Value
  object : Text → Value

-- What `isAuditEvent` reads of a value: nothing, unless it is an object.
pub data Parsed : Type 0 where
  no_object : Parsed
  fields : (event_id event_type occurred_at aggregate_id actor_user_id payload : Value) → Parsed

-- The three types, as three numbers.
abbrev pub is_event_type : Text → Bool
is_event_type t = (t == 1) || ((t == 2) || (t == 3))

-- `isAuditEvent`, with the value as the event that it is; `parse_date` is `Date.parse`, none for NaN
unfoldable pub is_audit_event : (Text → Option Millis) → Parsed → Option AuditEvent
is_audit_event parse_date (fields (text i) (text t) (text d) (text a) (text u) (object p)) =
    if is_event_type t
    then elim (parse_date d) [
      | none ↦ none
      | some m ↦ some (record {
        event_id = i;
        event_type = t;
        occurred_at = m;
        aggregate_id = a;
        actor_user_id = u;
        payload = p;
      })
    ]
    else none
is_audit_event parse_date _ = none

abbrev pub event_id : AuditEvent → Text
event_id e = e.event_id

-- `AuditStore.append`: `ON CONFLICT (event_id) DO NOTHING`
unfoldable pub append : AuditEvent → List AuditEvent → List AuditEvent
append e rows = if is_some (find event_id e.event_id rows) then rows else rows ++ e ∷ []

-- `ORDER BY occurred_at DESC`
abbrev pub is_newer : AuditEvent → AuditEvent → Bool
is_newer a b = leb b.occurred_at a.occurred_at

abbrev pub is_of_type : Option Text → AuditEvent → Bool
is_of_type none e = true
is_of_type (some t) e = e.event_type == t

-- `AuditStore.list`
unfoldable pub list_events : ℕ → Option Text → List AuditEvent → List AuditEvent
list_events limit event_type rows =
    take limit (sort_by is_newer (select (is_of_type (truthy event_type)) rows))

-- What becomes of a message: the handler throws, so that the broker sends it again, or the message
-- is done with.
pub data Handled : Type 0 where
  thrown : Handled
  done : List AuditEvent → Handled

abbrev pub store_event : Option AuditEvent → List AuditEvent → Handled
store_event none rows = done rows
store_event (some e) rows = done (append e rows)

abbrev pub store_parsed : (Text → Option Millis) → Option Parsed → List AuditEvent → Handled
store_parsed parse_date none rows = done rows
store_parsed parse_date (some v) rows = store_event (is_audit_event parse_date v) rows

module _ (parse_json : Text → Option Parsed) (parse_date : Text → Option Millis) where
  abbrev pub store_text : Option Text → List AuditEvent → Handled
  store_text none rows = thrown
  store_text (some raw) rows = store_parsed parse_date (parse_json raw) rows

  -- `eachMessage`
  unfoldable pub each_message : Option Text → List AuditEvent → Handled
  unfolding is_audit_event append
  each_message value rows = store_text (truthy value) rows
