-- ===== src/Tests/Services.antt =====
-- The audit store, the mails, and the HTTP side of backend.
use onion_architecture.Base.{
  zero, suc, ◌≤◌, ◌≡◌, refl, inl, inr, true, false, Option, none, some, List, [], ◌∷◌, ◌++◌, truthy,
}
use onion_architecture.Base.Rows.{find, select}
use onion_architecture.Base.Sort.{sort_by}
use onion_architecture.Domain.{Text, Millis}
use onion_architecture.World.Env.{failed}
use onion_architecture.Auth.{admin}
use onion_architecture.Auth.Tokens.{Claims, access}
use onion_architecture.Audit.{AuditEvent, Parsed, fields, text, object, event_id, list_events}
use onion_architecture.Audit.Store.{consume, events_in, or_later, consume-find, consume_again}
use onion_architecture.Audit.Http.{HttpRequest, events, items, whole, limit_of}
use onion_architecture.Audit.Http as AuditHttp
use onion_architecture.Audit.Http.Shown.{IsAdmin, Shows, serve-items}
use onion_architecture.Notifications.{MailEnv, process_message}
use onion_architecture.Notifications as Notifications
use onion_architecture.Notifications.Attempts.{IsTried, asked, process_message-IsTried}
use onion_architecture.Http.Routes.{at_reservations, cancel_route}
use onion_architecture.Http.{serve, authenticate}
use onion_architecture.Http.Effects.{Effect, serve-Effect}
use onion_architecture.Tests.Data.{env, waiting_world}

-- Message t holds event t, of type 1, at time t.
abbrev parse_json : Text → Option Parsed
parse_json t = some (fields (text t) (text 1) (text t) (text 5) (text 7) (object 6))

abbrev parse_date : Text → Option Millis
parse_date d = some d

abbrev messages : List (Option Text)
messages = some 4 ∷ none ∷ some 5 ∷ some 4 ∷ []

consume-find_example :
    find event_id 4 (consume parse_json parse_date messages [])
    ≡ or_later (find event_id 4 []) (find event_id 4 (events_in parse_json parse_date messages))
consume-find_example = consume-find parse_json parse_date messages [] 4

consume_again_example :
    consume parse_json parse_date (messages ++ some 5 ∷ []) []
    ≡ consume parse_json parse_date messages []
consume_again_example =
    consume_again parse_json parse_date messages (some 5 ∷ []) [] (inr (inr (inl refl)), tt)

-- Every token is one of an admin.
abbrev jwt_verify : Text → Option Claims
jwt_verify t =
    some (record {
      sub = some 7;
      email = some 70;
      role = some admin;
      purpose = some access;
      exp = 1000;
    })

abbrev event : Text → AuditEvent
event t = record {
  event_id = t;
  event_type = 1;
  occurred_at = t;
  aggregate_id = 5;
  actor_user_id = 7;
  payload = 6;
}

abbrev request : HttpRequest
request = record {
  is_get = true;
  path = events;
  bearer = some 9;
  limit = some (whole 1);
  event_type = none;
}

-- The later one of two events.
serve-items_example :
    (1 ≤ limit_of (some (whole 1)))
    × (limit_of (some (whole 1)) ≤ 100)
    × IsAdmin jwt_verify (some 9)
    × Shows (limit_of (some (whole 1))) none (event 4 ∷ event 5 ∷ []) (event 5 ∷ [])
unfolding AuditHttp.serve list_events sort_by select
serve-items_example =
    serve-items jwt_verify (event 4 ∷ event 5 ∷ []) request {page = event 5 ∷ []} refl

-- The server refuses the first attempt and takes the second.
abbrev mail_env : MailEnv
mail_env = record {
  enabled = true;
  accepts = λ k. elim k [ zero ↦ false | suc m ↦ elim m [ zero ↦ false | suc n ↦ true ] ];
}

abbrev confirmation : Text → Option Notifications.Parsed
confirmation t = some (Notifications.fields (text 1) (text t) (text 70))

process_message-IsTried_example :
    IsTried mail_env
      (asked confirmation (truthy (some 100)))
      (process_message mail_env confirmation (some 100))
process_message-IsTried_example = process_message-IsTried mail_env confirmation (some 100)

-- User 7 cancels reservation 100.
serve-Effect_example :
    Effect jwt_verify
      (λ ids. failed)
      env
      waiting_world
      (authenticate jwt_verify (some 9))
      (serve jwt_verify
        (λ ids. failed)
        env
        (some 9)
        (at_reservations (cancel_route 100))
        waiting_world).1
serve-Effect_example =
    serve-Effect jwt_verify (λ ids. failed) env waiting_world (some 9)
      (at_reservations (cancel_route 100))
