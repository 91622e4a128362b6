-- ===== src/Audit/Http.antt =====
-- `startHttpServer`: who may read the events, and how many.
pub mod Shown
use onion_architecture.Base.{
  ℕ, ◌≤◌, ◌≡◌, refl, ap, ◌∙◌, ◌⊎◌, inl, inr, Bool, true, false, not, ◌&&◌, Option, none, some, List,
  [], ◌∷◌, ◌++◌, arith, leb, ltb, ◌==◌, or_else, truthy, if◌then◌else◌, Bool-cases, Option-cases,
}
use onion_architecture.Base.Rows.{All, select}
use onion_architecture.Base.Rows.Sweep.{length, All-select_holds}
use onion_architecture.Base.Rows.Pages.{
  take, drop, length-take, drop-full, All-take, take-IsSorted, take-before-drop,
}
use onion_architecture.Base.Sort.{sort_by, sort_by-All, All-sort_by, IsSorted, sort_by-IsSorted}
use onion_architecture.Domain.{Text}
use onion_architecture.Auth.{Role, admin}
use onion_architecture.Auth.Tokens.{Claims, access_user, TokenUser}
use onion_architecture.Realtime.{is_admin}
use onion_architecture.Audit.{AuditEvent, is_newer, is_of_type, list_events}

-- A number as `Number` reads it from a text, and `Math.floor` rounds it.
pub data Floor : Type 0 where
  -- NaN, or infinite
  not_finite : Floor
  negative : Floor
  whole : ℕ → Floor

pub data Endpoint : Type 0 where
  health events other : Endpoint

pub record HttpRequest : Type 0 where
  pub is_get : Bool
  pub path : Endpoint
  -- the header `authorization` after `Bearer `, where it starts with that
  pub bearer : Option Text
  pub limit : Option Floor
  pub event_type : Option Text

pub data HttpReply : Type 0 where
  health_ok not_found unauthorized : HttpReply
  items : List AuditEvent → HttpReply

-- `Math.min(100, Math.max(1, Math.floor(n)))`, 50 for what is no number or is not there
abbrev pub clamped : Floor → ℕ
clamped not_finite = 50
clamped negative = 1
clamped (whole n) = let m = if ltb n 1 then 1 else n in if ltb 100 m then 100 else m

abbrev pub limit_of : Option Floor → ℕ
limit_of o = clamped (or_else o (whole 50))

abbrev pub has_admin_role : Option TokenUser → Bool
has_admin_role none = false
has_admin_role (some u) = is_admin u.role

-- `createAdminVerifier`, with the check of the signature as a parameter; the role and the purpose
-- are tested together
unfoldable pub is_admin_token : (Text → Option Claims) → Option Text → Bool
is_admin_token jwt_verify none = false
is_admin_token jwt_verify (some t) = has_admin_role (access_user (jwt_verify t))

-- The handler of the server.
unfoldable pub serve : (Text → Option Claims) → List AuditEvent → HttpRequest → HttpReply
unfolding is_admin_token list_events
serve jwt_verify rows q = elim q.path [
  | health ↦ if q.is_get then health_ok else not_found
  | events ↦
      if q.is_get
      then (if is_admin_token jwt_verify q.bearer
          then items (list_events (limit_of q.limit) q.event_type rows)
          else unauthorized)
      else not_found
  | other ↦ not_found
]
