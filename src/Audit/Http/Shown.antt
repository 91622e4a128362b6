-- ===== src/Audit/Http/Shown.antt =====
-- What the server shows, and to whom.
use onion_architecture.Base.{
  ℕ, ◌≤◌, ◌≡◌, refl, ◌⊎◌, inl, inr, Bool, true, false, Option, none, some, List, [], ◌++◌, Perm,
  sym, ◌==◌, arith, truthy, if◌then◌else◌, Option-cases, subst, or_else,
}
use onion_architecture.Base.Rows.{All, select}
use onion_architecture.Base.Rows.Sweep.{length}
use onion_architecture.Base.Rows.Pages.{
  take, drop, length-take, drop-full, take-drop, take-IsSorted, take-before-drop,
}
use onion_architecture.Base.Sort.{sort_by, sort_by-perm, IsSorted, sort_by-IsSorted}
use onion_architecture.Domain.{Text}
use onion_architecture.Auth.{admin}
use onion_architecture.Auth.Tokens.{Claims, access_user, TokenUser}
use onion_architecture.Realtime.Hub.{is_admin_sound}
use onion_architecture.Audit.{AuditEvent, is_newer, is_of_type, list_events}
use onion_architecture.Audit.Http.{
  Floor, not_finite, negative, whole, Endpoint, health, events, other, HttpRequest, HttpReply,
  health_ok, not_found, unauthorized, items, clamped, limit_of, is_admin_token, serve,
}

-- The events that a request asks for: those of its type, or all where it gives none.
abbrev pub wanted : Option Text → AuditEvent → Bool
wanted none e = true
wanted (some t) e = e.event_type == t

-- A page of the events of a type, newest first, and those that it leaves out: together they are
-- these events, each as often as it is stored; the page is full if it leaves any out; and what it
-- leaves out is no newer than what it shows.
pub record Shows (limit : ℕ) (event_type : Option Text) (rows page : List AuditEvent) : Type 0 where
  pub rest : List AuditEvent
  pub short : length page ≤ limit
  pub full : (rest ≡ []) ⊎ (length page ≡ limit)
  pub sorted : IsSorted is_newer page
  pub newest : All (λ e. All (λ f. is_newer e f ≡ true) rest) page
  pub whole_table : Perm (page ++ rest) (select (wanted (truthy event_type)) rows)

select-wanted :
    (o : Option Text) (rows : List AuditEvent) → select (is_of_type o) rows ≡ select (wanted o) rows
select-wanted none rows = refl
select-wanted (some t) rows = refl

newer_total : (a b : AuditEvent) → is_newer a b ≡ false → is_newer b a ≡ true
newer_total a b h = ground arith

newer_trans : (a b c : AuditEvent) → is_newer a b ≡ true → is_newer b c ≡ true → is_newer a c ≡ true
newer_trans a b c h k = ground arith

-- A page is what it should be of the events of a type.
pub list_events-Shows :
    (limit : ℕ) (event_type : Option Text) (rows : List AuditEvent)
    → Shows limit event_type rows (list_events limit event_type rows)
unfolding list_events
list_events-Shows limit event_type rows =
    let found = select (is_of_type (truthy event_type)) rows in
    let sorted = sort_by is_newer found in
    let order : IsSorted is_newer sorted =
      sort_by-IsSorted is_newer newer_total newer_trans found in
    record {
      rest = drop limit sorted;
      short = length-take limit sorted;
      full = drop-full limit sorted;
      sorted = take-IsSorted is_newer limit sorted order;
      newest = take-before-drop is_newer limit sorted order;
      whole_table =
          subst (Perm (take limit sorted ++ drop limit sorted))
            (select-wanted (truthy event_type) rows)
            (subst (λ l. Perm l found) (sym (take-drop limit sorted))
              (sort_by-perm is_newer found));
    }

clamped_bounds : (f : Floor) → (1 ≤ clamped f) × (clamped f ≤ 100)
clamped_bounds not_finite = (omega arith, omega arith)
clamped_bounds negative = (omega arith, omega arith)
clamped_bounds (whole n) = ground arith

-- The bearer of a token of an admin.
abbrev pub IsAdmin : (Text → Option Claims) → Option Text → Type 0
IsAdmin jwt_verify bearer =
    (t : Text) × (u : TokenUser) × (bearer ≡ some t)
    × (access_user (jwt_verify t) ≡ some u)
    × (u.role ≡ some admin)

module _ (jwt_verify : Text → Option Claims) where
  is_admin_token-IsAdmin :
      (bearer : Option Text) → is_admin_token jwt_verify bearer ≡ true → IsAdmin jwt_verify bearer
  unfolding is_admin_token
  is_admin_token-IsAdmin none h = cc
  is_admin_token-IsAdmin (some t) h = elim (Option-cases (access_user (jwt_verify t))) [
    | inl n ↦ absurd (ground (arith, rw n at h))
    | inr (u, e) ↦ (t, u, refl, e, is_admin_sound u.role (rw e at h))
  ]

  module _ (rows : List AuditEvent) (q : HttpRequest) {page : List AuditEvent} where
    served :
        (e : Endpoint) (get allowed : Bool) (l : List AuditEvent)
        → elim e as (λ x. HttpReply) [
          | health ↦ if get then health_ok else not_found
          | events ↦ if get then (if allowed then items l else unauthorized) else not_found
          | other ↦ not_found
        ]
          ≡ items page
        → (allowed ≡ true) × (l ≡ page)
    served health true a l h = cc
    served health false a l h = cc
    served events true true l h = (refl, cc)
    served events true false l h = cc
    served events false a l h = cc
    served other g a l h = cc

    -- If the audit server answers with events, the token is one of an admin that verifies; the
    -- page, whose limit is from 1 to 100, is sorted with the newest first; with some others it
    -- makes up the stored events of the type asked for, each as often as it is stored; these
    -- others are no newer than what is shown, and there are none unless the page is as long as
    -- the limit.
    pub serve-items :
        serve jwt_verify rows q ≡ items page
        → (1 ≤ limit_of q.limit)
          × (limit_of q.limit ≤ 100)
          × IsAdmin jwt_verify q.bearer
          × Shows (limit_of q.limit) q.event_type rows page
    unfolding serve
    serve-items h =
        let (a, e) =
          served q.path q.is_get (is_admin_token jwt_verify q.bearer)
            (list_events (limit_of q.limit) q.event_type rows) h in
        let (lo, hi) = clamped_bounds (or_else q.limit (whole 50)) in
        (
          lo,
          hi,
          is_admin_token-IsAdmin q.bearer a,
          subst (Shows (limit_of q.limit) q.event_type rows) e
              (list_events-Shows (limit_of q.limit) q.event_type rows),
        )
