-- ===== src/Auth/Login/Outcome.antt =====
-- What a login with a password gives.
use onion_architecture.Base.{
  ◌≡◌, refl, inl, inr, true, false, some, arith, Bool-cases, Option-cases,
}
use onion_architecture.Base.Rows.{find}
use onion_architecture.Domain.{Text, domain, invalid_credentials}
use onion_architecture.World.Action.{Result, ok, err}
use onion_architecture.Auth.{UserRow, AuthWorld, AuthEnv}
use onion_architecture.Auth.Users as Users
use onion_architecture.Auth.Users.{user_email}
use onion_architecture.Auth.Login.{
  LoginResult, access, mfa_required, login, issue_session, issue_access_session,
}

-- The user of the address, who gave the password.
abbrev pub Matches : AuthEnv → Text → Text → AuthWorld → UserRow → Type 0
Matches env email password w u =
    (find user_email email w.users ≡ some u)
    × (env.compare_password password u.password_hash ≡ true)

-- A session is for the user of the address, who gave the password and has no second factor; who
-- has one gets a challenge; all others get one and the same error.
abbrev pub LogsIn : AuthEnv → Text → Text → AuthWorld → Result LoginResult → Type 0
LogsIn env email password w (ok (access t u)) =
    Matches env email password w u
    × (u.mfa_enabled ≡ false)
    × (t ≡ env.sign (record { sub = u.id; email = u.email; role = u.role }))
LogsIn env email password w (ok (mfa_required t)) =
    (u : UserRow) × Matches env email password w u
    × (u.mfa_enabled ≡ true)
    × (t ≡ env.sign_mfa_challenge u.id)
LogsIn env email password w (err e) =
    (e ≡ domain invalid_credentials)
    × ((u : UserRow)
        → find user_email email w.users ≡ some u
        → env.compare_password password u.password_hash ≡ false)

issue_session-open :
    (env : AuthEnv) (u : UserRow)
    → u.mfa_enabled ≡ false
    → issue_session env u ≡ issue_access_session env u
unfolding issue_session
issue_session-open env u d = rw d refl

issue_session-challenge :
    (env : AuthEnv) (u : UserRow)
    → u.mfa_enabled ≡ true
    → issue_session env u ≡ mfa_required (env.sign_mfa_challenge u.id)
unfolding issue_session
issue_session-challenge env u d = rw d refl

-- A login changes nothing; it returns a session only for the user of the address who gave the
-- password and has no second factor, a challenge only for one who gave it and has one, and
-- otherwise the one error for bad credentials, when no user has that address and password.
pub login-LogsIn :
    (env : AuthEnv) (email password : Text) (w : AuthWorld)
    → LogsIn env email password w (login env email password w).0
      × ((login env email password w).1 ≡ w)
unfolding login Users.find_by_email issue_access_session
login-LogsIn env email password w = elim (Option-cases (find user_email email w.users)) [
  | inl n ↦ rw n ((refl, λ u h. cc), refl)
  | inr (u, f) ↦ elim (Bool-cases (env.compare_password password u.password_hash)) [
    | inr m ↦ rw (f, m) ((refl, λ v h. ground (arith, m)), refl)
    | inl m ↦ elim (Bool-cases u.mfa_enabled) [
      | inl d ↦ rw (f, m, issue_session-challenge env u d) ((u, (f, m), d, refl), refl)
      | inr d ↦ rw (f, m, issue_session-open env u d) (((f, m), d, refl), refl)
    ]
  ]
]
