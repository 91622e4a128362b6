-- ===== src/Auth/Login.antt =====
-- `RegisterUserUseCase`, `LoginUserUseCase` and the end that all logins share.
pub mod Outcome
use onion_architecture.Base.{
  Bool, true, false, not, Option, none, some, List, is_some, if◌then◌else◌,
}
use onion_architecture.Domain.{Text, domain, invalid_credentials, email_already_registered}
use onion_architecture.World.Action.{Action, Result, ok, err, pure, or_throw, throw_if, ◌>>=◌, ◌>>◌}
use onion_architecture.Auth.{UserRow, Role, user, AccessPayload, AuthWorld, AuthEnv}
use onion_architecture.Auth.Users as Users

-- `LoginUserResult`: the session, or the challenge.
pub data LoginResult : Type 0 where
  access : (token : Text) (user : UserRow) → LoginResult
  mfa_required : (mfa_token : Text) → LoginResult

-- `issueAccessSession`
unfoldable pub issue_access_session : AuthEnv → UserRow → LoginResult
issue_access_session env u =
    access (env.sign (record { sub = u.id; email = u.email; role = u.role })) u

-- `issueSession`
unfoldable pub issue_session : AuthEnv → UserRow → LoginResult
unfolding issue_access_session
issue_session env u =
    if u.mfa_enabled then mfa_required (env.sign_mfa_challenge u.id) else issue_access_session env u

-- `LoginUserUseCase.execute`
unfoldable pub login : AuthEnv → Text → Text → Action AuthWorld LoginResult
unfolding Users.find_by_email issue_session
login env email password = do
  found ← Users.find_by_email email
  u ← or_throw found (domain invalid_credentials)
  throw_if (not (env.compare_password password u.password_hash)) (domain invalid_credentials)
  pure (issue_session env u)

-- `RegisterUserUseCase.execute`
unfoldable pub register_user : AuthEnv → Text → Text → Text → Action AuthWorld UserRow
unfolding Users.find_by_email Users.create
register_user env email password full_name = do
  existing ← Users.find_by_email email
  throw_if (is_some existing) (domain email_already_registered)
  Users.create env (record {
    email = email;
    password_hash = env.hash_password password;
    full_name = full_name;
    role = user;
  })
