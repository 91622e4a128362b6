-- ===== src/Auth/Social.antt =====
-- The logins with Google and Facebook: `LoginWithGoogleUseCase`, `LoginWithFacebookUseCase`, and
-- the adapters that check the tokens, FirebaseGoogleTokenAdapter and FacebookGraphTokenAdapter.
pub mod Replies
pub mod Outcome
use onion_architecture.Base.{
  ◌*◌, Bool, true, false, not, ◌||◌, Option, none, some, ◌==◌, leb, or_else, truthy, if◌then◌else◌,
}
use onion_architecture.Domain.{Text, Millis, domain, infra, invalid_credentials, not_configured}
use onion_architecture.World.Action.{Action, pure, throw, or_throw, throw_if, ◌>>=◌, ◌>>◌}
use onion_architecture.Auth.{UserRow, user, AuthWorld, AuthEnv}
use onion_architecture.Auth.Users as Users
use onion_architecture.Auth.Login.{LoginResult, issue_session}

-- `GoogleIdentity`
pub record GoogleIdentity : Type 0 where
  pub email : Text
  pub full_name : Text
  pub email_verified : Bool

-- What the adapter reads of the claims of an ID token.
pub record GoogleClaims : Type 0 where
  pub email : Option Text
  pub name : Option Text
  pub email_verified : Bool

-- `FacebookIdentity`
pub record FacebookIdentity : Type 0 where
  pub email : Text
  pub full_name : Text
  pub facebook_user_id : Text

pub record DebugTokenData : Type 0 where
  pub app_id : Option Text
  pub is_valid : Bool
  -- in seconds
  pub expires_at : Option Millis

pub record GraphMe : Type 0 where
  pub id : Option Text
  pub name : Option Text
  pub email : Option Text

-- `fetch`, and `response.json()`
pub data GraphReply (A : Type 0) : Type 0 where
  unreachable not_json : GraphReply A
  refused : GraphReply A
  body : A → GraphReply A

-- The settings, and what Google and Facebook answer.
pub record SocialEnv : Type 0 where
  pub project_id : Text
  -- `jwtVerify` under Google's keys, for the issuer and audience of a project; none: it throws
  pub verify_id_token : (project_id token : Text) → Option GoogleClaims
  pub app_id : Text
  pub app_secret : Text
  pub debug_token : (token : Text) → GraphReply (Option DebugTokenData)
  pub me : (token proof : Text) → GraphReply GraphMe
  -- `createHmac('sha256', appSecret)`
  pub app_secret_proof : (secret token : Text) → Text
  pub random_uuid : Text

-- `FirebaseGoogleTokenAdapter.verify`
unfoldable pub verify_google : SocialEnv → Text → Action AuthWorld GoogleIdentity
verify_google env token = do
  throw_if (env.project_id == 0) (infra not_configured)
  payload ← or_throw (env.verify_id_token env.project_id token) (domain invalid_credentials)
  email ← or_throw (truthy payload.email) (domain invalid_credentials)
  pure (record {
    email = email;
    full_name = or_else payload.name email;
    email_verified = payload.email_verified;
  })

-- `getJson`: whatever goes wrong, the credentials are invalid.
abbrev pub get_json : {A : Type 0} → GraphReply A → Action AuthWorld A
get_json unreachable = throw (domain invalid_credentials)
get_json not_json = throw (domain invalid_credentials)
get_json refused = throw (domain invalid_credentials)
get_json (body a) = pure a

-- `!data?.is_valid`
abbrev pub valid_data : Option DebugTokenData → Option DebugTokenData
valid_data none = none
valid_data (some d) = if d.is_valid then some d else none

abbrev pub is_of_app : Option Text → Text → Bool
is_of_app none app = false
is_of_app (some a) app = a == app

-- `data.expires_at && data.expires_at * 1000 <= Date.now()`
abbrev pub is_past : Option Millis → Millis → Bool
is_past none now = false
is_past (some t) now = if t == 0 then false else leb (t * 1000) now

-- `assertTokenBelongsToThisApp`
unfoldable pub assert_token_belongs_to_this_app :
    AuthEnv → SocialEnv → Text → Action AuthWorld (Unit {0})
assert_token_belongs_to_this_app clock env token = do
  reply ← get_json (env.debug_token token)
  d ← or_throw (valid_data reply) (domain invalid_credentials)
  throw_if (not (is_of_app d.app_id env.app_id)) (domain invalid_credentials)
  throw_if (is_past d.expires_at clock.now) (domain invalid_credentials)

-- `fetchIdentity`
unfoldable pub fetch_identity : SocialEnv → Text → Action AuthWorld FacebookIdentity
fetch_identity env token = do
  me ← get_json (env.me token (env.app_secret_proof env.app_secret token))
  email ← or_throw (truthy me.email) (domain invalid_credentials)
  pure (record {
    email = email;
    full_name = or_else me.name email;
    facebook_user_id = or_else me.id 0;
  })

-- `FacebookGraphTokenAdapter.verify`
unfoldable pub verify_facebook : AuthEnv → SocialEnv → Text → Action AuthWorld FacebookIdentity
unfolding assert_token_belongs_to_this_app fetch_identity
verify_facebook clock env token = do
  throw_if ((env.app_id == 0) || (env.app_secret == 0)) (infra not_configured)
  assert_token_belongs_to_this_app clock env token
  fetch_identity env token

-- The user of an address, or a new one with a password that nobody knows.
abbrev pub or_create : AuthEnv → SocialEnv → Text → Text → Option UserRow → Action AuthWorld UserRow
or_create clock env email full_name (some u) = pure u
or_create clock env email full_name none = Users.create clock (record {
  email = email;
  password_hash = clock.hash_password env.random_uuid;
  full_name = full_name;
  role = user;
})

-- `LoginWithGoogleUseCase.execute`
unfoldable pub login_with_google : AuthEnv → SocialEnv → Text → Action AuthWorld LoginResult
unfolding verify_google Users.find_by_email Users.create issue_session
login_with_google clock env token = do
  identity ← verify_google env token
  throw_if (not identity.email_verified) (domain invalid_credentials)
  found ← Users.find_by_email identity.email
  u ← or_create clock env identity.email identity.full_name found
  pure (issue_session clock u)

-- `LoginWithFacebookUseCase.execute`
unfoldable pub login_with_facebook : AuthEnv → SocialEnv → Text → Action AuthWorld LoginResult
unfolding verify_facebook Users.find_by_email Users.create issue_session
login_with_facebook clock env token = do
  identity ← verify_facebook clock env token
  found ← Users.find_by_email identity.email
  u ← or_create clock env identity.email identity.full_name found
  pure (issue_session clock u)
