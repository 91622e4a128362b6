-- ===== src/Auth/Mfa.antt =====
-- The second factor: `SetupMfaUseCase`, `ConfirmMfaUseCase`, `VerifyMfaUseCase` and
-- `DisableMfaUseCase`.
pub mod Consume
pub mod Enrol
pub mod Outcome
pub mod Replay
use mathlib.Core.Option as Option
use onion_architecture.Base.{
  ℕ, zero, suc, Bool, true, false, not, ◌&&◌, ◌||◌, Option, none, some, List, [], ◌∷◌, map, leb,
  is_some, truthy, if◌then◌else◌,
}
use onion_architecture.Domain.{
  Text, domain, not_found, user, invalid_credentials, invalid_mfa_code, mfa_already_enabled,
  mfa_not_configured,
}
use onion_architecture.World.Action.{
  Action, Result, ok, err, pure, throw, or_throw, throw_if, ◌>>=◌, ◌>>◌,
}
use onion_architecture.Auth.{Chars, UserRow, AuthWorld, AuthEnv}
use onion_architecture.Auth.Chars.{is_six_digits, trim, normalize_backup_code, generate_backup_code}
use onion_architecture.Auth.Totp.{generate_secret, verify}
use onion_architecture.Auth.Users as Users
use onion_architecture.Auth.Users.{MfaCredentials}
use onion_architecture.Auth.Login.{LoginResult, issue_access_session}

-- `SetupMfaUseCase.execute`; the URI is made of the secret and the address.
unfoldable pub setup_mfa : AuthEnv → Text → Action AuthWorld (Chars × Text)
unfolding Users.find_by_id Users.update_mfa generate_secret
setup_mfa env id = do
  found ← Users.find_by_id id
  u ← or_throw found (domain (not_found user id))
  throw_if u.mfa_enabled (domain mfa_already_enabled)
  Users.update_mfa u.id (record {
    enabled = some false;
    totp_secret_enc = some (some (env.encrypt (generate_secret env)));
    last_step = some none;
    backup_code_hashes = some [];
  })
  pure (generate_secret env, u.email)

-- A secret that is there and not empty, with the credentials.
abbrev pub with_secret : MfaCredentials → Option Text → Option (MfaCredentials × Text)
with_secret c none = none
with_secret c (some s) = some (c, s)

-- `!credentials?.totpSecretEnc`
abbrev pub configured : Option MfaCredentials → Option (MfaCredentials × Text)
configured none = none
configured (some c) = with_secret c (truthy c.totp_secret_enc)

-- BACKUP_CODES_COUNT codes, the k-th from its own draws
abbrev pub backup_codes : AuthEnv → ℕ → List Chars
backup_codes env zero = []
backup_codes env (suc k) = generate_backup_code (env.random_picks k) ∷ backup_codes env k

-- `ConfirmMfaUseCase.execute`
unfoldable pub confirm_mfa : AuthEnv → Text → Chars → Action AuthWorld (List Chars)
unfolding Users.find_mfa_credentials Users.update_mfa verify generate_backup_code
confirm_mfa env id code = do
  found ← Users.find_mfa_credentials id
  c ← or_throw (configured found) (domain mfa_not_configured)
  throw_if c.0.enabled (domain mfa_already_enabled)
  step ← or_throw (verify env (env.decrypt c.1) code) (domain invalid_mfa_code)
  let codes = backup_codes env 8
  Users.update_mfa id (record {
    enabled = some true;
    totp_secret_enc = none;
    last_step = some (some step);
    backup_code_hashes = some (map env.hash_code codes);
  })
  pure codes

-- `!credentials?.enabled || !credentials.totpSecretEnc`
abbrev pub if_enabled : Option (MfaCredentials × Text) → Option (MfaCredentials × Text)
if_enabled none = none
if_enabled (some c) = if c.0.enabled then some c else none

-- `lastStep !== null && step <= lastStep` is a step that was used.
abbrev pub is_used : Option ℕ → ℕ → Bool
is_used none step = false
is_used (some l) step = leb step l

-- A step that the code stands for and that was not used.
abbrev pub fresh_step : Option ℕ → Option ℕ → Option ℕ
fresh_step last none = none
fresh_step last (some step) = if is_used last step then none else some step

abbrev pub use_step : Text → Option ℕ → Action AuthWorld Bool
use_step id none = pure false
use_step id (some step) = do
  Users.update_mfa id (record {
    enabled = none;
    totp_secret_enc = none;
    last_step = some (some step);
    backup_code_hashes = none;
  })
  pure true

-- `consumeTotp`
unfoldable pub consume_totp : AuthEnv → Text → MfaCredentials → Text → Chars → Action AuthWorld Bool
unfolding verify Users.update_mfa
consume_totp env id c secret code =
    use_step id (fresh_step c.last_step (verify env (env.decrypt secret) code))

-- The hashes without the first that the code matches, where there is one.
unfoldable pub without_match : (Text → Bool) → List Text → Option (List Text)
without_match p [] = none
without_match p (h ∷ hs) = if p h then some hs else Option.map (h ∷◌) (without_match p hs)

abbrev pub use_code : Text → Option (List Text) → Action AuthWorld Bool
use_code id none = pure false
use_code id (some remaining) = do
  Users.update_mfa id (record {
    enabled = none;
    totp_secret_enc = none;
    last_step = none;
    backup_code_hashes = some remaining;
  })
  pure true

-- `consumeBackupCode`
unfoldable pub consume_backup_code : AuthEnv → Text → MfaCredentials → Chars → Action AuthWorld Bool
unfolding normalize_backup_code without_match Users.update_mfa
consume_backup_code env id c raw =
    use_code id (without_match (env.compare_code (normalize_backup_code raw)) c.backup_code_hashes)

abbrev pub consume : AuthEnv → Text → MfaCredentials → Text → Chars → Action AuthWorld Bool
consume env id c secret code =
    if is_six_digits code
    then consume_totp env id c secret code
    else consume_backup_code env id c code

-- `VerifyMfaUseCase.execute`
unfoldable pub verify_mfa : AuthEnv → Text → Chars → Action AuthWorld LoginResult
unfolding Users.find_by_id Users.find_mfa_credentials consume_totp consume_backup_code trim
    issue_access_session
verify_mfa env mfa_token code = do
  id ← or_throw (env.verify_mfa_challenge mfa_token) (domain invalid_credentials)
  found ← Users.find_by_id id
  stored ← Users.find_mfa_credentials id
  u ← or_throw found (domain invalid_credentials)
  c ← or_throw (if_enabled (configured stored)) (domain invalid_credentials)
  accepted ← consume env id c.0 c.1 (trim code)
  throw_if (not accepted) (domain invalid_mfa_code)
  pure (issue_access_session env u)

-- `DisableMfaUseCase.execute`
unfoldable pub disable_mfa : AuthEnv → Text → Chars → Action AuthWorld (Unit {0})
unfolding Users.find_mfa_credentials Users.update_mfa verify trim
disable_mfa env id code = do
  stored ← Users.find_mfa_credentials id
  c ← or_throw (if_enabled (configured stored)) (domain mfa_not_configured)
  step ←
      or_throw (fresh_step c.0.last_step (verify env (env.decrypt c.1) (trim code)))
        (domain invalid_mfa_code)
  Users.update_mfa id (record {
    enabled = some false;
    totp_secret_enc = some none;
    last_step = some none;
    backup_code_hashes = some [];
  })
