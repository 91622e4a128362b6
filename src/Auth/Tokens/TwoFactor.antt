-- ===== src/Auth/Tokens/TwoFactor.antt =====
-- A login with a second factor from end to end: the password, the challenge, the code, the token.
use onion_architecture.Base.{
  ℕ, ◌+◌, ◌/◌, ◌≡◌, ◌≢◌, refl, true, false, none, some, arith, ltb, if◌then◌else◌,
}
use onion_architecture.Base.Rows.{find, modify}
use onion_architecture.Domain.{Text, domain, invalid_credentials}
use onion_architecture.World.Action.{ok, err}
use onion_architecture.Auth.{Chars, UserRow, AuthWorld, AuthEnv, AccessPayload}
use onion_architecture.Auth.Chars.{is_six_digits, trim}
use onion_architecture.Auth.Totp.{verify}
use onion_architecture.Auth.Users as Users
use onion_architecture.Auth.Users.{user_id, user_email, credentials_of, update_mfa-some}
use onion_architecture.Auth.Login.{access, mfa_required, login, issue_session, issue_access_session}
use onion_architecture.Auth.Mfa.Consume.{with_step, consume_totp-used}
use onion_architecture.Auth.Mfa.{consume, verify_mfa, is_used, fresh_step, configured, if_enabled}
use onion_architecture.Auth.Tokens.{
  Jose, TokenConfig, IsSigned, with_tokens, sign, sign_mfa_challenge, access_claims, mfa_claims,
  verify_access,
}
use onion_architecture.Auth.Tokens.Purposes.{bearer, verify_access-sign, verify_mfa_challenge-sign}

-- What the token of a user says.
abbrev pub payload_of : UserRow → AccessPayload
payload_of u = record { sub = u.id; email = u.email; role = u.role }

-- The challenge that a login hands out.
abbrev pub challenge_for : Jose → TokenConfig → AuthEnv → UserRow → Text
challenge_for j cfg env u = sign_mfa_challenge j cfg env.now u.id

module _ (j : Jose) (cfg : TokenConfig) (env : AuthEnv) (w : AuthWorld) {u : UserRow}
    (email password : Text) (found : find user_email email w.users ≡ some u)
    (right : env.compare_password password u.password_hash ≡ true) (on : u.mfa_enabled ≡ true) where
  login-challenge :
      login (with_tokens j cfg env) email password w
      ≡ (ok (mfa_required (challenge_for j cfg env u)), w)
  unfolding login Users.find_by_email issue_session
  login-challenge = rw (found, right, on) refl

  module _ (later : AuthEnv) (code : Chars)
      (signed : IsSigned j (mfa_claims cfg env.now u.id)) where
    -- A challenge that has expired lets nobody in.
    verify_mfa-late :
        ltb (later.now / 1000) (env.now / 1000 + cfg.mfa_challenge_expires_in) ≡ false
        → verify_mfa (with_tokens j cfg later) (challenge_for j cfg env u) code w
          ≡ (err (domain invalid_credentials), w)
    unfolding verify_mfa
    verify_mfa-late e = rw (verify_mfa_challenge-sign j cfg env.now later.now u.id signed, e) refl

    module _ (by_id : find user_id u.id w.users ≡ some u) {secret : Text} {step : ℕ}
        (stored : u.totp_secret_enc ≡ some secret) (there : secret ≢ 0)
        (six : is_six_digits (trim code) ≡ true)
        (good : verify (with_tokens j cfg later) (later.decrypt secret) (trim code) ≡ some step)
        (unused : is_used u.totp_last_step step ≡ false)
        (in_time : ltb (later.now / 1000) (env.now / 1000 + cfg.mfa_challenge_expires_in)
          ≡ true) where
      ready : if_enabled (configured (some (credentials_of u))) ≡ some (credentials_of u, secret)
      ready = ground (arith, stored, there, on)

      abbrev token : Text
      token = sign j cfg later.now (payload_of u)

      fresh :
          fresh_step u.totp_last_step
            (verify (with_tokens j cfg later) (later.decrypt secret) (trim code))
          ≡ some step
      fresh = rw (good, unused) refl

      consumed :
          consume (with_tokens j cfg later) u.id (credentials_of u) secret (trim code) w
          ≡ (ok true, record w { users = modify user_id u.id (with_step step) w.users })
      consumed =
          rw six (consume_totp-used (with_tokens j cfg later) (trim code) w u.id by_id secret fresh)

      accepted :
          (verify_mfa (with_tokens j cfg later) (challenge_for j cfg env u) code w).0
          ≡ ok (access token u)
      unfolding verify_mfa Users.find_by_id Users.find_mfa_credentials issue_access_session
      accepted =
          rw
            (
              verify_mfa_challenge-sign j cfg env.now later.now u.id signed,
              in_time,
              by_id,
              ready,
              consumed,
            )
            refl

      -- Where the JWT library keeps its word for the two tokens: a user with the second factor
      -- on who gives the right password gets a challenge and, with a code of an unused step
      -- before the challenge expires, a token that verifies, as theirs, until just the second in
      -- which it expires.
      pub login-verify_mfa :
          IsSigned j (access_claims cfg later.now (payload_of u))
          → (t : Text) × (login (with_tokens j cfg env) email password w
              ≡ (ok (mfa_required (challenge_for j cfg env u)), w))
            × ((verify_mfa (with_tokens j cfg later) (challenge_for j cfg env u) code w).0
                ≡ ok (access t u))
            × ((now : ℕ)
                → verify_access j now t ≡ (
                    if ltb (now / 1000) (later.now / 1000 + cfg.expires_in)
                    then some (bearer (payload_of u))
                    else none))
      login-verify_mfa laws = (
        token,
        login-challenge,
        accepted,
        λ now. verify_access-sign j cfg later.now now (payload_of u) laws,
      )
