-- ===== src/Tests/Tokens.antt =====
-- Tokens, the second factor from end to end, and logins with Google and Facebook.
use onion_architecture.Base.{
  ℕ, ◌+◌, ◌/◌, ◌<◌, ◌≤◌, ◌≡◌, refl, true, false, Option, none, some, [], ◌∷◌, arith, ltb, ◌==◌,
  if◌then◌else◌,
}
use onion_architecture.Base.Rows.{find}
use onion_architecture.Domain.{Text, Millis}
use onion_architecture.World.Action.{ok}
use onion_architecture.Auth.{UserRow, AuthWorld, AuthEnv}
use onion_architecture.Auth.Base32.{base32_encode, base32_decode}
use onion_architecture.Auth.Base32.RoundTrip.{base32_decode-encode}
use onion_architecture.Auth.Chars.{trim}
use onion_architecture.Auth.Totp.{verify, hotp, generate_secret}
use onion_architecture.Auth.Users.{user_id}
use onion_architecture.Auth.Login.{access, mfa_required, login}
use onion_architecture.Auth.Mfa.{setup_mfa, confirm_mfa, verify_mfa, backup_codes}
use onion_architecture.Auth.Mfa.Enrol.{enrolled, confirmed, setup_mfa-confirm_mfa}
use onion_architecture.Auth.Tokens.{
  Claims, Jose, IsSigned, HasClaims, TokenConfig, access_claims, mfa_claims, is_challenge,
  with_tokens, verify_access, verify_mfa_challenge,
}
use onion_architecture.Auth.Tokens.Purposes.{bearer, verify_access-verify_mfa_challenge}
use onion_architecture.Auth.Tokens.TwoFactor.{payload_of, challenge_for, login-verify_mfa}
use onion_architecture.Auth.Social.{SocialEnv, body, login_with_google, login_with_facebook}
use onion_architecture.Auth.Social.Outcome.{
  SocialLogin, login_with_google-SocialLogin, login_with_facebook-SocialLogin,
}
use onion_architecture.Auth.Social.Replies.{GoogleSays, FacebookSays}
use onion_architecture.Tests.Auth.{auth_env, user_row, auth_world, five}

base32_decode-encode_example : base32_decode (base32_encode (7 ∷ 255 ∷ 0 ∷ [])) ≡ 7 ∷ 255 ∷ 0 ∷ []
base32_decode-encode_example =
    base32_decode-encode (7 ∷ 255 ∷ 0 ∷ []) (omega arith, (omega arith, (omega arith, tt)))

abbrev config : TokenConfig
config = record { expires_in = 3600; mfa_challenge_expires_in = 300 }

abbrev of_access : Claims
of_access = access_claims config 150000 (payload_of user_row)

abbrev of_challenge : Claims
of_challenge = mfa_claims config 150000 7

abbrev alive : Millis → Claims → Option Claims
alive now c = if ltb (now / 1000) c.exp then some c else none

-- The two tokens of the test: the claims in one, and the key in the other digit.
abbrev read : (key : ℕ) → Millis → Text → Option Claims
read key now t =
    if t == key + 1
    then alive now of_access
    else (if t == key + 2 then alive now of_challenge else none)

abbrev jose : Jose
jose = record {
  sign_rs256 = λ c. if is_challenge c.purpose then 12 else 11;
  verify_rs256 = read 10;
  sign_hs256 = λ c. if is_challenge c.purpose then 22 else 21;
  verify_hs256 = read 20;
}

alive_yes : (now : Millis) (c : Claims) → now / 1000 < c.exp → alive now c ≡ some c
alive_yes now c h = ground arith

alive_no : (now : Millis) (c : Claims) → c.exp ≤ now / 1000 → alive now c ≡ none
alive_no now c h = ground arith

access-IsSigned : IsSigned jose of_access
access-IsSigned = record {
  rs256_alive = λ now h. alive_yes now of_access h;
  rs256_expired = λ now h. alive_no now of_access h;
  hs256_alive = λ now h. alive_yes now of_access h;
  hs256_expired = λ now h. alive_no now of_access h;
}

challenge-IsSigned : IsSigned jose of_challenge
challenge-IsSigned = record {
  rs256_alive = λ now h. alive_yes now of_challenge h;
  rs256_expired = λ now h. alive_no now of_challenge h;
  hs256_alive = λ now h. alive_yes now of_challenge h;
  hs256_expired = λ now h. alive_no now of_challenge h;
}

abbrev written : Text → Option Claims
written t =
    if t == 11
    then some of_access
    else (if t == 21
        then some of_access
        else (if t == 12 then some of_challenge else (if t == 22 then some of_challenge else none)))

jose_claims : HasClaims jose
jose_claims = record {
  claims_of = written;
  rs256_claims = λ t now c h. ground arith;
  hs256_claims = λ t now c h. ground arith;
}

verify_access-verify_mfa_challenge_example : verify_mfa_challenge jose 160000 11 ≡ none
unfolding verify_access
verify_access-verify_mfa_challenge_example =
    verify_access-verify_mfa_challenge jose jose_claims 11 150000 160000
      {u = bearer (payload_of user_row)} refl

login-verify_mfa_example :
    (t : Text) × (login (with_tokens jose config (auth_env 150000)) 70 71 auth_world
      ≡ (ok (mfa_required (challenge_for jose config (auth_env 150000) user_row)), auth_world))
    × ((verify_mfa
          (with_tokens jose config (auth_env 150000))
          (challenge_for jose config (auth_env 150000) user_row)
          five
          auth_world).0
        ≡ ok (access t user_row))
    × ((now : ℕ)
        → verify_access jose now t
          ≡ (if ltb (now / 1000) (150 + 3600) then some (bearer (payload_of user_row)) else none))
unfolding verify find trim
login-verify_mfa_example =
    login-verify_mfa jose config (auth_env 150000) auth_world {u = user_row} 70 71 refl refl refl
      (auth_env 150000) five challenge-IsSigned refl {secret = 3} {step = 5} refl (λ e. cc) refl
      refl refl refl access-IsSigned

-- The user before the second factor is set up, and the cipher that gives the secret back.
abbrev plain_row : UserRow
plain_row = record user_row { mfa_enabled = false; totp_secret_enc = none }

abbrev plain_world : AuthWorld
plain_world = record { users = plain_row ∷ []; next_id = 8 }

abbrev enrol_env : AuthEnv
enrol_env = record (auth_env 150000) { decrypt = λ s. base32_encode (7 ∷ 255 ∷ []) }

-- Step 6, at the time of step 5.
setup_mfa-confirm_mfa_example :
    (n : ℕ) × (n ≤ 6)
    × ((setup_mfa enrol_env 7 plain_world).0 ≡ ok (generate_secret enrol_env, 70))
    × (confirm_mfa enrol_env 7
          (hotp enrol_env (7 ∷ 255 ∷ []) 6)
          (setup_mfa enrol_env 7 plain_world).1
        ≡ (ok (backup_codes enrol_env 8), confirmed enrol_env enrol_env 7 plain_world n))
    × (find user_id 7 (confirmed enrol_env enrol_env 7 plain_world n).users
        ≡ some (enrolled enrol_env enrol_env n plain_row))
unfolding find generate_secret
setup_mfa-confirm_mfa_example =
    setup_mfa-confirm_mfa enrol_env enrol_env 7 plain_world {u = plain_row} refl refl refl (λ e. cc)
      (omega arith, (omega arith, tt)) 6 (omega arith) (omega arith) (omega arith)

abbrev social_env : SocialEnv
social_env = record {
  project_id = 4;
  verify_id_token = λ p t. some (record { email = some 70; name = none; email_verified = true });
  app_id = 5;
  app_secret = 6;
  debug_token = λ t. body (some (record { app_id = some 5; is_valid = true; expires_at = some 0 }));
  me = λ t p. body (record { id = some 1; name = some 2; email = some 80 });
  app_secret_proof = λ s t. s;
  random_uuid = 9;
}

login_with_google-SocialLogin_example :
    SocialLogin
      (auth_env 0)
      social_env
      1
      (GoogleSays (auth_env 0) social_env 1)
      auth_world
      (login_with_google (auth_env 0) social_env 1 auth_world)
login_with_google-SocialLogin_example =
    login_with_google-SocialLogin (auth_env 0) social_env 1 auth_world

login_with_facebook-SocialLogin_example :
    SocialLogin
      (auth_env 0)
      social_env
      1
      (FacebookSays (auth_env 0) social_env 1)
      auth_world
      (login_with_facebook (auth_env 0) social_env 1 auth_world)
login_with_facebook-SocialLogin_example =
    login_with_facebook-SocialLogin (auth_env 0) social_env 1 auth_world
