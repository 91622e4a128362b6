-- ===== src/Auth/Tokens.antt =====
-- `JwtTokenAdapter` of auth-service/src/adapters/out/auth/jwt-token.adapter.ts: the access tokens
-- and the challenges of the second factor, given the JWT library.
pub mod Purposes
pub mod TwoFactor
use onion_architecture.Base.{
  ℕ, ◌+◌, ◌/◌, ◌<◌, ◌≤◌, ◌≡◌, Bool, true, false, Option, none, some, if◌then◌else◌,
}
use onion_architecture.Domain.{Text, Millis}
use onion_architecture.Auth.{AccessPayload, Role, AuthEnv}

-- The claim `purpose`.
pub data Purpose : Type 0 where
  access mfa : Purpose
  other : Text → Purpose

-- The claims of a token; `exp` in seconds.
pub record Claims : Type 0 where
  pub sub : Option Text
  pub email : Option Text
  pub role : Option Role
  pub purpose : Option Purpose
  pub exp : ℕ

-- `AuthTokenPayload` as `verify` reads it: a claim that is missing is undefined.
pub record TokenUser : Type 0 where
  pub sub : Option Text
  pub email : Option Text
  pub role : Option Role

-- `SignJWT` and `jwtVerify` under the two keys of the adapter; none: `jwtVerify` throws.
pub record Jose : Type 0 where
  pub sign_rs256 : Claims → Text
  pub verify_rs256 : (now : Millis) → Text → Option Claims
  pub sign_hs256 : Claims → Text
  pub verify_hs256 : (now : Millis) → Text → Option Claims

-- What the library documents of tokens with given claims: such a token verifies under its own key,
-- to its claims, until the second of its `exp`.
pub record IsSigned (j : Jose) (c : Claims) : Type 0 where
  pub rs256_alive :
      (now : Millis) → now / 1000 < c.exp → j.verify_rs256 now (j.sign_rs256 c) ≡ some c
  pub rs256_expired :
      (now : Millis) → c.exp ≤ now / 1000 → j.verify_rs256 now (j.sign_rs256 c) ≡ none
  pub hs256_alive :
      (now : Millis) → now / 1000 < c.exp → j.verify_hs256 now (j.sign_hs256 c) ≡ some c
  pub hs256_expired :
      (now : Millis) → c.exp ≤ now / 1000 → j.verify_hs256 now (j.sign_hs256 c) ≡ none

-- The claims stand in the token, whichever key it was signed with.
pub record HasClaims (j : Jose) : Type 0 where
  pub claims_of : Text → Option Claims
  pub rs256_claims :
      (t : Text) (now : Millis) (c : Claims) → j.verify_rs256 now t ≡ some c → claims_of t ≡ some c
  pub hs256_claims :
      (t : Text) (now : Millis) (c : Claims) → j.verify_hs256 now t ≡ some c → claims_of t ≡ some c

-- JWT_EXPIRES_IN and MFA_CHALLENGE_EXPIRES_IN, in seconds
pub record TokenConfig : Type 0 where
  pub expires_in : ℕ
  pub mfa_challenge_expires_in : ℕ

-- The claims that `sign` writes.
abbrev pub access_claims : TokenConfig → Millis → AccessPayload → Claims
access_claims cfg now p = record {
  sub = some p.sub;
  email = some p.email;
  role = some p.role;
  purpose = some access;
  exp = now / 1000 + cfg.expires_in;
}

abbrev pub mfa_claims : TokenConfig → Millis → Text → Claims
mfa_claims cfg now id = record {
  sub = some id;
  email = none;
  role = none;
  purpose = some mfa;
  exp = now / 1000 + cfg.mfa_challenge_expires_in;
}

-- `payload.purpose !== undefined && payload.purpose !== PURPOSE_ACCESS`, negated
abbrev pub is_access : Option Purpose → Bool
is_access none = true
is_access (some access) = true
is_access (some _) = false

abbrev pub is_challenge : Option Purpose → Bool
is_challenge (some mfa) = true
is_challenge _ = false

abbrev pub user_of : Claims → TokenUser
user_of c = record { sub = c.sub; email = c.email; role = c.role }

abbrev pub access_user : Option Claims → Option TokenUser
access_user none = none
access_user (some c) = if is_access c.purpose then some (user_of c) else none

abbrev pub challenged_user : Option Claims → Option Text
challenged_user none = none
challenged_user (some c) = if is_challenge c.purpose then c.sub else none

unfoldable pub sign : Jose → TokenConfig → Millis → AccessPayload → Text
sign j cfg now p = j.sign_rs256 (access_claims cfg now p)

-- `verify`; none: it throws
unfoldable pub verify_access : Jose → Millis → Text → Option TokenUser
verify_access j now t = access_user (j.verify_rs256 now t)

unfoldable pub sign_mfa_challenge : Jose → TokenConfig → Millis → Text → Text
sign_mfa_challenge j cfg now id = j.sign_hs256 (mfa_claims cfg now id)

unfoldable pub verify_mfa_challenge : Jose → Millis → Text → Option Text
verify_mfa_challenge j now t = challenged_user (j.verify_hs256 now t)

-- The environment of the use cases with this adapter as its `TokenPort`.
abbrev pub with_tokens : Jose → TokenConfig → AuthEnv → AuthEnv
with_tokens j cfg env = record env {
  sign = sign j cfg env.now;
  sign_mfa_challenge = sign_mfa_challenge j cfg env.now;
  verify_mfa_challenge = verify_mfa_challenge j env.now;
}
