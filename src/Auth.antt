-- ===== src/Auth.antt =====
-- auth-service: its users, and what it reads of the clock, of chance and of other libraries.
pub mod Chars
pub mod Base32
pub mod Social
pub mod Tokens
pub mod Totp
pub mod Users
pub mod Login
pub mod Mfa
use onion_architecture.Base.{ℕ, Bool, Option, List}
use onion_architecture.Domain.{Text, Millis}

-- A text whose characters matter, as their ASCII codes.
abbrev pub Chars : Type 0
Chars = List ℕ

pub data Role : Type 0 where
  user admin : Role

-- A row of the table of users, the columns of the second factor included.
pub record UserRow : Type 0 where
  pub id : Text
  pub email : Text
  pub password_hash : Text
  pub full_name : Text
  pub role : Role
  pub mfa_enabled : Bool
  pub totp_secret_enc : Option Text
  pub totp_last_step : Option ℕ
  pub mfa_backup_codes : List Text
  pub created_at : Millis

pub record AuthWorld : Type 0 where
  pub users : List UserRow
  pub next_id : Text

-- `AccessTokenPayload`
pub record AccessPayload : Type 0 where
  pub sub : Text
  pub email : Text
  pub role : Role

pub record AuthEnv : Type 0 where
  pub now : Millis
  -- `PasswordHasherPort`, of passwords and of backup codes
  pub hash_password : Text → Text
  pub compare_password : Text → Text → Bool
  pub hash_code : Chars → Text
  pub compare_code : Chars → Text → Bool
  -- `SecretCipherPort`
  pub encrypt : Chars → Text
  pub decrypt : Text → Chars
  -- `TokenPort`; none: the challenge does not verify
  pub sign : AccessPayload → Text
  pub sign_mfa_challenge : Text → Text
  pub verify_mfa_challenge : Text → Option Text
  -- `createHmac('sha1', key)` of the bytes of a counter
  pub hmac_sha1 : (key : List ℕ) → ℕ → List ℕ
  -- `randomBytes(20)`
  pub random_bytes : List ℕ
  -- the draws of `randomInt` for the k-th backup code
  pub random_picks : ℕ → List ℕ
