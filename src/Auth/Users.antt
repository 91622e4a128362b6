-- ===== src/Auth/Users.antt =====
-- `PrismaUserRepository`.
use onion_architecture.Base.{
  ℕ, suc, ◌≡◌, refl, Bool, Option, none, some, List, [], ◌∷◌, ◌++◌, is_some, or_else, if◌then◌else◌,
  false,
}
use onion_architecture.Base.Rows.{find, modify}
use onion_architecture.Domain.{Text, infra, record_not_found, unique_violation}
use onion_architecture.World.Action.{Action, ok, err}
use onion_architecture.Auth.{UserRow, Role, AuthWorld, AuthEnv}

abbrev pub user_id : UserRow → Text
user_id u = u.id

-- `email` is `@unique`.
abbrev pub user_email : UserRow → Text
user_email u = u.email

unfoldable pub find_by_id : Text → Action AuthWorld (Option UserRow)
find_by_id i w = (ok (find user_id i w.users), w)

unfoldable pub find_by_email : Text → Action AuthWorld (Option UserRow)
find_by_email e w = (ok (find user_email e w.users), w)

-- `CreateUserData`
pub record CreateUserData : Type 0 where
  pub email : Text
  pub password_hash : Text
  pub full_name : Text
  pub role : Role

abbrev pub new_user : AuthEnv → Text → CreateUserData → UserRow
new_user env id d = record {
  id = id;
  email = d.email;
  password_hash = d.password_hash;
  full_name = d.full_name;
  role = d.role;
  mfa_enabled = false;
  totp_secret_enc = none;
  totp_last_step = none;
  mfa_backup_codes = [];
  created_at = env.now;
}

unfoldable pub create : AuthEnv → CreateUserData → Action AuthWorld UserRow
create env d w =
    if is_some (find user_email d.email w.users)
    then (err (infra unique_violation), w)
    else (let u = new_user env w.next_id d in
        (ok u, record w { users = w.users ++ u ∷ []; next_id = suc w.next_id }))

-- `MfaCredentials`
pub record MfaCredentials : Type 0 where
  pub enabled : Bool
  pub totp_secret_enc : Option Text
  pub last_step : Option ℕ
  pub backup_code_hashes : List Text

abbrev pub credentials_of : UserRow → MfaCredentials
credentials_of u = record {
  enabled = u.mfa_enabled;
  totp_secret_enc = u.totp_secret_enc;
  last_step = u.totp_last_step;
  backup_code_hashes = u.mfa_backup_codes;
}

abbrev pub credentials_in : Option UserRow → Option MfaCredentials
credentials_in none = none
credentials_in (some u) = some (credentials_of u)

unfoldable pub find_mfa_credentials : Text → Action AuthWorld (Option MfaCredentials)
find_mfa_credentials i w = (ok (credentials_in (find user_id i w.users)), w)

-- `MfaCredentialsPatch`: what is none is left as it is.
pub record MfaCredentialsPatch : Type 0 where
  pub enabled : Option Bool
  pub totp_secret_enc : Option (Option Text)
  pub last_step : Option (Option ℕ)
  pub backup_code_hashes : Option (List Text)

abbrev pub patched : MfaCredentialsPatch → UserRow → UserRow
patched p u = record u {
  mfa_enabled = or_else p.enabled u.mfa_enabled;
  totp_secret_enc = or_else p.totp_secret_enc u.totp_secret_enc;
  totp_last_step = or_else p.last_step u.totp_last_step;
  mfa_backup_codes = or_else p.backup_code_hashes u.mfa_backup_codes;
}

unfoldable pub update_mfa : Text → MfaCredentialsPatch → Action AuthWorld (Unit {0})
update_mfa i p w =
    if is_some (find user_id i w.users)
    then (ok tt, record w { users = modify user_id i (patched p) w.users })
    else (err (infra record_not_found), w)

-- An update of a row that is there.
pub update_mfa-some :
    (i : Text) (p : MfaCredentialsPatch) (w : AuthWorld) {u : UserRow}
    → find user_id i w.users ≡ some u
    → update_mfa i p w ≡ (ok tt, record w { users = modify user_id i (patched p) w.users })
unfolding update_mfa
update_mfa-some i p w e = rw e refl
