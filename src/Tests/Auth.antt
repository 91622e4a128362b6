-- ===== src/Tests/Auth.antt =====
-- Logins of one user with a second factor.
use onion_architecture.Base.{ℕ, ◌+◌, ◌≤◌, ◌<◌, ◌≡◌, refl, true, false, none, some, [], ◌∷◌, ◌==◌}
use onion_architecture.Base.Rows.{find, modify}
use onion_architecture.Domain.{Text}
use onion_architecture.Auth.{Chars, UserRow, user, AuthWorld, AuthEnv}
use onion_architecture.Auth.Base32.{base32_decode}
use onion_architecture.Auth.Chars.{trim}
use onion_architecture.Auth.Totp.{verify, hotp, current_step}
use onion_architecture.Auth.Totp.Window.{verify_sound}
use onion_architecture.Auth.Login.{login, issue_access_session}
use onion_architecture.Auth.Login.Outcome.{LogsIn, login-LogsIn}
use onion_architecture.Auth.Mfa.{verify_mfa, without_match}
use onion_architecture.Auth.Chars.{normalize_backup_code, clean}
use onion_architecture.Base.Rows.{select}
use onion_architecture.Base.{map}
use onion_architecture.Auth.Mfa.Outcome.{Verifies, verify_mfa-Verifies}
use onion_architecture.Auth.Mfa.Replay.{verify_mfa-twice}

-- The code of a step is its number, in six digits.
abbrev pub auth_env : ℕ → AuthEnv
auth_env now = record {
  now = now;
  hash_password = λ p. p;
  compare_password = λ p h. p == h;
  hash_code = λ c. 1;
  compare_code = λ c h. false;
  encrypt = λ s. 3;
  decrypt = λ s. [];
  sign = λ p. p.sub;
  sign_mfa_challenge = λ i. i;
  verify_mfa_challenge = λ t. some t;
  hmac_sha1 = λ k n. 0 ∷ 0 ∷ 0 ∷ n ∷ 0 ∷ [];
  random_bytes = 7 ∷ 255 ∷ [];
  random_picks = λ k. 0 ∷ 1 ∷ 2 ∷ 3 ∷ 4 ∷ 5 ∷ 6 ∷ 30 ∷ [];
}

abbrev pub user_row : UserRow
user_row = record {
  id = 7;
  email = 70;
  password_hash = 71;
  full_name = 72;
  role = user;
  mfa_enabled = true;
  totp_secret_enc = some 3;
  totp_last_step = none;
  mfa_backup_codes = [];
  created_at = 0;
}

abbrev pub auth_world : AuthWorld
auth_world = record { users = user_row ∷ []; next_id = 8 }

login-LogsIn_example :
    LogsIn (auth_env 0) 70 71 auth_world (login (auth_env 0) 70 71 auth_world).0
    × ((login (auth_env 0) 70 71 auth_world).1 ≡ auth_world)
login-LogsIn_example = login-LogsIn (auth_env 0) 70 71 auth_world

-- The codes of steps 5 and 6.
abbrev pub five : Chars
five = 48 ∷ 48 ∷ 48 ∷ 48 ∷ 48 ∷ 53 ∷ []

abbrev pub six : Chars
six = 48 ∷ 48 ∷ 48 ∷ 48 ∷ 48 ∷ 54 ∷ []

verify-sound_example :
    (five ≡ hotp (auth_env 150000) (base32_decode []) 5)
    × (5 ≤ current_step (auth_env 150000) + 1)
    × (current_step (auth_env 150000) ≤ 5 + 1)
unfolding verify
verify-sound_example = verify_sound (auth_env 150000) [] five {step = 5} refl

-- The hash of a backup code is its first character here.
abbrev backup_env : AuthEnv
backup_env = record (auth_env 150000) {
  hash_code = λ c. elim c [ [] ↦ 0 | x ∷ xs ↦ x ];
  compare_code = λ c h. elim c [ [] ↦ h == 0 | x ∷ xs ↦ h == x ];
}

-- ABCD-EFG9, with the hashes of three codes of which it is the second.
abbrev backup_code : Chars
backup_code = 65 ∷ 66 ∷ 67 ∷ 68 ∷ 45 ∷ 69 ∷ 70 ∷ 71 ∷ 57 ∷ []

abbrev backup_world : AuthWorld
backup_world = record auth_world {
  users = record user_row { mfa_backup_codes = 90 ∷ 65 ∷ 70 ∷ [] } ∷ [];
}

verify_mfa-Verifies_example :
    Verifies backup_env 7 backup_code backup_world
      (verify_mfa backup_env 7 backup_code backup_world)
verify_mfa-Verifies_example = verify_mfa-Verifies backup_env 7 backup_code backup_world

-- The code is accepted, and its hash is gone.
backup_code_used :
    map (λ u. u.mfa_backup_codes) (verify_mfa backup_env 7 backup_code backup_world).1.users
    ≡ (90 ∷ 70 ∷ []) ∷ []
unfolding verify_mfa trim find modify normalize_backup_code without_match clean select
backup_code_used = refl

abbrev after : ℕ → AuthWorld
after step = record auth_world { users = record user_row { totp_last_step = some step } ∷ [] }

verify_mfa-twice_example :
    (secret : Text) × (step step' : ℕ) × (verify
        (auth_env 150000)
        ((auth_env 150000).decrypt secret)
        (trim five)
      ≡ some step)
    × (verify (auth_env 180000) ((auth_env 180000).decrypt secret) (trim six) ≡ some step')
    × (step < step')
unfolding verify_mfa trim find modify
verify_mfa-twice_example =
    verify_mfa-twice (auth_env 150000) (auth_env 180000) 7 7 five six 7 auth_world (after 5)
      (after 6) {r = issue_access_session (auth_env 150000) user_row}
      {r' = issue_access_session (auth_env 180000) (record user_row { totp_last_step = some 5 })}
      refl refl refl refl refl refl
