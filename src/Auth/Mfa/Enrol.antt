-- ===== src/Auth/Mfa/Enrol.antt =====
-- An application that was given the secret, and reads the clock, produces a code that turns the
-- second factor on.
use onion_architecture.Base.{
  ℕ, ◌+◌, ◌≤◌, ◌<◌, ◌≡◌, ◌≢◌, refl, true, false, none, some, [], map, arith, ◌==◌, truthy, ◌∙◌, ap,
  subst,
}
use onion_architecture.Base.Rows.{All, find, modify}
use onion_architecture.Base.Rows.Keys.{find-key, find-modify-some}
use onion_architecture.Domain.{Text}
use onion_architecture.World.Action.{ok}
use onion_architecture.Auth.{Chars, UserRow, AuthWorld, AuthEnv}
use onion_architecture.Auth.Base32.{base32_decode}
use onion_architecture.Auth.Base32.RoundTrip.{IsByte, base32_decode-encode}
use onion_architecture.Auth.Totp.{hotp, current_step, verify, generate_secret}
use onion_architecture.Auth.Totp.Window.{verify_complete}
use onion_architecture.Auth.Users.{
  user_id, credentials_of, find_by_id, find_mfa_credentials, update_mfa-some, patched,
  MfaCredentialsPatch,
}
use onion_architecture.Auth.Mfa.{setup_mfa, confirm_mfa, backup_codes, configured, with_secret}

-- What `setup_mfa` writes.
abbrev fresh_secret : AuthEnv → MfaCredentialsPatch
fresh_secret env = record {
  enabled = some false;
  totp_secret_enc = some (some (env.encrypt (generate_secret env)));
  last_step = some none;
  backup_code_hashes = some [];
}

-- What `confirm_mfa` writes.
abbrev turned_on : AuthEnv → ℕ → MfaCredentialsPatch
turned_on env step = record {
  enabled = some true;
  totp_secret_enc = none;
  last_step = some (some step);
  backup_code_hashes = some (map env.hash_code (backup_codes env 8));
}

-- The row of a user whose second factor is on.
abbrev pub enrolled : (env later : AuthEnv) → ℕ → UserRow → UserRow
enrolled env later step u = patched (turned_on later step) (patched (fresh_secret env) u)

-- The users once the factor is set up, and once a step has turned it on.
abbrev pub set_up : AuthEnv → Text → AuthWorld → AuthWorld
set_up env id w = record w { users = modify user_id id (patched (fresh_secret env)) w.users }

abbrev pub confirmed : (env later : AuthEnv) → Text → AuthWorld → ℕ → AuthWorld
confirmed env later id w step = record w {
  users = modify user_id id (patched (turned_on later step)) (set_up env id w).users;
}

same : (n : ℕ) → (n == n) ≡ true
same n = ground arith

truthy-some : (t : Text) → t ≢ 0 → truthy (some t) ≡ some t
truthy-some t h = ground arith

module _ (env : AuthEnv) where
  secret-bytes :
      All IsByte env.random_bytes → base32_decode (generate_secret env) ≡ env.random_bytes
  unfolding generate_secret
  secret-bytes h = base32_decode-encode env.random_bytes h

module _ (env later : AuthEnv) (id : Text) (w : AuthWorld) {u : UserRow}
    (found : find user_id id w.users ≡ some u) (off : u.mfa_enabled ≡ false) where
  setup_lem : setup_mfa env id w ≡ (ok (generate_secret env, u.email), (set_up env id w))
  unfolding setup_mfa find_by_id
  setup_lem =
      let k : u.id ≡ id = find-key user_id id w.users found in
      rw (found, off, k, update_mfa-some id (fresh_secret env) w found) refl

  found_set_up : find user_id id (set_up env id w).users ≡ some (patched (fresh_secret env) u)
  found_set_up =
      find-modify-some user_id id id (patched (fresh_secret env)) w.users (λ r. refl) found
      ∙ (rw (same id) refl)

  module _ (read : later.decrypt (env.encrypt (generate_secret env)) ≡ generate_secret env)
      (there : env.encrypt (generate_secret env) ≢ 0) where
    confirm_lem :
        (code : Chars) {step : ℕ}
        → verify later (generate_secret env) code ≡ some step
        → confirm_mfa later id code (set_up env id w)
          ≡ (ok (backup_codes later 8), confirmed env later id w step)
    unfolding confirm_mfa find_mfa_credentials
    confirm_lem code {step = step} good =
        let ready : configured (some (credentials_of (patched (fresh_secret env) u)))
            ≡ some
                (credentials_of (patched (fresh_secret env) u), env.encrypt (generate_secret env)) =
          ap (with_secret (credentials_of (patched (fresh_secret env) u)))
            (truthy-some (env.encrypt (generate_secret env)) there) in
        let good_read : verify later (later.decrypt (env.encrypt (generate_secret env))) code
            ≡ some step =
          ap (λ s. verify later s code) read ∙ good in
        rw
          (
            found_set_up,
            ready,
            good_read,
            update_mfa-some id (turned_on later step) (set_up env id w) found_set_up,
          )
          refl

    found_confirmed :
        (step : ℕ)
        → find user_id id (confirmed env later id w step).users ≡ some (enrolled env later step u)
    found_confirmed step =
        find-modify-some user_id id id (patched (turned_on later step)) (set_up env id w).users
          (λ r. refl) found_set_up
        ∙ (rw (same id) refl)

    module _ (bytes : All IsByte env.random_bytes) (step : ℕ)
        (early : step ≤ current_step later + 1) (late : current_step later ≤ step + 1)
        (past : 0 < current_step later) where
      code_verifies :
          (n : ℕ) × (verify later (generate_secret env) (hotp later env.random_bytes step) ≡ some n)
          × (n ≤ step)
      code_verifies =
          let same : base32_decode (generate_secret env) ≡ env.random_bytes =
            secret-bytes env bytes in
          subst
            (λ key.
              (n : ℕ) × (verify later (generate_secret env) (hotp later key step) ≡ some n)
              × (n ≤ step))
            same (verify_complete later (generate_secret env) step early late past)

      -- Where the cipher gives back the secret, its text is not empty, the random bytes are
      -- bytes, the clock is past its first step and the user has the second factor off: setting
      -- it up returns the secret, and the code that the bytes give for a step at most one away
      -- from the clock's then turns it on, with that step or an earlier one as used.
      pub setup_mfa-confirm_mfa :
          (n : ℕ) × (n ≤ step)
          × ((setup_mfa env id w).0 ≡ ok (generate_secret env, u.email))
          × (confirm_mfa later id (hotp later env.random_bytes step) (setup_mfa env id w).1
              ≡ (ok (backup_codes later 8), confirmed env later id w n))
          × (find user_id id (confirmed env later id w n).users ≡ some (enrolled env later n u))
      setup_mfa-confirm_mfa =
          let (n, good, le) = code_verifies in
          (
            n,
            le,
            ap (λ x. x.0) setup_lem,
            ap (λ x. confirm_mfa later id (hotp later env.random_bytes step) x.1) setup_lem
                ∙ confirm_lem (hotp later env.random_bytes step) good,
            found_confirmed n,
          )
