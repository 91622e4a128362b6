-- ===== src/Auth/Mfa/Outcome.antt =====
-- What the second factor accepts, and what that uses up.
use onion_architecture.Base.{
  ◌≡◌, refl, ap, ◌∙◌, inl, inr, true, Option, none, some, arith, Option-cases, truthy,
}
use onion_architecture.Base.Rows.{find}
use onion_architecture.Domain.{Text}
use onion_architecture.World.Action.{Result, ok, err}
use onion_architecture.Auth.{Chars, UserRow, AuthWorld, AuthEnv}
use onion_architecture.Auth.Chars.{trim}
use onion_architecture.Auth.Users as Users
use onion_architecture.Auth.Users.{
  user_id, MfaCredentials, MfaCredentialsPatch, credentials_of, patched,
}
use onion_architecture.Auth.Login.{LoginResult, issue_access_session}
use onion_architecture.Auth.Mfa.Consume.{Consumes, consume-cases}
use onion_architecture.Auth.Mfa.{verify_mfa, configured, if_enabled, with_secret}

-- A session goes to the user of the challenge, who has the factor, for a code that is used up;
-- an error changes nothing.
pub record Accepts (env : AuthEnv) (token : Text) (code : Chars) (w : AuthWorld) (r : LoginResult)
    (w' : AuthWorld) : Type 0 where
  pub id : Text
  pub challenge : env.verify_mfa_challenge token ≡ some id
  pub row : UserRow
  pub found : find user_id id w.users ≡ some row
  pub enabled : row.mfa_enabled ≡ true
  pub secret : Text
  pub stored : row.totp_secret_enc ≡ some secret
  pub session : r ≡ issue_access_session env row
  pub consumed : Consumes env row secret (trim code) w w'

abbrev pub Verifies : AuthEnv → Text → Chars → AuthWorld → Result LoginResult × AuthWorld → Type 0
Verifies env token code w (ok r, w') = Accepts env token code w r w'
Verifies env token code w (err e, w') = w' ≡ w

module _ (env : AuthEnv) (token : Text) (code : Chars) (w : AuthWorld) where
  module _ {id : Text} (challenge : env.verify_mfa_challenge token ≡ some id) {u : UserRow}
      (found : find user_id id w.users ≡ some u) where
    module _ {secret : Text}
        (ready : if_enabled (configured (some (credentials_of u)))
          ≡ some (credentials_of u, secret)) where
      ready-enabled :
          (t : Option Text)
          → if_enabled (with_secret (credentials_of u) (truthy t)) ≡ some (credentials_of u, secret)
          → (u.mfa_enabled ≡ true) × (t ≡ some secret)
      ready-enabled none h = cc
      ready-enabled (some t) h = ground (arith, h)

      accepted :
          {w' : AuthWorld}
          → Consumes env u secret (trim code) w w'
          → Accepts env token code w (issue_access_session env u) w'
      accepted h =
          let (en, st) = ready-enabled u.totp_secret_enc ready in
          record {
            id = id;
            challenge = challenge;
            row = u;
            found = found;
            enabled = en;
            secret = secret;
            stored = st;
            session = refl;
            consumed = h;
          }

      accepted-Verifies : Verifies env token code w (verify_mfa env token code w)
      unfolding verify_mfa Users.find_by_id Users.find_mfa_credentials
      accepted-Verifies = elim (consume-cases env (trim code) w id found secret) [
        | inl e ↦ rw (challenge, found, ready, e) refl
        | inr (w', e, h) ↦ rw (challenge, found, ready, e) (accepted h)
      ]

  same_credentials :
      (c : MfaCredentials) (t : Option Text) {d : MfaCredentials} {s : Text}
      → if_enabled (with_secret c t) ≡ some (d, s)
      → d ≡ c
  same_credentials c none h = cc
  same_credentials c (some t) h = ground (arith, h)

  -- Whatever challenge and code are given: if a session is returned, the challenge verified, its
  -- user exists with the second factor enabled, and the code was either that of a step later
  -- than the last one used, which is now written down, or matched one of the backup hashes, the
  -- first of which that it matches is now off the list, all others staying; if the call throws,
  -- nothing is changed.
  pub verify_mfa-Verifies : Verifies env token code w (verify_mfa env token code w)
  unfolding verify_mfa Users.find_by_id Users.find_mfa_credentials
  verify_mfa-Verifies = elim (Option-cases (env.verify_mfa_challenge token)) [
    | inl n ↦ rw n refl
    | inr (id, h) ↦ elim (Option-cases (find user_id id w.users)) [
      | inl n ↦ rw (h, n) refl
      | inr (u, f) ↦ elim (Option-cases (if_enabled (configured (some (credentials_of u))))) [
        | inl n ↦ rw (h, f, n) refl
        | inr ((c, s), e) ↦
            let d = same_credentials (credentials_of u) (truthy u.totp_secret_enc) e in
            accepted-Verifies h f (e ∙ ap (λ x. some (x, s)) d)
      ]
    ]
  ]
