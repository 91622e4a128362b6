-- ===== src/Auth/Social/Replies.antt =====
-- What the adapters make of what Google and Facebook answer.
use onion_architecture.Base.{
  ◌≡◌, refl, ◌⊎◌, inl, inr, ◌∙◌, ap, true, false, ◌||◌, Option, none, some, arith, ◌==◌, or_else,
  truthy, Bool-cases, Option-cases, ==_iff,
}
use onion_architecture.Domain.{Text, Failure, domain, infra, invalid_credentials, not_configured}
use onion_architecture.World.Action.{ok, err}
use onion_architecture.Auth.{AuthWorld, AuthEnv}
use onion_architecture.Auth.Social.{
  SocialEnv, GoogleIdentity, FacebookIdentity, DebugTokenData, GraphMe, GraphReply, unreachable,
  not_json, refused, body, GoogleClaims, verify_google, verify_facebook,
  assert_token_belongs_to_this_app, fetch_identity, valid_data, is_of_app, is_past,
}

module _ (clock : AuthEnv) (env : SocialEnv) (token : Text) where
  -- Google vouches for the address.
  abbrev pub GoogleSays : Text → Text → Type 0
  GoogleSays email name =
      (c : GoogleClaims) × (env.verify_id_token env.project_id token ≡ some c)
      × (c.email ≡ some email)
      × (c.email_verified ≡ true)
      × (name ≡ or_else c.name email)

  -- Facebook says that the token is of this application and alive, and gives the address.
  abbrev pub FacebookSays : Text → Text → Type 0
  FacebookSays email name =
      (d : DebugTokenData) × (m : GraphMe) × (env.debug_token token ≡ body (some d))
      × (d.is_valid ≡ true)
      × (d.app_id ≡ some env.app_id)
      × (is_past d.expires_at clock.now ≡ false)
      × (env.me token (env.app_secret_proof env.app_secret token) ≡ body m)
      × (m.email ≡ some email)
      × (name ≡ or_else m.name email)

  truthy-some : (o : Option Text) {t : Text} → truthy o ≡ some t → o ≡ some t
  truthy-some none h = cc
  truthy-some (some s) h = ground (arith, h)

  pub google-cases :
      (w : AuthWorld)
      → ((e : Failure) × (verify_google env token w ≡ (err e, w)))
        ⊎ ((i : GoogleIdentity) × (verify_google env token w ≡ (ok i, w))
            × (i.email_verified ≡ true → GoogleSays i.email i.full_name))
  unfolding verify_google
  google-cases w = elim (Bool-cases (env.project_id == 0)) [
    | inl z ↦ inl (infra not_configured, rw z refl)
    | inr z ↦ elim (Option-cases (env.verify_id_token env.project_id token)) [
      | inl n ↦ inl (domain invalid_credentials, rw (z, n) refl)
      | inr (c, f) ↦ elim (Option-cases (truthy c.email)) [
        | inl n ↦ inl (domain invalid_credentials, rw (z, f, n) refl)
        | inr (t, g) ↦
            let i : GoogleIdentity = record {
              email = t;
              full_name = or_else c.name t;
              email_verified = c.email_verified;
            } in
            inr (i, rw (z, f, g) refl, λ v. (c, f, truthy-some c.email g, v, refl))
      ]
    ]
  ]

  valid_data-some :
      (o : Option DebugTokenData) {d : DebugTokenData}
      → valid_data o ≡ some d
      → (o ≡ some d) × (d.is_valid ≡ true)
  valid_data-some none h = cc
  valid_data-some (some d) h = elim (Bool-cases d.is_valid) [
    | inl v ↦ (ground (arith, v, h), ground (arith, v, h))
    | inr v ↦ absurd (ground (arith, v, h))
  ]

  of_app : (o : Option Text) → is_of_app o env.app_id ≡ true → o ≡ some env.app_id
  of_app none h = cc
  of_app (some a) h = ap some ((==_iff a env.app_id).0 h)

  abbrev Belongs : DebugTokenData → Type 0
  Belongs d =
      (env.debug_token token ≡ body (some d))
      × (d.is_valid ≡ true)
      × (d.app_id ≡ some env.app_id)
      × (is_past d.expires_at clock.now ≡ false)

  Belongs-cases :
      (w : AuthWorld) (reply : GraphReply (Option DebugTokenData))
      → env.debug_token token ≡ reply
      → (assert_token_belongs_to_this_app clock env token w ≡ (err (domain invalid_credentials), w))
        ⊎ ((assert_token_belongs_to_this_app clock env token w ≡ (ok tt, w))
            × ((d : DebugTokenData) × Belongs d))
  unfolding assert_token_belongs_to_this_app
  Belongs-cases w unreachable q = inl (rw q refl)
  Belongs-cases w not_json q = inl (rw q refl)
  Belongs-cases w refused q = inl (rw q refl)
  Belongs-cases w (body o) q = elim (Option-cases (valid_data o)) [
    | inl n ↦ inl (rw (q, n) refl)
    | inr (d, v) ↦ elim (Bool-cases (is_of_app d.app_id env.app_id)) [
      | inr a ↦ inl (rw (q, v, a) refl)
      | inl a ↦ elim (Bool-cases (is_past d.expires_at clock.now)) [
        | inl p ↦ inl (rw (q, v, a, p) refl)
        | inr p ↦
            let (e, f) = valid_data-some o v in
            inr (rw (q, v, a, p) refl, (d, (q ∙ ap body e, f, of_app d.app_id a, p)))
      ]
    ]
  ]

  abbrev Gives : FacebookIdentity → Type 0
  Gives i =
      (m : GraphMe) × (env.me token (env.app_secret_proof env.app_secret token) ≡ body m)
      × (m.email ≡ some i.email)
      × (i.full_name ≡ or_else m.name i.email)

  identity-cases :
      (w : AuthWorld) (reply : GraphReply GraphMe)
      → env.me token (env.app_secret_proof env.app_secret token) ≡ reply
      → (fetch_identity env token w ≡ (err (domain invalid_credentials), w))
        ⊎ ((i : FacebookIdentity) × (fetch_identity env token w ≡ (ok i, w)) × Gives i)
  unfolding fetch_identity
  identity-cases w unreachable q = inl (rw q refl)
  identity-cases w not_json q = inl (rw q refl)
  identity-cases w refused q = inl (rw q refl)
  identity-cases w (body m) q = elim (Option-cases (truthy m.email)) [
    | inl n ↦ inl (rw (q, n) refl)
    | inr (t, g) ↦
        let i : FacebookIdentity = record {
          email = t;
          full_name = or_else m.name t;
          facebook_user_id = or_else m.id 0;
        } in
        inr (i, rw (q, g) refl, (m, q, truthy-some m.email g, refl))
  ]

  pub facebook-cases :
      (w : AuthWorld)
      → ((e : Failure) × (verify_facebook clock env token w ≡ (err e, w)))
        ⊎ ((i : FacebookIdentity) × (verify_facebook clock env token w ≡ (ok i, w))
            × FacebookSays i.email i.full_name)
  unfolding verify_facebook
  facebook-cases w = elim (Bool-cases ((env.app_id == 0) || (env.app_secret == 0))) [
    | inl z ↦ inl (infra not_configured, rw z refl)
    | inr z ↦ elim (Belongs-cases w _ refl) [
      | inl a ↦ inl (domain invalid_credentials, rw (z, a) refl)
      | inr (a, (d, (b0, b1, b2, b3))) ↦ elim (identity-cases w _ refl) [
        | inl n ↦ inl (domain invalid_credentials, rw (z, a, n) refl)
        | inr (i, f, (m, g0, g1, g2)) ↦
            inr (i, rw (z, a, f) refl, (d, m, b0, b1, b2, b3, g0, g1, g2))
      ]
    ]
  ]
