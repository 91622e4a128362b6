-- ===== src/Auth/Tokens/Purposes.antt =====
-- How long a token is good, and for what.
use onion_architecture.Base.{
  ◌+◌, ◌/◌, ◌≡◌, refl, true, Option, none, some, arith, ltb, if◌then◌else◌, inl, inr, Bool-cases,
  Option-cases,
}
use onion_architecture.Domain.{Text, Millis}
use onion_architecture.Auth.{AccessPayload}
use onion_architecture.Auth.Tokens.{
  Purpose, access, mfa, other, Claims, TokenUser, Jose, IsSigned, HasClaims, TokenConfig,
  access_claims, mfa_claims, is_access, is_challenge, access_user, challenged_user, sign,
  verify_access, sign_mfa_challenge, verify_mfa_challenge,
}

-- The user that a token is made for.
abbrev pub bearer : AccessPayload → TokenUser
bearer p = record { sub = some p.sub; email = some p.email; role = some p.role }

module _ (j : Jose) where
  -- Where the JWT library keeps its word for the token: it verifies as the user that it was made
  -- for until just the second in which it expires.
  pub verify_access-sign :
      (cfg : TokenConfig) (now later : Millis) (p : AccessPayload)
      → IsSigned j (access_claims cfg now p)
      → verify_access j later (sign j cfg now p)
        ≡ (if ltb (later / 1000) (now / 1000 + cfg.expires_in) then some (bearer p) else none)
  unfolding verify_access sign
  verify_access-sign cfg now later p laws =
      elim (Bool-cases (ltb (later / 1000) (now / 1000 + cfg.expires_in))) [
        | inl e ↦ rw (e, laws.rs256_alive later (ground arith)) refl
        | inr e ↦ rw (e, laws.rs256_expired later (ground arith)) refl
      ]

  purposes : (p : Option Purpose) → is_access p ≡ true → is_challenge p ≡ true → ⊥
  purposes none a b = cc
  purposes (some access) a b = cc
  purposes (some mfa) a b = cc
  purposes (some (other t)) a b = cc

  access_claims_of :
      (o : Option Claims) {u : TokenUser}
      → access_user o ≡ some u
      → (c : Claims) × (o ≡ some c) × (is_access c.purpose ≡ true)
  access_claims_of none h = cc
  access_claims_of (some c) h = elim (Bool-cases (is_access c.purpose)) [
    | inl e ↦ (c, refl, e)
    | inr e ↦ absurd (ground (arith, e, h))
  ]

  challenge_claims_of :
      (o : Option Claims) {u : Text}
      → challenged_user o ≡ some u
      → (c : Claims) × (o ≡ some c) × (is_challenge c.purpose ≡ true)
  challenge_claims_of none h = cc
  challenge_claims_of (some c) h = elim (Bool-cases (is_challenge c.purpose)) [
    | inl e ↦ (c, refl, e)
    | inr e ↦ absurd (ground (arith, e, h))
  ]

  -- The challenge of the second factor, read back.
  pub verify_mfa_challenge-sign :
      (cfg : TokenConfig) (now later : Millis) (id : Text)
      → IsSigned j (mfa_claims cfg now id)
      → verify_mfa_challenge j later (sign_mfa_challenge j cfg now id)
        ≡ (if ltb (later / 1000) (now / 1000 + cfg.mfa_challenge_expires_in) then some id else none)
  unfolding verify_mfa_challenge sign_mfa_challenge
  verify_mfa_challenge-sign cfg now later id laws =
      elim (Bool-cases (ltb (later / 1000) (now / 1000 + cfg.mfa_challenge_expires_in))) [
        | inl e ↦ rw (e, laws.hs256_alive later (ground arith)) refl
        | inr e ↦ rw (e, laws.hs256_expired later (ground arith)) refl
      ]

  -- Where the claims stand in the token whichever key it was signed with: what ever verifies as
  -- an access token never verifies as a challenge of the second factor.
  pub verify_access-verify_mfa_challenge :
      HasClaims j
      → (t : Text) (now later : Millis) {u : TokenUser} → verify_access j now t ≡ some u
      → verify_mfa_challenge j later t ≡ none
  unfolding verify_access verify_mfa_challenge
  verify_access-verify_mfa_challenge laws t now later a =
      elim (Option-cases (challenged_user (j.verify_hs256 later t))) [
        | inl n ↦ n
        | inr (id, b) ↦
            let (c, e, p) = access_claims_of (j.verify_rs256 now t) a in
            let (d, f, q) = challenge_claims_of (j.verify_hs256 later t) b in
            let same : c ≡ d = cc (laws.rs256_claims t now c e, laws.hs256_claims t later d f) in
            absurd (purposes d.purpose (rw same at p) q)
      ]
