-- ===== src/Auth/Mfa/Consume.antt =====
-- What a code uses up.
use onion_architecture.Base.{
  ℕ, ◌<◌, ◌≡◌, refl, ap, ◌∙◌, ◌⊎◌, inl, inr, Bool, true, false, Option, none, some, List, [], ◌∷◌,
  ◌++◌, arith, Bool-cases, Option-cases,
}
use onion_architecture.Base.Rows.{All, find, modify}
use onion_architecture.Base.Rows.Keys.{find-key}
use onion_architecture.Domain.{Text}
use onion_architecture.World.Action.{ok}
use onion_architecture.Auth.{Chars, UserRow, AuthWorld, AuthEnv}
use onion_architecture.Auth.Chars.{is_six_digits, normalize_backup_code}
use onion_architecture.Auth.Totp.{verify}
use onion_architecture.Auth.Users as Users
use onion_architecture.Auth.Users.{
  user_id, MfaCredentials, MfaCredentialsPatch, credentials_of, patched,
}
use onion_architecture.Auth.Mfa.{
  consume, consume_totp, consume_backup_code, fresh_step, without_match,
}

abbrev pub with_step : ℕ → UserRow → UserRow
with_step step u = record u { totp_last_step = some step }

abbrev pub with_codes : List Text → UserRow → UserRow
with_codes hs u = record u { mfa_backup_codes = hs }

-- A step that was not used comes after the last that was.
abbrev pub After : ℕ → Option ℕ → Type 0
After step none = Unit {0}
After step (some last) = last < step

-- The first of the hashes that a code matches is taken off the list, and the others stay.
pub record TakenOff (matches : Text → Bool) (hs rest : List Text) : Type 0 where
  pub before : List Text
  pub used : Text
  pub after : List Text
  pub there : hs ≡ before ++ used ∷ after
  pub unmatched : All (λ h. matches h ≡ false) before
  pub matched : matches used ≡ true
  pub left : rest ≡ before ++ after

without_match-TakenOff :
    (p : Text → Bool) (hs : List Text) {rest : List Text}
    → without_match p hs ≡ some rest
    → TakenOff p hs rest
unfolding without_match
without_match-TakenOff p [] e = cc
without_match-TakenOff p (h ∷ hs) {rest = rest} e = elim (Bool-cases (p h)) [
  | inl y ↦ record {
    before = [];
    used = h;
    after = hs;
    there = refl;
    unmatched = tt;
    matched = y;
    left = ground (arith, y, e);
  }
  | inr n ↦ elim (Option-cases (without_match p hs)) [
    | inl m ↦ absurd (ground (arith, n, m, e))
    | inr (others, m) ↦
        let t = without_match-TakenOff p hs {rest = others} m in
        let q : rest ≡ h ∷ others = ground (arith, n, m, e) in
        record {
          before = h ∷ t.before;
          used = t.used;
          after = t.after;
          there = ap (h ∷◌) t.there;
          unmatched = (n, t.unmatched);
          matched = t.matched;
          left = q ∙ ap (h ∷◌) t.left;
        }
  ]
]

-- A code of six digits is that of a later step, which is written down; any other code matches one
-- of the hashes, which is taken off the list.
abbrev pub Consumes : AuthEnv → UserRow → Text → Chars → AuthWorld → AuthWorld → Type 0
Consumes env u secret code w w' =
    ((step : ℕ) × (is_six_digits code ≡ true)
      × (verify env (env.decrypt secret) code ≡ some step)
      × After step u.totp_last_step
      × (w' ≡ record w { users = modify user_id u.id (with_step step) w.users }))
    ⊎ ((hs : List Text) × (is_six_digits code ≡ false)
        × TakenOff (env.compare_code (normalize_backup_code code)) u.mfa_backup_codes hs
        × (w' ≡ record w { users = modify user_id u.id (with_codes hs) w.users }))

fresh_step-After :
    (last v : Option ℕ) {step : ℕ}
    → fresh_step last v ≡ some step
    → (v ≡ some step) × After step last
fresh_step-After none none h = cc
fresh_step-After none (some n) h = (ground (arith, h), tt)
fresh_step-After (some l) none h = cc
fresh_step-After (some l) (some n) h = ground (arith, h)

module _ (env : AuthEnv) (code : Chars) (w : AuthWorld) (id : Text) {u : UserRow}
    (found : find user_id id w.users ≡ some u) (secret : Text) where
  own : u.id ≡ id
  own = find-key user_id id w.users {s = u} found

  consume_totp-refused :
      fresh_step u.totp_last_step (verify env (env.decrypt secret) code) ≡ none
      → consume_totp env id (credentials_of u) secret code w ≡ (ok false, w)
  unfolding consume_totp
  consume_totp-refused n = rw n refl

  pub consume_totp-used :
      {k : ℕ}
      → fresh_step u.totp_last_step (verify env (env.decrypt secret) code) ≡ some k
      → consume_totp env id (credentials_of u) secret code w
        ≡ (ok true, record w { users = modify user_id u.id (with_step k) w.users })
  unfolding consume_totp
  consume_totp-used {k = k} e =
      rw
        (
          e,
          Users.update_mfa-some id
              (record {
                enabled = none;
                totp_secret_enc = none;
                last_step = some (some k);
                backup_code_hashes = none;
              })
              w found,
          own,
        )
        refl

  abbrev rest : Option (List Text)
  rest = without_match (env.compare_code (normalize_backup_code code)) u.mfa_backup_codes

  consume_backup_code-refused :
      rest ≡ none → consume_backup_code env id (credentials_of u) code w ≡ (ok false, w)
  unfolding consume_backup_code
  consume_backup_code-refused n = rw n refl

  consume_backup_code-used :
      {hs : List Text}
      → rest ≡ some hs
      → consume_backup_code env id (credentials_of u) code w
        ≡ (ok true, record w { users = modify user_id u.id (with_codes hs) w.users })
  unfolding consume_backup_code
  consume_backup_code-used {hs = hs} e =
      rw
        (
          e,
          Users.update_mfa-some id
              (record {
                enabled = none;
                totp_secret_enc = none;
                last_step = none;
                backup_code_hashes = some hs;
              })
              w found,
          own,
        )
        refl

  -- A code is refused, and nothing changes, or it is used up.
  pub consume-cases :
      (consume env id (credentials_of u) secret code w ≡ (ok false, w))
      ⊎ ((w' : AuthWorld) × (consume env id (credentials_of u) secret code w ≡ (ok true, w'))
          × Consumes env u secret code w w')
  consume-cases = elim (Bool-cases (is_six_digits code)) [
    | inl d ↦
        elim (Option-cases (fresh_step u.totp_last_step (verify env (env.decrypt secret) code))) [
          | inl n ↦ inl (rw d (consume_totp-refused n))
          | inr (k, e) ↦
              let (v, a) = fresh_step-After u.totp_last_step _ e in
              inr (_, rw d (consume_totp-used e), inl (k, d, v, a, refl))
        ]
    | inr d ↦ elim (Option-cases rest) [
      | inl n ↦ inl (rw d (consume_backup_code-refused n))
      | inr (hs, e) ↦ inr (
        _,
        rw d (consume_backup_code-used e),
        inr (hs, d, without_match-TakenOff _ u.mfa_backup_codes e, refl),
      )
    ]
  ]
