-- ===== src/Auth/Mfa/Replay.antt =====
-- A code of the authenticator is accepted once.
use onion_architecture.Base.{ℕ, ◌<◌, ◌≡◌, refl, sym, ap, ◌∙◌, inl, inr, true, some, arith}
use onion_architecture.Base.Rows.{find}
use onion_architecture.Base.Rows.Keys.{find-modify-some, find-key}
use onion_architecture.Domain.{Text}
use onion_architecture.World.Action.{ok}
use onion_architecture.Auth.{Chars, UserRow, AuthWorld, AuthEnv}
use onion_architecture.Auth.Chars.{is_six_digits, trim}
use onion_architecture.Auth.Totp.{verify}
use onion_architecture.Auth.Users.{user_id}
use onion_architecture.Auth.Login.{LoginResult}
use onion_architecture.Auth.Mfa.{verify_mfa}
use onion_architecture.Auth.Mfa.Consume.{with_step, After}
use onion_architecture.Auth.Mfa.Outcome.{Accepts, verify_mfa-Verifies}

accepts :
    (env : AuthEnv) (token : Text) (code : Chars) {w w' : AuthWorld} {r : LoginResult}
    → verify_mfa env token code w ≡ (ok r, w')
    → Accepts env token code w r w'
accepts env token code {w = w} e = rw e at (verify_mfa-Verifies env token code w)

-- The step of a code that was accepted is written down.
noted :
    (env : AuthEnv) (token : Text) (code : Chars) (w w' : AuthWorld) {r : LoginResult}
    (a : Accepts env token code w r w')
    → is_six_digits (trim code) ≡ true
    → (step : ℕ) × (verify env (env.decrypt a.secret) (trim code) ≡ some step)
      × (find user_id a.id w'.users ≡ some (with_step step a.row))
noted env token code w w' a d = elim a.consumed [
  | inr (hs, n, _, _) ↦ absurd (ground (arith, n, d))
  | inl (step, y, v, _, e) ↦
      let k = find-key user_id a.id w.users {s = a.row} a.found in
      let m =
        find-modify-some user_id a.id a.row.id (with_step step) w.users {r = a.row} (λ u. refl)
          a.found in
      (step, v, rw e (ground (arith, m, k)))
]

-- If one user is let in by a code of six digits and, with nothing in between, by another one at
-- any later or earlier time, both codes verify against the same secret, the second for a
-- strictly later step than the first.
pub verify_mfa-twice :
    (env later : AuthEnv) (token token' : Text) (code code' : Chars) (id : Text) (w v u : AuthWorld)
    {r r' : LoginResult}
    → env.verify_mfa_challenge token ≡ some id
    → later.verify_mfa_challenge token' ≡ some id
    → is_six_digits (trim code) ≡ true
    → is_six_digits (trim code') ≡ true
    → verify_mfa env token code w ≡ (ok r, v)
    → verify_mfa later token' code' v ≡ (ok r', u)
    → (secret : Text) × (step step' : ℕ) × (verify env (env.decrypt secret) (trim code) ≡ some step)
      × (verify later (later.decrypt secret) (trim code') ≡ some step')
      × (step < step')
verify_mfa-twice env later token token' code code' id w v u h h' d d' e e' =
    let a = accepts env token code e in
    let b = accepts later token' code' e' in
    let (step, x, f) = noted env token code w v a d in
    let i : a.id ≡ b.id = ground (arith, a.challenge, b.challenge) in
    let g : some b.row ≡ some (with_step step a.row) =
      sym b.found ∙ sym (ap (λ j. find user_id j v.users) i) ∙ f in
    elim b.consumed [
      | inr (hs, n, _, _) ↦ absurd (ground (arith, n, d'))
      | inl (step', y, z, after, _) ↦
          let s : b.secret ≡ a.secret = ground (arith, g, a.stored, b.stored) in
          (
            a.secret,
            step,
            step',
            x,
            rw s at z,
            later_step b.row step step' (ground (arith, g)) after,
          )
    ]
  where
    later_step :
        (row : UserRow) (step step' : ℕ)
        → row.totp_last_step ≡ some step
        → After step' row.totp_last_step
        → step < step'
    later_step row step step' e a = rw e at a
