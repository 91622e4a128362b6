-- ===== src/Auth/Totp/Window.antt =====
-- Which codes are accepted, and for which step.
use onion_architecture.Base.{
  ℕ, ◌+◌, ◌-◌, ◌/◌, ◌%◌, ◌≤◌, ◌<◌, ◌≡◌, refl, sym, inl, inr, true, some, List, [], ◌∷◌, arith,
  Bool-cases,
}
use onion_architecture.Auth.{Chars, AuthEnv}
use onion_architecture.Auth.Base32.{base32_decode}
use onion_architecture.Auth.Chars.{is_six_digits, same_text, is_digit}
use onion_architecture.Auth.Totp.{
  six_digits, hotp, truncate, verify, first_match, window, current_step,
}

pub same_text-eq : (cs ds : Chars) → same_text cs ds ≡ true → cs ≡ ds
same_text-eq [] [] h = refl
same_text-eq [] (d ∷ ds) h = cc
same_text-eq (c ∷ cs) [] h = cc
same_text-eq (c ∷ cs) (d ∷ ds) h =
    let e : c ≡ d = ground arith in
    let r : same_text cs ds ≡ true = ground arith in rw (e, same_text-eq cs ds r) refl

pub same_text_refl : (cs : Chars) → same_text cs cs ≡ true
same_text_refl [] = refl
same_text_refl (c ∷ cs) = ground (arith, same_text_refl cs)

-- The code of a step is six digits, whatever the digest.
pub hotp-is_six_digits :
    (env : AuthEnv) (key : List ℕ) (step : ℕ) → is_six_digits (hotp env key step) ≡ true
unfolding hotp six_digits
hotp-is_six_digits env key step = all_digits (truncate (env.hmac_sha1 key step) % 1000000)
  where
    digit : (n : ℕ) → is_digit (48 + n % 10) ≡ true
    digit n = let h : n % 10 < 10 = omega arith in ground (arith, h)

    all_digits : (n : ℕ) → is_six_digits (six_digits n) ≡ true
    all_digits n =
        rw
          (
            digit (n / 100000),
            digit (n / 10000),
            digit (n / 1000),
            digit (n / 100),
            digit (n / 10),
            digit n,
          )
          refl

-- A code that is accepted for a step is the code of that step, which is at most one away from
-- the step of the clock.
pub verify_sound :
    (env : AuthEnv) (secret code : Chars) {step : ℕ}
    → verify env secret code ≡ some step
    → (code ≡ hotp env (base32_decode secret) step)
      × (step ≤ current_step env + 1)
      × (current_step env ≤ step + 1)
unfolding verify
verify_sound env secret code {step = step} h = elim (Bool-cases (is_six_digits code)) [
  | inr e ↦ absurd (ground (arith, h))
  | inl e ↦ tried (current_step env) (rw e at h)
]
  where
    tried :
        (n : ℕ)
        → first_match env (base32_decode secret) code (window n) ≡ some step
        → (code ≡ hotp env (base32_decode secret) step) × (step ≤ n + 1) × (n ≤ step + 1)
    tried n h = elim (Bool-cases (same_text (hotp env (base32_decode secret) (n - 1)) code)) [
      | inl a ↦
          let e : step ≡ n - 1 = ground arith in
          rw e (sym (same_text-eq _ code a), omega arith, omega arith)
      | inr a ↦ elim (Bool-cases (same_text (hotp env (base32_decode secret) n) code)) [
        | inl b ↦
            let e : step ≡ n = ground arith in
            rw e (sym (same_text-eq _ code b), omega arith, omega arith)
        | inr b ↦ elim (Bool-cases (same_text (hotp env (base32_decode secret) (n + 1)) code)) [
          | inl c ↦
              let e : step ≡ n + 1 = ground arith in
              rw e (sym (same_text-eq _ code c), omega arith, omega arith)
          | inr c ↦ absurd (ground arith)
        ]
      ]
    ]

-- Past the first step of the clock, the code of each step at most one away from the clock's is
-- accepted, for that step or an earlier one.
pub verify_complete :
    (env : AuthEnv) (secret : Chars) (step : ℕ)
    → step ≤ current_step env + 1
    → current_step env ≤ step + 1
    → 0 < current_step env
    → (n : ℕ) × (verify env secret (hotp env (base32_decode secret) step) ≡ some n) × (n ≤ step)
unfolding verify
verify_complete env secret step a b p =
    rw (hotp-is_six_digits env (base32_decode secret) step) (tried (current_step env) a b p)
  where
    found :
        (k : ℕ)
        → k ≡ step
        → same_text (hotp env (base32_decode secret) k) (hotp env (base32_decode secret) step)
          ≡ true
    found k e = rw e (same_text_refl (hotp env (base32_decode secret) step))

    tried :
        (c : ℕ)
        → step ≤ c + 1
        → c ≤ step + 1
        → 0 < c
        → (n : ℕ) × (first_match env
              (base32_decode secret)
              (hotp env (base32_decode secret) step)
              (window c)
            ≡ some n)
          × (n ≤ step)
    tried c a b p =
        elim (Bool-cases (
          same_text (hotp env (base32_decode secret) (c - 1))
            (hotp env (base32_decode secret) step))) [
              | inl x ↦ (c - 1, rw x refl, omega arith)
              | inr x ↦
                  let nx : c - 1 ≡ step → ⊥ = λ e. ground (arith, x, found (c - 1) e) in
                  elim (Bool-cases (
                    same_text (hotp env (base32_decode secret) c)
                      (hotp env (base32_decode secret) step))) [
                        | inl y ↦ (c, rw (x, y) refl, ground (arith, nx))
                        | inr y ↦
                            let ny : c ≡ step → ⊥ = λ e. ground (arith, y, found c e) in
                            let e : c + 1 ≡ step = ground (arith, nx, ny) in
                            (c + 1, rw (x, y, found (c + 1) e) refl, omega arith)
                      ]
            ]
