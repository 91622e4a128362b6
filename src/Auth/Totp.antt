-- ===== src/Auth/Totp.antt =====
-- `Rfc6238TotpAdapter`, given HMAC-SHA1.
pub mod Window
use onion_architecture.Base.{
  ℕ, zero, suc, ◌+◌, ◌-◌, ◌*◌, ◌/◌, ◌%◌, Bool, Option, none, some, List, [], ◌∷◌, if◌then◌else◌,
  not,
}
use onion_architecture.Auth.{Chars, AuthEnv}
use onion_architecture.Auth.Base32.{base32_encode, base32_decode}
use onion_architecture.Auth.Chars.{is_six_digits, same_text}

-- `generateSecret`
unfoldable pub generate_secret : AuthEnv → Chars
unfolding base32_encode
generate_secret env = base32_encode env.random_bytes

-- `digest[i]`
abbrev pub byte_at : List ℕ → ℕ → ℕ
byte_at [] i = 0
byte_at (b ∷ bs) zero = b
byte_at (b ∷ bs) (suc i) = byte_at bs i

abbrev pub last_byte : List ℕ → ℕ
last_byte [] = 0
last_byte (b ∷ []) = b
last_byte (b ∷ c ∷ bs) = last_byte (c ∷ bs)

-- The four bytes that an offset selects, the first without its sign: the shifts are products.
unfoldable pub truncate : List ℕ → ℕ
truncate digest =
    let offset = last_byte digest % 16 in
    byte_at digest offset % 128 * 16777216
    + byte_at digest (offset + 1) % 256 * 65536
    + byte_at digest (offset + 2) % 256 * 256
    + byte_at digest (offset + 3) % 256

-- `String(n).padStart(6, '0')`, for a number of six digits at most
unfoldable pub six_digits : ℕ → Chars
six_digits n =
    (48 + n / 100000 % 10)
    ∷ (48 + n / 10000 % 10)
    ∷ (48 + n / 1000 % 10)
    ∷ (48 + n / 100 % 10)
    ∷ (48 + n / 10 % 10)
    ∷ (48 + n % 10)
    ∷ []

unfoldable pub hotp : AuthEnv → List ℕ → ℕ → Chars
unfolding truncate six_digits
hotp env key counter = six_digits (truncate (env.hmac_sha1 key counter) % 1000000)

-- `Math.floor(now / 1000 / 30)`
abbrev pub current_step : AuthEnv → ℕ
current_step env = env.now / 30000

abbrev pub first_match : AuthEnv → List ℕ → Chars → List ℕ → Option ℕ
first_match env key code [] = none
first_match env key code (step ∷ steps) =
    if same_text (hotp env key step) code then some step else first_match env key code steps

-- The steps that are tried, WINDOW being 1; the clock is past the first step.
abbrev pub window : ℕ → List ℕ
window step = (step - 1) ∷ step ∷ (step + 1) ∷ []

unfoldable pub verify : AuthEnv → Chars → Chars → Option ℕ
unfolding hotp
verify env secret code =
    if not (is_six_digits code)
    then none
    else first_match env (base32_decode secret) code (window (current_step env))
