-- ===== src/Auth/Base32.antt =====
-- `base32Encode` and `base32Decode` of auth-service/src/adapters/out/auth/rfc6238-totp.adapter.ts.
pub mod Symbols
pub mod RoundTrip
use Prim.Native.Nat.{◌^◌}
use onion_architecture.Base.{
  ℕ, zero, suc, ◌+◌, ◌-◌, ◌*◌, ◌/◌, ◌%◌, Bool, ◌||◌, ◌&&◌, List, [], ◌∷◌, ◌++◌, map, ltb, leb, ◌==◌,
  if◌then◌else◌,
}
use onion_architecture.Base.Rows.{select}
use onion_architecture.Auth.{Chars}
use onion_architecture.Auth.Chars.{is_upper, to_upper, char_at}

-- BASE32_ALPHABET: the capitals, then 2 to 7.
abbrev pub base32_alphabet : Chars
base32_alphabet =
    65 ∷ 66 ∷ 67 ∷ 68 ∷ 69 ∷ 70 ∷ 71 ∷ 72 ∷ 73 ∷ 74 ∷ 75 ∷ 76 ∷ 77 ∷ 78 ∷ 79 ∷ 80 ∷ 81 ∷ 82 ∷ 83
    ∷ 84 ∷ 85 ∷ 86 ∷ 87 ∷ 88 ∷ 89 ∷ 90 ∷ 50 ∷ 51 ∷ 52 ∷ 53 ∷ 54 ∷ 55 ∷ []

-- `BASE32_ALPHABET[i]`, i below 32
unfoldable pub symbol : ℕ → ℕ
symbol = char_at base32_alphabet

-- `indexOf`, for a character that is there
abbrev pub index_from : ℕ → Chars → ℕ → ℕ
index_from i [] c = 0
index_from i (d ∷ ds) c = if d == c then i else index_from (i + 1) ds c

unfoldable pub index_of : ℕ → ℕ
index_of = index_from 0 base32_alphabet

-- The local variables of either loop.
pub record Coder : Type 0 where
  pub bits : ℕ
  pub value : ℕ
  pub out : List ℕ

abbrev pub coder : ℕ → ℕ → List ℕ → Coder
coder b v o = record { bits = b; value = v; out = o }

-- `while (bits >= 5)`; the fuel is the number of bits, of which each round takes five.
unfoldable pub emit : ℕ → ℕ → ℕ → Chars → Coder
emit zero bits value out = coder bits value out
emit (suc f) bits value out =
    let rest = emit f (bits - 5) value (out ++ symbol (value / 2 ^ (bits - 5) % 32) ∷ []) in
    if leb 5 bits then rest else coder bits value out

-- The body of the loop over the bytes: the shift and the `|` are a product and a sum.
unfoldable pub encode_byte : Coder → ℕ → Coder
unfolding emit
encode_byte s byte = emit (s.bits + 8) (s.bits + 8) ((s.value * 256 + byte) % 65536) s.out

unfoldable pub encode_bytes : Coder → List ℕ → Coder
unfolding encode_byte
encode_bytes s [] = s
encode_bytes s (b ∷ bs) = encode_bytes (encode_byte s b) bs

-- The bits that are left, filled up with zeros.
abbrev pub pad : Coder → Chars
pad s = if ltb 0 s.bits then s.out ++ symbol (s.value * 2 ^ (5 - s.bits) % 32) ∷ [] else s.out

unfoldable pub base32_encode : List ℕ → Chars
unfolding encode_bytes
base32_encode bytes = pad (encode_bytes (coder 0 0 []) bytes)

-- `[A-Z2-7]`
abbrev pub is_base32 : ℕ → Bool
is_base32 c = is_upper c || (leb 50 c && leb c 55)

abbrev pub cons_unless_equals : ℕ → Chars → Chars
cons_unless_equals c [] = if c == 61 then [] else c ∷ []
cons_unless_equals c (d ∷ ds) = c ∷ d ∷ ds

-- `replace(/=+$/, '')`
unfoldable pub strip_equals : Chars → Chars
strip_equals [] = []
strip_equals (c ∷ cs) = cons_unless_equals c (strip_equals cs)

unfoldable pub clean_base32 : Chars → Chars
unfolding strip_equals
clean_base32 input = select is_base32 (strip_equals (map to_upper input))

-- `if (bits >= 8)`
abbrev pub take_byte : Coder → Coder
take_byte s =
    if leb 8 s.bits
    then coder (s.bits - 8) s.value (s.out ++ (s.value / 2 ^ (s.bits - 8) % 256) ∷ [])
    else s

unfoldable pub decode_char : Coder → ℕ → Coder
decode_char s c = take_byte (coder (s.bits + 5) ((s.value * 32 + index_of c) % 65536) s.out)

unfoldable pub decode_chars : Coder → Chars → Coder
unfolding decode_char
decode_chars s [] = s
decode_chars s (c ∷ cs) = decode_chars (decode_char s c) cs

unfoldable pub base32_decode : Chars → List ℕ
unfolding clean_base32 decode_chars
base32_decode input = (decode_chars (coder 0 0 []) (clean_base32 input)).out
