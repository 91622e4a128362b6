-- ===== src/Auth/Base32/Symbols.antt =====
-- The 32 symbols: each is read back as its place, and none is touched when a text is cleaned.
use onion_architecture.Base.{
  ℕ, zero, suc, ◌+◌, ◌<◌, ◌≤◌, if◌then◌else◌, ◌≡◌, refl, Bool, true, false, ◌&&◌, not, List, [],
  ◌∷◌, ◌++◌, map, ◌==◌, arith, ==_iff, ◌-◌, ◌*◌, ◌%◌, ltb, leb, inl, inr, Bool-cases,
}
use onion_architecture.Base.Rows.{All, select}
use onion_architecture.Auth.{Chars}
use onion_architecture.Auth.Chars.{to_upper}
use onion_architecture.Auth.Base32.{
  symbol, index_of, is_base32, strip_equals, clean_base32, Coder, emit, encode_byte, encode_bytes,
  pad, base32_encode,
}

-- A test of the k numbers from i on.
tested : (k i : ℕ) (test : ℕ → Bool) → Bool
tested zero i test = true
tested (suc k) i test = if test i then tested k (i + 1) test else false

-- It speaks of each of them.
tested_each :
    (k i : ℕ) (test : ℕ → Bool) {m : ℕ} → tested k i test ≡ true → i ≤ m → m < i + k → test m ≡ true
unfolding tested
tested_each zero i test h low high = absurd (omega (arith, low, high))
tested_each (suc k) i test {m = m} h low high = elim (Bool-cases (test i)) [
  | inr no_ ↦ absurd (ground (arith, no_, h))
  | inl yes_ ↦ elim (Bool-cases (m == i)) [
    | inl here ↦ rw ((==_iff m i).0 here) yes_
    | inr past ↦
        let rest : tested k (i + 1) test ≡ true = rw yes_ at h in
        tested_each k (i + 1) test rest (ground (arith, past, low)) (omega (arith, high))
  ]
]

places : tested 32 0 (λ x. index_of (symbol x) == x) ≡ true
unfolding tested index_of symbol
places = refl

pub index_of-symbol : (x : ℕ) → x < 32 → index_of (symbol x) ≡ x
index_of-symbol x h =
    (==_iff _ x).0
      (tested_each 32 0 (λ y. index_of (symbol y) == y) places (omega arith) (omega (arith, h)))

-- A character that cleaning leaves alone.
abbrev is_plain : ℕ → Bool
is_plain c = (to_upper c == c) && (is_base32 c && not (c == 61))

abbrev pub IsPlain : ℕ → Type 0
IsPlain c = is_plain c ≡ true

plain_table : tested 32 0 (λ x. is_plain (symbol x)) ≡ true
unfolding tested symbol
plain_table = refl

pub symbol-IsPlain : (x : ℕ) → x < 32 → IsPlain (symbol x)
symbol-IsPlain x h =
    tested_each 32 0 (λ y. is_plain (symbol y)) plain_table (omega arith) (omega (arith, h))

clean_one : (c : ℕ) → IsPlain c → (to_upper c ≡ c) × (is_base32 c ≡ true) × ((c == 61) ≡ not true)
clean_one c h = ground arith

map_plain : (cs : Chars) → All IsPlain cs → map to_upper cs ≡ cs
map_plain [] h = refl
map_plain (c ∷ cs) h = rw ((clean_one c h.0).0, map_plain cs h.1) refl

strip_plain : (cs : Chars) → All IsPlain cs → strip_equals cs ≡ cs
unfolding strip_equals
strip_plain [] h = refl
strip_plain (c ∷ []) h = rw ((clean_one c h.0).2) refl
strip_plain (c ∷ d ∷ cs) h = rw (strip_plain (d ∷ cs) h.1) refl

select_plain : (cs : Chars) → All IsPlain cs → select is_base32 cs ≡ cs
unfolding select
select_plain [] h = refl
select_plain (c ∷ cs) h = rw ((clean_one c h.0).1, select_plain cs h.1) refl

-- A text of symbols only is clean.
pub clean_plain : (cs : Chars) → All IsPlain cs → clean_base32 cs ≡ cs
unfolding clean_base32
clean_plain cs h = rw (map_plain cs h, strip_plain cs h, select_plain cs h) refl

All-snoc : (cs : Chars) (c : ℕ) → All IsPlain cs → IsPlain c → All IsPlain (cs ++ c ∷ [])
All-snoc [] c h p = (p, tt)
All-snoc (d ∷ cs) c h p = (h.0, All-snoc cs c h.1 p)

-- What is written so far, with one symbol more.
symbol-All : (o : Chars) (n : ℕ) → All IsPlain o → All IsPlain (o ++ symbol (n % 32) ∷ [])
symbol-All o n h = All-snoc o _ h (symbol-IsPlain (n % 32) (omega arith))

emit-All : (f bits v : ℕ) (o : Chars) → All IsPlain o → All IsPlain (emit f bits v o).out
unfolding emit
emit-All zero bits v o h = h
emit-All (suc f) bits v o h = elim (Bool-cases (leb 5 bits)) [
  | inl e ↦ rw e (emit-All f (bits - 5) v _ (symbol-All o _ h))
  | inr e ↦ rw e h
]

encode_bytes-All :
    (s : Coder) (bs : List ℕ) → All IsPlain s.out → All IsPlain (encode_bytes s bs).out
unfolding encode_bytes encode_byte
encode_bytes-All s [] h = h
encode_bytes-All s (b ∷ bs) h =
    encode_bytes-All (encode_byte s b) bs
      (emit-All (s.bits + 8) (s.bits + 8) ((s.value * 256 + b) % 65536) s.out h)

-- Only symbols of the alphabet are written.
pub pad-All : (s : Coder) → All IsPlain s.out → All IsPlain (pad s)
pad-All s h = elim (Bool-cases (ltb 0 s.bits)) [
  | inl e ↦ rw e (symbol-All s.out _ h)
  | inr e ↦ rw e h
]

pub base32_encode-All : (bs : List ℕ) → All IsPlain (base32_encode bs)
unfolding base32_encode
base32_encode-All bs = pad-All _ (encode_bytes-All _ bs tt)
