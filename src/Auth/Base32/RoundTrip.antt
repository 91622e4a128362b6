-- ===== src/Auth/Base32/RoundTrip.antt =====
-- Decoding gives back the bytes that were encoded.
use Prim.Native.Nat.{◌^◌}
use mathlib.Core.List.{append_assoc, append-nil}
use onion_architecture.Base.{
  ℕ, zero, suc, ◌+◌, ◌-◌, ◌*◌, ◌/◌, ◌%◌, ◌≤◌, ◌<◌, ◌≡◌, refl, sym, ap, ◌∙◌, List, [], ◌∷◌, ◌++◌,
  arith, leb, Bool-cases, inl, inr, leb→le,
}
use onion_architecture.Base.Rows.{All}
use onion_architecture.Auth.{Chars}
use onion_architecture.Auth.Base32.{
  Coder, coder, symbol, emit, encode_byte, encode_bytes, pad, base32_encode, decode_char,
  decode_chars, base32_decode, take_byte,
}
use onion_architecture.Auth.Base32.Symbols.{index_of-symbol, clean_plain, base32_encode-All}

abbrev pub IsByte : ℕ → Type 0
IsByte b = b < 256

-- The loop takes its five bits a round, and its fuel is enough: it ends by its test.
pub emit-bits : (f bits v : ℕ) (o : Chars) → bits ≤ f → (emit f bits v o).bits ≡ bits % 5
unfolding emit
emit-bits zero bits v o h = omega arith
emit-bits (suc f) bits v o h = elim (Bool-cases (leb 5 bits)) [
  | inl e ↦ rw e (
      omega (
        arith,
        emit-bits f (bits - 5) v (o ++ symbol (v / 2 ^ (bits - 5) % 32) ∷ []),
        leb→le 5 bits e,
      ))
  | inr e ↦ rw e (ground arith)
]

abbrev pub start : Coder
start = coder 0 0 []

decode-append :
    (s : Coder) (xs ys : Chars) → decode_chars s (xs ++ ys) ≡ decode_chars (decode_chars s xs) ys
unfolding decode_chars
decode-append s [] ys = refl
decode-append s (x ∷ xs) ys = decode-append (decode_char s x) xs ys

-- One more symbol.
decode-symbol :
    (o : Chars) (x k u : ℕ) (ps : List ℕ)
    → x < 32
    → decode_chars start o ≡ coder k u ps
    → decode_chars start (o ++ symbol x ∷ []) ≡ take_byte (coder (k + 5) ((u * 32 + x) % 65536) ps)
unfolding decode_chars decode_char
decode-symbol o x k u ps h e =
    decode-append start o (symbol x ∷ []) ∙ (rw (e, index_of-symbol x h) refl)

-- Bytes that are put together.
snoc : (ps : List ℕ) (b : ℕ) {c : ℕ} → c ≡ b → ps ++ c ∷ [] ≡ ps ++ b ∷ []
snoc ps b e = rw e refl

-- By how many bits of the last byte b are still to be written.
mutual
  unfolding encode_bytes encode_byte

  whole :
      (cs : List ℕ) (v u : ℕ) (o : Chars) (ps : List ℕ)
      → decode_chars start o ≡ coder 0 u ps
      → All IsByte cs
      → (decode_chars start (pad (encode_bytes (coder 0 v o) cs))).out ≡ ps ++ cs
  whole [] v u o ps d h = ap (λ (s : Coder). s.out) d ∙ sym (append-nil ps)
  whole (c ∷ cs) v u o ps d (hc, h) =
      let v2 : ℕ = (v * 256 + c) % 65536 in
      let x0 : ℕ = v2 / 8 % 32 in
      let u0 : ℕ = (u * 32 + x0) % 65536 in
      let d0 = decode-symbol (o) x0 0 u (ps) (omega arith) d in
      left_3 cs v2 u0 c ((o) ++ symbol x0 ∷ []) (ps) d0 hc (omega arith) (omega arith) h

  left_1 :
      (cs : List ℕ) (v u b : ℕ) (o : Chars) (ps : List ℕ)
      → decode_chars start o ≡ coder 7 u ps
      → IsByte b
      → u % 128 ≡ b / 2
      → v % 2 ≡ b % 2
      → All IsByte cs
      → (decode_chars start (pad (encode_bytes (coder 1 v o) cs))).out ≡ ps ++ b ∷ cs
  left_1 [] v u b o ps d hb hu hv h =
      ap (λ (s : Coder). s.out) (decode-symbol o (v * 16 % 32) 7 u ps (omega arith) d)
      ∙ snoc ps b (omega arith)
  left_1 (c ∷ cs) v u b o ps d hb hu hv (hc, h) =
      let v2 : ℕ = (v * 256 + c) % 65536 in
      let x0 : ℕ = v2 / 16 % 32 in
      let u0 : ℕ = (u * 32 + x0) % 65536 in
      let d0 =
        decode-symbol (o) x0 7 u (ps) (omega arith) d
        ∙ ap (coder 4 u0) (snoc (ps) b (omega arith)) in
      left_4 cs v2 u0 c ((o) ++ symbol x0 ∷ []) ((ps) ++ b ∷ []) d0 hc (omega arith) (omega arith) h
      ∙ append_assoc ps (b ∷ []) (c ∷ cs)

  left_2 :
      (cs : List ℕ) (v u b : ℕ) (o : Chars) (ps : List ℕ)
      → decode_chars start o ≡ coder 6 u ps
      → IsByte b
      → u % 64 ≡ b / 4
      → v % 4 ≡ b % 4
      → All IsByte cs
      → (decode_chars start (pad (encode_bytes (coder 2 v o) cs))).out ≡ ps ++ b ∷ cs
  left_2 [] v u b o ps d hb hu hv h =
      ap (λ (s : Coder). s.out) (decode-symbol o (v * 8 % 32) 6 u ps (omega arith) d)
      ∙ snoc ps b (omega arith)
  left_2 (c ∷ cs) v u b o ps d hb hu hv (hc, h) =
      let v2 : ℕ = (v * 256 + c) % 65536 in
      let x0 : ℕ = v2 / 32 % 32 in
      let u0 : ℕ = (u * 32 + x0) % 65536 in
      let d0 =
        decode-symbol (o) x0 6 u (ps) (omega arith) d
        ∙ ap (coder 3 u0) (snoc (ps) b (omega arith)) in
      let x1 : ℕ = v2 / 1 % 32 in
      let u1 : ℕ = (u0 * 32 + x1) % 65536 in
      let d1 =
        decode-symbol ((o) ++ symbol x0 ∷ []) x1 3 u0 ((ps) ++ b ∷ []) (omega arith) d0
        ∙ ap (coder 0 u1) (snoc ((ps) ++ b ∷ []) c (omega arith)) in
      whole cs v2 u1 (((o) ++ symbol x0 ∷ []) ++ symbol x1 ∷ []) (((ps) ++ b ∷ []) ++ c ∷ []) d1 h
      ∙ append_assoc (ps ++ b ∷ []) (c ∷ []) cs
      ∙ append_assoc ps (b ∷ []) (c ∷ cs)

  left_3 :
      (cs : List ℕ) (v u b : ℕ) (o : Chars) (ps : List ℕ)
      → decode_chars start o ≡ coder 5 u ps
      → IsByte b
      → u % 32 ≡ b / 8
      → v % 8 ≡ b % 8
      → All IsByte cs
      → (decode_chars start (pad (encode_bytes (coder 3 v o) cs))).out ≡ ps ++ b ∷ cs
  left_3 [] v u b o ps d hb hu hv h =
      ap (λ (s : Coder). s.out) (decode-symbol o (v * 4 % 32) 5 u ps (omega arith) d)
      ∙ snoc ps b (omega arith)
  left_3 (c ∷ cs) v u b o ps d hb hu hv (hc, h) =
      let v2 : ℕ = (v * 256 + c) % 65536 in
      let x0 : ℕ = v2 / 64 % 32 in
      let u0 : ℕ = (u * 32 + x0) % 65536 in
      let d0 =
        decode-symbol (o) x0 5 u (ps) (omega arith) d
        ∙ ap (coder 2 u0) (snoc (ps) b (omega arith)) in
      let x1 : ℕ = v2 / 2 % 32 in
      let u1 : ℕ = (u0 * 32 + x1) % 65536 in
      let d1 = decode-symbol ((o) ++ symbol x0 ∷ []) x1 2 u0 ((ps) ++ b ∷ []) (omega arith) d0 in
      left_1 cs v2 u1 c (((o) ++ symbol x0 ∷ []) ++ symbol x1 ∷ []) ((ps) ++ b ∷ []) d1 hc
        (omega arith) (omega arith) h
      ∙ append_assoc ps (b ∷ []) (c ∷ cs)

  left_4 :
      (cs : List ℕ) (v u b : ℕ) (o : Chars) (ps : List ℕ)
      → decode_chars start o ≡ coder 4 u ps
      → IsByte b
      → u % 16 ≡ b / 16
      → v % 16 ≡ b % 16
      → All IsByte cs
      → (decode_chars start (pad (encode_bytes (coder 4 v o) cs))).out ≡ ps ++ b ∷ cs
  left_4 [] v u b o ps d hb hu hv h =
      ap (λ (s : Coder). s.out) (decode-symbol o (v * 2 % 32) 4 u ps (omega arith) d)
      ∙ snoc ps b (omega arith)
  left_4 (c ∷ cs) v u b o ps d hb hu hv (hc, h) =
      let v2 : ℕ = (v * 256 + c) % 65536 in
      let x0 : ℕ = v2 / 128 % 32 in
      let u0 : ℕ = (u * 32 + x0) % 65536 in
      let d0 =
        decode-symbol (o) x0 4 u (ps) (omega arith) d
        ∙ ap (coder 1 u0) (snoc (ps) b (omega arith)) in
      let x1 : ℕ = v2 / 4 % 32 in
      let u1 : ℕ = (u0 * 32 + x1) % 65536 in
      let d1 = decode-symbol ((o) ++ symbol x0 ∷ []) x1 1 u0 ((ps) ++ b ∷ []) (omega arith) d0 in
      left_2 cs v2 u1 c (((o) ++ symbol x0 ∷ []) ++ symbol x1 ∷ []) ((ps) ++ b ∷ []) d1 hc
        (omega arith) (omega arith) h
      ∙ append_assoc ps (b ∷ []) (c ∷ cs)

-- Whatever bytes are encoded, the text decodes to just these bytes.
pub base32_decode-encode :
    (bytes : List ℕ) → All IsByte bytes → base32_decode (base32_encode bytes) ≡ bytes
unfolding base32_decode base32_encode
base32_decode-encode bytes h =
    let plain = clean_plain (base32_encode bytes) (base32_encode-All bytes) in
    ap (λ cs. (decode_chars start cs).out) plain ∙ whole bytes 0 0 [] [] refl h
