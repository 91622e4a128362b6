-- ===== src/Auth/Chars/Codes.antt =====
-- Backup codes, as they are made and as they are typed.
use onion_architecture.Base.{
  ℕ, zero, suc, ◌≡◌, refl, ap, ◌∙◌, inl, inr, Bool, true, ◌&&◌, List, [], ◌∷◌, ◌++◌, map, arith,
  ◌==◌, Bool-cases,
}
use onion_architecture.Base.Rows.{All, select}
use onion_architecture.Base.Rows.Sweep.{length}
use onion_architecture.Auth.{Chars}
use onion_architecture.Auth.Chars.{
  is_code_char, to_upper, clean, normalize_backup_code, generate_backup_code, alphabet, char_at,
  hyphen, take, drop, every,
}

-- A letter or a digit, and in upper case already.
abbrev pub IsSymbol : ℕ → Type 0
IsSymbol c = (is_code_char c ≡ true) × (to_upper c ≡ c)

char_at-IsSymbol : (cs : Chars) (i : ℕ) → All IsSymbol cs → IsSymbol (char_at cs i)
char_at-IsSymbol [] i h = (refl, refl)
char_at-IsSymbol (c ∷ cs) zero h = h.0
char_at-IsSymbol (c ∷ cs) (suc i) h = char_at-IsSymbol cs i h.1

abbrev is_symbol : ℕ → Bool
is_symbol c = is_code_char c && (to_upper c == c)

every-All : (cs : Chars) → every is_symbol cs ≡ true → All IsSymbol cs
every-All [] h = tt
every-All (c ∷ cs) h = (ground arith, every-All cs (ground arith))

alphabet-All : All IsSymbol alphabet
alphabet-All = every-All alphabet refl

picked-All : (is : List ℕ) → All IsSymbol (map (char_at alphabet) is)
picked-All [] = tt
picked-All (i ∷ is) = (char_at-IsSymbol alphabet i alphabet-All, picked-All is)

-- Cleaning leaves a text of symbols as it is.
clean-symbols : (cs : Chars) → All IsSymbol cs → clean cs ≡ cs
unfolding clean select
clean-symbols [] h = refl
clean-symbols (c ∷ cs) h = rw (h.0.1, h.0.0, clean-symbols cs h.1) refl

-- Cleaning goes through a text piece by piece.
clean-append : (cs ds : Chars) → clean (cs ++ ds) ≡ clean cs ++ clean ds
unfolding clean select
clean-append [] ds = refl
clean-append (c ∷ cs) ds = elim (Bool-cases (is_code_char (to_upper c))) [
  | inl e ↦ rw (e, clean-append cs ds) refl
  | inr e ↦ rw (e, clean-append cs ds) refl
]

take-drop : (n : ℕ) (cs : Chars) → take n cs ++ drop n cs ≡ cs
take-drop zero cs = refl
take-drop (suc n) [] = refl
take-drop (suc n) (c ∷ cs) = ap (c ∷◌) (take-drop n cs)

take-All : (n : ℕ) (cs : Chars) → All IsSymbol cs → All IsSymbol (take n cs)
take-All zero cs h = tt
take-All (suc n) [] h = tt
take-All (suc n) (c ∷ cs) h = (h.0, take-All n cs h.1)

drop-All : (n : ℕ) (cs : Chars) → All IsSymbol cs → All IsSymbol (drop n cs)
drop-All zero cs h = h
drop-All (suc n) [] h = tt
drop-All (suc n) (c ∷ cs) h = drop-All n cs h.1

-- A code as it is shown.
abbrev pub shown : Chars → Chars
shown cs = take 4 cs ++ hyphen ∷ drop 4 cs

clean-shown : (cs : Chars) → All IsSymbol cs → clean (shown cs) ≡ cs
unfolding clean select
clean-shown cs h =
    clean-append (take 4 cs) (hyphen ∷ drop 4 cs)
    ∙ rw (clean-symbols (take 4 cs) (take-All 4 cs h), clean-symbols (drop 4 cs) (drop-All 4 cs h))
        (take-drop 4 cs)

-- Whatever the user types, what counts is the eight letters and digits of it.
pub normalize_backup_code-shown :
    (raw cs : Chars) → clean raw ≡ cs → length cs ≡ 8 → normalize_backup_code raw ≡ shown cs
unfolding normalize_backup_code
normalize_backup_code-shown raw cs e l =
    let d : (length cs == 8) ≡ true = rw l refl in rw (e, d) refl

length-map : (f : ℕ → ℕ) (cs : Chars) → length (map f cs) ≡ length cs
length-map f [] = refl
length-map f (c ∷ cs) = ap suc (length-map f cs)

-- From eight draws, a backup code is made that is what the normal form gives of every text with
-- the same letters and digits, in upper or lower case, with blanks or without the hyphen.
normalize-generate :
    (picks : List ℕ) (typed : Chars)
    → length picks ≡ 8
    → clean typed ≡ clean (generate_backup_code picks)
    → normalize_backup_code typed ≡ generate_backup_code picks
unfolding generate_backup_code
normalize-generate picks typed l e =
    let cs = map (char_at alphabet) picks in
    normalize_backup_code-shown typed cs (e ∙ clean-shown cs (picked-All picks))
      (length-map (char_at alphabet) picks ∙ l)
