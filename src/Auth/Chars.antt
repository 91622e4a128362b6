-- ===== src/Auth/Chars.antt =====
-- The operations on texts that the codes of the second factor go through.
pub mod Codes
use onion_architecture.Base.{
  ℕ, zero, suc, ◌+◌, ◌-◌, ◌≡◌, refl, Bool, true, false, ◌&&◌, ◌||◌, List, [], ◌∷◌, ◌++◌, map, leb,
  ◌==◌, if◌then◌else◌,
}
use onion_architecture.Base.Rows.{select}
use onion_architecture.Base.Rows.Sweep.{length}
use onion_architecture.Auth.{Chars}

-- `\d`
abbrev pub is_digit : ℕ → Bool
is_digit c = leb 48 c && leb c 57

abbrev pub is_upper : ℕ → Bool
is_upper c = leb 65 c && leb c 90

-- `[A-Z0-9]`
abbrev pub is_code_char : ℕ → Bool
is_code_char c = is_upper c || is_digit c

-- `toUpperCase`
abbrev pub to_upper : ℕ → ℕ
to_upper c = if leb 97 c && leb c 122 then c - 32 else c

abbrev pub every : (ℕ → Bool) → Chars → Bool
every p [] = true
every p (c ∷ cs) = p c && every p cs

-- `/^\d{6}$/`
abbrev pub is_six_digits : Chars → Bool
is_six_digits cs = (length cs == 6) && every is_digit cs

abbrev pub same_text : Chars → Chars → Bool
same_text [] [] = true
same_text (c ∷ cs) (d ∷ ds) = (c == d) && same_text cs ds
same_text _ _ = false

-- White space.
abbrev pub is_space : ℕ → Bool
is_space c = (c == 32) || (leb 9 c && leb c 13)

unfoldable pub trim_start : Chars → Chars
trim_start [] = []
trim_start (c ∷ cs) = if is_space c then trim_start cs else c ∷ cs

-- A trailing character is dropped if it is white space and all after it is.
abbrev pub cons_unless_blank : ℕ → Chars → Chars
cons_unless_blank c [] = if is_space c then [] else c ∷ []
cons_unless_blank c (d ∷ ds) = c ∷ d ∷ ds

unfoldable pub trim_end : Chars → Chars
trim_end [] = []
trim_end (c ∷ cs) = cons_unless_blank c (trim_end cs)

unfoldable pub trim : Chars → Chars
unfolding trim_start trim_end
trim cs = trim_end (trim_start cs)

abbrev pub take : ℕ → Chars → Chars
take zero cs = []
take (suc n) [] = []
take (suc n) (c ∷ cs) = c ∷ take n cs

abbrev pub drop : ℕ → Chars → Chars
drop zero cs = cs
drop (suc n) [] = []
drop (suc n) (c ∷ cs) = drop n cs

abbrev pub hyphen : ℕ
hyphen = 45

-- What is left of a code once it is in upper case and only letters and digits are kept.
unfoldable pub clean : Chars → Chars
clean raw = select is_code_char (map to_upper raw)

-- `normalizeBackupCode`
unfoldable pub normalize_backup_code : Chars → Chars
unfolding clean trim
normalize_backup_code raw =
    if length (clean raw) == 8
    then take 4 (clean raw) ++ hyphen ∷ drop 4 (clean raw)
    else map to_upper (trim raw)

-- BACKUP_CODE_ALPHABET: ABCDEFGHJKMNPQRSTUVWXYZ23456789
abbrev pub alphabet : Chars
alphabet =
    65 ∷ 66 ∷ 67 ∷ 68 ∷ 69 ∷ 70 ∷ 71 ∷ 72 ∷ 74 ∷ 75 ∷ 77 ∷ 78 ∷ 80 ∷ 81 ∷ 82 ∷ 83 ∷ 84 ∷ 85 ∷ 86
    ∷ 87 ∷ 88 ∷ 89 ∷ 90 ∷ 50 ∷ 51 ∷ 52 ∷ 53 ∷ 54 ∷ 55 ∷ 56 ∷ 57 ∷ []

-- `ALPHABET[i]`, where `randomInt` keeps i below the length
abbrev pub char_at : Chars → ℕ → ℕ
char_at [] i = 65
char_at (c ∷ cs) zero = c
char_at (c ∷ cs) (suc i) = char_at cs i

-- `generateBackupCode`, from the eight draws of `randomInt`
unfoldable pub generate_backup_code : List ℕ → Chars
generate_backup_code picks =
    let cs = map (char_at alphabet) picks in take 4 cs ++ hyphen ∷ drop 4 cs
