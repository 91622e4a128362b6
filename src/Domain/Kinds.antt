-- ===== src/Domain/Kinds.antt =====
-- What the numbers of the model stand for.
use onion_architecture.Base.{ℕ}

-- A text, by its place in the collation order; 0 is the empty text.
abbrev pub Text : Type 0
Text = ℕ

-- Milliseconds since the epoch.
abbrev pub Millis : Type 0
Millis = ℕ

abbrev pub Cents : Type 0
Cents = ℕ

-- The bit pattern of a double that is not NaN.
abbrev pub Double : Type 0
Double = ℕ
