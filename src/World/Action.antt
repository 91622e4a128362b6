-- ===== src/World/Action.antt =====
-- A call of an asynchronous method: it reads and changes the world, and returns or throws. What
-- was written before a throw stays written, since the use cases open no transaction.
use onion_architecture.Base.{Bool, true, false, Option, none, some}
use onion_architecture.Domain.{Failure}

pub data Result {ℓ} (A : Type ℓ) : Type ℓ where
  ok : A → Result A
  err : Failure → Result A

module _ (S : Type 0) where
  abbrev pub Action : Type 0 → Type 0
  Action A = S → Result A × S

module _ {S A : Type 0} where
  abbrev pub pure : A → Action S A
  pure a w = (ok a, w)

  abbrev pub throw : Failure → Action S A
  throw e w = (err e, w)

  abbrev pub gets : (S → A) → Action S A
  gets f w = (ok (f w), w)

  abbrev pub or_throw : Option A → Failure → Action S A
  or_throw none e w = (err e, w)
  or_throw (some a) e w = (ok a, w)

-- What follows a call: its result goes on to the rest, and a throw does not.
abbrev pub and_then : {S A B : Type 0} → Result A × S → (A → Action S B) → Result B × S
and_then (ok a, w) f = f a w
and_then (err e, w) f = (err e, w)

infixl 5 ◌>>=◌ ◌>>◌
abbrev pub ◌>>=◌ : {S A B : Type 0} → Action S A → (A → Action S B) → Action S B
◌>>=◌ m f w = and_then (m w) f

abbrev pub ◌>>◌ : {S A B : Type 0} → Action S A → Action S B → Action S B
◌>>◌ m k w = and_then (m w) (λ _. k)

module _ {S : Type 0} where
  abbrev pub modify : (S → S) → Action S (Unit {0})
  modify f w = (ok tt, f w)

  -- `if (c) throw e`
  abbrev pub throw_if : Bool → Failure → Action S (Unit {0})
  throw_if true e w = (err e, w)
  throw_if false e w = (ok tt, w)

  -- `if (c) a`
  abbrev pub when : Bool → Action S (Unit {0}) → Action S (Unit {0})
  when true a w = a w
  when false a w = (ok tt, w)
