-- ===== src/Payments/Methods.antt =====
-- The methods of payment, and what a client may rely on.
use onion_architecture.Base.{◌≡◌, refl, ltb}
use onion_architecture.Domain.{Text}
use onion_architecture.Payments.{
  PaymentMethodType, cash, card, yape, plin, ChargeInput, ChargeResult,
}

-- The prefixes CASH-, CARD-, YAPE- and PLIN-, and a random suffix
pub record References : Type 0 where
  pub reference : PaymentMethodType → Text

-- The four mini-adapters: each rejects an amount of nothing, and no other.
abbrev pub charge_cash : References → ChargeInput → ChargeResult
charge_cash u i = record { approved = ltb 0 i.amount; external_reference = u.reference cash }

abbrev pub charge_card : References → ChargeInput → ChargeResult
charge_card u i = record { approved = ltb 0 i.amount; external_reference = u.reference card }

abbrev pub charge_yape : References → ChargeInput → ChargeResult
charge_yape u i = record { approved = ltb 0 i.amount; external_reference = u.reference yape }

abbrev pub charge_plin : References → ChargeInput → ChargeResult
charge_plin u i = record { approved = ltb 0 i.amount; external_reference = u.reference plin }

-- `this.adapters[method]`
abbrev pub adapter_of : References → PaymentMethodType → ChargeInput → ChargeResult
adapter_of u cash = charge_cash u
adapter_of u card = charge_card u
adapter_of u yape = charge_yape u
adapter_of u plin = charge_plin u

-- `PaymentMethodRouterAdapter.charge`
unfoldable pub route : References → ChargeInput → ChargeResult
route u i = adapter_of u i.method i

-- A method that rejects nothing but an amount of nothing.
abbrev pub RejectsNothing : (ChargeInput → ChargeResult) → Type 0
RejectsNothing charge = (i : ChargeInput) → (charge i).approved ≡ ltb 0 i.amount

-- Whichever method the user picks, the router approves a charge exactly if its amount is more
-- than nothing.
pub route-RejectsNothing : (u : References) → RejectsNothing (route u)
unfolding route
route-RejectsNothing u i = by_method i.method
  where
    by_method : (m : PaymentMethodType) → (adapter_of u m i).approved ≡ ltb 0 i.amount
    by_method cash = refl
    by_method card = refl
    by_method yape = refl
    by_method plin = refl
