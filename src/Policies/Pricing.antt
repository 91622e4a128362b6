-- ===== src/Policies/Pricing.antt =====
-- `HourlyPricingPolicy`. Amounts are whole cents: `toFixed(2)` of hours times a price of two
-- decimals gives just that product.
pub mod Bounds
use onion_architecture.Base.{ℕ, ◌+◌, ◌-◌, ◌*◌, ◌/◌, Option, none, some, List, [], ◌∷◌}
use Prim.Native.Nat.{max}
use onion_architecture.Domain.{Text, Millis, Cents, SlotType, domain, not_found, branch}
use onion_architecture.World.{World}
use onion_architecture.World.Action.{Action, pure, or_throw, ◌>>=◌}
use onion_architecture.Repositories.Branches as Branches

-- `PricingInput`
pub record PricingInput : Type 0 where
  pub branch_id : Text
  pub slot_type : SlotType
  pub entry_at : Millis
  pub exit_at : Millis
  pub user_id : Text

-- `PricingBreakdownItem`: its label names the hours and the price.
pub record BreakdownItem : Type 0 where
  pub billable_hours : ℕ
  pub price_per_hour : Cents
  pub amount : Cents

-- `PricingResult`, always in PEN
pub record PricingResult : Type 0 where
  pub amount : Cents
  pub breakdown : List BreakdownItem

abbrev pub ms_per_hour : ℕ
ms_per_hour = 3600000

-- `Math.max(Math.ceil(durationMs / MS_PER_HOUR), 1)`, where `exit - entry` stops at 0
unfoldable pub billable_hours : Millis → Millis → ℕ
billable_hours entry_at exit_at = max ((exit_at - entry_at + (ms_per_hour - 1)) / ms_per_hour) 1

unfoldable pub calculate : PricingInput → Action World PricingResult
unfolding billable_hours Branches.find_by_id
calculate input = do
  found ← Branches.find_by_id input.branch_id
  b ← or_throw found (domain (not_found branch input.branch_id))
  let hours = billable_hours input.entry_at input.exit_at
  let amount = hours * b.price_per_hour
  pure (record {
    amount = amount;
    breakdown =
        record { billable_hours = hours; price_per_hour = b.price_per_hour; amount = amount } ∷ [];
  })
