-- ===== src/Policies/Pricing/Bounds.antt =====
-- How many hours a stay is billed.
use onion_architecture.Base.{◌+◌, ◌-◌, ◌*◌, ◌≤◌, ◌<◌, arith}
use onion_architecture.Domain.{Millis}
use onion_architecture.Policies.Pricing.{billable_hours, ms_per_hour}

-- For any entry and exit: at least one hour is billed, the hours billed cover the stay, and
-- where more than one is billed, one less would not cover it.
pub billable_hours-covers :
    (entry_at exit_at : Millis)
    → (1 ≤ billable_hours entry_at exit_at)
      × (exit_at ≤ entry_at + billable_hours entry_at exit_at * ms_per_hour)
      × (1 < billable_hours entry_at exit_at
          → entry_at + (billable_hours entry_at exit_at - 1) * ms_per_hour < exit_at)
unfolding billable_hours
billable_hours-covers entry_at exit_at = (omega arith, omega arith, λ h. omega arith)

-- A longer stay is billed no fewer hours.
pub billable_hours_mono :
    (entry_at exit_at later : Millis)
    → exit_at ≤ later
    → billable_hours entry_at exit_at ≤ billable_hours entry_at later
unfolding billable_hours
billable_hours_mono entry_at exit_at later h = omega arith
