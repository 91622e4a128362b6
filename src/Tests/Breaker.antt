-- ===== src/Tests/Breaker.antt =====
-- A breaker with a threshold of two failures and a pause of a hundred milliseconds.
use onion_architecture.Base.{◌≡◌, refl, [], ◌∷◌, arith}
use onion_architecture.Domain.{Millis}
use onion_architecture.Breaker.{
  closed, opened, half_open, Options, CircuitBreaker, admitted, rejected, admit, failure, settle,
  new_breaker,
}
use onion_architecture.Breaker.Rules.{admit_probe, Settles, settle_lem}
use onion_architecture.Breaker.Calls.{none_yet, begin, ended, IsCounted, Calls-IsCounted}

abbrev options : Options
options = record { failure_threshold = 2; reset_timeout_ms = 100 }

abbrev opened_breaker : CircuitBreaker
opened_breaker = record new_breaker {
  state = opened;
  consecutive_failures = 2;
  opened_at = 1000;
  changes = opened ∷ closed ∷ [];
}

admit_probe_example :
    (d : CircuitBreaker) × (admit options 1100 opened_breaker ≡ admitted d)
    × (d.state ≡ half_open)
    × ((t : Millis) → admit options t d ≡ rejected d)
admit_probe_example = admit_probe options 1100 opened_breaker refl refl (omega arith)

settle_lem_example : Settles options 5 failure new_breaker (settle options 5 failure new_breaker)
settle_lem_example = settle_lem options 5 failure new_breaker

-- Two calls begin, and the first of them ends.
Calls-IsCounted_example : IsCounted options (settle options 9 failure new_breaker)
unfolding admit
Calls-IsCounted_example = Calls-IsCounted options {n = 1} (omega arith) (
    ended 9 failure {c = new_breaker} (
      begin 2 {c = new_breaker} {d = new_breaker}
        (begin 1 {c = new_breaker} {d = new_breaker} none_yet refl) refl))
