-- ===== src/Breaker/Rules.antt =====
-- What the breaker does in each state.
use onion_architecture.Base.{
  suc, ◌+◌, ◌≤◌, ◌<◌, ◌≡◌, refl, ◌⊎◌, inr, true, false, List, [], ◌∷◌, ltb, arith,
}
use onion_architecture.Base.Rows.Sweep.{length}
use onion_architecture.Domain.{Millis}
use onion_architecture.Breaker.{
  closed, opened, half_open, Options, CircuitBreaker, transition, admitted, rejected, try_probe,
  admit, Ending, returned, failure, domain_error, on_success, on_failure, settle, execute,
  execute_all,
}

-- Before the reset time is over, an open circuit rejects every call and nothing changes.
admit_open :
    (o : Options) (now : Millis) (c : CircuitBreaker)
    → c.state ≡ opened
    → now < c.opened_at + o.reset_timeout_ms
    → admit o now c ≡ rejected c
unfolding admit
admit_open o now c s h =
    let l : ltb now (c.opened_at + o.reset_timeout_ms) ≡ true = ground arith in rw (s, l) refl

-- Once the reset time is over, an open circuit with no probe under way lets one call through as
-- the probe and is half open, and then rejects every call, at any time, until one ends.
pub admit_probe :
    (o : Options) (now : Millis) (c : CircuitBreaker)
    → c.state ≡ opened
    → c.probe_in_flight ≡ false
    → c.opened_at + o.reset_timeout_ms ≤ now
    → (d : CircuitBreaker) × (admit o now c ≡ admitted d)
      × (d.state ≡ half_open)
      × ((t : Millis) → admit o t d ≡ rejected d)
unfolding admit transition try_probe
admit_probe o now c s p h =
    let l : ltb now (c.opened_at + o.reset_timeout_ms) ≡ false = ground arith in
    (
      record c { state = half_open; changes = half_open ∷ c.changes; probe_in_flight = true },
      rw (s, l, p) refl,
      refl,
      λ t. refl,
    )

-- How a call ends decides the next state, whatever the order of the calls: an answer closes the
-- circuit and forgets the failures; a failure opens it where it was the probe's, or the
-- threshold's; and no probe is under way afterwards.
abbrev pub Settles : Options → Millis → Ending → CircuitBreaker → CircuitBreaker → Type 0
Settles o now failure c d =
    (d.consecutive_failures ≡ suc c.consecutive_failures)
    × (d.probe_in_flight ≡ false)
    × (((c.state ≡ half_open) ⊎ (o.failure_threshold ≤ suc c.consecutive_failures))
        → (d.state ≡ opened) × (d.opened_at ≡ now))
    × (c.state ≡ closed → suc c.consecutive_failures < o.failure_threshold → d.state ≡ closed)
Settles o now e c d =
    (d.state ≡ closed) × (d.consecutive_failures ≡ 0) × (d.probe_in_flight ≡ false)

-- In every state: an answer, or a domain error, closes the circuit and forgets the failures; a
-- failure counts one more, opens the circuit from then on if it was half open or the threshold
-- is reached, and leaves a closed one closed below the threshold; and no probe is marked as
-- under way afterwards.
pub settle_lem :
    (o : Options) (now : Millis) (e : Ending) (c : CircuitBreaker)
    → Settles o now e c (settle o now e c)
unfolding settle on_success on_failure transition
settle_lem o now returned c = (ground arith, ground arith, refl)
settle_lem o now domain_error c = (ground arith, ground arith, refl)
settle_lem o now failure c = (ground arith, refl, λ h. ground (arith, h), λ s l. ground arith)

-- Calls that fail, one after another, each with its start and its end.
abbrev pub failures : List (Millis × Millis) → List (Millis × Millis × Ending)
failures [] = []
failures ((now, later) ∷ ts) = (now, later, failure) ∷ failures ts

fail_once :
    (o : Options) (now later : Millis) (c : CircuitBreaker)
    → c.state ≡ closed
    → suc c.consecutive_failures < o.failure_threshold
    → ((execute o now later failure c).1.state ≡ closed)
      × ((execute o now later failure c).1.consecutive_failures ≡ suc c.consecutive_failures)
unfolding execute admit settle on_failure transition
fail_once o now later c s l = rw s (ground arith, ground arith)

-- Calls made one after another on a closed circuit that all fail leave it closed, and are all
-- counted, while the count stays below the threshold.
failures_below :
    (o : Options) (ts : List (Millis × Millis)) (c : CircuitBreaker)
    → c.state ≡ closed
    → c.consecutive_failures + length ts < o.failure_threshold
    → ((execute_all o (failures ts) c).state ≡ closed)
      × ((execute_all o (failures ts) c).consecutive_failures ≡ c.consecutive_failures + length ts)
unfolding execute_all
failures_below o [] c s l = (s, omega arith)
failures_below o ((now, later) ∷ ts) c s l =
    let (s', f) = fail_once o now later c s (omega arith) in
    let (q, g) = failures_below o ts (execute o now later failure c).1 s' (omega arith) in
    (q, omega arith)

-- Calls made one after another on a closed circuit that all fail open it with the one that makes
-- the count reach the threshold, at the time it ended.
failures_at :
    (o : Options) (ts : List (Millis × Millis)) (now later : Millis) (c : CircuitBreaker)
    → c.state ≡ closed
    → suc (c.consecutive_failures + length ts) ≡ o.failure_threshold
    → let d = (execute o now later failure (execute_all o (failures ts) c)).1 in
      (d.state ≡ opened) × (d.opened_at ≡ later)
unfolding execute admit execute_all
failures_at o ts now later c s e =
    let (q, f) = failures_below o ts c s (omega arith) in
    let (n, p, trip, keep) = settle_lem o later failure (execute_all o (failures ts) c) in
    rw q (trip (inr (omega arith)))
