-- ===== src/Breaker.antt =====
-- `CircuitBreaker` of backend/src/adapters/out/resilience/circuit-breaker.ts, which gateway and
-- payments-service hold a copy of. A call is two steps: it is let through or rejected, and later
-- it ends; other calls may start and end in between.
pub mod Rules
pub mod Calls
use onion_architecture.Base.{
  ℕ, suc, ◌+◌, Bool, true, false, ◌||◌, List, [], ◌∷◌, ltb, leb, if◌then◌else◌,
}
use onion_architecture.Domain.{Millis}

pub data CircuitState : Type 0 where
  closed opened half_open : CircuitState

-- `failureThreshold` and `resetTimeoutMs`, each given or read from the environment
pub record Options : Type 0 where
  pub failure_threshold : ℕ
  pub reset_timeout_ms : Millis

pub record CircuitBreaker : Type 0 where
  pub state : CircuitState
  pub consecutive_failures : ℕ
  pub opened_at : Millis
  pub probe_in_flight : Bool
  -- the states that `onStateChange` was called with, newest first
  pub changes : List CircuitState

abbrev pub same_state : CircuitState → CircuitState → Bool
same_state closed closed = true
same_state opened opened = true
same_state half_open half_open = true
same_state _ _ = false

-- The constructor.
abbrev pub new_breaker : CircuitBreaker
new_breaker = record {
  state = closed;
  consecutive_failures = 0;
  opened_at = 0;
  probe_in_flight = false;
  changes = closed ∷ [];
}

unfoldable pub transition : CircuitState → CircuitBreaker → CircuitBreaker
transition next c =
    if same_state c.state next then c else record c { state = next; changes = next ∷ c.changes }

-- Whether a call goes through, and what is left: the first half of `execute`.
pub data Admission : Type 0 where
  admitted rejected : CircuitBreaker → Admission

unfoldable pub try_probe : CircuitBreaker → Admission
try_probe c =
    if c.probe_in_flight then rejected c else admitted (record c { probe_in_flight = true })

-- `now - openedAt < resetTimeoutMs`, which a clock that was set back makes negative, is written
-- with a sum.
abbrev pub admit_in : CircuitState → Options → Millis → CircuitBreaker → Admission
admit_in closed o now c = admitted c
admit_in half_open o now c = try_probe c
admit_in opened o now c =
    if ltb now (c.opened_at + o.reset_timeout_ms)
    then rejected c
    else try_probe (transition half_open c)

unfoldable pub admit : Options → Millis → CircuitBreaker → Admission
unfolding transition try_probe
admit o now c = admit_in c.state o now c

-- How the action ended: it returned, it threw an error that `isFailure` counts, or another one.
pub data Ending : Type 0 where
  returned failure domain_error : Ending

unfoldable pub on_success : CircuitBreaker → CircuitBreaker
unfolding transition
on_success c = transition closed (record c { consecutive_failures = 0 })

-- `this.state === 'HALF_OPEN' || this.consecutiveFailures >= this.failureThreshold`
abbrev pub trips : Options → CircuitBreaker → Bool
trips o c = same_state c.state half_open || leb o.failure_threshold c.consecutive_failures

unfoldable pub on_failure : Options → Millis → CircuitBreaker → CircuitBreaker
unfolding transition
on_failure o now c =
    let d = record c { consecutive_failures = suc c.consecutive_failures } in
    if trips o d then transition opened (record d { opened_at = now }) else d

abbrev pub on_ending : Ending → Options → Millis → CircuitBreaker → CircuitBreaker
on_ending returned o now c = on_success c
on_ending failure o now c = on_failure o now c
on_ending domain_error o now c = on_success c

-- What follows the action: the second half of `execute`, its `finally` included.
unfoldable pub settle : Options → Millis → Ending → CircuitBreaker → CircuitBreaker
unfolding on_success on_failure
settle o now e c = record (on_ending e o now c) { probe_in_flight = false }

-- `execute`, where no other call comes between: whether the action ran, and what is left.
abbrev pub finish : Options → Millis → Ending → Admission → Bool × CircuitBreaker
finish o now e (admitted c) = (true, settle o now e c)
finish o now e (rejected c) = (false, c)

unfoldable pub execute : Options → Millis → Millis → Ending → CircuitBreaker → Bool × CircuitBreaker
unfolding admit settle
execute o now later e c = finish o later e (admit o now c)

-- One call after another, each with its start, its end and how it ends.
unfoldable pub execute_all :
    Options → List (Millis × Millis × Ending) → CircuitBreaker → CircuitBreaker
unfolding execute
execute_all o [] c = c
execute_all o ((now, later, e) ∷ calls) c = execute_all o calls (execute o now later e c).1
