-- ===== src/Breaker/Calls.antt =====
-- Calls that start and end in any order.
use onion_architecture.Base.{ℕ, suc, ◌<◌, ◌≡◌, ◌↔◌, true, arith}
use onion_architecture.Domain.{Millis}
use onion_architecture.Breaker.{
  closed, Options, CircuitBreaker, same_state, transition, Admission, admitted, rejected, try_probe,
  admit, Ending, returned, failure, domain_error, on_success, on_failure, settle, new_breaker,
}

-- The breaker and the number of calls that have not ended.
pub data Calls (o : Options) : CircuitBreaker → ℕ → Type 0 where
  none_yet : Calls o new_breaker 0
  begin :
      (now : Millis) {c d : CircuitBreaker} {n : ℕ}
      → Calls o c n
      → admit o now c ≡ admitted d
      → Calls o d (suc n)
  refuse :
      (now : Millis) {c d : CircuitBreaker} {n : ℕ}
      → Calls o c n
      → admit o now c ≡ rejected d
      → Calls o d n
  ended :
      (now : Millis) (e : Ending) {c : CircuitBreaker} {n : ℕ}
      → Calls o c (suc n)
      → Calls o (settle o now e c) n

-- The circuit is closed just while fewer failures in a row were counted than the threshold.
abbrev pub IsCounted : Options → CircuitBreaker → Type 0
IsCounted o c = (same_state c.state closed ≡ true) ↔ (c.consecutive_failures < o.failure_threshold)

pub settle-IsCounted :
    (o : Options) (now : Millis) (e : Ending) (c : CircuitBreaker)
    → 0 < o.failure_threshold
    → IsCounted o c
    → IsCounted o (settle o now e c)
unfolding settle on_success on_failure transition
settle-IsCounted o now returned c p h = ground arith
settle-IsCounted o now domain_error c p h = ground arith
settle-IsCounted o now failure c p h = ground arith

abbrev pub left : Admission → CircuitBreaker
left (admitted c) = c
left (rejected c) = c

admit-IsCounted :
    (o : Options) (now : Millis) (c : CircuitBreaker)
    → IsCounted o c
    → IsCounted o (left (admit o now c))
unfolding admit transition try_probe
admit-IsCounted o now c h = ground arith

-- With a positive threshold, in whatever order calls begin, are refused and end, the circuit is
-- closed exactly while fewer failures in a row have been counted than the threshold.
pub Calls-IsCounted :
    (o : Options) {c : CircuitBreaker} {n : ℕ}
    → 0 < o.failure_threshold
    → Calls o c n
    → IsCounted o c
Calls-IsCounted o p none_yet = ground arith
Calls-IsCounted o p (begin now {c = c} r e) =
    rw e at (admit-IsCounted o now c (Calls-IsCounted o p r))
Calls-IsCounted o p (refuse now {c = c} r e) =
    rw e at (admit-IsCounted o now c (Calls-IsCounted o p r))
Calls-IsCounted o p (ended now e {c = c} r) = settle-IsCounted o now e c p (Calls-IsCounted o p r)
