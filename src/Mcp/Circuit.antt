-- ===== src/Mcp/Circuit.antt =====
-- internal/mcp/resilience.go: the circuit breaker, the retry backoff and the request time budget.
-- Times and durations are nanoseconds; a limit or duration that is not positive is 0. A nil breaker
-- is `none`.
pub mod Behaviour
pub mod Budget
mod Examples
use vision_mcp_manager.Base.{
  ℕ, zero, suc, ◌+◌, ◌-◌, ◌*◌, ◌%◌, Bool, true, false, not, ◌&&◌, ◌||◌, Option, none, some, ltb,
  leb, nat_beq, if◌then◌else◌, ℤ, pos, negsuc, sub_ℕ,
}

pub data CircuitState : Type 0 where
  closed open_ half_open : CircuitState

abbrev pub is_half_open : CircuitState → Bool
is_half_open half_open = true
is_half_open _ = false

pub record CircuitBreaker : Type 0 where
  pub status : CircuitState
  pub failures : ℕ
  pub opened_at : ℕ
  pub probe_in_fly : Bool
  pub failure_threshold : ℕ
  pub recovery_timeout : ℕ

pub new_circuit_breaker : ℕ → ℕ → CircuitBreaker
new_circuit_breaker threshold timeout = record {
  status = closed;
  failures = 0;
  opened_at = 0;
  probe_in_fly = false;
  failure_threshold = if leb threshold 0 then 5 else threshold;
  recovery_timeout = if leb timeout 0 then 60000000000 else timeout;
}

-- The `switch` of `allow`; `now.Sub(openedAt) < timeout` is `now < openedAt + timeout`.
pub allow_in : CircuitState → ℕ → CircuitBreaker → CircuitBreaker × Bool
allow_in closed now cb = (cb, true)
allow_in open_ now cb =
    if ltb now (cb.opened_at + cb.recovery_timeout)
    then (cb, false)
    else (record cb { status = half_open; probe_in_fly = true }, true)
allow_in half_open now cb =
    if cb.probe_in_fly then (cb, false) else (record cb { probe_in_fly = true }, true)

pub allow : ℕ → Option CircuitBreaker → Option CircuitBreaker × Bool
unfolding allow_in
allow now none = (none, true)
allow now (some cb) = let (cb', admitted) = allow_in cb.status now cb in (some cb', admitted)

pub record_success : Option CircuitBreaker → Option CircuitBreaker
record_success none = none
record_success (some cb) =
    some (record cb { status = closed; failures = 0; probe_in_fly = false; opened_at = 0 })

pub record_failure : ℕ → Option CircuitBreaker → Option CircuitBreaker
record_failure now none = none
record_failure now (some cb) =
    if is_half_open cb.status
    then some (record cb {
      status = open_;
      probe_in_fly = false;
      failures = cb.failure_threshold;
      opened_at = now;
    })
    else let cb' = record cb { failures = suc cb.failures; probe_in_fly = false } in
      some (
        if leb cb'.failure_threshold cb'.failures
        then record cb' { status = open_; opened_at = now }
        else cb')

pub state : Option CircuitBreaker → CircuitState
state none = closed
state (some cb) = cb.status

abbrev pub is_open : CircuitState → Bool
is_open open_ = true
is_open _ = false

-- `recoveryTimeout - now.Sub(openedAt)`, or 0 if that is negative.
pub retry_in : ℕ → Option CircuitBreaker → ℕ
retry_in now none = 0
retry_in now (some cb) =
    if not (is_open cb.status) then 0 else cb.opened_at + cb.recovery_timeout - now

-- int64 values as bit patterns.
abbrev pub int64_min : ℕ
int64_min = 9223372036854775808

abbrev pub double64 : ℕ → ℕ
double64 d = 2 * d % 18446744073709551616

-- `d >= e` of a pattern and a non-negative number.
abbrev pub at_least64 : ℕ → ℕ → Bool
at_least64 d e = ltb d int64_min && leb e d

-- The loop of `computeBackoffDelay` by the rounds that are left.
pub backoff_rounds : ℕ → ℕ → ℕ → ℕ
backoff_rounds zero delay max_delay =
    if ltb 0 max_delay && (at_least64 delay max_delay && not (nat_beq delay max_delay))
    then max_delay
    else delay
backoff_rounds (suc n) delay max_delay =
    let rest = backoff_rounds n (double64 delay) max_delay in
    if ltb 0 max_delay && at_least64 (double64 delay) max_delay then max_delay else rest

pub compute_backoff_delay : ℕ → ℕ → ℕ → ℕ
unfolding backoff_rounds
compute_backoff_delay attempt initial_delay max_delay =
    if leb attempt 1
    then initial_delay
    else if leb initial_delay 0
    then 0
    else backoff_rounds (attempt - 1) initial_delay max_delay

abbrev pub is_positive : ℤ → Bool
is_positive (pos n) = ltb 0 n
is_positive (negsuc n) = false

-- `remaining < fallback`, of a positive remaining time.
abbrev pub below : ℤ → ℕ → Bool
below (pos n) fallback = ltb n fallback
below (negsuc n) fallback = true

-- `deadline` is the context's.
pub effective_request_timeout : ℕ → Option ℕ → ℕ → ℤ
effective_request_timeout now none fallback = pos fallback
effective_request_timeout now (some deadline) fallback =
    let remaining = sub_ℕ deadline now in
    if not (is_positive remaining)
    then remaining
    else if leb fallback 0 || below remaining fallback
    then remaining
    else pos fallback

abbrev pub magnitude : ℤ → ℕ
magnitude (pos n) = n
magnitude (negsuc n) = 0

-- `context.WithTimeout` keeps a parent's earlier deadline.
abbrev pub with_timeout : ℕ → Option ℕ → ℕ → Option ℕ
with_timeout now none timeout = some (now + timeout)
with_timeout now (some deadline) timeout =
    some (if ltb deadline (now + timeout) then deadline else now + timeout)

-- The deadline of the context that the call makes.
pub with_request_timeout_budget : ℕ → Option ℕ → ℕ → Option ℕ
unfolding effective_request_timeout
with_request_timeout_budget now deadline fallback =
    let timeout = effective_request_timeout now deadline fallback in
    if is_positive timeout then with_timeout now deadline (magnitude timeout) else deadline
