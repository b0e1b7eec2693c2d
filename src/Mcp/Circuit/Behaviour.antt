-- ===== src/Mcp/Circuit/Behaviour.antt =====
-- internal/mcp/resilience.go: when the circuit breaker opens, and whom it lets through.
use vision_mcp_manager.Base.{
  ℕ, suc, ◌+◌, ◌≤◌, ◌<◌, ◌≡◌, ◌≢◌, ◌↔◌, refl, inl, inr, arith, true, false, Option, none, some,
  List, [], ◌∷◌, length, if◌then◌else◌, ltb, Bool-cases,
}
use vision_mcp_manager.Mcp.Circuit.{
  CircuitBreaker, CircuitState, closed, open_, half_open, new_circuit_breaker, allow, allow_in,
  record_success, record_failure, state, retry_in,
}

pub data Event : Type 0 where
  asks : ℕ → Event
  succeeds : Event
  fails : ℕ → Event

unfoldable pub step : Event → Option CircuitBreaker → Option CircuitBreaker
step (asks now) cb = (allow now cb).0
step succeeds cb = record_success cb
step (fails now) cb = record_failure now cb

unfoldable pub run : Option CircuitBreaker → List Event → Option CircuitBreaker
run cb [] = cb
run cb (e ∷ es) = run (step e cb) es

-- A closed breaker has seen fewer failures in a row than its threshold, which is positive, and no
-- probe is out unless the breaker is half-open; while it is half-open one is.
pub record Inv (cb : CircuitBreaker) : Type 0 where
  pub positive : 0 < cb.failure_threshold
  pub below_threshold : cb.status ≡ closed → cb.failures < cb.failure_threshold
  pub probe_out : (cb.status ≡ half_open) → cb.probe_in_fly ≡ true
  pub no_probe : (cb.status ≢ half_open) → cb.probe_in_fly ≡ false

abbrev pub InvOf : Option CircuitBreaker → Type 0
InvOf none = Unit {0}
InvOf (some cb) = Inv cb

new-Inv : (threshold timeout : ℕ) → Inv (new_circuit_breaker threshold timeout)
unfolding new_circuit_breaker
new-Inv threshold timeout = ground arith

allow_in-Inv :
    (status : CircuitState) (now : ℕ) (cb : CircuitBreaker)
    → cb.status ≡ status
    → Inv cb
    → Inv (allow_in status now cb).0
unfolding allow_in
allow_in-Inv closed now cb e v = v
allow_in-Inv open_ now cb e v = ground arith
allow_in-Inv half_open now cb e v = ground arith

-- Every event keeps the invariant.
pub step-InvOf : (e : Event) (cb : Option CircuitBreaker) → InvOf cb → InvOf (step e cb)
unfolding step allow record_success record_failure
step-InvOf (asks now) none v = tt
step-InvOf (asks now) (some cb) v = allow_in-Inv cb.status now cb refl v
step-InvOf succeeds none v = tt
step-InvOf succeeds (some cb) v = ground arith
step-InvOf (fails now) none v = tt
step-InvOf (fails now) (some cb) v = ground arith

run-InvOf : (cb : Option CircuitBreaker) (es : List Event) → InvOf cb → InvOf (run cb es)
unfolding run
run-InvOf cb [] v = v
run-InvOf cb (e ∷ es) v = run-InvOf (step e cb) es (step-InvOf e cb v)

-- The breaker's invariant holds after every history of a breaker with any configuration: the
-- threshold is positive, a closed breaker is below it, and a probe is out exactly in `half-open`.
pub run-new-InvOf :
    (threshold timeout : ℕ) (es : List Event)
    → InvOf (run (some (new_circuit_breaker threshold timeout)) es)
run-new-InvOf threshold timeout es = run-InvOf _ es (new-Inv threshold timeout)

-- Failures at the given times, one after the other.
abbrev pub failing : List ℕ → List Event
failing [] = []
failing (t ∷ ts) = fails t ∷ failing ts

abbrev tripped : ℕ → CircuitBreaker → CircuitBreaker
tripped t cb = record cb {
  failures = suc cb.failures;
  probe_in_fly = false;
  status = open_;
  opened_at = t;
}

abbrev counted : CircuitBreaker → CircuitBreaker
counted cb = record cb { failures = suc cb.failures; probe_in_fly = false }

fails-tripped :
    (t : ℕ) (cb : CircuitBreaker)
    → cb.status ≢ half_open
    → cb.failure_threshold ≤ suc cb.failures
    → step (fails t) (some cb) ≡ some (tripped t cb)
unfolding step record_failure
fails-tripped t cb h k = ground arith

fails-counted :
    (t : ℕ) (cb : CircuitBreaker)
    → cb.status ≢ half_open
    → suc cb.failures < cb.failure_threshold
    → step (fails t) (some cb) ≡ some (counted cb)
unfolding step record_failure
fails-counted t cb h k = ground arith

failing-open :
    (cb : CircuitBreaker) (ts : List ℕ)
    → cb.status ≡ open_
    → cb.failure_threshold ≤ cb.failures
    → state (run (some cb) (failing ts)) ≡ open_
unfolding run state
failing-open cb [] e h = e
failing-open cb (t ∷ ts) e h =
    rw (run, fails-tripped t cb (ground (arith, e)) (omega arith))
      (failing-open (tripped t cb) ts refl (omega arith))

failing-state :
    (cb : CircuitBreaker) (ts : List ℕ)
    → cb.status ≡ closed
    → cb.failures < cb.failure_threshold
    → state (run (some cb) (failing ts))
      ≡ (if ltb (cb.failures + length ts) cb.failure_threshold then closed else open_)
unfolding run state
failing-state cb [] e h = ground (arith, e)
failing-state cb (t ∷ ts) e h = elim (Bool-cases (ltb (suc cb.failures) cb.failure_threshold)) [
  | inl below ↦
      rw (run, fails-counted t cb (ground (arith, e)) (ground (arith, below)))
        (ground (arith, failing-state (counted cb) ts e (ground (arith, below))))
  | inr not_below ↦
      rw (run, fails-tripped t cb (ground (arith, e)) (ground (arith, not_below)))
        (ground (arith, failing-open (tripped t cb) ts refl (ground (arith, not_below)), not_below))
]

-- The breaker trips at its threshold and not before: after a success, whatever the breaker's state
-- was, failures that follow one another leave it closed exactly as long as they are fewer than the
-- threshold, and open from then on.
pub trips_at_threshold :
    (cb : CircuitBreaker) (ts : List ℕ)
    → 0 < cb.failure_threshold
    → state (run (record_success (some cb)) (failing ts))
      ≡ (if ltb (length ts) cb.failure_threshold then closed else open_)
unfolding record_success
trips_at_threshold cb ts h = ground (
  arith,
  failing-state (record cb { status = closed; failures = 0; probe_in_fly = false; opened_at = 0 })
      ts refl h,
)

-- Requests at the given times, one after the other.
abbrev pub asking : List ℕ → List Event
asking [] = []
asking (t ∷ ts) = asks t ∷ asking ts

probing-stays :
    (cb : CircuitBreaker) (ts : List ℕ)
    → cb.status ≡ half_open
    → cb.probe_in_fly ≡ true
    → run (some cb) (asking ts) ≡ some cb
unfolding run
probing-stays cb [] e h = refl
probing-stays cb (t ∷ ts) e h =
    let same : step (asks t) (some cb) ≡ some cb = unfold step allow in ground (arith, e, h) in
    rw (run, same) (probing-stays cb ts e h)

closed-stays :
    (cb : CircuitBreaker) (ts : List ℕ) → cb.status ≡ closed → run (some cb) (asking ts) ≡ some cb
unfolding run
closed-stays cb [] e = refl
closed-stays cb (t ∷ ts) e =
    let same : step (asks t) (some cb) ≡ some cb = unfold step allow in ground (arith, e) in
    rw (run, same) (closed-stays cb ts e)

pub refuses_others :
    (cb : CircuitBreaker) (now : ℕ)
    → cb.status ≡ half_open
    → cb.probe_in_fly ≡ true
    → allow now (some cb) ≡ (some cb, false)
unfolding allow
refuses_others cb now half out = ground (arith, half, out)

abbrev pub probe_of : CircuitBreaker → CircuitBreaker
probe_of cb = record cb { status = half_open; probe_in_fly = true }

pub lets_in :
    (cb : CircuitBreaker) (now : ℕ)
    → cb.status ≡ open_
    → cb.opened_at + cb.recovery_timeout ≤ now
    → allow now (some cb) ≡ (some (probe_of cb), true)
unfolding allow
lets_in cb now e late = ground (arith, e, late)

-- One probe at a time. An open breaker refuses every request before the recovery time, unchanged;
-- from then on it lets one request through. Until the outcome of some call is recorded, be it of
-- that one or of one that was let through before the breaker opened, it refuses all others, however
-- many there are and whenever they come. An outcome that is a failure opens it for another recovery
-- time, in which it refuses, and a success lets all requests through again.
pub single_probe :
    (cb : CircuitBreaker) (now failed later : ℕ) (ts : List ℕ)
    → cb.status ≡ open_
    → (now < cb.opened_at + cb.recovery_timeout → allow now (some cb) ≡ (some cb, false))
      × (cb.opened_at + cb.recovery_timeout ≤ now
          → let waiting = run (allow now (some cb)).0 (asking ts) in
            ((allow now (some cb)).1 ≡ true)
            × ((allow later waiting).1 ≡ false)
            × (later < failed + cb.recovery_timeout
                → (allow later (record_failure failed waiting)).1 ≡ false)
            × ((allow later (run (record_success waiting) (asking ts))).1 ≡ true))
single_probe cb now failed later ts e =
    let probing = probe_of cb in
    let reset : CircuitBreaker = record cb {
      status = closed;
      failures = 0;
      probe_in_fly = false;
      opened_at = 0;
    } in
    (
      λ early. unfold allow in ground (arith, e, early),
      λ late. (
        unfold allow in ground (arith, e, late),
        rw (lets_in cb now e late, probing-stays probing ts refl refl) (unfold allow in refl),
        λ soon.
            rw (lets_in cb now e late, probing-stays probing ts refl refl)
              (unfold allow record_failure in ground (arith, soon)),
        rw (lets_in cb now e late, probing-stays probing ts refl refl)
            (unfold record_success in rw (closed-stays reset ts refl) (unfold allow in refl)),
      ),
    )

-- `retryIn` tells the truth: an open breaker lets a request at the time `t` through exactly if `t`
-- is not before the time of the answer plus the answer.
pub retry_in_exact :
    (cb : CircuitBreaker) (now t : ℕ)
    → cb.status ≡ open_
    → now ≤ t
    → ((allow t (some cb)).1 ≡ true) ↔ (now + retry_in now (some cb) ≤ t)
unfolding allow retry_in
retry_in_exact cb now t e h = ground (arith, e)
