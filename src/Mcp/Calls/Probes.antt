-- ===== src/Mcp/Calls/Probes.antt =====
-- internal/mcp/proxy.go: what a tool call leaves behind.
use vision_mcp_manager.Base.{
  ℕ, suc, ◌+◌, ◌≤◌, ◌≡◌, ◌∙◌, refl, arith, Bool, true, false, Option, none, some, Option-cases, ap,
  inl, inr, List, [], ◌∷◌, if◌then◌else◌,
}
use vision_mcp_manager.Mcp.Circuit.{CircuitBreaker, open_, half_open}
use vision_mcp_manager.Mcp.Circuit.Behaviour.{probe_of, lets_in, refuses_others}
use vision_mcp_manager.Mcp.Errors.{
  Text, Error, downstream_unavailable, should_record_circuit_failure, is_downstream_closure_error,
}
use vision_mcp_manager.Mcp.Calls.{
  ProxySession, Answers, respawn_downstream, record_forwarding_failure, fails_with, record_outcome,
  call_failed, dispatch, with_downstream, prepare, call_downstream_tool,
}

-- What a call of a session with metrics makes of the counts: a success has been dispatched once,
-- a failure is counted once, and was dispatched at most once.
abbrev pub Accounted : ProxySession → ℕ → ProxySession × Option Error → Type 0
Accounted ps n (ps', none) = (ps'.dispatched ≡ suc ps.dispatched) × (ps'.daemon_metrics ≡ some n)
Accounted ps n (ps', some e) =
    (ps.dispatched ≤ ps'.dispatched)
    × (ps'.dispatched ≤ suc ps.dispatched)
    × (ps'.daemon_metrics ≡ some (suc n))

-- The breaker does not count an error.
abbrev pub Uncounted : (ℕ → Text) → List Text → Error → Type 0
Uncounted duration_text patterns e =
    (is_downstream_closure_error duration_text e ≡ false)
    × (should_record_circuit_failure duration_text patterns e ≡ false)

module _ (duration_text : ℕ → Text) where
  fails_with-Accounted :
      (e : Error) (ps ps' : ProxySession) (n : ℕ)
      → ps.dispatched ≤ ps'.dispatched
      → ps'.dispatched ≤ suc ps.dispatched
      → ps'.daemon_metrics ≡ some n
      → Accounted ps n (fails_with duration_text e ps')
  unfolding fails_with record_forwarding_failure
  fails_with-Accounted e ps ps' n low high h = (low, high, cc h)

  record_outcome-counts :
      (ended : ℕ) (e : Error) (ps : ProxySession)
      → ((record_outcome duration_text ended e ps).dispatched ≡ ps.dispatched)
        × ((record_outcome duration_text ended e ps).daemon_metrics ≡ ps.daemon_metrics)
  unfolding record_outcome
  record_outcome-counts ended e ps = ground arith

  call_failed-Accounted :
      (ended : ℕ) (e : Error) (ps ps' : ProxySession) (n : ℕ)
      → ps'.dispatched ≡ suc ps.dispatched
      → ps'.daemon_metrics ≡ some n
      → Accounted ps n (call_failed duration_text ended e ps')
  unfolding call_failed
  call_failed-Accounted ended e ps ps' n more h =
      let last =
        if is_downstream_closure_error duration_text e then downstream_unavailable else e in
      let counts = record_outcome-counts ended last ps' in
      fails_with-Accounted last ps (record_outcome duration_text ended last ps') n
        (omega (arith, counts.0, more)) (omega (arith, counts.0, more)) (counts.1 ∙ h)

  dispatch-Accounted :
      (a : Answers) (ps ps' : ProxySession) (n : ℕ)
      → ps'.dispatched ≡ ps.dispatched
      → ps'.daemon_metrics ≡ some n
      → Accounted ps n (dispatch duration_text a ps')
  unfolding dispatch
  dispatch-Accounted a ps ps' n same h = elim (Option-cases a.called) [
    | inl none_called ↦ rw none_called (ap suc same, h)
    | inr (e, called) ↦ rw called (
        call_failed-Accounted a.ended e ps (record ps' { dispatched = suc ps'.dispatched }) n
          (ap suc same) h)
  ]

  fails_with-breaker :
      (e : Error) (ps : ProxySession)
      → (fails_with duration_text e ps).0.circuit_breaker ≡ ps.circuit_breaker
  unfolding fails_with record_forwarding_failure
  fails_with-breaker e ps = refl

  dispatch-breaker :
      (a : Answers) (e : Error) (ps : ProxySession)
      → a.called ≡ some e
      → Uncounted duration_text ps.retryable_errors e
      → (dispatch duration_text a ps).0.circuit_breaker ≡ ps.circuit_breaker
  unfolding dispatch call_failed record_outcome fails_with record_forwarding_failure
  dispatch-breaker a e ps called (open_end, uncounted) = rw (called, open_end, uncounted) refl

  with_downstream-breaker :
      (a : Answers) (e : Error) (found : Bool × Bool) (ps : ProxySession)
      → a.called ≡ some e
      → Uncounted duration_text ps.retryable_errors e
      → (with_downstream duration_text a found ps).0.circuit_breaker ≡ ps.circuit_breaker
  unfolding with_downstream respawn_downstream
  with_downstream-breaker a e found ps called uncounted = ground (
    arith,
    called,
    uncounted,
    dispatch-breaker a e ps called uncounted,
    dispatch-breaker a e (respawn_downstream a ps).0 called,
    fails_with-breaker downstream_unavailable ps,
    fails_with-breaker downstream_unavailable (respawn_downstream a ps).0,
  )

  prepare-breaker :
      (a : Answers) (e : Error) (ps : ProxySession)
      → a.called ≡ some e
      → Uncounted duration_text ps.retryable_errors e
      → (prepare duration_text a ps).0.circuit_breaker ≡ ps.circuit_breaker
  unfolding prepare
  prepare-breaker a e ps called uncounted =
      grind (arith, fails_with-breaker, with_downstream-breaker a e _ ps called uncounted)

  with_downstream-Accounted :
      (a : Answers) (found : Bool × Bool) (ps : ProxySession) (n : ℕ)
      → ps.daemon_metrics ≡ some n
      → Accounted ps n (with_downstream duration_text a found ps)
  unfolding with_downstream respawn_downstream
  with_downstream-Accounted a found ps n h = grind (arith, fails_with-Accounted, dispatch-Accounted)

  prepare-Accounted :
      (a : Answers) (ps : ProxySession) (n : ℕ)
      → ps.daemon_metrics ≡ some n
      → Accounted ps n (prepare duration_text a ps)
  unfolding prepare
  prepare-Accounted a ps n h = grind (arith, fails_with-Accounted, with_downstream-Accounted)

  -- Every tool call is forwarded at most once and accounted for: a call that succeeds was
  -- dispatched exactly once and counts no failure, one that fails was dispatched at most once and
  -- counts exactly one, whatever the breaker, the limiter, the manager and the backend answered. The
  -- session has metrics.
  pub forwarded_once :
      (a : Answers) (ps : ProxySession) (n : ℕ)
      → ps.daemon_metrics ≡ some n
      → Accounted ps n (call_downstream_tool duration_text a ps)
  unfolding call_downstream_tool
  forwarded_once a ps n h = grind (arith, fails_with-Accounted, prepare-Accounted)

  -- Tool calls, one after the other.
  unfoldable pub calls : List Answers → ProxySession → ProxySession
  calls [] ps = ps
  calls (a ∷ later) ps = calls later (call_downstream_tool duration_text a ps).0

  refuses :
      (a : Answers) (cb : CircuitBreaker) (ps : ProxySession)
      → ps.circuit_breaker ≡ some cb
      → cb.status ≡ half_open
      → cb.probe_in_fly ≡ true
      → ((call_downstream_tool duration_text a ps).0.dispatched ≡ ps.dispatched)
        × ((call_downstream_tool duration_text a ps).0.circuit_breaker ≡ some cb)
  unfolding call_downstream_tool fails_with record_forwarding_failure
  refuses a cb ps same half out = rw (same, refuses_others cb a.began half out) (refl, refl)

  refuses_all :
      (later : List Answers) (cb : CircuitBreaker) (ps : ProxySession)
      → ps.circuit_breaker ≡ some cb
      → cb.status ≡ half_open
      → cb.probe_in_fly ≡ true
      → (calls later ps).dispatched ≡ ps.dispatched
  unfolding calls
  refuses_all [] cb ps same half out = refl
  refuses_all (a ∷ later) cb ps same half out =
      let (kept, breaker) = refuses a cb ps same half out in
      refuses_all later cb (call_downstream_tool duration_text a ps).0 breaker half out ∙ kept

  prepares :
      (a : Answers) (cb : CircuitBreaker) (ps : ProxySession)
      → ps.circuit_breaker ≡ some cb
      → cb.status ≡ open_
      → cb.opened_at + cb.recovery_timeout ≤ a.began
      → call_downstream_tool duration_text a ps
        ≡ prepare duration_text a (record ps { circuit_breaker = some (probe_of cb) })
  unfolding call_downstream_tool
  prepares a cb ps same is_open late = rw (same, lets_in cb a.began is_open late) refl

  -- The outcome of a probe can be lost. When an open breaker's recovery time is over and the call
  -- that it then lets through ends with an error that the breaker does not count (a cancellation,
  -- or a text that no pattern matches) or ends before it is dispatched, the breaker stays half-open
  -- with its probe out: no later call, however many there are and whenever they come, is dispatched.
  pub lost_probe :
      (a : Answers) (e : Error) (later : List Answers) (cb : CircuitBreaker) (ps : ProxySession)
      → ps.circuit_breaker ≡ some cb
      → cb.status ≡ open_
      → cb.opened_at + cb.recovery_timeout ≤ a.began
      → a.called ≡ some e
      → Uncounted duration_text ps.retryable_errors e
      → (calls later (call_downstream_tool duration_text a ps).0).dispatched
        ≡ (call_downstream_tool duration_text a ps).0.dispatched
  lost_probe a e later cb ps same is_open late called uncounted =
      let probing : ProxySession = record ps { circuit_breaker = some (probe_of cb) } in
      let called_in = prepares a cb ps same is_open late in
      refuses_all later (probe_of cb) (call_downstream_tool duration_text a ps).0
        (rw called_in (prepare-breaker a e probing called uncounted)) refl refl
