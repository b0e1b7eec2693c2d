-- ===== src/Mcp/Calls.antt =====
-- internal/mcp/proxy.go: `callDownstreamTool`, which passes a tool call on to the backend, with the
-- circuit breaker around it. What the manager, the backend and the context answer is `Answers`.
pub mod Probes
mod Examples
use vision_mcp_manager.Base.{
  ℕ, suc, Bool, true, false, not, ◌&&◌, ◌||◌, Option, none, some, Result, ok, err, List,
  if◌then◌else◌,
}
use vision_mcp_manager.Mcp.Circuit.{CircuitBreaker, allow, record_success, record_failure, retry_in}
use vision_mcp_manager.Mcp.Errors.{
  Text, Error, circuit_open, downstream_unavailable, classify_tool_call_error,
  should_record_circuit_failure, is_downstream_closure_error,
}

-- `daemon_metrics` is the count of failures, if there are metrics, and `dispatched` that of the calls
-- of `CallTool`.
pub record ProxySession : Type 0 where
  pub server_name : Text
  pub circuit_breaker : Option CircuitBreaker
  pub retryable_errors : List Text
  pub shared : Bool
  pub has_shared_manager : Bool
  pub downstream_closed : Bool
  pub downstream : Bool
  pub daemon_metrics : Option ℕ
  pub dispatched : ℕ

-- `began` and `ended` are the times of the first and the last section of the breaker.
-- `acquired` and `created` are the errors of the limiter and of the shared manager, which has a
-- downstream already if `shared_downstream`; `respawned` is that of a respawn, and `called` that of
-- `CallTool`.
pub record Answers : Type 0 where
  pub began : ℕ
  pub acquired : Option Error
  pub shared_downstream : Bool
  pub created : Option Error
  pub respawned : Option Error
  pub called : Option Error
  pub ended : ℕ

-- Whether there is a downstream, and whether it is closed.
pub get_downstream : Answers → ProxySession → Result Error (Bool × Bool)
get_downstream a ps =
    if ps.shared && ps.has_shared_manager
    then if ps.downstream_closed
      then ok (false, true)
      else if a.shared_downstream
      then ok (true, false)
      else elim a.created [ some e ↦ err e | none ↦ ok (true, false) ]
    else ok (ps.downstream, ps.downstream_closed)

-- With the check for a respawn by another caller, and the publication at the end.
pub respawn_downstream : Answers → ProxySession → ProxySession × Option Error
respawn_downstream a ps =
    if not ps.downstream_closed && ps.downstream then (ps, none) else elim a.respawned [
      | some e ↦ (ps, some e)
      | none ↦ (record ps { downstream_closed = false; downstream = true }, none)
    ]

pub record_forwarding_failure : Error → ProxySession → ProxySession × Option Error
record_forwarding_failure e ps = (
  record ps { daemon_metrics = elim ps.daemon_metrics [ none ↦ none | some n ↦ some (suc n) ] },
  some e,
)

module _ (duration_text : ℕ → Text) where
  -- The return of an error.
  pub fails_with : Error → ProxySession → ProxySession × Option Error
  unfolding record_forwarding_failure
  fails_with e ps =
      record_forwarding_failure (classify_tool_call_error duration_text false ps.retryable_errors e)
        ps

  pub record_outcome : (ended : ℕ) → Error → ProxySession → ProxySession
  record_outcome ended last_error ps =
      if should_record_circuit_failure duration_text ps.retryable_errors last_error
      then record ps { circuit_breaker = record_failure ended ps.circuit_breaker }
      else ps

  -- The end of a call whose `CallTool` failed.
  pub call_failed : (ended : ℕ) → Error → ProxySession → ProxySession × Option Error
  unfolding fails_with record_outcome
  call_failed ended call_error ps =
      let last_error =
        if is_downstream_closure_error duration_text call_error
        then downstream_unavailable
        else call_error in
      fails_with last_error (record_outcome ended last_error ps)

  pub dispatch : Answers → ProxySession → ProxySession × Option Error
  unfolding call_failed
  dispatch a ps =
      let ps' = record ps { dispatched = suc ps.dispatched } in
      elim a.called [
        | none ↦ (record ps' { circuit_breaker = record_success ps'.circuit_breaker }, none)
        | some e ↦ call_failed a.ended e ps'
      ]

  -- A downstream that is missing or closed is spawned again, unless it is shared.
  pub with_downstream : Answers → Bool × Bool → ProxySession → ProxySession × Option Error
  unfolding fails_with respawn_downstream dispatch
  with_downstream a (present, closed) ps =
      let (ps', failed) = respawn_downstream a ps in
      if closed || not present
      then if ps.shared
        then fails_with downstream_unavailable ps
        else elim failed [ some e ↦ fails_with downstream_unavailable ps' | none ↦ dispatch a ps' ]
      else dispatch a ps

  pub prepare : Answers → ProxySession → ProxySession × Option Error
  unfolding fails_with get_downstream with_downstream
  prepare a ps = elim a.acquired [
    | some e ↦ fails_with e ps
    | none ↦ elim (get_downstream a ps) [
      | err e ↦ fails_with e ps
      | ok found ↦ with_downstream a found ps
    ]
  ]

  -- The result is the error, if there is one.
  pub call_downstream_tool : Answers → ProxySession → ProxySession × Option Error
  unfolding fails_with prepare
  call_downstream_tool a ps =
      let (cb, admitted) = allow a.began ps.circuit_breaker in
      let ps' = record ps { circuit_breaker = cb } in
      if admitted
      then prepare a ps'
      else fails_with (circuit_open ps.server_name (retry_in a.began cb)) ps'
