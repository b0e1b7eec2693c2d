-- ===== src/Mcp/Calls/Examples.antt =====
-- internal/mcp/proxy.go: the theorems at concrete calls.
use vision_mcp_manager.Base.{ℕ, ◌≡◌, refl, arith, true, false, Option, none, some, [], ◌∷◌}
use vision_mcp_manager.Mcp.Circuit.{CircuitBreaker, open_}
use vision_mcp_manager.Mcp.Errors.{Text, codes, Error, canceled}
use vision_mcp_manager.Mcp.Calls.{ProxySession, Answers, call_downstream_tool}
use vision_mcp_manager.Mcp.Errors.Classes.{canceled_counts_not}
use vision_mcp_manager.Mcp.Calls.Probes.{Accounted, Uncounted, forwarded_once, calls, lost_probe}

abbrev duration_text : ℕ → Text
duration_text n = codes "1s"

abbrev open_breaker : CircuitBreaker
open_breaker = record {
  status = open_;
  failures = 2;
  opened_at = 100;
  probe_in_fly = false;
  failure_threshold = 2;
  recovery_timeout = 50;
}

abbrev session : ProxySession
session = record {
  server_name = codes "search";
  circuit_breaker = some open_breaker;
  retryable_errors = codes "Timeout" ∷ [];
  shared = false;
  has_shared_manager = false;
  downstream_closed = true;
  downstream = false;
  daemon_metrics = some 3;
  dispatched = 7;
}

abbrev answering : ℕ → Option Error → Answers
answering now called = record {
  began = now;
  acquired = none;
  shared_downstream = false;
  created = none;
  respawned = none;
  called = called;
  ended = now;
}

forwarded_once_example :
    Accounted session 3 (call_downstream_tool duration_text (answering 160 none) session)
forwarded_once_example = forwarded_once duration_text (answering 160 none) session 3 refl

-- The client cancels the call that is the probe.
canceled-Uncounted : Uncounted duration_text session.retryable_errors canceled
canceled-Uncounted = canceled_counts_not duration_text session.retryable_errors

lost_probe_example :
    (calls duration_text
      (answering 170 none ∷ answering 100000 none ∷ [])
      (call_downstream_tool duration_text (answering 160 (some canceled)) session).0).dispatched
    ≡ (call_downstream_tool duration_text (answering 160 (some canceled)) session).0.dispatched
lost_probe_example =
    lost_probe duration_text (answering 160 (some canceled)) canceled
      (answering 170 none ∷ answering 100000 none ∷ []) open_breaker session refl refl (omega arith)
      refl canceled-Uncounted
