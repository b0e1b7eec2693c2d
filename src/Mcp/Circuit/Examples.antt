-- ===== src/Mcp/Circuit/Examples.antt =====
-- internal/mcp/resilience.go: the theorems at a breaker with a threshold of two.
use vision_mcp_manager.Base.{
  ℕ, ◌+◌, ◌≤◌, ◌<◌, ◌≡◌, refl, arith, true, false, some, List, [], ◌∷◌, if◌then◌else◌, ltb, length,
}
use vision_mcp_manager.Mcp.Circuit.{
  CircuitBreaker, closed, open_, allow, record_success, record_failure, state,
}
use vision_mcp_manager.Mcp.Circuit.Behaviour.{
  run, failing, trips_at_threshold, asking, single_probe,
}

abbrev breaker : CircuitBreaker
breaker = record {
  status = open_;
  failures = 2;
  opened_at = 100;
  probe_in_fly = false;
  failure_threshold = 2;
  recovery_timeout = 50;
}

abbrev failure_times : List ℕ
failure_times = 200 ∷ 210 ∷ []

trips_at_threshold_example :
    state (run (record_success (some breaker)) (failing failure_times))
    ≡ (if ltb (length failure_times) 2 then closed else open_)
trips_at_threshold_example = trips_at_threshold breaker failure_times (omega arith)

single_probe_example :
    (160 < 150 → allow 160 (some breaker) ≡ (some breaker, false))
    × (150 ≤ 160
        → let waiting = run (allow 160 (some breaker)).0 (asking (161 ∷ 162 ∷ [])) in
          ((allow 160 (some breaker)).1 ≡ true)
          × ((allow 170 waiting).1 ≡ false)
          × (170 < 165 + 50 → (allow 170 (record_failure 165 waiting)).1 ≡ false)
          × ((allow 170 (run (record_success waiting) (asking (161 ∷ 162 ∷ [])))).1 ≡ true))
single_probe_example = single_probe breaker 160 165 170 (161 ∷ 162 ∷ []) refl
