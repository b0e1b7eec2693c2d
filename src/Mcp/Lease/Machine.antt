-- ===== src/Mcp/Lease/Machine.antt =====
-- internal/mcp/lease.go: a call of the manager as a value, and histories of calls. The mutex makes
-- each call atomic, so an interleaving of callers is a sequence of calls.
use vision_mcp_manager.Base.{ℕ, String, Bool, List, [], ◌∷◌}
use vision_mcp_manager.Mcp.Lease.{
  LeaseManager, Guard, reserve, commit, release_reservation, begin_request, complete, begin_sse,
  end_sse, try_begin_expiry, mark_cleanup_uncertain, restore_active,
}
use vision_mcp_manager.Mcp.Lease.History.{finalize_close, invalidate_all}
use vision_mcp_manager.Mcp.Lease.Sweep.{expire_eligible, expire_cleanup_uncertain}

pub data Call : Type 0 where
  reserves expires_eligible expires_uncertain : Call
  commits : ℕ → String → Call
  releases : ℕ → Call
  begins : String → Bool → Call
  completes : Guard → Call
  begins_sse ends_sse restores finalizes : String → Call
  tries_expiry marks_uncertain : String → String → Call
  invalidates : List String → Call

module _ (digest : String → String) where
  -- The state after one call at the time `now`.
  unfoldable pub step : ℕ → Call → LeaseManager → LeaseManager
  step now reserves m = (reserve m).0
  step now (commits token sid) m = (commit digest token sid now m).0
  step now (releases token) m = release_reservation token m
  step now (begins sid application) m = (begin_request sid application now m).0
  step now (completes g) m = (complete g now m).0
  step now (begins_sse sid) m = (begin_sse sid m).0
  step now (ends_sse sid) m = end_sse sid now m
  step now expires_eligible m = (expire_eligible now m).0
  step now (tries_expiry sid reason) m = (try_begin_expiry sid reason m).0
  step now (marks_uncertain sid reason) m = (mark_cleanup_uncertain sid reason now m).0
  step now (restores sid) m = (restore_active sid m).0
  step now (finalizes sid) m = (finalize_close sid now m).0
  step now (invalidates reasons) m = (invalidate_all reasons now m).0
  step now expires_uncertain m = (expire_cleanup_uncertain now m).0

  unfoldable pub run : LeaseManager → List (ℕ × Call) → LeaseManager
  run m [] = m
  run m ((now, c) ∷ cs) = run (step now c m) cs
