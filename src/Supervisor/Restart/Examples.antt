-- ===== src/Supervisor/Restart/Examples.antt =====
-- internal/supervisor/restart_policy.go: the theorems at a tracker of two restarts.
use vision_mcp_manager.Base.{ℕ, ◌+◌, ◌≤◌, arith, true, none, List, [], ◌∷◌}
use vision_mcp_manager.Supervisor.Restart.{RestartTracker, restart_window, new_restart_tracker}
use vision_mcp_manager.Supervisor.Restart.Rate.{Start, recent, Forward, run, restart_rate}

abbrev starting : ℕ → Start ℕ
starting t = record { now = t; sleep = λ d. none; later = t + 1 }

-- The third restart is refused.
abbrev starts : List (Start ℕ)
starts = starting 0 ∷ starting 10 ∷ starting 20 ∷ starting 30 ∷ []

forward : Forward 0 starts
forward = (
  omega arith,
  omega arith,
  (omega arith, omega arith, (omega arith, omega arith, (omega arith, omega arith, tt))),
)

restart_rate_example : recent restart_window 40 (run (new_restart_tracker 2 1 8) [] starts).1 ≤ 2
restart_rate_example = restart_rate 2 1 8 40 starts forward (omega arith)

abbrev tracker : RestartTracker
tracker = record {
  limit = 5;
  window = restart_window;
  base = 3;
  max_delay = 100;
  initial = true;
  attempts = [];
  total = 0;
}
