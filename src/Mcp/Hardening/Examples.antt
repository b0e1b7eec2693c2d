-- ===== src/Mcp/Hardening/Examples.antt =====
-- internal/mcp/hardening.go: the theorems at concrete buckets.
use vision_mcp_manager.Base.{◌+◌, ◌-◌, ◌*◌, ◌≤◌, ◌≡◌, refl, arith, [], ◌∷◌}
use vision_mcp_manager.Mcp.Hardening.{TokenBucket, refilled, allow_at, allowed}
use vision_mcp_manager.Mcp.Hardening.Bucket.{Sound, rate_bounded}

-- One token of two is left, and one comes every 50 ns.
abbrev bucket : TokenBucket
bucket = record { tokens = 1; burst = 2; interval = 50; last_time = 10 }

bucket-Sound : Sound 20 bucket
bucket-Sound = record { positive = omega arith; tokens_fit = omega arith; past = omega arith }

rate_bounded_example : allowed bucket (20 ∷ 30 ∷ 61 ∷ 62 ∷ []) * 50 ≤ 2 * 50 + (70 - 20)
rate_bounded_example =
    rate_bounded 20 70 (30 ∷ 61 ∷ 62 ∷ []) bucket bucket-Sound
      (omega arith, (omega arith, (omega arith, omega arith)))

two_pass : allowed bucket (20 ∷ 30 ∷ 61 ∷ 62 ∷ []) ≡ 2
unfolding allowed allow_at refilled
two_pass = refl
