-- ===== src/Base/Int.antt =====
-- Signed differences of times, as `time.Duration` values of either sign.
use Prim.Native.Nat.{ℕ, suc, ◌-◌}
use vision_mcp_manager.Base.Tests.{leb, if◌then◌else◌}

-- `negsuc n` is -(n + 1).
pub data ℤ : Type 0 where
  pos : ℕ → ℤ
  negsuc : ℕ → ℤ

-- a - b, as an integer.
abbrev pub sub_ℕ : ℕ → ℕ → ℤ
sub_ℕ a b = if leb b a then pos (a - b) else negsuc (b - suc a)
