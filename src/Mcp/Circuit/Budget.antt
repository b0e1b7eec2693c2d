-- ===== src/Mcp/Circuit/Budget.antt =====
-- internal/mcp/resilience.go: the retry backoff in closed form, and the deadline of a request.
use Prim.Native.Nat.{◌^◌, min}
use native.Mathlib.Nat.{pow-suc}
use vision_mcp_manager.Base.{
  ℕ, zero, suc, ◌+◌, ◌*◌, ◌≤◌, ◌<◌, ◌≡◌, arith, Option, none, some, if◌then◌else◌, ltb,
}
use vision_mcp_manager.Mcp.Circuit.{
  backoff_rounds, compute_backoff_delay, effective_request_timeout, with_request_timeout_budget,
  double64,
}

pow_pos : (n : ℕ) → 0 < 2 ^ n
pow_pos zero = omega arith
pow_pos (suc n) = rw (pow-suc 2 n) (omega (arith, pow_pos n))

double_pow :
    (r delay : ℕ)
    → (delay * 2 ^ suc r ≡ 2 * (delay * 2 ^ r)) × (2 * delay * 2 ^ r ≡ 2 * (delay * 2 ^ r))
double_pow r delay = rw (pow-suc 2 r) (omega arith, omega arith)

le_mul_pow : (r delay : ℕ) → delay ≤ delay * 2 ^ r
le_mul_pow r delay = grind (arith, pow_pos r)

-- Below 2^62 a doubling does not wrap.
double64-exact : (d : ℕ) → d < 4611686018427387904 → double64 d ≡ 2 * d
double64-exact d h = omega arith

backoff_rounds-min :
    (n delay max_delay : ℕ)
    → 0 < max_delay
    → max_delay ≤ 4611686018427387904
    → delay < 4611686018427387904
    → backoff_rounds n delay max_delay ≡ min (delay * 2 ^ n) max_delay
unfolding backoff_rounds
backoff_rounds-min zero delay max_delay p h k = ground arith
backoff_rounds-min (suc n) delay max_delay p h k = rw (double64-exact delay k) (
    ground (
      arith,
      backoff_rounds-min n (2 * delay) max_delay p h,
      double_pow n delay,
      le_mul_pow n delay,
    ))

-- With a cap of at most 2^62 ns and a smaller initial delay, the delay before a retry is the
-- initial delay doubled once for each attempt after the first, and at most the cap.
pub compute_backoff_delay-min :
    (n initial_delay max_delay : ℕ)
    → 0 < initial_delay
    → initial_delay < max_delay
    → max_delay ≤ 4611686018427387904
    → compute_backoff_delay (suc n) initial_delay max_delay ≡ min (initial_delay * 2 ^ n) max_delay
unfolding compute_backoff_delay
compute_backoff_delay-min zero initial_delay max_delay p h k = ground arith
compute_backoff_delay-min (suc n) initial_delay max_delay p h k =
    ground (arith, backoff_rounds-min (suc n) initial_delay max_delay (omega arith) k (omega arith))

abbrev pub earlier : Option ℕ → Option ℕ → Option ℕ
earlier none b = b
earlier (some a) none = some a
earlier (some a) (some b) = some (min a b)

abbrev pub own_deadline : ℕ → ℕ → Option ℕ
own_deadline now fallback = if ltb 0 fallback then some (now + fallback) else none

-- The time budget only shortens. The deadline of the context for a request is the caller's own, or
-- the call's time plus the configured timeout if there is one, whichever comes first.
pub budget_deadline :
    (now fallback : ℕ) (deadline : Option ℕ)
    → with_request_timeout_budget now deadline fallback
      ≡ earlier deadline (own_deadline now fallback)
unfolding with_request_timeout_budget effective_request_timeout
budget_deadline now fallback none = ground arith
budget_deadline now fallback (some d) = ground arith
