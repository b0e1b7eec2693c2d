-- ===== src/Supervisor/Restart/Backoff.antt =====
-- internal/supervisor/restart_policy.go: the backoff in closed form, and the disposition table.
use Prim.Native.Nat.{◌^◌, min}
use native.Mathlib.Nat.{pow-suc}
use vision_mcp_manager.Base.{ℕ, zero, suc, ◌*◌, ◌≤◌, ◌<◌, ◌≡◌, ◌↔◌, ◌⊎◌, Bool, true, false, arith}
use vision_mcp_manager.Supervisor.Restart.{
  RestartTracker, double_until, backoff, RestartPolicy, unset, always, on_failure, never, other,
  stopped, failed, restart_disposition,
}

pow_pos : (n : ℕ) → 0 < 2 ^ n
pow_pos zero = omega arith
pow_pos (suc n) = rw (pow-suc 2 n) (omega (arith, pow_pos n))

double_pow :
    (r delay : ℕ)
    → (delay * 2 ^ suc r ≡ 2 * (delay * 2 ^ r)) × (delay * 2 * 2 ^ r ≡ 2 * (delay * 2 ^ r))
double_pow r delay = rw (pow-suc 2 r) (omega arith, omega arith)

le_mul_pow : (r delay : ℕ) → delay ≤ delay * 2 ^ r
le_mul_pow r delay = grind (arith, pow_pos r)

double_until-min :
    (rounds cap delay : ℕ)
    → 0 < delay
    → double_until rounds cap delay ≡ min (delay * 2 ^ rounds) cap
unfolding double_until
double_until-min zero cap delay h = ground arith
double_until-min (suc rounds) cap delay h = ground (
  arith,
  double_until-min rounds cap (delay * 2),
  double_pow rounds delay,
  le_mul_pow rounds delay,
)

-- With a positive base delay and cap, the delay before a restart is the base doubled once for each
-- attempt in the window, and at most the cap.
pub backoff-min :
    (attempt : ℕ) (t : RestartTracker)
    → 0 < t.base
    → 0 < t.max_delay
    → backoff attempt t ≡ min (t.base * 2 ^ attempt) t.max_delay
unfolding backoff
backoff-min attempt t h k = ground (arith, double_until-min attempt t.max_delay t.base h)

-- What follows an exit, for every policy: the service is restarted exactly if the policy is
-- `always`, or it is `on-failure` or unset and the exit failed; it is left `stopped` exactly after
-- a clean exit, `failed` exactly after a failing one that is not restarted.
pub restart_disposition_lem :
    (policy : RestartPolicy) (failing : Bool)
    → (((restart_disposition policy failing).0 ≡ true)
        ↔ ((policy ≡ always) ⊎ (((policy ≡ on_failure) ⊎ (policy ≡ unset)) × (failing ≡ true))))
      × (((restart_disposition policy failing).1 ≡ stopped) ↔ (failing ≡ false))
      × (((restart_disposition policy failing).1 ≡ failed)
          ↔ ((failing ≡ true) × ((restart_disposition policy failing).0 ≡ false)))
unfolding restart_disposition
restart_disposition_lem unset failing = ground arith
restart_disposition_lem always failing = ground arith
restart_disposition_lem on_failure failing = ground arith
restart_disposition_lem never failing = ground arith
restart_disposition_lem other failing = ground arith
