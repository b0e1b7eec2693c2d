-- ===== src/Supervisor/Restart.antt =====
-- internal/supervisor/restart_policy.go: the restart tracker and the disposition of an exit. Times
-- and delays are nanoseconds; a delay that is not positive is 0.
pub mod Backoff
pub mod Rate
mod Examples
use vision_mcp_manager.Base.{
  ℕ, zero, suc, ◌+◌, ◌*◌, ◌/◌, Bool, true, false, ◌||◌, Option, none, some, List, [], ◌∷◌, ◌++◌,
  ltb, leb, if◌then◌else◌, length,
}

-- 5 minutes
abbrev pub restart_window : ℕ
restart_window = 300000000000

pub record RestartTracker : Type 0 where
  pub limit : ℕ
  pub window : ℕ
  pub base : ℕ
  pub max_delay : ℕ
  pub initial : Bool
  pub attempts : List ℕ
  pub total : ℕ

pub new_restart_tracker : ℕ → ℕ → ℕ → RestartTracker
new_restart_tracker limit base max_delay = record {
  limit = limit;
  window = restart_window;
  base = base;
  max_delay = max_delay;
  initial = false;
  attempts = [];
  total = 0;
}

-- The attempts from the first one on that lies inside the window.
pub within : ℕ → ℕ → List ℕ → List ℕ
within window now [] = []
within window now (t ∷ ts) = if leb (t + window) now then within window now ts else t ∷ ts

pub prune : ℕ → RestartTracker → RestartTracker
unfolding within
prune now t = record t { attempts = within t.window now t.attempts }

-- The loop of `backoff`, by the rounds that are left.
pub double_until : ℕ → ℕ → ℕ → ℕ
double_until zero cap delay = if ltb cap delay then cap else delay
double_until (suc rounds) cap delay =
    let next = double_until rounds cap (delay * 2) in
    if ltb delay cap
    then if ltb (cap / 2) delay then cap else next
    else if ltb cap delay
    then cap
    else delay

pub backoff : ℕ → RestartTracker → ℕ
unfolding double_until
backoff attempt t =
    if leb t.base 0 || leb t.max_delay 0 then 0 else double_until attempt t.max_delay t.base

-- `E` is what a cancelled sleep returns.
pub data StartError (E : Type 0) : Type 0 where
  restart_limit : (limit attempts : ℕ) → StartError E
  cancelled : E → StartError E

module _ {E : Type 0} where
  -- The part of `BeforeStart` behind the pruning. `sleep` is the outcome of the wait for the given
  -- delay, and `later` the clock after it.
  pub attempt_restart :
      (sleep : ℕ → Option E) (later : ℕ) → RestartTracker → RestartTracker × Option (StartError E)
  unfolding backoff
  attempt_restart sleep later t =
      if leb t.limit (length t.attempts)
      then (t, some (restart_limit t.limit (length t.attempts)))
      else elim (sleep (backoff (length t.attempts) t)) [
        | some e ↦ (t, some (cancelled e))
        | none ↦ (record t { attempts = t.attempts ++ (later ∷ []); total = suc t.total }, none)
      ]

  pub before_start :
      (now : ℕ) (sleep : ℕ → Option E) (later : ℕ)
      → RestartTracker
      → RestartTracker × Option (StartError E)
  unfolding prune attempt_restart
  before_start now sleep later t =
      if t.initial
      then attempt_restart sleep later (prune now t)
      else (record t { initial = true }, none)

pub count : ℕ → RestartTracker → RestartTracker × ℕ
unfolding prune
count now t = let p = prune now t in (p, length p.attempts)

pub data RestartPolicy : Type 0 where
  unset always on_failure never other : RestartPolicy

pub data ServiceState : Type 0 where
  stopped crashed failed : ServiceState

abbrev pub restarts_on_failure : RestartPolicy → Bool
restarts_on_failure on_failure = true
restarts_on_failure unset = true
restarts_on_failure _ = false

abbrev pub is_always : RestartPolicy → Bool
is_always always = true
is_always _ = false

-- `failing` says that the exit error is not nil.
pub restart_disposition : RestartPolicy → Bool → Bool × ServiceState
restart_disposition policy failing =
    if is_always policy
    then (true, if failing then crashed else stopped)
    else if (if restarts_on_failure policy then failing else false)
    then (true, crashed)
    else if failing
    then (false, failed)
    else (false, stopped)
