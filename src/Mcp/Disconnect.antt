-- ===== src/Mcp/Disconnect.antt =====
-- internal/mcp/disconnect.go: the tracker that reaps a session some time after its last stream.
-- Times are nanoseconds. Timers are numbered; `armed` holds those that have neither fired nor been
-- stopped, and `fired` those whose callback has started in a goroutine of its own and does not yet
-- hold the mutex, with the callback's session. `lookup_session` is whether the proxy has a session
-- for an ID, and `closed` the calls of `closeDownstream`, newest first.
pub mod Timers
pub mod Kept
pub mod Grace
mod Examples
use vision_mcp_manager.Base.{
  ℕ, zero, suc, ◌+◌, ◌-◌, Bool, true, false, not, ◌||◌, Option, none, some, String, List, [], ◌∷◌,
  leb, if◌then◌else◌, ◌==◌, Dict, lookup, insert, erase, string_eq, nat_eq,
}

pub record ConnTracker : Type 0 where
  pub ref_count : ℕ
  pub timer : Option ℕ

pub record Timer : Type 0 where
  pub session_id : String
  pub due : ℕ

pub record DisconnectTracker : Type 0 where
  pub stopped : Bool
  pub grace_period : ℕ
  pub sessions : Dict String ConnTracker
  pub armed : Dict ℕ Timer
  pub fired : Dict ℕ String
  pub next_timer : ℕ
  pub closed : List String

pub new_disconnect_tracker : ℕ → DisconnectTracker
new_disconnect_tracker grace_period = record {
  stopped = false;
  grace_period = grace_period;
  sessions = [];
  armed = [];
  fired = [];
  next_timer = 0;
  closed = [];
}

-- `timer.Stop()`, of a timer that is not nil.
abbrev pub stop_timer : Option ℕ → Dict ℕ Timer → Dict ℕ Timer
stop_timer none armed = armed
stop_timer (some t) armed = erase t armed

abbrev pub or_new : Option ConnTracker → ConnTracker
or_new none = record { ref_count = 0; timer = none }
or_new (some ct) = ct

pub track_request : String → DisconnectTracker → DisconnectTracker
track_request sid dt =
    let ct = or_new (lookup sid dt.sessions) in
    if dt.stopped then dt else record dt {
      sessions = insert sid (record { ref_count = suc ct.ref_count; timer = none }) dt.sessions;
      armed = stop_timer ct.timer dt.armed;
    }

-- The count is at least 0, so `refCount-- ; refCount <= 0` is a count of at most 1 before.
pub release_connection : (now : ℕ) → String → DisconnectTracker → DisconnectTracker
release_connection now sid dt = elim (lookup sid dt.sessions) [
  | none ↦ dt
  | some ct ↦
      if not (leb ct.ref_count 1)
      then record dt {
        sessions = insert sid (record ct { ref_count = ct.ref_count - 1 }) dt.sessions;
      }
      else if dt.stopped
      then record dt { sessions = insert sid (record ct { ref_count = 0 }) dt.sessions }
      else record dt {
        sessions = insert sid (record { ref_count = 0; timer = some dt.next_timer }) dt.sessions;
        armed =
            insert dt.next_timer (record { session_id = sid; due = now + dt.grace_period })
              (stop_timer ct.timer dt.armed);
        next_timer = suc dt.next_timer;
      }
]

pub handle_delete : String → DisconnectTracker → DisconnectTracker
handle_delete sid dt = elim (lookup sid dt.sessions) [
  | none ↦ dt
  | some ct ↦ record dt { sessions = erase sid dt.sessions; armed = stop_timer ct.timer dt.armed }
]

-- The loop of `Stop`, which leaves no session.
abbrev pub stop_timers : Dict String ConnTracker → Dict ℕ Timer → Dict ℕ Timer
stop_timers [] armed = armed
stop_timers ((sid, ct) ∷ sessions) armed = stop_timers sessions (stop_timer ct.timer armed)

pub stop : DisconnectTracker → DisconnectTracker
stop dt = record dt { stopped = true; sessions = []; armed = stop_timers dt.sessions dt.armed }

pub ref_count_of : String → DisconnectTracker → ℕ
ref_count_of sid dt = elim (lookup sid dt.sessions) [ none ↦ 0 | some ct ↦ ct.ref_count ]

pub default_reap : (lookup_session : String → Bool) → String → DisconnectTracker → DisconnectTracker
default_reap lookup_session sid dt = record dt {
  sessions = erase sid dt.sessions;
  closed = if lookup_session sid then sid ∷ dt.closed else dt.closed;
}

-- The runtime starts the callback of a timer that is due, which can no longer be stopped.
pub fire : (now t : ℕ) → DisconnectTracker → DisconnectTracker
fire now t dt = elim (lookup t dt.armed) [
  | none ↦ dt
  | some timer ↦
      if leb timer.due now
      then record dt { armed = erase t dt.armed; fired = insert t timer.session_id dt.fired }
      else dt
]

-- The callback runs, some time later.
pub run_callback :
    (lookup_session : String → Bool) → (t : ℕ) → DisconnectTracker → DisconnectTracker
unfolding default_reap
run_callback lookup_session t dt = elim (lookup t dt.fired) [
  | none ↦ dt
  | some sid ↦ default_reap lookup_session sid (record dt { fired = erase t dt.fired })
]
