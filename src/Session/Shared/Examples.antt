-- ===== src/Session/Shared/Examples.antt =====
-- internal/session/shared.go: the theorems at concrete histories.
use vision_mcp_manager.Base.{
  ◌≤◌, ◌<◌, ◌≡◌, refl, true, false, none, some, [], ◌∷◌, length, lookup, insert, erase, string_eq,
  nat_eq,
}
use vision_mcp_manager.Session.Shared.{
  draining, cleared, closed_old, spawned, published, SharedStartup, health_respawn, first_use,
  new_shared_session_manager, arm_idle_timer, admission_begin, track, await_admission, new_session,
  request_enter, request_admit, still_there, SharedSession, request_release, leave_session,
  one_less_active,
}
use vision_mcp_manager.Session.Shared.Startup.{
  is_some, get_or_create_downstream, start_downstream, startup_clear, startup_close, startup_spawn,
  startup_publish, startup_finish, reap_downstream, health_check_result, may_proceed, request_gate,
}
use vision_mcp_manager.Session.Shared.Steps.{
  Request, System, fresh_system, admits, enters, dispatches, looks_up, clears, closes_old, spawns,
  publishes, finishes, checks_health, releases, Reach, here, next,
}
use vision_mcp_manager.Session.Shared.Processes.{sole_process}
use vision_mcp_manager.Session.Shared.Count.{count_right}
use vision_mcp_manager.Session.Shared.Waits.{reap_spares_requests, drain_wakes}

-- At most two sessions; an idle timeout of 10 ns and a session timeout of 100 ns.
abbrev start : System
start = fresh_system 2 10 100

abbrev session : SharedSession
session = record {
  address = 0;
  last_activity = 1;
  in_flight = 0;
  expiring = false;
  pending = 1;
  admitted = false;
}

-- A session has been admitted and waits for process 7.
abbrev admitted_system : System
admitted_system = record {
  shared = record (new_shared_session_manager 2 10 100) {
    ref_count = 1;
    upstream_sessions = ("a", tt) ∷ [];
    sessions = ("a", session) ∷ [];
    next_address = 1;
  };
  requests = [];
}

abbrev startup : SharedStartup
startup = record { drain = none; old = none; stage = published }

-- The process runs.
abbrev running_system : System
running_system = record admitted_system {
  shared = record (admitted_system.shared) {
    downstream = some 7;
    last_spawn_reason = some first_use;
    live = 7 ∷ [];
  };
}

running_reached : Reach start running_system
unfolding new_shared_session_manager admission_begin track await_admission new_session
    get_or_create_downstream start_downstream startup_clear startup_close startup_spawn
    startup_publish startup_finish arm_idle_timer may_proceed lookup insert
running_reached =
    next
      (next
        (next
          (next
            (next (next (next here (admits "a" 1 refl)) looks_up)
              (clears (record startup { stage = draining }) refl refl refl))
            (closes_old (record startup { stage = cleared }) refl refl))
          (spawns (record startup { stage = closed_old }) (some 7) refl refl))
        (publishes (record startup { stage = spawned 7 }) 7 refl refl))
      (finishes startup refl refl)

sole_process_example :
    (length running_system.shared.live ≤ 1)
    × (running_system.shared.closed ≡ true
        → running_system.shared.ending ≡ none
        → running_system.shared.starting ≡ none
        → running_system.shared.live ≡ [])
sole_process_example = sole_process 2 10 100 running_system running_reached

count_right_example :
    (running_system.shared.ref_count ≡ length running_system.shared.upstream_sessions)
    × (running_system.shared.ref_count ≡ length running_system.shared.sessions)
    × (0 < 2 → running_system.shared.ref_count ≤ 2)
    × (is_some (lookup "b" running_system.shared.upstream_sessions)
        ≡ is_some (lookup "b" running_system.shared.sessions))
    × ¬ (admission_begin "b" 5 running_system.shared ≡ none)
count_right_example = count_right 2 10 100 5 "b" running_system running_reached

abbrev request : Request
request = record { session_id = "a"; address = 0; admitted = true }

-- A request of the session has been dispatched.
abbrev busy_system : System
busy_system = record {
  shared = record (running_system.shared) {
    active_requests = 1;
    sessions = ("a", record session { in_flight = 1 }) ∷ [];
  };
  requests = (0, request) ∷ [];
}

busy_reached : Reach start busy_system
unfolding new_shared_session_manager request_enter request_admit still_there request_gate lookup
    insert
busy_reached =
    next (next running_reached (enters 0 "a" 0 refl refl))
      (dispatches 0 (record request { admitted = false }) refl refl refl refl)

dispatched : lookup 0 busy_system.requests ≡ some request
unfolding lookup
dispatched = refl

reap_spares_requests_example :
    ((reap_downstream busy_system.shared).downstream ≡ some 7)
    × ((reap_downstream busy_system.shared).live ≡ 7 ∷ [])
reap_spares_requests_example =
    reap_spares_requests 2 10 100 0 request busy_system busy_reached dispatched refl

abbrev recovery : SharedStartup
recovery = record { drain = some 0; old = some 7; stage = draining }

-- Three health checks have failed, recovery waits for the drain, and the request has been released.
abbrev drained_system : System
drained_system = record {
  shared = record (running_system.shared) {
    starting = some recovery;
    last_spawn_reason = some health_respawn;
    drained = 0 ∷ [];
    next_channel = 1;
  };
  requests = [];
}

drained_reached : Reach start drained_system
unfolding new_shared_session_manager health_check_result start_downstream request_release
    leave_session one_less_active lookup insert erase
drained_reached =
    next
      (next (next (next busy_reached (checks_health 7 false false)) (checks_health 7 false false))
        (checks_health 7 false false))
      (releases 0 request refl)

drain_wakes_example : may_proceed recovery drained_system.shared ≡ true
drain_wakes_example = drain_wakes 2 10 100 recovery drained_system drained_reached refl refl
