-- ===== src/Session/Shared/Steps.antt =====
-- internal/session/shared.go: the critical sections of concurrent callers, of startups, of timers
-- and of the manager's end, one step each.
use vision_mcp_manager.Base.{
  ℕ, String, ◌≡◌, Bool, true, false, Option, none, some, Result, ok, [], ◌∷◌, Dict, lookup, insert,
  erase, nat_eq,
}
use vision_mcp_manager.Session.Shared.{
  SharedError, draining, cleared, closed_old, failed, spawned, refused, published, SharedStartup,
  Shared, new_shared_session_manager, admission_begin, admission_end, remove_session, touch_session,
  request_enter, request_admit, request_release, reap_expired_sessions,
}
use vision_mcp_manager.Session.Shared.Startup.{
  without, get_or_create_downstream, request_gate, passes, may_proceed, startup_clear,
  startup_close, startup_spawn, startup_publish, startup_refuse, startup_finish, reap_downstream,
  close_all, close_ended, health_check_result,
}

-- A request whose release function has not run.
pub record Request : Type 0 where
  pub session_id : String
  pub address : ℕ
  pub admitted : Bool

pub record System : Type 0 where
  pub shared : Shared
  pub requests : Dict ℕ Request

abbrev pub fresh_system : (max_sessions idle_timeout session_timeout : ℕ) → System
fresh_system max_sessions idle_timeout session_timeout = record {
  shared = new_shared_session_manager max_sessions idle_timeout session_timeout;
  requests = [];
}

abbrev pub with_shared : System → Shared → System
with_shared w s = record w { shared = s }

-- The process has exited by itself.
abbrev pub exited : ℕ → Shared → Shared
exited p s = record s { exited = p ∷ s.exited; live = without p s.live }

pub data Step (w : System) : System → Type 0 where
  admits :
      (sid : String) (now : ℕ) {s : Shared} {r : Result SharedError ℕ}
      → admission_begin sid now w.shared ≡ some (s, r)
      → Step w (with_shared w s)
  ends_admission :
      (sid : String) (address : ℕ) (ready : Bool) (now : ℕ)
      → Step w (with_shared w (admission_end sid address ready now w.shared))
  removes : (sid : String) → Step w (with_shared w (remove_session sid w.shared).0)
  touches : (sid : String) (now : ℕ) → Step w (with_shared w (touch_session sid now w.shared))
  enters :
      (n : ℕ) (sid : String) (address : ℕ) {s : Shared}
      → lookup n w.requests ≡ none
      → request_enter sid w.shared ≡ (s, ok address)
      → Step w (record {
        shared = s;
        requests =
            insert n (record { session_id = sid; address = address; admitted = false }) w.requests;
      })
  dispatches :
      (n : ℕ) (r : Request) {s : Shared}
      → lookup n w.requests ≡ some r
      → r.admitted ≡ false
      → request_gate false w.shared ≡ passes
      → request_admit r.session_id r.address w.shared ≡ (s, none)
      → Step w
          (record { shared = s; requests = insert n (record r { admitted = true }) w.requests })
  releases :
      (n : ℕ) (r : Request)
      → lookup n w.requests ≡ some r
      → Step w (record {
        shared = request_release r.session_id r.address r.admitted w.shared;
        requests = erase n w.requests;
      })
  reaps_sessions : (now : ℕ) → Step w (with_shared w (reap_expired_sessions now w.shared).0)
  looks_up : Step w (with_shared w (get_or_create_downstream w.shared).0)
  clears :
      (st : SharedStartup)
      → w.shared.starting ≡ some st
      → st.stage ≡ draining
      → may_proceed st w.shared ≡ true
      → Step w (with_shared w (startup_clear st w.shared))
  closes_old :
      (st : SharedStartup)
      → w.shared.starting ≡ some st
      → st.stage ≡ cleared
      → Step w (with_shared w (startup_close st w.shared))
  spawns :
      (st : SharedStartup) (p : Option ℕ)
      → w.shared.starting ≡ some st
      → st.stage ≡ closed_old
      → Step w (with_shared w (startup_spawn st p w.shared))
  publishes :
      (st : SharedStartup) (p : ℕ)
      → w.shared.starting ≡ some st
      → st.stage ≡ spawned p
      → Step w (with_shared w (startup_publish st (some p) w.shared))
  publishes_failure :
      (st : SharedStartup)
      → w.shared.starting ≡ some st
      → st.stage ≡ failed
      → Step w (with_shared w (startup_publish st none w.shared))
  closes_refused :
      (st : SharedStartup) (p : ℕ)
      → w.shared.starting ≡ some st
      → st.stage ≡ refused p
      → Step w (with_shared w (startup_refuse st p w.shared))
  finishes :
      (st : SharedStartup)
      → w.shared.starting ≡ some st
      → st.stage ≡ published
      → Step w (with_shared w (startup_finish w.shared))
  exits : (p : ℕ) → Step w (with_shared w (exited p w.shared))
  idle_fires : Step w (with_shared w (reap_downstream w.shared))
  closes_all : Step w (with_shared w (close_all w.shared))
  closes_ended : Step w (with_shared w (close_ended w.shared))
  checks_health :
      (p : ℕ) (succeeded says_closed : Bool)
      → Step w (with_shared w (health_check_result p succeeded says_closed w.shared))

pub data Reach (w : System) : System → Type 0 where
  here : Reach w w
  next : {t u : System} → Reach w t → Step t u → Reach w u
