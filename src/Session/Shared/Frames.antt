-- ===== src/Session/Shared/Frames.antt =====
-- internal/session/shared.go: what each critical section leaves alone.
use vision_mcp_manager.Base.{ℕ, String, ◌≡◌, arith, Bool, Option, none, some, Result, string_eq}
use vision_mcp_manager.Session.Shared.{
  SharedError, SharedStartup, Shared, arm_idle_timer, track, await_admission, admission_begin,
  forget, admission_end, remove_session, touch_session, request_enter, request_admit, leave_session,
  one_less_active, request_release, reap_expired_sessions,
}
use vision_mcp_manager.Session.Shared.Startup.{
  start_downstream, get_or_create_downstream, startup_spawn, startup_publish, startup_finish,
  reap_downstream, health_check_result,
}

-- The subprocess is left alone.
pub record SameProcess (s s' : Shared) : Type 0 where
  pub starting : s'.starting ≡ s.starting
  pub downstream : s'.downstream ≡ s.downstream
  pub live : s'.live ≡ s.live
  pub closed : s'.closed ≡ s.closed
  pub exited : s'.exited ≡ s.exited
  pub ending : s'.ending ≡ s.ending

-- The active requests are left alone.
pub record SameRequests (s s' : Shared) : Type 0 where
  pub active : s'.active_requests ≡ s.active_requests
  pub waited : s'.requests_drained ≡ s.requests_drained
  pub drained : s'.drained ≡ s.drained

-- The upstream sessions are left alone.
pub record SameBooks (s s' : Shared) : Type 0 where
  pub limit : s'.max_sessions ≡ s.max_sessions
  pub count : s'.ref_count ≡ s.ref_count
  pub upstream : s'.upstream_sessions ≡ s.upstream_sessions
  pub sessions : s'.sessions ≡ s.sessions

abbrev pub Untouched : Shared → Shared → Type 0
Untouched s s' = SameProcess s s' × SameRequests s s'

arm_idle_timer-Untouched : (s : Shared) → Untouched s (arm_idle_timer s)
unfolding arm_idle_timer
arm_idle_timer-Untouched s = ground arith

pub admission_begin-Untouched :
    (sid : String) (now : ℕ) (s s' : Shared) (r : Result SharedError ℕ)
    → admission_begin sid now s ≡ some (s', r)
    → Untouched s s'
unfolding admission_begin await_admission track
admission_begin-Untouched sid now s s' r e = ground arith

forget-Untouched : (sid : String) (s : Shared) → Untouched s (forget sid s)
unfolding forget arm_idle_timer
forget-Untouched sid s = ground arith

pub admission_end-Untouched :
    (sid : String) (address : ℕ) (ready : Bool) (now : ℕ) (s : Shared)
    → Untouched s (admission_end sid address ready now s)
unfolding admission_end
admission_end-Untouched sid address ready now s = ground (arith, forget-Untouched sid s)

pub remove_session-Untouched : (sid : String) (s : Shared) → Untouched s (remove_session sid s).0
unfolding remove_session
remove_session-Untouched sid s = ground (arith, forget-Untouched sid s)

pub touch_session-Untouched :
    (sid : String) (now : ℕ) (s : Shared) → Untouched s (touch_session sid now s)
unfolding touch_session
touch_session-Untouched sid now s = ground arith

pub request_enter-Untouched :
    (sid : String) (s s' : Shared) (r : Result SharedError ℕ)
    → request_enter sid s ≡ (s', r)
    → Untouched s s'
unfolding request_enter
request_enter-Untouched sid s s' r e = ground arith

pub reap_expired_sessions-Untouched :
    (now : ℕ) (s : Shared) → Untouched s (reap_expired_sessions now s).0
unfolding reap_expired_sessions
reap_expired_sessions-Untouched now s = ground arith

pub leave_session-Untouched :
    (sid : String) (address : ℕ) (s : Shared) → Untouched s (leave_session sid address s)
unfolding leave_session
leave_session-Untouched sid address s = ground arith

one_less_active-SameProcess : (s : Shared) → SameProcess s (one_less_active s)
unfolding one_less_active
one_less_active-SameProcess s = ground arith

pub request_release-SameProcess :
    (sid : String) (address : ℕ) (admitted : Bool) (s : Shared)
    → SameProcess s (request_release sid address admitted s)
unfolding request_release
request_release-SameProcess sid address admitted s = ground (
  arith,
  leave_session-Untouched sid address s,
  one_less_active-SameProcess (leave_session sid address s),
)

pub request_admit-SameProcess :
    (sid : String) (address : ℕ) (s s' : Shared)
    → request_admit sid address s ≡ (s', none)
    → SameProcess s s'
unfolding request_admit
request_admit-SameProcess sid address s s' e = ground arith

pub get_or_create_downstream-SameBooks : (s : Shared) → SameBooks s (get_or_create_downstream s).0
unfolding get_or_create_downstream start_downstream
get_or_create_downstream-SameBooks s = ground arith

pub startup_spawn-SameBooks :
    (st : SharedStartup) (p : Option ℕ) (s : Shared) → SameBooks s (startup_spawn st p s)
unfolding startup_spawn
startup_spawn-SameBooks st none s = ground arith
startup_spawn-SameBooks st (some p) s = ground arith

pub startup_publish-SameBooks :
    (st : SharedStartup) (p : Option ℕ) (s : Shared) → SameBooks s (startup_publish st p s)
unfolding startup_publish
startup_publish-SameBooks st none s = ground arith
startup_publish-SameBooks st (some p) s = ground arith

pub startup_finish-SameBooks : (s : Shared) → SameBooks s (startup_finish s)
unfolding startup_finish arm_idle_timer
startup_finish-SameBooks s = ground arith

pub reap_downstream-SameBooks : (s : Shared) → SameBooks s (reap_downstream s)
unfolding reap_downstream arm_idle_timer
reap_downstream-SameBooks s = ground arith

pub health_check_result-SameBooks :
    (p : ℕ) (succeeded says_closed : Bool) (s : Shared)
    → SameBooks s (health_check_result p succeeded says_closed s)
unfolding health_check_result start_downstream
health_check_result-SameBooks p succeeded says_closed s = ground arith
