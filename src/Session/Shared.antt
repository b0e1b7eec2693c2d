-- ===== src/Session/Shared.antt =====
-- internal/session/shared.go: one subprocess for all upstream sessions. This file has the state and
-- what is done to upstream sessions and requests under `refMu`; Startup has the subprocess. Times
-- are nanoseconds, and a limit or a timeout that is not positive is 0.
pub mod Startup
pub mod Steps
pub mod Frames
pub mod Books
pub mod Count
pub mod Drains
pub mod Waits
pub mod Stages
pub mod Processes
mod Examples
use vision_mcp_manager.Base.{
  ℕ, suc, ◌+◌, ◌-◌, ◌/◌, String, Bool, true, false, not, ◌&&◌, ◌||◌, Option, none, some, Result, ok,
  err, List, [], ◌∷◌, ltb, leb, nat_beq, if◌then◌else◌, any, Dict, lookup, insert, erase, ◌==◌,
  string_eq, nat_eq, length,
}

pub data SharedError : Type 0 where
  shared_closed max_sessions_reached session_not_found : SharedError

-- `address` is the pointer's identity.
pub record SharedSession : Type 0 where
  pub address : ℕ
  pub last_activity : ℕ
  pub in_flight : ℕ
  pub expiring : Bool
  pub pending : ℕ
  pub admitted : Bool

pub data SpawnReason : Type 0 where
  first_use lookup_respawn idle_reap_respawn health_respawn : SpawnReason

-- How far the goroutine of a startup is.
pub data Stage : Type 0 where
  draining cleared closed_old failed published : Stage
  spawned refused : ℕ → Stage

-- `drain` is the channel that it waits for first.
pub record SharedStartup : Type 0 where
  pub drain : Option ℕ
  pub old : Option ℕ
  pub stage : Stage

-- Processes and channels are numbered. `exited` has the processes whose channel `downstreamDone` is
-- closed, `drained` the other channels that are; `live` has the processes that run. `ending` is the
-- process that `CloseAll` has given up and not yet closed.
pub record Shared : Type 0 where
  pub max_sessions : ℕ
  pub idle_timeout : ℕ
  pub session_timeout : ℕ
  pub closed : Bool
  pub downstream : Option ℕ
  pub exited : List ℕ
  pub spawn_err : Bool
  pub starting : Option SharedStartup
  pub last_spawn_reason : Option SpawnReason
  pub health_check_failures : ℕ
  pub ref_count : ℕ
  pub active_requests : ℕ
  pub requests_drained : Option ℕ
  pub drained : List ℕ
  pub upstream_sessions : Dict String (Unit {0})
  pub sessions : Dict String SharedSession
  pub idle_timer : Bool
  pub next_address : ℕ
  pub next_channel : ℕ
  pub live : List ℕ
  pub ending : Option ℕ

pub new_shared_session_manager : (max_sessions idle_timeout session_timeout : ℕ) → Shared
new_shared_session_manager max_sessions idle_timeout session_timeout = record {
  max_sessions = max_sessions;
  idle_timeout = idle_timeout;
  session_timeout = session_timeout;
  closed = false;
  downstream = none;
  exited = [];
  spawn_err = false;
  starting = none;
  last_spawn_reason = none;
  health_check_failures = 0;
  ref_count = 0;
  active_requests = 0;
  requests_drained = none;
  drained = [];
  upstream_sessions = [];
  sessions = [];
  idle_timer = false;
  next_address = 0;
  next_channel = 0;
  live = [];
  ending = none;
}

pub arm_idle_timer : Shared → Shared
arm_idle_timer s =
    if nat_beq s.ref_count 0 && ltb 0 s.idle_timeout && not s.closed
    then record s { idle_timer = true }
    else s

pub new_session : ℕ → (now : ℕ) → SharedSession
new_session address now = record {
  address = address;
  last_activity = now;
  in_flight = 0;
  expiring = false;
  pending = 0;
  admitted = false;
}

-- The first reservation of an identifier.
pub track : String → (now : ℕ) → Shared → Shared
unfolding new_session
track sid now s = record s {
  upstream_sessions = insert sid tt s.upstream_sessions;
  sessions = insert sid (new_session s.next_address now) s.sessions;
  ref_count = suc s.ref_count;
  next_address = suc s.next_address;
}

-- One more admission waits for the session, and the idle timer stops. The outer `none` is the panic
-- on a session that is not there.
pub await_admission : String → Shared → Option (Shared × ℕ)
await_admission sid s = elim (lookup sid s.sessions) [
  | none ↦ none
  | some t ↦ some (
    record s {
      sessions = insert sid (record t { pending = suc t.pending }) s.sessions;
      idle_timer = false;
    },
    t.address,
  )
]

abbrev pub granted : Option (Shared × ℕ) → Option (Shared × Result SharedError ℕ)
granted none = none
granted (some (s, address)) = some (s, ok address)

-- `GetOrCreateSession` before it waits for the subprocess.
pub admission_begin : String → (now : ℕ) → Shared → Option (Shared × Result SharedError ℕ)
unfolding track await_admission
admission_begin sid now s =
    if s.closed then some (s, err shared_closed) else elim (lookup sid s.upstream_sessions) [
      | some _ ↦ granted (await_admission sid s)
      | none ↦
          if ltb 0 s.max_sessions && leb s.max_sessions s.ref_count
          then some (s, err max_sessions_reached)
          else granted (await_admission sid (track sid now s))
    ]

pub forget : String → Shared → Shared
unfolding arm_idle_timer
forget sid s = arm_idle_timer (record s {
  upstream_sessions = erase sid s.upstream_sessions;
  sessions = erase sid s.sessions;
  ref_count = s.ref_count - 1;
})

-- One admission of the session no longer waits.
pub settled : (ready : Bool) → (now : ℕ) → SharedSession → SharedSession
settled ready now t =
    let t' = record t { pending = t.pending - 1 } in
    if ready then record t' { admitted = true; last_activity = now } else t'

-- `GetOrCreateSession` after it; `ready` is whether there is a subprocess.
pub admission_end : String → ℕ → (ready : Bool) → (now : ℕ) → Shared → Shared
unfolding forget settled
admission_end sid address ready now s = elim (lookup sid s.sessions) [
  | none ↦ s
  | some t ↦
      if not (nat_beq t.address address)
      then s
      else if not ready && not t.admitted && nat_beq (t.pending - 1) 0
      then forget sid s
      else record s { sessions = insert sid (settled ready now t) s.sessions }
]

pub remove_session : String → Shared → Shared × Option SharedError
unfolding forget
remove_session sid s = elim (lookup sid s.upstream_sessions) [
  | none ↦ (s, some session_not_found)
  | some _ ↦ (forget sid s, none)
]

pub touch_session : String → (now : ℕ) → Shared → Shared
touch_session sid now s = elim (lookup sid s.sessions) [
  | none ↦ s
  | some t ↦
      if t.expiring
      then s
      else record s { sessions = insert sid (record t { last_activity = now }) s.sessions }
]

abbrev pub more_in_flight : SharedSession → SharedSession
more_in_flight t = record t { in_flight = suc t.in_flight }

abbrev pub less_in_flight : SharedSession → SharedSession
less_in_flight t = record t { in_flight = t.in_flight - 1 }

-- `BeginRequest` before it waits for the subprocess.
pub request_enter : String → Shared → Shared × Result SharedError ℕ
request_enter sid s = if s.closed then (s, err shared_closed) else elim (lookup sid s.sessions) [
  | none ↦ (s, err session_not_found)
  | some t ↦
      if t.expiring
      then (s, err session_not_found)
      else (record s { sessions = insert sid (more_in_flight t) s.sessions }, ok t.address)
]

-- Whether the session is still the one that the request entered, and is not expiring.
pub still_there : String → ℕ → Shared → Bool
still_there sid address s = elim (lookup sid s.sessions) [
  | none ↦ false
  | some t ↦ nat_beq t.address address && not t.expiring
]

-- The dispatch: the request counts as active, or is refused.
pub request_admit : String → ℕ → Shared → Shared × Option SharedError
unfolding still_there
request_admit sid address s =
    if still_there sid address s
    then (record s { active_requests = suc s.active_requests }, none)
    else (s, some session_not_found)

-- One request of the session, if it is still the one that it entered, is no longer in flight.
pub leave_session : String → ℕ → Shared → Shared
leave_session sid address s = elim (lookup sid s.sessions) [
  | none ↦ s
  | some t ↦
      if nat_beq t.address address
      then record s { sessions = insert sid (less_in_flight t) s.sessions }
      else s
]

-- The last active request closes the channel that a drain waits for.
pub one_less_active : Shared → Shared
one_less_active s =
    let s' = record s { active_requests = s.active_requests - 1 } in
    if nat_beq s'.active_requests 0
    then elim s.requests_drained [
      | none ↦ s'
      | some ch ↦ record s' { requests_drained = none; drained = ch ∷ s.drained }
    ]
    else s'

-- The body of the release function's `once.Do`.
pub request_release : String → ℕ → (admitted : Bool) → Shared → Shared
unfolding leave_session one_less_active
request_release sid address admitted s =
    let s' = leave_session sid address s in if admitted then one_less_active s' else s'

-- The loop of `reapExpiredSessions`: the entries, and the sessions that expire.
pub expire_sessions :
    (timeout now : ℕ) → Dict String SharedSession → Dict String SharedSession × List String
expire_sessions timeout now [] = ([], [])
expire_sessions timeout now ((sid, t) ∷ rest) =
    let (kept, expired) = expire_sessions timeout now rest in
    if t.expiring || not (nat_beq t.in_flight 0)
    then ((sid, t) ∷ kept, expired)
    else if ltb (t.last_activity + timeout) now
    then ((sid, record t { expiring = true }) ∷ kept, sid ∷ expired)
    else ((sid, t) ∷ kept, expired)

pub reap_expired_sessions : (now : ℕ) → Shared → Shared × List String
unfolding expire_sessions
reap_expired_sessions now s =
    let (kept, expired) = expire_sessions s.session_timeout now s.sessions in
    (record s { sessions = kept }, expired)

pub admission_status : Shared → Bool × (ℕ × ℕ)
admission_status s =
    (ltb 0 s.max_sessions && leb s.max_sessions s.ref_count, (s.ref_count, s.max_sessions))

-- The interval of the reaper that `StartReaper` starts, if it starts one.
pub reaper_interval : (session_timeout check_interval : ℕ) → Option ℕ
reaper_interval session_timeout check_interval =
    if leb session_timeout 0
    then none
    else let derived = leb check_interval 0 in
      let chosen = if derived then session_timeout / 2 else check_interval in
      let raised = if derived && ltb chosen 1000000000 then 1000000000 else chosen in
      some (if ltb 30000000000 raised then 30000000000 else raised)
