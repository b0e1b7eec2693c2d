-- ===== src/Session/Manager.antt =====
-- internal/session/manager.go: one subprocess for each session. Times are nanoseconds, a limit or
-- timeout that is not positive is 0. A session is reserved by a nil entry (`none`) while its
-- process starts. The log has the calls of removal callbacks and of `Close`, oldest first.
pub mod Removal
pub mod Spawns
pub mod Capacity
mod Examples
use vision_mcp_manager.Base.{
  ℕ, ◌+◌, ◌≡◌, Bool, true, false, ◌&&◌, ◌||◌, Option, none, some, Result, ok, err, nat_eq, String,
  List, [], ◌∷◌, ◌++◌, map, length, ltb, leb, if◌then◌else◌, Dict, lookup, insert, erase, string_eq,
}

pub data SessionError : Type 0 where
  session_exists session_not_found max_sessions_reached close_failed : SessionError

pub record TrackedSession : Type 0 where
  pub session_id : String
  pub created_at : ℕ
  pub last_activity : ℕ

pub data Effect : Type 0 where
  notified : ℕ → String → Effect
  closed : String → Effect

-- Callbacks are numbered.
pub record Manager : Type 0 where
  pub max_sessions : ℕ
  pub sessions : Dict String (Option TrackedSession)
  pub on_session_removed : Option ℕ
  pub on_session_removed_extra : List ℕ
  pub log : List Effect

pub new_manager : ℕ → Manager
new_manager max_sessions = record {
  max_sessions = max_sessions;
  sessions = [];
  on_session_removed = none;
  on_session_removed_extra = [];
  log = [];
}

-- A nil callback is `none`.
pub set_on_session_removed : Option ℕ → Manager → Manager
set_on_session_removed callback m = record m { on_session_removed = callback }

pub add_on_session_removed : Option ℕ → Manager → Manager
add_on_session_removed none m = m
add_on_session_removed (some callback) m = record m {
  on_session_removed_extra = m.on_session_removed_extra ++ (callback ∷ []);
}

-- Primary first.
pub session_removed_callbacks : Manager → List ℕ
session_removed_callbacks m = elim m.on_session_removed [
  | none ↦ m.on_session_removed_extra
  | some primary ↦ primary ∷ m.on_session_removed_extra
]

-- `SpawnSession` up to the reservation of the slot.
pub spawn_begin : String → Manager → Manager × Option SessionError
spawn_begin sid m = elim (lookup sid m.sessions) [
  | some entry ↦ (m, some session_exists)
  | none ↦
      if ltb 0 m.max_sessions && leb m.max_sessions (length m.sessions)
      then (m, some max_sessions_reached)
      else (record m { sessions = insert sid none m.sessions }, none)
]

-- The command could not be built, or the connection failed.
pub spawn_failed : String → Manager → Manager
spawn_failed sid m = record m { sessions = erase sid m.sessions }

-- The handshake has succeeded.
pub spawn_connected : String → (now : ℕ) → Manager → Manager
spawn_connected sid now m = record m {
  sessions =
      insert sid (some (record { session_id = sid; created_at = now; last_activity = now }))
        m.sessions;
}

-- `closeTrackedSession`, whose `Close` succeeds or fails.
pub close_tracked_session : TrackedSession → Manager → Manager
unfolding session_removed_callbacks
close_tracked_session t m = record m {
  log =
      m.log
      ++ (map (λ callback. notified callback t.session_id) (session_removed_callbacks m)
          ++ (closed t.session_id ∷ []));
}

-- How `RemoveSession` ends.
pub data Outcome : Type 0 where
  panicked : Outcome
  returned : Option SessionError → Outcome

-- `RemoveSession` by the entry that it finds. The nil entry of a session that is being spawned is
-- taken out before the log line reads its creation time, which panics. `closes` is whether `Close`
-- succeeds.
pub remove_entry :
    (closes : Bool) → String → Option (Option TrackedSession) → Manager → Manager × Outcome
unfolding close_tracked_session
remove_entry closes sid none m = (m, returned (some session_not_found))
remove_entry closes sid (some none) m = (record m { sessions = erase sid m.sessions }, panicked)
remove_entry closes sid (some (some t)) m = (
  close_tracked_session t (record m { sessions = erase sid m.sessions }),
  returned (if closes then none else some close_failed),
)

pub remove_session : (closes : Bool) → String → Manager → Manager × Outcome
unfolding remove_entry
remove_session closes sid m = remove_entry closes sid (lookup sid m.sessions) m

pub session_count : Manager → ℕ
session_count m = length m.sessions

pub admission_status : Manager → Bool × (ℕ × ℕ)
admission_status m = (
  ltb 0 m.max_sessions && leb m.max_sessions (length m.sessions),
  (length m.sessions, m.max_sessions),
)

pub touched : ℕ → TrackedSession → TrackedSession
touched now t = record t { last_activity = now }

pub touch_session : String → (now : ℕ) → Manager → Manager
unfolding touched
touch_session sid now m = elim (lookup sid m.sessions) [
  | none ↦ m
  | some entry ↦ elim entry [
    | none ↦ m
    | some t ↦ record m { sessions = insert sid (some (touched now t)) m.sessions }
  ]
]

-- `now.Sub(since) > bound`, of a bound that is on.
abbrev pub over : ℕ → ℕ → ℕ → Bool
over now since bound = ltb 0 bound && ltb (since + bound) now

pub is_expired : (idle_timeout session_ttl now : ℕ) → TrackedSession → Bool
is_expired idle_timeout session_ttl now t =
    over now t.last_activity idle_timeout || over now t.created_at session_ttl

-- The loop of the reaper: the entries that stay, and the sessions that go.
pub reap_entries :
    (idle_timeout session_ttl now : ℕ)
    → Dict String (Option TrackedSession)
    → Dict String (Option TrackedSession) × List TrackedSession
unfolding is_expired
reap_entries idle_timeout session_ttl now [] = ([], [])
reap_entries idle_timeout session_ttl now ((sid, entry) ∷ sessions) =
    let (kept, gone) = reap_entries idle_timeout session_ttl now sessions in
    elim entry [
      | none ↦ ((sid, none) ∷ kept, gone)
      | some t ↦
          if is_expired idle_timeout session_ttl now t
          then (kept, t ∷ gone)
          else ((sid, some t) ∷ kept, gone)
    ]

pub close_sessions : List TrackedSession → Manager → Manager
unfolding close_tracked_session
close_sessions [] m = m
close_sessions (t ∷ ts) m = close_sessions ts (close_tracked_session t m)

pub reap_expired_sessions : (idle_timeout session_ttl now : ℕ) → Manager → Manager
unfolding reap_entries close_sessions
reap_expired_sessions idle_timeout session_ttl now m =
    let (kept, gone) = reap_entries idle_timeout session_ttl now m.sessions in
    close_sessions gone (record m { sessions = kept })

-- The sessions that are not nil.
pub started : Dict String (Option TrackedSession) → List TrackedSession
started [] = []
started ((sid, entry) ∷ sessions) = elim entry [
  | none ↦ started sessions
  | some t ↦ t ∷ started sessions
]

pub close_all : Manager → Manager
unfolding started close_sessions
close_all m = close_sessions (started m.sessions) (record m { sessions = [] })

-- A manager with the calls of `SpawnSession` that have reserved a session and not yet ended, which
-- are numbered.
pub record System : Type 0 where
  pub manager : Manager
  pub spawning : Dict ℕ String

abbrev pub fresh_system : ℕ → System
fresh_system max_sessions = record { manager = new_manager max_sessions; spawning = [] }

-- One critical section of some caller. The callbacks and closings that follow it are part of the
-- step; they do not touch the sessions.
pub data Step (s : System) : System → Type 0 where
  begins :
      (n : ℕ) (sid : String) {m : Manager}
      → lookup n s.spawning ≡ none
      → spawn_begin sid s.manager ≡ (m, none)
      → Step s (record { manager = m; spawning = insert n sid s.spawning })
  fails :
      (n : ℕ) (sid : String)
      → lookup n s.spawning ≡ some sid
      → Step s (record { manager = spawn_failed sid s.manager; spawning = erase n s.spawning })
  connects :
      (n : ℕ) (sid : String) (now : ℕ)
      → lookup n s.spawning ≡ some sid
      → Step s
          (record { manager = spawn_connected sid now s.manager; spawning = erase n s.spawning })
  removes :
      (closes : Bool) (sid : String)
      → Step s (record s { manager = (remove_session closes sid s.manager).0 })
  touches :
      (sid : String) (now : ℕ) → Step s (record s { manager = touch_session sid now s.manager })
  reaps :
      (idle ttl now : ℕ)
      → Step s (record s { manager = reap_expired_sessions idle ttl now s.manager })
  observes :
      (callback : Option ℕ)
      → Step s (record s { manager = add_on_session_removed callback s.manager })
  closes_all : Step s (record s { manager = close_all s.manager })

pub data Reach (s : System) : System → Type 0 where
  here : Reach s s
  next : {t u : System} → Reach s t → Step t u → Reach s u
