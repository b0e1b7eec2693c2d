-- ===== src/Session/Manager/Examples.antt =====
-- internal/session/manager.go: the theorems at concrete managers.
use vision_mcp_manager.Base.{
  ◌≡◌, ◌≢◌, ◌↔◌, ◌≤◌, String, nat_eq, refl, arith, true, false, none, some, [], ◌∷◌, ◌++◌, select,
  lookup, insert, erase, Distinct, string_eq,
}
use vision_mcp_manager.Session.Manager.{
  session_not_found, panicked, returned, remove_entry, spawn_connected, close_all, close_sessions,
  TrackedSession, Manager, new_manager, spawn_begin, remove_session, session_count,
  session_removed_callbacks, is_expired, reap_expired_sessions, started, System, fresh_system,
  begins, connects, closes_all, Reach, here, next,
}
use vision_mcp_manager.Session.Manager.Removal.{
  reap_exact, removed_once, running, is_panic, closings, Expired,
}
use vision_mcp_manager.Session.Manager.Capacity.{AllCalm, limit_kept}

abbrev old_session : TrackedSession
old_session = record { session_id = "a"; created_at = 1; last_activity = 5 }

-- One session runs, one is being spawned; two callbacks.
abbrev manager : Manager
manager = record {
  max_sessions = 2;
  sessions = ("a", some old_session) ∷ ("b", none) ∷ [];
  on_session_removed = some 7;
  on_session_removed_extra = 9 ∷ [];
  log = [];
}

removed_once_example :
    let (m₁, o) = remove_session false "b" manager in
    (lookup "b" m₁.sessions ≡ none)
    × ((other : String) → other ≢ "b" → lookup other m₁.sessions ≡ lookup other manager.sessions)
    × (remove_session true "b" m₁ ≡ (m₁, returned (some session_not_found)))
    × (m₁.log
        ≡ manager.log
          ++ closings (session_removed_callbacks manager) (running (lookup "b" manager.sessions)))
    × ((is_panic o ≡ true) ↔ (lookup "b" manager.sessions ≡ some none))
removed_once_example = removed_once false true "b" manager

removed_while_spawning : (remove_session true "b" manager).1 ≡ panicked
unfolding remove_session remove_entry lookup
removed_while_spawning = refl

distinct : Distinct manager.sessions
unfolding lookup
distinct = (refl, (refl, tt))

reap_exact_example :
    ((t : TrackedSession)
      → lookup "a" manager.sessions ≡ some (some t)
      → (Expired 10 0 16 t → lookup "a" (reap_expired_sessions 10 0 16 manager).sessions ≡ none)
        × (¬ Expired 10 0 16 t
            → lookup "a" (reap_expired_sessions 10 0 16 manager).sessions ≡ some (some t)))
    × (lookup "a" manager.sessions ≡ some none
        → lookup "a" (reap_expired_sessions 10 0 16 manager).sessions ≡ some none)
    × ((reap_expired_sessions 10 0 16 manager).log
        ≡ manager.log
          ++ closings
              (session_removed_callbacks manager)
              (select (is_expired 10 0 16) (started manager.sessions)))
reap_exact_example = reap_exact 10 0 16 "a" manager distinct

-- The limit of one session is taken by a session that is being spawned.
abbrev spawning_system : System
spawning_system = record {
  manager = record (new_manager 1) { sessions = ("a", none) ∷ [] };
  spawning = (0, "a") ∷ [];
}

spawning_reached : Reach (fresh_system 1) spawning_system
unfolding new_manager spawn_begin lookup insert
spawning_reached = next here (begins 0 "a" refl refl)

spawning_calm : AllCalm (fresh_system 1) spawning_system spawning_reached
unfolding spawning_reached
spawning_calm = (tt, tt)

limit_kept_example :
    (session_count spawning_system.manager ≤ 1) × Distinct spawning_system.manager.sessions
limit_kept_example = limit_kept 1 spawning_system (omega arith) spawning_reached spawning_calm

-- `CloseAll` drops the reservation of "a", so that "b" is admitted, and then both connect.
abbrev crowded_system : System
crowded_system = record {
  manager = record (new_manager 1) {
    sessions =
        ("b", some (record { session_id = "b"; created_at = 6; last_activity = 6 }))
        ∷ ("a", some (record { session_id = "a"; created_at = 5; last_activity = 5 }))
        ∷ [];
  };
  spawning = [];
}

limit_exceeded : Reach (fresh_system 1) crowded_system
unfolding new_manager spawn_begin spawn_connected close_all started close_sessions lookup insert
    erase
limit_exceeded =
    next
      (next (next (next (next here (begins 0 "a" refl refl)) closes_all) (begins 1 "b" refl refl))
        (connects 0 "a" 5 refl))
      (connects 1 "b" 6 refl)
