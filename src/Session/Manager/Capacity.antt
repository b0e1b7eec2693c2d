-- ===== src/Session/Manager/Capacity.antt =====
-- internal/session/manager.go: the limit on sessions under every interleaving.
use vision_mcp_manager.Base.{
  ℕ, ◌≢◌, Option-branches, nat_eq, ◌≤◌, ◌<◌, ◌≡◌, refl, ap, sym, subst, arith, Bool, Option, none,
  some, String, List, [], ◌∷◌, length, Option-branches_eq, if-branches, Dict, lookup, insert, erase,
  Distinct, string_eq, lookup-erase, lookup-insert, insert-Distinct, erase-Distinct,
  length-insert_old, length-erase-le,
}
use vision_mcp_manager.Session.Manager.{
  TrackedSession, Manager, new_manager, remove_session, close_tracked_session, session_count,
  touch_session, touched, is_expired, reap_entries, close_sessions, reap_expired_sessions, started,
  close_all, add_on_session_removed, System, fresh_system, Step, begins, fails, connects, removes,
  touches, reaps, observes, closes_all, Reach, here, next,
}
use vision_mcp_manager.Session.Manager.Removal.{
  close_sessions-sessions, reap_entries-missing, reap_entries-lookup, remove_session-sessions,
}
use vision_mcp_manager.Session.Manager.Spawns.{
  Reserved, Inv, begins-Inv, fewer-Inv, fails-Inv, connects-Inv,
}

removes-Inv :
    (max : ℕ) (s : System) (closes : Bool) (sid : String)
    → lookup sid s.manager.sessions ≢ some none
    → Inv max s
    → Inv max (record s { manager = (remove_session closes sid s.manager).0 })
removes-Inv max s closes sid started v =
    let (limit, sessions) = remove_session-sessions closes sid s.manager in
    subst (λ x. Reserved max x (remove_session closes sid s.manager).0.sessions s.spawning)
      (sym limit)
      (subst (λ x. Reserved max s.manager.max_sessions x s.spawning) (sym sessions)
        (Option-branches
          (λ (x : Dict String (Option TrackedSession)).
            Reserved max s.manager.max_sessions x s.spawning)
          (lookup sid s.manager.sessions) _ _ v
          (λ _ _.
            fewer-Inv max s.manager.max_sessions s.manager.sessions (erase sid s.manager.sessions)
              s.spawning (erase-Distinct sid s.manager.sessions v.distinct)
              (length-erase-le sid s.manager.sessions)
              (λ other h. ground (
                arith,
                started,
                h,
                lookup-erase sid other s.manager.sessions,
                string_eq.beq_iff sid other,
              ))
              v)))

touched-Inv :
    (max : ℕ) (s : System) (sid : String) (now : ℕ) (entry : Option TrackedSession)
    → lookup sid s.manager.sessions ≡ some entry
    → Inv max s
    → Inv max (record s {
      manager = elim entry [
        | none ↦ s.manager
        | some t ↦ record (s.manager) {
          sessions = insert sid (some (touched now t)) s.manager.sessions;
        }
      ];
    })
touched-Inv max s sid now none found v = v
touched-Inv max s sid now (some t) found v = record {
  same_limit = v.same_limit;
  distinct = insert-Distinct sid (some (touched now t)) s.manager.sessions v.distinct;
  within = λ h. omega (
    arith,
    length-insert_old sid (some (touched now t)) (some t) s.manager.sessions found,
    v.within h,
  );
  reserved = λ n other h. ground (
    arith,
    found,
    lookup-insert sid other (some (touched now t)) s.manager.sessions,
    v.reserved n other h,
    string_eq.beq_iff sid other,
  );
  apart = v.apart;
}

touches-Inv :
    (max : ℕ) (s : System) (sid : String) (now : ℕ)
    → Inv max s
    → Inv max (record s { manager = touch_session sid now s.manager })
unfolding touch_session
touches-Inv max s sid now v =
    Option-branches_eq {B = Manager} (λ x. Reserved max x.max_sessions x.sessions s.spawning)
      (lookup sid s.manager.sessions) _ _ (λ new. v)
      (λ entry found. touched-Inv max s sid now entry found v)

reap_entries-length :
    (idle ttl now : ℕ) (sessions : Dict String (Option TrackedSession))
    → length (reap_entries idle ttl now sessions).0 ≤ length sessions
unfolding reap_entries
reap_entries-length idle ttl now [] = omega arith
reap_entries-length idle ttl now ((sid, none) ∷ sessions) =
    ground (arith, reap_entries-length idle ttl now sessions)
reap_entries-length idle ttl now ((sid, some t) ∷ sessions) =
    ground (arith, reap_entries-length idle ttl now sessions)

reap_entries-Distinct :
    (idle ttl now : ℕ) (sessions : Dict String (Option TrackedSession))
    → Distinct sessions
    → Distinct (reap_entries idle ttl now sessions).0
unfolding reap_entries
reap_entries-Distinct idle ttl now [] d = d
reap_entries-Distinct idle ttl now ((sid, none) ∷ sessions) d = (
  reap_entries-missing idle ttl now sid sessions d.0,
  reap_entries-Distinct idle ttl now sessions d.1,
)
reap_entries-Distinct idle ttl now ((sid, some t) ∷ sessions) d =
    if-branches (λ (p : Dict String (Option TrackedSession) × List TrackedSession). Distinct p.0)
      (is_expired idle ttl now t) _ _ (λ due. reap_entries-Distinct idle ttl now sessions d.1)
      (λ stays. (
        reap_entries-missing idle ttl now sid sessions d.0,
        reap_entries-Distinct idle ttl now sessions d.1,
      ))

close_sessions-limit :
    (ts : List TrackedSession) (m : Manager) → (close_sessions ts m).max_sessions ≡ m.max_sessions
unfolding close_sessions close_tracked_session
close_sessions-limit [] m = refl
close_sessions-limit (t ∷ ts) m = close_sessions-limit ts (close_tracked_session t m)

-- Closing sessions leaves what is said of the entries as it is.
closed-Inv :
    (max : ℕ) (spawning : Dict ℕ String) (ts : List TrackedSession) (m : Manager)
    → Reserved max m.max_sessions m.sessions spawning
    → Reserved max (close_sessions ts m).max_sessions (close_sessions ts m).sessions spawning
closed-Inv max spawning ts m v =
    subst (λ x. Reserved max (close_sessions ts m).max_sessions x spawning)
      (sym (close_sessions-sessions ts m))
      (subst (λ x. Reserved max x m.sessions spawning) (sym (close_sessions-limit ts m)) v)

reaps-Inv :
    (max : ℕ) (s : System) (idle ttl now : ℕ)
    → Inv max s
    → Inv max (record s { manager = reap_expired_sessions idle ttl now s.manager })
unfolding reap_expired_sessions
reaps-Inv max s idle ttl now v =
    let (kept, gone) = reap_entries idle ttl now s.manager.sessions in
    closed-Inv max s.spawning gone (record (s.manager) { sessions = kept })
      (fewer-Inv max s.manager.max_sessions s.manager.sessions kept s.spawning
        (reap_entries-Distinct idle ttl now s.manager.sessions v.distinct)
        (reap_entries-length idle ttl now s.manager.sessions)
        (λ sid h. reap_entries-lookup idle ttl now sid none s.manager.sessions v.distinct h) v)

observes-Inv :
    (max : ℕ) (s : System) (callback : Option ℕ)
    → Inv max s
    → Inv max (record s { manager = add_on_session_removed callback s.manager })
unfolding add_on_session_removed
observes-Inv max s none v = v
observes-Inv max s (some callback) v = record {
  same_limit = v.same_limit;
  distinct = v.distinct;
  within = v.within;
  reserved = v.reserved;
  apart = v.apart;
}

closes_all-Inv :
    (max : ℕ) (s : System)
    → s.spawning ≡ []
    → Inv max s
    → Inv max (record s { manager = close_all s.manager })
unfolding close_all lookup
closes_all-Inv max s quiet v =
    closed-Inv max s.spawning (started s.manager.sessions) (record (s.manager) { sessions = [] })
      (record {
        same_limit = v.same_limit;
        distinct = tt;
        within = λ h. omega arith;
        reserved = λ n sid h. absurd (ground (arith, h, ap (lookup n) quiet));
        apart = v.apart;
      })

fresh-Inv : (max : ℕ) → Inv max (fresh_system max)
unfolding new_manager lookup
fresh-Inv max = record {
  same_limit = refl;
  distinct = tt;
  within = λ h. omega arith;
  reserved = λ n sid h. absurd (ground (arith, h));
  apart = λ n k sid h i. absurd (ground (arith, h));
}

-- A step that drops no reservation: `CloseAll` while nothing is being spawned, and no removal of a
-- session that is.
abbrev pub Calm : (s t : System) → Step s t → Type 0
Calm s t (removes closes sid) = lookup sid s.manager.sessions ≢ some none
Calm s t closes_all = s.spawning ≡ []
Calm s t _ = Unit {0}

abbrev pub AllCalm : (s t : System) → Reach s t → Type 0
AllCalm s t here = Unit {0}
AllCalm s t (next {t = u} r step) = AllCalm s u r × Calm u t step

Step-Inv : (max : ℕ) (s t : System) (step : Step s t) → Calm s t step → Inv max s → Inv max t
Step-Inv max s t (begins n sid {m} new e) c v = begins-Inv max s n sid m e v
Step-Inv max s t (fails n sid p) c v = fails-Inv max s n sid p v
Step-Inv max s t (connects n sid now p) c v = connects-Inv max s n sid now p v
Step-Inv max s t (removes closes sid) c v = removes-Inv max s closes sid c v
Step-Inv max s t (touches sid now) c v = touches-Inv max s sid now v
Step-Inv max s t (reaps idle ttl now) c v = reaps-Inv max s idle ttl now v
Step-Inv max s t (observes callback) c v = observes-Inv max s callback v
Step-Inv max s t closes_all c v = closes_all-Inv max s c v

Reach-Inv : (max : ℕ) (s t : System) (r : Reach s t) → AllCalm s t r → Inv max s → Inv max t
Reach-Inv max s t here c v = v
Reach-Inv max s t (next {t = u} r step) c v = Step-Inv max u t step c.1 (Reach-Inv max s u r c.0 v)

-- However the critical sections of concurrent callers interleave, unless `CloseAll` or `RemoveSession`
-- takes out a session that is being spawned, the sessions of a manager with a limit, those whose
-- process is still starting included, are never more than the limit, and no session is listed twice.
pub limit_kept :
    (max : ℕ) (s : System)
    → 0 < max
    → (r : Reach (fresh_system max) s) → AllCalm (fresh_system max) s r
    → (session_count s.manager ≤ max) × Distinct s.manager.sessions
unfolding session_count
limit_kept max s on r calm =
    let v = Reach-Inv max (fresh_system max) s r calm (fresh-Inv max) in (v.within on, v.distinct)
