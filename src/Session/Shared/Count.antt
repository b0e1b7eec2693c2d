-- ===== src/Session/Shared/Count.antt =====
-- internal/session/shared.go: the books hold under every interleaving.
use vision_mcp_manager.Base.{
  ℕ, ◌+◌, ◌≤◌, ◌<◌, String, ◌≡◌, refl, ◌∙◌, sym, subst, inl, inr, arith, true, not, ◌||◌, none,
  some, [], ◌∷◌, ltb, nat_beq, if◌then◌else◌, length, Dict, lookup, string_eq, Option-cases,
  if-branches, lookup-insert_self, map_values, lookup-map_values, map_values-Distinct,
  length-map_values,
}
use vision_mcp_manager.Session.Shared.{
  SharedSession, Shared, new_shared_session_manager, new_session, track, await_admission,
  admission_begin, expire_sessions, reap_expired_sessions,
}
use vision_mcp_manager.Session.Shared.Startup.{
  is_some, startup_clear, startup_close, startup_refuse, close_all, close_ended,
}
use vision_mcp_manager.Session.Shared.Frames.{
  SameBooks, get_or_create_downstream-SameBooks, startup_spawn-SameBooks, startup_publish-SameBooks,
  startup_finish-SameBooks, reap_downstream-SameBooks, health_check_result-SameBooks,
}
use vision_mcp_manager.Session.Shared.Books.{
  Books, Kept, same-Kept, Began, admission_begin-Began, admission_end-Kept, remove_session-Kept,
  touch_session-Kept, Entered, request_enter-Entered, request_release-Kept, request_admit-SameBooks,
}
use vision_mcp_manager.Session.Shared.Steps.{
  System, fresh_system, Step, admits, ends_admission, removes, touches, enters, dispatches,
  releases, reaps_sessions, looks_up, clears, closes_old, spawns, publishes, publishes_failure,
  closes_refused, finishes, exits, idle_fires, closes_all, closes_ended, checks_health, Reach, here,
  next,
}

abbrev marked : (timeout now : ℕ) → String → SharedSession → SharedSession
marked timeout now sid t =
    if t.expiring || not (nat_beq t.in_flight 0)
    then t
    else if ltb (t.last_activity + timeout) now
    then record t { expiring = true }
    else t

pub expire_sessions-map_values :
    (timeout now : ℕ) (sessions : Dict String SharedSession)
    → (expire_sessions timeout now sessions).0 ≡ map_values (marked timeout now) sessions
unfolding expire_sessions
expire_sessions-map_values timeout now [] = refl
expire_sessions-map_values timeout now ((sid, t) ∷ rest) =
    ground (arith, expire_sessions-map_values timeout now rest)

reap_expired_sessions-Kept :
    (max now : ℕ) (s : Shared) → Kept max s → Kept max (reap_expired_sessions now s).0
unfolding reap_expired_sessions
reap_expired_sessions-Kept max now s v =
    let f = marked s.session_timeout now in
    subst (λ x. Books max s.max_sessions s.ref_count s.upstream_sessions x)
      (sym (expire_sessions-map_values s.session_timeout now s.sessions))
      (record {
        same_limit = v.same_limit;
        distinct_upstream = v.distinct_upstream;
        distinct_sessions = map_values-Distinct f s.sessions v.distinct_sessions;
        count_upstream = v.count_upstream;
        count_sessions = v.count_sessions ∙ sym (length-map_values f s.sessions);
        agree = λ sid. ground (arith, v.agree sid, lookup-map_values f sid s.sessions);
        within = v.within;
      })

close_all-Kept : (max : ℕ) (s : Shared) → Kept max s → Kept max (close_all s)
unfolding close_all lookup
close_all-Kept max s v =
    if-branches (Kept max) s.closed _ _ (λ _. v)
      (λ _. record {
        same_limit = v.same_limit;
        distinct_upstream = tt;
        distinct_sessions = tt;
        count_upstream = refl;
        count_sessions = refl;
        agree = λ sid. refl;
        within = λ h. omega arith;
      })

close_ended-SameBooks : (s : Shared) → SameBooks s (close_ended s)
unfolding close_ended
close_ended-SameBooks s = ground arith

Step-Kept : (max : ℕ) (w w' : System) → Step w w' → Kept max w.shared → Kept max w'.shared
unfolding startup_clear startup_close startup_refuse
Step-Kept max w w' (admits sid now {s} {r} e) v =
    subst (Began max) e (admission_begin-Began max sid now w.shared v)
Step-Kept max w w' (ends_admission sid address ready now) v =
    admission_end-Kept max sid address ready now w.shared v
Step-Kept max w w' (removes sid) v = remove_session-Kept max sid w.shared v
Step-Kept max w w' (touches sid now) v = touch_session-Kept max sid now w.shared v
Step-Kept max w w' (enters n sid address {s} free e) v =
    subst (Entered max) e (request_enter-Entered max sid w.shared v)
Step-Kept max w w' (dispatches n r {s} there new gate e) v =
    same-Kept max w.shared s (request_admit-SameBooks r.session_id r.address w.shared s e) v
Step-Kept max w w' (releases n r there) v =
    request_release-Kept max r.session_id r.address r.admitted w.shared v
Step-Kept max w w' (reaps_sessions now) v = reap_expired_sessions-Kept max now w.shared v
Step-Kept max w w' looks_up v =
    same-Kept max w.shared _ (get_or_create_downstream-SameBooks w.shared) v
Step-Kept max w w' (clears st e stage may) v = v
Step-Kept max w w' (closes_old st e stage) v = v
Step-Kept max w w' (spawns st p e stage) v =
    same-Kept max w.shared _ (startup_spawn-SameBooks st p w.shared) v
Step-Kept max w w' (publishes st p e stage) v =
    same-Kept max w.shared _ (startup_publish-SameBooks st (some p) w.shared) v
Step-Kept max w w' (publishes_failure st e stage) v =
    same-Kept max w.shared _ (startup_publish-SameBooks st none w.shared) v
Step-Kept max w w' (closes_refused st p e stage) v = v
Step-Kept max w w' (finishes st e stage) v =
    same-Kept max w.shared _ (startup_finish-SameBooks w.shared) v
Step-Kept max w w' (exits p) v = v
Step-Kept max w w' idle_fires v = same-Kept max w.shared _ (reap_downstream-SameBooks w.shared) v
Step-Kept max w w' closes_all v = close_all-Kept max w.shared v
Step-Kept max w w' closes_ended v = same-Kept max w.shared _ (close_ended-SameBooks w.shared) v
Step-Kept max w w' (checks_health p succeeded says_closed) v =
    same-Kept max w.shared _ (health_check_result-SameBooks p succeeded says_closed w.shared) v

Reach-Kept : (max : ℕ) (w w' : System) → Reach w w' → Kept max w.shared → Kept max w'.shared
Reach-Kept max w w' here v = v
Reach-Kept max w w' (next {t = u} r step) v = Step-Kept max u w' step (Reach-Kept max w u r v)

new-Kept : (max idle session : ℕ) → Kept max (new_shared_session_manager max idle session)
unfolding new_shared_session_manager lookup
new-Kept max idle session = record {
  same_limit = refl;
  distinct_upstream = tt;
  distinct_sessions = tt;
  count_upstream = refl;
  count_sessions = refl;
  agree = λ sid. refl;
  within = λ h. omega arith;
}

no_panic :
    (max : ℕ) (sid : String) (now : ℕ) (s : Shared)
    → Kept max s
    → ¬ (admission_begin sid now s ≡ none)
unfolding admission_begin await_admission track
no_panic max sid now s v e = elim (Option-cases (lookup sid s.upstream_sessions)) [
  | inl new ↦
      ground (arith, e, new, lookup-insert_self sid (new_session s.next_address now) s.sessions)
  | inr (u, there) ↦ ground (arith, e, there, v.agree sid)
]

-- The count of upstream sessions is right however the critical sections interleave: it is the
-- number of the sessions that are listed and of those that are tracked, which are the same ones; it
-- stays within a limit that is on; and no admission meets a session that is listed and not tracked,
-- on which it would panic.
pub count_right :
    (max idle session now : ℕ) (sid : String) (w : System)
    → Reach (fresh_system max idle session) w
    → (w.shared.ref_count ≡ length w.shared.upstream_sessions)
      × (w.shared.ref_count ≡ length w.shared.sessions)
      × (0 < max → w.shared.ref_count ≤ max)
      × (is_some (lookup sid w.shared.upstream_sessions) ≡ is_some (lookup sid w.shared.sessions))
      × ¬ (admission_begin sid now w.shared ≡ none)
count_right max idle session now sid w r =
    let v = Reach-Kept max (fresh_system max idle session) w r (new-Kept max idle session) in
    (v.count_upstream, v.count_sessions, v.within, v.agree sid, no_panic max sid now w.shared v)
