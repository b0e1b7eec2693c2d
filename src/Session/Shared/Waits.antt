-- ===== src/Session/Shared/Waits.antt =====
-- internal/session/shared.go: who waits for whom, under every interleaving.
use vision_mcp_manager.Base.{
  ℕ, ◌<◌, ◌≡◌, refl, ap, ◌∙◌, inl, inr, arith, true, none, some, ok, lookup, nat_eq, Option-cases,
  count, count-erase,
}
use vision_mcp_manager.Session.Shared.{
  SharedStartup, Shared, new_shared_session_manager, arm_idle_timer,
}
use vision_mcp_manager.Session.Shared.Startup.{is_in, is_some, may_proceed, reap_downstream}
use vision_mcp_manager.Session.Shared.Frames.{
  admission_begin-Untouched, admission_end-Untouched, remove_session-Untouched,
  touch_session-Untouched, request_enter-Untouched, reap_expired_sessions-Untouched,
}
use vision_mcp_manager.Session.Shared.Steps.{
  Request, System, fresh_system, exited, Step, admits, ends_admission, removes, touches, enters,
  dispatches, releases, reaps_sessions, looks_up, clears, closes_old, spawns, publishes,
  publishes_failure, closes_refused, finishes, exits, idle_fires, closes_all, closes_ended,
  checks_health, Reach, here, next,
}
use vision_mcp_manager.Session.Shared.Drains.{
  drain_of, is_admitted, Counted, shared-Counted, Untouched-Counted, enters-Counted,
  dispatches-Counted, releases-Counted, get_or_create_downstream-Eases, startup_clear-Eases,
  startup_close-Eases, startup_spawn-Eases, startup_publish-Eases, startup_finish-Eases,
  reap_downstream-Eases, close_all-Eases, close_ended-Eases, startup_refuse-Eases,
  health_check_result-Sync,
}

Step-Counted : (w w' : System) → Step w w' → Counted w → Counted w'
Step-Counted w w' (admits sid now {s} {r} e) v =
    Untouched-Counted w s (admission_begin-Untouched sid now w.shared s r e) v
Step-Counted w w' (ends_admission sid address ready now) v =
    Untouched-Counted w _ (admission_end-Untouched sid address ready now w.shared) v
Step-Counted w w' (removes sid) v = Untouched-Counted w _ (remove_session-Untouched sid w.shared) v
Step-Counted w w' (touches sid now) v =
    Untouched-Counted w _ (touch_session-Untouched sid now w.shared) v
Step-Counted w w' (enters n sid address {s} free e) v =
    enters-Counted w n _ s free refl (request_enter-Untouched sid w.shared s (ok address) e) v
Step-Counted w w' (dispatches n r {s} there new gate e) v = dispatches-Counted w n r s there new e v
Step-Counted w w' (releases n r there) v = releases-Counted w n r there v
Step-Counted w w' (reaps_sessions now) v =
    Untouched-Counted w _ (reap_expired_sessions-Untouched now w.shared) v
Step-Counted w w' looks_up v = shared-Counted w _ (get_or_create_downstream-Eases w.shared) v
Step-Counted w w' (clears st e stage may) v =
    shared-Counted w _ (startup_clear-Eases st w.shared e) v
Step-Counted w w' (closes_old st e stage) v =
    shared-Counted w _ (startup_close-Eases st w.shared e) v
Step-Counted w w' (spawns st p e stage) v =
    shared-Counted w _ (startup_spawn-Eases st p w.shared e) v
Step-Counted w w' (publishes st p e stage) v =
    shared-Counted w _ (startup_publish-Eases st (some p) w.shared e) v
Step-Counted w w' (publishes_failure st e stage) v =
    shared-Counted w _ (startup_publish-Eases st none w.shared e) v
Step-Counted w w' (closes_refused st p e stage) v =
    shared-Counted w _ (startup_refuse-Eases st p w.shared e) v
Step-Counted w w' (finishes st e stage) v = shared-Counted w _ (startup_finish-Eases w.shared) v
Step-Counted w w' (exits p) v =
    shared-Counted w (exited p w.shared)
      (record {
        requests = record { active = refl; waited = refl; drained = refl };
        drain = inl refl;
      })
      v
Step-Counted w w' idle_fires v = shared-Counted w _ (reap_downstream-Eases w.shared) v
Step-Counted w w' closes_all v = shared-Counted w _ (close_all-Eases w.shared) v
Step-Counted w w' closes_ended v = shared-Counted w _ (close_ended-Eases w.shared) v
Step-Counted w w' (checks_health p succeeded says_closed) v = record {
  distinct = v.distinct;
  sync =
      health_check_result-Sync (count is_admitted w.requests) p succeeded says_closed w.shared
        v.sync;
}

Reach-Counted : (w w' : System) → Reach w w' → Counted w → Counted w'
Reach-Counted w w' here v = v
Reach-Counted w w' (next {t = u} r step) v = Step-Counted u w' step (Reach-Counted w u r v)

new-Counted : (max idle session : ℕ) → Counted (fresh_system max idle session)
unfolding new_shared_session_manager
new-Counted max idle session = record {
  distinct = tt;
  sync = record {
    active = refl;
    waited = λ h. absurd (ground (arith, h));
    awaited = λ ch e. absurd (ground (arith, e));
  };
}

-- An active request is counted.
active-positive :
    (n : ℕ) (r : Request) (w : System)
    → Counted w
    → lookup n w.requests ≡ some r
    → r.admitted ≡ true
    → 0 < w.shared.active_requests
active-positive n r w v there admitted =
    ground (arith, v.sync.active, count-erase is_admitted n r w.requests v.distinct there, admitted)

busy_stays : (s : Shared) → 0 < s.active_requests → (reap_downstream s).downstream ≡ s.downstream
unfolding reap_downstream arm_idle_timer
busy_stays s busy = ground (arith, busy)

busy_lives : (s : Shared) → 0 < s.active_requests → (reap_downstream s).live ≡ s.live
unfolding reap_downstream arm_idle_timer
busy_lives s busy = ground (arith, busy)

-- The idle timer spares requests. However the critical sections interleave, while some dispatched
-- request has not been released, an idle timer that fires, even after it was stopped, leaves the
-- subprocess in use and running.
pub reap_spares_requests :
    (max idle session n : ℕ) (r : Request) (w : System)
    → Reach (fresh_system max idle session) w
    → lookup n w.requests ≡ some r
    → r.admitted ≡ true
    → ((reap_downstream w.shared).downstream ≡ w.shared.downstream)
      × ((reap_downstream w.shared).live ≡ w.shared.live)
reap_spares_requests max idle session n r w reach there admitted =
    let v = Reach-Counted (fresh_system max idle session) w reach (new-Counted max idle session) in
    let busy = active-positive n r w v there admitted in
    (busy_stays w.shared busy, busy_lives w.shared busy)

drained-proceeds :
    (st : SharedStartup) (ch : ℕ) (s : Shared)
    → st.drain ≡ some ch
    → is_in ch s.drained ≡ true
    → may_proceed st s ≡ true
unfolding may_proceed
drained-proceeds st ch s e over = ground (arith, e, over)

no_drain-proceeds : (st : SharedStartup) (s : Shared) → st.drain ≡ none → may_proceed st s ≡ true
unfolding may_proceed
no_drain-proceeds st s e = ground (arith, e)

-- No drain is waited for in vain. However the critical sections interleave, when no dispatched
-- request is left to be released, a startup that waits for the drain may proceed: the channel that
-- it waits for has been closed.
pub drain_wakes :
    (max idle session : ℕ) (st : SharedStartup) (w : System)
    → Reach (fresh_system max idle session) w
    → w.shared.starting ≡ some st
    → count is_admitted w.requests ≡ 0
    → may_proceed st w.shared ≡ true
drain_wakes max idle session st w reach e none_left =
    let v = Reach-Counted (fresh_system max idle session) w reach (new-Counted max idle session) in
    elim (Option-cases st.drain) [
      | inl quiet ↦ no_drain-proceeds st w.shared quiet
      | inr (ch, waits) ↦ elim (v.sync.awaited ch (ap drain_of e ∙ waits)) [
        | inl over ↦ drained-proceeds st ch w.shared waits over
        | inr last ↦
            absurd (omega (arith, v.sync.waited (ap is_some last), v.sync.active, none_left))
      ]
    ]
