-- ===== src/Session/Shared/Processes.antt =====
-- internal/session/shared.go: at most one subprocess runs.
use vision_mcp_manager.Base.{
  ℕ, suc, ◌≤◌, ◌≡◌, refl, ap, ◌∙◌, sym, subst, inl, inr, arith, Bool, true, false, not, ◌&&◌, ◌||◌,
  Option, none, some, ok, List, [], ltb, nat_beq, length, if-branches, Option-branches,
  Option-branches_eq,
}
use vision_mcp_manager.Session.Shared.{
  Stage, draining, cleared, closed_old, failed, spawned, refused, published, SharedStartup, Shared,
  new_shared_session_manager, arm_idle_timer, SpawnReason, health_respawn,
}
use vision_mcp_manager.Session.Shared.Startup.{
  is_in, without, is_some, is_downstream, downstream_exited, reserve_drain,
  max_consecutive_health_check_timeouts, Lookup, lookup_reason, start_downstream,
  get_or_create_downstream, reap_downstream, health_check_result,
}
use vision_mcp_manager.Session.Shared.Frames.{
  SameProcess, admission_begin-Untouched, admission_end-Untouched, remove_session-Untouched,
  touch_session-Untouched, request_enter-Untouched, reap_expired_sessions-Untouched,
  request_release-SameProcess, request_admit-SameProcess,
}
use vision_mcp_manager.Session.Shared.Steps.{
  System, fresh_system, exited, Step, admits, ends_admission, removes, touches, enters, dispatches,
  releases, reaps_sessions, looks_up, clears, closes_old, spawns, publishes, publishes_failure,
  closes_refused, finishes, exits, idle_fires, closes_all, closes_ended, checks_health, Reach, here,
  next,
}
use vision_mcp_manager.Session.Shared.Stages.{
  AtMost, held, held-none, AtMost-none, AtStage, Running, Sole, same-Sole, closed-AtMost,
  close_ended-Sole, startup_refuse-Sole, without-Running, close_all-Sole, AtStage-of,
  startup_clear-Sole, startup_close-Sole, startup_spawn-Sole, startup_publish-Sole,
  publish_failure-Sole, arm_idle_timer-SameProcess, startup_finish-Sole,
}

exited-Sole : (p : ℕ) (s : Shared) → Sole s → Sole (exited p s)
exited-Sole p s v = record {
  running = without-Running p s.starting s.downstream s.ending s.live v.running;
  ended = v.ended;
  used = v.used;
}

-- While the manager is open and no startup is under way, only the process in use runs.
in_use : (s : Shared) → s.closed ≡ false → s.starting ≡ none → Sole s → AtMost s.downstream s.live
in_use s alive idle v =
    subst (λ o. AtMost o s.live) (ap (held s.downstream) (v.used alive) ∙ held-none s.downstream)
      (subst (λ x. Running x s.downstream s.ending s.live) idle v.running)

-- A startup begins only where none is under way and the manager is open.
start_downstream-Sole :
    (reason : SpawnReason) (drain : Option ℕ) (s : Shared)
    → s.closed ≡ false
    → s.starting ≡ none
    → Sole s
    → Sole (start_downstream reason drain s)
unfolding start_downstream
start_downstream-Sole reason drain s alive idle v = record {
  running = (in_use s alive idle v, inl refl);
  ended = v.ended;
  used = v.used;
}

get_or_create_downstream-Sole : (s : Shared) → Sole s → Sole (get_or_create_downstream s).0
unfolding get_or_create_downstream
get_or_create_downstream-Sole s v =
    if-branches (λ (r : Shared × Lookup). Sole r.0) s.closed _ _ (λ _. v)
      λ alive.
        Option-branches_eq (λ (r : Shared × Lookup). Sole r.0) s.starting _ _
          (λ idle.
            Option-branches (λ (r : Shared × Lookup). Sole r.0) s.downstream _ _
              (start_downstream-Sole (lookup_reason s) none s alive idle v)
              (λ p there.
                if-branches (λ (r : Shared × Lookup). Sole r.0) (is_in p s.exited) _ _
                  (λ _. start_downstream-Sole (lookup_reason s) none s alive idle v) (λ _. v)))
          (λ st there. v)

reap_downstream-Sole : (s : Shared) → Sole s → Sole (reap_downstream s)
unfolding reap_downstream
reap_downstream-Sole s v =
    if-branches Sole (not (nat_beq s.ref_count 0) || s.closed) _ _ (λ _. v)
      λ unreferenced.
        if-branches Sole (is_some s.starting || not (nat_beq s.active_requests 0)) _ _
          (λ _. same-Sole s (arm_idle_timer s) (arm_idle_timer-SameProcess s) v)
          (λ still.
            let idle : s.starting ≡ none = ground (arith, still) in
            let alive : s.closed ≡ false = ground (arith, unreferenced) in
            let running = in_use s alive idle v in
            Option-branches_eq Sole s.downstream _ _
              (λ e. record { running = v.running; ended = v.ended; used = v.used })
              (λ p e. record {
                running =
                    subst (λ x. Running x none s.ending (without p s.live)) (sym idle)
                      (AtMost-none s.ending (without p s.live)
                        (closed-AtMost p s.live (subst (λ x. AtMost x s.live) e running)));
                ended = λ over. refl;
                used = v.used;
              }))

reserve_drain-SameProcess :
    (transport_closed : Bool) (s : Shared) → SameProcess s (reserve_drain transport_closed s).0
reserve_drain-SameProcess transport_closed s = ground arith

health_check_result-Sole :
    (p : ℕ) (succeeded says_closed : Bool) (s : Shared)
    → Sole s
    → Sole (health_check_result p succeeded says_closed s)
unfolding health_check_result
health_check_result-Sole p succeeded says_closed s v =
    if-branches Sole (s.closed || not (is_downstream p s) || is_some s.starting) _ _ (λ _. v)
      λ checked.
        let idle : s.starting ≡ none = ground (arith, checked) in
        let s' = record s { health_check_failures = suc s.health_check_failures } in
        let transport_closed = downstream_exited s || says_closed in
        let w : Sole s' = record { running = v.running; ended = v.ended; used = v.used } in
        let alive : s.closed ≡ false = ground (arith, checked) in
        if-branches Sole succeeded _ _
          (λ _. record { running = v.running; ended = v.ended; used = v.used })
          λ _.
            if-branches Sole
              (not transport_closed
                && ltb s'.health_check_failures max_consecutive_health_check_timeouts)
              _ _ (λ _. w)
              λ _.
                let (reserved, drain) = reserve_drain transport_closed s' in
                let same : SameProcess s' reserved =
                  reserve_drain-SameProcess transport_closed s' in
                start_downstream-Sole health_respawn drain reserved (same.closed ∙ alive)
                  (same.starting ∙ idle) (same-Sole s' reserved same w)

Step-Sole : (w w' : System) → Step w w' → Sole w.shared → Sole w'.shared
Step-Sole w w' (admits sid now {s} {r} e) v =
    same-Sole w.shared s (admission_begin-Untouched sid now w.shared s r e).0 v
Step-Sole w w' (ends_admission sid address ready now) v =
    same-Sole w.shared _ (admission_end-Untouched sid address ready now w.shared).0 v
Step-Sole w w' (removes sid) v = same-Sole w.shared _ (remove_session-Untouched sid w.shared).0 v
Step-Sole w w' (touches sid now) v =
    same-Sole w.shared _ (touch_session-Untouched sid now w.shared).0 v
Step-Sole w w' (enters n sid address {s} free e) v =
    same-Sole w.shared s (request_enter-Untouched sid w.shared s (ok address) e).0 v
Step-Sole w w' (dispatches n r {s} there new gate e) v =
    same-Sole w.shared s (request_admit-SameProcess r.session_id r.address w.shared s e) v
Step-Sole w w' (releases n r there) v =
    same-Sole w.shared _ (request_release-SameProcess r.session_id r.address r.admitted w.shared) v
Step-Sole w w' (reaps_sessions now) v =
    same-Sole w.shared _ (reap_expired_sessions-Untouched now w.shared).0 v
Step-Sole w w' looks_up v = get_or_create_downstream-Sole w.shared v
Step-Sole w w' (clears st e stage may) v =
    startup_clear-Sole st w.shared v (AtStage-of w.shared st draining v e stage)
Step-Sole w w' (closes_old st e stage) v =
    startup_close-Sole st w.shared v (AtStage-of w.shared st cleared v e stage)
Step-Sole w w' (spawns st p e stage) v =
    startup_spawn-Sole st p w.shared v (AtStage-of w.shared st closed_old v e stage)
Step-Sole w w' (publishes st p e stage) v =
    startup_publish-Sole st p w.shared v (AtStage-of w.shared st (spawned p) v e stage)
Step-Sole w w' (publishes_failure st e stage) v =
    publish_failure-Sole st w.shared v (AtStage-of w.shared st failed v e stage)
Step-Sole w w' (closes_refused st p e stage) v =
    startup_refuse-Sole st p w.shared v (AtStage-of w.shared st (refused p) v e stage)
Step-Sole w w' (finishes st e stage) v =
    startup_finish-Sole st w.shared v (AtStage-of w.shared st published v e stage)
Step-Sole w w' (exits p) v = exited-Sole p w.shared v
Step-Sole w w' idle_fires v = reap_downstream-Sole w.shared v
Step-Sole w w' closes_all v = close_all-Sole w.shared v
Step-Sole w w' closes_ended v = close_ended-Sole w.shared v
Step-Sole w w' (checks_health p succeeded says_closed) v =
    health_check_result-Sole p succeeded says_closed w.shared v

Reach-Sole : (w w' : System) → Reach w w' → Sole w.shared → Sole w'.shared
Reach-Sole w w' here v = v
Reach-Sole w w' (next {t = u} r step) v = Step-Sole u w' step (Reach-Sole w u r v)

AtMost-length : (o : Option ℕ) (live : List ℕ) → AtMost o live → length live ≤ 1
AtMost-length none live v = ground (arith, ap length v)
AtMost-length (some p) live (inl v) = ground (arith, ap length v)
AtMost-length (some p) live (inr v) = ground (arith, ap length v)

AtStage-length :
    (stage : Stage) (old d e : Option ℕ) (live : List ℕ)
    → AtStage stage old d e live
    → length live ≤ 1
AtStage-length draining old d e live v = AtMost-length old live v.0
AtStage-length cleared old d e live v = AtMost-length old live v.1
AtStage-length closed_old old d e live v = AtMost-length none live v.1
AtStage-length failed old d e live v = AtMost-length none live v.1
AtStage-length (spawned p) old d e live v = AtMost-length (some p) live v.1
AtStage-length (refused p) old d e live v = AtMost-length (some p) live v.1
AtStage-length published old d e live v = AtMost-length (held d e) live v

Running-length :
    (starting : Option SharedStartup) (d e : Option ℕ) (live : List ℕ)
    → Running starting d e live
    → length live ≤ 1
Running-length none d e live v = AtMost-length (held d e) live v
Running-length (some st) d e live v = AtStage-length st.stage st.old d e live v

new-Sole :
    (max_sessions idle session : ℕ) → Sole (new_shared_session_manager max_sessions idle session)
unfolding new_shared_session_manager
new-Sole max_sessions idle session = record { running = refl; ended = λ e. refl; used = λ e. refl }

-- One subprocess serves all sessions. However the critical sections of callers, startups, timers,
-- health checks and the manager's end interleave with each other and with the closings outside
-- them, and whenever processes exit by themselves or fail to start, at most one subprocess of the
-- manager runs; and when the manager has been closed, its end has closed the process that it gave
-- up and no startup is under way, none does.
pub sole_process :
    (max_sessions idle session : ℕ) (w : System)
    → Reach (fresh_system max_sessions idle session) w
    → (length w.shared.live ≤ 1)
      × (w.shared.closed ≡ true
          → w.shared.ending ≡ none
          → w.shared.starting ≡ none
          → w.shared.live ≡ [])
sole_process max_sessions idle session w r =
    let v =
      Reach-Sole (fresh_system max_sessions idle session) w r
        (new-Sole max_sessions idle session) in
    let s = w.shared in
    (
      Running-length s.starting s.downstream s.ending s.live v.running,
      λ over ended quiet.
          subst (λ o. AtMost o s.live) (ap (λ d. held d s.ending) (v.ended over) ∙ ended)
            (subst (λ x. Running x s.downstream s.ending s.live) quiet v.running),
    )
