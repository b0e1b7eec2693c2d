-- ===== src/Mcp/Disconnect/Grace.antt =====
-- internal/mcp/disconnect.go: which sessions have a timer, and what a timer reaps.
use vision_mcp_manager.Base.{
  ℕ, suc, ◌<◌, ◌≡◌, refl, arith, Bool, true, false, not, none, String, List, [], ◌∷◌, leb,
  Option-branches, Option-branches_eq, if-branches, lookup, insert, string_eq, nat_eq,
  lookup-insert, lookup-erase,
}
use vision_mcp_manager.Mcp.Disconnect.Timers.{Inv, fired-Timers, reaped-Timers}
use vision_mcp_manager.Mcp.Disconnect.{
  ConnTracker, DisconnectTracker, new_disconnect_tracker, or_new, track_request, release_connection,
  handle_delete, stop, ref_count_of, default_reap, fire, run_callback,
}
use vision_mcp_manager.Mcp.Disconnect.Kept.{track-Inv, delete-Inv, Halted, release-Inv, stop-Inv}

fire-Inv : (now t : ℕ) (dt : DisconnectTracker) → Inv dt → Inv (fire now t dt)
unfolding fire
fire-Inv now t dt v =
    Option-branches_eq {B = DisconnectTracker} Inv (lookup t dt.armed) _ _ (λ _. v)
      (λ timer armed.
        if-branches {B = DisconnectTracker} Inv (leb timer.due now) _ _
          (λ due. fired-Timers t timer dt.sessions dt.armed dt.fired dt.next_timer armed v)
          (λ early. v))

run_callback-Inv :
    (known_to : String → Bool) (t : ℕ) (dt : DisconnectTracker)
    → Inv dt
    → Inv (run_callback known_to t dt)
unfolding run_callback default_reap
run_callback-Inv known_to t dt v =
    Option-branches_eq {B = DisconnectTracker} Inv (lookup t dt.fired) _ _ (λ _. v)
      (λ sid fired. reaped-Timers t sid dt.sessions dt.armed dt.fired dt.next_timer fired v)

pub data Event : Type 0 where
  connects : String → Event
  disconnects : ℕ → String → Event
  deletes : String → Event
  stops : Event
  fires : ℕ → ℕ → Event
  calls_back : ℕ → Event

unfoldable pub step : (known_to : String → Bool) → Event → DisconnectTracker → DisconnectTracker
step known_to (connects sid) dt = track_request sid dt
step known_to (disconnects now sid) dt = release_connection now sid dt
step known_to (deletes sid) dt = handle_delete sid dt
step known_to stops dt = stop dt
step known_to (fires now t) dt = fire now t dt
step known_to (calls_back t) dt = run_callback known_to t dt

unfoldable pub run : (known_to : String → Bool) → DisconnectTracker → List Event → DisconnectTracker
run known_to dt [] = dt
run known_to dt (e ∷ es) = run known_to (step known_to e dt) es

step-Halted :
    (known_to : String → Bool) (e : Event) (dt : DisconnectTracker)
    → Halted dt
    → Halted (step known_to e dt)
unfolding step track_request release_connection handle_delete stop fire run_callback default_reap
step-Halted known_to (connects sid) dt h =
    if-branches {B = DisconnectTracker} Halted dt.stopped _ _ (λ halted. h)
      (λ runs halted. absurd (ground (arith, runs, halted)))
step-Halted known_to (disconnects now sid) dt h =
    Option-branches {B = DisconnectTracker} Halted (lookup sid dt.sessions) _ _ h (λ ct known.
      let untracked : dt.stopped ≡ true → lookup sid dt.sessions ≡ none = λ p. h p sid in
      let goes_on : dt.stopped ≡ false = ground (arith, known, untracked) in
      if-branches {B = DisconnectTracker} Halted (not (leb ct.ref_count 1)) _ _
        (λ more halted. absurd (ground (arith, goes_on, halted)))
        (λ last.
          if-branches {B = DisconnectTracker} Halted dt.stopped _ _
            (λ p. absurd (ground (arith, goes_on, p)))
            (λ runs halted. absurd (ground (arith, runs, halted)))))
step-Halted known_to (deletes sid) dt h =
    Option-branches {B = DisconnectTracker} Halted (lookup sid dt.sessions) _ _ h
      (λ ct known halted s. ground (arith, lookup-erase sid s dt.sessions, h halted s))
step-Halted known_to stops dt h = λ halted s. unfold lookup in refl
step-Halted known_to (fires now t) dt h =
    Option-branches {B = DisconnectTracker} Halted (lookup t dt.armed) _ _ h (λ timer armed.
      if-branches {B = DisconnectTracker} Halted (leb timer.due now) _ _ (λ due. h) (λ early. h))
step-Halted known_to (calls_back t) dt h =
    Option-branches {B = DisconnectTracker} Halted (lookup t dt.fired) _ _ h
      (λ sid fired halted s. ground (arith, lookup-erase sid s dt.sessions, h halted s))

step-Inv :
    (known_to : String → Bool) (e : Event) (dt : DisconnectTracker)
    → Halted dt
    → Inv dt
    → Inv (step known_to e dt)
unfolding step
step-Inv known_to (connects sid) dt h v = track-Inv sid dt v
step-Inv known_to (disconnects now sid) dt h v = release-Inv now sid dt h v
step-Inv known_to (deletes sid) dt h v = delete-Inv sid dt v
step-Inv known_to stops dt h v = stop-Inv dt v
step-Inv known_to (fires now t) dt h v = fire-Inv now t dt v
step-Inv known_to (calls_back t) dt h v = run_callback-Inv known_to t dt v

run-Inv :
    (known_to : String → Bool) (dt : DisconnectTracker) (es : List Event)
    → Halted dt
    → Inv dt
    → Inv (run known_to dt es)
unfolding run
run-Inv known_to dt [] h v = v
run-Inv known_to dt (e ∷ es) h v =
    run-Inv known_to (step known_to e dt) es (step-Halted known_to e dt h)
      (step-Inv known_to e dt h v)

-- No idle session is left without a reaper. After every history of a tracker, in which the callback
-- of a timer may run any time after the timer has fired, a tracked session has either an open
-- connection and no timer, or none and a timer of its own, which is armed for it or has fired for it
-- with its callback on its way; and no timer is both.
pub timers_agree :
    (known_to : String → Bool) (grace : ℕ) (es : List Event)
    → Inv (run known_to (new_disconnect_tracker grace) es)
timers_agree known_to grace es =
    run-Inv known_to (new_disconnect_tracker grace) es
      (unfold new_disconnect_tracker in λ p s. absurd (ground (arith, p)))
      (unfold new_disconnect_tracker lookup in
        record {
          settled = λ s ct e. absurd (cc);
          once = λ t s e. absurd (cc);
          old = λ t s e. absurd (cc);
          old_fired = λ t s e. absurd (cc);
        })

-- A reap can come late. Where a session reconnects after its timer has fired and before the callback
-- holds the mutex, the callback still forgets the session and closes it, while its connection is
-- open.
pub late_reap :
    (known_to : String → Bool) (sid : String) (dt : DisconnectTracker)
    → dt.stopped ≡ false
    → known_to sid ≡ true
    → (0 < ref_count_of sid (track_request sid dt))
      × (ref_count_of sid (default_reap known_to sid (track_request sid dt)) ≡ 0)
      × ((default_reap known_to sid (track_request sid dt)).closed ≡ sid ∷ dt.closed)
unfolding track_request default_reap ref_count_of
late_reap known_to sid dt runs known =
    let ct : ConnTracker = record {
      ref_count = suc (or_new (lookup sid dt.sessions)).ref_count;
      timer = none;
    } in
    let sessions = insert sid ct dt.sessions in
    (
      ground (arith, runs, lookup-insert sid sid ct dt.sessions, string_eq.beq_iff sid sid),
      ground (arith, runs, lookup-erase sid sid sessions, string_eq.beq_iff sid sid),
      ground (arith, runs, known),
    )
