-- ===== src/Mcp/Disconnect/Kept.antt =====
-- internal/mcp/disconnect.go: requests, releases and the stop keep the books of timers.
use vision_mcp_manager.Base.{
  ℕ, suc, ◌+◌, ◌-◌, ◌<◌, ◌≡◌, refl, sym, subst, arith, true, not, Option, none, some, String, [],
  ◌∷◌, leb, Option-branches, if-branches, Dict, lookup, insert, erase, string_eq, nat_eq,
}
use vision_mcp_manager.Mcp.Disconnect.Timers.{
  session_at, session_at-stop, OwnTimer, Timers, Inv, busy-Timers, idle-Timers, gone-Timers,
}
use vision_mcp_manager.Mcp.Disconnect.{
  ConnTracker, Timer, DisconnectTracker, stop_timer, or_new, track_request, release_connection,
  handle_delete, stop_timers, stop,
}

pub track-Inv : (sid : String) (dt : DisconnectTracker) → Inv dt → Inv (track_request sid dt)
unfolding track_request
track-Inv sid dt v =
    if-branches {B = DisconnectTracker} Inv dt.stopped _ _ (λ halted. v)
      (λ runs.
        busy-Timers sid (suc (or_new (lookup sid dt.sessions)).ref_count) dt.sessions dt.armed
          dt.fired dt.next_timer (omega arith) v)

pub delete-Inv : (sid : String) (dt : DisconnectTracker) → Inv dt → Inv (handle_delete sid dt)
unfolding handle_delete
delete-Inv sid dt v =
    Option-branches {B = DisconnectTracker} Inv (lookup sid dt.sessions) _ _ v (λ ct known.
      subst
        (λ o.
          Timers (erase sid dt.sessions) (stop_timer (or_new o).timer dt.armed) dt.fired
            dt.next_timer)
        known (gone-Timers sid dt.sessions dt.armed dt.fired dt.next_timer v))

-- A session with a connection has no timer.
own-none :
    (armed : Dict ℕ Timer) (fired : Dict ℕ String) (sid : String) (count : ℕ) (timer : Option ℕ)
    → OwnTimer armed fired sid count timer
    → 0 < count
    → none ≡ timer
own-none armed fired sid count none own p = refl
own-none armed fired sid count (some t) own p = absurd (omega (arith, own.0, p))

fewer-Inv :
    (sid : String) (ct : ConnTracker) (dt : DisconnectTracker)
    → Inv dt
    → lookup sid dt.sessions ≡ some ct
    → 1 < ct.ref_count
    → Timers
        (insert sid (record { ref_count = ct.ref_count - 1; timer = ct.timer }) dt.sessions)
        dt.armed
        dt.fired
        dt.next_timer
fewer-Inv sid ct dt v known h =
    let no_timer =
      own-none dt.armed dt.fired sid ct.ref_count ct.timer (v.settled sid ct known)
        (omega (arith, h)) in
    let timers =
      subst
        (λ o.
          Timers (insert sid (record { ref_count = ct.ref_count - 1; timer = none }) dt.sessions)
            (stop_timer (or_new o).timer dt.armed) dt.fired dt.next_timer)
        known
        (busy-Timers sid (ct.ref_count - 1) dt.sessions dt.armed dt.fired dt.next_timer
          (omega (arith, h)) v) in
    subst
      (λ t.
        Timers (insert sid (record { ref_count = ct.ref_count - 1; timer = t }) dt.sessions)
          dt.armed dt.fired dt.next_timer)
      no_timer
      (subst
        (λ t.
          Timers (insert sid (record { ref_count = ct.ref_count - 1; timer = none }) dt.sessions)
            (stop_timer t dt.armed) dt.fired dt.next_timer)
        (sym no_timer) timers)

-- A stopped tracker has no sessions.
abbrev pub Halted : DisconnectTracker → Type 0
Halted dt = dt.stopped ≡ true → (sid : String) → lookup sid dt.sessions ≡ none

pub release-Inv :
    (now : ℕ) (sid : String) (dt : DisconnectTracker)
    → Halted dt
    → Inv dt
    → Inv (release_connection now sid dt)
unfolding release_connection
release-Inv now sid dt h v =
    Option-branches {B = DisconnectTracker} Inv (lookup sid dt.sessions) _ _ v (λ ct known.
      if-branches {B = DisconnectTracker} Inv (not (leb ct.ref_count 1)) _ _
        (λ more. fewer-Inv sid ct dt v known (ground (arith, more)))
        (λ last.
          if-branches {B = DisconnectTracker} Inv dt.stopped _ _
            (λ halted. absurd (ground (arith, known, h halted sid)))
            (λ runs.
              subst
                (λ o.
                  Timers
                    (insert sid (record { ref_count = 0; timer = some dt.next_timer }) dt.sessions)
                    (insert dt.next_timer (record { session_id = sid; due = now + dt.grace_period })
                      (stop_timer (or_new o).timer dt.armed))
                    dt.fired (suc dt.next_timer))
                known
                (idle-Timers sid (now + dt.grace_period) dt.sessions dt.armed dt.fired dt.next_timer
                  v))))

session_at-stop_timers :
    (sessions : Dict String ConnTracker) (armed : Dict ℕ Timer) (t : ℕ) (s : String)
    → session_at t (stop_timers sessions armed) ≡ some s
    → session_at t armed ≡ some s
session_at-stop_timers [] armed t s e = e
session_at-stop_timers ((sid, ct) ∷ sessions) armed t s e =
    session_at-stop ct.timer armed t s
      (session_at-stop_timers sessions (stop_timer ct.timer armed) t s e)

pub stop-Inv : (dt : DisconnectTracker) → Inv dt → Inv (stop dt)
unfolding stop lookup
stop-Inv dt v = record {
  settled = λ s ct e. absurd (cc);
  once = λ t s e. v.once t s (session_at-stop_timers dt.sessions dt.armed t s e);
  old = λ t s e. v.old t s (session_at-stop_timers dt.sessions dt.armed t s e);
  old_fired = v.old_fired;
}
