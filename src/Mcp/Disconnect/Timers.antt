-- ===== src/Mcp/Disconnect/Timers.antt =====
-- internal/mcp/disconnect.go: the timers and the sessions that they are for, change by change.
use vision_mcp_manager.Base.{
  ℕ, suc, ◌<◌, ◌≡◌, ◌≢◌, ◌⊎◌, refl, subst, inl, inr, arith, Option, none, some, String, nat_beq,
  if◌then◌else◌, Bool-cases, Option-cases, ◌==◌, Dict, lookup, insert, erase, string_eq, nat_eq,
  lookup-insert, lookup-erase,
}
use vision_mcp_manager.Mcp.Disconnect.{ConnTracker, Timer, DisconnectTracker, stop_timer, or_new}

-- The session that an armed timer is for.
abbrev pub session_at : ℕ → Dict ℕ Timer → Option String
session_at t armed = elim (lookup t armed) [ none ↦ none | some timer ↦ some timer.session_id ]

pub session_at-insert :
    (t j : ℕ) (timer : Timer) (armed : Dict ℕ Timer)
    → session_at j (insert t timer armed)
      ≡ (if nat_beq t j then some timer.session_id else session_at j armed)
session_at-insert t j timer armed = ground (arith, lookup-insert t j timer armed)

pub session_at-erase :
    (t j : ℕ) (armed : Dict ℕ Timer)
    → session_at j (erase t armed) ≡ (if nat_beq t j then none else session_at j armed)
session_at-erase t j armed = ground (arith, lookup-erase t j armed)

-- A connection is open and no timer is set, or none is and the timer is armed for the session, or has
-- fired for it and its callback is on its way.
abbrev pub OwnTimer : Dict ℕ Timer → Dict ℕ String → String → ℕ → Option ℕ → Type 0
OwnTimer armed fired sid count none = 0 < count
OwnTimer armed fired sid count (some t) =
    (count ≡ 0) × ((session_at t armed ≡ some sid) ⊎ (lookup t fired ≡ some sid))

pub record Timers (sessions : Dict String ConnTracker) (armed : Dict ℕ Timer)
    (fired : Dict ℕ String) (fresh : ℕ) : Type 0 where
  pub settled :
      (sid : String) (ct : ConnTracker)
      → lookup sid sessions ≡ some ct
      → OwnTimer armed fired sid ct.ref_count ct.timer
  pub once : (t : ℕ) (sid : String) → session_at t armed ≡ some sid → lookup t fired ≡ none
  pub old : (t : ℕ) (sid : String) → session_at t armed ≡ some sid → t < fresh
  pub old_fired : (t : ℕ) (sid : String) → lookup t fired ≡ some sid → t < fresh

abbrev pub Inv : DisconnectTracker → Type 0
Inv dt = Timers dt.sessions dt.armed dt.fired dt.next_timer

-- The timer of a session, which its next change stops.
abbrev pub timer_of : String → Dict String ConnTracker → Option ℕ
timer_of sid sessions = (or_new (lookup sid sessions)).timer

-- Stopping a timer arms no other.
pub session_at-stop :
    (timer : Option ℕ) (armed : Dict ℕ Timer) (j : ℕ) (s : String)
    → session_at j (stop_timer timer armed) ≡ some s
    → session_at j armed ≡ some s
session_at-stop none armed j s e = e
session_at-stop (some t) armed j s e = ground (arith, e, session_at-erase t j armed)

-- The timer of one session is not that of another.
other-armed :
    (armed : Dict ℕ Timer) (fired : Dict ℕ String) (sid s : String) (u t : ℕ)
    → s ≢ sid
    → (session_at u armed ≡ some sid) ⊎ (lookup u fired ≡ some sid)
    → lookup t fired ≡ none
    → session_at t armed ≡ some s
    → session_at t (erase u armed) ≡ some s
other-armed armed fired sid s u t h own once e =
    ground (arith, h, own, once, e, session_at-erase u t armed)

stopped-armed :
    (timer : Option ℕ) (armed : Dict ℕ Timer) (fired : Dict ℕ String) (sid s : String) (t : ℕ)
    → s ≢ sid
    → ((u : ℕ) → timer ≡ some u → (session_at u armed ≡ some sid) ⊎ (lookup u fired ≡ some sid))
    → lookup t fired ≡ none
    → session_at t armed ≡ some s
    → session_at t (stop_timer timer armed) ≡ some s
stopped-armed none armed fired sid s t h own once e = e
stopped-armed (some u) armed fired sid s t h own once e =
    other-armed armed fired sid s u t h (own u refl) once e

-- The timer of a session is armed for it or has fired for it.
timer_of-own :
    (sid : String) (sessions : Dict String ConnTracker) (armed : Dict ℕ Timer)
    (fired : Dict ℕ String) (fresh : ℕ)
    → Timers sessions armed fired fresh
    → (u : ℕ) → timer_of sid sessions ≡ some u
    → (session_at u armed ≡ some sid) ⊎ (lookup u fired ≡ some sid)
timer_of-own sid sessions armed fired fresh v u e = elim (Option-cases (lookup sid sessions)) [
  | inl new ↦ absurd (ground (arith, e, new))
  | inr (ct, known) ↦
      let idle : ct.timer ≡ some u = ground (arith, e, known) in
      (subst (OwnTimer armed fired sid ct.ref_count) idle (v.settled sid ct known)).1
]

kept-OwnTimer :
    (sid : String) (sessions : Dict String ConnTracker) (armed : Dict ℕ Timer)
    (fired : Dict ℕ String) (fresh : ℕ)
    → Timers sessions armed fired fresh
    → (s : String) (count : ℕ) (timer : Option ℕ) → s ≢ sid
    → OwnTimer armed fired s count timer
    → OwnTimer (stop_timer (timer_of sid sessions) armed) fired s count timer
kept-OwnTimer sid sessions armed fired fresh v s count none h own = own
kept-OwnTimer sid sessions armed fired fresh v s count (some t) h (zero_count, inr waits) =
    (zero_count, inr waits)
kept-OwnTimer sid sessions armed fired fresh v s count (some t) h (zero_count, inl set) = (
  zero_count,
  inl (
      stopped-armed (timer_of sid sessions) armed fired sid s t h
        (timer_of-own sid sessions armed fired fresh v) (v.once t s set) set),
)

-- What is written for one session and kept for the others.
settled-insert :
    (sid : String) (new : ConnTracker) (sessions : Dict String ConnTracker)
    → (P : String → ConnTracker → Type 0) → P sid new
    → ((s : String) (ct : ConnTracker) → s ≢ sid → lookup s sessions ≡ some ct → P s ct)
    → (s : String) (ct : ConnTracker) → lookup s (insert sid new sessions) ≡ some ct
    → P s ct
settled-insert sid new sessions P p others s ct e = elim (Bool-cases (sid == s)) [
  | inl same ↦
      let is : new ≡ ct = ground (arith, e, same, lookup-insert sid s new sessions) in
      subst (P s) is (subst (λ x. P x new) ((string_eq.beq_iff sid s).0 same) p)
  | inr differs ↦
      others s ct (ground (arith, differs, string_eq.beq_iff sid s))
        (ground (arith, e, differs, lookup-insert sid s new sessions))
]

pub busy-Timers :
    (sid : String) (count : ℕ) (sessions : Dict String ConnTracker) (armed : Dict ℕ Timer)
    (fired : Dict ℕ String) (fresh : ℕ)
    → 0 < count
    → Timers sessions armed fired fresh
    → Timers
        (insert sid (record { ref_count = count; timer = none }) sessions)
        (stop_timer (timer_of sid sessions) armed)
        fired
        fresh
busy-Timers sid count sessions armed fired fresh p v =
    let timer = timer_of sid sessions in
    let new : ConnTracker = record { ref_count = count; timer = none } in
    record {
      settled =
          settled-insert sid new sessions
            (λ s ct. OwnTimer (stop_timer timer armed) fired s ct.ref_count ct.timer) p
            (λ s ct h e.
              kept-OwnTimer sid sessions armed fired fresh v s ct.ref_count ct.timer h
                (v.settled s ct e));
      once = λ t s e. v.once t s (session_at-stop timer armed t s e);
      old = λ t s e. v.old t s (session_at-stop timer armed t s e);
      old_fired = v.old_fired;
    }

-- A new timer leaves the others as they are.
armed-OwnTimer :
    (fresh : ℕ) (timer : Timer) (armed : Dict ℕ Timer) (fired : Dict ℕ String) (s : String)
    (count : ℕ) (t : Option ℕ)
    → ((j : ℕ) (x : String) → session_at j armed ≡ some x → j < fresh)
    → OwnTimer armed fired s count t
    → OwnTimer (insert fresh timer armed) fired s count t
armed-OwnTimer fresh timer armed fired s count none old own = own
armed-OwnTimer fresh timer armed fired s count (some t) old (zero_count, inr waits) =
    (zero_count, inr waits)
armed-OwnTimer fresh timer armed fired s count (some t) old (zero_count, inl set) =
    (zero_count, inl (ground (arith, set, old t s set, session_at-insert fresh t timer armed)))

unused-fired :
    (fired : Dict ℕ String) (fresh : ℕ)
    → ((t : ℕ) (sid : String) → lookup t fired ≡ some sid → t < fresh)
    → lookup fresh fired ≡ none
unused-fired fired fresh old = elim (Option-cases (lookup fresh fired)) [
  | inl unused ↦ unused
  | inr (sid, used) ↦ absurd (omega (arith, old fresh sid used))
]

pub idle-Timers :
    (sid : String) (due : ℕ) (sessions : Dict String ConnTracker) (armed : Dict ℕ Timer)
    (fired : Dict ℕ String) (fresh : ℕ)
    → Timers sessions armed fired fresh
    → Timers
        (insert sid (record { ref_count = 0; timer = some fresh }) sessions)
        (insert fresh
          (record { session_id = sid; due = due })
          (stop_timer (timer_of sid sessions) armed))
        fired
        (suc fresh)
idle-Timers sid due sessions armed fired fresh v =
    let rest = stop_timer (timer_of sid sessions) armed in
    let timer : Timer = record { session_id = sid; due = due } in
    let new : ConnTracker = record { ref_count = 0; timer = some fresh } in
    let back : (j : ℕ) (x : String) → session_at j rest ≡ some x → session_at j armed ≡ some x =
      λ j x e. session_at-stop (timer_of sid sessions) armed j x e in
    record {
      settled =
          settled-insert sid new sessions
            (λ s ct. OwnTimer (insert fresh timer rest) fired s ct.ref_count ct.timer)
            (refl, inl (ground (arith, session_at-insert fresh fresh timer rest)))
            (λ s ct h e.
              armed-OwnTimer fresh timer rest fired s ct.ref_count ct.timer
                (λ j x i. v.old j x (back j x i))
                (kept-OwnTimer sid sessions armed fired fresh v s ct.ref_count ct.timer h
                  (v.settled s ct e)));
      once = λ t s e. ground (
        arith,
        e,
        session_at-insert fresh t timer rest,
        unused-fired fired fresh v.old_fired,
        back t s,
        v.once t s,
      );
      old = λ t s e. ground (arith, e, session_at-insert fresh t timer rest, back t s, v.old t s);
      old_fired = λ t s e. omega (arith, v.old_fired t s e);
    }

pub gone-Timers :
    (sid : String) (sessions : Dict String ConnTracker) (armed : Dict ℕ Timer)
    (fired : Dict ℕ String) (fresh : ℕ)
    → Timers sessions armed fired fresh
    → Timers (erase sid sessions) (stop_timer (timer_of sid sessions) armed) fired fresh
gone-Timers sid sessions armed fired fresh v =
    let timer = timer_of sid sessions in
    record {
      settled = λ s ct e.
          kept-OwnTimer sid sessions armed fired fresh v s ct.ref_count ct.timer
            (ground (arith, e, lookup-erase sid s sessions, string_eq.beq_iff sid s))
            (v.settled s ct
              (ground (arith, e, lookup-erase sid s sessions, string_eq.beq_iff sid s)));
      once = λ t s e. v.once t s (session_at-stop timer armed t s e);
      old = λ t s e. v.old t s (session_at-stop timer armed t s e);
      old_fired = v.old_fired;
    }

-- The callback of an armed timer starts.
fired-OwnTimer :
    (t : ℕ) (timer : Timer) (armed : Dict ℕ Timer) (fired : Dict ℕ String) (s : String) (count : ℕ)
    (u : Option ℕ)
    → lookup t armed ≡ some timer
    → lookup t fired ≡ none
    → OwnTimer armed fired s count u
    → OwnTimer (erase t armed) (insert t timer.session_id fired) s count u
fired-OwnTimer t timer armed fired s count none set unfired own = own
fired-OwnTimer t timer armed fired s count (some u) set unfired (zero_count, inl own) = (
  zero_count,
  elim (Bool-cases (nat_beq t u)) [
    | inl same ↦ inr (ground (arith, set, own, same, lookup-insert t u timer.session_id fired))
    | inr differs ↦ inl (ground (arith, own, differs, session_at-erase t u armed))
  ],
)
fired-OwnTimer t timer armed fired s count (some u) set unfired (zero_count, inr own) =
    (zero_count, inr (ground (arith, unfired, own, lookup-insert t u timer.session_id fired)))

pub fired-Timers :
    (t : ℕ) (timer : Timer) (sessions : Dict String ConnTracker) (armed : Dict ℕ Timer)
    (fired : Dict ℕ String) (fresh : ℕ)
    → lookup t armed ≡ some timer
    → Timers sessions armed fired fresh
    → Timers sessions (erase t armed) (insert t timer.session_id fired) fresh
fired-Timers t timer sessions armed fired fresh set v =
    let at : session_at t armed ≡ some timer.session_id = ground (arith, set) in
    let back : (j : ℕ) (x : String)
        → session_at j (erase t armed) ≡ some x
        → session_at j armed ≡ some x =
      λ j x e. session_at-stop (some t) armed j x e in
    record {
      settled = λ s ct e.
          fired-OwnTimer t timer armed fired s ct.ref_count ct.timer set
            (v.once t timer.session_id at) (v.settled s ct e);
      once = λ j s e. ground (
        arith,
        e,
        session_at-erase t j armed,
        lookup-insert t j timer.session_id fired,
        v.once j s,
      );
      old = λ j s e. v.old j s (back j s e);
      old_fired = λ j s e. ground (
        arith,
        e,
        lookup-insert t j timer.session_id fired,
        v.old t timer.session_id at,
        v.old_fired j s,
      );
    }

-- A callback forgets its session.
reaped-OwnTimer :
    (t : ℕ) (sid : String) (armed : Dict ℕ Timer) (fired : Dict ℕ String) (s : String) (count : ℕ)
    (u : Option ℕ)
    → lookup t fired ≡ some sid
    → s ≢ sid
    → OwnTimer armed fired s count u
    → OwnTimer armed (erase t fired) s count u
reaped-OwnTimer t sid armed fired s count none waits h own = own
reaped-OwnTimer t sid armed fired s count (some u) waits h (zero_count, inl own) =
    (zero_count, inl own)
reaped-OwnTimer t sid armed fired s count (some u) waits h (zero_count, inr own) =
    (zero_count, inr (ground (arith, waits, h, own, lookup-erase t u fired)))

pub reaped-Timers :
    (t : ℕ) (sid : String) (sessions : Dict String ConnTracker) (armed : Dict ℕ Timer)
    (fired : Dict ℕ String) (fresh : ℕ)
    → lookup t fired ≡ some sid
    → Timers sessions armed fired fresh
    → Timers (erase sid sessions) armed (erase t fired) fresh
reaped-Timers t sid sessions armed fired fresh waits v = record {
  settled = λ s ct e.
      reaped-OwnTimer t sid armed fired s ct.ref_count ct.timer waits
        (ground (arith, e, lookup-erase sid s sessions, string_eq.beq_iff sid s))
        (v.settled s ct (ground (arith, e, lookup-erase sid s sessions, string_eq.beq_iff sid s)));
  once = λ j s e. ground (arith, lookup-erase t j fired, v.once j s e);
  old = v.old;
  old_fired = λ j s e. v.old_fired j s (ground (arith, e, lookup-erase t j fired));
}
