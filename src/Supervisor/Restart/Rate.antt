-- ===== src/Supervisor/Restart/Rate.antt =====
-- internal/supervisor/restart_policy.go: how often restarts are authorised.
use vision_mcp_manager.Base.{
  ℕ, ◌+◌, ◌≤◌, ◌≡◌, refl, sym, subst, ◌∙◌, inl, inr, Bool, true, false, Option, none, some, List,
  [], ◌∷◌, ◌++◌, arith, if◌then◌else◌, length, length-append, select, ltb, leb, Bool-cases,
  Option-cases,
}
use vision_mcp_manager.Supervisor.Restart.{
  RestartTracker, new_restart_tracker, restart_window, within, prune, backoff, before_start,
  StartError, attempt_restart,
}

-- One call of `BeforeStart`: the clock before and after the wait, and how each wait would end.
pub record Start (E : Type 0) : Type 0 where
  pub now : ℕ
  pub sleep : ℕ → Option E
  pub later : ℕ

-- The times of a list that lie in the window that ends at `t`.
abbrev pub recent : ℕ → ℕ → List ℕ → ℕ
recent window t ts = length (select (λ c. ltb t (c + window)) ts)

recent-append :
    (window t : ℕ) (xs ys : List ℕ)
    → recent window t (xs ++ ys) ≡ recent window t xs + recent window t ys
recent-append window t [] ys = omega arith
recent-append window t (x ∷ xs) ys = ground (arith, recent-append window t xs ys)

recent-within :
    (window now t : ℕ) (ts : List ℕ)
    → now ≤ t
    → recent window t (within window now ts) ≡ recent window t ts
unfolding within
recent-within window now t [] h = refl
recent-within window now t (x ∷ ts) h = ground (arith, recent-within window now t ts h)

recent-le : (window t : ℕ) (ts : List ℕ) → recent window t ts ≤ length ts
recent-le window t [] = omega arith
recent-le window t (x ∷ ts) = ground (arith, recent-le window t ts)

length-within : (window now : ℕ) (ts : List ℕ) → length (within window now ts) ≤ length ts
unfolding within
length-within window now [] = omega arith
length-within window now (x ∷ ts) = ground (arith, length-within window now ts)

-- The log and the attempts that the tracker kept agree on every window from `clock` on.
pub record Tracks (window limit clock : ℕ) (log : List ℕ) (t : RestartTracker) : Type 0 where
  pub same_window : t.window ≡ window
  pub same_limit : t.limit ≡ limit
  pub bounded : length t.attempts ≤ limit
  pub agree : (at : ℕ) → clock ≤ at → recent window at log ≡ recent window at t.attempts

Tracks-later :
    {window limit clock later : ℕ} {log : List ℕ} {t : RestartTracker}
    → clock ≤ later
    → Tracks window limit clock log t
    → Tracks window limit later log t
Tracks-later h v = record {
  same_window = v.same_window;
  same_limit = v.same_limit;
  bounded = v.bounded;
  agree = λ at k. v.agree at (omega arith);
}

prune-Tracks :
    {window limit clock now : ℕ} {log : List ℕ} {t : RestartTracker}
    → clock ≤ now
    → Tracks window limit clock log t
    → Tracks window limit now log (prune now t)
unfolding prune
prune-Tracks {window} {now = now} {t = t} h v = record {
  same_window = v.same_window;
  same_limit = v.same_limit;
  bounded = omega (arith, length-within t.window now t.attempts, v.bounded);
  agree = λ at k.
      v.agree at (omega arith) ∙ sym (rw v.same_window (recent-within window now at t.attempts k));
}

new-Tracks :
    (limit base max_delay : ℕ)
    → Tracks restart_window limit 0 [] (new_restart_tracker limit base max_delay)
unfolding new_restart_tracker
new-Tracks limit base max_delay = record {
  same_window = refl;
  same_limit = refl;
  bounded = omega arith;
  agree = λ at k. refl;
}

launched :
    {window limit later : ℕ} {log : List ℕ} {t : RestartTracker}
    → t.initial ≡ false
    → Tracks window limit later log t
    → Tracks window limit later
        (if t.initial then log ++ (later ∷ []) else log)
        (record t { initial = true })
launched {window} {limit} {later} {log} {t} off v =
    subst
      (λ b.
        Tracks window limit later (if b then log ++ (later ∷ []) else log)
          (record t { initial = true }))
      (sym off)
      (record {
        same_window = v.same_window;
        same_limit = v.same_limit;
        bounded = v.bounded;
        agree = v.agree;
      })

module _ {E : Type 0} where
  -- The clock does not go back.
  abbrev pub Forward : ℕ → List (Start E) → Type 0
  Forward clock [] = Unit
  Forward clock (c ∷ cs) = (clock ≤ c.now) × (c.now ≤ c.later) × Forward c.later cs

  abbrev pub end_time : ℕ → List (Start E) → ℕ
  end_time clock [] = clock
  end_time clock (c ∷ cs) = end_time c.later cs

  -- A restart is a call that is authorised after the initial launch.
  abbrev is_restart : RestartTracker → Option (StartError E) → Bool
  is_restart t none = t.initial
  is_restart t (some _) = false

  -- The tracker after the calls, and the times at which restarts were authorised.
  pub run : RestartTracker → List ℕ → List (Start E) → RestartTracker × List ℕ
  run t log [] = (t, log)
  run t log (c ∷ cs) =
      let (t', error) = before_start c.now c.sleep c.later t in
      run t' (if is_restart t error then log ++ (c.later ∷ []) else log) cs

  attempt_restart-Tracks :
      (window limit : ℕ) (log : List ℕ) (t : RestartTracker) (clock : ℕ) (sleep : ℕ → Option E)
      (later : ℕ)
      → clock ≤ later
      → t.initial ≡ true
      → Tracks window limit clock log t
      → let (t', error) = attempt_restart sleep later t in
        Tracks window limit later (if is_restart t error then log ++ (later ∷ []) else log) t'
  unfolding attempt_restart
  attempt_restart-Tracks window limit log t clock sleep later h i v =
      elim (Bool-cases (leb t.limit (length t.attempts))) [
        | inl full ↦ rw (full, attempt_restart) (Tracks-later h v)
        | inr room ↦ elim (Option-cases (sleep (backoff (length t.attempts) t))) [
          | inl slept ↦
              rw (room, slept, attempt_restart, i)
                (record {
                  same_window = v.same_window;
                  same_limit = v.same_limit;
                  bounded = ground (arith, length-append t.attempts (later ∷ []), v.same_limit);
                  agree = λ at k. omega (
                    arith,
                    recent-append window at log (later ∷ []),
                    recent-append window at t.attempts (later ∷ []),
                    v.agree at (omega arith),
                  );
                })
          | inr (e, woken) ↦ rw (room, woken, attempt_restart) (Tracks-later h v)
        ]
      ]

  -- `Tracks` of the outcome of a call and of the log that it leaves.
  abbrev Logged :
      ℕ → ℕ → ℕ → List ℕ → RestartTracker → RestartTracker × Option (StartError E) → Type 0
  Logged window limit later log t r =
      Tracks window limit later (if is_restart t r.1 then log ++ (later ∷ []) else log) r.0

  before_start-on :
      (c : Start E) (t : RestartTracker)
      → t.initial ≡ true
      → before_start c.now c.sleep c.later t ≡ attempt_restart c.sleep c.later (prune c.now t)
  unfolding before_start
  before_start-on c t on = ground (arith, on)

  before_start-off :
      (c : Start E) (t : RestartTracker)
      → t.initial ≡ false
      → before_start c.now c.sleep c.later t ≡ (record t { initial = true }, none)
  unfolding before_start
  before_start-off c t off = ground (arith, off)

  before_start-Tracks :
      (window limit clock : ℕ) (log : List ℕ) (t : RestartTracker) (c : Start E)
      → clock ≤ c.now
      → c.now ≤ c.later
      → Tracks window limit clock log t
      → let (t', error) = before_start c.now c.sleep c.later t in
        Tracks window limit c.later (if is_restart t error then log ++ (c.later ∷ []) else log) t'
  unfolding prune
  before_start-Tracks window limit clock log t c h k v = elim (Bool-cases t.initial) [
    | inl on ↦ subst (Logged window limit c.later log t) (sym (before_start-on c t on)) (
        attempt_restart-Tracks window limit log (prune c.now t) c.now c.sleep c.later k on
          (prune-Tracks h v))
    | inr off ↦
        subst (Logged window limit c.later log t) (sym (before_start-off c t off))
          (launched off (Tracks-later {later = c.later} (omega arith) v))
  ]

  run-Tracks :
      (window limit clock : ℕ) (log : List ℕ) (t : RestartTracker) (cs : List (Start E))
      → Forward clock cs
      → Tracks window limit clock log t
      → Tracks window limit (end_time clock cs) (run t log cs).1 (run t log cs).0
  unfolding run
  run-Tracks window limit clock log t [] h v = v
  run-Tracks window limit clock log t (c ∷ cs) h v =
      run-Tracks window limit c.later _ _ cs h.2
        (before_start-Tracks window limit clock log t c h.0 h.1 v)

  -- The limit on restarts holds in every window. Take any calls of `BeforeStart` on a new tracker,
  -- with waits that end in any way, and a clock that does not go back: at any time from the last
  -- call on, no more than `limit` restarts were authorised in the five minutes before.
  pub restart_rate :
      (limit base max_delay at : ℕ) (cs : List (Start E))
      → Forward 0 cs
      → end_time 0 cs ≤ at
      → recent restart_window at (run (new_restart_tracker limit base max_delay) [] cs).1 ≤ limit
  restart_rate limit base max_delay at cs h k =
      let t = new_restart_tracker limit base max_delay in
      let v = run-Tracks restart_window limit 0 [] t cs h (new-Tracks limit base max_delay) in
      omega (arith, v.agree at k, recent-le restart_window at (run t [] cs).0.attempts, v.bounded)
