-- ===== src/Session/Shared/Stages.antt =====
-- internal/session/shared.go: the sections of a startup and at most one running subprocess.
use vision_mcp_manager.Base.{
  ℕ, ◌≡◌, refl, ap, ◌∙◌, sym, subst, ◌⊎◌, inl, inr, arith, true, Option, none, some, List, [], ◌∷◌,
  Bool-cases, false, if-branches, Option-branches_eq,
}
use vision_mcp_manager.Session.Shared.{
  Stage, draining, cleared, closed_old, failed, spawned, refused, published, SharedStartup, Shared,
  arm_idle_timer,
}
use vision_mcp_manager.Session.Shared.Startup.{
  without, at_stage, startup_clear, startup_close, startup_spawn, startup_publish, startup_refuse,
  startup_finish, close_all, close_ended,
}
use vision_mcp_manager.Session.Shared.Frames.{SameProcess}

-- At most this one process runs.
abbrev pub AtMost : Option ℕ → List ℕ → Type 0
AtMost none live = live ≡ []
AtMost (some p) live = (live ≡ []) ⊎ (live ≡ p ∷ [])

-- The process that the manager uses, or that its end still has to close.
abbrev pub held : (downstream ending : Option ℕ) → Option ℕ
held none e = e
held (some p) e = some p

-- What may run while a startup is at a stage.
abbrev pub AtStage : Stage → (old downstream ending : Option ℕ) → List ℕ → Type 0
AtStage draining old d e live = AtMost old live × ((d ≡ old) ⊎ (d ≡ none))
AtStage cleared old d e live = (d ≡ none) × AtMost old live
AtStage closed_old old d e live = (d ≡ none) × (live ≡ [])
AtStage failed old d e live = (d ≡ none) × (live ≡ [])
AtStage (spawned p) old d e live = (d ≡ none) × AtMost (some p) live
AtStage (refused p) old d e live = (d ≡ none) × AtMost (some p) live
AtStage published old d e live = AtMost (held d e) live

abbrev pub Running : Option SharedStartup → (downstream ending : Option ℕ) → List ℕ → Type 0
Running none d e live = AtMost (held d e) live
Running (some st) d e live = AtStage st.stage st.old d e live

pub record Sole (s : Shared) : Type 0 where
  pub running : Running s.starting s.downstream s.ending s.live
  pub ended : s.closed ≡ true → s.downstream ≡ none
  pub used : s.closed ≡ false → s.ending ≡ none

pub same-Sole : (s s' : Shared) → SameProcess s s' → Sole s → Sole s'
same-Sole s s' same v = record {
  running =
      subst (λ x. Running x s'.downstream s'.ending s'.live) (sym same.starting)
        (subst (λ x. Running s.starting x s'.ending s'.live) (sym same.downstream)
          (subst (λ x. Running s.starting s.downstream x s'.live) (sym same.ending)
            (subst (λ x. Running s.starting s.downstream s.ending x) (sym same.live) v.running)));
  ended = λ e. same.downstream ∙ v.ended (sym same.closed ∙ e);
  used = λ e. same.ending ∙ v.used (sym same.closed ∙ e);
}

pub AtMost-none : (o : Option ℕ) (live : List ℕ) → live ≡ [] → AtMost o live
AtMost-none none live v = v
AtMost-none (some p) live v = inl v

without_self : (p : ℕ) → without p (p ∷ []) ≡ []
without_self p = ground arith

without-AtMost : (p : ℕ) (o : Option ℕ) (live : List ℕ) → AtMost o live → AtMost o (without p live)
without-AtMost p none live v = ap (without p) v
without-AtMost p (some q) live (inl v) = inl (ap (without p) v)
without-AtMost p (some q) live (inr v) = ground (arith, ap (without p) v)

pub closed-AtMost : (p : ℕ) (live : List ℕ) → AtMost (some p) live → without p live ≡ []
closed-AtMost p live (inl v) = ap (without p) v
closed-AtMost p live (inr v) = ap (without p) v ∙ without_self p

without-AtStage :
    (p : ℕ) (stage : Stage) (old d e : Option ℕ) (live : List ℕ)
    → AtStage stage old d e live
    → AtStage stage old d e (without p live)
without-AtStage p draining old d e live v = (without-AtMost p old live v.0, v.1)
without-AtStage p cleared old d e live v = (v.0, without-AtMost p old live v.1)
without-AtStage p closed_old old d e live v = (v.0, ap (without p) v.1)
without-AtStage p failed old d e live v = (v.0, ap (without p) v.1)
without-AtStage p (spawned q) old d e live v = (v.0, without-AtMost p (some q) live v.1)
without-AtStage p (refused q) old d e live v = (v.0, without-AtMost p (some q) live v.1)
without-AtStage p published old d e live v = without-AtMost p (held d e) live v

pub without-Running :
    (p : ℕ) (starting : Option SharedStartup) (d e : Option ℕ) (live : List ℕ)
    → Running starting d e live
    → Running starting d e (without p live)
without-Running p none d e live v = without-AtMost p (held d e) live v
without-Running p (some st) d e live v = without-AtStage p st.stage st.old d e live v

-- The process that the manager uses is given up, and still has to be closed.
pub held-none : (d : Option ℕ) → held d none ≡ d
held-none none = refl
held-none (some p) = refl

given_up-AtStage :
    (stage : Stage) (old d : Option ℕ) (live : List ℕ)
    → AtStage stage old d none live
    → AtStage stage old none d live
given_up-AtStage draining old d live v = (v.0, inr refl)
given_up-AtStage cleared old d live v = (refl, v.1)
given_up-AtStage closed_old old d live v = (refl, v.1)
given_up-AtStage failed old d live v = (refl, v.1)
given_up-AtStage (spawned q) old d live v = (refl, v.1)
given_up-AtStage (refused q) old d live v = (refl, v.1)
given_up-AtStage published old d live v = subst (λ o. AtMost o live) (held-none d) v

given_up-Running :
    (starting : Option SharedStartup) (d : Option ℕ) (live : List ℕ)
    → Running starting d none live
    → Running starting none d live
given_up-Running none d live v = subst (λ o. AtMost o live) (held-none d) v
given_up-Running (some st) d live v = given_up-AtStage st.stage st.old d live v

pub close_all-Sole : (s : Shared) → Sole s → Sole (close_all s)
unfolding close_all
close_all-Sole s v =
    if-branches Sole s.closed _ _ (λ over. v)
      (λ alive. record {
        running =
            given_up-Running s.starting s.downstream s.live
              (subst (λ x. Running s.starting s.downstream x s.live) (v.used alive) v.running);
        ended = λ e. refl;
        used = λ e. absurd (ground (arith, e));
      })

-- The process that was given up is closed.
closed-AtStage :
    (p : ℕ) (stage : Stage) (old : Option ℕ) (live : List ℕ)
    → AtStage stage old none (some p) live
    → AtStage stage old none none (without p live)
closed-AtStage p draining old live v = without-AtStage p draining old none none live v
closed-AtStage p cleared old live v = without-AtStage p cleared old none none live v
closed-AtStage p closed_old old live v = without-AtStage p closed_old old none none live v
closed-AtStage p failed old live v = without-AtStage p failed old none none live v
closed-AtStage p (spawned q) old live v = without-AtStage p (spawned q) old none none live v
closed-AtStage p (refused q) old live v = without-AtStage p (refused q) old none none live v
closed-AtStage p published old live v = closed-AtMost p live v

closed-Running :
    (p : ℕ) (starting : Option SharedStartup) (live : List ℕ)
    → Running starting none (some p) live
    → Running starting none none (without p live)
closed-Running p none live v = closed-AtMost p live v
closed-Running p (some st) live v = closed-AtStage p st.stage st.old live v

-- Only the end gives a process up.
given_up-closed : (s : Shared) (p : ℕ) → Sole s → s.ending ≡ some p → s.closed ≡ true
given_up-closed s p v e = elim (Bool-cases s.closed) [
  | inl over ↦ over
  | inr alive ↦ absurd (ground (arith, v.used alive, e))
]

pub close_ended-Sole : (s : Shared) → Sole s → Sole (close_ended s)
unfolding close_ended
close_ended-Sole s v =
    Option-branches_eq Sole s.ending _ _ (λ _. v)
      (λ p e.
        let over = v.ended (given_up-closed s p v e) in
        record {
          running =
              subst (λ x. Running s.starting x none (without p s.live)) (sym over)
                (closed-Running p s.starting s.live (
                  subst (λ x. Running s.starting none x s.live) e
                    (subst (λ x. Running s.starting x s.ending s.live) over v.running)));
          ended = v.ended;
          used = λ _. refl;
        })

pub AtStage-of :
    (s : Shared) (st : SharedStartup) (stage : Stage)
    → Sole s
    → s.starting ≡ some st
    → st.stage ≡ stage
    → AtStage stage st.old s.downstream s.ending s.live
AtStage-of s st stage v e f =
    subst (λ x. AtStage x st.old s.downstream s.ending s.live) f
      (subst (λ x. Running x s.downstream s.ending s.live) e v.running)

pub startup_clear-Sole :
    (st : SharedStartup) (s : Shared)
    → Sole s
    → AtStage draining st.old s.downstream s.ending s.live
    → Sole (startup_clear st s)
unfolding startup_clear
startup_clear-Sole st s w v = record { running = (refl, v.0); ended = λ e. refl; used = w.used }

close_old-live :
    (o : Option ℕ) (live : List ℕ)
    → AtMost o live
    → (elim o [ none ↦ live | some p ↦ without p live ]) ≡ []
close_old-live none live v = v
close_old-live (some p) live v = closed-AtMost p live v

pub startup_close-Sole :
    (st : SharedStartup) (s : Shared)
    → Sole s
    → AtStage cleared st.old s.downstream s.ending s.live
    → Sole (startup_close st s)
unfolding startup_close
startup_close-Sole st s w v = record {
  running = (v.0, close_old-live st.old s.live v.1);
  ended = w.ended;
  used = w.used;
}

pub startup_spawn-Sole :
    (st : SharedStartup) (p : Option ℕ) (s : Shared)
    → Sole s
    → AtStage closed_old st.old s.downstream s.ending s.live
    → Sole (startup_spawn st p s)
unfolding startup_spawn
startup_spawn-Sole st none s w v = record { running = v; ended = w.ended; used = w.used }
startup_spawn-Sole st (some p) s w v = record {
  running = (v.0, inr (ap (λ x. p ∷ x) v.1));
  ended = w.ended;
  used = w.used;
}

pub startup_publish-Sole :
    (st : SharedStartup) (p : ℕ) (s : Shared)
    → Sole s
    → AtStage (spawned p) st.old s.downstream s.ending s.live
    → Sole (startup_publish st (some p) s)
unfolding startup_publish
startup_publish-Sole st p s w v =
    if-branches Sole s.closed _ _ (λ over. record { running = v; ended = w.ended; used = w.used })
      (λ alive. record {
        running = v.1;
        ended = λ e. absurd (ground (arith, alive, e));
        used = w.used;
      })

pub startup_refuse-Sole :
    (st : SharedStartup) (p : ℕ) (s : Shared)
    → Sole s
    → AtStage (refused p) st.old s.downstream s.ending s.live
    → Sole (startup_refuse st p s)
unfolding startup_refuse
startup_refuse-Sole st p s w v = record {
  running =
      AtMost-none (held s.downstream s.ending) (without p s.live) (closed-AtMost p s.live v.1);
  ended = w.ended;
  used = w.used;
}

pub publish_failure-Sole :
    (st : SharedStartup) (s : Shared)
    → Sole s
    → AtStage failed st.old s.downstream s.ending s.live
    → Sole (startup_publish st none s)
unfolding startup_publish
publish_failure-Sole st s w v =
    if-branches (λ (s' : Shared). Sole (at_stage published st s')) s.closed _ _
      (λ over. record {
        running = AtMost-none (held s.downstream s.ending) s.live v.1;
        ended = w.ended;
        used = w.used;
      })
      (λ alive. record {
        running = AtMost-none (held s.downstream s.ending) s.live v.1;
        ended = w.ended;
        used = w.used;
      })

pub arm_idle_timer-SameProcess : (s : Shared) → SameProcess s (arm_idle_timer s)
unfolding arm_idle_timer
arm_idle_timer-SameProcess s = ground arith

pub startup_finish-Sole :
    (st : SharedStartup) (s : Shared)
    → Sole s
    → AtStage published st.old s.downstream s.ending s.live
    → Sole (startup_finish s)
unfolding startup_finish
startup_finish-Sole st s w v =
    same-Sole (record s { starting = none }) _
      (arm_idle_timer-SameProcess (record s { starting = none }))
      (record { running = v; ended = w.ended; used = w.used })
