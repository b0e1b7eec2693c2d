-- ===== src/Supervisor/Coordinator/Drain.antt =====
-- internal/supervisor/backend.go: the channel protocol of the coordinator, and what a recycle may
-- rely on.
use vision_mcp_manager.Base.{
  ℕ, suc, ◌≤◌, ◌<◌, Bool, true, false, none, some, ok, ◌≡◌, ◌≢◌, inl, inr, refl, arith,
}
use vision_mcp_manager.Supervisor.Coordinator.{
  BackendState, backend_unavailable, ready, draining, recycling, restarting, probing, Coordinator,
  new_coordinator, mark_probing, mark_ready, mark_process_lost, begin_request, close_zero, release,
  drain_start, drain_cancelled, drained, recycled, Drainer, idle, waiting, recycles, System,
  fresh_system, Step, begins, releases, marks_probing, marks_ready, loses_process, starts_drain,
  cancels_drain, drains, recycle_returns, Reach, here, next,
}

-- The current channel is open exactly while requests are in flight, channels that are yet to come
-- are open, and each unused guard stands for one request in flight.
pub record Inv (s : System) : Type 0 where
  pub counted : s.coordinator.in_flight ≡ s.guards
  pub created : s.coordinator.zero_channel < s.coordinator.next_channel
  pub closed_if_zero :
      s.coordinator.in_flight ≡ 0 → s.coordinator.is_closed s.coordinator.zero_channel ≡ true
  pub open_if_busy :
      0 < s.coordinator.in_flight → s.coordinator.is_closed s.coordinator.zero_channel ≡ false
  pub future_open : (k : ℕ) → s.coordinator.next_channel ≤ k → s.coordinator.is_closed k ≡ false

fresh-Inv : Inv fresh_system
unfolding new_coordinator
fresh-Inv = record {
  counted = refl;
  created = omega arith;
  closed_if_zero = λ _. refl;
  open_if_busy = λ h. absurd (omega arith);
  future_open = λ k h. ground arith;
}

begins-Inv :
    (s : System) {c : Coordinator}
    → begin_request s.coordinator ≡ (c, none)
    → Inv s
    → Inv (record s { coordinator = c; guards = suc s.guards })
unfolding begin_request
begins-Inv s e v = record {
  counted = ground arith;
  created = ground arith;
  closed_if_zero = λ h. ground arith;
  open_if_busy = λ h. ground (arith, v.future_open s.coordinator.next_channel);
  future_open = λ k h. ground (arith, v.future_open k);
}

releases-Inv :
    (s : System) {c : Coordinator} {n : ℕ}
    → s.guards ≡ suc n
    → release s.coordinator ≡ some c
    → Inv s
    → Inv (record s { coordinator = c; guards = n })
unfolding release
releases-Inv s g e v = record {
  counted = ground arith;
  created = ground arith;
  closed_if_zero = λ h. ground arith;
  open_if_busy = λ h. ground arith;
  future_open = λ k h. ground (arith, v.future_open k);
}

-- A step that changes the state and the drainer only.
relabel-Inv :
    (s : System) (state : BackendState) (d : Drainer)
    → Inv s
    → Inv (record s { coordinator = record (s.coordinator) { state = state }; drainer = d })
relabel-Inv s state d v = record {
  counted = v.counted;
  created = v.created;
  closed_if_zero = v.closed_if_zero;
  open_if_busy = v.open_if_busy;
  future_open = v.future_open;
}

drain_start-cases :
    (has_deadline : Bool) (c c' : Coordinator) (w : ℕ)
    → drain_start has_deadline c ≡ ok (c', w)
    → (c' ≡ record c { state = draining }) × (w ≡ c.zero_channel)
unfolding drain_start
drain_start-cases has_deadline c c' w e = ground arith

Step-Inv : {quiet : Bool} {s t : System} → Step quiet s t → Inv s → Inv t
unfolding mark_probing mark_ready mark_process_lost drain_cancelled drained recycled
Step-Inv {s = s} (begins e) v = begins-Inv s e v
Step-Inv {s = s} (releases g e) v = releases-Inv s g e v
Step-Inv {s = s} marks_probing v = relabel-Inv s probing s.drainer v
Step-Inv {s = s} (marks_ready _) v = relabel-Inv s ready s.drainer v
Step-Inv {s = s} loses_process v = relabel-Inv s restarting s.drainer v
Step-Inv {s = s} (starts_drain has_deadline {c} {w} i e) v =
    rw ((drain_start-cases has_deadline s.coordinator c w e).0)
      (relabel-Inv s draining (waiting w) v)
Step-Inv {s = s} (cancels_drain d) v = relabel-Inv s restarting idle v
Step-Inv {s = s} (drains d k) v = relabel-Inv s recycling recycles v
Step-Inv {s = s} (recycle_returns failing d) v = relabel-Inv s _ idle v

pub Reach-Inv : {quiet : Bool} {s : System} → Reach quiet fresh_system s → Inv s
Reach-Inv here = fresh-Inv
Reach-Inv (next r st) = Step-Inv st (Reach-Inv r)

-- No sequence of steps of any number of callers closes the wait channel twice: in every reachable
-- system, a request guard that has not been used can be used, and the use succeeds.
pub release_safe :
    (quiet : Bool) (s : System) (n : ℕ)
    → Reach quiet fresh_system s
    → s.guards ≡ suc n
    → release s.coordinator ≢ none
unfolding release close_zero
release_safe quiet s n r g e = let v = Reach-Inv r in ground (arith, v.counted, v.open_if_busy)

-- While a quiet system drains, the backend is not ready and the drainer waits for the current
-- channel; while it recycles, no request is in flight.
pub record Drains (s : System) : Type 0 where
  pub waits_current :
      (w : ℕ)
      → s.drainer ≡ waiting w
      → (s.coordinator.state ≢ ready) × (w ≡ s.coordinator.zero_channel)
  pub recycles_alone :
      s.drainer ≡ recycles → (s.coordinator.state ≢ ready) × (s.coordinator.in_flight ≡ 0)

begins-Drains :
    (s : System) {c : Coordinator}
    → begin_request s.coordinator ≡ (c, none)
    → Drains s
    → Drains (record s { coordinator = c; guards = suc s.guards })
unfolding begin_request
begins-Drains s e d = record {
  waits_current = λ w k. ground (arith, d.waits_current w);
  recycles_alone = λ k. ground (arith, d.recycles_alone);
}

releases-Drains :
    (s : System) {c : Coordinator} {n : ℕ}
    → release s.coordinator ≡ some c
    → Drains s
    → Drains (record s { coordinator = c; guards = n })
unfolding release
releases-Drains s e d = record {
  waits_current = λ w k. ground (arith, d.waits_current w);
  recycles_alone = λ k. ground (arith, d.recycles_alone);
}

Step-Drains : {s t : System} → Step true s t → Inv s → Drains s → Drains t
unfolding mark_probing mark_ready mark_process_lost drain_cancelled drained recycled
Step-Drains {s = s} (begins e) v d = begins-Drains s e d
Step-Drains {s = s} (releases g e) v d = releases-Drains s e d
Step-Drains {s = s} marks_probing v d = record {
  waits_current = λ w k. ((λ e. cc), (d.waits_current w k).1);
  recycles_alone = λ k. ((λ e. cc), (d.recycles_alone k).1);
}
Step-Drains {s = s} (marks_ready (inl e)) v d = absurd (cc)
Step-Drains {s = s} (marks_ready (inr i)) v d = record {
  waits_current = λ w k. absurd (cc);
  recycles_alone = λ k. absurd (cc);
}
Step-Drains {s = s} loses_process v d = record {
  waits_current = λ w k. ((λ e. cc), (d.waits_current w k).1);
  recycles_alone = λ k. ((λ e. cc), (d.recycles_alone k).1);
}
Step-Drains {s = s} (starts_drain has_deadline {c} {w} i e) v d =
    let (c-eq, w-eq) = drain_start-cases has_deadline s.coordinator c w e in
    rw c-eq (record {
      waits_current = λ w' k. ((λ q. cc), ground (arith, w-eq));
      recycles_alone = λ k. absurd (cc);
    })
Step-Drains {s = s} (cancels_drain k) v d = record {
  waits_current = λ w k. absurd (cc);
  recycles_alone = λ k. absurd (cc);
}
Step-Drains {s = s} (drains {w} k closed) v d = record {
  waits_current = λ w k. absurd (cc);
  recycles_alone = λ _. ((λ e. cc), ground (arith, d.waits_current w k, v.open_if_busy, closed));
}
Step-Drains {s = s} (recycle_returns failing k) v d = record {
  waits_current = λ w k. absurd (cc);
  recycles_alone = λ k. absurd (cc);
}

Reach-Drains : {s : System} → Reach true fresh_system s → Drains s
Reach-Drains here = record { waits_current = λ w k. absurd (cc); recycles_alone = λ k. absurd (cc) }
Reach-Drains (next r st) = Step-Drains st (Reach-Inv r) (Reach-Drains r)

-- A recycle has the backend to itself. In a system in which nobody marks the backend ready while a
-- recycle is under way, whenever `recycle` runs no admitted request is in flight, no request guard
-- is unused and new requests are refused.
pub recycle_alone :
    (s : System)
    → Reach true fresh_system s
    → s.drainer ≡ recycles
    → (s.coordinator.in_flight ≡ 0)
      × (s.guards ≡ 0)
      × (begin_request s.coordinator ≡ (s.coordinator, some backend_unavailable))
unfolding begin_request
recycle_alone s r k =
    let (not_ready, none_left) = (Reach-Drains r).recycles_alone k in
    (none_left, omega (arith, (Reach-Inv r).counted), ground (arith, not_ready))

-- A drain can end: in such a system, when the last request guard has been used, the channel that
-- the drainer waits for is closed.
pub drain_ends :
    (s : System) (w : ℕ)
    → Reach true fresh_system s
    → s.drainer ≡ waiting w
    → s.guards ≡ 0
    → s.coordinator.is_closed w ≡ true
drain_ends s w r k g =
    let (_, current) = (Reach-Drains r).waits_current w k in
    rw current ((Reach-Inv r).closed_if_zero (omega (arith, (Reach-Inv r).counted)))
