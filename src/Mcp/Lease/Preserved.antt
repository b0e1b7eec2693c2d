-- ===== src/Mcp/Lease/Preserved.antt =====
-- internal/mcp/lease.go: every call of the manager keeps its invariant, so every history does.
use vision_mcp_manager.Base.{
  ℕ, ◌+◌, ◌<◌, String, ◌≡◌, refl, inl, inr, Bool, none, some, List, [], ◌∷◌, ◌++◌, Option, arith,
  if◌then◌else◌, length, length-append, Dict, lookup, erase, string_eq, nat_eq, Option-branches,
  if-branches, Bool-cases, nat_beq, erase-Distinct, length-erase-le, erase-Each, map_values,
  map_values-Distinct, map_values-Each, length-map_values, sort, str_leb,
}
use vision_mcp_manager.Mcp.Lease.{
  Lease, LeaseRow, LeaseManager, Guard, expire_as, sse_begun, restored, quarantined,
  new_lease_manager_with_disconnect_grace, finished, settle, complete, begin_sse, sse_ended,
  end_sse, try_begin_expiry, mark_cleanup_uncertain, restore_active,
}
use vision_mcp_manager.Mcp.Lease.History.{
  closed_row, drop_oldest, record_closed, close_lease, finalize_close, invalidate_all, record_all,
  record_closed?, keys, close_reason,
}
use vision_mcp_manager.Mcp.Lease.Sweep.{
  sweep, is_due, expiry_reason, expire_eligible, is_quarantine_over, release_quarantined,
  expire_cleanup_uncertain,
}
use vision_mcp_manager.Mcp.Lease.Machine.{
  Call, reserves, expires_eligible, expires_uncertain, commits, releases, begins, completes,
  begins_sse, ends_sse, restores, finalizes, tries_expiry, marks_uncertain, invalidates, step, run,
}
use vision_mcp_manager.Mcp.Lease.Invariant.{
  LeaseOk, Inv, KeepsInv, lookup-LeaseOk, store-Inv, new-Inv, reserve-Inv, release_reservation-Inv,
  commit-Inv, begin_request-Inv,
}

finished-LeaseOk :
    (grace bound : ℕ) (sid : String) (application : Bool) (now : ℕ) (l : Lease)
    → LeaseOk grace bound sid l
    → LeaseOk grace bound sid (finished grace application now l)
unfolding finished
finished-LeaseOk grace bound sid application now l p = ground arith

sse_ended-LeaseOk :
    (grace bound : ℕ) (sid : String) (now : ℕ) (l : Lease)
    → 0 < l.sse_count
    → LeaseOk grace bound sid l
    → LeaseOk grace bound sid (sse_ended grace now l)
unfolding sse_ended
sse_ended-LeaseOk grace bound sid now l h p = ground arith

settle-Inv : (g : Guard) (now : ℕ) (m : LeaseManager) → Inv m → Inv (settle g now m)
unfolding settle
settle-Inv g now m v = Option-branches Inv (lookup g.session_id m.leases) _ _ v λ l e.
    if-branches Inv _ _ _ (λ _. v)
      λ _.
        store-Inv m g.session_id _ v e
          (finished-LeaseOk _ _ _ g.application_activity now l (lookup-LeaseOk m _ v e))

complete-Inv : (g : Guard) (now : ℕ) (m : LeaseManager) → Inv m → Inv (complete g now m).0
unfolding complete
complete-Inv g now m v = ground (arith, settle-Inv g now m v)

begin_sse-Inv : (sid : String) (m : LeaseManager) → Inv m → Inv (begin_sse sid m).0
unfolding begin_sse
begin_sse-Inv sid m v = Option-branches KeepsInv (lookup sid m.leases) _ _ v λ l e.
    if-branches KeepsInv _ _ _ (λ _. v)
      λ _. let p = lookup-LeaseOk m sid v e in store-Inv m sid (sse_begun l) v e (ground arith)

end_sse-Inv : (sid : String) (now : ℕ) (m : LeaseManager) → Inv m → Inv (end_sse sid now m)
unfolding end_sse
end_sse-Inv sid now m v = Option-branches Inv (lookup sid m.leases) _ _ v λ l e.
    if-branches Inv _ _ _
      (λ h.
        store-Inv m sid _ v e
          (sse_ended-LeaseOk _ _ sid now l (ground arith) (lookup-LeaseOk m sid v e)))
      (λ _. v)

try_begin_expiry-Inv :
    (sid reason : String) (m : LeaseManager) → Inv m → Inv (try_begin_expiry sid reason m).0
unfolding try_begin_expiry
try_begin_expiry-Inv sid reason m v = Option-branches KeepsInv (lookup sid m.leases) _ _ v λ l e.
    if-branches KeepsInv _ _ _ (λ _. v)
      λ _.
        let p = lookup-LeaseOk m sid v e in store-Inv m sid (expire_as reason l) v e (ground arith)

mark_cleanup_uncertain-Inv :
    (sid reason : String) (now : ℕ) (m : LeaseManager)
    → Inv m
    → Inv (mark_cleanup_uncertain sid reason now m).0
unfolding mark_cleanup_uncertain
mark_cleanup_uncertain-Inv sid reason now m v =
    Option-branches KeepsInv (lookup sid m.leases) _ _ v λ l e.
      let p = lookup-LeaseOk m sid v e in
      store-Inv m sid (quarantined reason (now + m.cleanup_uncertain_bound) l) v e (ground arith)

restore_active-Inv : (sid : String) (m : LeaseManager) → Inv m → Inv (restore_active sid m).0
unfolding restore_active
restore_active-Inv sid m v = Option-branches KeepsInv (lookup sid m.leases) _ _ v λ l e.
    if-branches KeepsInv _ _ _ (λ _. v)
      λ _. let p = lookup-LeaseOk m sid v e in store-Inv m sid (restored l) v e (ground arith)

pub length-drop_oldest :
    (rows : List LeaseRow) (r : LeaseRow)
    → 0 < length rows
    → length (drop_oldest rows ++ (r ∷ [])) ≡ length rows
length-drop_oldest [] r h = absurd (omega arith)
length-drop_oldest (x ∷ rows) r h = omega (arith, length-append rows (r ∷ []))

record_closed-Inv :
    (l : Lease) (reason : String) (now : ℕ) (m : LeaseManager)
    → Inv m
    → Inv (record_closed l reason now m)
unfolding record_closed
record_closed-Inv l reason now m v = elim (Bool-cases (nat_beq (length m.closed_rows) 1000)) [
  | inl t ↦
      rw (t, record_closed)
        (record {
          distinct_tokens = v.distinct_tokens;
          distinct_ids = v.distinct_ids;
          capacity = v.capacity;
          history =
              ground (arith, length-drop_oldest m.closed_rows (closed_row l reason now), v.history);
          leases_ok = v.leases_ok;
        })
  | inr t ↦
      rw (t, record_closed)
        (record {
          distinct_tokens = v.distinct_tokens;
          distinct_ids = v.distinct_ids;
          capacity = v.capacity;
          history =
              ground (arith, length-append m.closed_rows (closed_row l reason now ∷ []), v.history);
          leases_ok = v.leases_ok;
        })
]

pub record_closed_leases :
    (l : Lease) (reason : String) (now : ℕ) (m : LeaseManager)
    → (record_closed l reason now m).leases ≡ m.leases
unfolding record_closed
record_closed_leases l reason now m = ground arith

erase-Inv :
    (sid : String) (m : LeaseManager) → Inv m → Inv (record m { leases = erase sid m.leases })
erase-Inv sid m v = record {
  distinct_tokens = v.distinct_tokens;
  distinct_ids = erase-Distinct sid m.leases v.distinct_ids;
  capacity = λ h. omega (arith, v.capacity h, length-erase-le sid m.leases);
  history = v.history;
  leases_ok = erase-Each _ sid m.leases v.leases_ok;
}

pub close_lease-Inv :
    (sid : String) (l : Lease) (reason : String) (now : ℕ) (m : LeaseManager)
    → Inv m
    → Inv (close_lease sid l reason now m)
unfolding close_lease
close_lease-Inv sid l reason now m v =
    erase-Inv sid (record_closed l reason now m) (record_closed-Inv l reason now m v)

finalize_close-Inv :
    (sid : String) (now : ℕ) (m : LeaseManager) → Inv m → Inv (finalize_close sid now m).0
unfolding finalize_close
finalize_close-Inv sid now m v =
    Option-branches KeepsInv (lookup sid m.leases) _ _ v
      λ l e. close_lease-Inv sid l l.reason now m v

record_all-Inv :
    (ids : List String) (reason : String) (now : ℕ) (m : LeaseManager)
    → Inv m
    → Inv (record_all ids reason now m)
unfolding record_all
record_all-Inv [] reason now m v = v
record_all-Inv (id ∷ ids) reason now m v =
    record_all-Inv ids reason now _ (each (lookup id m.leases))
  where
    each : (o : Option Lease) → Inv (record_closed? o reason now m)
    each none = v
    each (some l) = record_closed-Inv l reason now m v

invalidate_all-Inv :
    (reasons : List String) (now : ℕ) (m : LeaseManager)
    → Inv m
    → Inv (invalidate_all reasons now m).0
unfolding invalidate_all
invalidate_all-Inv reasons now m v =
    let w = record_all-Inv (sort str_leb (keys m.leases)) (close_reason reasons) now m v in
    record {
      distinct_tokens = tt;
      distinct_ids = tt;
      capacity = λ h. omega arith;
      history = w.history;
      leases_ok = tt;
    }

-- What one turn of the sweep makes of a lease.
abbrev pub swept : LeaseManager → ℕ → String → Lease → Lease
swept m now sid l = if is_due m now l then expire_as (expiry_reason m now l) l else l

pub sweep-map_values :
    (m : LeaseManager) (now : ℕ) (d : Dict String Lease)
    → (sweep m now d).0 ≡ map_values (swept m now) d
unfolding sweep
sweep-map_values m now [] = refl
sweep-map_values m now ((sid, l) ∷ d) = ground (arith, sweep-map_values m now d)

expire_eligible-Inv : (now : ℕ) (m : LeaseManager) → Inv m → Inv (expire_eligible now m).0
unfolding expire_eligible
expire_eligible-Inv now m v = rw (sweep-map_values m now m.leases) (record {
  distinct_tokens = v.distinct_tokens;
  distinct_ids = map_values-Distinct (swept m now) m.leases v.distinct_ids;
  capacity = λ h. omega (arith, v.capacity h, length-map_values (swept m now) m.leases);
  history = v.history;
  leases_ok = map_values-Each _ (swept m now) m.leases (λ sid l p. ground arith) v.leases_ok;
})

release_quarantined-Inv :
    (now : ℕ) (d : Dict String Lease) (m : LeaseManager)
    → Inv m
    → Inv (release_quarantined now d m).0
unfolding release_quarantined
release_quarantined-Inv now [] m v = v
release_quarantined-Inv now ((sid, l) ∷ d) m v = release_quarantined-Inv now d _ (
    if-branches Inv (is_quarantine_over now l) _ _ (λ _. close_lease-Inv sid l l.reason now m v)
      (λ _. v))

expire_cleanup_uncertain-Inv :
    (now : ℕ) (m : LeaseManager) → Inv m → Inv (expire_cleanup_uncertain now m).0
unfolding expire_cleanup_uncertain
expire_cleanup_uncertain-Inv now m v = release_quarantined-Inv now m.leases m v

module _ (digest : String → String) where
  -- Each of the manager's calls keeps the invariant.
  pub step-Inv : (now : ℕ) (c : Call) (m : LeaseManager) → Inv m → Inv (step digest now c m)
  unfolding step
  step-Inv now reserves m v = reserve-Inv m v
  step-Inv now (commits token sid) m v = commit-Inv digest token sid now m v
  step-Inv now (releases token) m v = release_reservation-Inv token m v
  step-Inv now (begins sid application) m v = begin_request-Inv sid application now m v
  step-Inv now (completes g) m v = complete-Inv g now m v
  step-Inv now (begins_sse sid) m v = begin_sse-Inv sid m v
  step-Inv now (ends_sse sid) m v = end_sse-Inv sid now m v
  step-Inv now expires_eligible m v = expire_eligible-Inv now m v
  step-Inv now (tries_expiry sid reason) m v = try_begin_expiry-Inv sid reason m v
  step-Inv now (marks_uncertain sid reason) m v = mark_cleanup_uncertain-Inv sid reason now m v
  step-Inv now (restores sid) m v = restore_active-Inv sid m v
  step-Inv now (finalizes sid) m v = finalize_close-Inv sid now m v
  step-Inv now (invalidates reasons) m v = invalidate_all-Inv reasons now m v
  step-Inv now expires_uncertain m v = expire_cleanup_uncertain-Inv now m v

  pub run-Inv : (m : LeaseManager) (cs : List (ℕ × Call)) → Inv m → Inv (run digest m cs)
  unfolding run
  run-Inv m [] v = v
  run-Inv m ((now, c) ∷ cs) v = run-Inv (step digest now c m) cs (step-Inv now c m v)

  -- After every history of a new manager, whatever its limit and its times, the invariant holds:
  -- tokens and identifiers stand once, leases belong to their identifiers, and the capacity is kept.
  pub run-new-Inv :
      (max_sessions idle grace : ℕ) (cs : List (ℕ × Call))
      → Inv (run digest (new_lease_manager_with_disconnect_grace max_sessions idle grace) cs)
  run-new-Inv max_sessions idle grace cs = run-Inv _ cs (new-Inv max_sessions idle grace)
