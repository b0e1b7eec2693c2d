-- ===== src/Mcp/Lease/Sizes.antt =====
-- internal/mcp/lease.go: how each call changes the number of leases.
use vision_mcp_manager.Base.{
  ℕ, suc, ◌+◌, String, ◌≡◌, refl, sym, inl, inr, Bool, true, false, Option, none, some, List, [],
  ◌∷◌, arith, length, Dict, lookup, string_eq, nat_eq, ◌==◌, Option-branches, Option-branches_eq,
  if-branches, Bool-cases, Option-cases, length-insert_new, length-insert_old, length-erase_old,
  length-map_values, length-sort, entries-Each,
}
use vision_mcp_manager.Mcp.Lease.{
  Lease, LeaseManager, LeaseError, Guard, store, reserve, new_lease, admit, commit,
  release_reservation, begin_request, settle, complete, begin_sse, end_sse, try_begin_expiry,
  mark_cleanup_uncertain, restore_active, begun, finished, sse_begun, sse_ended, expire_as,
  restored, new_lease_manager_with_disconnect_grace,
}
use vision_mcp_manager.Mcp.Lease.History.{close_lease, finalize_close, invalidate_all}
use vision_mcp_manager.Mcp.Lease.Sweep.{
  by_session_id, expire_eligible, is_quarantine_over, release_quarantined, expire_cleanup_uncertain,
}
use vision_mcp_manager.Mcp.Lease.Machine.{
  Call, reserves, expires_eligible, expires_uncertain, commits, releases, begins, completes,
  begins_sse, ends_sse, restores, finalizes, tries_expiry, marks_uncertain, invalidates, step,
}
use vision_mcp_manager.Mcp.Lease.Invariant.{Inv}
use vision_mcp_manager.Mcp.Lease.Preserved.{
  swept, sweep-map_values, record_closed_leases, close_lease-Inv,
}
use vision_mcp_manager.Mcp.Lease.Ledger.{AllHeld, AllHeld-close}

abbrev pub size : LeaseManager → ℕ
size m = length m.leases

-- The calls that neither add nor close a lease.
abbrev pub is_neutral : Call → Bool
is_neutral (commits token sid) = false
is_neutral (finalizes sid) = false
is_neutral (invalidates reasons) = false
is_neutral expires_uncertain = false
is_neutral _ = true

abbrev SameSize {ℓ} : {R : Type ℓ} → LeaseManager → LeaseManager × R → Type 0
SameSize m r = size r.0 ≡ size m

size-store :
    (m : LeaseManager) (sid : String) {l : Lease} (l' : Lease)
    → lookup sid m.leases ≡ some l
    → size (store sid l' m) ≡ size m
size-store m sid {l} l' e = length-insert_old sid l' l m.leases e

settle-size : (g : Guard) (now : ℕ) (m : LeaseManager) → size (settle g now m) ≡ size m
unfolding settle
settle-size g now m = elim (Option-cases (lookup g.session_id m.leases)) [
  | inl e ↦ ground (arith, e)
  | inr (l, e) ↦
      let l' = finished m.disconnect_grace g.application_activity now l in
      ground (arith, e, size-store m g.session_id l' e)
]

pub step-size :
    (digest : String → String) (now : ℕ) (c : Call) (m : LeaseManager)
    → is_neutral c ≡ true
    → size (step digest now c m) ≡ size m
unfolding step reserve release_reservation begin_request complete begin_sse end_sse try_begin_expiry
    mark_cleanup_uncertain restore_active expire_eligible
step-size digest now reserves m n = ground arith
step-size digest now (commits token sid) m n = absurd (ground (arith, n))
step-size digest now (releases token) m n = refl
step-size digest now (begins sid application) m n = elim (Option-cases (lookup sid m.leases)) [
  | inl e ↦ ground (arith, e)
  | inr (l, e) ↦ ground (arith, e, size-store m sid (begun m.disconnect_grace application now l) e)
]
step-size digest now (completes g) m n = ground (arith, settle-size g now m)
step-size digest now (begins_sse sid) m n = elim (Option-cases (lookup sid m.leases)) [
  | inl e ↦ ground (arith, e)
  | inr (l, e) ↦ ground (arith, e, size-store m sid (sse_begun l) e)
]
step-size digest now (ends_sse sid) m n = elim (Option-cases (lookup sid m.leases)) [
  | inl e ↦ ground (arith, e)
  | inr (l, e) ↦ ground (arith, e, size-store m sid (sse_ended m.disconnect_grace now l) e)
]
step-size digest now expires_eligible m n =
    rw (sweep-map_values m now m.leases) (length-map_values (swept m now) m.leases)
step-size digest now (tries_expiry sid reason) m n = elim (Option-cases (lookup sid m.leases)) [
  | inl e ↦ ground (arith, e)
  | inr (l, e) ↦ ground (arith, e, size-store m sid (expire_as reason l) e)
]
step-size digest now (marks_uncertain sid reason) m n =
    Option-branches (SameSize m) (lookup sid m.leases) _ _ refl (λ l e. size-store m sid _ e)
step-size digest now (restores sid) m n = elim (Option-cases (lookup sid m.leases)) [
  | inl e ↦ ground (arith, e)
  | inr (l, e) ↦ ground (arith, e, size-store m sid (restored l) e)
]
step-size digest now (finalizes sid) m n = absurd (ground (arith, n))
step-size digest now (invalidates reasons) m n = absurd (ground (arith, n))
step-size digest now expires_uncertain m n = absurd (ground (arith, n))

-- A commit without an error adds one lease, one with an error changes nothing.
abbrev pub Committed : LeaseManager → LeaseManager × Option LeaseError → Type 0
Committed m (m', none) = size m' ≡ suc (size m)
Committed m (m', some e) = m' ≡ m

pub commit-Committed :
    (digest : String → String) (token : ℕ) (sid : String) (now : ℕ) (m : LeaseManager)
    → Committed m (commit digest token sid now m)
unfolding commit admit
commit-Committed digest token sid now m =
    if-branches (Committed m) (sid == "") _ _ (λ blank. refl)
      λ named. Option-branches (Committed m) (lookup token m.reservations) _ _ refl λ _ e.
        Option-branches_eq (Committed m) (lookup sid m.leases) _ _
          (length-insert_new sid (new_lease digest m.next_address sid now) m.leases)
          (λ _ taken. refl)

close_lease-size :
    (sid : String) {l : Lease} (reason : String) (now : ℕ) (m : LeaseManager)
    → Inv m
    → lookup sid m.leases ≡ some l
    → suc (size (close_lease sid l reason now m)) ≡ size m
unfolding close_lease
close_lease-size sid {l} reason now m v e =
    rw (record_closed_leases l reason now m)
      (sym (length-erase_old sid l m.leases v.distinct_ids e))

-- What closing says it did, it did.
abbrev pub Finalized : LeaseManager → LeaseManager × Bool → Type 0
Finalized m (m', true) = suc (size m') ≡ size m
Finalized m (m', false) = m' ≡ m

pub finalize_close-Finalized :
    (sid : String) (now : ℕ) (m : LeaseManager) → Inv m → Finalized m (finalize_close sid now m)
unfolding finalize_close
finalize_close-Finalized sid now m v =
    Option-branches (Finalized m) (lookup sid m.leases) _ _ refl
      (λ l e. close_lease-size sid l.reason now m v e)

pub invalidate_all-size :
    (reasons : List String) (now : ℕ) (m : LeaseManager)
    → (size (invalidate_all reasons now m).0 ≡ 0) × ((invalidate_all reasons now m).1 ≡ size m)
unfolding invalidate_all
invalidate_all-size reasons now m = (refl, refl)

release_quarantined-size :
    (now : ℕ) (d : Dict String Lease) (m : LeaseManager)
    → Inv m
    → AllHeld d m
    → length (release_quarantined now d m).1 + size (release_quarantined now d m).0 ≡ size m
unfolding release_quarantined
release_quarantined-size now [] m v h = omega arith
release_quarantined-size now ((sid, l) ∷ d) m v h = elim (Bool-cases (is_quarantine_over now l)) [
  | inl over ↦
      let m' = close_lease sid l l.reason now m in
      let rest =
        release_quarantined-size now d m' (close_lease-Inv sid l l.reason now m v)
          (AllHeld-close sid l l.reason now d m h) in
      rw over (omega (arith, rest, close_lease-size sid l.reason now m v h.1.0))
  | inr held ↦ rw held (release_quarantined-size now d m v (h.0.1, h.1.1))
]

pub expire_cleanup_uncertain-size :
    (now : ℕ) (m : LeaseManager)
    → Inv m
    → length (expire_cleanup_uncertain now m).1 + size (expire_cleanup_uncertain now m).0 ≡ size m
unfolding expire_cleanup_uncertain
expire_cleanup_uncertain-size now m v =
    rw (length-sort by_session_id (release_quarantined now m.leases m).1) (
      release_quarantined-size now m.leases m v
        (v.distinct_ids, entries-Each m.leases v.distinct_ids))

pub new-size :
    (max_sessions idle grace : ℕ)
    → size (new_lease_manager_with_disconnect_grace max_sessions idle grace) ≡ 0
unfolding new_lease_manager_with_disconnect_grace
new-size max_sessions idle grace = refl
