-- ===== src/Mcp/Lease/Capacity.antt =====
-- internal/mcp/lease.go: admission never passes the limit, and every admitted lease is accounted
-- for, either in the map or by one closed row.
use vision_mcp_manager.Base.{
  ℕ, suc, ◌≤◌, ◌<◌, String, ◌≡◌, refl, ap, ◌∙◌, inl, inr, Bool, false, none, some, Option, List, [],
  ◌∷◌, arith, Dict, lookup, string_eq, nat_eq, ◌==◌, Option-branches, if-branches, Bool-cases, ok,
  Result, lookup-insert_self, lookup-erase_self, length-insert_new, length-erase_old, sort, str_leb,
}
use vision_mcp_manager.Mcp.Lease.{
  Lease, LeaseManager, LeaseError, reservation_not_found, new_lease_manager_with_disconnect_grace,
  is_full, token_after, reserve, new_lease, admit, commit, release_reservation, begin_request,
  settle, complete, begin_sse, end_sse, try_begin_expiry, mark_cleanup_uncertain, restore_active,
  capacity_used,
}
use vision_mcp_manager.Mcp.Lease.History.{
  record_closed, record_closed?, close_lease, finalize_close, invalidate_all, record_all, keys,
  close_reason,
}
use vision_mcp_manager.Mcp.Lease.Sweep.{
  expire_eligible, is_quarantine_over, release_quarantined, expire_cleanup_uncertain,
}
use vision_mcp_manager.Mcp.Lease.Machine.{
  Call, expires_eligible, expires_uncertain, completes, finalizes, invalidates, step, run,
}
use vision_mcp_manager.Mcp.Lease.Invariant.{Inv, reserve-Inv}
use vision_mcp_manager.Mcp.Lease.Preserved.{run-new-Inv}

abbrev pub Limit : LeaseManager → LeaseManager → Type 0
Limit m m' = m'.max_sessions ≡ m.max_sessions

record_closed-Limit :
    (l : Lease) (reason : String) (now : ℕ) (m : LeaseManager)
    → Limit m (record_closed l reason now m)
unfolding record_closed
record_closed-Limit l reason now m = ground arith

record_all-Limit :
    (ids : List String) (reason : String) (now : ℕ) (m : LeaseManager)
    → Limit m (record_all ids reason now m)
unfolding record_all
record_all-Limit [] reason now m = refl
record_all-Limit (id ∷ ids) reason now m =
    record_all-Limit ids reason now _ ∙ one (lookup id m.leases)
  where
    one : (o : Option Lease) → Limit m (record_closed? o reason now m)
    one none = refl
    one (some l) = record_closed-Limit l reason now m

release_quarantined-Limit :
    (now : ℕ) (d : Dict String Lease) (m : LeaseManager) → Limit m (release_quarantined now d m).0
unfolding release_quarantined
release_quarantined-Limit now [] m = refl
release_quarantined-Limit now ((sid, l) ∷ d) m =
    release_quarantined-Limit now d _
    ∙ if-branches (Limit m) (is_quarantine_over now l) _ _
        (λ _. record_closed-Limit l l.reason now m) (λ _. refl)

pub step-Limit :
    (digest : String → String) (now : ℕ) (c : Call) (m : LeaseManager)
    → Limit m (step digest now c m)
unfolding step reserve commit admit release_reservation begin_request complete settle begin_sse
    end_sse try_begin_expiry mark_cleanup_uncertain restore_active finalize_close close_lease
    invalidate_all expire_eligible expire_cleanup_uncertain
step-Limit digest now (finalizes sid) m =
    Option-branches (λ (r : LeaseManager × Bool). Limit m r.0) (lookup sid m.leases) _ _ refl
      λ l e. record_closed-Limit l l.reason now m
step-Limit digest now (invalidates reasons) m =
    record_all-Limit (sort str_leb (keys m.leases)) (close_reason reasons) now m
step-Limit digest now expires_uncertain m = release_quarantined-Limit now m.leases m
step-Limit digest now expires_eligible m = refl
step-Limit digest now (completes g) m = ground arith
step-Limit digest now c m = ground arith

run-Limit :
    (digest : String → String) (m : LeaseManager) (cs : List (ℕ × Call)) → Limit m (run digest m cs)
unfolding run
run-Limit digest m [] = refl
run-Limit digest m ((now, c) ∷ cs) =
    run-Limit digest (step digest now c m) cs ∙ step-Limit digest now c m

new-Limit :
    (max_sessions idle grace : ℕ)
    → (new_lease_manager_with_disconnect_grace max_sessions idle grace).max_sessions ≡ max_sessions
unfolding new_lease_manager_with_disconnect_grace
new-Limit max_sessions idle grace = refl

-- Whatever calls a manager with a positive `max_sessions` receives, in any order and at any times,
-- its reservations and leases together never exceed that number.
pub capacity_bounded :
    (digest : String → String) (max_sessions idle grace : ℕ) (cs : List (ℕ × Call))
    → 0 < max_sessions
    → capacity_used
        (run digest (new_lease_manager_with_disconnect_grace max_sessions idle grace) cs)
      ≤ max_sessions
unfolding capacity_used
capacity_bounded digest max_sessions idle grace cs h =
    let m = new_lease_manager_with_disconnect_grace max_sessions idle grace in
    let same : (run digest m cs).max_sessions ≡ max_sessions =
      run-Limit digest m cs ∙ new-Limit max_sessions idle grace in
    omega (arith, same, (run-new-Inv digest max_sessions idle grace cs).capacity)

reserve-capacity :
    (m m₁ : LeaseManager) (token : ℕ)
    → reserve m ≡ (m₁, ok token)
    → lookup (token_after m) m.reservations ≡ none
    → (token ≡ token_after m) × (capacity_used m₁ ≡ suc (capacity_used m)) × (m₁.leases ≡ m.leases)
unfolding reserve capacity_used
reserve-capacity m m₁ token e fresh = elim (Bool-cases (is_full m)) [
  | inl full ↦ ground (arith, full, e)
  | inr room ↦ ground (arith, room, e, length-insert_new (token_after m) tt m.reservations fresh)
]

commit-cases :
    (digest : String → String) (m m₂ : LeaseManager) (token : ℕ) (sid : String) (now : ℕ)
    → commit digest token sid now m ≡ (m₂, none)
    → (lookup token m.reservations ≡ some tt)
      × (lookup sid m.leases ≡ none)
      × (m₂ ≡ admit digest token sid now m)
unfolding commit
commit-cases digest m m₂ token sid now e = ground arith

module _ (digest : String → String) (m : LeaseManager) (token : ℕ) (sid : String) (now : ℕ) where
  admit-capacity :
      Inv m
      → lookup token m.reservations ≡ some tt
      → lookup sid m.leases ≡ none
      → capacity_used (admit digest token sid now m) ≡ capacity_used m
  unfolding admit capacity_used
  admit-capacity v pending free = omega (
    arith,
    length-erase_old token tt m.reservations v.distinct_tokens pending,
    length-insert_new sid (new_lease digest m.next_address sid now) m.leases free,
  )

  admit-lookup :
      lookup sid (admit digest token sid now m).leases
      ≡ some (new_lease digest m.next_address sid now)
  unfolding admit
  admit-lookup = lookup-insert_self sid _ m.leases

  admit-commit :
      (other : String) (later : ℕ)
      → (other == "") ≡ false
      → commit digest token other later (admit digest token sid now m)
        ≡ (admit digest token sid now m, some reservation_not_found)
  unfolding commit admit
  admit-commit other later named = rw (named, lookup-erase_self token m.reservations)

-- An admission: a reservation under a token that no pending reservation holds claims one unit of
-- capacity; a commit of the token that reports no error turns the claim into a lease, which is
-- active, idle and stamped with the time, at the same capacity; and it uses the token up, so that
-- every later commit of it, under whatever non-empty identifier, is refused and changes nothing.
pub admission :
    (digest : String → String) (m m₁ m₂ : LeaseManager) (token : ℕ) (sid other : String)
    (now later : ℕ)
    → Inv m
    → lookup (token_after m) m.reservations ≡ none
    → reserve m ≡ (m₁, ok token)
    → commit digest token sid now m₁ ≡ (m₂, none)
    → (other == "") ≡ false
    → (capacity_used m₁ ≡ suc (capacity_used m))
      × (capacity_used m₂ ≡ suc (capacity_used m))
      × (lookup sid m.leases ≡ none)
      × (lookup sid m₂.leases ≡ some (new_lease digest m₁.next_address sid now))
      × (commit digest token other later m₂ ≡ (m₂, some reservation_not_found))
admission digest m m₁ m₂ token sid other now later v fresh e f named =
    let (t, more, same) = reserve-capacity m m₁ token e fresh in
    let (pending, free, m₂-eq) = commit-cases digest m₁ m₂ token sid now f in
    let w : Inv m₁ =
      rw (ap (λ (r : LeaseManager × Result LeaseError ℕ). r.0) e) at (reserve-Inv m v) in
    (
      more,
      rw m₂-eq (admit-capacity digest m₁ token sid now w pending free ∙ more),
      rw (← same) free,
      rw m₂-eq (admit-lookup digest m₁ token sid now),
      rw m₂-eq (admit-commit digest m₁ token sid now other later named),
    )
