-- ===== src/Mcp/Lease/Lighter.antt =====
-- internal/mcp/lease.go: the calls that claim nothing. After them the manager holds no more leases,
-- the same reservations, and for each session no more requests in flight.
use vision_mcp_manager.Base.{
  ℕ, ◌+◌, ◌≤◌, String, ◌≡◌, refl, ap, ◌∙◌, inl, inr, Bool, true, false, Option, none, some, [], ◌∷◌,
  arith, length, Dict, lookup, string_eq, nat_eq, if◌then◌else◌, Option-cases, lookup-insert,
  lookup-map_values, ==_iff,
}
use vision_mcp_manager.Mcp.Lease.{
  Lease, LeaseManager, Guard, store, settle, complete, end_sse, try_begin_expiry,
  mark_cleanup_uncertain, restore_active, in_flight, finished, sse_ended, expire_as, restored,
  quarantined,
}
use vision_mcp_manager.Mcp.Lease.History.{record_closed, close_lease, finalize_close}
use vision_mcp_manager.Mcp.Lease.Sweep.{
  expire_eligible, is_quarantine_over, release_quarantined, expire_cleanup_uncertain,
}
use vision_mcp_manager.Mcp.Lease.Machine.{
  Call, expires_eligible, expires_uncertain, completes, ends_sse, restores, finalizes, tries_expiry,
  marks_uncertain, step,
}
use vision_mcp_manager.Mcp.Lease.Invariant.{Inv}
use vision_mcp_manager.Mcp.Lease.Preserved.{step-Inv, swept, sweep-map_values}
use vision_mcp_manager.Mcp.Lease.Capacity.{step-Limit}
use vision_mcp_manager.Mcp.Lease.Expiry.{release_quarantined-lookup, close_lease-lookup}
use vision_mcp_manager.Mcp.Lease.Sizes.{
  size, step-size, Finalized, finalize_close-Finalized, expire_cleanup_uncertain-size,
}

abbrev pub flight : Option Lease → ℕ
flight none = 0
flight (some l) = l.in_flight

pub in_flight-flight :
    (sid : String) (m : LeaseManager) → in_flight sid m ≡ flight (lookup sid m.leases)
unfolding in_flight
in_flight-flight sid m = ground arith

pub record Lighter (m m' : LeaseManager) : Type 0 where
  pub inv : Inv m'
  pub limit : m'.max_sessions ≡ m.max_sessions
  pub waiting : length m'.reservations ≡ length m.reservations
  pub fewer : size m' ≤ size m
  pub flights : (sid : String) → flight (lookup sid m'.leases) ≤ flight (lookup sid m.leases)

pub Lighter-trans : (m m' m'' : LeaseManager) → Lighter m m' → Lighter m' m'' → Lighter m m''
Lighter-trans m m' m'' v w = record {
  inv = w.inv;
  limit = w.limit ∙ v.limit;
  waiting = w.waiting ∙ v.waiting;
  fewer = omega (arith, v.fewer, w.fewer);
  flights = λ sid. omega (arith, v.flights sid, w.flights sid);
}

-- The calls that the theorem is about.
abbrev pub is_quiet : Call → Bool
is_quiet (completes g) = true
is_quiet (ends_sse sid) = true
is_quiet (restores sid) = true
is_quiet (finalizes sid) = true
is_quiet (tries_expiry sid reason) = true
is_quiet (marks_uncertain sid reason) = true
is_quiet expires_eligible = true
is_quiet expires_uncertain = true
is_quiet _ = false

release_quarantined-waiting :
    (now : ℕ) (d : Dict String Lease) (m : LeaseManager)
    → (release_quarantined now d m).0.reservations ≡ m.reservations
unfolding release_quarantined close_lease record_closed
release_quarantined-waiting now [] m = refl
release_quarantined-waiting now ((sid, l) ∷ d) m =
    let m' = if is_quarantine_over now l then close_lease sid l l.reason now m else m in
    ground (arith, release_quarantined-waiting now d m')

step-waiting :
    (digest : String → String) (now : ℕ) (c : Call) (m : LeaseManager)
    → is_quiet c ≡ true
    → (step digest now c m).reservations ≡ m.reservations
unfolding step complete settle end_sse try_begin_expiry mark_cleanup_uncertain restore_active
    finalize_close close_lease record_closed expire_eligible expire_cleanup_uncertain
step-waiting digest now expires_uncertain m q = release_quarantined-waiting now m.leases m
step-waiting digest now c m q = ground (arith, q)

store-flights :
    (sid other : String) (l l' : Lease) (m : LeaseManager)
    → lookup sid m.leases ≡ some l
    → l'.in_flight ≤ l.in_flight
    → flight (lookup other (store sid l' m).leases) ≤ flight (lookup other m.leases)
store-flights sid other l l' m e le =
    ground (arith, e, le, lookup-insert sid other l' m.leases, ==_iff sid other)

settle-flights :
    (sid : String) (g : Guard) (now : ℕ) (m : LeaseManager)
    → flight (lookup sid (settle g now m).leases) ≤ flight (lookup sid m.leases)
unfolding settle finished
settle-flights sid g now m = elim (Option-cases (lookup g.session_id m.leases)) [
  | inl e ↦ ground (arith, e)
  | inr (l, e) ↦
      let l' = finished m.disconnect_grace g.application_activity now l in
      ground (arith, e, store-flights g.session_id sid l l' m e)
]

expire_eligible-flights :
    (sid : String) (now : ℕ) (m : LeaseManager)
    → flight (lookup sid (expire_eligible now m).0.leases) ≤ flight (lookup sid m.leases)
unfolding expire_eligible
expire_eligible-flights sid now m =
    rw (sweep-map_values m now m.leases)
      (ground (arith, lookup-map_values (swept m now) sid m.leases))

expire_cleanup_uncertain-flights :
    (sid : String) (now : ℕ) (m : LeaseManager)
    → Inv m
    → flight (lookup sid (expire_cleanup_uncertain now m).0.leases) ≤ flight (lookup sid m.leases)
unfolding expire_cleanup_uncertain
expire_cleanup_uncertain-flights sid now m v =
    ground (arith, release_quarantined-lookup now sid m.leases m v.distinct_ids)

finalize_close-flights :
    (sid other : String) (now : ℕ) (m : LeaseManager)
    → flight (lookup other (finalize_close sid now m).0.leases) ≤ flight (lookup other m.leases)
unfolding finalize_close
finalize_close-flights sid other now m = elim (Option-cases (lookup sid m.leases)) [
  | inl e ↦ ground (arith, e)
  | inr (l, e) ↦ ground (arith, e, close_lease-lookup sid other l l.reason now m)
]

step-flights :
    (digest : String → String) (sid : String) (now : ℕ) (c : Call) (m : LeaseManager)
    → is_quiet c ≡ true
    → Inv m
    → flight (lookup sid (step digest now c m).leases) ≤ flight (lookup sid m.leases)
unfolding step complete end_sse try_begin_expiry mark_cleanup_uncertain restore_active sse_ended
step-flights digest sid now (completes g) m q v = ground (arith, settle-flights sid g now m)
step-flights digest sid now (ends_sse at) m q v = elim (Option-cases (lookup at m.leases)) [
  | inl e ↦ ground (arith, e)
  | inr (l, e) ↦ ground (arith, e, store-flights at sid l (sse_ended m.disconnect_grace now l) m e)
]
step-flights digest sid now (restores at) m q v = elim (Option-cases (lookup at m.leases)) [
  | inl e ↦ ground (arith, e)
  | inr (l, e) ↦ ground (arith, e, store-flights at sid l (restored l) m e)
]
step-flights digest sid now (tries_expiry at reason) m q v =
    elim (Option-cases (lookup at m.leases)) [
      | inl e ↦ ground (arith, e)
      | inr (l, e) ↦ ground (arith, e, store-flights at sid l (expire_as reason l) m e)
    ]
step-flights digest sid now (marks_uncertain at reason) m q v =
    elim (Option-cases (lookup at m.leases)) [
      | inl e ↦ ground (arith, e)
      | inr (l, e) ↦
          let l' = quarantined reason (now + m.cleanup_uncertain_bound) l in
          ground (arith, e, store-flights at sid l l' m e)
    ]
step-flights digest sid now (finalizes at) m q v = finalize_close-flights at sid now m
step-flights digest sid now expires_eligible m q v = expire_eligible-flights sid now m
step-flights digest sid now expires_uncertain m q v = expire_cleanup_uncertain-flights sid now m v
step-flights digest sid now c m q v = absurd (ground (arith, q))

-- A lease manager has as many leases, or fewer.
Finalized-fewer : (m : LeaseManager) (r : LeaseManager × Bool) → Finalized m r → size r.0 ≤ size m
Finalized-fewer m (m', true) less = omega (arith, less)
Finalized-fewer m (m', false) same = ground (arith, same)

step-fewer :
    (digest : String → String) (now : ℕ) (c : Call) (m : LeaseManager)
    → is_quiet c ≡ true
    → Inv m
    → size (step digest now c m) ≤ size m
unfolding step
step-fewer digest now (finalizes sid) m q v =
    Finalized-fewer m (finalize_close sid now m) (finalize_close-Finalized sid now m v)
step-fewer digest now expires_uncertain m q v = omega (arith, expire_cleanup_uncertain-size now m v)
step-fewer digest now c m q v = ground (arith, q, step-size digest now c m)

pub step-Lighter :
    (digest : String → String) (now : ℕ) (c : Call) (m : LeaseManager)
    → is_quiet c ≡ true
    → Inv m
    → Lighter m (step digest now c m)
step-Lighter digest now c m q v = record {
  inv = step-Inv digest now c m v;
  limit = step-Limit digest now c m;
  waiting = ap length (step-waiting digest now c m q);
  fewer = step-fewer digest now c m q v;
  flights = λ sid. step-flights digest sid now c m q v;
}
