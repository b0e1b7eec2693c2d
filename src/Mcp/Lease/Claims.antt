-- ===== src/Mcp/Lease/Claims.antt =====
-- internal/mcp/lease.go: who may end a lease. A claim for expiry is exclusive, and requests in
-- flight keep claims away.
use vision_mcp_manager.Base.{
  ℕ, ◌<◌, String, ◌≡◌, refl, inl, inr, Bool, true, false, some, arith, lookup, string_eq,
  Option-cases, err, lookup-insert_self, List, All, subst,
}
use vision_mcp_manager.Mcp.Lease.{
  Lease, LeaseManager, lease_not_active, active, expiring, store, expire_as, restored,
  begin_request, begin_sse, in_flight, try_begin_expiry, restore_active,
}
use vision_mcp_manager.Mcp.Lease.Sweep.{expire_eligible, is_due}
use vision_mcp_manager.Mcp.Lease.Machine.{Call, tries_expiry, step, run}
use vision_mcp_manager.Mcp.Lease.Invariant.{Inv}
use vision_mcp_manager.Mcp.Lease.Preserved.{step-Inv}
use vision_mcp_manager.Mcp.Lease.Expiring.{IsExpiring, ends_expiry, run-IsExpiring}
use vision_mcp_manager.Mcp.Lease.Expiry.{is_due-rules, expire_eligible-lookup}

try_begin_expiry-cases :
    (sid reason : String) (m m₁ : LeaseManager)
    → try_begin_expiry sid reason m ≡ (m₁, true)
    → (l : Lease) × (lookup sid m.leases ≡ some l)
      × (l.in_flight ≡ 0)
      × (m₁ ≡ store sid (expire_as reason l) m)
unfolding try_begin_expiry
try_begin_expiry-cases sid reason m m₁ e = ground arith

refused :
    (sid other : String) (application : Bool) (now : ℕ) (m : LeaseManager) (l : Lease)
    → lookup sid m.leases ≡ some l
    → l.state ≡ expiring
    → (try_begin_expiry sid other m ≡ (m, false))
      × (begin_request sid application now m ≡ (m, err lease_not_active))
      × (begin_sse sid m ≡ (m, some lease_not_active))
unfolding try_begin_expiry begin_request begin_sse
refused sid other application now m l e s =
    rw (e, try_begin_expiry, begin_request, begin_sse) (ground arith)

restore_active-found :
    (sid : String) (m : LeaseManager) (l : Lease)
    → lookup sid m.leases ≡ some l
    → l.state ≡ expiring
    → restore_active sid m ≡ (store sid (restored l) m, true)
unfolding restore_active
restore_active-found sid m l e s = rw (e, restore_active) (ground arith)

-- The claimed lease is expiring and still: it refuses a second claim, a request and a stream, and a
-- restoration makes it active.
abbrev pub Claimed : String → String → Bool → ℕ → LeaseManager → Type 0
Claimed sid other application now m =
    (l : Lease) × (lookup sid m.leases ≡ some l)
    × (l.state ≡ expiring)
    × (l.in_flight ≡ 0)
    × (try_begin_expiry sid other m ≡ (m, false))
    × (begin_request sid application now m ≡ (m, err lease_not_active))
    × (begin_sse sid m ≡ (m, some lease_not_active))
    × ((restore_active sid m).1 ≡ true)
    × (lookup sid (restore_active sid m).0.leases ≡ some (record l { state = active; reason = "" }))

expiring-Claimed :
    (sid other : String) (application : Bool) (now : ℕ) (m : LeaseManager)
    → IsExpiring sid m
    → Claimed sid other application now m
expiring-Claimed sid other application now m (l, found, state, still) =
    let (claim, request, stream) = refused sid other application now m l found state in
    let back = restore_active-found sid m l found state in
    let at_last = lookup-insert_self sid (restored l) m.leases in
    (l, found, state, still, claim, request, stream, rw back refl, rw back at_last)

claim-Inv :
    (digest : String → String) (sid reason : String) (now : ℕ) (m m₁ : LeaseManager)
    → Inv m
    → try_begin_expiry sid reason m ≡ (m₁, true)
    → Inv m₁
unfolding step
claim-Inv digest sid reason now m m₁ i e =
    subst (λ x. Inv x.0) e (step-Inv digest now (tries_expiry sid reason) m i)

-- A claim for expiry is exclusive. When `TryBeginExpiry` has succeeded, no request was in flight;
-- and after any calls that come then, as long as none of them restores, closes or quarantines the
-- lease, or closes all leases, the lease is still expiring, with no request in flight: a second
-- claim, a new request and a new stream are refused and change nothing, and restoring the lease
-- makes it active, with no reason, and changes nothing else of it.
pub claim_exclusive :
    (digest : String → String) (sid reason other : String) (application : Bool) (now : ℕ)
    (m m₁ : LeaseManager) (l : Lease) (cs : List (ℕ × Call))
    → Inv m
    → try_begin_expiry sid reason m ≡ (m₁, true)
    → lookup sid m.leases ≡ some l
    → All (λ (c : ℕ × Call). ends_expiry sid c.1 ≡ false) cs
    → (l.in_flight ≡ 0) × Claimed sid other application now (run digest m₁ cs)
claim_exclusive digest sid reason other application now m m₁ l cs i e f spared =
    let (l₀, there, still, m₁-eq) = try_begin_expiry-cases sid reason m m₁ e in
    let same : l₀ ≡ l = ground (arith, there, f) in
    let claimed : IsExpiring sid m₁ = (
      expire_as reason l₀,
      rw m₁-eq (lookup-insert_self sid (expire_as reason l₀) m.leases),
      refl,
      still,
    ) in
    let v : Inv m₁ = claim-Inv digest sid reason now m m₁ i e in
    (
      rw (← same) still,
      expiring-Claimed sid other application now (run digest m₁ cs)
          (run-IsExpiring digest sid cs m₁ spared v claimed),
    )

busy_not_due : (m : LeaseManager) (now : ℕ) (l : Lease) → 0 < l.in_flight → is_due m now l ≡ false
busy_not_due m now l h = ground (arith, is_due-rules m now l)

-- A session with a request in flight is not expired: neither the sweep, at any time, nor a claim
-- for any reason touches its lease.
pub in_flight_protects :
    (sid reason : String) (now : ℕ) (m : LeaseManager)
    → 0 < in_flight sid m
    → (lookup sid (expire_eligible now m).0.leases ≡ lookup sid m.leases)
      × (try_begin_expiry sid reason m ≡ (m, false))
unfolding in_flight try_begin_expiry
in_flight_protects sid reason now m h = elim (Option-cases (lookup sid m.leases)) [
  | inl e ↦ absurd (ground (arith, e))
  | inr (l, e) ↦
      let busy : 0 < l.in_flight = ground (arith, e) in
      (
        ground (arith, expire_eligible-lookup now m sid l e, busy_not_due m now l busy, e),
        ground (arith, e, busy),
      )
]
