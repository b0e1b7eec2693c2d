-- ===== src/Mcp/Lease/Lookups.antt =====
-- internal/mcp/lease.go: what the ends of a cleanup make of each lease.
use vision_mcp_manager.Base.{
  ℕ, ◌+◌, String, ◌≡◌, refl, ap, ◌∙◌, inl, inr, Bool, false, Option, none, some, [], ◌∷◌, arith,
  lookup, string_eq, nat_eq, ◌==◌, if◌then◌else◌, Option-cases, lookup-insert, ==_iff,
  lookup-map_values, Distinct, Dict, any, any-sort, map, select,
}
use vision_mcp_manager.Mcp.Lease.{
  Lease, LeaseManager, is_expiring, mark_cleanup_uncertain, quarantined, restore_active, restored,
}
use vision_mcp_manager.Mcp.Lease.History.{record_closed, close_lease, finalize_close}
use vision_mcp_manager.Mcp.Lease.Sweep.{
  ExpiredLease, by_session_id, is_due, expiry_reason, sweep, expire_eligible, is_quarantine_over,
  release_quarantined, expire_cleanup_uncertain,
}
use vision_mcp_manager.Mcp.Lease.Preserved.{swept, sweep-map_values}
use vision_mcp_manager.Mcp.Lease.Expiry.{
  named, sweep-select, close_lease-lookup, release_quarantined-lookup,
}

-- A lease that is there becomes what `f` makes of it.
abbrev pub changed : (Lease → Option Lease) → Option Lease → Option Lease
changed f none = none
changed f (some l) = f l

-- A change of the lease of one session.
abbrev pub Changes : String → (Lease → Option Lease) → LeaseManager → LeaseManager → Type 0
Changes sid f m m' =
    ((other : String)
      → lookup other m'.leases
        ≡ (if sid == other then changed f (lookup other m.leases) else lookup other m.leases))
    × (m'.cleanup_uncertain_bound ≡ m.cleanup_uncertain_bound)

pub mark_cleanup_uncertain-Changes :
    (sid reason : String) (now : ℕ) (m : LeaseManager)
    → Changes sid
        (λ l. some (quarantined reason (now + m.cleanup_uncertain_bound) l))
        m
        (mark_cleanup_uncertain sid reason now m).0
unfolding mark_cleanup_uncertain
mark_cleanup_uncertain-Changes sid reason now m = elim (Option-cases (lookup sid m.leases)) [
  | inl e ↦ (λ other. ground (arith, e, ==_iff sid other), ground (arith, e))
  | inr (l, e) ↦
      let l' = quarantined reason (now + m.cleanup_uncertain_bound) l in
      (
        λ other. ground (arith, e, ==_iff sid other, lookup-insert sid other l' m.leases),
        ground (arith, e),
      )
]

abbrev pub reactivated : Lease → Option Lease
reactivated l = some (if is_expiring l.state then restored l else l)

pub restore_active-Changes :
    (sid : String) (m : LeaseManager) → Changes sid reactivated m (restore_active sid m).0
unfolding restore_active
restore_active-Changes sid m = elim (Option-cases (lookup sid m.leases)) [
  | inl e ↦ (λ other. ground (arith, e, ==_iff sid other), ground (arith, e))
  | inr (l, e) ↦ (
    λ other. ground (arith, e, ==_iff sid other, lookup-insert sid other (restored l) m.leases),
    ground (arith, e),
  )
]

abbrev pub gone : Lease → Option Lease
gone l = none

pub finalize_close-Changes :
    (sid : String) (now : ℕ) (m : LeaseManager) → Changes sid gone m (finalize_close sid now m).0
unfolding finalize_close
finalize_close-Changes sid now m = elim (Option-cases (lookup sid m.leases)) [
  | inl e ↦ (λ other. ground (arith, e, ==_iff sid other), ground (arith, e))
  | inr (l, e) ↦ (
    λ other. ground (arith, e, ==_iff sid other, close_lease-lookup sid other l l.reason now m),
    unfold close_lease record_closed in ground (arith, e),
  )
]

pub expire_eligible-Changed :
    (now : ℕ) (sid : String) (m : LeaseManager)
    → lookup sid (expire_eligible now m).0.leases
      ≡ changed (λ l. some (swept m now sid l)) (lookup sid m.leases)
unfolding expire_eligible
expire_eligible-Changed now sid m =
    rw (sweep-map_values m now m.leases)
      (ground (arith, lookup-map_values (swept m now) sid m.leases))

pub expire_cleanup_uncertain-Changed :
    (now : ℕ) (sid : String) (m : LeaseManager)
    → Distinct m.leases
    → lookup sid (expire_cleanup_uncertain now m).0.leases
      ≡ changed (λ l. if is_quarantine_over now l then none else some l) (lookup sid m.leases)
unfolding expire_cleanup_uncertain
expire_cleanup_uncertain-Changed now sid m d =
    ground (arith, release_quarantined-lookup now sid m.leases m d)

-- Whether an expired lease is the session's.
abbrev pub is_of : String → ExpiredLease → Bool
is_of sid e = e.session_id == sid

-- Whether a lease that is there passes a test.
abbrev pub passes : (Lease → Bool) → Option Lease → Bool
passes p none = false
passes p (some l) = p l

named-any :
    (m : LeaseManager) (now : ℕ) (p : Lease → Bool) (sid : String) (d : Dict String Lease)
    → Distinct d
    → any (is_of sid) (map (named m now) (select (λ e. p e.1) d)) ≡ passes p (lookup sid d)
unfolding lookup
named-any m now p sid [] h = refl
named-any m now p sid ((k, l) ∷ d) h =
    ground (arith, named-any m now p sid d h.1, ==_iff k sid, h.0)

-- The sweep returns a session if and only if its lease was due.
pub expire_eligible-any :
    (now : ℕ) (sid : String) (m : LeaseManager)
    → Distinct m.leases
    → any (is_of sid) (expire_eligible now m).1 ≡ passes (is_due m now) (lookup sid m.leases)
unfolding expire_eligible
expire_eligible-any now sid m d =
    any-sort by_session_id (is_of sid) (sweep m now m.leases).1
    ∙ ap (any (is_of sid)) (sweep-select m now m.leases)
    ∙ named-any m now (is_due m now) sid m.leases d

-- Two managers with the same rules for expiry.
abbrev pub SameRules : LeaseManager → LeaseManager → Type 0
SameRules m m' =
    (m'.never_active_bound ≡ m.never_active_bound)
    × (m'.idle_timeout ≡ m.idle_timeout)
    × (m'.cleanup_uncertain_bound ≡ m.cleanup_uncertain_bound)

release_quarantined-SameRules :
    (now : ℕ) (d : Dict String Lease) (m : LeaseManager)
    → SameRules m (release_quarantined now d m).0
unfolding release_quarantined close_lease record_closed
release_quarantined-SameRules now [] m = (refl, refl, refl)
release_quarantined-SameRules now ((sid, l) ∷ d) m =
    let m' = if is_quarantine_over now l then close_lease sid l l.reason now m else m in
    ground (arith, release_quarantined-SameRules now d m')

pub expire_cleanup_uncertain-SameRules :
    (now : ℕ) (m : LeaseManager) → SameRules m (expire_cleanup_uncertain now m).0
unfolding expire_cleanup_uncertain
expire_cleanup_uncertain-SameRules now m = release_quarantined-SameRules now m.leases m

pub swept-SameRules :
    (m m' : LeaseManager) (now : ℕ) (l : Lease)
    → SameRules m m'
    → (is_due m' now l ≡ is_due m now l) × (expiry_reason m' now l ≡ expiry_reason m now l)
unfolding is_due expiry_reason
swept-SameRules m m' now l same = rw (same.0, same.1) (refl, refl)
