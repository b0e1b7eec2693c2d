-- ===== src/Mcp/Lease/Expiry.antt =====
-- internal/mcp/lease.go: which leases a sweep expires, and the quarantine of uncertain cleanups.
use mathlib.Core.List.{Perm}
use vision_mcp_manager.Base.{
  ℕ, ◌+◌, ◌≤◌, ◌<◌, String, ◌≡◌, refl, ap, ◌≢◌, ◌⊎◌, inl, inr, Bool, true, false, not, ◌&&◌, ◌||◌,
  none, some, Option, [], ◌∷◌, map, arith, if◌then◌else◌, select, Dict, lookup, string_eq, ◌==◌,
  Bool-cases, ltb, nat_beq, lookup-map_values, sort-perm, lookup-insert_self, lookup-erase,
  Distinct, ==_iff, insert-Distinct,
}
use vision_mcp_manager.Mcp.Lease.{
  Lease, LeaseManager, active, is_active, expire_as, mark_cleanup_uncertain, store,
  new_lease_manager_with_disconnect_grace, quarantined,
}
use vision_mcp_manager.Mcp.Lease.History.{close_lease}
use vision_mcp_manager.Mcp.Lease.Invariant.{Inv}
use vision_mcp_manager.Mcp.Lease.Sweep.{
  ExpiredLease, by_session_id, elapsed, expiry_reason, is_due, sweep, expire_eligible,
  is_quarantine_over, release_quarantined, expire_cleanup_uncertain,
}
use vision_mcp_manager.Mcp.Lease.Preserved.{swept, sweep-map_values, record_closed_leases}

reason_of : Bool → Bool → Bool → String
reason_of a b c =
    if a
    then "client_disconnected"
    else if b
    then "never_streamed"
    else if c
    then "idle_timeout"
    else ""

reason_of-blank : (a b c : Bool) → (reason_of a b c == "") ≡ not (a || (b || c))
unfolding reason_of
reason_of-blank true b c = refl
reason_of-blank false true c = refl
reason_of-blank false false true = refl
reason_of-blank false false false = refl

abbrev grace_over : ℕ → Lease → Bool
grace_over now l = not (nat_beq l.disconnect_deadline 0) && not (ltb now l.disconnect_deadline)

abbrev never_used : LeaseManager → ℕ → Lease → Bool
never_used m now l =
    ltb 0 m.never_active_bound
    && (not l.ever_active && elapsed now l.last_activity m.never_active_bound)

abbrev idle_too_long : LeaseManager → ℕ → Lease → Bool
idle_too_long m now l = ltb 0 m.idle_timeout && elapsed now l.last_activity m.idle_timeout

-- The test of the sweep without its texts.
pub is_due-rules :
    (m : LeaseManager) (now : ℕ) (l : Lease)
    → is_due m now l ≡ (
        if not (is_active l.state) || not (nat_beq l.in_flight 0)
        then false
        else grace_over now l || (never_used m now l || idle_too_long m now l))
unfolding is_due expiry_reason reason_of
is_due-rules m now l =
    ground (arith, reason_of-blank (grace_over now l) (never_used m now l) (idle_too_long m now l))

-- Why a lease may expire at a time, in words of orders between times.
pub data Due (m : LeaseManager) (now : ℕ) (l : Lease) : Type 0 where
  disconnected : l.disconnect_deadline ≢ 0 → l.disconnect_deadline ≤ now → Due m now l
  unused :
      0 < m.never_active_bound
      → l.ever_active ≡ false
      → l.last_activity + m.never_active_bound ≤ now
      → Due m now l
  idle : 0 < m.idle_timeout → l.last_activity + m.idle_timeout ≤ now → Due m now l

is_due-Due :
    (m : LeaseManager) (now : ℕ) (l : Lease)
    → is_due m now l ≡ true
    → (l.state ≡ active) × (l.in_flight ≡ 0) × Due m now l
is_due-Due m now l h =
    let rules = is_due-rules m now l in
    elim (Bool-cases (grace_over now l)) [
      | inl g ↦
          (ground (arith, rules), ground (arith, rules), disconnected (ground arith) (ground arith))
      | inr not_g ↦ elim (Bool-cases (never_used m now l)) [
        | inl n ↦ (
          ground (arith, rules),
          ground (arith, rules),
          unused (ground arith) (ground arith) (ground arith),
        )
        | inr not_n ↦ (
          ground (arith, rules),
          ground (arith, rules),
          idle (ground (arith, rules)) (ground (arith, rules)),
        )
      ]
    ]

Due-is_due :
    (m : LeaseManager) (now : ℕ) (l : Lease)
    → l.state ≡ active
    → l.in_flight ≡ 0
    → Due m now l
    → is_due m now l ≡ true
Due-is_due m now l a z (disconnected p q) = ground (arith, is_due-rules m now l)
Due-is_due m now l a z (unused p q r) = ground (arith, is_due-rules m now l)
Due-is_due m now l a z (idle p q) = ground (arith, is_due-rules m now l)

pub expire_eligible-lookup :
    (now : ℕ) (m : LeaseManager) (sid : String) (l : Lease)
    → lookup sid m.leases ≡ some l
    → lookup sid (expire_eligible now m).0.leases ≡ some (swept m now sid l)
unfolding expire_eligible
expire_eligible-lookup now m sid l e =
    rw (sweep-map_values m now m.leases, lookup-map_values (swept m now) sid m.leases, e)

-- The sweep at the time `now` expires the leases that it must, and no other: an active lease with
-- no request in flight for which one of the three rules holds turns to `expiring` with the reason
-- that the code assigns; a lease that is not active, has a request in flight, or for which no rule
-- holds, is left as it was.
pub expire_eligible_exact :
    (now : ℕ) (m : LeaseManager) (sid : String) (l : Lease)
    → lookup sid m.leases ≡ some l
    → ((l.state ≡ active) × (l.in_flight ≡ 0) × Due m now l
        → lookup sid (expire_eligible now m).0.leases ≡ some (expire_as (expiry_reason m now l) l))
      × (¬ ((l.state ≡ active) × (l.in_flight ≡ 0) × Due m now l)
          → lookup sid (expire_eligible now m).0.leases ≡ some l)
expire_eligible_exact now m sid l e =
    let after = expire_eligible-lookup now m sid l e in
    (
      λ due. rw (Due-is_due m now l due.0 due.1 due.2) at after,
      λ spared. elim (Bool-cases (is_due m now l)) [
        | inl due ↦ absurd (spared (is_due-Due m now l due))
        | inr not_due ↦ rw not_due at after
      ],
    )

-- The entry of the result for a lease.
abbrev pub named : LeaseManager → ℕ → String × Lease → ExpiredLease
named m now (sid, l) = record { session_id = sid; reason = expiry_reason m now l }

pub sweep-select :
    (m : LeaseManager) (now : ℕ) (d : Dict String Lease)
    → (sweep m now d).1 ≡ map (named m now) (select (λ e. is_due m now e.1) d)
unfolding sweep
sweep-select m now [] = refl
sweep-select m now ((sid, l) ∷ d) = elim (Bool-cases (is_due m now l)) [
  | inl due ↦ rw (due, sweep) (ap (◌∷◌ (named m now (sid, l))) (sweep-select m now d))
  | inr not_due ↦ ground (arith, sweep-select m now d)
]

-- What the sweep returns, up to order, is one entry for each lease that it expired, with the
-- identifier and the reason of that lease.
pub expire_eligible-perm :
    (now : ℕ) (m : LeaseManager)
    → Perm (expire_eligible now m).1 (map (named m now) (select (λ e. is_due m now e.1) m.leases))
unfolding expire_eligible
expire_eligible-perm now m =
    rw (← sweep-select m now m.leases) (sort-perm by_session_id (sweep m now m.leases).1)

-- Whatever the configuration, a quarantine lasts at least thirty seconds, and the rule for leases
-- without activity is either off or leaves a lease at least thirty seconds.
pub handshake_protected :
    (max_sessions idle_timeout grace : ℕ)
    → let m = new_lease_manager_with_disconnect_grace max_sessions idle_timeout grace in
      (30000000000 ≤ m.cleanup_uncertain_bound)
      × ((m.never_active_bound ≡ 0) ⊎ (30000000000 ≤ m.never_active_bound))
unfolding new_lease_manager_with_disconnect_grace
handshake_protected max_sessions idle_timeout grace = ground arith

-- The turn of the quarantine sweep for a lease.
abbrev pub kept : ℕ → Option Lease → Option Lease → Option Lease
kept now none held = held
kept now (some l) held = if is_quarantine_over now l then none else held

pub close_lease-lookup :
    (k sid : String) (l : Lease) (reason : String) (now : ℕ) (m : LeaseManager)
    → lookup sid (close_lease k l reason now m).leases
      ≡ (if k == sid then none else lookup sid m.leases)
unfolding close_lease
close_lease-lookup k sid l reason now m =
    rw (record_closed_leases l reason now m) (lookup-erase k sid m.leases)

pub release_quarantined-lookup :
    (now : ℕ) (sid : String) (d : Dict String Lease) (m : LeaseManager)
    → Distinct d
    → lookup sid (release_quarantined now d m).0.leases
      ≡ kept now (lookup sid d) (lookup sid m.leases)
unfolding release_quarantined lookup
release_quarantined-lookup now sid [] m h = refl
release_quarantined-lookup now sid ((k, l) ∷ d) m h =
    let m' = if is_quarantine_over now l then close_lease k l l.reason now m else m in
    let rest = release_quarantined-lookup now sid d m' h.1 in
    ground (arith, rest, close_lease-lookup k sid l l.reason now m, ==_iff k sid, h.0)

expire_cleanup_uncertain-lookup :
    (later : ℕ) (sid : String) (m : LeaseManager) (l : Lease)
    → Distinct m.leases
    → lookup sid m.leases ≡ some l
    → lookup sid (expire_cleanup_uncertain later m).0.leases
      ≡ (if is_quarantine_over later l then none else some l)
unfolding expire_cleanup_uncertain
expire_cleanup_uncertain-lookup later sid m l h e =
    rw e at (release_quarantined-lookup later sid m.leases m h)

mark_cleanup_uncertain-found :
    (sid reason : String) (now : ℕ) (m : LeaseManager) (l : Lease)
    → lookup sid m.leases ≡ some l
    → (mark_cleanup_uncertain sid reason now m).0
      ≡ store sid (quarantined reason (now + m.cleanup_uncertain_bound) l) m
unfolding mark_cleanup_uncertain
mark_cleanup_uncertain-found sid reason now m l e = rw (e, mark_cleanup_uncertain)

-- The quarantine: a lease that was marked at the time `now` is held by every sweep of uncertain
-- cleanups before `now` plus the manager's bound, and released by every sweep from then on.
pub quarantine_window :
    (sid reason : String) (now later : ℕ) (m : LeaseManager) (l : Lease)
    → Inv m
    → lookup sid m.leases ≡ some l
    → let m₁ = (mark_cleanup_uncertain sid reason now m).0 in
      (later < now + m.cleanup_uncertain_bound
        → lookup sid (expire_cleanup_uncertain later m₁).0.leases
          ≡ some (quarantined reason (now + m.cleanup_uncertain_bound) l))
      × (now + m.cleanup_uncertain_bound ≤ later
          → lookup sid (expire_cleanup_uncertain later m₁).0.leases ≡ none)
unfolding is_quarantine_over
quarantine_window sid reason now later m l v e =
    let q = quarantined reason (now + m.cleanup_uncertain_bound) l in
    let swept_lease =
      expire_cleanup_uncertain-lookup later sid (store sid q m) q
        (insert-Distinct sid q m.leases v.distinct_ids) (lookup-insert_self sid q m.leases) in
    rw (mark_cleanup_uncertain-found sid reason now m l e)
      (λ early. ground (arith, early, swept_lease), λ late. ground (arith, late, swept_lease))
