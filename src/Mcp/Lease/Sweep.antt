-- ===== src/Mcp/Lease/Sweep.antt =====
-- internal/mcp/lease.go: the periodic sweeps over all leases, `ExpireEligible` and
-- `ExpireCleanupUncertain`. Go visits a map in any order; the model visits entries in list order.
use vision_mcp_manager.Base.{
  ℕ, ◌+◌, String, Bool, false, not, ◌&&◌, ◌||◌, List, [], ◌∷◌, ltb, leb, nat_beq, if◌then◌else◌,
  Dict, ◌==◌, string_eq, sort, str_leb,
}
use vision_mcp_manager.Mcp.Lease.{Lease, LeaseManager, expire_as, is_active, is_cleanup_uncertain}
use vision_mcp_manager.Mcp.Lease.History.{close_lease}

pub record ExpiredLease : Type 0 where
  pub session_id : String
  pub reason : String

-- `now.Sub(since) >= bound`
abbrev pub elapsed : ℕ → ℕ → ℕ → Bool
elapsed now since bound = leb (since + bound) now

-- The rules in the code's order; "" if none applies.
unfoldable pub expiry_reason : LeaseManager → ℕ → Lease → String
expiry_reason m now l =
    if not (nat_beq l.disconnect_deadline 0) && not (ltb now l.disconnect_deadline)
    then "client_disconnected"
    else if ltb 0 m.never_active_bound
        && (not l.ever_active && elapsed now l.last_activity m.never_active_bound)
    then "never_streamed"
    else if ltb 0 m.idle_timeout && elapsed now l.last_activity m.idle_timeout
    then "idle_timeout"
    else ""

-- The test of one turn of the loop: the lease is active and idle, and a rule applies.
unfoldable pub is_due : LeaseManager → ℕ → Lease → Bool
unfolding expiry_reason
is_due m now l =
    if not (is_active l.state) || not (nat_beq l.in_flight 0)
    then false
    else not (expiry_reason m now l == "")

unfoldable pub sweep : LeaseManager → ℕ → Dict String Lease → Dict String Lease × List ExpiredLease
unfolding is_due
sweep m now [] = ([], [])
sweep m now ((sid, l) ∷ d) =
    let (d', out) = sweep m now d in
    if is_due m now l
    then (
      (sid, expire_as (expiry_reason m now l) l) ∷ d',
      record { session_id = sid; reason = expiry_reason m now l } ∷ out,
    )
    else ((sid, l) ∷ d', out)

abbrev pub by_session_id : ExpiredLease → ExpiredLease → Bool
by_session_id a b = str_leb a.session_id b.session_id

unfoldable pub expire_eligible : ℕ → LeaseManager → LeaseManager × List ExpiredLease
unfolding sweep
expire_eligible now m =
    let (leases, expired) = sweep m now m.leases in
    (record m { leases = leases }, sort by_session_id expired)

-- A quarantined lease whose window is over.
unfoldable pub is_quarantine_over : ℕ → Lease → Bool
is_quarantine_over now l =
    if not (is_cleanup_uncertain l.state)
    then false
    else not (not (nat_beq l.cleanup_deadline 0) && ltb now l.cleanup_deadline)

unfoldable pub release_quarantined :
    ℕ → Dict String Lease → LeaseManager → LeaseManager × List ExpiredLease
unfolding is_quarantine_over close_lease
release_quarantined now [] m = (m, [])
release_quarantined now ((sid, l) ∷ d) m =
    let over = is_quarantine_over now l in
    let (m', out) =
      release_quarantined now d (if over then close_lease sid l l.reason now m else m) in
    (m', if over then record { session_id = sid; reason = l.reason } ∷ out else out)

unfoldable pub expire_cleanup_uncertain : ℕ → LeaseManager → LeaseManager × List ExpiredLease
unfolding release_quarantined
expire_cleanup_uncertain now m =
    let (m', out) = release_quarantined now m.leases m in (m', sort by_session_id out)
