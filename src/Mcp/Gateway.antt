-- ===== src/Mcp/Gateway.antt =====
-- internal/mcp/managed_gateway.go: the gateway between Vision's listener and one native HTTP
-- backend, on top of the lease manager. A request arrives, is refused or forwarded, and a forwarded
-- one is answered or fails later; each call of the lease manager with the metrics that go with it
-- is one function, so that other requests may come between; only the sweep of quarantines counts
-- after it has released the mutex, which is a function of its own. The metrics are taken to be set.
pub mod Serve
pub mod Accounts
pub mod Refusals
pub mod Pruning
pub mod Room
mod Examples
use vision_mcp_manager.Base.{
  ℕ, zero, suc, ◌+◌, String, Bool, true, false, not, ◌&&◌, ◌||◌, Option, none, some, List, [], ◌∷◌,
  ◌++◌, Result, ok, err, ltb, leb, nat_beq, if◌then◌else◌, length, ◌==◌, string_eq,
}
use vision_mcp_manager.Mcp.Lease.{
  LeaseManager, LeaseError, lease_capacity, Guard, new_lease_manager_with_disconnect_grace, reserve,
  commit, release_reservation, begin_request, complete, begin_sse, end_sse, try_begin_expiry,
  mark_cleanup_uncertain, restore_active,
}
use vision_mcp_manager.Mcp.Lease.History.{finalize_close, invalidate_all}
use vision_mcp_manager.Mcp.Lease.Sweep.{ExpiredLease, expire_eligible, expire_cleanup_uncertain}

-- The calls of the metrics and of `OnAmbiguousFailure`, counted. `opened` and `gone` are those of
-- `IncActiveSessions` and `DecActiveSessions`; `reaped` has the reasons.
pub record Meters : Type 0 where
  pub opened : ℕ
  pub gone : ℕ
  pub reaped : List String
  pub denied : ℕ
  pub header_timeouts : ℕ
  pub tool_calls : ℕ
  pub errors : ℕ
  pub ambiguous : ℕ

pub record Gateway : Type 0 where
  pub leases : LeaseManager
  pub meters : Meters

abbrev pub no_calls : Meters
no_calls = record {
  opened = 0;
  gone = 0;
  reaped = [];
  denied = 0;
  header_timeouts = 0;
  tool_calls = 0;
  errors = 0;
  ambiguous = 0;
}

pub new_managed_gateway : (max_sessions idle grace : ℕ) → Gateway
new_managed_gateway max_sessions idle grace = record {
  leases = new_lease_manager_with_disconnect_grace max_sessions idle grace;
  meters = no_calls;
}

abbrev pub with_leases : LeaseManager → Gateway → Gateway
with_leases m g = record g { leases = m }

abbrev pub report_ambiguous_failure : Gateway → Gateway
report_ambiguous_failure g = record g {
  meters = record (g.meters) { ambiguous = suc g.meters.ambiguous };
}

abbrev pub count_errors : (tools_calls : ℕ) → Gateway → Gateway
count_errors tools_calls g =
    if ltb 0 tools_calls
    then record g { meters = record (g.meters) { errors = suc g.meters.errors } }
    else g

abbrev pub count_calls : ℕ → Gateway → Gateway
count_calls n g = record g { meters = record (g.meters) { tool_calls = n + g.meters.tool_calls } }

-- What the result of `Commit` makes of the gateway.
abbrev pub opened_by : LeaseManager × Option LeaseError → Gateway → Gateway × Option LeaseError
opened_by (m, none) g =
    (record { leases = m; meters = record (g.meters) { opened = suc g.meters.opened } }, none)
opened_by (m, some e) g = (with_leases m g, some e)

-- The commit of an initialised session and its metric, under the lifecycle mutex.
pub open_session :
    (digest : String → String) → ℕ → String → (now : ℕ) → Gateway → Gateway × Option LeaseError
open_session digest token sid now g = opened_by (commit digest token sid now g.leases) g

-- What the result of `FinalizeClose` makes of the gateway.
abbrev pub closed_by : LeaseManager × Bool → (reason : String) → Gateway → Gateway
closed_by (m, true) reason g = record {
  leases = m;
  meters = record (g.meters) {
    gone = suc g.meters.gone;
    reaped = g.meters.reaped ++ (reason ∷ []);
  };
}
closed_by (m, false) reason g = with_leases m g

pub finalize_session : String → (reason : String) → (now : ℕ) → Gateway → Gateway
finalize_session sid reason now g = closed_by (finalize_close sid now g.leases) reason g

abbrev pub repeated : ℕ → String → List String
repeated zero reason = []
repeated (suc n) reason = reason ∷ repeated n reason

-- `n` sessions have gone for a reason.
abbrev pub count_gone : ℕ → String → Meters → Meters
count_gone n reason c = record c { gone = n + c.gone; reaped = c.reaped ++ repeated n reason }

-- `closeExpiredQuarantines` under the lifecycle mutex: how many leases it closed.
abbrev pub sweep_quarantines : (now : ℕ) → Gateway → Gateway × ℕ
sweep_quarantines now g =
    let (m, closed) = expire_cleanup_uncertain now g.leases in (with_leases m g, length closed)

-- Its loop over the metrics, after the mutex is free, of `n` rounds.
abbrev pub count_quarantines : (n : ℕ) → Gateway → Gateway
count_quarantines n g = record g { meters = count_gone n "cleanup_uncertain" g.meters }

pub close_expired_quarantines : (now : ℕ) → Gateway → Gateway
close_expired_quarantines now g =
    let (swept, closed) = sweep_quarantines now g in count_quarantines closed swept

pub invalidate_sessions : (reason : String) → (now : ℕ) → Gateway → Gateway
invalidate_sessions reason now g =
    let (m, closed) = invalidate_all (reason ∷ []) now g.leases in
    record { leases = m; meters = count_gone closed reason g.meters }

abbrev pub close_all : (now : ℕ) → Gateway → Gateway
close_all now g = invalidate_sessions "listener_closed" now g

abbrev pub is_successful_status : ℕ → Bool
is_successful_status status = leb 200 status && ltb status 300

abbrev pub is_disposed : ℕ → Bool
is_disposed status = is_successful_status status || nat_beq status 404

-- What becomes of the DELETE of an expired session.
pub data Cleanup : Type 0 where
  request_invalid gate_closed transport_failed : Cleanup
  answered : ℕ → Cleanup

abbrev pub mark_uncertain : String → String → ℕ → Gateway → Gateway
mark_uncertain sid reason now g = with_leases (mark_cleanup_uncertain sid reason now g.leases).0 g

-- One turn of the loop of `pruneIdle`.
pub cleanup_one : ExpiredLease → Cleanup → (now : ℕ) → Gateway → Gateway
unfolding finalize_session
cleanup_one e request_invalid now g = mark_uncertain e.session_id "cleanup_request_invalid" now g
cleanup_one e gate_closed now g = with_leases (restore_active e.session_id g.leases).0 g
cleanup_one e transport_failed now g =
    report_ambiguous_failure (mark_uncertain e.session_id "cleanup_result_ambiguous" now g)
cleanup_one e (answered status) now g =
    if is_disposed status
    then finalize_session e.session_id e.reason now g
    else report_ambiguous_failure (mark_uncertain e.session_id "cleanup_rejected" now g)

-- The backend's answer and the time of it, for each session.
pub cleanup_all :
    (answer : String → Cleanup) → (clock : String → ℕ) → List ExpiredLease → Gateway → Gateway
unfolding cleanup_one
cleanup_all answer clock [] g = g
cleanup_all answer clock (e ∷ es) g =
    cleanup_all answer clock es (cleanup_one e (answer e.session_id) (clock e.session_id) g)

pub prune_idle : (answer : String → Cleanup) → (clock : String → ℕ) → (now : ℕ) → Gateway → Gateway
unfolding close_expired_quarantines cleanup_all
prune_idle answer clock now g =
    let swept = close_expired_quarantines now g in
    let (m, expired) = expire_eligible now swept.leases in
    cleanup_all answer clock expired (with_leases m swept)

-- `retry` is what follows where the limit was met.
abbrev pub unless_reserved :
    LeaseManager × Result LeaseError ℕ
    → Gateway
    → (retry : Gateway × Result LeaseError ℕ) → Gateway × Result LeaseError ℕ
unless_reserved (m, ok token) g retry = (with_leases m g, ok token)
unless_reserved (m, err lease_capacity) g retry = retry
unless_reserved (m, err e) g retry = (with_leases m g, err e)

pub reserve_again : Gateway → Gateway × Result LeaseError ℕ
reserve_again g = let (m, r) = reserve g.leases in (with_leases m g, r)

pub reserve_with_prune :
    (answer : String → Cleanup)
    → (clock : String → ℕ) → (now : ℕ) → Gateway
    → Gateway × Result LeaseError ℕ
unfolding prune_idle reserve_again
reserve_with_prune answer clock now g =
    unless_reserved (reserve g.leases) g (reserve_again (prune_idle answer clock now g))
