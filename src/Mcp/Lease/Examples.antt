-- ===== src/Mcp/Lease/Examples.antt =====
-- internal/mcp/lease.go: the theorems at concrete managers.
use vision_mcp_manager.Base.{
  ℕ, suc, ◌+◌, ◌≤◌, ◌<◌, ◌≡◌, refl, arith, String, true, false, none, some, List, [], ◌∷◌, ok,
  lookup, insert, erase, string_eq, nat_eq,
}
use vision_mcp_manager.Mcp.Lease.{
  Lease, LeaseManager, Guard, active, new_lease_manager_with_disconnect_grace, capacity_used,
  reserve, commit, admit, new_lease, token_after, begin_request, begun, touch, complete, settle,
  finished, in_flight, try_begin_expiry, expire_as,
}
use vision_mcp_manager.Mcp.Lease.History.{finalize_close, close_lease, record_closed}
use vision_mcp_manager.Mcp.Lease.Sweep.{expire_eligible, expiry_reason}
use vision_mcp_manager.Mcp.Lease.Machine.{
  Call, reserves, commits, begins, begins_sse, ends_sse, finalizes, expires_eligible, run, step,
}
use vision_mcp_manager.Mcp.Lease.Invariant.{Inv}
use vision_mcp_manager.Mcp.Lease.Preserved.{run-new-Inv}
use vision_mcp_manager.Mcp.Lease.Capacity.{capacity_bounded}
use vision_mcp_manager.Mcp.Lease.Ledger.{ledger, IsBalanced}
use vision_mcp_manager.Mcp.Lease.Requests.{request_round_trip, stale_guard}
use vision_mcp_manager.Mcp.Lease.Expiry.{expire_eligible_exact, Due}
use vision_mcp_manager.Mcp.Lease.Claims.{claim_exclusive, Claimed}

abbrev digest : String → String
digest sid = sid

-- At most two sessions, an idle timeout of 100 s and a grace period of 10 s.
abbrev manager : LeaseManager
manager = new_lease_manager_with_disconnect_grace 2 100000000000 10000000000

abbrev opening : List (ℕ × Call)
opening = (1, reserves) ∷ (5, commits 1 "a") ∷ []

abbrev history : List (ℕ × Call)
history =
    (1, reserves)
    ∷ (5, commits 1 "a")
    ∷ (6, begins "a" true)
    ∷ (7, begins_sse "a")
    ∷ (8, ends_sse "a")
    ∷ (9, finalizes "a")
    ∷ (10, expires_eligible)
    ∷ []

abbrev reserved_one : LeaseManager
reserved_one = (reserve manager).0

abbrev one_lease : LeaseManager
one_lease = (commit digest 1 "a" 5 reserved_one).0

abbrev first_lease : Lease
first_lease = new_lease digest 0 "a" 5

abbrev busy : LeaseManager
busy = (begin_request "a" true 6 one_lease).0

abbrev guard : Guard
guard = record { session_id = "a"; address = 0; application_activity = true; done = false }

one_lease-Inv : Inv one_lease
one_lease-Inv = unfold run step in run-new-Inv digest 2 100000000000 10000000000 opening

capacity_bounded_example :
    capacity_used
      (run digest (new_lease_manager_with_disconnect_grace 2 100000000000 10000000000) history)
    ≤ 2
capacity_bounded_example = capacity_bounded digest 2 100000000000 10000000000 history (omega arith)

ledger_example :
    IsBalanced
      (run digest (new_lease_manager_with_disconnect_grace 2 100000000000 10000000000) history)
ledger_example = ledger digest 2 100000000000 10000000000 history

reserve_one : reserve manager ≡ (reserved_one, ok 1)
unfolding reserve new_lease_manager_with_disconnect_grace
reserve_one = refl

free_token : lookup (token_after manager) manager.reservations ≡ none
unfolding new_lease_manager_with_disconnect_grace lookup
free_token = refl

commit_one : commit digest 1 "a" 5 reserved_one ≡ (one_lease, none)
unfolding commit reserve admit new_lease_manager_with_disconnect_grace lookup insert erase
commit_one = refl

begin_one : begin_request "a" true 6 one_lease ≡ (busy, ok guard)
unfolding begin_request commit reserve admit new_lease new_lease_manager_with_disconnect_grace
    lookup insert erase
begin_one = refl

request_round_trip_example :
    (in_flight "a" busy ≡ suc (in_flight "a" one_lease))
    × (in_flight "a" (complete guard 8 busy).0 ≡ in_flight "a" one_lease)
    × ((again : ℕ) (m' : LeaseManager)
        → complete (complete guard 8 busy).1 again m' ≡ (m', (complete guard 8 busy).1))
request_round_trip_example = request_round_trip "a" true 6 8 one_lease busy guard begin_one

-- The lease of "a" after its request.
abbrev served_lease : Lease
served_lease = record first_lease { last_activity = 8; ever_active = true }

served_there : lookup "a" (complete guard 8 busy).0.leases ≡ some served_lease
unfolding complete settle finished touch begun begin_request commit reserve admit new_lease
    new_lease_manager_with_disconnect_grace lookup insert erase
served_there = refl

no_grace : served_lease.disconnect_deadline ≡ 0
unfolding new_lease
no_grace = refl

timeout_of : 50 < 8 + one_lease.idle_timeout
unfolding commit reserve admit new_lease_manager_with_disconnect_grace lookup insert erase
timeout_of = omega arith

-- The session is closed and its name reserved and admitted anew.
abbrev again_reserved : LeaseManager
again_reserved = (reserve one_lease).0

abbrev again_busy : LeaseManager
again_busy = (begin_request "a" true 6 again_reserved).0

abbrev readmitted : LeaseManager
readmitted = (commit digest 2 "a" 9 (finalize_close "a" 8 again_busy).0).0

again_reserved-Inv : Inv again_reserved
again_reserved-Inv =
    unfold run step in
    run-new-Inv digest 2 100000000000 10000000000
      ((1, reserves) ∷ (5, commits 1 "a") ∷ (6, reserves) ∷ [])

again_begin : begin_request "a" true 6 again_reserved ≡ (again_busy, ok guard)
unfolding begin_request commit reserve admit new_lease new_lease_manager_with_disconnect_grace
    lookup insert erase
again_begin = refl

readmit : commit digest 2 "a" 9 (finalize_close "a" 8 again_busy).0 ≡ (readmitted, none)
unfolding commit begin_request reserve admit new_lease new_lease_manager_with_disconnect_grace
    lookup insert erase finalize_close close_lease record_closed
readmit = refl

stale_guard_example : (complete guard 12 readmitted).0 ≡ readmitted
stale_guard_example =
    stale_guard digest "a" true 2 6 8 9 12 again_reserved again_busy readmitted guard
      again_reserved-Inv again_begin readmit

first_there : lookup "a" one_lease.leases ≡ some first_lease
unfolding commit reserve admit new_lease_manager_with_disconnect_grace lookup insert erase
first_there = refl

expire_eligible_exact_example :
    ((first_lease.state ≡ active)
        × (first_lease.in_flight ≡ 0)
        × Due one_lease 200000000000 first_lease
      → lookup "a" (expire_eligible 200000000000 one_lease).0.leases
        ≡ some (expire_as (expiry_reason one_lease 200000000000 first_lease) first_lease))
    × (¬ (
          (first_lease.state ≡ active)
          × (first_lease.in_flight ≡ 0)
          × Due one_lease 200000000000 first_lease)
        → lookup "a" (expire_eligible 200000000000 one_lease).0.leases ≡ some first_lease)
expire_eligible_exact_example =
    expire_eligible_exact 200000000000 one_lease "a" first_lease first_there

abbrev claimed : LeaseManager
claimed = (try_begin_expiry "a" "idle_timeout" one_lease).0

claim_one : try_begin_expiry "a" "idle_timeout" one_lease ≡ (claimed, true)
unfolding try_begin_expiry commit reserve admit new_lease new_lease_manager_with_disconnect_grace
    lookup insert erase
claim_one = refl

-- A stream, a sweep, a request and a claim that come after the claim.
abbrev after_claim : List (ℕ × Call)
after_claim =
    (10, begins_sse "a")
    ∷ (200000000000, expires_eligible)
    ∷ (200000000001, begins "a" true)
    ∷ (200000000002, ends_sse "a")
    ∷ []

claim_exclusive_example :
    (first_lease.in_flight ≡ 0) × Claimed "a" "other" true 9 (run digest claimed after_claim)
claim_exclusive_example =
    claim_exclusive digest "a" "idle_timeout" "other" true 9 one_lease claimed first_lease
      after_claim one_lease-Inv claim_one first_there (refl, (refl, (refl, (refl, tt))))

is_busy : 0 < in_flight "a" busy
unfolding in_flight begin_request begun commit reserve admit new_lease
    new_lease_manager_with_disconnect_grace lookup insert erase touch
is_busy = omega arith

abbrev row_limit : ℕ
row_limit = 1
