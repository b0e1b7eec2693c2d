-- ===== src/Mcp/Gateway/Examples.antt =====
-- internal/mcp/managed_gateway.go: the theorems at concrete gateways.
use vision_mcp_manager.Base.{
  ℕ, ◌+◌, ◌≤◌, ◌<◌, ◌≡◌, refl, arith, String, true, false, none, some, List, [], ◌∷◌, ok, lookup,
  insert, erase, string_eq, nat_eq,
}
use vision_mcp_manager.Mcp.Lease.{
  Lease, LeaseManager, active, capacity_used, in_flight, reserve, release_reservation, expire_as,
}
use vision_mcp_manager.Mcp.Lease.Sweep.{is_due, is_quarantine_over, expiry_reason}
use vision_mcp_manager.Mcp.Lease.Machine.{reserves}
use vision_mcp_manager.Mcp.Lease.Invariant.{Inv}
use vision_mcp_manager.Mcp.Lease.Sizes.{size}
use vision_mcp_manager.Mcp.Gateway.{
  Gateway, no_calls, Cleanup, answered, transport_failed, prune_idle, reserve_with_prune,
}
use vision_mcp_manager.Mcp.Gateway.Serve.{
  Request, post, refused, serve_http, serve_method, serve_initialize,
}
use vision_mcp_manager.Mcp.Gateway.Accounts.{
  Section, calls, opens, finalizes_session, sweeps_quarantines, counts_one, run_sections,
  fresh_system, gauge_true,
}
use vision_mcp_manager.Mcp.Gateway.Refusals.{refusal_holds_nothing}
use vision_mcp_manager.Mcp.Gateway.Pruning.{prune_idle_exact, fate}
use vision_mcp_manager.Mcp.Gateway.Room.{room_made}

abbrev digest : String → String
digest sid = sid

abbrev answer : String → Cleanup
answer sid = answered 204

abbrev failing : String → Cleanup
failing sid = transport_failed

abbrev clock : String → ℕ
clock sid = 101

abbrev sections : List (ℕ × Section)
sections =
    (1, calls reserves refl)
    ∷ (2, opens 1 "a")
    ∷ (3, calls reserves refl)
    ∷ (4, opens 2 "b")
    ∷ (5, finalizes_session "a" "upstream_delete")
    ∷ (6, sweeps_quarantines)
    ∷ (7, counts_one)
    ∷ []

gauge_true_example :
    let s = run_sections digest (fresh_system 2 10 0) sections in
    s.gateway.meters.opened ≡ s.gateway.meters.gone + (s.uncounted + size s.gateway.leases)
gauge_true_example = gauge_true digest 2 10 0 sections

abbrev lease : Lease
lease = record {
  address = 0;
  session_id = "a";
  safe_id = "a";
  state = active;
  created_at = 1;
  last_activity = 1;
  in_flight = 0;
  sse_count = 0;
  ever_active = true;
  disconnect_deadline = 0;
  cleanup_deadline = 0;
  reason = "initialized";
}

-- At most `max_sessions`, of which one is there; a timeout of 10 ns.
abbrev manager : ℕ → LeaseManager
manager max_sessions = record {
  max_sessions = max_sessions;
  idle_timeout = 10;
  disconnect_grace = 0;
  never_active_bound = 0;
  cleanup_uncertain_bound = 30;
  next_token = 1;
  next_address = 1;
  reservations = [];
  leases = ("a", lease) ∷ [];
  closed_rows = [];
  closed_omitted = 0;
}

abbrev gateway : ℕ → Gateway
gateway max_sessions = record { leases = manager max_sessions; meters = no_calls }

manager-Inv : (max_sessions : ℕ) → 0 < max_sessions → Inv (manager max_sessions)
unfolding lookup
manager-Inv max_sessions some_room = record {
  distinct_tokens = tt;
  distinct_ids = (refl, tt);
  capacity = λ h. omega (arith, some_room);
  history = omega arith;
  leases_ok = (ground arith, tt);
}

found : (max_sessions : ℕ) → lookup "a" (manager max_sessions).leases ≡ some lease
unfolding lookup
found max_sessions = refl

is_idle : is_due (manager 1) 100 lease ≡ true
unfolding is_due expiry_reason
is_idle = refl

prune_idle_exact_example :
    let after = lookup "a" (prune_idle failing clock 100 (gateway 1)).leases.leases in
    (is_quarantine_over 100 lease ≡ true → after ≡ none)
    × (is_quarantine_over 100 lease ≡ false
        → is_due (manager 1) 100 lease ≡ false
        → after ≡ some lease)
    × (is_quarantine_over 100 lease ≡ false
        → is_due (manager 1) 100 lease ≡ true
        → after
          ≡ fate 30 transport_failed 101 (expire_as (expiry_reason (manager 1) 100 lease) lease))
prune_idle_exact_example =
    prune_idle_exact failing clock 100 "a" (gateway 1) lease (manager-Inv 1 (omega arith)) (found 1)

room_made_example : (token : ℕ) × ((reserve_with_prune answer clock 100 (gateway 1)).1 ≡ ok token)
room_made_example =
    room_made answer clock 100 204 "a" (gateway 1) lease (omega arith) (manager-Inv 1 (omega arith))
      (found 1) is_idle refl refl

abbrev request : Request
request = record {
  path = "/mcp";
  method = post;
  session_id = "";
  initialize = some true;
  activity = none;
  tools_calls = 0;
}

-- The backend's gate is closed, and the reservation is released.
abbrev refused_gateway : Gateway
refused_gateway = record { leases = record (manager 2) { next_token = 2 }; meters = no_calls }

gate_is_closed :
    serve_http answer clock false true 100 101 request (gateway 2) ≡ (refused_gateway, refused 503)
unfolding serve_http serve_method serve_initialize reserve_with_prune reserve release_reservation
    insert erase
gate_is_closed = refl

refusal_holds_nothing_example :
    (capacity_used refused_gateway.leases ≤ capacity_used (manager 2))
    × ((sid : String) → in_flight sid refused_gateway.leases ≤ in_flight sid (manager 2))
refusal_holds_nothing_example =
    refusal_holds_nothing answer clock false true 100 101 503 request (gateway 2) refused_gateway
      (manager-Inv 2 (omega arith)) gate_is_closed
