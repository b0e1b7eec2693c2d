-- ===== src/Mcp/Gateway/Refusals.antt =====
-- internal/mcp/managed_gateway.go: a request that the gateway answers itself holds nothing.
use vision_mcp_manager.Base.{
  ℕ, ◌≤◌, String, ◌≡◌, refl, sym, subst, Bool, true, false, not, Option, none, some, Result, ok,
  err, List, [], ◌∷◌, string_eq, nat_eq, ◌==◌, if-branches, Option-branches,
}
use vision_mcp_manager.Mcp.Lease.{
  LeaseManager, LeaseError, lease_capacity, lease_not_active, reservation_not_found, lease_exists,
  empty_session_id, Guard, reserve, release_reservation, capacity_used, in_flight,
}
use vision_mcp_manager.Mcp.Lease.Sweep.{ExpiredLease, expire_eligible}
use vision_mcp_manager.Mcp.Lease.Machine.{
  Call, expires_eligible, expires_uncertain, restores, finalizes, marks_uncertain, step,
}
use vision_mcp_manager.Mcp.Lease.Invariant.{Inv}
use vision_mcp_manager.Mcp.Lease.Lighter.{Lighter, Lighter-trans, is_quiet, step-Lighter}
use vision_mcp_manager.Mcp.Gateway.{
  Gateway, with_leases, Cleanup, request_invalid, gate_closed, transport_failed, answered,
  is_disposed, closed_by, finalize_session, close_expired_quarantines, cleanup_one, cleanup_all,
  prune_idle, unless_reserved, reserve_again, reserve_with_prune,
}
use vision_mcp_manager.Mcp.Lease.Undone.{
  Lean, Lean-refl, Lean-trans, Lighter-Lean, Reserved, reserve-Reserved, Begun, begin_request-Begun,
  Streamed, begin_sse-Streamed, Claimed, try_begin_expiry-Claimed,
}
use vision_mcp_manager.Mcp.Gateway.Serve.{
  Request, Outcome, refused, forwarded, serve_initialize, serve_session, serve_stream, serve_delete,
  serve_method, serve_http, Method, post, get, delete, other_method, after_reserve, after_begin,
  after_stream, after_claim,
}

-- For a call of which the text of the history does not matter.
abbrev no_digest : String → String
no_digest sid = sid

pub step-quiet :
    (now : ℕ) (c : Call) (m : LeaseManager)
    → is_quiet c ≡ true
    → Inv m
    → Lighter m (step no_digest now c m)
step-quiet now c m q v = step-Lighter no_digest now c m q v

pub closed_by-leases :
    (g : Gateway) (reason : String) (r : LeaseManager × Bool) → (closed_by r reason g).leases ≡ r.0
closed_by-leases g reason (m, true) = refl
closed_by-leases g reason (m, false) = refl

pub cleanup_one-Lighter :
    (e : ExpiredLease) (answer : Cleanup) (now : ℕ) (g : Gateway)
    → Inv g.leases
    → Lighter g.leases (cleanup_one e answer now g).leases
unfolding cleanup_one finalize_session step
cleanup_one-Lighter e request_invalid now g v =
    step-quiet now (marks_uncertain e.session_id "cleanup_request_invalid") g.leases refl v
cleanup_one-Lighter e gate_closed now g v = step-quiet now (restores e.session_id) g.leases refl v
cleanup_one-Lighter e transport_failed now g v =
    step-quiet now (marks_uncertain e.session_id "cleanup_result_ambiguous") g.leases refl v
cleanup_one-Lighter e (answered status) now g v =
    if-branches (λ (g' : Gateway). Lighter g.leases g'.leases) (is_disposed status) _ _
      (λ _.
        subst (λ m. Lighter g.leases m) (sym (closed_by-leases g e.reason _))
          (step-quiet now (finalizes e.session_id) g.leases refl v))
      (λ _. step-quiet now (marks_uncertain e.session_id "cleanup_rejected") g.leases refl v)

pub cleanup_all-Lighter :
    (answer : String → Cleanup) (clock : String → ℕ) (es : List ExpiredLease) (m : LeaseManager)
    (g : Gateway)
    → Lighter m g.leases
    → Lighter m (cleanup_all answer clock es g).leases
unfolding cleanup_all
cleanup_all-Lighter answer clock [] m g v = v
cleanup_all-Lighter answer clock (e ∷ es) m g v =
    let sid = e.session_id in
    cleanup_all-Lighter answer clock es m (cleanup_one e (answer sid) (clock sid) g)
      (Lighter-trans m _ _ v (cleanup_one-Lighter e (answer sid) (clock sid) g v.inv))

pub prune_idle-Lighter :
    (answer : String → Cleanup) (clock : String → ℕ) (now : ℕ) (g : Gateway)
    → Inv g.leases
    → Lighter g.leases (prune_idle answer clock now g).leases
unfolding prune_idle close_expired_quarantines step
prune_idle-Lighter answer clock now g v =
    let closing = step-quiet now expires_uncertain g.leases refl v in
    let swept = close_expired_quarantines now g in
    let expiring = step-quiet now expires_eligible swept.leases refl closing.inv in
    cleanup_all-Lighter answer clock (expire_eligible now swept.leases).1 g.leases
      (with_leases (expire_eligible now swept.leases).0 swept)
      (Lighter-trans g.leases swept.leases _ closing expiring)

-- An outcome of which a refusal holds nothing.
abbrev HoldsNothing : LeaseManager → Gateway × Outcome → Type 0
HoldsNothing m (g, refused status) = Lean m g.leases
HoldsNothing m (g, forwarded state) = Unit

-- A reservation of the gateway that is refused, or released.
abbrev HasReserved : LeaseManager → Gateway × Result LeaseError ℕ → Type 0
HasReserved m (g, r) = Reserved m (g.leases, r)

Reserved-after :
    (m m' : LeaseManager) (r : LeaseManager × Result LeaseError ℕ)
    → Lean m m'
    → Reserved m' r
    → Reserved m r
Reserved-after m m' (m'', err e) v w = Lean-trans m m' m'' v w
Reserved-after m m' (m'', ok token) v w = Lean-trans m m' (release_reservation token m'') v w

unless_reserved-HasReserved :
    (m : LeaseManager) (r : LeaseManager × Result LeaseError ℕ) (g : Gateway)
    (retry : Gateway × Result LeaseError ℕ)
    → Reserved m r
    → HasReserved m retry
    → HasReserved m (unless_reserved r g retry)
unless_reserved-HasReserved m (m', ok token) g retry v w = v
unless_reserved-HasReserved m (m', err lease_capacity) g retry v w = w
unless_reserved-HasReserved m (m', err lease_not_active) g retry v w = v
unless_reserved-HasReserved m (m', err reservation_not_found) g retry v w = v
unless_reserved-HasReserved m (m', err lease_exists) g retry v w = v
unless_reserved-HasReserved m (m', err empty_session_id) g retry v w = v

reserve_with_prune-HasReserved :
    (answer : String → Cleanup) (clock : String → ℕ) (now : ℕ) (g : Gateway)
    → Inv g.leases
    → HasReserved g.leases (reserve_with_prune answer clock now g)
unfolding reserve_with_prune reserve_again
reserve_with_prune-HasReserved answer clock now g v =
    let pruned = prune_idle answer clock now g in
    let lighter = prune_idle-Lighter answer clock now g v in
    unless_reserved-HasReserved g.leases (reserve g.leases) g (reserve_again pruned)
      (reserve-Reserved g.leases v)
      (Reserved-after g.leases pruned.leases (reserve pruned.leases)
        (Lighter-Lean g.leases pruned.leases lighter) (reserve-Reserved pruned.leases lighter.inv))

after_reserve-HoldsNothing :
    (admits : Bool) (r : Request) (m : LeaseManager) (o : Gateway × Result LeaseError ℕ)
    → HasReserved m o
    → HoldsNothing m (after_reserve admits r o)
after_reserve-HoldsNothing admits r m (g, err e) v = v
after_reserve-HoldsNothing true r m (g, ok token) v = tt
after_reserve-HoldsNothing false r m (g, ok token) v = v

after_begin-HoldsNothing :
    (admits : Bool) (later : ℕ) (r : Request) (m : LeaseManager) (g : Gateway)
    (o : LeaseManager × Result LeaseError Guard)
    → Begun later m o
    → HoldsNothing m (after_begin admits later r g o)
after_begin-HoldsNothing admits later r m g (m', err e) v = v
after_begin-HoldsNothing true later r m g (m', ok guard) v = tt
after_begin-HoldsNothing false later r m g (m', ok guard) v = v

after_stream-HoldsNothing :
    (ready : Bool) (later : ℕ) (r : Request) (m : LeaseManager) (g : Gateway)
    (o : LeaseManager × Option LeaseError)
    → Streamed r.session_id later m o
    → HoldsNothing m (after_stream ready later r g o)
after_stream-HoldsNothing ready later r m g (m', some e) v = v
after_stream-HoldsNothing true later r m g (m', none) v = tt
after_stream-HoldsNothing false later r m g (m', none) v = v

after_claim-HoldsNothing :
    (admits : Bool) (r : Request) (m : LeaseManager) (g : Gateway) (o : LeaseManager × Bool)
    → Claimed r.session_id m o
    → HoldsNothing m (after_claim admits r g o)
after_claim-HoldsNothing admits r m g (m', false) v = v
after_claim-HoldsNothing true r m g (m', true) v = tt
after_claim-HoldsNothing false r m g (m', true) v = v

serve_initialize-HoldsNothing :
    (answer : String → Cleanup) (clock : String → ℕ) (admits : Bool) (now : ℕ) (r : Request)
    (g : Gateway)
    → Inv g.leases
    → HoldsNothing g.leases (serve_initialize answer clock admits now r g)
unfolding serve_initialize
serve_initialize-HoldsNothing answer clock admits now r g v =
    Option-branches (HoldsNothing g.leases) r.initialize _ _ (Lean-refl g.leases) λ initialize e.
      if-branches (HoldsNothing g.leases) (not initialize) _ _ (λ _. Lean-refl g.leases)
        (λ _.
          after_reserve-HoldsNothing admits r g.leases _
            (reserve_with_prune-HasReserved answer clock now g v))

serve_session-HoldsNothing :
    (admits : Bool) (now later : ℕ) (r : Request) (g : Gateway)
    → HoldsNothing g.leases (serve_session admits now later r g)
unfolding serve_session
serve_session-HoldsNothing admits now later r g =
    Option-branches (HoldsNothing g.leases) r.activity _ _ (Lean-refl g.leases) (λ activity e.
      after_begin-HoldsNothing admits later r g.leases _ _
        (begin_request-Begun r.session_id activity now later g.leases))

serve_method-HoldsNothing :
    (answer : String → Cleanup) (clock : String → ℕ) (admits ready : Bool) (now later : ℕ)
    (method : Method) (r : Request) (g : Gateway)
    → Inv g.leases
    → HoldsNothing g.leases (serve_method answer clock admits ready now later method r g)
unfolding serve_method serve_stream serve_delete
serve_method-HoldsNothing answer clock admits ready now later post r g v =
    if-branches (HoldsNothing g.leases) (r.session_id == "") _ _
      (λ _. serve_initialize-HoldsNothing answer clock admits now r g v)
      (λ _. serve_session-HoldsNothing admits now later r g)
serve_method-HoldsNothing answer clock admits ready now later get r g v =
    if-branches (HoldsNothing g.leases) (r.session_id == "") _ _ (λ _. Lean-refl g.leases)
      (λ _.
        after_stream-HoldsNothing ready later r g.leases g _
          (begin_sse-Streamed r.session_id later g.leases))
serve_method-HoldsNothing answer clock admits ready now later delete r g v =
    if-branches (HoldsNothing g.leases) (r.session_id == "") _ _ (λ _. Lean-refl g.leases)
      (λ _.
        after_claim-HoldsNothing admits r g.leases g _
          (try_begin_expiry-Claimed r.session_id "client_delete" g.leases))
serve_method-HoldsNothing answer clock admits ready now later other_method r g v =
    Lean-refl g.leases

serve_http-HoldsNothing :
    (answer : String → Cleanup) (clock : String → ℕ) (admits ready : Bool) (now later : ℕ)
    (r : Request) (g : Gateway)
    → Inv g.leases
    → HoldsNothing g.leases (serve_http answer clock admits ready now later r g)
unfolding serve_http
serve_http-HoldsNothing answer clock admits ready now later r g v =
    if-branches (HoldsNothing g.leases) (not (r.path == "/mcp")) _ _ (λ _. Lean-refl g.leases)
      (λ _. serve_method-HoldsNothing answer clock admits ready now later r.method r g v)

-- A request that the gateway answers itself holds nothing: where the manager's invariant holds,
-- whatever the path, the method, the session, the body, the backend's gate and the answers to the
-- cleanups that make room, after a refusal no more capacity is used than before, and no session has
-- more requests in flight.
pub refusal_holds_nothing :
    (answer : String → Cleanup) (clock : String → ℕ) (admits ready : Bool) (now later status : ℕ)
    (r : Request) (g g' : Gateway)
    → Inv g.leases
    → serve_http answer clock admits ready now later r g ≡ (g', refused status)
    → (capacity_used g'.leases ≤ capacity_used g.leases)
      × ((sid : String) → in_flight sid g'.leases ≤ in_flight sid g.leases)
refusal_holds_nothing answer clock admits ready now later status r g g' v e =
    let lean : HoldsNothing g.leases (g', refused status) =
      subst (HoldsNothing g.leases) e
        (serve_http-HoldsNothing answer clock admits ready now later r g v) in
    (lean.capacity, lean.flights)
