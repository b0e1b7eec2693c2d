-- ===== src/Mcp/Gateway/Serve.antt =====
-- internal/mcp/managed_gateway.go: `ServeHTTP` up to the dispatch, what the proxy observes of the
-- backend's answer, and the deferred calls at the end of a request.
use vision_mcp_manager.Base.{
  ℕ, suc, String, Bool, true, false, not, Option, none, some, Result, ok, err, if◌then◌else◌, ◌==◌,
  string_eq,
}
use vision_mcp_manager.Mcp.Lease.{
  LeaseManager, LeaseError, Guard, release_reservation, begin_request, complete, begin_sse, end_sse,
  try_begin_expiry, restore_active,
}
use vision_mcp_manager.Mcp.Gateway.{
  Gateway, with_leases, report_ambiguous_failure, count_errors, count_calls, open_session,
  finalize_session, is_successful_status, is_disposed, Cleanup, mark_uncertain, reserve_with_prune,
}

pub data Method : Type 0 where
  post get delete other_method : Method

-- A request as the classifiers of its body read it: whether it is an `initialize` request, whether
-- it carries application activity (`none` for an error of the classifier), and how many
-- `tools/call` requests it has.
pub record Request : Type 0 where
  pub path : String
  pub method : Method
  pub session_id : String
  pub initialize : Option Bool
  pub activity : Option Bool
  pub tools_calls : ℕ

pub data RequestKind : Type 0 where
  session_request initialize_request sse_request delete_request : RequestKind

-- `managedProxyRequest`, with the guard whose completion is deferred.
pub record ProxyRequest : Type 0 where
  pub kind : RequestKind
  pub session_id : String
  pub reservation : Option ℕ
  pub tools_calls : ℕ
  pub guard : Option Guard

-- The gateway's own answer, by its status, or a request that goes to the backend.
pub data Outcome : Type 0 where
  refused : ℕ → Outcome
  forwarded : ProxyRequest → Outcome

abbrev pub count_denied : Gateway → Gateway
count_denied g = record g { meters = record (g.meters) { denied = suc g.meters.denied } }

abbrev pub plain_request : RequestKind → String → ProxyRequest
plain_request kind sid = record {
  kind = kind;
  session_id = sid;
  reservation = none;
  tools_calls = 0;
  guard = none;
}

-- What follows a reservation. `admits` is whether the backend's gate lets the request in.
abbrev pub after_reserve :
    (admits : Bool) → Request → Gateway × Result LeaseError ℕ → Gateway × Outcome
after_reserve admits r (g, err e) = (count_denied g, refused 429)
after_reserve admits r (g, ok token) =
    if admits
    then (
      g,
      forwarded
          (record (plain_request initialize_request r.session_id) { reservation = some token }),
    )
    else (with_leases (release_reservation token g.leases) g, refused 503)

-- A POST without a session.
unfoldable pub serve_initialize :
    (answer : String → Cleanup)
    → (clock : String → ℕ) → (admits : Bool) → (now : ℕ) → Request
    → Gateway
    → Gateway × Outcome
serve_initialize answer clock admits now r g = elim r.initialize [
  | none ↦ (count_calls r.tools_calls g, refused 400)
  | some initialize ↦
      if not initialize
      then (count_calls r.tools_calls g, refused 404)
      else after_reserve admits r (reserve_with_prune answer clock now g)
]

-- What follows `BeginRequest`. `later` is the time of the deferred completion, where the gate
-- refuses.
abbrev pub after_begin :
    (admits : Bool)
    → (later : ℕ) → Request
    → Gateway
    → LeaseManager × Result LeaseError Guard
    → Gateway × Outcome
after_begin admits later r g (m, err e) = (with_leases m g, refused 404)
after_begin admits later r g (m, ok guard) =
    if admits
    then (
      with_leases m g,
      forwarded (record (plain_request session_request r.session_id) {
        tools_calls = r.tools_calls;
        guard = some guard;
      }),
    )
    else (with_leases (complete guard later m).0 (count_errors r.tools_calls g), refused 503)

-- A POST of a session.
unfoldable pub serve_session :
    (admits : Bool) → (now later : ℕ) → Request → Gateway → Gateway × Outcome
serve_session admits now later r g = elim r.activity [
  | none ↦ (count_calls r.tools_calls g, refused 400)
  | some activity ↦
      after_begin admits later r (count_calls r.tools_calls g)
        (begin_request r.session_id activity now g.leases)
]

-- What follows `BeginSSE`. `ready` is whether the backend is.
abbrev pub after_stream :
    (ready : Bool)
    → (later : ℕ) → Request
    → Gateway
    → LeaseManager × Option LeaseError
    → Gateway × Outcome
after_stream ready later r g (m, some e) = (with_leases m g, refused 404)
after_stream ready later r g (m, none) =
    if ready
    then (with_leases m g, forwarded (plain_request sse_request r.session_id))
    else (with_leases (end_sse r.session_id later m) g, refused 503)

unfoldable pub serve_stream : (ready : Bool) → (later : ℕ) → Request → Gateway → Gateway × Outcome
serve_stream ready later r g =
    if r.session_id == ""
    then (g, refused 404)
    else after_stream ready later r g (begin_sse r.session_id g.leases)

-- What follows `TryBeginExpiry`.
abbrev pub after_claim :
    (admits : Bool) → Request → Gateway → LeaseManager × Bool → Gateway × Outcome
after_claim admits r g (m, false) = (with_leases m g, refused 404)
after_claim admits r g (m, true) =
    if admits
    then (with_leases m g, forwarded (plain_request delete_request r.session_id))
    else (with_leases (restore_active r.session_id m).0 g, refused 503)

unfoldable pub serve_delete : (admits : Bool) → Request → Gateway → Gateway × Outcome
serve_delete admits r g =
    if r.session_id == ""
    then (g, refused 404)
    else after_claim admits r g (try_begin_expiry r.session_id "client_delete" g.leases)

-- The switch on the method.
unfoldable pub serve_method :
    (answer : String → Cleanup)
    → (clock : String → ℕ) → (admits ready : Bool) → (now later : ℕ) → Method
    → Request
    → Gateway
    → Gateway × Outcome
unfolding serve_initialize serve_session serve_stream serve_delete
serve_method answer clock admits ready now later post r g =
    if r.session_id == ""
    then serve_initialize answer clock admits now r g
    else serve_session admits now later r g
serve_method answer clock admits ready now later get r g = serve_stream ready later r g
serve_method answer clock admits ready now later delete r g = serve_delete admits r g
serve_method answer clock admits ready now later other_method r g = (g, refused 405)

unfoldable pub serve_http :
    (answer : String → Cleanup)
    → (clock : String → ℕ) → (admits ready : Bool) → (now later : ℕ) → Request
    → Gateway
    → Gateway × Outcome
unfolding serve_method
serve_http answer clock admits ready now later r g =
    if not (r.path == "/mcp")
    then (g, refused 404)
    else serve_method answer clock admits ready now later r.method r g

-- `observeProxyError`, with the metric of the proxy's error handler for a timeout.
pub observe_proxy_error : ProxyRequest → (timeout : Bool) → (now : ℕ) → Gateway → Gateway
observe_proxy_error state timeout now g =
    let counted = count_errors state.tools_calls g in
    let marked : Gateway = elim state.kind [
      | delete_request ↦ mark_uncertain state.session_id "cleanup_result_ambiguous" now counted
      | _ ↦ counted
    ] in
    let reported = report_ambiguous_failure marked in
    if timeout
    then record reported {
      meters = record (reported.meters) { header_timeouts = suc reported.meters.header_timeouts };
    }
    else reported

abbrev pub release_held : Option ℕ → Gateway → Gateway
release_held none g = g
release_held (some token) g = with_leases (release_reservation token g.leases) g

-- The answer to an `initialize` request; true is an error.
pub observe_initialize :
    (digest : String → String)
    → ProxyRequest
    → (status : ℕ) → (sid : String) → (now : ℕ) → Gateway
    → Gateway × Bool
unfolding open_session
observe_initialize digest state status sid now g =
    if not (is_successful_status status)
    then (release_held state.reservation g, false)
    else if sid == ""
    then (g, true)
    else elim state.reservation [
      | none ↦ (g, true)
      | some token ↦
          let (g', e) = open_session digest token sid now g in
          elim e [ none ↦ (g', false) | some e' ↦ (g', true) ]
    ]

pub observe_delete : ProxyRequest → (status : ℕ) → (now : ℕ) → Gateway → Gateway
unfolding finalize_session
observe_delete state status now g =
    if is_disposed status
    then finalize_session state.session_id "upstream_delete" now g
    else report_ambiguous_failure (mark_uncertain state.session_id "cleanup_rejected" now g)

-- `observeResponse`; `sid` is the trimmed session header of the answer. An error of it goes to the
-- proxy's error handler, and is no timeout.
pub observe_response :
    (digest : String → String)
    → ProxyRequest
    → (status : ℕ) → (sid : String) → (now : ℕ) → Gateway
    → Gateway
unfolding observe_initialize observe_delete observe_proxy_error
observe_response digest state status sid now g =
    let counted = if is_successful_status status then g else count_errors state.tools_calls g in
    elim state.kind [
      | initialize_request ↦
          let (g', failed) = observe_initialize digest state status sid now counted in
          if failed then observe_proxy_error state false now g' else g'
      | delete_request ↦ observe_delete state status now counted
      | session_request ↦ counted
      | sse_request ↦ counted
    ]

-- The deferred calls of a forwarded request.
pub finish_request : ProxyRequest → (now : ℕ) → Gateway → Gateway
finish_request state now g = elim state.kind [
  | session_request ↦ elim state.guard [
    | none ↦ g
    | some guard ↦ with_leases (complete guard now g.leases).0 g
  ]
  | sse_request ↦ with_leases (end_sse state.session_id now g.leases) g
  | initialize_request ↦ g
  | delete_request ↦ g
]
