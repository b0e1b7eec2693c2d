-- ===== src/Mcp/Envelope/Agreement.antt =====
-- internal/mcp/managed_gateway.go and lease.go: the classifiers of a body agree.
use vision_mcp_manager.Base.{
  ◌<◌, ◌≡◌, ◌⊎◌, ◌∙◌, ap, arith, Bool, true, not, none, some, Option-cases, inl, inr, String, List,
  [], ◌∷◌, ◌==◌, string_eq, Dict, lookup,
}
use vision_mcp_manager.Mcp.Gateway.Serve.{Request}
use vision_mcp_manager.Mcp.Envelope.{
  Member, Body, Field, null_member, other_member, fields, batch, single, missing, undecodable,
  request, method_of, with_method, classify_fields, classify_mcp_member, is_request_of,
  is_tools_call_member, tools_calls_in, count_managed_tools_calls, classify_json_rpc_message,
  classify_batch, classify_application_activity, is_managed_initialize_request, with_body,
  malformed, notification, response, McpMember,
}

fields-request :
    (fs : Dict String Field) (name : String)
    → classify_fields fs ≡ request name
    → (classify_json_rpc_message (fields fs) ≡ some (not (name == "ping")))
      × (is_managed_initialize_request (single (fields fs)) ≡ some (name == "initialize"))
unfolding classify_fields with_method classify_json_rpc_message is_managed_initialize_request
    method_of
fields-request fs name h = ground (arith, h)

-- What the gateway takes for a request is one to the other two classifiers as well: it is activity
-- unless it is a ping, and it opens a session exactly if its method is `initialize`.
pub member-request :
    (m : Member) (name : String)
    → classify_mcp_member m ≡ request name
    → (classify_json_rpc_message m ≡ some (not (name == "ping")))
      × (is_managed_initialize_request (single m) ≡ some (name == "initialize"))
unfolding classify_mcp_member classify_fields lookup
member-request null_member name h = ground (arith, h)
member-request other_member name h = cc h
member-request (fields fs) name h = fields-request fs name h

is_request_of-true :
    (name : String) (member : McpMember) → is_request_of name member ≡ true → member ≡ request name
is_request_of-true name malformed h = cc h
is_request_of-true name response h = cc h
is_request_of-true name (notification m) h = cc h
is_request_of-true name (request m) h = ap request ((string_eq.beq_iff m name).0 h)

counted-active :
    (m : Member) → is_tools_call_member m ≡ true → classify_json_rpc_message m ≡ some true
unfolding is_tools_call_member
counted-active m h =
    (member-request m "tools/call" (is_request_of-true "tools/call" (classify_mcp_member m) h)).0

batch-active :
    (ms : List Member) (active : Bool)
    → classify_batch ms ≡ some active
    → 0 < tools_calls_in ms
    → active ≡ true
unfolding classify_batch tools_calls_in
batch-active [] active h counted = ground (arith, counted)
batch-active (m ∷ ms) active h counted = elim (Option-cases (classify_batch ms)) [
  | inl undecided ↦ ground (arith, h, undecided)
  | inr (rest, decided) ↦
      ground (arith, h, counted, decided, counted-active m, batch-active ms rest decided)
]

body-active :
    (b : Body) (active : Bool)
    → classify_application_activity b ≡ some active
    → 0 < count_managed_tools_calls b
    → active ≡ true
unfolding classify_application_activity count_managed_tools_calls
body-active missing active h counted = cc h
body-active undecodable active h counted = cc h
body-active (batch []) active h counted = cc h
body-active (batch (m ∷ ms)) active h counted = batch-active (m ∷ ms) active h counted
body-active (single m) active h counted = ground (arith, h, counted, counted-active m)

-- A request with a genuine `tools/call` request in its body, alone or in a batch, counts as activity
-- of its session, unless the classification of the body is an error.
pub counted_is_active :
    (b : Body) (r : Request)
    → 0 < (with_body b r).tools_calls
    → ((with_body b r).activity ≡ none) ⊎ ((with_body b r).activity ≡ some true)
unfolding with_body
counted_is_active b r counted = elim (Option-cases (classify_application_activity b)) [
  | inl undecided ↦ inl undecided
  | inr (active, decided) ↦ inr (decided ∙ ap some (body-active b active decided counted))
]
