-- ===== src/Mcp/Envelope/Examples.antt =====
-- internal/mcp/managed_gateway.go: the theorem at a concrete batch.
use vision_mcp_manager.Base.{
  ◌<◌, ◌≡◌, ◌⊎◌, subst, sym, refl, arith, true, false, none, some, [], ◌∷◌, string_eq, lookup,
}
use vision_mcp_manager.Mcp.Gateway.Serve.{Request, post}
use vision_mcp_manager.Mcp.Envelope.{
  Literal, object, number, text, Member, fields, Body, batch, malformed, classify_mcp_member,
  with_body,
}
use vision_mcp_manager.Mcp.Envelope.Agreement.{counted_is_active}

-- 10, and 1.5
abbrev ten : Literal
ten = record {
  is_negative = false;
  digits = 100;
  fraction = 1;
  raised = 0;
  lowered = 0;
  is_plain = false;
}

abbrev one_and_a_half : Literal
one_and_a_half = record ten { digits = 15 }

abbrev tool_call : Literal → Member
tool_call id = fields (
    ("jsonrpc", text "2.0")
    ∷ ("id", number id)
    ∷ ("method", text "tools/call")
    ∷ ("params", object)
    ∷ [])

abbrev notice : Member
notice = fields (("jsonrpc", text "2.0") ∷ ("method", text "notifications/progress") ∷ [])

abbrev body : Body
body = batch (notice ∷ tool_call ten ∷ [])

abbrev posted : Request
posted = record {
  path = "/mcp";
  method = post;
  session_id = "a";
  initialize = none;
  activity = none;
  tools_calls = 0;
}

body_read :
    with_body body posted
    ≡ record posted { initialize = none; activity = some true; tools_calls = 1 }
unfolding with_body lookup
body_read = refl

fractional_id : classify_mcp_member (tool_call one_and_a_half) ≡ malformed
unfolding lookup classify_mcp_member
fractional_id = refl

one_counted : 0 < (with_body body posted).tools_calls
one_counted = subst (λ (r : Request). 0 < r.tools_calls) (sym body_read) (omega arith)

counted_is_active_example :
    ((with_body body posted).activity ≡ none) ⊎ ((with_body body posted).activity ≡ some true)
counted_is_active_example = counted_is_active body posted one_counted
