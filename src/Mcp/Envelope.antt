-- ===== src/Mcp/Envelope.antt =====
-- internal/mcp/managed_gateway.go and lease.go: what the gateway reads from the JSON-RPC body of a
-- request. A body is given as encoding/json decodes it, as deep as the classifiers look; of a key
-- that stands twice the last value counts.
pub mod Agreement
mod Examples
use vision_mcp_manager.Base.{
  ℕ, zero, suc, ◌+◌, ◌*◌, ◌%◌, Bool, true, false, not, ◌&&◌, ◌||◌, Option, none, some, String, List,
  [], ◌∷◌, leb, nat_beq, if◌then◌else◌, ◌==◌, string_eq, Dict, lookup,
}
use vision_mcp_manager.Mcp.Gateway.Serve.{Request}

-- A literal: its sign, the number that its digits form, how many of them follow the point, and the
-- exponent as what it raises and what it lowers. `is_plain` is whether there is neither a point nor
-- an exponent.
pub record Literal : Type 0 where
  pub is_negative : Bool
  pub digits : ℕ
  pub fraction : ℕ
  pub raised : ℕ
  pub lowered : ℕ
  pub is_plain : Bool

-- The value of a member's field.
pub data Field : Type 0 where
  null array object : Field
  boolean : Bool → Field
  number : Literal → Field
  text : String → Field

-- A message. `null_member` decodes to an empty map, and `other_member` to none.
pub data Member : Type 0 where
  null_member other_member : Member
  fields : Dict String Field → Member

-- `missing` is a body that is not there or cannot be read.
pub data Body : Type 0 where
  missing undecodable : Body
  batch : List Member → Body
  single : Member → Body

abbrev pub decoded : Member → Option (Dict String Field)
decoded null_member = some []
decoded other_member = none
decoded (fields fs) = some fs

-- `json.Unmarshal` into a string, which a null leaves empty.
abbrev pub as_text : Field → Option String
as_text null = some ""
as_text (text s) = some s
as_text _ = none

abbrev pub has : String → Dict String Field → Bool
has key fs = elim (lookup key fs) [ none ↦ false | some _ ↦ true ]

pub is_mcp_params_object : Field → Bool
is_mcp_params_object object = true
is_mcp_params_object _ = false

abbrev pub power_of_ten : ℕ → ℕ
power_of_ten zero = 1
power_of_ten (suc n) = 10 * power_of_ten n

-- `strconv.ParseInt` of a literal succeeds.
pub fits_int64 : Literal → Bool
fits_int64 l =
    l.is_plain && leb l.digits (if l.is_negative then 9223372036854775808 else 9223372036854775807)

-- `big.Rat` reads the literal: the power of ten of a number that is not 0 is at most a million.
pub fits_rat : Literal → Bool
fits_rat l =
    nat_beq l.digits 0
    || leb l.raised (l.lowered + l.fraction + 1000000)
      && leb (l.lowered + l.fraction) (l.raised + 1000000)

-- The exact value is read and whole.
pub is_whole : Literal → Bool
unfolding fits_rat
is_whole l =
    fits_rat l
    && nat_beq (l.digits * power_of_ten l.raised % power_of_ten (l.lowered + l.fraction)) 0

pub is_mcp_request_id : Field → Bool
unfolding fits_int64 is_whole
is_mcp_request_id (text s) = true
is_mcp_request_id (number l) = fits_int64 l || is_whole l
is_mcp_request_id _ = false

pub data McpMember : Type 0 where
  malformed response : McpMember
  notification request : String → McpMember

-- The method of a member whose `jsonrpc` is right.
pub method_of : Dict String Field → Option String
method_of fs = elim (lookup "method" fs) [
  | none ↦ none
  | some raw ↦ elim (as_text raw) [ none ↦ none | some m ↦ if m == "" then none else some m ]
]

abbrev pub has_version : Dict String Field → Bool
has_version fs = elim (lookup "jsonrpc" fs) [
  | none ↦ false
  | some raw ↦ elim (as_text raw) [ none ↦ false | some v ↦ v == "2.0" ]
]

abbrev pub params_allowed : Dict String Field → Bool
params_allowed fs = elim (lookup "params" fs) [ none ↦ true | some raw ↦ is_mcp_params_object raw ]

-- The part of `classifyMCPMember` that follows the method.
pub with_method : String → Dict String Field → McpMember
unfolding is_mcp_params_object is_mcp_request_id
with_method m fs = if not (params_allowed fs) then malformed else elim (lookup "id" fs) [
  | none ↦ notification m
  | some raw ↦
      if has "result" fs || has "error" fs || not (is_mcp_request_id raw)
      then malformed
      else request m
]

pub classify_fields : Dict String Field → McpMember
unfolding method_of with_method
classify_fields fs =
    if not (has_version fs)
    then malformed
    else if not (has "method" fs)
    then if has "id" fs && (has "result" fs || has "error" fs) then response else malformed
    else elim (method_of fs) [ none ↦ malformed | some m ↦ with_method m fs ]

pub classify_mcp_member : Member → McpMember
unfolding classify_fields
classify_mcp_member m = elim (decoded m) [ none ↦ malformed | some fs ↦ classify_fields fs ]

abbrev pub is_request_of : String → McpMember → Bool
is_request_of name (request m) = m == name
is_request_of name _ = false

pub is_tools_call_member : Member → Bool
unfolding classify_mcp_member
is_tools_call_member m = is_request_of "tools/call" (classify_mcp_member m)

pub tools_calls_in : List Member → ℕ
unfolding is_tools_call_member
tools_calls_in [] = 0
tools_calls_in (m ∷ ms) =
    if is_tools_call_member m then suc (tools_calls_in ms) else tools_calls_in ms

pub count_managed_tools_calls : Body → ℕ
unfolding tools_calls_in is_tools_call_member
count_managed_tools_calls (batch ms) = tools_calls_in ms
count_managed_tools_calls (single m) = if is_tools_call_member m then 1 else 0
count_managed_tools_calls _ = 0

-- `classifyJSONRPCMessage`; `none` is an error.
pub classify_json_rpc_message : Member → Option Bool
unfolding method_of
classify_json_rpc_message m = elim (decoded m) [
  | none ↦ none
  | some fs ↦
      if has "method" fs
      then elim (method_of fs) [
        | none ↦ none
        | some name ↦ some (has "id" fs && not (name == "ping"))
      ]
      else if has "id" fs && (has "result" fs || has "error" fs)
      then some false
      else none
]

abbrev pub either : Option Bool → Option Bool → Option Bool
either none b = none
either (some a) none = none
either (some a) (some b) = some (a || b)

-- The loop over a batch.
pub classify_batch : List Member → Option Bool
unfolding classify_json_rpc_message
classify_batch [] = some false
classify_batch (m ∷ ms) = either (classify_json_rpc_message m) (classify_batch ms)

pub classify_application_activity : Body → Option Bool
unfolding classify_batch classify_json_rpc_message
classify_application_activity (batch []) = none
classify_application_activity (batch (m ∷ ms)) = classify_batch (m ∷ ms)
classify_application_activity (single m) = classify_json_rpc_message m
classify_application_activity _ = none

pub is_managed_initialize_request : Body → Option Bool
is_managed_initialize_request (single m) = elim (decoded m) [
  | none ↦ none
  | some fs ↦ elim (lookup "method" fs) [
    | none ↦ some false
    | some raw ↦
        if not (has "id" fs) || has "result" fs || has "error" fs
        then some false
        else elim (as_text raw) [ none ↦ none | some name ↦ some (name == "initialize") ]
  ]
]
is_managed_initialize_request _ = none

-- The request as the gateway serves it, with what `classifyManagedRequestBody` and
-- `isManagedInitializeRequest` read from its body.
pub with_body : Body → Request → Request
unfolding classify_application_activity count_managed_tools_calls is_managed_initialize_request
with_body b r = record r {
  initialize = is_managed_initialize_request b;
  activity = classify_application_activity b;
  tools_calls = count_managed_tools_calls b;
}
