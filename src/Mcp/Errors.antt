-- ===== src/Mcp/Errors.antt =====
-- internal/mcp/resilience.go: the errors of a tool call, what they say, and how they are
-- classified. `wrapped` is an error of `fmt.Errorf` with `%w`. Texts are ASCII, as code points.
pub mod Classes
use Prim.Native.Char.{code}
use vision_mcp_manager.Base.{
  ℕ, ◌+◌, Bool, true, false, not, ◌&&◌, ◌||◌, Option, none, some, String, List, [], ◌∷◌, ◌++◌, any,
  ltb, leb, nat_beq, if◌then◌else◌,
}

abbrev pub Text : Type 0
Text = List ℕ

abbrev pub codes : String → Text
codes String.[] = []
codes (String.◌∷◌ c s) = code c ∷ codes s

pub data FailureCategory : Type 0 where
  config_drift provider_timeout retry_exhausted circuit_open_category : FailureCategory

pub category_text : FailureCategory → Text
category_text config_drift = codes "config_drift"
category_text provider_timeout = codes "provider_timeout"
category_text retry_exhausted = codes "retry_exhausted"
category_text circuit_open_category = codes "circuit_open"

pub data Error : Type 0 where
  canceled deadline_exceeded downstream_unavailable : Error
  circuit_open : (server : Text) (retry_in : ℕ) → Error
  availability : FailureCategory → Error → Error
  wrapped : Text → Error → Error
  other : Text → Error

-- `errors.Is(err, context.Canceled)`, which unwraps.
pub is_canceled : Error → Bool
is_canceled canceled = true
is_canceled (availability c e) = is_canceled e
is_canceled (wrapped t e) = is_canceled e
is_canceled _ = false

pub is_deadline_exceeded : Error → Bool
is_deadline_exceeded deadline_exceeded = true
is_deadline_exceeded (availability c e) = is_deadline_exceeded e
is_deadline_exceeded (wrapped t e) = is_deadline_exceeded e
is_deadline_exceeded _ = false

pub is_unavailable : Error → Bool
is_unavailable downstream_unavailable = true
is_unavailable (availability c e) = is_unavailable e
is_unavailable (wrapped t e) = is_unavailable e
is_unavailable _ = false

-- `errors.As` with an `*AvailabilityError`.
pub as_availability : Error → Option FailureCategory
as_availability (availability c e) = some c
as_availability (wrapped t e) = as_availability e
as_availability _ = none

-- `errors.As` with a `*CircuitOpenError`.
pub is_circuit_open : Error → Bool
is_circuit_open (circuit_open server retry_in) = true
is_circuit_open (availability c e) = is_circuit_open e
is_circuit_open (wrapped t e) = is_circuit_open e
is_circuit_open _ = false

-- `strings.ToLower` and `strings.Contains`.
pub to_lower : Text → Text
to_lower [] = []
to_lower (c ∷ t) = (if leb 65 c && leb c 90 then c + 32 else c) ∷ to_lower t

pub has_prefix : Text → Text → Bool
has_prefix t [] = true
has_prefix [] (p ∷ ps) = false
has_prefix (c ∷ t) (p ∷ ps) = nat_beq c p && has_prefix t ps

pub contains : Text → Text → Bool
unfolding has_prefix
contains [] p = has_prefix [] p
contains (c ∷ t) p = has_prefix (c ∷ t) p || contains t p

abbrev pub is_empty : Text → Bool
is_empty [] = true
is_empty (c ∷ t) = false

-- The loop over the patterns.
pub matches : Text → List Text → Bool
unfolding contains to_lower
matches msg patterns =
    any (λ pattern. not (is_empty pattern) && contains msg (to_lower pattern)) patterns

-- `duration_text` is `Duration.String`.
module _ (duration_text : ℕ → Text) where
  pub message : Error → Text
  unfolding category_text
  message canceled = codes "context canceled"
  message deadline_exceeded = codes "context deadline exceeded"
  message downstream_unavailable = codes "downstream session unavailable"
  message (circuit_open server retry_in) =
      if ltb 0 retry_in
      then codes "downstream circuit breaker open for "
        ++ server
        ++ codes ", retry in "
        ++ duration_text retry_in
      else codes "downstream circuit breaker open for " ++ server
  message (availability c e) = category_text c ++ codes ": " ++ message e
  message (wrapped t e) = t ++ message e
  message (other t) = t

  pub is_retryable_tool_call_error : List Text → Error → Bool
  unfolding is_canceled is_deadline_exceeded is_unavailable matches message to_lower
  is_retryable_tool_call_error patterns e =
      if is_canceled e
      then false
      else if is_deadline_exceeded e || is_unavailable e
      then true
      else matches (to_lower (message e)) patterns

  pub should_record_circuit_failure : List Text → Error → Bool
  unfolding is_retryable_tool_call_error
  should_record_circuit_failure patterns e = is_retryable_tool_call_error patterns e

  pub classify_tool_call_error : (attempts_exhausted : Bool) → List Text → Error → Error
  unfolding is_retryable_tool_call_error as_availability
  classify_tool_call_error attempts_exhausted patterns e = elim (as_availability e) [
    | some c ↦ e
    | none ↦
        if is_circuit_open e
        then availability circuit_open_category e
        else if is_unavailable e
        then availability config_drift e
        else if attempts_exhausted && is_retryable_tool_call_error patterns e
        then availability retry_exhausted e
        else if is_deadline_exceeded e
        then availability provider_timeout e
        else e
  ]

  -- `isDownstreamClosureError`.
  pub is_downstream_closure_error : Error → Bool
  unfolding contains message
  is_downstream_closure_error e = contains (message e) (codes "client is closing")
