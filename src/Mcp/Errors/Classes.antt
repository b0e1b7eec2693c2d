-- ===== src/Mcp/Errors/Classes.antt =====
-- internal/mcp/resilience.go: what the classification of errors does.
use vision_mcp_manager.Base.{ℕ, ◌≡◌, refl, arith, Bool, false, List}
use vision_mcp_manager.Mcp.Errors.{
  Error, canceled, Text, classify_tool_call_error, as_availability, should_record_circuit_failure,
  is_downstream_closure_error,
}

module _ (duration_text : ℕ → Text) where
  -- An error that has been classified stays as it is.
  classify_idem :
      (exhausted : Bool) (patterns : List Text) (e : Error)
      → classify_tool_call_error duration_text exhausted patterns
          (classify_tool_call_error duration_text exhausted patterns e)
        ≡ classify_tool_call_error duration_text exhausted patterns e
  unfolding classify_tool_call_error as_availability
  classify_idem exhausted patterns e = ground arith

  -- A cancellation is no failure of the backend, whatever the patterns.
  pub canceled_counts_not :
      (patterns : List Text)
      → (is_downstream_closure_error duration_text canceled ≡ false)
        × (should_record_circuit_failure duration_text patterns canceled ≡ false)
  unfolding is_downstream_closure_error should_record_circuit_failure
  canceled_counts_not patterns = (refl, refl)
