-- ===== src/Reachability/Examples.antt =====
-- internal/reachability/reachability.go: the theorems at a store of two probes.
use vision_mcp_manager.Base.{
  ℕ, ◌≡◌, refl, true, some, List, [], ◌∷◌, if◌then◌else◌, ◌==◌, string_eq, lookup, insert,
}
use vision_mcp_manager.Reachability.Text.{Runes}
use vision_mcp_manager.Reachability.{
  session, listener, depth_eq, succeeded, failed, ServerRecord, Store, new_record, recorded,
  record_probe, get, failed_evidence, succeeded_evidence, settled,
}
use vision_mcp_manager.Reachability.Views.{
  Call, records, fails, apply, server, depth_of, effect, view, apply_refines,
}
use vision_mcp_manager.Reachability.Verdict.{Attempt, failures, record_all, AtStreak, threshold}

-- A success at `session`, on an empty store.
abbrev success_call : Call
success_call = records "web" session 5 succeeded []

abbrev after_success : ServerRecord
after_success = settled (recorded session 5 succeeded [] new_record)

abbrev store : Store
store = ("web", after_success) ∷ []

applied : apply success_call 9 [] ≡ some (store, after_success)
unfolding apply record_probe insert lookup recorded succeeded_evidence
applied = refl

apply_refines_example :
    (view "web" session store ≡ (
      if server success_call == "web"
      then if depth_of success_call == session
        then effect success_call 9 (view "web" session [])
        else view "web" session []
      else view "web" session []))
    × (get (server success_call) store ≡ (after_success, true))
apply_refines_example = apply_refines success_call 9 [] store after_success "web" session applied

abbrev failing_at : ℕ → Attempt
failing_at t = record { at = t; now = t; error = 120 ∷ []; failing = true }

abbrev attempts : List Attempt
attempts = failing_at 6 ∷ failing_at 7 ∷ failing_at 8 ∷ []

-- A terminal failure at `listener`.
abbrev failure_call : Call
failure_call = fails "web" listener 7 (120 ∷ [])

probed : record_probe "web" session 5 succeeded [] 9 [] ≡ some (store, after_success)
unfolding record_probe insert lookup recorded succeeded_evidence
probed = refl

abbrev after_one : ServerRecord
after_one = settled (recorded session 6 failed (120 ∷ []) after_success)

abbrev after_two : ServerRecord
after_two = settled (recorded session 7 failed (120 ∷ []) after_one)

abbrev after_three : ServerRecord
after_three = settled (recorded session 8 failed (120 ∷ []) after_two)

abbrev store_after : Store
store_after = ("web", after_three) ∷ []

failed_thrice : record_all "web" session attempts store ≡ some store_after
unfolding record_all record_probe insert lookup recorded failed_evidence succeeded_evidence
failed_thrice = refl

threshold_example : AtStreak (failures attempts) (view "web" session store_after)
threshold_example =
    threshold "web" session 5 9 [] attempts [] store store_after after_success probed failed_thrice

abbrev text : Runes
text = 10 ∷ 120 ∷ 9 ∷ 121 ∷ []
