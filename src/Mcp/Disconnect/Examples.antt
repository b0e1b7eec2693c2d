-- ===== src/Mcp/Disconnect/Examples.antt =====
-- internal/mcp/disconnect.go: the theorems at a tracker with a grace period of 50.
use vision_mcp_manager.Base.{
  ◌<◌, ◌≡◌, refl, String, Bool, true, false, some, List, [], ◌∷◌, lookup, insert, erase, string_eq,
  nat_eq,
}
use vision_mcp_manager.Mcp.Disconnect.{
  DisconnectTracker, Timer, new_disconnect_tracker, track_request, release_connection, ref_count_of,
  default_reap,
}
use vision_mcp_manager.Mcp.Disconnect.Timers.{Inv}
use vision_mcp_manager.Mcp.Disconnect.Grace.{
  Event, connects, disconnects, fires, calls_back, step, run, timers_agree, late_reap,
}

abbrev all_known : String → Bool
all_known sid = true

abbrev left : List Event
left = connects "a" ∷ connects "a" ∷ disconnects 5 "a" ∷ disconnects 10 "a" ∷ []

-- The callback of the first timer comes after the next disconnection.
abbrev late : List Event
late =
    connects "a"
    ∷ disconnects 10 "a"
    ∷ fires 60 0
    ∷ connects "a"
    ∷ disconnects 70 "a"
    ∷ calls_back 0
    ∷ []

timers_agree_example : Inv (run all_known (new_disconnect_tracker 50) late)
timers_agree_example = timers_agree all_known 50 late

abbrev after : DisconnectTracker
after = run all_known (new_disconnect_tracker 50) left

abbrev timer : Timer
timer = record { session_id = "a"; due = 60 }

is_armed : lookup 0 after.armed ≡ some timer
unfolding run step track_request release_connection new_disconnect_tracker lookup insert erase
is_armed = refl

runs : after.stopped ≡ false
unfolding run step track_request release_connection new_disconnect_tracker lookup insert erase
runs = refl

late_reap_example :
    (0 < ref_count_of "a" (track_request "a" after))
    × (ref_count_of "a" (default_reap all_known "a" (track_request "a" after)) ≡ 0)
    × ((default_reap all_known "a" (track_request "a" after)).closed ≡ "a" ∷ after.closed)
late_reap_example = late_reap all_known "a" after runs refl
