-- ===== src/Slots/Examples.antt =====
-- internal/slots/multiplexer.go: the theorems at a group of two slots.
use vision_mcp_manager.Base.{
  ℕ, ◌*◌, ◌≡◌, refl, arith, true, Option, none, some, err, String, List, [], ◌∷◌, leb, nat_beq,
  if◌then◌else◌, All, lookup, insert, erase, sort, place, string_eq, nat_eq,
}
use vision_mcp_manager.Slots.{
  Entry, SlotEntry, Multiplexer, Fleet, err_max_sessions, new_multiplexer, allocate,
  select_for_new_session, choose, better, slot_load, slot_at_capacity, slot_healthy, rebind,
  admission_status, admit_all, admit,
}
use vision_mcp_manager.Slots.Choice.{Valid, LighterAt, taken, least_loaded}
use vision_mcp_manager.Slots.Capacity.{admission_refuses}
use vision_mcp_manager.Slots.Binding.{bound}
use vision_mcp_manager.Slots.History.{
  Event, selects, rebinds, step, run, Orderly, pending_balance, live_session_counts_twice,
}

abbrev entries : List Entry
entries =
    record { slot_name = "p-2"; index = 2; manager = some 20; healthy = none }
    ∷ record { slot_name = "p-1"; index = 1; manager = some 10; healthy = none }
    ∷ []

-- Each manager takes two sessions; the manager 10 has one.
abbrev fleet : Fleet
fleet = record {
  session_count = λ mgr. if nat_beq mgr 10 then 1 else 0;
  max_sessions = λ mgr. 2;
  is_healthy = λ check. true;
  now = 100;
}

abbrev no_sessions : Fleet
no_sessions = record fleet { session_count = λ mgr. 0 }

abbrev full_fleet : Fleet
full_fleet = record fleet { session_count = λ mgr. 2 }

abbrev group : Multiplexer
group = new_multiplexer entries

new_session : (u : String) → lookup u group.by_upstream ≡ none
unfolding new_multiplexer allocate lookup
new_session u = refl

least_loaded_example :
    (choice : Option (ℕ × SlotEntry)) × Valid fleet group.heap choice
    × All (LighterAt fleet group.heap choice) group.slots
    × (select_for_new_session fleet "s" group ≡ taken "s" group choice)
least_loaded_example = least_loaded fleet "s" group (new_session "s")

group_full : (admission_status full_fleet group).0 ≡ true
unfolding admission_status admit_all admit slot_load new_multiplexer allocate lookup insert sort
    place
group_full = refl

admission_refuses_example :
    select_for_new_session full_fleet "s" group ≡ (err err_max_sessions, group)
admission_refuses_example = admission_refuses full_fleet "s" group group_full (new_session "s")

-- A session is given a slot under a pending key and moved to its own.
abbrev history : List Event
history = selects no_sessions "pending" ∷ rebinds "pending" "s" ∷ []

abbrev bound_slot : SlotEntry
bound_slot = record {
  slot_name = "p-1";
  index = 1;
  mgr = some 10;
  pending = 1;
  healthy = none;
  quarantined_until = 0;
}

orderly : Orderly group history
unfolding step new_multiplexer allocate select_for_new_session choose slot_healthy slot_at_capacity
    better slot_load lookup insert sort place
orderly = (tt, (refl, tt))

bound_there : lookup 1 (run group history).heap ≡ some bound_slot
unfolding run step rebind new_multiplexer allocate select_for_new_session choose slot_healthy
    slot_at_capacity better slot_load lookup insert erase sort place
bound_there = refl

bound_once : fleet.session_count 10 ≡ bound 1 (run group history).by_upstream
unfolding run step rebind new_multiplexer allocate select_for_new_session choose slot_healthy
    slot_at_capacity better slot_load lookup insert erase sort place
bound_once = refl

pending_balance_example : bound_slot.pending ≡ bound 1 (run group history).by_upstream
pending_balance_example = pending_balance entries history 1 bound_slot orderly bound_there

live_session_counts_twice_example :
    (slot_load fleet bound_slot ≡ 2 * fleet.session_count 10)
    × (slot_at_capacity fleet bound_slot ≡ leb (fleet.max_sessions 10) (2 * fleet.session_count 10))
live_session_counts_twice_example =
    live_session_counts_twice entries history 1 10 bound_slot fleet orderly bound_there refl
      bound_once (omega arith)
