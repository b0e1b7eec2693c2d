-- ===== src/Supervisor/Coordinator/Examples.antt =====
-- internal/supervisor/backend.go: the theorems at systems that a few steps reach.
use vision_mcp_manager.Base.{
  ◌≡◌, ◌≢◌, refl, inr, true, false, none, some, ok, nat_beq, if◌then◌else◌,
}
use vision_mcp_manager.Supervisor.Coordinator.{
  Coordinator, draining, backend_unavailable, new_coordinator, mark_ready, begin_request, release,
  close_zero, drain_start, drained, waiting, recycles, System, fresh_system, begins, releases,
  marks_ready, starts_drain, drains, Reach, here, next,
}
use vision_mcp_manager.Supervisor.Coordinator.Drain.{release_safe, recycle_alone}

abbrev ready_system : System
ready_system = record fresh_system { coordinator = mark_ready new_coordinator }

is_ready_reached : Reach true fresh_system ready_system
is_ready_reached = next here (marks_ready (inr refl))

abbrev busy_coordinator : Coordinator
busy_coordinator = (begin_request (mark_ready new_coordinator)).0

-- One request is in flight.
abbrev busy_system : System
busy_system = record ready_system { coordinator = busy_coordinator; guards = 1 }

begins_one : begin_request ready_system.coordinator ≡ (busy_coordinator, none)
unfolding begin_request mark_ready new_coordinator
begins_one = refl

busy_reached : Reach true fresh_system busy_system
busy_reached = next is_ready_reached (begins begins_one)

release_safe_example : release busy_coordinator ≢ none
release_safe_example = release_safe true busy_system 0 busy_reached refl

-- A drain has begun while the request runs; it waits for the channel 1.
abbrev draining_system : System
draining_system = record busy_system {
  coordinator = record busy_coordinator { state = draining };
  drainer = waiting 1;
}

starts_one :
    drain_start false busy_coordinator ≡ ok (record busy_coordinator { state = draining }, 1)
unfolding drain_start begin_request mark_ready new_coordinator
starts_one = refl

draining_reached : Reach true fresh_system draining_system
draining_reached = next busy_reached (starts_drain false refl starts_one)

-- The request is over.
abbrev idle_coordinator : Coordinator
idle_coordinator = record (draining_system.coordinator) {
  in_flight = 0;
  is_closed = λ k. if nat_beq k 1 then true else nat_beq k 0;
}

abbrev quiet_system : System
quiet_system = record draining_system { coordinator = idle_coordinator; guards = 0 }

releases_one : release draining_system.coordinator ≡ some idle_coordinator
unfolding release close_zero begin_request mark_ready new_coordinator
releases_one = refl

quiet_reached : Reach true fresh_system quiet_system
quiet_reached = next draining_reached (releases refl releases_one)

abbrev recycling_system : System
recycling_system = record quiet_system {
  coordinator = drained idle_coordinator;
  drainer = recycles;
}

recycling_reached : Reach true fresh_system recycling_system
recycling_reached = next quiet_reached (drains refl refl)

recycle_alone_example :
    (recycling_system.coordinator.in_flight ≡ 0)
    × (recycling_system.guards ≡ 0)
    × (begin_request recycling_system.coordinator
        ≡ (recycling_system.coordinator, some backend_unavailable))
recycle_alone_example = recycle_alone recycling_system recycling_reached refl
