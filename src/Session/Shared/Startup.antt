-- ===== src/Session/Shared/Startup.antt =====
-- internal/session/shared.go: the shared subprocess: the startup with its goroutine, the idle reap,
-- the health check and the end.
use vision_mcp_manager.Base.{
  ℕ, suc, Bool, true, false, not, ◌&&◌, ◌||◌, Option, none, some, List, [], ◌∷◌, ltb, nat_beq,
  if◌then◌else◌, any, select,
}
use vision_mcp_manager.Session.Shared.{
  SpawnReason, first_use, lookup_respawn, idle_reap_respawn, health_respawn, Stage, draining,
  cleared, closed_old, failed, spawned, refused, published, SharedStartup, Shared, arm_idle_timer,
}

abbrev pub is_in : ℕ → List ℕ → Bool
is_in n ns = any (nat_beq n) ns

abbrev pub without : ℕ → List ℕ → List ℕ
without n ns = select (λ k. not (nat_beq n k)) ns

-- `channelClosed(sm.downstreamDone)`
abbrev pub downstream_exited : Shared → Bool
downstream_exited s = elim s.downstream [ none ↦ false | some p ↦ is_in p s.exited ]

abbrev pub is_some {ℓ} : {A : Type ℓ} → Option A → Bool
is_some none = false
is_some (some a) = true

-- `startDownstreamLocked`
unfoldable pub start_downstream : SpawnReason → (drain : Option ℕ) → Shared → Shared
start_downstream reason drain s = record s {
  starting = some (record { drain = drain; old = s.downstream; stage = draining });
  last_spawn_reason = some reason;
  health_check_failures = 0;
}

abbrev pub lookup_reason : Shared → SpawnReason
lookup_reason s =
    if is_some s.downstream
    then lookup_respawn
    else elim s.last_spawn_reason [ none ↦ first_use | some reason ↦ reason ]

-- What a caller is told to do: there is a subprocess, or a startup to wait for.
pub data Lookup : Type 0 where
  is_closed waits : Lookup
  found : ℕ → Lookup

-- `getOrCreateDownstream` before it waits.
unfoldable pub get_or_create_downstream : Shared → Shared × Lookup
unfolding start_downstream
get_or_create_downstream s = if s.closed then (s, is_closed) else elim s.starting [
  | some startup ↦ (s, waits)
  | none ↦ elim s.downstream [
    | none ↦ (start_downstream (lookup_reason s) none s, waits)
    | some p ↦
        if is_in p s.exited
        then (start_downstream (lookup_reason s) none s, waits)
        else (s, found p)
  ]
]

-- What the loop of `BeginRequest` does next.
pub data Gate : Type 0 where
  gate_closed cancelled waits_for_startup restarts passes : Gate

unfoldable pub request_gate : (cancelled : Bool) → Shared → Gate
request_gate ended s =
    if s.closed
    then gate_closed
    else if ended
    then cancelled
    else if is_some s.starting
    then waits_for_startup
    else if s.spawn_err || downstream_exited s
    then restarts
    else passes

-- The goroutine of a startup, section by section; `go` is its state with the next stage.
abbrev pub at_stage : Stage → SharedStartup → Shared → Shared
at_stage stage startup s = record s { starting = some (record startup { stage = stage }) }

-- Whether the wait for the drain may end: the channel is closed, the old process has exited, or the
-- manager's lifetime is over.
unfoldable pub may_proceed : SharedStartup → Shared → Bool
may_proceed startup s = elim startup.drain [
  | none ↦ true
  | some ch ↦
      is_in ch s.drained
      || s.closed
      || elim startup.old [ none ↦ false | some p ↦ is_in p s.exited ]
]

unfoldable pub startup_clear : SharedStartup → Shared → Shared
startup_clear startup s = at_stage cleared startup (record s { downstream = none })

-- The old process is closed.
unfoldable pub startup_close : SharedStartup → Shared → Shared
startup_close startup s =
    at_stage closed_old startup
      (record s { live = elim startup.old [ none ↦ s.live | some p ↦ without p s.live ] })

-- The spawn has failed, or has started the process `p`.
unfoldable pub startup_spawn : SharedStartup → Option ℕ → Shared → Shared
startup_spawn startup none s = at_stage failed startup s
startup_spawn startup (some p) s = at_stage (spawned p) startup (record s { live = p ∷ s.live })

-- The publication of its outcome: of a process, or of a failure. The process that comes after the
-- end is refused, and closed outside the mutex.
unfoldable pub startup_publish : SharedStartup → Option ℕ → Shared → Shared
startup_publish startup none s =
    at_stage published startup (if s.closed then s else record s { spawn_err = true })
startup_publish startup (some p) s =
    if s.closed
    then at_stage (refused p) startup s
    else at_stage published startup (record s { downstream = some p; spawn_err = false })

unfoldable pub startup_refuse : SharedStartup → ℕ → Shared → Shared
startup_refuse startup p s = at_stage published startup (record s { live = without p s.live })

unfoldable pub startup_finish : Shared → Shared
unfolding arm_idle_timer
startup_finish s = arm_idle_timer (record s { starting = none })

-- The idle timer's callback.
unfoldable pub reap_downstream : Shared → Shared
unfolding arm_idle_timer
reap_downstream s =
    if not (nat_beq s.ref_count 0) || s.closed
    then s
    else if is_some s.starting || not (nat_beq s.active_requests 0)
    then arm_idle_timer s
    else let quiet = record s { idle_timer = false; spawn_err = false } in
      elim s.downstream [
        | none ↦ quiet
        | some p ↦ record quiet {
          downstream = none;
          last_spawn_reason = some idle_reap_respawn;
          live = without p s.live;
        }
      ]

-- `CloseAll` under the mutexes, which gives the process up.
unfoldable pub close_all : Shared → Shared
close_all s = if s.closed then s else record s {
  closed = true;
  idle_timer = false;
  upstream_sessions = [];
  sessions = [];
  ref_count = 0;
  downstream = none;
  spawn_err = false;
  ending = s.downstream;
}

-- Its call of `Close` after them.
unfoldable pub close_ended : Shared → Shared
close_ended s = elim s.ending [
  | none ↦ s
  | some p ↦ record s { live = without p s.live; ending = none }
]

abbrev pub max_consecutive_health_check_timeouts : ℕ
max_consecutive_health_check_timeouts = 3

-- Whether a probe is sent, and of which process.
pub health_check_target : Shared → Option ℕ
health_check_target s = if s.closed || is_some s.starting then none else s.downstream

abbrev pub is_downstream : ℕ → Shared → Bool
is_downstream p s = elim s.downstream [ none ↦ false | some q ↦ nat_beq q p ]

-- The channel of the drain: none is needed, or the one that is there, or a new one.
abbrev pub reserve_drain : (transport_closed : Bool) → Shared → Shared × Option ℕ
reserve_drain transport_closed s =
    if transport_closed || nat_beq s.active_requests 0 then (s, none) else elim s.requests_drained [
      | some ch ↦ (s, some ch)
      | none ↦ (
        record s { requests_drained = some s.next_channel; next_channel = suc s.next_channel },
        some s.next_channel,
      )
    ]

-- `healthCheck` after the probe of the process `p`, which succeeded, or failed with an error that
-- says that the connection is closed, or another one.
unfoldable pub health_check_result : (p : ℕ) → (succeeded says_closed : Bool) → Shared → Shared
unfolding start_downstream
health_check_result p succeeded says_closed s =
    if s.closed || not (is_downstream p s) || is_some s.starting
    then s
    else if succeeded
    then record s { health_check_failures = 0 }
    else let s' = record s { health_check_failures = suc s.health_check_failures } in
      let transport_closed = downstream_exited s || says_closed in
      if not transport_closed && ltb s'.health_check_failures max_consecutive_health_check_timeouts
      then s'
      else let (reserved, drain) = reserve_drain transport_closed s' in
        start_downstream health_respawn drain reserved
