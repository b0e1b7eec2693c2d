-- ===== src/Supervisor/Coordinator.antt =====
-- internal/supervisor/backend.go: the coordinator of a managed backend. Its mutex makes each
-- critical section one step; a recycle is several of them, between which other callers run.
pub mod Drain
mod Examples
use vision_mcp_manager.Base.{
  ℕ, zero, suc, ◌+◌, ◌-◌, Bool, true, false, not, Option, none, some, Result, ok, err, nat_beq,
  if◌then◌else◌, ◌≡◌, ◌⊎◌,
}

pub data BackendState : Type 0 where
  starting probing ready draining recycling restarting : BackendState

abbrev pub is_ready : BackendState → Bool
is_ready ready = true
is_ready _ = false

pub data BackendError : Type 0 where
  backend_unavailable drain_context_has_deadline : BackendError

-- Channels are numbered in the order in which `make` creates them; `is_closed` says which are
-- closed, and `next_channel` which is created next.
pub record Coordinator : Type 0 where
  pub state : BackendState
  pub in_flight : ℕ
  pub zero_channel : ℕ
  pub next_channel : ℕ
  pub is_closed : ℕ → Bool

pub new_coordinator : Coordinator
new_coordinator = record {
  state = starting;
  in_flight = 0;
  zero_channel = 0;
  next_channel = 1;
  is_closed = λ k. nat_beq k 0;
}

pub mark_probing : Coordinator → Coordinator
mark_probing c = record c { state = probing }

pub mark_ready : Coordinator → Coordinator
mark_ready c = record c { state = ready }

pub mark_process_lost : Coordinator → Coordinator
mark_process_lost c = record c { state = restarting }

pub begin_request : Coordinator → Coordinator × Option BackendError
begin_request c =
    if not (is_ready c.state)
    then (c, some backend_unavailable)
    else if nat_beq c.in_flight 0
    then (
      record c {
        in_flight = suc c.in_flight;
        zero_channel = c.next_channel;
        next_channel = suc c.next_channel;
      },
      none,
    )
    else (record c { in_flight = suc c.in_flight }, none)

-- `close(c.zeroCh)`; `none` is the panic on a channel that is closed already.
close_zero : Coordinator → Option Coordinator
close_zero c =
    if c.is_closed c.zero_channel
    then none
    else some
        (record c { is_closed = λ k. if nat_beq k c.zero_channel then true else c.is_closed k })

-- The body of a request guard's `once.Do`.
pub release : Coordinator → Option Coordinator
unfolding close_zero
release c =
    let c' = record c { in_flight = c.in_flight - 1 } in
    if nat_beq c.in_flight 0
    then some c
    else if nat_beq c'.in_flight 0
    then close_zero c'
    else some c'

-- `DrainAndRecycle` up to its wait, with the channel that it waits for.
pub drain_start : (has_deadline : Bool) → Coordinator → Result BackendError (Coordinator × ℕ)
drain_start has_deadline c =
    if has_deadline
    then err drain_context_has_deadline
    else if not (is_ready c.state)
    then err backend_unavailable
    else ok (record c { state = draining }, c.zero_channel)

-- The context ended the wait.
pub drain_cancelled : Coordinator → Coordinator
drain_cancelled c = record c { state = restarting }

-- The channel ended the wait; `recycle` runs next.
pub drained : Coordinator → Coordinator
drained c = record c { state = recycling }

-- `recycle` has returned.
pub recycled : (failing : Bool) → Coordinator → Coordinator
recycled failing c = record c { state = if failing then restarting else probing }

-- The holder of `recycleMu`, if there is one.
pub data Drainer : Type 0 where
  idle : Drainer
  waiting : ℕ → Drainer
  recycles : Drainer

-- `guards` counts the request guards that have not been used.
pub record System : Type 0 where
  pub coordinator : Coordinator
  pub drainer : Drainer
  pub guards : ℕ

abbrev pub fresh_system : System
fresh_system = record { coordinator = new_coordinator; drainer = idle; guards = 0 }

-- One step of some caller. In a `quiet` system nobody marks the backend ready during a recycle.
pub data Step (quiet : Bool) (s : System) : System → Type 0 where
  begins :
      {c : Coordinator}
      → begin_request s.coordinator ≡ (c, none)
      → Step quiet s (record s { coordinator = c; guards = suc s.guards })
  releases :
      {c : Coordinator} {n : ℕ}
      → s.guards ≡ suc n
      → release s.coordinator ≡ some c
      → Step quiet s (record s { coordinator = c; guards = n })
  marks_probing : Step quiet s (record s { coordinator = mark_probing s.coordinator })
  marks_ready :
      (quiet ≡ false) ⊎ (s.drainer ≡ idle)
      → Step quiet s (record s { coordinator = mark_ready s.coordinator })
  loses_process : Step quiet s (record s { coordinator = mark_process_lost s.coordinator })
  starts_drain :
      (has_deadline : Bool) {c : Coordinator} {w : ℕ}
      → s.drainer ≡ idle
      → drain_start has_deadline s.coordinator ≡ ok (c, w)
      → Step quiet s (record s { coordinator = c; drainer = waiting w })
  cancels_drain :
      {w : ℕ}
      → s.drainer ≡ waiting w
      → Step quiet s (record s { coordinator = drain_cancelled s.coordinator; drainer = idle })
  drains :
      {w : ℕ}
      → s.drainer ≡ waiting w
      → s.coordinator.is_closed w ≡ true
      → Step quiet s (record s { coordinator = drained s.coordinator; drainer = recycles })
  recycle_returns :
      (failing : Bool)
      → s.drainer ≡ recycles
      → Step quiet s (record s { coordinator = recycled failing s.coordinator; drainer = idle })

pub data Reach (quiet : Bool) (s : System) : System → Type 0 where
  here : Reach quiet s s
  next : {t u : System} → Reach quiet s t → Step quiet t u → Reach quiet s u
