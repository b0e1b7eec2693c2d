-- ===== src/Lib.antt =====
-- Vision, the control plane for MCP servers: its session, lease, ownership and supervision logic.
--
-- Vision runs MCP servers for many clients. A gateway serves the sessions of a managed HTTP server;
-- each holds a lease, which bounds how many there are and ends idle ones, and when there is no room
-- the gateway cleans up those that are due. Servers on standard input and output have a manager
-- that runs one subprocess for each session, or one that shares a subprocess among all sessions and
-- ends it when nobody needs it. A slot group routes sessions to one of several servers; a tracker
-- ends sessions whose streams have closed; a tool call passes a circuit breaker, and equal calls of
-- shared tools are joined. Below, a supervisor restarts servers at a limited rate, a coordinator
-- drains a backend before it is recycled, a store keeps what probes have found, and a reconciler
-- reclaims process groups that an earlier daemon left.
--
-- The files, and the Go files that they model:
--   Mcp/Lease, internal/mcp/lease.go: `LeaseManager` is the record, each method a function of the
--     same name. Lease/Sweep has the two sweeps, Lease/History the closing of leases and the
--     snapshot, Lease/Machine histories of calls; the other children hold proofs.
--   Mcp/Gateway, internal/mcp/managed_gateway.go: `ManagedHTTPGateway` around the lease manager.
--     Gateway/Serve has `ServeHTTP`, with the backend's answers as arguments; Gateway/Accounts is a
--     step relation of its critical sections.
--   Mcp/Envelope, internal/mcp/managed_gateway.go and lease.go: the classifiers of JSON-RPC bodies.
--   Mcp/Circuit, internal/mcp/resilience.go: `circuitBreaker`, `computeBackoffDelay` and
--     `withRequestTimeoutBudget`.
--   Mcp/Errors, internal/mcp/resilience.go: the errors of a tool call and their classification.
--   Mcp/Calls, internal/mcp/proxy.go: `callDownstreamTool`, with the breaker and the errors.
--   Mcp/SharedTools, internal/mcp/proxy.go: `sharedToolCoordinator`.
--   Mcp/Hardening, internal/mcp/hardening.go: the token bucket and the limits' defaults.
--   Mcp/Disconnect, internal/mcp/disconnect.go: `DisconnectTracker`, with its timers as data.
--   Session/Manager, internal/session/manager.go: `Manager`, one subprocess for each session.
--   Session/Shared, internal/session/shared.go: `SharedSessionManager`. Shared/Startup has the
--     startup, the idle timer and the health check, Shared/Steps the step relation of callers.
--   Slots, internal/slots/multiplexer.go: `Multiplexer`; entries are held by address, since bindings
--     keep pointing at entries that a replacement has dropped.
--   Ownership/Verify, internal/ownership/proc.go and types.go: `ParseEnviron` and `VerifyGroup`.
--   Ownership/Stat, internal/ownership/proc.go and proc_linux.go: `ParseProcStat` and `ReadStat`.
--   Ownership/Reconcile, internal/ownership/reconcile.go: `Reconciler` with the default waiter; the
--     log records verifications, signals and removals.
--   Supervisor/Restart, internal/supervisor/restart_policy.go: the restart tracker.
--   Supervisor/Coordinator, internal/supervisor/backend.go: `BackendCoordinator`, and a step relation
--     for its callers.
--   Reachability, internal/reachability/reachability.go: `Store`.
--   Base has what these share: Boolean tests, association lists for maps, sorting, results.
-- Each component's Examples module applies its theorems to concrete data.
--
-- Conventions. Times and durations are natural numbers of nanoseconds, 0 is the zero time, and a
-- limit or duration that is not positive is 0. What holds its component's mutex is one function, and
-- a history of such functions stands for any interleaving of callers; each reads the clock once.
-- What the code does after it has released the mutex, such as closing the process that a shared
-- manager gave up, counting closed quarantines or running a timer's callback, is a step of its own
-- where a step relation has to tell the orders apart. A Go map is an association list, and results that the code sorts are sorted. A nil
-- pointer or an absent value is `none`. Wrap-around is written out where it can occur: lease tokens
-- (uint64), five times the grace period and the doubling of the retry delay (int64).
--
-- Loops are structural. The loop that trims the cache of shared results recurses on as many rounds
-- as there are entries, since each round drops one. The backoff loops recurse on the rounds that
-- are left, of which the code has as many; the waiter of the reconciler recurses on the most ticks
-- that can come before the deadline, and answers as the deadline does when they are used up.
--
-- Parameters: the hashes (the digest of a session identifier, of a token and of a configuration), the
-- process table, the context, the signaler and the lease store as a reconciliation meets them, the
-- counts and health checks of session managers, the end of a restart's wait, whether the proxy
-- knows a session, what a backend answers to a request, the outcome of starting and closing a
-- subprocess, and the text of a duration.
--
-- Not modelled: encoding/json, so that a body is given decoded; the gateway's probe and the
-- validation of its target, HTTP middleware, the proxies' relays, catalogues and health probe, the
-- lease store, the registry, configuration, daemon, command line and metrics: input and output,
-- glue, or left to later work.
mod Base
pub mod Mcp
pub mod Supervisor
pub mod Ownership
pub mod Reachability
pub mod Slots
pub mod Session
