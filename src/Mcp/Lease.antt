-- ===== src/Mcp/Lease.antt =====
-- internal/mcp/lease.go: the state of the lease manager and the operations on single leases.
-- Times are nanoseconds and 0 is the zero `time.Time`; every operation holds the manager's mutex,
-- so it is one function, and reads the clock once (`now`).
pub mod Sweep
pub mod Machine
pub mod History
pub mod Invariant
pub mod Preserved
pub mod Capacity
pub mod Ledger
pub mod Requests
pub mod Expiry
pub mod Snapshots
pub mod Expiring
pub mod Claims
pub mod Sizes
pub mod Lighter
pub mod Undone
pub mod Lookups
mod Examples
use vision_mcp_manager.Base.{
  ℕ, suc, ◌+◌, ◌-◌, ◌*◌, ◌%◌, String, Bool, true, false, not, ◌&&◌, ◌||◌, Option, none, some, List,
  [], ◌∷◌, ◌++◌, Result, ok, err, ltb, leb, nat_beq, if◌then◌else◌, length, Dict, lookup, insert,
  erase, ◌==◌, string_eq, nat_eq, ℤ, sub_ℕ,
}

pub data LeaseError : Type 0 where
  lease_capacity lease_not_active reservation_not_found lease_exists empty_session_id : LeaseError

pub data LeaseState : Type 0 where
  active expiring cleanup_uncertain closed : LeaseState

abbrev pub is_active : LeaseState → Bool
is_active active = true
is_active _ = false

abbrev pub is_expiring : LeaseState → Bool
is_expiring expiring = true
is_expiring _ = false

abbrev pub is_cleanup_uncertain : LeaseState → Bool
is_cleanup_uncertain cleanup_uncertain = true
is_cleanup_uncertain _ = false

abbrev pub max_closed_lease_history : ℕ
max_closed_lease_history = 1000

-- 30 s
abbrev pub never_active_handshake_floor : ℕ
never_active_handshake_floor = 30000000000

-- `address` is the pointer's identity, which a completion guard compares.
pub record Lease : Type 0 where
  pub address : ℕ
  pub session_id : String
  pub safe_id : String
  pub state : LeaseState
  pub created_at : ℕ
  pub last_activity : ℕ
  pub in_flight : ℕ
  pub sse_count : ℕ
  pub ever_active : Bool
  pub disconnect_deadline : ℕ
  pub cleanup_deadline : ℕ
  pub reason : String

pub record LeaseRow : Type 0 where
  pub safe_id : String
  pub state : LeaseState
  pub age : ℤ
  pub idle : ℤ
  pub in_flight : ℕ
  pub sse_connections : ℕ
  pub lifecycle_reason : String

-- A limit or a duration that is not positive switches its rule off, and is 0 here.
pub record LeaseManager : Type 0 where
  pub max_sessions : ℕ
  pub idle_timeout : ℕ
  pub disconnect_grace : ℕ
  pub never_active_bound : ℕ
  pub cleanup_uncertain_bound : ℕ
  pub next_token : ℕ  -- uint64
  pub next_address : ℕ
  pub reservations : Dict ℕ (Unit {0})
  pub leases : Dict String Lease
  pub closed_rows : List LeaseRow
  pub closed_omitted : ℕ

-- `5 * disconnectGrace` in int64; a product that wraps to a negative one switches the rule off.
pub grace_bound : ℕ → ℕ
grace_bound grace =
    let product = 5 * grace % 18446744073709551616 in
    if ltb product 9223372036854775808 then product else 0

pub never_active_bound_of : ℕ → ℕ → ℕ
unfolding grace_bound
never_active_bound_of idle grace =
    let derived =
      if ltb 0 grace
      then if leb idle 0 || ltb (grace_bound grace) idle then grace_bound grace else idle
      else idle in
    if ltb 0 derived && ltb derived never_active_handshake_floor
    then never_active_handshake_floor
    else derived

pub new_lease_manager_with_disconnect_grace : ℕ → ℕ → ℕ → LeaseManager
unfolding never_active_bound_of
new_lease_manager_with_disconnect_grace max_sessions idle grace =
    let bound = never_active_bound_of idle grace in
    record {
      max_sessions = max_sessions;
      idle_timeout = idle;
      disconnect_grace = grace;
      never_active_bound = bound;
      cleanup_uncertain_bound = if leb bound 0 then never_active_handshake_floor else bound;
      next_token = 0;
      next_address = 0;
      reservations = [];
      leases = [];
      closed_rows = [];
      closed_omitted = 0;
    }

pub new_lease_manager : ℕ → ℕ → LeaseManager
unfolding new_lease_manager_with_disconnect_grace
new_lease_manager max_sessions idle = new_lease_manager_with_disconnect_grace max_sessions idle 0

pub capacity_used : LeaseManager → ℕ
capacity_used m = length m.reservations + length m.leases

abbrev pub is_full : LeaseManager → Bool
is_full m = ltb 0 m.max_sessions && leb m.max_sessions (length m.reservations + length m.leases)

-- `nextToken.Add(1)`
abbrev pub token_after : LeaseManager → ℕ
token_after m = (m.next_token + 1) % 18446744073709551616

unfoldable pub reserve : LeaseManager → LeaseManager × Result LeaseError ℕ
reserve m = if is_full m then (m, err lease_capacity) else (
  record m { next_token = token_after m; reservations = insert (token_after m) tt m.reservations },
  ok (token_after m),
)

-- `digest` is the first six bytes of the SHA-256 sum, in hexadecimal.
pub new_lease : (digest : String → String) → ℕ → String → ℕ → Lease
new_lease digest address sid now = record {
  address = address;
  session_id = sid;
  safe_id = digest sid;
  state = active;
  created_at = now;
  last_activity = now;
  in_flight = 0;
  sse_count = 0;
  ever_active = false;
  disconnect_deadline = 0;
  cleanup_deadline = 0;
  reason = "initialized";
}

pub admit : (digest : String → String) → ℕ → String → ℕ → LeaseManager → LeaseManager
unfolding new_lease
admit digest token sid now m = record m {
  next_address = suc m.next_address;
  reservations = erase token m.reservations;
  leases = insert sid (new_lease digest m.next_address sid now) m.leases;
}

pub commit :
    (digest : String → String) → ℕ → String → ℕ → LeaseManager → LeaseManager × Option LeaseError
unfolding admit
commit digest token sid now m =
    if sid == "" then (m, some empty_session_id) else elim (lookup token m.reservations) [
      | none ↦ (m, some reservation_not_found)
      | some _ ↦ elim (lookup sid m.leases) [
        | some _ ↦ (m, some lease_exists)
        | none ↦ (admit digest token sid now m, none)
      ]
    ]

unfoldable pub release_reservation : ℕ → LeaseManager → LeaseManager
release_reservation token m = record m { reservations = erase token m.reservations }

-- A write through the pointer that the map holds under `sid`.
abbrev pub store : String → Lease → LeaseManager → LeaseManager
store sid l m = record m { leases = insert sid l m.leases }

-- What the closure returned by `BeginRequest` holds on to; `done` is its `sync.Once`.
pub record Guard : Type 0 where
  pub session_id : String
  pub address : ℕ
  pub application_activity : Bool
  pub done : Bool

-- Application traffic moves the activity time, and a running grace period with it.
pub touch : ℕ → ℕ → Lease → Lease
touch grace now l = record l {
  last_activity = now;
  disconnect_deadline = if nat_beq l.disconnect_deadline 0 then 0 else now + grace;
}

pub begun : ℕ → Bool → ℕ → Lease → Lease
unfolding touch
begun grace application now l =
    let l' = record l { in_flight = suc l.in_flight } in
    if application then touch grace now (record l' { ever_active = true }) else l'

pub begin_request : String → Bool → ℕ → LeaseManager → LeaseManager × Result LeaseError Guard
unfolding begun
begin_request sid application now m = elim (lookup sid m.leases) [
  | none ↦ (m, err lease_not_active)
  | some l ↦ if not (is_active l.state) then (m, err lease_not_active) else (
    store sid (begun m.disconnect_grace application now l) m,
    ok (record {
      session_id = sid;
      address = l.address;
      application_activity = application;
      done = false;
    }),
  )
]

pub finished : ℕ → Bool → ℕ → Lease → Lease
unfolding touch
finished grace application now l =
    let l' = record l { in_flight = l.in_flight - 1 } in
    if application then touch grace now l' else l'

-- The body of the guard's `once.Do`.
pub settle : Guard → ℕ → LeaseManager → LeaseManager
unfolding finished
settle g now m = elim (lookup g.session_id m.leases) [
  | none ↦ m
  | some l ↦
      if not (nat_beq l.address g.address) || nat_beq l.in_flight 0
      then m
      else store g.session_id (finished m.disconnect_grace g.application_activity now l) m
]

pub complete : Guard → ℕ → LeaseManager → LeaseManager × Guard
unfolding settle
complete g now m = if g.done then (m, g) else (settle g now m, record g { done = true })

abbrev pub sse_begun : Lease → Lease
sse_begun l = record l { sse_count = suc l.sse_count; disconnect_deadline = 0 }

pub begin_sse : String → LeaseManager → LeaseManager × Option LeaseError
begin_sse sid m = elim (lookup sid m.leases) [
  | none ↦ (m, some lease_not_active)
  | some l ↦
      if not (is_active l.state)
      then (m, some lease_not_active)
      else (store sid (sse_begun l) m, none)
]

pub sse_ended : ℕ → ℕ → Lease → Lease
sse_ended grace now l = record l {
  sse_count = l.sse_count - 1;
  disconnect_deadline =
      if nat_beq (l.sse_count - 1) 0 && ltb 0 grace then now + grace else l.disconnect_deadline;
}

pub end_sse : String → ℕ → LeaseManager → LeaseManager
unfolding sse_ended
end_sse sid now m = elim (lookup sid m.leases) [
  | none ↦ m
  | some l ↦ if ltb 0 l.sse_count then store sid (sse_ended m.disconnect_grace now l) m else m
]

pub in_flight : String → LeaseManager → ℕ
in_flight sid m = elim (lookup sid m.leases) [ none ↦ 0 | some l ↦ l.in_flight ]

abbrev pub expire_as : String → Lease → Lease
expire_as reason l = record l { state = expiring; reason = reason }

pub try_begin_expiry : String → String → LeaseManager → LeaseManager × Bool
try_begin_expiry sid reason m = elim (lookup sid m.leases) [
  | none ↦ (m, false)
  | some l ↦
      if not (is_active l.state) || not (nat_beq l.in_flight 0)
      then (m, false)
      else (store sid (expire_as reason l) m, true)
]

abbrev pub quarantined : String → ℕ → Lease → Lease
quarantined reason deadline l = record l {
  state = cleanup_uncertain;
  reason = reason;
  cleanup_deadline = deadline;
}

pub mark_cleanup_uncertain : String → String → ℕ → LeaseManager → LeaseManager × Bool
mark_cleanup_uncertain sid reason now m = elim (lookup sid m.leases) [
  | none ↦ (m, false)
  | some l ↦ (store sid (quarantined reason (now + m.cleanup_uncertain_bound) l) m, true)
]

abbrev pub restored : Lease → Lease
restored l = record l { state = active; reason = "" }

pub restore_active : String → LeaseManager → LeaseManager × Bool
restore_active sid m = elim (lookup sid m.leases) [
  | none ↦ (m, false)
  | some l ↦ if not (is_expiring l.state) then (m, false) else (store sid (restored l) m, true)
]
