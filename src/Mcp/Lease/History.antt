-- ===== src/Mcp/Lease/History.antt =====
-- internal/mcp/lease.go: closing leases, the bounded list of closed ones, and snapshots.
use vision_mcp_manager.Base.{
  ℕ, suc, ◌+◌, ◌-◌, String, Bool, true, false, Option, none, some, List, [], ◌∷◌, ◌++◌, map, ltb,
  nat_beq, if◌then◌else◌, length, take, Dict, lookup, erase, ◌==◌, string_eq, sub_ℕ, sort, str_leb,
}
use vision_mcp_manager.Mcp.Lease.{Lease, LeaseRow, LeaseManager, closed, max_closed_lease_history}

abbrev pub drop_oldest : List LeaseRow → List LeaseRow
drop_oldest [] = []
drop_oldest (r ∷ rs) = rs

unfoldable pub closed_row : Lease → String → ℕ → LeaseRow
closed_row l reason now = record {
  safe_id = l.safe_id;
  state = closed;
  age = sub_ℕ now l.created_at;
  idle = sub_ℕ now l.last_activity;
  in_flight = l.in_flight;
  sse_connections = l.sse_count;
  lifecycle_reason = if reason == "" then "closed" else reason;
}

-- At the limit the rows shift by one and the oldest is only counted.
unfoldable pub record_closed : Lease → String → ℕ → LeaseManager → LeaseManager
unfolding closed_row
record_closed l reason now m =
    if nat_beq (length m.closed_rows) max_closed_lease_history
    then record m {
      closed_rows = drop_oldest m.closed_rows ++ (closed_row l reason now ∷ []);
      closed_omitted = suc m.closed_omitted;
    }
    else record m { closed_rows = m.closed_rows ++ (closed_row l reason now ∷ []) }

-- `recordClosedLocked` of a lease that may be missing.
unfoldable pub record_closed? : Option Lease → String → ℕ → LeaseManager → LeaseManager
unfolding record_closed
record_closed? none reason now m = m
record_closed? (some l) reason now m = record_closed l reason now m

unfoldable pub close_lease : String → Lease → String → ℕ → LeaseManager → LeaseManager
close_lease sid l reason now m =
    let m' = record_closed l reason now m in record m' { leases = erase sid m'.leases }

unfoldable pub finalize_close : String → ℕ → LeaseManager → LeaseManager × Bool
unfolding close_lease
finalize_close sid now m = elim (lookup sid m.leases) [
  | none ↦ (m, false)
  | some l ↦ (close_lease sid l l.reason now m, true)
]

-- The variadic reason of `InvalidateAll`.
abbrev pub close_reason : List String → String
close_reason [] = "backend_lost"
close_reason (r ∷ rs) = if r == "" then "backend_lost" else r

-- The loop over the sorted identifiers.
unfoldable pub record_all : List String → String → ℕ → LeaseManager → LeaseManager
unfolding record_closed?
record_all [] reason now m = m
record_all (id ∷ ids) reason now m =
    record_all ids reason now (record_closed? (lookup id m.leases) reason now m)

abbrev pub keys {ℓ κ} : {K : Type ℓ} {V : Type κ} → Dict K V → List K
keys [] = []
keys ((k, v) ∷ d) = k ∷ keys d

unfoldable pub invalidate_all : List String → ℕ → LeaseManager → LeaseManager × ℕ
unfolding record_all
invalidate_all reasons now m =
    let m' = record_all (sort str_leb (keys m.leases)) (close_reason reasons) now m in
    (record m' { reservations = []; leases = [] }, length m.leases)

abbrev pub sum_in_flight : Dict String Lease → ℕ
sum_in_flight [] = 0
sum_in_flight ((sid, l) ∷ d) = l.in_flight + sum_in_flight d

unfoldable pub aggregate_in_flight : LeaseManager → ℕ
aggregate_in_flight m = sum_in_flight m.leases

pub record LeaseSnapshot : Type 0 where
  pub capacity_used : ℕ
  pub capacity_max : ℕ
  pub rows : List LeaseRow
  pub omitted : ℕ
  pub closed : List LeaseRow
  pub closed_omitted : ℕ

abbrev pub live_row : ℕ → String × Lease → LeaseRow
live_row now (sid, l) = record {
  safe_id = l.safe_id;
  state = l.state;
  age = sub_ℕ now l.created_at;
  idle = sub_ℕ now l.last_activity;
  in_flight = l.in_flight;
  sse_connections = l.sse_count;
  lifecycle_reason = l.reason;
}

-- A `limit` of 0 shows every row.
unfoldable pub snapshot : ℕ → ℕ → LeaseManager → LeaseSnapshot
snapshot limit now m =
    let rows = sort (λ a b. str_leb a.safe_id b.safe_id) (map (live_row now) m.leases) in
    let cut = if ltb 0 limit then ltb limit (length rows) else false in
    record {
      capacity_used = length m.reservations + length m.leases;
      capacity_max = m.max_sessions;
      rows = if cut then take limit rows else rows;
      omitted = if cut then length rows - limit else 0;
      closed = m.closed_rows;
      closed_omitted = m.closed_omitted;
    }
