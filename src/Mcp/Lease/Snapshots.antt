-- ===== src/Mcp/Lease/Snapshots.antt =====
-- internal/mcp/lease.go: what a snapshot shows of the manager.
use vision_mcp_manager.Base.{
  ℕ, ◌+◌, ◌≤◌, ◌<◌, ◌≡◌, arith, map, length, length-take, length-map, sort, length-sort, str_leb,
}
use vision_mcp_manager.Mcp.Lease.{LeaseManager, capacity_used}
use vision_mcp_manager.Mcp.Lease.History.{snapshot, live_row}

-- A snapshot accounts for every lease: the rows that it shows and those that it counts as omitted
-- are as many as the leases, a positive limit is kept, a limit of 0 omits none, and the capacity
-- that it reports is the manager's.
pub snapshot_accounts :
    (limit now : ℕ) (m : LeaseManager)
    → let s = snapshot limit now m in
      (length s.rows + s.omitted ≡ length m.leases)
      × (0 < limit → length s.rows ≤ limit)
      × (limit ≡ 0 → s.omitted ≡ 0)
      × (s.capacity_used ≡ capacity_used m)
unfolding snapshot capacity_used
snapshot_accounts limit now m =
    let rows = sort (λ a b. str_leb a.safe_id b.safe_id) (map (live_row now) m.leases) in
    ground (
      arith,
      length-take limit rows,
      length-sort (λ a b. str_leb a.safe_id b.safe_id) (map (live_row now) m.leases),
      length-map (live_row now) m.leases,
    )
