-- ===== src/Mcp/Gateway/Room.antt =====
-- internal/mcp/managed_gateway.go: pruning makes room for a new session.
use vision_mcp_manager.Base.{
  ℕ, ◌<◌, String, ◌≡◌, refl, ap, ◌∙◌, inl, inr, true, none, some, Result, ok, err, arith, length,
  lookup, string_eq, nat_eq, Bool-cases, Within-shorter,
}
use vision_mcp_manager.Mcp.Lease.{
  Lease, LeaseManager, LeaseError, lease_capacity, reserve, token_after,
}
use vision_mcp_manager.Mcp.Lease.Sweep.{is_due, is_quarantine_over}
use vision_mcp_manager.Mcp.Lease.Invariant.{Inv}
use vision_mcp_manager.Mcp.Lease.Undone.{reserve_room, reserve-cases, room_left}
use vision_mcp_manager.Mcp.Lease.Lookups.{changed}
use vision_mcp_manager.Mcp.Gateway.{
  Gateway, Cleanup, answered, is_disposed, prune_idle, unless_reserved, reserve_again,
  reserve_with_prune,
}
use vision_mcp_manager.Mcp.Gateway.Refusals.{prune_idle-Lighter}
use vision_mcp_manager.Mcp.Gateway.Pruning.{prune_idle-lookup}

-- A lease that is due and that the backend disposed of goes.
disposed_goes :
    (answer : String → Cleanup) (clock : String → ℕ) (now status : ℕ) (sid : String) (g : Gateway)
    (l : Lease)
    → Inv g.leases
    → lookup sid g.leases.leases ≡ some l
    → is_due g.leases now l ≡ true
    → answer sid ≡ answered status
    → is_disposed status ≡ true
    → lookup sid (prune_idle answer clock now g).leases.leases ≡ none
disposed_goes answer clock now status sid g l v there due_now a disposed =
    prune_idle-lookup answer clock now sid g v
    ∙ ap (changed _) there
    ∙ elim (Bool-cases (is_quarantine_over now l)) [
      | inl over ↦ rw over refl
      | inr held ↦ rw (held, due_now, a, disposed) refl
    ]

prune_idle-shorter :
    (answer : String → Cleanup) (clock : String → ℕ) (now : ℕ) (sid : String) (g : Gateway)
    (l : Lease)
    → Inv g.leases
    → lookup sid g.leases.leases ≡ some l
    → lookup sid (prune_idle answer clock now g).leases.leases ≡ none
    → length (prune_idle answer clock now g).leases.leases < length g.leases.leases
prune_idle-shorter answer clock now sid g l v there gone =
    let lighter = prune_idle-Lighter answer clock now g v in
    Within-shorter _ g.leases.leases sid l lighter.inv.distinct_ids v.distinct_ids
      (λ k missing. prune_idle-lookup answer clock now k g v ∙ ap (changed _) missing) there gone

unless_reserved-granted :
    (r : LeaseManager × Result LeaseError ℕ) (g : Gateway) (retry : Gateway × Result LeaseError ℕ)
    (token : ℕ)
    → r.1 ≡ ok token
    → (unless_reserved r g retry).1 ≡ ok token
unless_reserved-granted r g retry token e = ground (arith, e)

unless_reserved-refused :
    (r : LeaseManager × Result LeaseError ℕ) (g : Gateway) (retry : Gateway × Result LeaseError ℕ)
    → r.1 ≡ err lease_capacity
    → unless_reserved r g retry ≡ retry
unless_reserved-refused r g retry e = ground (arith, e)

-- Pruning makes room: where the manager's invariant holds and the limit is positive, if some
-- session is due for expiry and the backend answers its DELETE with a success or with 404, then a
-- new session is admitted, however full the gateway is and whatever becomes of other cleanups.
pub room_made :
    (answer : String → Cleanup) (clock : String → ℕ) (now status : ℕ) (sid : String) (g : Gateway)
    (l : Lease)
    → 0 < g.leases.max_sessions
    → Inv g.leases
    → lookup sid g.leases.leases ≡ some l
    → is_due g.leases now l ≡ true
    → answer sid ≡ answered status
    → is_disposed status ≡ true
    → (token : ℕ) × ((reserve_with_prune answer clock now g).1 ≡ ok token)
unfolding reserve_with_prune reserve_again
room_made answer clock now status sid g l limited v there due_now a disposed =
    let after = prune_idle answer clock now g in
    let retry = reserve_again after in
    elim (reserve-cases g.leases) [
      | inl granted ↦
          (token_after g.leases, unless_reserved-granted (reserve g.leases) g retry _ granted)
      | inr full ↦
          let gone = disposed_goes answer clock now status sid g l v there due_now a disposed in
          let lighter = prune_idle-Lighter answer clock now g v in
          let less = prune_idle-shorter answer clock now sid g l v there gone in
          (
            token_after after.leases,
            ap (λ x. x.1) (unless_reserved-refused (reserve g.leases) g retry full)
                ∙ reserve_room after.leases
                    (room_left g.leases after.leases limited v lighter less),
          )
    ]
