-- ===== src/Mcp/Lease/Invariant.antt =====
-- internal/mcp/lease.go: what holds of the lease manager between two calls.
use vision_mcp_manager.Base.{
  ℕ, suc, ◌+◌, ◌≤◌, ◌<◌, String, ◌≡◌, ◌≢◌, inl, inr, Bool, none, some, arith, length, Dict, lookup,
  insert, Distinct, Each, string_eq, nat_eq, Option-cases, Option-branches, if-branches, Bool-cases,
  ◌==◌, insert-Distinct, erase-Distinct, length-insert_old, length-insert_new, length-erase-le,
  length-erase_old, Each-lookup, insert-Each, Each-mono,
}
use vision_mcp_manager.Mcp.Lease.{
  Lease, LeaseManager, closed, store, new_lease_manager_with_disconnect_grace, is_full, token_after,
  reserve, new_lease, admit, commit, release_reservation, begun, begin_request,
}

-- A lease in the map stands under its own identifier, was allocated by this manager and is not
-- closed; a grace period runs only while no stream is open, and only where grace periods exist.
pub record LeaseOk (grace bound : ℕ) (sid : String) (l : Lease) : Type 0 where
  pub own_key : l.session_id ≡ sid
  pub allocated : l.address < bound
  pub open_state : l.state ≢ closed
  pub no_stream : l.disconnect_deadline ≢ 0 → l.sse_count ≡ 0
  pub has_grace : l.disconnect_deadline ≢ 0 → 0 < grace

pub record Inv (m : LeaseManager) : Type 0 where
  pub distinct_tokens : Distinct m.reservations
  pub distinct_ids : Distinct m.leases
  pub capacity : 0 < m.max_sessions → length m.reservations + length m.leases ≤ m.max_sessions
  pub history : length m.closed_rows ≤ 1000
  pub leases_ok : Each (LeaseOk m.disconnect_grace m.next_address) m.leases

-- The state that a call leaves is in order.
abbrev pub KeepsInv {ℓ} : {R : Type ℓ} → LeaseManager × R → Type 0
KeepsInv r = Inv r.0

pub lookup-LeaseOk :
    (m : LeaseManager) (sid : String) {l : Lease}
    → Inv m
    → lookup sid m.leases ≡ some l
    → LeaseOk m.disconnect_grace m.next_address sid l
lookup-LeaseOk m sid v e = Each-lookup _ sid m.leases v.leases_ok e

-- A write to a lease that is there keeps the invariant if the new value is in order.
pub store-Inv :
    (m : LeaseManager) (sid : String) {l : Lease} (l' : Lease)
    → Inv m
    → lookup sid m.leases ≡ some l
    → LeaseOk m.disconnect_grace m.next_address sid l'
    → Inv (store sid l' m)
store-Inv m sid {l} l' v e p = record {
  distinct_tokens = v.distinct_tokens;
  distinct_ids = insert-Distinct sid l' m.leases v.distinct_ids;
  capacity = λ h. omega (arith, v.capacity h, length-insert_old sid l' l m.leases e);
  history = v.history;
  leases_ok = insert-Each _ sid l' m.leases p v.leases_ok;
}

pub new-Inv : (max idle grace : ℕ) → Inv (new_lease_manager_with_disconnect_grace max idle grace)
unfolding new_lease_manager_with_disconnect_grace
new-Inv max idle grace = record {
  distinct_tokens = tt;
  distinct_ids = tt;
  capacity = λ h. omega arith;
  history = omega arith;
  leases_ok = tt;
}

length-insert-le : (token : ℕ) (d : Dict ℕ (Unit {0})) → length (insert token tt d) ≤ suc (length d)
length-insert-le token d = elim (Option-cases (lookup token d)) [
  | inl e ↦ omega (arith, length-insert_new token tt d e)
  | inr (u, e) ↦ omega (arith, length-insert_old token tt u d e)
]

pub reserve-Inv : (m : LeaseManager) → Inv m → Inv (reserve m).0
unfolding reserve
reserve-Inv m v = elim (Bool-cases (is_full m)) [
  | inl full ↦ rw (full, reserve) v
  | inr room ↦
      rw (room, reserve)
        (record {
          distinct_tokens = insert-Distinct _ tt m.reservations v.distinct_tokens;
          distinct_ids = v.distinct_ids;
          capacity = λ h. ground (arith, length-insert-le (token_after m) m.reservations);
          history = v.history;
          leases_ok = v.leases_ok;
        })
]

pub release_reservation-Inv :
    (token : ℕ) (m : LeaseManager) → Inv m → Inv (release_reservation token m)
unfolding release_reservation
release_reservation-Inv token m v = record {
  distinct_tokens = erase-Distinct token m.reservations v.distinct_tokens;
  distinct_ids = v.distinct_ids;
  capacity = λ h. omega (arith, v.capacity h, length-erase-le token m.reservations);
  history = v.history;
  leases_ok = v.leases_ok;
}

pub LeaseOk-mono :
    (grace bound : ℕ) (sid : String) (l : Lease)
    → LeaseOk grace bound sid l
    → LeaseOk grace (suc bound) sid l
LeaseOk-mono grace bound sid l p = ground arith

pub admit-Inv :
    (digest : String → String) (token : ℕ) (sid : String) (now : ℕ) (m : LeaseManager)
    → Inv m
    → lookup token m.reservations ≡ some tt
    → lookup sid m.leases ≡ none
    → Inv (admit digest token sid now m)
unfolding admit
admit-Inv digest token sid now m v e f = record {
  distinct_tokens = erase-Distinct token m.reservations v.distinct_tokens;
  distinct_ids = insert-Distinct sid _ m.leases v.distinct_ids;
  capacity = λ h. omega (
    arith,
    v.capacity h,
    length-erase_old token tt m.reservations v.distinct_tokens e,
    length-insert_new sid (new_lease digest m.next_address sid now) m.leases f,
  );
  history = v.history;
  leases_ok =
      insert-Each _ sid _ m.leases (ground arith)
        (Each-mono _ _ m.leases (LeaseOk-mono m.disconnect_grace m.next_address) v.leases_ok);
}

pub commit-Inv :
    (digest : String → String) (token : ℕ) (sid : String) (now : ℕ) (m : LeaseManager)
    → Inv m
    → Inv (commit digest token sid now m).0
unfolding commit
commit-Inv digest token sid now m v = elim (Bool-cases (sid == "")) [
  | inl blank ↦ rw (blank, commit) v
  | inr named ↦ elim (Option-cases (lookup token m.reservations)) [
    | inl e ↦ rw (named, e, commit) v
    | inr (_, e) ↦ elim (Option-cases (lookup sid m.leases)) [
      | inl free ↦ rw (named, e, free, commit) (admit-Inv digest token sid now m v e free)
      | inr (_, taken) ↦ rw (named, e, taken, commit) v
    ]
  ]
]

pub begun-LeaseOk :
    (grace bound : ℕ) (sid : String) (application : Bool) (now : ℕ) (l : Lease)
    → LeaseOk grace bound sid l
    → LeaseOk grace bound sid (begun grace application now l)
unfolding begun
begun-LeaseOk grace bound sid application now l p = ground arith

pub begin_request-Inv :
    (sid : String) (application : Bool) (now : ℕ) (m : LeaseManager)
    → Inv m
    → Inv (begin_request sid application now m).0
unfolding begin_request
begin_request-Inv sid application now m v =
    Option-branches KeepsInv (lookup sid m.leases) _ _ v λ l e.
      if-branches KeepsInv _ _ _ (λ _. v)
        λ _.
          store-Inv m sid _ v e (begun-LeaseOk _ _ sid application now l (lookup-LeaseOk m sid v e))
