-- ===== src/Mcp/Lease/Undone.antt =====
-- internal/mcp/lease.go: a claim that is refused, or is granted and given back, holds nothing.
use vision_mcp_manager.Base.{
  ℕ, ◌≤◌, ◌<◌, String, ◌≡◌, ◌⊎◌, refl, sym, subst, inl, inr, Bool, true, false, not, ◌||◌, nat_beq,
  Option, none, some, Result, ok, err, arith, length, Dict, lookup, insert, erase, string_eq,
  nat_eq, if-branches, Option-branches, Bool-cases, Option-cases, lookup-insert, lookup-insert_self,
  insert-Distinct, length-insert_new, length-insert_old, length-erase_old, length-erase-le, ==_iff,
  Distinct,
}
use vision_mcp_manager.Mcp.Lease.{
  Lease, LeaseManager, LeaseError, lease_capacity, Guard, store, is_active, is_full, reserve,
  release_reservation, begun, begin_request, complete, begin_sse, sse_begun, end_sse, sse_ended,
  try_begin_expiry, expire_as, restore_active, restored, capacity_used, in_flight, token_after,
}
use vision_mcp_manager.Mcp.Lease.Invariant.{Inv}
use vision_mcp_manager.Mcp.Lease.Requests.{begin-complete, begun-in_flight, finished-in_flight}
use vision_mcp_manager.Mcp.Lease.Lighter.{Lighter, in_flight-flight}

-- No more capacity is used, and no session has more requests in flight.
pub record Lean (m m' : LeaseManager) : Type 0 where
  pub capacity : capacity_used m' ≤ capacity_used m
  pub flights : (sid : String) → in_flight sid m' ≤ in_flight sid m

pub Lean-refl : (m : LeaseManager) → Lean m m
Lean-refl m = record { capacity = omega arith; flights = λ sid. omega arith }

pub Lean-trans : (m m' m'' : LeaseManager) → Lean m m' → Lean m' m'' → Lean m m''
Lean-trans m m' m'' v w = record {
  capacity = omega (arith, v.capacity, w.capacity);
  flights = λ sid. omega (arith, v.flights sid, w.flights sid);
}

pub Lighter-Lean : (m m' : LeaseManager) → Lighter m m' → Lean m m'
unfolding capacity_used
Lighter-Lean m m' v = record {
  capacity = omega (arith, v.waiting, v.fewer);
  flights = λ sid. omega (arith, v.flights sid, in_flight-flight sid m, in_flight-flight sid m');
}

length-erase-insert :
    (token : ℕ) (d : Dict ℕ (Unit {0}))
    → Distinct d
    → length (erase token (insert token tt d)) ≤ length d
length-erase-insert token d v = elim (Option-cases (lookup token d)) [
  | inl new ↦ omega (
    arith,
    length-insert_new token tt d new,
    length-erase_old token tt (insert token tt d) (insert-Distinct token tt d v)
        (lookup-insert_self token tt d),
  )
  | inr (u, old) ↦
      omega (arith, length-insert_old token tt u d old, length-erase-le token (insert token tt d))
]

-- A reservation that is refused, or released.
abbrev pub Reserved : LeaseManager → LeaseManager × Result LeaseError ℕ → Type 0
Reserved m (m', err e) = Lean m m'
Reserved m (m', ok token) = Lean m (release_reservation token m')

pub reserve-Reserved : (m : LeaseManager) → Inv m → Reserved m (reserve m)
unfolding reserve release_reservation capacity_used in_flight
reserve-Reserved m v =
    if-branches (Reserved m) (is_full m) _ _ (λ _. Lean-refl m)
      (λ _. record {
        capacity =
            omega (arith, length-erase-insert (token_after m) m.reservations v.distinct_tokens);
        flights = λ sid. omega arith;
      })

-- A second write to a lease, with no more requests in flight than before both.
store_twice-Lean :
    (sid : String) (l l₁ l₂ : Lease) (m : LeaseManager)
    → lookup sid m.leases ≡ some l
    → l₂.in_flight ≤ l.in_flight
    → Lean m (store sid l₂ (store sid l₁ m))
unfolding capacity_used
store_twice-Lean sid l l₁ l₂ m e le = record {
  capacity = omega (
    arith,
    length-insert_old sid l₁ l m.leases e,
    length-insert_old sid l₂ l₁ (insert sid l₁ m.leases) (lookup-insert_self sid l₁ m.leases),
  );
  flights = λ other. ground (
    arith,
    e,
    le,
    in_flight-flight other m,
    in_flight-flight other (store sid l₂ (store sid l₁ m)),
    lookup-insert sid other l₁ m.leases,
    lookup-insert sid other l₂ (insert sid l₁ m.leases),
    ==_iff sid other,
  );
}

-- A request that is not let in, or completed at the time `later`.
abbrev pub Begun : ℕ → LeaseManager → LeaseManager × Result LeaseError Guard → Type 0
Begun later m (m', err e) = Lean m m'
Begun later m (m', ok guard) = Lean m (complete guard later m').0

pub begin_request-Begun :
    (sid : String) (application : Bool) (now later : ℕ) (m : LeaseManager)
    → Begun later m (begin_request sid application now m)
unfolding begin_request
begin_request-Begun sid application now later m =
    Option-branches (Begun later m) (lookup sid m.leases) _ _ (Lean-refl m) λ l e.
      if-branches (Begun later m) (not (is_active l.state)) _ _ (λ _. Lean-refl m)
        λ _.
          subst (λ x. Lean m x) (sym (begin-complete sid application now later m l))
            (store_twice-Lean sid l _ _ m e (
              omega (
                arith,
                (begun-in_flight m.disconnect_grace application now l).0,
                finished-in_flight m.disconnect_grace application later
                    (begun m.disconnect_grace application now l),
              )))

-- A stream that is not let in, or ended at the time `later`.
abbrev pub Streamed : String → ℕ → LeaseManager → LeaseManager × Option LeaseError → Type 0
Streamed sid later m (m', some e) = Lean m m'
Streamed sid later m (m', none) = Lean m (end_sse sid later m')

end_sse-begun :
    (sid : String) (later : ℕ) (l : Lease) (m : LeaseManager)
    → end_sse sid later (store sid (sse_begun l) m)
      ≡ store sid (sse_ended m.disconnect_grace later (sse_begun l)) (store sid (sse_begun l) m)
unfolding end_sse
end_sse-begun sid later l m =
    rw (end_sse, lookup-insert_self sid (sse_begun l) m.leases) (ground arith)

pub begin_sse-Streamed :
    (sid : String) (later : ℕ) (m : LeaseManager) → Streamed sid later m (begin_sse sid m)
unfolding begin_sse sse_ended
begin_sse-Streamed sid later m =
    Option-branches (Streamed sid later m) (lookup sid m.leases) _ _ (Lean-refl m) λ l e.
      if-branches (Streamed sid later m) (not (is_active l.state)) _ _ (λ _. Lean-refl m)
        λ _.
          subst (λ x. Lean m x) (sym (end_sse-begun sid later l m))
            (store_twice-Lean sid l _ _ m e (omega arith))

-- A claim for expiry that is refused, or taken back.
abbrev pub Claimed : String → LeaseManager → LeaseManager × Bool → Type 0
Claimed sid m (m', false) = Lean m m'
Claimed sid m (m', true) = Lean m (restore_active sid m').0

restore_active-expired :
    (sid reason : String) (l : Lease) (m : LeaseManager)
    → (restore_active sid (store sid (expire_as reason l) m)).0
      ≡ store sid (restored (expire_as reason l)) (store sid (expire_as reason l) m)
unfolding restore_active
restore_active-expired sid reason l m =
    rw (restore_active, lookup-insert_self sid (expire_as reason l) m.leases) refl

pub try_begin_expiry-Claimed :
    (sid reason : String) (m : LeaseManager) → Claimed sid m (try_begin_expiry sid reason m)
unfolding try_begin_expiry
try_begin_expiry-Claimed sid reason m =
    Option-branches (Claimed sid m) (lookup sid m.leases) _ _ (Lean-refl m) λ l e.
      if-branches (Claimed sid m) (not (is_active l.state) || not (nat_beq l.in_flight 0)) _ _
        (λ _. Lean-refl m)
        λ _.
          subst (λ x. Lean m x) (sym (restore_active-expired sid reason l m))
            (store_twice-Lean sid l _ _ m e (omega arith))

-- Where there is room, a reservation is granted.
pub reserve_room :
    (m : LeaseManager) → capacity_used m < m.max_sessions → (reserve m).1 ≡ ok (token_after m)
unfolding reserve capacity_used
reserve_room m room = ground arith

pub reserve-cases :
    (m : LeaseManager) → ((reserve m).1 ≡ ok (token_after m)) ⊎ ((reserve m).1 ≡ err lease_capacity)
unfolding reserve
reserve-cases m = elim (Bool-cases (is_full m)) [
  | inl full ↦ inr (rw (full, reserve) refl)
  | inr room ↦ inl (rw (room, reserve) refl)
]

pub room_left :
    (m m' : LeaseManager)
    → 0 < m.max_sessions
    → Inv m
    → Lighter m m'
    → length m'.leases < length m.leases
    → capacity_used m' < m'.max_sessions
unfolding capacity_used
room_left m m' limited v w less = omega (arith, w.limit, w.waiting, less, v.capacity limited)
