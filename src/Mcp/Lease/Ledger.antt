-- ===== src/Mcp/Lease/Ledger.antt =====
-- internal/mcp/lease.go: the closed history accounts for every lease that was ever admitted.
use vision_mcp_manager.Base.{
  ℕ, suc, ◌+◌, String, ◌≡◌, refl, inl, inr, Bool, false, some, List, [], ◌∷◌, arith, length,
  length-append, All, Dict, lookup, erase, Distinct, string_eq, nat_eq, ◌==◌, Option-branches,
  if-branches, Bool-cases, Option-cases, length-insert_new, length-insert_old, length-erase_old,
  length-map_values, sort, str_leb, length-sort, All-sort, lookup-erase, ==_refl, Each, Each-mono,
  Each-zip, absent-Each, entries-Each,
}
use vision_mcp_manager.Mcp.Lease.{
  Lease, LeaseManager, Guard, store, new_lease_manager_with_disconnect_grace, reserve, new_lease,
  admit, commit, release_reservation, begin_request, settle, complete, begin_sse, end_sse,
  try_begin_expiry, mark_cleanup_uncertain, restore_active,
}
use vision_mcp_manager.Mcp.Lease.History.{
  closed_row, record_closed, record_closed?, close_lease, finalize_close, invalidate_all,
  record_all, keys, close_reason,
}
use vision_mcp_manager.Mcp.Lease.Sweep.{
  expire_eligible, is_quarantine_over, release_quarantined, expire_cleanup_uncertain,
}
use vision_mcp_manager.Mcp.Lease.Machine.{
  Call, reserves, expires_eligible, expires_uncertain, commits, releases, begins, completes,
  begins_sse, ends_sse, restores, finalizes, tries_expiry, marks_uncertain, invalidates, step, run,
}
use vision_mcp_manager.Mcp.Lease.Invariant.{Inv, new-Inv}
use vision_mcp_manager.Mcp.Lease.Preserved.{
  swept, sweep-map_values, step-Inv, record_closed_leases, length-drop_oldest, close_lease-Inv,
}

-- The rows that were ever closed, shown or only counted.
abbrev pub closed_total : LeaseManager → ℕ
closed_total m = length m.closed_rows + m.closed_omitted

-- `next_address` counts the leases that were allocated.
abbrev pub IsBalanced : LeaseManager → Type 0
IsBalanced m = closed_total m + length m.leases ≡ m.next_address

pub record_closed-total :
    (l : Lease) (reason : String) (now : ℕ) (m : LeaseManager)
    → (closed_total (record_closed l reason now m) ≡ suc (closed_total m))
      × ((record_closed l reason now m).next_address ≡ m.next_address)
unfolding record_closed
record_closed-total l reason now m = ground (
  arith,
  length-drop_oldest m.closed_rows (closed_row l reason now),
  length-append m.closed_rows (closed_row l reason now ∷ []),
)

store-IsBalanced :
    (m : LeaseManager) (sid : String) {l : Lease} (l' : Lease)
    → lookup sid m.leases ≡ some l
    → IsBalanced m
    → IsBalanced (store sid l' m)
store-IsBalanced m sid {l} l' e b = omega (arith, length-insert_old sid l' l m.leases e)

close_lease-IsBalanced :
    (sid : String) {l : Lease} (reason : String) (now : ℕ) (m : LeaseManager)
    → Inv m
    → lookup sid m.leases ≡ some l
    → IsBalanced m
    → IsBalanced (close_lease sid l reason now m)
unfolding close_lease
close_lease-IsBalanced sid {l} reason now m v e b =
    let more = record_closed-total l reason now m in
    rw (record_closed_leases l reason now m)
      (omega (arith, more, length-erase_old sid l m.leases v.distinct_ids e))

abbrev Found : Dict String Lease → String → Type 0
Found d id = (l : Lease) × (lookup id d ≡ some l)

-- The loop over identifiers that are all there closes one row for each.
record_all-total :
    (ids : List String) (reason : String) (now : ℕ) (m : LeaseManager)
    → All (Found m.leases) ids
    → (closed_total (record_all ids reason now m) ≡ length ids + closed_total m)
      × ((record_all ids reason now m).next_address ≡ m.next_address)
unfolding record_all record_closed?
record_all-total [] reason now m h = (omega arith, refl)
record_all-total (id ∷ ids) reason now m h =
    let (l, e) = h.0 in
    let m' = record_closed l reason now m in
    let there : All (Found m'.leases) ids = rw (record_closed_leases l reason now m) h.1 in
    rw (e, record_all, record_closed?)
      (omega (arith, record_closed-total l reason now m, record_all-total ids reason now m' there))

Found-cons :
    (k : String) (w : Lease) (d : Dict String Lease) (id : String)
    → Found d id
    → Found ((k, w) ∷ d) id
unfolding lookup
Found-cons k w d id (l, e) = elim (Bool-cases (k == id)) [
  | inl hit ↦ (w, rw hit)
  | inr miss ↦ (l, rw miss e)
]

All-mono {ℓ κ μ} :
    {A : Type ℓ} (P : A → Type κ) (Q : A → Type μ) (xs : List A)
    → ((a : A) → P a → Q a)
    → All P xs
    → All Q xs
All-mono P Q [] f h = tt
All-mono P Q (x ∷ xs) f h = (f x h.0, All-mono P Q xs f h.1)

keys-Found : (d : Dict String Lease) → All (Found d) (keys d)
unfolding lookup
keys-Found [] = tt
keys-Found ((k, w) ∷ d) =
    ((w, rw (==_refl k)), All-mono (Found d) _ (keys d) (Found-cons k w d) (keys-Found d))

length-keys : (d : Dict String Lease) → length (keys d) ≡ length d
length-keys [] = refl
length-keys ((k, w) ∷ d) = omega (arith, length-keys d)

invalidate_all-IsBalanced :
    (reasons : List String) (now : ℕ) (m : LeaseManager)
    → IsBalanced m
    → IsBalanced (invalidate_all reasons now m).0
unfolding invalidate_all
invalidate_all-IsBalanced reasons now m b =
    let ids = sort str_leb (keys m.leases) in
    omega (
      arith,
      length-sort str_leb (keys m.leases),
      length-keys m.leases,
      record_all-total ids (close_reason reasons) now m
          (All-sort str_leb _ (keys m.leases) (keys-Found m.leases)),
    )

-- What is still to be visited stands in the map of the manager.
abbrev pub AllHeld : Dict String Lease → LeaseManager → Type 0
AllHeld d m = Distinct d × Each (λ sid l. lookup sid m.leases ≡ some l) d

pub AllHeld-close :
    (k : String) (w : Lease) (reason : String) (now : ℕ) (d : Dict String Lease) (m : LeaseManager)
    → AllHeld ((k, w) ∷ d) m
    → AllHeld d (close_lease k w reason now m)
unfolding close_lease
AllHeld-close k w reason now d m h = (
  h.0.1,
  Each-mono _ _ d (λ j l p. still j l p.0 p.1) (Each-zip _ _ d (absent-Each k d h.0.0) h.1.1),
)
  where
    still :
        (j : String) (l : Lease)
        → (k == j) ≡ false
        → lookup j m.leases ≡ some l
        → lookup j (erase k (record_closed w reason now m).leases) ≡ some l
    still j l ne e = rw (record_closed_leases w reason now m, lookup-erase k j m.leases, ne) e

release_quarantined-IsBalanced :
    (now : ℕ) (d : Dict String Lease) (m : LeaseManager)
    → Inv m
    → AllHeld d m
    → IsBalanced m
    → IsBalanced (release_quarantined now d m).0
unfolding release_quarantined
release_quarantined-IsBalanced now [] m v h b = b
release_quarantined-IsBalanced now ((sid, l) ∷ d) m v h b =
    let turn =
      if-branches (λ m'. Inv m' × AllHeld d m' × IsBalanced m') (is_quarantine_over now l)
        (close_lease sid l l.reason now m) m
        (λ _. (
          close_lease-Inv sid l l.reason now m v,
          AllHeld-close sid l l.reason now d m h,
          close_lease-IsBalanced sid l.reason now m v h.1.0 b,
        ))
        (λ _. (v, (h.0.1, h.1.1), b)) in
    release_quarantined-IsBalanced now d _ turn.0 turn.1 turn.2

module _ (digest : String → String) where
  commit-IsBalanced :
      (token : ℕ) (sid : String) (now : ℕ) (m : LeaseManager)
      → IsBalanced m
      → IsBalanced (commit digest token sid now m).0
  unfolding commit admit
  commit-IsBalanced token sid now m b = elim (Option-cases (lookup sid m.leases)) [
    | inl free ↦
        ground (
          arith,
          free,
          length-insert_new sid (new_lease digest m.next_address sid now) m.leases free,
        )
    | inr (l, taken) ↦ ground (arith, taken)
  ]

abbrev KeepsBalance {ℓ} : {R : Type ℓ} → LeaseManager × R → Type 0
KeepsBalance r = IsBalanced r.0

begin_request-IsBalanced :
    (sid : String) (application : Bool) (now : ℕ) (m : LeaseManager)
    → IsBalanced m
    → IsBalanced (begin_request sid application now m).0
unfolding begin_request
begin_request-IsBalanced sid application now m b =
    Option-branches KeepsBalance (lookup sid m.leases) _ _ b
      λ l e. if-branches KeepsBalance _ _ _ (λ _. b) λ _. store-IsBalanced m sid _ e b

begin_sse-IsBalanced :
    (sid : String) (m : LeaseManager) → IsBalanced m → IsBalanced (begin_sse sid m).0
unfolding begin_sse
begin_sse-IsBalanced sid m b =
    Option-branches KeepsBalance (lookup sid m.leases) _ _ b
      λ l e. if-branches KeepsBalance _ _ _ (λ _. b) λ _. store-IsBalanced m sid _ e b

end_sse-IsBalanced :
    (sid : String) (now : ℕ) (m : LeaseManager) → IsBalanced m → IsBalanced (end_sse sid now m)
unfolding end_sse
end_sse-IsBalanced sid now m b =
    Option-branches IsBalanced (lookup sid m.leases) _ _ b
      λ l e. if-branches IsBalanced _ _ _ (λ _. store-IsBalanced m sid _ e b) (λ _. b)

try_begin_expiry-IsBalanced :
    (sid reason : String) (m : LeaseManager)
    → IsBalanced m
    → IsBalanced (try_begin_expiry sid reason m).0
unfolding try_begin_expiry
try_begin_expiry-IsBalanced sid reason m b =
    Option-branches KeepsBalance (lookup sid m.leases) _ _ b
      λ l e. if-branches KeepsBalance _ _ _ (λ _. b) λ _. store-IsBalanced m sid _ e b

restore_active-IsBalanced :
    (sid : String) (m : LeaseManager) → IsBalanced m → IsBalanced (restore_active sid m).0
unfolding restore_active
restore_active-IsBalanced sid m b =
    Option-branches KeepsBalance (lookup sid m.leases) _ _ b
      λ l e. if-branches KeepsBalance _ _ _ (λ _. b) λ _. store-IsBalanced m sid _ e b

settle-IsBalanced :
    (g : Guard) (now : ℕ) (m : LeaseManager) → IsBalanced m → IsBalanced (settle g now m)
unfolding settle
settle-IsBalanced g now m b =
    Option-branches IsBalanced (lookup g.session_id m.leases) _ _ b
      λ l e. if-branches IsBalanced _ _ _ (λ _. b) λ _. store-IsBalanced m g.session_id _ e b

step-IsBalanced :
    (digest : String → String) (now : ℕ) (c : Call) (m : LeaseManager)
    → Inv m
    → IsBalanced m
    → IsBalanced (step digest now c m)
unfolding step reserve release_reservation complete mark_cleanup_uncertain finalize_close
    expire_eligible expire_cleanup_uncertain
step-IsBalanced digest now reserves m v b = ground arith
step-IsBalanced digest now (commits token sid) m v b = commit-IsBalanced digest token sid now m b
step-IsBalanced digest now (releases token) m v b = b
step-IsBalanced digest now (begins sid application) m v b =
    begin_request-IsBalanced sid application now m b
step-IsBalanced digest now (completes g) m v b = ground (arith, settle-IsBalanced g now m b)
step-IsBalanced digest now (begins_sse sid) m v b = begin_sse-IsBalanced sid m b
step-IsBalanced digest now (ends_sse sid) m v b = end_sse-IsBalanced sid now m b
step-IsBalanced digest now expires_eligible m v b =
    rw (sweep-map_values m now m.leases) (omega (arith, length-map_values (swept m now) m.leases))
step-IsBalanced digest now (tries_expiry sid reason) m v b =
    try_begin_expiry-IsBalanced sid reason m b
step-IsBalanced digest now (marks_uncertain sid reason) m v b =
    Option-branches KeepsBalance (lookup sid m.leases) _ _ b λ l e. store-IsBalanced m sid _ e b
step-IsBalanced digest now (restores sid) m v b = restore_active-IsBalanced sid m b
step-IsBalanced digest now (finalizes sid) m v b =
    Option-branches KeepsBalance (lookup sid m.leases) _ _ b
      λ l e. close_lease-IsBalanced sid l.reason now m v e b
step-IsBalanced digest now (invalidates reasons) m v b = invalidate_all-IsBalanced reasons now m b
step-IsBalanced digest now expires_uncertain m v b =
    release_quarantined-IsBalanced now m.leases m v
      (v.distinct_ids, entries-Each m.leases v.distinct_ids) b

run-IsBalanced :
    (digest : String → String) (m : LeaseManager) (cs : List (ℕ × Call))
    → Inv m
    → IsBalanced m
    → IsBalanced (run digest m cs)
unfolding run
run-IsBalanced digest m [] v b = b
run-IsBalanced digest m ((now, c) ∷ cs) v b =
    run-IsBalanced digest (step digest now c m) cs (step-Inv digest now c m v)
      (step-IsBalanced digest now c m v b)

-- The ledger: after any history of a new manager, the rows that were closed, shown or counted as
-- omitted, and the leases in the map add up to the number of leases that were ever admitted. So
-- each admitted lease is either held or was closed, and was closed exactly once.
pub ledger :
    (digest : String → String) (max_sessions idle grace : ℕ) (cs : List (ℕ × Call))
    → IsBalanced (run digest (new_lease_manager_with_disconnect_grace max_sessions idle grace) cs)
ledger digest max_sessions idle grace cs =
    run-IsBalanced digest _ cs (new-Inv max_sessions idle grace)
      (unfold new_lease_manager_with_disconnect_grace in omega arith)
