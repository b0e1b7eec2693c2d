-- ===== src/Reachability/Overall.antt =====
-- internal/reachability/reachability.go: the overall state of a server, against the verdicts of its
-- depths.
use vision_mcp_manager.Base.{
  ℕ, ◌≡◌, ◌≢◌, ◌↔◌, refl, ◌∙◌, sym, subst, inl, inr, arith, String, true, some, [], ◌∷◌, nat_beq,
  Dict, lookup, insert, string_eq, ==_refl, Bool-cases, Option-cases, Option-branches, if-branches,
  leb, Distinct, insert-Distinct, length, Each, insert-Each, Each-lookup,
}
use vision_mcp_manager.Reachability.{
  State, unprobed, reachable, unreachable, is_unreachable, Depth, unknown, depth_eq, depth_iff,
  ProbeEvidence, succeeded, failed, inconclusive, ServerRecord, Store, new_record, record_of,
  settled, started, recorded, failed_definitively, any_unreachable, deepest_from, state_for,
  state_after_failure,
}
use vision_mcp_manager.Reachability.Views.{
  Call, starts, records, fails, apply, apply-cases, changed, server, depth_of,
}

-- Some depth is unreachable.
abbrev pub SomeUnreachable : ServerRecord → Type 0
SomeUnreachable r = (d : Depth) × (lookup d r.state_by_depth ≡ some unreachable)

any_unreachable-found :
    (m : Dict Depth State)
    → Distinct m
    → any_unreachable m ≡ true
    → (d : Depth) × (lookup d m ≡ some unreachable)
unfolding any_unreachable lookup
any_unreachable-found [] h e = absurd (cc)
any_unreachable-found ((d, s) ∷ m) h e = elim (Bool-cases (is_unreachable s)) [
  | inl here ↦ (d, rw (==_refl d) (ground (arith, here)))
  | inr not_here ↦
      let (d', found) = any_unreachable-found m h.1 (ground (arith, not_here, e)) in
      (d', ground (arith, h.0, found, depth_iff d d'))
]

found-any_unreachable :
    (d : Depth) (m : Dict Depth State) → lookup d m ≡ some unreachable → any_unreachable m ≡ true
unfolding any_unreachable lookup
found-any_unreachable d [] e = absurd (cc)
found-any_unreachable d ((d', s) ∷ m) e = ground (arith, found-any_unreachable d m)

-- The stored state is the one that the depths give, verdicts stand at defined depths only, once
-- each, and none stands without evidence.
pub record RecordOk (r : ServerRecord) : Type 0 where
  pub current : r.state ≡ state_for r
  pub distinct : Distinct r.state_by_depth
  pub defined : Each (λ d s. d ≢ unknown) r.state_by_depth
  pub covered : length r.evidence ≡ 0 → r.state_by_depth ≡ []

new-RecordOk : RecordOk new_record
unfolding state_for
new-RecordOk = record { current = refl; distinct = tt; defined = tt; covered = λ _. refl }

insert-nonempty :
    (d : Depth) (e : ProbeEvidence) (m : Dict Depth ProbeEvidence) → length (insert d e m) ≢ 0
unfolding insert
insert-nonempty d e [] h = omega arith
insert-nonempty d e ((d', w) ∷ m) h = ground arith

settled-RecordOk :
    (r : ServerRecord)
    → Distinct r.state_by_depth
    → Each (λ d s. d ≢ unknown) r.state_by_depth
    → length r.evidence ≢ 0
    → RecordOk (settled r)
unfolding state_for
settled-RecordOk r h k e = record {
  current = refl;
  distinct = h;
  defined = k;
  covered = λ z. absurd (e z);
}

state_after_failure-ok :
    (d : Depth) (streak : ℕ) (m : Dict Depth State)
    → d ≢ unknown
    → Distinct m
    → Each (λ d s. d ≢ unknown) m
    → let m' = state_after_failure d streak m in Distinct m' × Each (λ d s. d ≢ unknown) m'
state_after_failure-ok d streak m ne h k =
    let up = insert-Distinct d unreachable m h in
    let up' = insert-Each (λ d s. d ≢ unknown) d unreachable m ne k in
    let low = insert-Distinct d unprobed m h in
    let low' = insert-Each (λ d s. d ≢ unknown) d unprobed m ne k in
    if-branches (λ m'. Distinct m' × Each (λ d s. d ≢ unknown) m') (leb 3 streak) _ _
      (λ _. (up, up'))
      (λ _.
        Option-branches (λ m'. Distinct m' × Each (λ d s. d ≢ unknown) m') (lookup d m)
          (insert d unprobed m) (λ _. m) (low, low') (λ _ _. (h, k)))

changed-RecordOk :
    (c : Call) (now : ℕ) (r : ServerRecord)
    → depth_of c ≢ unknown
    → RecordOk r
    → RecordOk (changed c now r)
unfolding started recorded failed_definitively
changed-RecordOk (starts name d at) now r ne v =
    settled-RecordOk _ v.distinct v.defined (insert-nonempty d _ r.evidence)
changed-RecordOk (records name d at inconclusive error) now r ne v =
    settled-RecordOk _ v.distinct v.defined (insert-nonempty d _ r.evidence)
changed-RecordOk (records name d at succeeded error) now r ne v =
    settled-RecordOk _ (insert-Distinct d reachable r.state_by_depth v.distinct)
      (insert-Each _ d reachable r.state_by_depth ne v.defined) (insert-nonempty d _ r.evidence)
changed-RecordOk (records name d at failed error) now r ne v =
    let ok = state_after_failure-ok d _ r.state_by_depth ne v.distinct v.defined in
    settled-RecordOk _ ok.0 ok.1 (insert-nonempty d _ r.evidence)
changed-RecordOk (fails name d at cause) now r ne v =
    settled-RecordOk _ (insert-Distinct d unreachable r.state_by_depth v.distinct)
      (insert-Each _ d unreachable r.state_by_depth ne v.defined) (insert-nonempty d _ r.evidence)

abbrev pub StoreOk : Store → Type 0
StoreOk = Each (λ name r. RecordOk r)

record_of-RecordOk : (name : String) (s : Store) → StoreOk s → RecordOk (record_of name s)
record_of-RecordOk name s v = elim (Option-cases (lookup name s)) [
  | inl absent ↦ rw absent new-RecordOk
  | inr (r, found) ↦ rw found (Each-lookup _ name s v found)
]

-- Every accepted call keeps each record of the store in order.
pub apply-StoreOk :
    (c : Call) (now : ℕ) (s s' : Store) (r : ServerRecord)
    → StoreOk s
    → apply c now s ≡ some (s', r)
    → StoreOk s'
apply-StoreOk c now s s' r v e =
    let (r-eq, s'-eq, ne) = apply-cases c now s s' r e in
    let ok : RecordOk r =
      subst RecordOk (sym r-eq) (changed-RecordOk c now _ ne (record_of-RecordOk (server c) s v)) in
    subst StoreOk (sym s'-eq) (insert-Each _ (server c) r s ok v)

any-state :
    (r : ServerRecord)
    → RecordOk r
    → any_unreachable r.state_by_depth ≡ true
    → r.state ≡ unreachable
unfolding state_for
any-state r v any = elim (Bool-cases (nat_beq (length r.evidence) 0)) [
  | inl blank ↦
      let no_depths : any_unreachable [] ≡ true = rw (v.covered (ground arith)) at any in
      absurd (cc)
  | inr seen ↦ v.current ∙ ground (arith, seen, any)
]

state-any : (r : ServerRecord) → RecordOk r → r.state ≡ unreachable → SomeUnreachable r
unfolding state_for
state-any r v e =
    let deepest = deepest_from unknown r.state_by_depth in
    elim (Bool-cases (any_unreachable r.state_by_depth)) [
      | inl any ↦ any_unreachable-found r.state_by_depth v.distinct any
      | inr calm ↦ elim (Option-cases (lookup deepest r.state_by_depth)) [
        | inl absent ↦ absurd (ground (arith, v.current, e, calm, absent))
        | inr (s, found) ↦ (deepest, ground (arith, v.current, e, calm, found))
      ]
    ]

pessimistic_record : (r : ServerRecord) → RecordOk r → (r.state ≡ unreachable) ↔ SomeUnreachable r
pessimistic_record r v =
    (state-any r v, λ found. any-state r v (found-any_unreachable found.0 r.state_by_depth found.1))

-- Reachability is pessimistic. In a store whose records are in order, which every accepted call
-- keeps so, the record that a call returns is `unreachable` exactly if its verdict at some depth
-- is, whatever has been found at deeper or shallower depths.
pub verdict_pessimistic :
    (c : Call) (now : ℕ) (s s' : Store) (r : ServerRecord)
    → StoreOk s
    → apply c now s ≡ some (s', r)
    → ((r.state ≡ unreachable) ↔ SomeUnreachable r) × StoreOk s'
verdict_pessimistic c now s s' r v e =
    let (r-eq, _, ne) = apply-cases c now s s' r e in
    let ok : RecordOk r =
      subst RecordOk (sym r-eq) (changed-RecordOk c now _ ne (record_of-RecordOk (server c) s v)) in
    (pessimistic_record r ok, apply-StoreOk c now s s' r v e)
