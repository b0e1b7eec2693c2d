-- ===== src/Slots/Binding.antt =====
-- internal/slots/multiplexer.go: a slot's pending count and the sessions bound to it.
use vision_mcp_manager.Base.{
  ℕ, suc, ◌<◌, ◌≡◌, refl, sym, subst, inl, inr, arith, Bool, true, Option, none, some, String, List,
  [], ◌∷◌, if◌then◌else◌, Bool-cases, if-branches, Option-branches, Option-branches_eq, sort,
  Option-cases, ◌==◌, Dict, lookup, insert, erase, Distinct, Each, string_eq, nat_eq, lookup-insert,
  lookup-erase, insert-Distinct, erase-Distinct, insert-Each, erase-Each, Each-mono, Each-lookup,
}
use vision_mcp_manager.Slots.Choice.{Valid, taken, least_loaded}
use vision_mcp_manager.Slots.{
  Entry, SlotEntry, Multiplexer, Fleet, select_for_new_session, find_slot, slot_of, updated,
  released, empty_multiplexer, replace_entry, replace_all, apply_removal_hook, apply_hooks,
  managers_of, index_leb, replace_entries, new_multiplexer, allocate, set_on_session_removed,
  release, rebind, report_spawn_result,
}

-- How many sessions are bound to the slot at an address.
abbrev pub bound : ℕ → Dict String ℕ → ℕ
bound a [] = 0
bound a ((u, b) ∷ m) = if b == a then suc (bound a m) else bound a m

bound-insert :
    (a b : ℕ) (u : String) (m : Dict String ℕ)
    → lookup u m ≡ none
    → bound a (insert u b m) ≡ (if b == a then suc (bound a m) else bound a m)
unfolding lookup insert
bound-insert a b u [] h = refl
bound-insert a b u ((v, c) ∷ m) h = ground (arith, h, bound-insert a b u m)

bound-erase_missing :
    (a : ℕ) (u : String) (m : Dict String ℕ) → lookup u m ≡ none → bound a (erase u m) ≡ bound a m
unfolding lookup erase
bound-erase_missing a u [] h = refl
bound-erase_missing a u ((v, c) ∷ m) h = ground (arith, h, bound-erase_missing a u m)

bound-erase :
    (a b : ℕ) (u : String) (m : Dict String ℕ)
    → Distinct m
    → lookup u m ≡ some b
    → bound a m ≡ (if b == a then suc (bound a (erase u m)) else bound a (erase u m))
unfolding lookup erase
bound-erase a b u [] d h = absurd (cc)
bound-erase a b u ((v, c) ∷ m) d h =
    ground (arith, h, d, bound-erase a b u m d.1, bound-erase_missing a u m, string_eq.beq_iff v u)

bound-fresh : (a : ℕ) (m : Dict String ℕ) → Each (λ u b. b < a) m → bound a m ≡ 0
bound-fresh a [] h = refl
bound-fresh a ((u, b) ∷ m) h = ground (arith, h.0, bound-fresh a m h.1)

-- The pending count of each entry is the number of sessions that are bound to it.
pub record Bindings (heap : Dict ℕ SlotEntry) (fresh : ℕ) (by_upstream : Dict String ℕ)
    : Type 0 where
  pub distinct : Distinct by_upstream
  pub old_entries : Each (λ a s. a < fresh) heap
  pub old_bound : Each (λ u a. a < fresh) by_upstream
  pub balanced : (a : ℕ) (s : SlotEntry) → lookup a heap ≡ some s → s.pending ≡ bound a by_upstream

abbrev pub Inv : Multiplexer → Type 0
Inv m = Bindings m.heap m.fresh m.by_upstream

Inv-empty : Inv empty_multiplexer
Inv-empty = record {
  distinct = tt;
  old_entries = tt;
  old_bound = tt;
  balanced = λ a s e. absurd (unfold lookup in cc);
}

-- An entry is written that keeps its pending count.
written-Inv :
    (m : Multiplexer) (a : ℕ) (s t : SlotEntry)
    → Inv m
    → lookup a m.heap ≡ some s
    → t.pending ≡ s.pending
    → Inv (record m { heap = insert a t m.heap })
written-Inv m a s t v found e = record {
  distinct = v.distinct;
  old_entries = insert-Each _ a t m.heap (Each-lookup _ a m.heap v.old_entries found) v.old_entries;
  old_bound = v.old_bound;
  balanced = λ b u h. ground (
    arith,
    h,
    e,
    lookup-insert a b t m.heap,
    nat_eq.beq_iff a b,
    v.balanced b u,
    v.balanced a s found,
  );
}

-- A new entry has no sessions.
allocated-Inv :
    (m : Multiplexer) (e : Entry)
    → Inv m
    → Inv (record m { heap = insert m.fresh (slot_of e) m.heap; fresh = suc m.fresh })
allocated-Inv m e v =
    let older : Each (λ a s. a < suc m.fresh) m.heap =
      Each-mono _ _ m.heap (λ a s h. omega (arith, h)) v.old_entries in
    record {
      distinct = v.distinct;
      old_entries = insert-Each _ m.fresh (slot_of e) m.heap (omega arith) older;
      old_bound = Each-mono _ _ m.by_upstream (λ u a h. omega (arith, h)) v.old_bound;
      balanced = λ b u h. ground (
        arith,
        h,
        lookup-insert m.fresh b (slot_of e) m.heap,
        nat_eq.beq_iff m.fresh b,
        v.balanced b u,
        bound-fresh m.fresh m.by_upstream v.old_bound,
      );
    }

replace_entry-Inv : (m : Multiplexer) (e : Entry) → Inv m → Inv (replace_entry m e).1
unfolding replace_entry
replace_entry-Inv m e v =
    Option-branches {B = ℕ × Multiplexer} (λ x. Inv x.1) (find_slot e.slot_name m.heap m.slots) _ _
      (allocated-Inv m e v)
      (λ a known.
        Option-branches {B = ℕ × Multiplexer} (λ x. Inv x.1) (lookup a m.heap) _ _ v
          (λ s found. written-Inv m a s (updated e s) v found refl))

replace_all-Inv : (m : Multiplexer) (es : List Entry) → Inv m → Inv (replace_all m es).1
unfolding replace_all
replace_all-Inv m [] v = v
replace_all-Inv m (e ∷ es) v = replace_all-Inv (replace_entry m e).1 es (replace_entry-Inv m e v)

allocate-Inv : (m : Multiplexer) (es : List Entry) → Inv m → Inv (allocate m es).1
unfolding allocate
allocate-Inv m [] v = v
allocate-Inv m (e ∷ es) v =
    allocate-Inv (record m { heap = insert m.fresh (slot_of e) m.heap; fresh = suc m.fresh }) es
      (allocated-Inv m e v)

apply_removal_hook-Inv : (m : Multiplexer) (mgr : Option ℕ) → Inv m → Inv (apply_removal_hook m mgr)
unfolding apply_removal_hook
apply_removal_hook-Inv m none v = v
apply_removal_hook-Inv m (some mgr) v =
    Option-branches {B = Multiplexer} Inv (lookup mgr m.hooked) _ _
      (if-branches Inv m.on_session_removed _ _ (λ set. v) (λ unset. v)) (λ b known. v)

apply_hooks-Inv : (m : Multiplexer) (mgrs : List (Option ℕ)) → Inv m → Inv (apply_hooks m mgrs)
unfolding apply_hooks
apply_hooks-Inv m [] v = v
apply_hooks-Inv m (mgr ∷ mgrs) v =
    apply_hooks-Inv (apply_removal_hook m mgr) mgrs (apply_removal_hook-Inv m mgr v)

pub replace_entries-Inv : (es : List Entry) (m : Multiplexer) → Inv m → Inv (replace_entries es m)
unfolding replace_entries
replace_entries-Inv es m v =
    let (addresses, m') = replace_all m es in
    let m'' = record m' { slots = sort (index_leb m'.heap) addresses } in
    apply_hooks-Inv m'' (managers_of m''.heap m''.slots) (replace_all-Inv m es v)

pub set_on_session_removed-Inv : (m : Multiplexer) → Inv m → Inv (set_on_session_removed m)
unfolding set_on_session_removed
set_on_session_removed-Inv m v =
    apply_hooks-Inv (record m { on_session_removed = true }) (managers_of m.heap m.slots) v

pub new-Inv : (es : List Entry) → Inv (new_multiplexer es)
unfolding new_multiplexer
new-Inv es = allocate-Inv empty_multiplexer es Inv-empty

taken-Inv :
    (u : String) (m : Multiplexer) (choice : Option (ℕ × SlotEntry)) (f : Fleet)
    → Inv m
    → lookup u m.by_upstream ≡ none
    → Valid f m.heap choice
    → Inv (taken u m choice).1
taken-Inv u m none f v h w = v
taken-Inv u m (some (a, slot)) f v h w =
    let old = Each-lookup _ a m.heap v.old_entries w.0 in
    let slot' = record slot { pending = suc slot.pending } in
    record {
      distinct = insert-Distinct u a m.by_upstream v.distinct;
      old_entries = insert-Each _ a slot' m.heap old v.old_entries;
      old_bound = insert-Each _ u a m.by_upstream old v.old_bound;
      balanced = λ b s e. ground (
        arith,
        e,
        lookup-insert a b slot' m.heap,
        nat_eq.beq_iff a b,
        bound-insert b a u m.by_upstream h,
        v.balanced b s,
        v.balanced a slot w.0,
      );
    }

select-known :
    (f : Fleet) (u : String) (a : ℕ) (m : Multiplexer)
    → lookup u m.by_upstream ≡ some a
    → (select_for_new_session f u m).1 ≡ m
unfolding select_for_new_session
select-known f u a m h = ground (arith, h)

pub select-Inv :
    (f : Fleet) (u : String) (m : Multiplexer) → Inv m → Inv (select_for_new_session f u m).1
select-Inv f u m v = elim (Option-cases (lookup u m.by_upstream)) [
  | inl new ↦
      let (choice, valid, best, e) = least_loaded f u m new in
      subst (λ x. Inv x.1) (sym e) (taken-Inv u m choice f v new valid)
  | inr (a, known) ↦ subst Inv (sym (select-known f u a m known)) v
]

erased_fresh :
    (u : String) (m : Multiplexer) → Inv m → Each (λ w a. a < m.fresh) (erase u m.by_upstream)
erased_fresh u m v = erase-Each _ u m.by_upstream v.old_bound

unbound-Inv :
    (u : String) (a : ℕ) (m : Multiplexer)
    → Inv m
    → lookup u m.by_upstream ≡ some a
    → lookup a m.heap ≡ none
    → Inv (record m { by_upstream = erase u m.by_upstream })
unbound-Inv u a m v known missing = record {
  distinct = erase-Distinct u m.by_upstream v.distinct;
  old_entries = v.old_entries;
  old_bound = erased_fresh u m v;
  balanced = λ b s e. elim (Bool-cases (a == b)) [
    | inl same ↦ absurd (ground (arith, e, missing, nat_eq.beq_iff a b, same))
    | inr other ↦
        ground (arith, v.balanced b s e, other, bound-erase b a u m.by_upstream v.distinct known)
  ];
}

released-Inv :
    (u : String) (a : ℕ) (s : SlotEntry) (m : Multiplexer)
    → Inv m
    → lookup u m.by_upstream ≡ some a
    → lookup a m.heap ≡ some s
    → Inv (record m { heap = insert a (released s) m.heap; by_upstream = erase u m.by_upstream })
released-Inv u a s m v known found = record {
  distinct = erase-Distinct u m.by_upstream v.distinct;
  old_entries =
      insert-Each _ a (released s) m.heap (Each-lookup _ a m.heap v.old_entries found)
        v.old_entries;
  old_bound = erased_fresh u m v;
  balanced = λ b t e. ground (
    arith,
    e,
    lookup-insert a b (released s) m.heap,
    nat_eq.beq_iff a b,
    v.balanced a s found,
    v.balanced b t,
    bound-erase b a u m.by_upstream v.distinct known,
  );
}

moved-Inv :
    (o n : String) (a : ℕ) (m : Multiplexer)
    → lookup n m.by_upstream ≡ none
    → Inv m
    → lookup o m.by_upstream ≡ some a
    → Inv (record m { by_upstream = insert n a (erase o m.by_upstream) })
moved-Inv o n a m h v known =
    let free : lookup n (erase o m.by_upstream) ≡ none =
      ground (arith, h, lookup-erase o n m.by_upstream) in
    record {
      distinct = insert-Distinct n a _ (erase-Distinct o m.by_upstream v.distinct);
      old_entries = v.old_entries;
      old_bound =
          insert-Each _ n a _ (Each-lookup _ o m.by_upstream v.old_bound known)
            (erased_fresh o m v);
      balanced = λ b s e. ground (
        arith,
        v.balanced b s e,
        bound-insert b a n (erase o m.by_upstream) free,
        bound-erase b a o m.by_upstream v.distinct known,
      );
    }

pub release-Inv : (u : String) (m : Multiplexer) → Inv m → Inv (release u m)
unfolding release
release-Inv u m v = Option-branches {B = Multiplexer} Inv (lookup u m.by_upstream) _ _ v (λ a known.
    Option-branches_eq {B = Multiplexer} Inv (lookup a m.heap) _ _
      (λ missing. unbound-Inv u a m v known missing)
      (λ s found. released-Inv u a s m v known found))

pub rebind-Inv :
    (o n : String) (m : Multiplexer) → lookup n m.by_upstream ≡ none → Inv m → Inv (rebind o n m)
unfolding rebind
rebind-Inv o n m h v =
    Option-branches {B = Multiplexer} Inv (lookup o m.by_upstream) _ _ v
      (λ a known. moved-Inv o n a m h v known)

pub report-Inv :
    (now : ℕ) (key : String) (failed : Bool) (m : Multiplexer)
    → Inv m
    → Inv (report_spawn_result now key failed m)
unfolding report_spawn_result
report-Inv now key failed m v =
    Option-branches {B = Multiplexer} Inv (lookup key m.by_upstream) _ _ v (λ a known.
      Option-branches {B = Multiplexer} Inv (lookup a m.heap) _ _ v
        (λ s found. written-Inv m a s _ v found refl))
