-- ===== src/Slots/Capacity.antt =====
-- internal/slots/multiplexer.go: what `AdmissionStatus` says of `SelectForNewSession`.
use vision_mcp_manager.Base.{
  ℕ, ◌≡◌, refl, subst, inl, inr, arith, true, none, some, err, String, List, [], ◌∷◌, Option-cases,
  All, Dict, lookup, string_eq, nat_eq,
}
use vision_mcp_manager.Slots.{
  SlotEntry, Multiplexer, Fleet, err_max_sessions, slot_load, slot_at_capacity, choose,
  select_for_new_session, Admission, admit, admit_all, admission_status, admission_start,
}

-- Every slot that there is at one of the addresses is at its capacity.
abbrev pub AllFull : Fleet → Dict ℕ SlotEntry → List ℕ → Type 0
AllFull f heap slots =
    All (λ a. (s : SlotEntry) → lookup a heap ≡ some s → slot_at_capacity f s ≡ true) slots

admit-full :
    (f : Fleet) (acc : Admission) (s : SlotEntry)
    → (admit f acc s).all_at_capacity ≡ true
    → (acc.all_at_capacity ≡ true) × (slot_at_capacity f s ≡ true)
unfolding admit slot_at_capacity slot_load
admit-full f acc s h = ground (arith, h)

admit_all-AllFull :
    (f : Fleet) (heap : Dict ℕ SlotEntry) (acc : Admission) (slots : List ℕ)
    → (admit_all f heap acc slots).all_at_capacity ≡ true
    → (acc.all_at_capacity ≡ true) × AllFull f heap slots
unfolding admit_all
admit_all-AllFull f heap acc [] h = (h, tt)
admit_all-AllFull f heap acc (a ∷ slots) h = elim (Option-cases (lookup a heap)) [
  | inl missing ↦
      let (before, full) = admit_all-AllFull f heap acc slots (ground (arith, h, missing)) in
      (before, ((λ s e. absurd (ground (arith, e, missing))), full))
  | inr (s, found) ↦
      let (before, full) =
        admit_all-AllFull f heap (admit f acc s) slots (ground (arith, h, found)) in
      let (start, at_capacity) = admit-full f acc s before in
      (
        start,
        (
          (λ t e. subst (λ x. slot_at_capacity f x ≡ true) (ground (arith, e, found)) at_capacity),
          full,
        ),
      )
]

choose-full :
    (f : Fleet) (heap : Dict ℕ SlotEntry) (slots : List ℕ)
    → AllFull f heap slots
    → choose f heap none slots ≡ none
unfolding choose
choose-full f heap [] h = refl
choose-full f heap (a ∷ slots) h = elim (Option-cases (lookup a heap)) [
  | inl missing ↦ ground (arith, missing, choose-full f heap slots h.1)
  | inr (s, found) ↦ ground (arith, found, h.0 s found, choose-full f heap slots h.1)
]

-- `AdmissionStatus` keeps its word. While it says that the group is at capacity, a session that has
-- no slot yet is refused with `ErrMaxSessions`, and nothing changes.
pub admission_refuses :
    (f : Fleet) (upstream : String) (m : Multiplexer)
    → (admission_status f m).0 ≡ true
    → lookup upstream m.by_upstream ≡ none
    → select_for_new_session f upstream m ≡ (err err_max_sessions, m)
unfolding admission_status select_for_new_session
admission_refuses f upstream m h g =
    let full = admit_all-AllFull f m.heap (admission_start m) m.slots (ground (arith, h)) in
    ground (arith, g, choose-full f m.heap m.slots full.1)
