-- ===== src/Slots/Choice.antt =====
-- internal/slots/multiplexer.go: which slot `SelectForNewSession` takes.
use vision_mcp_manager.Base.{
  ℕ, suc, ◌≡◌, ◌≤◌, ◌<◌, ◌⊎◌, sym, inl, inr, subst, arith, Bool, true, false, not, ◌&&◌, Option,
  none, some, Result, ok, err, String, List, [], ◌∷◌, Bool-cases, Option-cases, All, Dict, lookup,
  insert, string_eq, nat_eq,
}
use vision_mcp_manager.Slots.{
  SlotEntry, slot_load, Multiplexer, Fleet, SlotError, err_max_sessions, slot_at_capacity,
  slot_healthy, better, choose, takes, select_for_new_session,
}

abbrev pub eligible : Fleet → SlotEntry → Bool
eligible f s = slot_healthy f s && not (slot_at_capacity f s)

-- The choice is at least as good as the slot.
abbrev pub AsGood : Fleet → Option (ℕ × SlotEntry) → SlotEntry → Type 0
AsGood f none s = ⊥
AsGood f (some (a, chosen)) s = better f s chosen ≡ false

-- The choice is at least as good as what is at the address, if that is eligible.
abbrev pub AsGoodAt : Fleet → Dict ℕ SlotEntry → Option (ℕ × SlotEntry) → ℕ → Type 0
AsGoodAt f heap choice b =
    (s : SlotEntry) → lookup b heap ≡ some s → eligible f s ≡ true → AsGood f choice s

-- The choice is an eligible slot.
abbrev pub Valid : Fleet → Dict ℕ SlotEntry → Option (ℕ × SlotEntry) → Type 0
Valid f heap none = Unit {0}
Valid f heap (some (a, chosen)) = (lookup a heap ≡ some chosen) × (eligible f chosen ≡ true)

abbrev pub AsGoodAs : Fleet → Option (ℕ × SlotEntry) → Option (ℕ × SlotEntry) → Type 0
AsGoodAs f choice none = Unit {0}
AsGoodAs f choice (some (b, s)) = AsGood f choice s

better-not_refl : (f : Fleet) (s : SlotEntry) → better f s s ≡ false
unfolding better
better-not_refl f s = ground arith

-- What takes the place of a slot is as good as whatever that was as good as.
as_good_trans :
    (f : Fleet) (choice : Option (ℕ × SlotEntry)) (s t : SlotEntry)
    → AsGood f choice s
    → better f t s ≡ false
    → AsGood f choice t
unfolding better
as_good_trans f none s t g h = g
as_good_trans f (some (a, chosen)) s t g h = ground (arith, g, h)

better-asym : (f : Fleet) (s t : SlotEntry) → better f s t ≡ true → better f t s ≡ false
unfolding better
better-asym f s t h = ground (arith, h)

abbrev pub Best :
    Fleet → Dict ℕ SlotEntry → Option (ℕ × SlotEntry) → List ℕ → Option (ℕ × SlotEntry) → Type 0
Best f heap chosen slots choice =
    Valid f heap choice × AsGoodAs f choice chosen × All (AsGoodAt f heap choice) slots

choose-missing :
    (f : Fleet) (heap : Dict ℕ SlotEntry) (chosen : Option (ℕ × SlotEntry)) (a : ℕ) (slots : List ℕ)
    → lookup a heap ≡ none
    → choose f heap chosen (a ∷ slots) ≡ choose f heap chosen slots
unfolding choose
choose-missing f heap chosen a slots h = ground (arith, h)

choose-refused :
    (f : Fleet) (heap : Dict ℕ SlotEntry) (chosen : Option (ℕ × SlotEntry)) (a : ℕ) (slots : List ℕ)
    (s : SlotEntry)
    → lookup a heap ≡ some s
    → (eligible f s && takes f s chosen) ≡ false
    → choose f heap chosen (a ∷ slots) ≡ choose f heap chosen slots
unfolding choose
choose-refused f heap chosen a slots s h g = ground (arith, h, g)

choose-taken :
    (f : Fleet) (heap : Dict ℕ SlotEntry) (chosen : Option (ℕ × SlotEntry)) (a : ℕ) (slots : List ℕ)
    (s : SlotEntry)
    → lookup a heap ≡ some s
    → eligible f s ≡ true
    → takes f s chosen ≡ true
    → choose f heap chosen (a ∷ slots) ≡ choose f heap (some (a, s)) slots
unfolding choose
choose-taken f heap chosen a slots s h g t = ground (arith, h, g, t)

-- A choice that is as good as a slot that took over is as good as the one before.
took_over :
    (f : Fleet) (choice chosen : Option (ℕ × SlotEntry)) (s : SlotEntry)
    → takes f s chosen ≡ true
    → AsGood f choice s
    → AsGoodAs f choice chosen
took_over f choice none s t g = tt
took_over f choice (some (b, c)) s t g = as_good_trans f choice s c g (better-asym f s c t)

kept :
    (f : Fleet) (choice chosen : Option (ℕ × SlotEntry)) (s : SlotEntry)
    → takes f s chosen ≡ false
    → AsGoodAs f choice chosen
    → AsGood f choice s
kept f choice none s t g = absurd (cc)
kept f choice (some (b, c)) s t g = as_good_trans f choice c s g t

refl-AsGoodAs :
    (f : Fleet) (heap : Dict ℕ SlotEntry) (chosen : Option (ℕ × SlotEntry))
    → AsGoodAs f chosen chosen
refl-AsGoodAs f heap none = tt
refl-AsGoodAs f heap (some (a, s)) = better-not_refl f s

ineligible : (f : Fleet) (s t : SlotEntry) → s ≡ t → eligible f s ≡ false → eligible f t ≡ true → ⊥
ineligible f s t e h g = absurd (ground (arith, subst (λ x. eligible f x ≡ false) e h, g))

moved :
    (f : Fleet) (heap : Dict ℕ SlotEntry) (chosen : Option (ℕ × SlotEntry)) (a : ℕ) (slots : List ℕ)
    {choice : Option (ℕ × SlotEntry)}
    → choose f heap chosen (a ∷ slots) ≡ choice
    → Best f heap chosen (a ∷ slots) choice
    → Best f heap chosen (a ∷ slots) (choose f heap chosen (a ∷ slots))
moved f heap chosen a slots e = subst (Best f heap chosen (a ∷ slots)) (sym e)

pub choose-Best :
    (f : Fleet) (heap : Dict ℕ SlotEntry) (chosen : Option (ℕ × SlotEntry)) (slots : List ℕ)
    → Valid f heap chosen
    → Best f heap chosen slots (choose f heap chosen slots)
choose-Best f heap chosen [] v = unfold choose in (v, refl-AsGoodAs f heap chosen, tt)
choose-Best f heap chosen (a ∷ slots) v =
    let rest = choose-Best f heap chosen slots v in
    elim (Option-cases (lookup a heap)) [
      | inl missing ↦
          moved f heap chosen a slots (choose-missing f heap chosen a slots missing)
            (rest.0, rest.1, ((λ s e g. absurd (ground (arith, e, missing))), rest.2))
      | inr (s, found) ↦
          let same : (t : SlotEntry) → lookup a heap ≡ some t → s ≡ t =
            λ t e. ground (arith, e, found) in
          elim (Bool-cases (eligible f s)) [
            | inr refused ↦
                moved f heap chosen a slots
                  (choose-refused f heap chosen a slots s found (ground (arith, refused)))
                  (
                    rest.0,
                    rest.1,
                    ((λ t e g. absurd (ineligible f s t (same t e) refused g)), rest.2),
                  )
            | inl good ↦ elim (Bool-cases (takes f s chosen)) [
              | inr stays ↦
                  moved f heap chosen a slots
                    (choose-refused f heap chosen a slots s found (ground (arith, stays)))
                    (
                      rest.0,
                      rest.1,
                      (
                        (λ t e g.
                            subst (AsGood f (choose f heap chosen slots)) (same t e)
                              (kept f _ chosen s stays rest.1)),
                        rest.2,
                      ),
                    )
              | inl goes ↦
                  let after = choose-Best f heap (some (a, s)) slots (found, good) in
                  moved f heap chosen a slots (choose-taken f heap chosen a slots s found good goes)
                    (
                      after.0,
                      took_over f _ chosen s goes after.1,
                      (
                        (λ t e g.
                            subst (AsGood f (choose f heap (some (a, s)) slots)) (same t e)
                              after.1),
                        after.2,
                      ),
                    )
            ]
          ]
    ]

-- What `SelectForNewSession` makes of a choice for a session that has no slot yet.
abbrev pub taken :
    String → Multiplexer → Option (ℕ × SlotEntry) → Result SlotError (Option ℕ) × Multiplexer
taken upstream m none = (err err_max_sessions, m)
taken upstream m (some (a, slot)) = (
  ok slot.mgr,
  record m {
    heap = insert a (record slot { pending = suc slot.pending }) m.heap;
    by_upstream = insert upstream a m.by_upstream;
  },
)

-- The choice has less load than the slot, or the same and an index that is not higher.
abbrev pub Lighter : Fleet → Option (ℕ × SlotEntry) → SlotEntry → Type 0
Lighter f none s = ⊥
Lighter f (some (a, chosen)) s =
    (slot_load f chosen < slot_load f s)
    ⊎ ((slot_load f chosen ≡ slot_load f s) × (chosen.index ≤ s.index))

-- The same of what is at the address, if that is eligible.
abbrev pub LighterAt : Fleet → Dict ℕ SlotEntry → Option (ℕ × SlotEntry) → ℕ → Type 0
LighterAt f heap choice b =
    (s : SlotEntry) → lookup b heap ≡ some s → eligible f s ≡ true → Lighter f choice s

AsGood-Lighter :
    (f : Fleet) (choice : Option (ℕ × SlotEntry)) (s : SlotEntry)
    → AsGood f choice s
    → Lighter f choice s
unfolding better
AsGood-Lighter f none s g = g
AsGood-Lighter f (some (a, chosen)) s g = ground (arith, g)

All-LighterAt :
    (f : Fleet) (heap : Dict ℕ SlotEntry) (choice : Option (ℕ × SlotEntry)) (slots : List ℕ)
    → All (AsGoodAt f heap choice) slots
    → All (LighterAt f heap choice) slots
All-LighterAt f heap choice [] h = tt
All-LighterAt f heap choice (a ∷ slots) h =
    ((λ s e g. AsGood-Lighter f choice s (h.0 s e g)), All-LighterAt f heap choice slots h.1)

-- The least-loaded healthy slot. A session that has no slot yet is bound to a slot that is healthy,
-- not quarantined and below its manager's limit, with the least load among those and the lowest
-- index among the least loaded, and it counts there as pending; where no slot is such, the answer
-- is `ErrMaxSessions` and nothing changes.
pub least_loaded :
    (f : Fleet) (upstream : String) (m : Multiplexer)
    → lookup upstream m.by_upstream ≡ none
    → (choice : Option (ℕ × SlotEntry)) × Valid f m.heap choice
      × All (LighterAt f m.heap choice) m.slots
      × (select_for_new_session f upstream m ≡ taken upstream m choice)
unfolding select_for_new_session
least_loaded f upstream m h =
    let choice = choose f m.heap none m.slots in
    let (valid, as_good, all) = choose-Best f m.heap none m.slots tt in
    (choice, valid, All-LighterAt f m.heap choice m.slots all, ground (arith, h))
