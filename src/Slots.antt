-- ===== src/Slots.antt =====
-- internal/slots/multiplexer.go: the multiplexer of a slot group. Slot entries are shared by
-- pointer between the list of slots and the sessions' bindings: `heap` holds them by address. A
-- manager and a health check are pointers too, and `Fleet` is what they answer while a call runs;
-- the clock is read once for each call.
pub mod Binding
pub mod History
pub mod Choice
pub mod Capacity
mod Examples
use vision_mcp_manager.Base.{
  ℕ, zero, suc, ◌+◌, ◌-◌, Bool, true, false, not, ◌&&◌, ◌||◌, Option, none, some, Result, ok, err,
  String, List, [], ◌∷◌, map, ltb, leb, nat_beq, if◌then◌else◌, ◌==◌, Dict, lookup, insert, erase,
  sort, string_eq, nat_eq, length, lookup-insert_self,
}

pub record Entry : Type 0 where
  pub slot_name : String
  pub index : ℕ
  pub manager : Option ℕ
  pub healthy : Option ℕ

-- `quarantined_until` is 0 where the time is zero.
pub record SlotEntry : Type 0 where
  pub slot_name : String
  pub index : ℕ
  pub mgr : Option ℕ
  pub pending : ℕ
  pub healthy : Option ℕ
  pub quarantined_until : ℕ

-- `slots` are addresses; `hooked` are the managers that carry the removal observer, which is
-- `on_session_removed`; `added` is how often a manager has been given it.
pub record Multiplexer : Type 0 where
  pub heap : Dict ℕ SlotEntry
  pub fresh : ℕ
  pub slots : List ℕ
  pub by_upstream : Dict String ℕ
  pub on_session_removed : Bool
  pub hooked : Dict ℕ Bool
  pub added : List ℕ

pub record Fleet : Type 0 where
  pub session_count : ℕ → ℕ
  pub max_sessions : ℕ → ℕ
  pub is_healthy : ℕ → Bool
  pub now : ℕ

pub data SlotError : Type 0 where
  err_max_sessions : SlotError

abbrev pub slot_of : Entry → SlotEntry
slot_of e = record {
  slot_name = e.slot_name;
  index = e.index;
  mgr = e.manager;
  pending = 0;
  healthy = e.healthy;
  quarantined_until = 0;
}

-- An existing entry that takes over the configuration.
abbrev pub updated : Entry → SlotEntry → SlotEntry
updated e s = record s { index = e.index; mgr = e.manager; healthy = e.healthy }

abbrev pub index_at : Dict ℕ SlotEntry → ℕ → ℕ
index_at heap a = elim (lookup a heap) [ none ↦ 0 | some s ↦ s.index ]

abbrev pub index_leb : Dict ℕ SlotEntry → ℕ → ℕ → Bool
index_leb heap a b = leb (index_at heap a) (index_at heap b)

-- `existing` of `ReplaceEntries`: the first of the slots that has the name.
pub find_slot : String → Dict ℕ SlotEntry → List ℕ → Option ℕ
find_slot name heap [] = none
find_slot name heap (a ∷ slots) =
    let rest = find_slot name heap slots in
    elim (lookup a heap) [ none ↦ rest | some s ↦ if s.slot_name == name then some a else rest ]

abbrev pub empty_multiplexer : Multiplexer
empty_multiplexer = record {
  heap = [];
  fresh = 0;
  slots = [];
  by_upstream = [];
  on_session_removed = false;
  hooked = [];
  added = [];
}

-- One entry of `ReplaceEntries`: the slot's address, and the multiplexer with it written.
pub replace_entry : Multiplexer → Entry → ℕ × Multiplexer
unfolding find_slot
replace_entry m e = elim (find_slot e.slot_name m.heap m.slots) [
  | none ↦ (m.fresh, record m { heap = insert m.fresh (slot_of e) m.heap; fresh = suc m.fresh })
  | some a ↦ elim (lookup a m.heap) [
    | none ↦ (a, m)
    | some s ↦ (a, record m { heap = insert a (updated e s) m.heap })
  ]
]

pub replace_all : Multiplexer → List Entry → List ℕ × Multiplexer
unfolding replace_entry
replace_all m [] = ([], m)
replace_all m (e ∷ es) =
    let (a, m') = replace_entry m e in let (rest, m'') = replace_all m' es in (a ∷ rest, m'')

pub apply_removal_hook : Multiplexer → Option ℕ → Multiplexer
apply_removal_hook m none = m
apply_removal_hook m (some mgr) = elim (lookup mgr m.hooked) [
  | none ↦
      if m.on_session_removed
      then record m { hooked = insert mgr true m.hooked; added = mgr ∷ m.added }
      else m
  | some _ ↦ m
]

pub apply_hooks : Multiplexer → List (Option ℕ) → Multiplexer
unfolding apply_removal_hook
apply_hooks m [] = m
apply_hooks m (mgr ∷ mgrs) = apply_hooks (apply_removal_hook m mgr) mgrs

-- The managers of the slots, in order.
abbrev pub managers_of : Dict ℕ SlotEntry → List ℕ → List (Option ℕ)
managers_of heap [] = []
managers_of heap (a ∷ slots) =
    elim (lookup a heap) [ none ↦ none | some s ↦ s.mgr ] ∷ managers_of heap slots

-- The slots are sorted by their index (`sort.Slice` fixes no order among equal ones).
pub replace_entries : List Entry → Multiplexer → Multiplexer
unfolding replace_all apply_hooks
replace_entries es m =
    let (addresses, m') = replace_all m es in
    let m'' = record m' { slots = sort (index_leb m'.heap) addresses } in
    apply_hooks m'' (managers_of m''.heap m''.slots)

-- Each entry makes a slot of its own.
pub allocate : Multiplexer → List Entry → List ℕ × Multiplexer
allocate m [] = ([], m)
allocate m (e ∷ es) =
    let m' = record m { heap = insert m.fresh (slot_of e) m.heap; fresh = suc m.fresh } in
    let (rest, m'') = allocate m' es in (m.fresh ∷ rest, m'')

pub new_multiplexer : List Entry → Multiplexer
unfolding allocate
new_multiplexer es =
    let (addresses, m) = allocate empty_multiplexer es in
    record m { slots = sort (index_leb m.heap) addresses }

pub set_on_session_removed : Multiplexer → Multiplexer
unfolding apply_hooks
set_on_session_removed m =
    apply_hooks (record m { on_session_removed = true }) (managers_of m.heap m.slots)

pub slot_load : Fleet → SlotEntry → ℕ
slot_load f s = s.pending + elim s.mgr [ none ↦ 0 | some mgr ↦ f.session_count mgr ]

pub slot_at_capacity : Fleet → SlotEntry → Bool
unfolding slot_load
slot_at_capacity f s = elim s.mgr [
  | none ↦ false
  | some mgr ↦
      if nat_beq (f.max_sessions mgr) 0 then false else leb (f.max_sessions mgr) (slot_load f s)
]

pub slot_healthy : Fleet → SlotEntry → Bool
slot_healthy f s =
    if elim s.healthy [ none ↦ false | some check ↦ not (f.is_healthy check) ]
    then false
    else if not (nat_beq s.quarantined_until 0) && ltb f.now s.quarantined_until
    then false
    else true

-- `slot` takes the place of `chosen`.
pub better : Fleet → SlotEntry → SlotEntry → Bool
unfolding slot_load
better f slot chosen =
    ltb (slot_load f slot) (slot_load f chosen)
    || (nat_beq (slot_load f slot) (slot_load f chosen) && ltb slot.index chosen.index)

abbrev pub takes : Fleet → SlotEntry → Option (ℕ × SlotEntry) → Bool
takes f slot none = true
takes f slot (some (a, chosen)) = better f slot chosen

-- The loop over the slots, with `chosen`.
pub choose : Fleet → Dict ℕ SlotEntry → Option (ℕ × SlotEntry) → List ℕ → Option (ℕ × SlotEntry)
unfolding slot_healthy slot_at_capacity better
choose f heap chosen [] = chosen
choose f heap chosen (a ∷ slots) = elim (lookup a heap) [
  | none ↦ choose f heap chosen slots
  | some slot ↦
      if not (slot_healthy f slot)
      then choose f heap chosen slots
      else if slot_at_capacity f slot
      then choose f heap chosen slots
      else if takes f slot chosen
      then choose f heap (some (a, slot)) slots
      else choose f heap chosen slots
]

abbrev pub manager_at : Dict ℕ SlotEntry → ℕ → Option ℕ
manager_at heap a = elim (lookup a heap) [ none ↦ none | some s ↦ s.mgr ]

pub select_for_new_session :
    Fleet → String → Multiplexer → Result SlotError (Option ℕ) × Multiplexer
unfolding choose
select_for_new_session f upstream m = elim (lookup upstream m.by_upstream) [
  | some a ↦ (ok (manager_at m.heap a), m)
  | none ↦ elim (choose f m.heap none m.slots) [
    | none ↦ (err err_max_sessions, m)
    | some (a, slot) ↦ (
      ok slot.mgr,
      record m {
        heap = insert a (record slot { pending = suc slot.pending }) m.heap;
        by_upstream = insert upstream a m.by_upstream;
      },
    )
  ]
]

abbrev pub released : SlotEntry → SlotEntry
released s = record s { pending = s.pending - 1 }

-- `if entry.pending > 0 { entry.pending-- }` is subtraction that stops at 0.
pub release : String → Multiplexer → Multiplexer
release upstream m = elim (lookup upstream m.by_upstream) [
  | none ↦ m
  | some a ↦
      let m' = record m { by_upstream = erase upstream m.by_upstream } in
      elim (lookup a m.heap) [
        | none ↦ m'
        | some s ↦ record m' { heap = insert a (released s) m'.heap }
      ]
]

pub rebind : (old_key new_key : String) → Multiplexer → Multiplexer
rebind old_key new_key m = elim (lookup old_key m.by_upstream) [
  | none ↦ m
  | some a ↦ record m { by_upstream = insert new_key a (erase old_key m.by_upstream) }
]

pub report_spawn_result : (now : ℕ) → String → (failed : Bool) → Multiplexer → Multiplexer
report_spawn_result now key failed m = elim (lookup key m.by_upstream) [
  | none ↦ m
  | some a ↦ elim (lookup a m.heap) [
    | none ↦ m
    | some s ↦ record m {
      heap =
          insert a (record s { quarantined_until = if failed then now + 2000000000 else 0 }) m.heap;
    }
  ]
]

pub record Admission : Type 0 where
  pub has_unlimited : Bool
  pub all_at_capacity : Bool
  pub current : ℕ
  pub max : ℕ

-- The body of the loop of `AdmissionStatus`.
pub admit : Fleet → Admission → SlotEntry → Admission
unfolding slot_load
admit f acc s =
    let counted = record acc { current = acc.current + slot_load f s } in
    elim s.mgr [
      | none ↦ record counted { all_at_capacity = false }
      | some mgr ↦
          if nat_beq (f.max_sessions mgr) 0
          then record counted { has_unlimited = true; all_at_capacity = false }
          else record counted {
            max = acc.max + f.max_sessions mgr;
            all_at_capacity =
                if ltb (slot_load f s) (f.max_sessions mgr) then false else acc.all_at_capacity;
          }
    ]

pub admit_all : Fleet → Dict ℕ SlotEntry → Admission → List ℕ → Admission
unfolding admit
admit_all f heap acc [] = acc
admit_all f heap acc (a ∷ slots) = elim (lookup a heap) [
  | none ↦ admit_all f heap acc slots
  | some s ↦ admit_all f heap (admit f acc s) slots
]

abbrev pub admission_start : Multiplexer → Admission
admission_start m = record {
  has_unlimited = false;
  all_at_capacity = ltb 0 (length m.slots);
  current = 0;
  max = 0;
}

pub admission_status : Fleet → Multiplexer → Bool × (ℕ × ℕ)
unfolding admit_all
admission_status f m =
    let acc = admit_all f m.heap (admission_start m) m.slots in
    if acc.has_unlimited
    then (false, (acc.current, 0))
    else (acc.all_at_capacity, (acc.current, acc.max))
