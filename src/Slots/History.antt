-- ===== src/Slots/History.antt =====
-- internal/slots/multiplexer.go: histories of a multiplexer, and what its pending counts are after
-- each.
use vision_mcp_manager.Base.{
  ℕ, ◌*◌, ◌<◌, ◌≡◌, arith, Bool, none, some, String, List, [], ◌∷◌, leb, lookup, string_eq, nat_eq,
}
use vision_mcp_manager.Slots.{
  Entry, SlotEntry, Multiplexer, Fleet, slot_load, slot_at_capacity, select_for_new_session,
  replace_entries, new_multiplexer, set_on_session_removed, release, rebind, report_spawn_result,
}
use vision_mcp_manager.Slots.Binding.{
  bound, Inv, new-Inv, replace_entries-Inv, set_on_session_removed-Inv, select-Inv, release-Inv,
  rebind-Inv, report-Inv,
}

pub data Event : Type 0 where
  replaces : List Entry → Event
  observes : Event
  selects : Fleet → String → Event
  releases : String → Event
  rebinds : String → String → Event
  reports : ℕ → String → Bool → Event

unfoldable pub step : Event → Multiplexer → Multiplexer
step (replaces es) m = replace_entries es m
step observes m = set_on_session_removed m
step (selects f u) m = (select_for_new_session f u m).1
step (releases u) m = release u m
step (rebinds o n) m = rebind o n m
step (reports now key failed) m = report_spawn_result now key failed m

unfoldable pub run : Multiplexer → List Event → Multiplexer
run m [] = m
run m (e ∷ es) = run (step e m) es

-- The key that a session is moved to is not in use.
abbrev pub Free : Event → Multiplexer → Type 0
Free (rebinds o n) m = lookup n m.by_upstream ≡ none
Free _ m = Unit {0}

abbrev pub Orderly : Multiplexer → List Event → Type 0
Orderly m [] = Unit {0}
Orderly m (e ∷ es) = Free e m × Orderly (step e m) es

step-Inv : (e : Event) (m : Multiplexer) → Free e m → Inv m → Inv (step e m)
unfolding step
step-Inv (replaces es) m g v = replace_entries-Inv es m v
step-Inv observes m g v = set_on_session_removed-Inv m v
step-Inv (selects f u) m g v = select-Inv f u m v
step-Inv (releases u) m g v = release-Inv u m v
step-Inv (rebinds o n) m g v = rebind-Inv o n m g v
step-Inv (reports now key failed) m g v = report-Inv now key failed m v

run-Inv : (m : Multiplexer) (es : List Event) → Orderly m es → Inv m → Inv (run m es)
unfolding run
run-Inv m [] g v = v
run-Inv m (e ∷ es) g v = run-Inv (step e m) es g.1 (step-Inv e m g.0 v)

-- The pending counts balance. After every history of a multiplexer in which `Rebind` moves sessions
-- only to keys that are not in use, each slot entry, those that a replacement has dropped included,
-- has as many pending sessions as are bound to it.
pub pending_balance :
    (entries : List Entry) (es : List Event) (a : ℕ) (s : SlotEntry)
    → Orderly (new_multiplexer entries) es
    → lookup a (run (new_multiplexer entries) es).heap ≡ some s
    → s.pending ≡ bound a (run (new_multiplexer entries) es).by_upstream
pending_balance entries es a s g found =
    (run-Inv (new_multiplexer entries) es g (new-Inv entries)).balanced a s found

-- A live session counts twice. After every such history, where a slot's manager has exactly the
-- sessions that are bound to the slot, the load is twice their number; so with a limit of `limit`
-- sessions the slot is at capacity as soon as twice its sessions reach the limit.
pub live_session_counts_twice :
    (entries : List Entry) (es : List Event) (a mgr : ℕ) (s : SlotEntry) (f : Fleet)
    → Orderly (new_multiplexer entries) es
    → lookup a (run (new_multiplexer entries) es).heap ≡ some s
    → s.mgr ≡ some mgr
    → f.session_count mgr ≡ bound a (run (new_multiplexer entries) es).by_upstream
    → 0 < f.max_sessions mgr
    → (slot_load f s ≡ 2 * f.session_count mgr)
      × (slot_at_capacity f s ≡ leb (f.max_sessions mgr) (2 * f.session_count mgr))
unfolding slot_load slot_at_capacity
live_session_counts_twice entries es a mgr s f g found m c p =
    ground (arith, m, c, p, pending_balance entries es a s g found)
