-- ===== src/Reachability/Views.antt =====
-- internal/reachability/reachability.go: the store seen one server and one depth at a time. Each
-- operation is a step of an abstract streak counter at its own server and depth, and touches no
-- other.
use vision_mcp_manager.Base.{
  ℕ, suc, ◌≡◌, ◌≢◌, ap, ◌∙◌, inl, inr, arith, String, true, Option, some, leb, if◌then◌else◌,
  lookup, insert, ◌==◌, string_eq, ==_iff, ==_refl, lookup-insert, lookup-insert_self, Bool-cases,
}
use vision_mcp_manager.Reachability.Text.{Runes}
use vision_mcp_manager.Reachability.{
  get, unknown, State, unprobed, reachable, unreachable, Depth, depth_eq, depth_iff, Outcome,
  success, failure, Disposition, succeeded, failed, inconclusive, no_evidence, ServerRecord, Store,
  or_else, record_of, settled, time_or_now, started, start_probe, attempted, failed_evidence,
  succeeded_evidence, recorded, record_probe, failed_definitively, record_definitive_failure,
}

-- What is known of a server at a depth: the attempts that failed in a row, the last completed
-- outcome, its time, and the verdict, which is missing until an attempt has completed.
pub record View : Type 0 where
  pub streak : ℕ
  pub outcome : Outcome
  pub outcome_at : ℕ
  pub verdict : Option State

abbrev pub view_of : Depth → ServerRecord → View
view_of d r =
    let e = or_else (lookup d r.evidence) no_evidence in
    record {
      streak = e.consecutive_failures;
      outcome = e.last_probe_outcome;
      outcome_at = e.last_outcome_at;
      verdict = lookup d r.state_by_depth;
    }

abbrev pub view : String → Depth → Store → View
view name d s = view_of d (record_of name s)

-- The abstract counter: three failures in a row make a depth unreachable, one success makes it
-- reachable, fewer failures keep the verdict there is, and an inconclusive attempt changes nothing.
pub data Event : Type 0 where
  attempt : Disposition → Event
  terminal_failure : Event

abbrev pub advance : Event → ℕ → View → View
advance (attempt inconclusive) at v = v
advance (attempt succeeded) at v = record {
  streak = 0;
  outcome = success;
  outcome_at = at;
  verdict = some reachable;
}
advance (attempt failed) at v = record {
  streak = suc v.streak;
  outcome = failure;
  outcome_at = at;
  verdict = if leb 3 (suc v.streak) then some unreachable else some (or_else v.verdict unprobed);
}
advance terminal_failure at v = record {
  streak = suc v.streak;
  outcome = failure;
  outcome_at = at;
  verdict = some unreachable;
}

recorded-view :
    (depth d : Depth) (at : ℕ) (disposition : Disposition) (error : Runes) (r : ServerRecord)
    → view_of d (recorded depth at disposition error r)
      ≡ (if depth == d then advance (attempt disposition) at (view_of d r) else view_of d r)
unfolding recorded failed_evidence
recorded-view depth d at inconclusive error r =
    ground (arith, lookup-insert depth d (attempted depth at r) r.evidence, depth_iff depth d)
recorded-view depth d at succeeded error r = ground (
  arith,
  lookup-insert depth d (succeeded_evidence at (attempted depth at r)) r.evidence,
  lookup-insert depth d reachable r.state_by_depth,
  depth_iff depth d,
)
recorded-view depth d at failed error r = ground (
  arith,
  lookup-insert depth d (failed_evidence at error (attempted depth at r)) r.evidence,
  lookup-insert depth d unreachable r.state_by_depth,
  lookup-insert depth d unprobed r.state_by_depth,
  depth_iff depth d,
)

failed_definitively-view :
    (depth d : Depth) (at : ℕ) (cause : Runes) (r : ServerRecord)
    → view_of d (failed_definitively depth at cause r)
      ≡ (if depth == d then advance terminal_failure at (view_of d r) else view_of d r)
unfolding failed_definitively failed_evidence
failed_definitively-view depth d at cause r = ground (
  arith,
  lookup-insert depth d (failed_evidence at cause (attempted depth at r)) r.evidence,
  lookup-insert depth d unreachable r.state_by_depth,
  depth_iff depth d,
)

started-view :
    (depth d : Depth) (at : ℕ) (r : ServerRecord) → view_of d (started depth at r) ≡ view_of d r
unfolding started
started-view depth d at r =
    ground (arith, lookup-insert depth d (attempted depth at r) r.evidence, depth_iff depth d)

-- A call of one of the three recording operations.
pub data Call : Type 0 where
  starts : String → Depth → ℕ → Call
  records : String → Depth → ℕ → Disposition → Runes → Call
  fails : String → Depth → ℕ → Runes → Call

unfoldable pub apply : Call → ℕ → Store → Option (Store × ServerRecord)
apply (starts name depth at) now s = start_probe name depth at now s
apply (records name depth at disposition error) now s =
    record_probe name depth at disposition error now s
apply (fails name depth at cause) now s = record_definitive_failure name depth at cause now s

abbrev pub server : Call → String
server (starts name depth at) = name
server (records name depth at disposition error) = name
server (fails name depth at cause) = name

abbrev pub depth_of : Call → Depth
depth_of (starts name depth at) = depth
depth_of (records name depth at disposition error) = depth
depth_of (fails name depth at cause) = depth

-- What a call does to the view of its own server and depth.
abbrev pub effect : Call → ℕ → View → View
effect (starts name depth at) now v = v
effect (records name depth at disposition error) now v =
    advance (attempt disposition) (time_or_now at now) v
effect (fails name depth at cause) now v = advance terminal_failure (time_or_now at now) v

-- The record that a call makes of its server's.
abbrev pub changed : Call → ℕ → ServerRecord → ServerRecord
changed (starts name depth at) now r = settled (started depth (time_or_now at now) r)
changed (records name depth at disposition error) now r =
    settled (recorded depth (time_or_now at now) disposition error r)
changed (fails name depth at cause) now r =
    settled (failed_definitively depth (time_or_now at now) cause r)

pub apply-cases :
    (c : Call) (now : ℕ) (s s' : Store) (r : ServerRecord)
    → apply c now s ≡ some (s', r)
    → (r ≡ changed c now (record_of (server c) s))
      × (s' ≡ insert (server c) r s)
      × (depth_of c ≢ unknown)
unfolding apply start_probe record_probe record_definitive_failure
apply-cases (starts name depth at) now s s' r e = ground arith
apply-cases (records name depth at disposition error) now s s' r e = ground arith
apply-cases (fails name depth at cause) now s s' r e = ground arith

changed-view :
    (c : Call) (now : ℕ) (d : Depth) (r : ServerRecord)
    → view_of d (changed c now r)
      ≡ (if depth_of c == d then effect c now (view_of d r) else view_of d r)
changed-view (starts name depth at) now d r =
    ground (arith, started-view depth d (time_or_now at now) r)
changed-view (records name depth at disposition error) now d r =
    recorded-view depth d (time_or_now at now) disposition error r
changed-view (fails name depth at cause) now d r =
    failed_definitively-view depth d (time_or_now at now) cause r

pub record_of-insert :
    (name other : String) (r : ServerRecord) (s : Store)
    → record_of other (insert name r s) ≡ (if name == other then r else record_of other s)
record_of-insert name other r s = ground (arith, lookup-insert name other r s)

-- The store refines one abstract counter for each server and depth: an accepted call advances the
-- counter of its own server and depth as the event says, and leaves those of every other server
-- and of every other depth alone; and `Get` then gives the record that the call returned.
pub apply_refines :
    (c : Call) (now : ℕ) (s s' : Store) (r : ServerRecord) (other : String) (d : Depth)
    → apply c now s ≡ some (s', r)
    → (view other d s' ≡ (
        if server c == other
        then if depth_of c == d then effect c now (view other d s) else view other d s
        else view other d s))
      × (get (server c) s' ≡ (r, true))
unfolding get
apply_refines c now s s' r other d e =
    let (r-eq, s'-eq, _) = apply-cases c now s s' r e in
    (
      ap (view other d) s'-eq
          ∙ ap (view_of d) (record_of-insert (server c) other r s)
          ∙ (elim (Bool-cases (server c == other)) [
            | inl hit ↦
                rw (← (==_iff (server c) other).0 hit, ==_refl (server c))
                  (ap (view_of d) r-eq ∙ changed-view c now d (record_of (server c) s))
            | inr miss ↦ rw miss
          ]),
      rw (s'-eq, get, lookup-insert_self (server c) r s),
    )
