-- ===== src/Reachability.antt =====
-- internal/reachability/reachability.go: probe evidence for each server and depth. Times are
-- nanoseconds, 0 is the zero `time.Time`, and `now` is what `time.Now` returns. `none` is the panic
-- on a depth that the package does not define. A returned clone is a value.
pub mod Text
pub mod Views
pub mod Verdict
pub mod Overall
pub mod Errors
mod Examples
use vision_mcp_manager.Base.{
  ℕ, suc, ◌+◌, ◌-◌, ◌≡◌, ◌↔◌, refl, arith, String, Bool, true, false, not, ◌||◌, ◌&&◌, Option, none,
  some, List, [], ◌∷◌, ltb, leb, nat_beq, if◌then◌else◌, length, Dict, lookup, insert, erase, Eq,
  ◌==◌, string_eq, nat_beq_iff,
}
use Text.{Runes, safe_error}

pub data State : Type 0 where
  unprobed probing reachable unreachable : State

abbrev pub is_unreachable : State → Bool
is_unreachable unreachable = true
is_unreachable _ = false

-- `unknown` stands for every text that is none of the three depths.
pub data Depth : Type 0 where
  unknown listener session end_to_end : Depth

abbrev pub rank : Depth → ℕ
rank listener = 1
rank session = 2
rank end_to_end = 3
rank unknown = 0

pub rank-injective : (a b : Depth) → rank a ≡ rank b → a ≡ b
rank-injective a b h = ground arith

pub depth_iff : (a b : Depth) → (nat_beq (rank a) (rank b) ≡ true) ↔ (a ≡ b)
depth_iff a b =
    ((λ h. rank-injective a b ((nat_beq_iff (rank a) (rank b)).0 h)), λ e. ground (arith, e))

instance abbrev pub depth_eq : Eq Depth
depth_eq = record { beq = λ a b. nat_beq (rank a) (rank b); beq_iff = depth_iff }

pub data Outcome : Type 0 where
  no_outcome success failure : Outcome

pub data Disposition : Type 0 where
  succeeded failed inconclusive : Disposition

abbrev pub failure_threshold : ℕ
failure_threshold = 3

pub record ProbeEvidence : Type 0 where
  pub depth : Depth
  pub last_probe_attempt : ℕ
  pub last_outcome_at : ℕ
  pub last_probe_outcome : Outcome
  pub last_probe_error : Runes
  pub consecutive_failures : ℕ

-- What a read of a missing key of the evidence map gives.
abbrev pub no_evidence : ProbeEvidence
no_evidence = record {
  depth = unknown;
  last_probe_attempt = 0;
  last_outcome_at = 0;
  last_probe_outcome = no_outcome;
  last_probe_error = [];
  consecutive_failures = 0;
}

pub record ServerRecord : Type 0 where
  pub state : State
  pub evidence : Dict Depth ProbeEvidence
  pub state_by_depth : Dict Depth State
  pub probing : Dict Depth ℕ

abbrev pub Store : Type 0
Store = Dict String ServerRecord

abbrev pub or_else {ℓ} : {A : Type ℓ} → Option A → A → A
or_else none d = d
or_else (some a) d = a

pub any_unreachable : Dict Depth State → Bool
any_unreachable [] = false
any_unreachable ((d, s) ∷ m) = is_unreachable s || any_unreachable m

pub any_probing : Dict Depth ℕ → Bool
any_probing [] = false
any_probing ((d, n) ∷ m) = ltb 0 n || any_probing m

-- The loop for the deepest completed depth.
pub deepest_from : Depth → Dict Depth State → Depth
deepest_from best [] = best
deepest_from best ((d, s) ∷ m) = deepest_from (if ltb (rank best) (rank d) then d else best) m

pub state_for : ServerRecord → State
unfolding any_unreachable any_probing deepest_from
state_for r =
    if nat_beq (length r.evidence) 0
    then unprobed
    else if any_unreachable r.state_by_depth
    then unreachable
    else if any_probing r.probing
    then probing
    else let deepest = deepest_from unknown r.state_by_depth in
      if nat_beq (rank deepest) 0
      then unprobed
      else or_else (lookup deepest r.state_by_depth) unprobed

abbrev pub new_record : ServerRecord
new_record = record { state = unprobed; evidence = []; state_by_depth = []; probing = [] }

-- `ensureRecord`, without the write.
abbrev pub record_of : String → Store → ServerRecord
record_of name s = or_else (lookup name s) new_record

-- The last three lines of every recording operation.
abbrev pub settled : ServerRecord → ServerRecord
settled r = record r { state = state_for r }

abbrev pub time_or_now : ℕ → ℕ → ℕ
time_or_now at now = if nat_beq at 0 then now else at

pub started : Depth → ℕ → ServerRecord → ServerRecord
started depth at r =
    let evidence = or_else (lookup depth r.evidence) no_evidence in
    record r {
      probing = insert depth (suc (or_else (lookup depth r.probing) 0)) r.probing;
      evidence =
          insert depth (record evidence { depth = depth; last_probe_attempt = at }) r.evidence;
    }

pub start_probe : String → Depth → ℕ → ℕ → Store → Option (Store × ServerRecord)
unfolding started state_for
start_probe name depth attempted_at now s =
    if nat_beq (rank depth) 0
    then none
    else let r = settled (started depth (time_or_now attempted_at now) (record_of name s)) in
      some (insert name r s, r)

-- The attempt that ends is no longer counted as running.
abbrev pub joined : Depth → Dict Depth ℕ → Dict Depth ℕ
joined depth m =
    if ltb 0 (or_else (lookup depth m) 0)
    then insert depth (or_else (lookup depth m) 0 - 1) m
    else m

abbrev pub attempted : Depth → ℕ → ServerRecord → ProbeEvidence
attempted depth at r = record (or_else (lookup depth r.evidence) no_evidence) {
  depth = depth;
  last_probe_attempt = at;
}

pub failed_evidence : ℕ → Runes → ProbeEvidence → ProbeEvidence
unfolding safe_error
failed_evidence at error e = record e {
  last_probe_outcome = failure;
  last_outcome_at = at;
  last_probe_error = safe_error error;
  consecutive_failures = suc e.consecutive_failures;
}

pub succeeded_evidence : ℕ → ProbeEvidence → ProbeEvidence
succeeded_evidence at e = record e {
  last_probe_outcome = success;
  last_outcome_at = at;
  last_probe_error = [];
  consecutive_failures = 0;
}

-- The depth's state after a failure that leaves the given streak.
abbrev pub state_after_failure : Depth → ℕ → Dict Depth State → Dict Depth State
state_after_failure depth streak m =
    if leb failure_threshold streak
    then insert depth unreachable m
    else elim (lookup depth m) [ none ↦ insert depth unprobed m | some _ ↦ m ]

pub recorded : Depth → ℕ → Disposition → Runes → ServerRecord → ServerRecord
unfolding failed_evidence succeeded_evidence
recorded depth at inconclusive error r = record r {
  probing = joined depth r.probing;
  evidence = insert depth (attempted depth at r) r.evidence;
}
recorded depth at succeeded error r = record r {
  probing = joined depth r.probing;
  evidence = insert depth (succeeded_evidence at (attempted depth at r)) r.evidence;
  state_by_depth = insert depth reachable r.state_by_depth;
}
recorded depth at failed error r =
    let e = failed_evidence at error (attempted depth at r) in
    record r {
      probing = joined depth r.probing;
      evidence = insert depth e r.evidence;
      state_by_depth = state_after_failure depth e.consecutive_failures r.state_by_depth;
    }

pub record_probe :
    String → Depth → ℕ → Disposition → Runes → ℕ → Store → Option (Store × ServerRecord)
unfolding recorded state_for
record_probe name depth attempted_at disposition error now s =
    if nat_beq (rank depth) 0
    then none
    else let at = time_or_now attempted_at now in
      let r = settled (recorded depth at disposition error (record_of name s)) in
      some (insert name r s, r)

pub failed_definitively : Depth → ℕ → Runes → ServerRecord → ServerRecord
unfolding failed_evidence
failed_definitively depth at cause r = record r {
  probing = joined depth r.probing;
  evidence = insert depth (failed_evidence at cause (attempted depth at r)) r.evidence;
  state_by_depth = insert depth unreachable r.state_by_depth;
}

pub record_definitive_failure :
    String → Depth → ℕ → Runes → ℕ → Store → Option (Store × ServerRecord)
unfolding failed_definitively state_for
record_definitive_failure name depth attempted_at cause now s =
    if nat_beq (rank depth) 0
    then none
    else let at = time_or_now attempted_at now in
      let r = settled (failed_definitively depth at cause (record_of name s)) in
      some (insert name r s, r)

pub get : String → Store → ServerRecord × Bool
get name s = elim (lookup name s) [ none ↦ (new_record, false) | some r ↦ (r, true) ]

pub remove : String → Store → Store
remove name s = erase name s
