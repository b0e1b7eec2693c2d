-- ===== src/Ownership/Reconcile.antt =====
-- internal/ownership/reconcile.go: the reclaiming of the process groups that earlier daemons left.
-- What the run meets is `World`: the process table, the context, the waiter's wake-ups, the signaler
-- and the store, each by the number of the consultations before. What it does is the log, newest
-- first.
pub mod Safety
pub mod Accounting
mod Examples
use vision_mcp_manager.Base.{
  ℕ, zero, suc, Bool, true, false, not, ◌&&◌, ◌||◌, Option, none, some, String, List, [], ◌∷◌, ltb,
  nat_beq, if◌then◌else◌, ◌==◌, Dict, lookup, string_eq,
}
use vision_mcp_manager.Ownership.Verify.{
  Lease, ServerIdentity, ProcReader, GroupStatus, owned, dead, conflict, unknown, verify_group,
}

pub data Signal : Type 0 where
  sigterm sigkill : Signal

pub data Wake : Type 0 where
  cancelled deadline tick : Wake

pub data Event : Type 0 where
  verified : Lease → GroupStatus → Event
  signalled : ℕ → Signal → Event
  released : String → ℕ → Event

-- `reader` is nil or what the process table is at each consultation; `supported` is whether there
-- is a signaler that supports its work; `stored` and `can_release` are the store's answers.
pub record World : Type 0 where
  pub reader : Option (ℕ → ProcReader)
  pub context_ok : ℕ → Bool
  pub wake : ℕ → Wake
  pub supported : Bool
  pub can_signal : ℕ → Bool
  pub stored : ℕ → String → Option Lease
  pub can_release : ℕ → Bool

pub record Run : Type 0 where
  pub consulted : ℕ
  pub log : List Event

pub data Status : Type 0 where
  error conflict_status removed_dead unsupported reclaimed : Status

pub data Reason : Type 0 where
  no_reason store_unavailable cancelled_reason verification_failed identity_changed : Reason

abbrev pub next : Run → Run
next r = record r { consulted = suc r.consulted }

-- The process table at a consultation.
abbrev pub view : Option (ℕ → ProcReader) → ℕ → Option ProcReader
view none n = none
view (some reader) n = some (reader n)

abbrev pub is_dead : GroupStatus → Bool
is_dead dead = true
is_dead _ = false

abbrev pub is_owned : GroupStatus → Bool
is_owned owned = true
is_owned _ = false

abbrev pub is_conflict : GroupStatus → Bool
is_conflict conflict = true
is_conflict _ = false

abbrev pub is_unknown : GroupStatus → Bool
is_unknown unknown = true
is_unknown _ = false

pub scrub_status : GroupStatus → Status
scrub_status status = if is_conflict status then conflict_status else error

abbrev pub same_lease : Lease → Lease → Bool
same_lease current lease =
    nat_beq current.generation lease.generation
    && (current.daemon_id == lease.daemon_id
        && (current.owner_token_hash == lease.owner_token_hash
            && (current.config_hash == lease.config_hash
                && (nat_beq current.leader_pid lease.leader_pid
                    && (nat_beq current.leader_pgid lease.leader_pgid
                        && (nat_beq current.leader_start lease.leader_start
                            && (current.boot_id == lease.boot_id
                                && current.executable == lease.executable)))))))

module _ (config_hash : ServerIdentity → String) (token_hash : List ℕ → String) (w : World) where
  pub verify : Lease → ServerIdentity → Run → GroupStatus × Run
  verify lease identity r =
      let status = verify_group config_hash token_hash (view w.reader r.consulted) lease identity in
      (status, record r { consulted = suc r.consulted; log = verified lease status ∷ r.log })

  pub check_context : Run → Bool × Run
  check_context r = (w.context_ok r.consulted, next r)

  -- Whether the signal went out without an error; it is in the log either way.
  pub group_signal : Lease → Signal → Run → Bool × Run
  group_signal lease signal r = (
    w.can_signal r.consulted,
    record r { consulted = suc r.consulted; log = signalled lease.leader_pgid signal ∷ r.log },
  )

  -- `releaseIfCurrent(...) == nil`.
  pub release_if_current : String → Lease → Run → Bool × Run
  release_if_current name lease r = elim (w.stored r.consulted name) [
    | none ↦ (false, next r)
    | some current ↦
        if not (same_lease current lease)
        then (false, next r)
        else if w.can_release r.consulted
        then (
          true,
          record r { consulted = suc r.consulted; log = released name lease.generation ∷ r.log },
        )
        else (false, next r)
  ]

  -- The closure that the waiter calls; `none` is the context's error.
  pub verify_live : Lease → ServerIdentity → Run → Option GroupStatus × Run
  unfolding check_context verify
  verify_live lease identity r =
      let (live, r₁) = check_context r in
      if not live
      then (none, r₁)
      else let (status, r₂) = verify lease identity r₁ in (some status, r₂)

  -- The loop of `defaultWaiter.Wait`; at most `rounds` ticks come before the deadline. The result
  -- `none` is the context's error.
  pub wait_rounds : Lease → ServerIdentity → ℕ → Run → Option GroupStatus × Run
  unfolding verify_live check_context verify
  wait_rounds lease identity zero r =
      let (seen, r₁) = verify_live lease identity r in
      elim seen [
        | none ↦ (none, r₁)
        | some status ↦
            if is_dead status || is_conflict status
            then (some status, r₁)
            else elim (w.wake r₁.consulted) [
              | cancelled ↦ (none, next r₁)
              | _ ↦ (some status, next r₁)
            ]
      ]
  wait_rounds lease identity (suc rounds) r =
      let (seen, r₁) = verify_live lease identity r in
      let rest = wait_rounds lease identity rounds (next r₁) in
      elim seen [
        | none ↦ (none, r₁)
        | some status ↦
            if is_dead status || is_conflict status
            then (some status, r₁)
            else elim (w.wake r₁.consulted) [
              | cancelled ↦ (none, next r₁)
              | deadline ↦ (some status, next r₁)
              | tick ↦ rest
            ]
      ]

  -- `Wait`; the limit `none` is a timeout that is not positive.
  pub wait : Lease → ServerIdentity → Option ℕ → Run → Option GroupStatus × Run
  unfolding verify_live wait_rounds
  wait lease identity none r = verify_live lease identity r
  wait lease identity (some rounds) r = wait_rounds lease identity rounds r

  abbrev pub plain : Status → Run → (Status × Reason) × Run
  plain status r = ((status, no_reason), r)

  -- After the context was found good: the release of a group that is dead.
  pub release_dead : Status → String → Lease → Run → (Status × Reason) × Run
  unfolding check_context release_if_current
  release_dead success name lease r =
      let (live, r₁) = check_context r in
      if not live
      then plain conflict_status r₁
      else let (done, r₂) = release_if_current name lease r₁ in
        plain (if done then success else conflict_status) r₂

  -- The context, the group's proof, the context again, and then the signal; `go_on` is what follows
  -- one that went out.
  pub signal_owned :
      Signal
      → Lease
      → ServerIdentity
      → (Run → (Status × Reason) × Run)
      → Run
      → (Status × Reason) × Run
  unfolding check_context verify group_signal
  signal_owned signal lease identity go_on r =
      let (live, r₁) = check_context r in
      if not live
      then plain error r₁
      else let (status, r₂) = verify lease identity r₁ in
        if not (is_owned status)
        then plain (scrub_status status) r₂
        else let (live', r₃) = check_context r₂ in
          if not live'
          then plain error r₃
          else let (sent, r₄) = group_signal lease signal r₃ in
            if not sent then plain error r₄ else go_on r₄

  -- From the wait after SIGKILL on.
  pub after_kill : String → Lease → ServerIdentity → Option ℕ → Run → (Status × Reason) × Run
  unfolding check_context release_if_current wait
  after_kill name lease identity kill_timeout r =
      let (seen, r₁) = wait lease identity kill_timeout r in
      elim seen [
        | none ↦ plain error r₁
        | some status ↦
            if not (is_dead status)
            then plain (if is_conflict status then conflict_status else error) r₁
            else let (live, r₂) = check_context r₁ in
              if not live
              then plain error r₂
              else let (done, r₃) = release_if_current name lease r₂ in
                plain (if done then reclaimed else error) r₃
      ]

  -- From the wait after SIGTERM on.
  pub after_term :
      String → Lease → ServerIdentity → (term kill : Option ℕ) → Run → (Status × Reason) × Run
  unfolding wait release_dead signal_owned after_kill
  after_term name lease identity term_timeout kill_timeout r =
      let (seen, r₁) = wait lease identity term_timeout r in
      elim seen [
        | none ↦ ((error, cancelled_reason), r₁)
        | some status ↦
            if is_conflict status || is_unknown status
            then ((conflict_status, identity_changed), r₁)
            else if is_dead status
            then release_dead reclaimed name lease r₁
            else signal_owned sigkill lease identity (after_kill name lease identity kill_timeout)
                r₁
      ]

  -- A record whose lease could be read and whose server is expected.
  pub reconcile_lease :
      String → Lease → ServerIdentity → (term kill : Option ℕ) → Run → (Status × Reason) × Run
  unfolding verify release_dead signal_owned after_term
  reconcile_lease name lease identity term_timeout kill_timeout r = elim w.reader [
    | none ↦ plain conflict_status r
    | some at ↦
        let (status, r₁) = verify lease identity r in
        if is_conflict status || is_unknown status
        then plain conflict_status r₁
        else if is_dead status
        then release_dead removed_dead name lease r₁
        else if not w.supported
        then plain unsupported r₁
        else signal_owned sigterm lease identity
            (after_term name lease identity term_timeout kill_timeout) r₁
  ]

  -- One of the store's records; a lease that is `none` could not be read.
  pub reconcile_record :
      Dict String ServerIdentity
      → (term kill : Option ℕ) → String
      → Option Lease
      → Run
      → (Status × Reason) × Run
  unfolding reconcile_lease
  reconcile_record expected term_timeout kill_timeout name none r = plain error r
  reconcile_record expected term_timeout kill_timeout name (some lease) r =
      elim (lookup name expected) [
        | none ↦ plain conflict_status r
        | some identity ↦ reconcile_lease name lease identity term_timeout kill_timeout r
      ]

  -- The loop over the store's records.
  pub reconcile_records :
      Dict String ServerIdentity
      → (term kill : Option ℕ) → List (String × Option Lease)
      → Run
      → List (String × (Status × Reason)) × Run
  unfolding reconcile_record
  reconcile_records expected term_timeout kill_timeout [] r = ([], r)
  reconcile_records expected term_timeout kill_timeout ((name, stored) ∷ records) r =
      let (result, r₁) = reconcile_record expected term_timeout kill_timeout name stored r in
      let (results, r₂) = reconcile_records expected term_timeout kill_timeout records r₁ in
      ((name, result) ∷ results, r₂)

  -- `records` is what the store lists, `none` an error or no store with `has_store` false.
  pub reconcile :
      (has_store : Bool)
      → Option (List (String × Option Lease))
      → Dict String ServerIdentity
      → (term kill : Option ℕ) → Run
      → List (String × (Status × Reason)) × Run
  unfolding reconcile_records
  reconcile has_store records expected term_timeout kill_timeout r =
      if not has_store then ([], r) else elim records [
        | none ↦ (("<store>", (error, no_reason)) ∷ [], r)
        | some rs ↦ reconcile_records expected term_timeout kill_timeout rs r
      ]

  abbrev pub find_result : String → List (String × (Status × Reason)) → Option (Status × Reason)
  find_result name [] = none
  find_result name ((n, result) ∷ results) =
      if n == name then some result else find_result name results

  abbrev pub has_record : String → List (String × Option Lease) → Bool
  has_record name [] = false
  has_record name ((n, lease) ∷ records) = n == name || has_record name records

  -- With the same list of the store for both of its readings. The result comes with whether the
  -- name was found.
  pub reconcile_one :
      (has_store : Bool)
      → Option (List (String × Option Lease))
      → String
      → ServerIdentity
      → (term kill : Option ℕ) → Run
      → ((Option Status × Reason) × Bool) × Run
  unfolding reconcile
  reconcile_one has_store records name identity term_timeout kill_timeout r =
      if not has_store then (((some error, no_reason), false), r) else elim records [
        | none ↦ (((some error, store_unavailable), false), r)
        | some rs ↦
            if not (has_record name rs)
            then (((none, no_reason), false), r)
            else let (results, r₁) =
                reconcile has_store (some rs) ((name, identity) ∷ []) term_timeout kill_timeout r in
              elim (find_result name results) [
                | none ↦ (((none, no_reason), false), r₁)
                | some (status, reason) ↦ (((some status, reason), true), r₁)
              ]
      ]
