-- ===== src/Ownership/Reconcile/Safety.antt =====
-- internal/ownership/reconcile.go: only proven groups are signalled, only dead ones released.
use vision_mcp_manager.Base.{
  ℕ, zero, suc, ◌≡◌, ap, subst, arith, Bool, true, false, Option, none, some, String, List, [], ◌∷◌,
  Option-branches, Dict, lookup, string_eq,
}
use vision_mcp_manager.Ownership.Verify.{Lease, ServerIdentity, GroupStatus, owned, dead}
use vision_mcp_manager.Ownership.Reconcile.{
  Signal, sigterm, sigkill, Event, verified, signalled, released, World, Run, Status, Reason,
  verify, check_context, group_signal, release_if_current, verify_live, wait_rounds, wait,
  release_dead, signal_owned, after_kill, after_term, reconcile_lease, reconcile_record,
  reconcile_records, reconcile, removed_dead, reclaimed, next,
}

-- The newest event is a proof of the group that found it owned.
abbrev pub ProvedOwned : ℕ → List Event → Type 0
ProvedOwned pgid (verified l s ∷ es) = (l.leader_pgid ≡ pgid) × (s ≡ owned)
ProvedOwned pgid es = ⊥

-- The newest event is a proof of a lease of the generation that found its group dead.
abbrev pub ProvedDead : ℕ → List Event → Type 0
ProvedDead generation (verified l s ∷ es) = (l.generation ≡ generation) × (s ≡ dead)
ProvedDead generation es = ⊥

abbrev pub Justified : List Event → Type 0
Justified [] = Unit {0}
Justified (verified l s ∷ es) = Justified es
Justified (signalled pgid signal ∷ es) = ProvedOwned pgid es × Justified es
Justified (released name generation ∷ es) = ProvedDead generation es × Justified es

-- The newest event is a proof of this lease with this result.
abbrev Latest : Lease → GroupStatus → List Event → Type 0
Latest lease status (verified l s ∷ es) = (l ≡ lease) × (s ≡ status)
Latest lease status es = ⊥

Latest-ProvedDead :
    (lease : Lease) (es : List Event) → Latest lease dead es → ProvedDead lease.generation es
Latest-ProvedDead lease [] h = elim h [ ]
Latest-ProvedDead lease (signalled pgid signal ∷ es) h = elim h [ ]
Latest-ProvedDead lease (released name generation ∷ es) h = elim h [ ]
Latest-ProvedDead lease (verified l s ∷ es) h = (ap (λ x. x.generation) h.0, h.1)

module _ (config_hash : ServerIdentity → String) (token_hash : List ℕ → String) (w : World) where
  -- What a wait that starts with a justified log ends with.
  abbrev Waited : Lease → Option GroupStatus × Run → Type 0
  Waited lease (none, r) = Justified r.log
  Waited lease (some status, r) = Justified r.log × Latest lease status r.log

  verify_live-Waited :
      (lease : Lease) (identity : ServerIdentity) (r : Run)
      → Justified r.log
      → Waited lease (verify_live config_hash token_hash w lease identity r)
  unfolding verify_live check_context verify
  verify_live-Waited lease identity r j = ground arith

  Waited-Justified :
      (lease : Lease) (x : Option GroupStatus × Run) → Waited lease x → Justified x.1.log
  Waited-Justified lease (none, r) h = h
  Waited-Justified lease (some status, r) h = h.0

  -- A wait that ends with a dead group has the proof of it last.
  Waited-ProvedDead :
      (lease : Lease) (x : Option GroupStatus × Run)
      → Waited lease x
      → x.0 ≡ some dead
      → ProvedDead lease.generation x.1.log
  Waited-ProvedDead lease (none, r) h e = absurd (cc)
  Waited-ProvedDead lease (some status, r) h e =
      let is : status ≡ dead = ground (arith, e) in
      Latest-ProvedDead lease r.log (subst (λ s. Latest lease s r.log) is h.1)

  wait_rounds-Waited :
      (lease : Lease) (identity : ServerIdentity) (rounds : ℕ) (r : Run)
      → Justified r.log
      → Waited lease (wait_rounds config_hash token_hash w lease identity rounds r)
  unfolding wait_rounds
  wait_rounds-Waited lease identity zero r j = ground (arith, verify_live-Waited lease identity r j)
  wait_rounds-Waited lease identity (suc rounds) r j =
      let seen = verify_live-Waited lease identity r j in
      let rest =
        wait_rounds-Waited lease identity rounds
          (next (verify_live config_hash token_hash w lease identity r).1)
          (Waited-Justified lease (verify_live config_hash token_hash w lease identity r) seen) in
      ground (arith, seen, rest)

  wait-Waited :
      (lease : Lease) (identity : ServerIdentity) (limit : Option ℕ) (r : Run)
      → Justified r.log
      → Waited lease (wait config_hash token_hash w lease identity limit r)
  unfolding wait
  wait-Waited lease identity none r j = verify_live-Waited lease identity r j
  wait-Waited lease identity (some rounds) r j = wait_rounds-Waited lease identity rounds r j

  release_dead-Justified :
      (success : Status) (name : String) (lease : Lease) (r : Run)
      → Justified r.log
      → Latest lease dead r.log
      → Justified (release_dead config_hash token_hash w success name lease r).1.log
  unfolding release_dead check_context release_if_current
  release_dead-Justified success name lease r j l = ground (arith, Latest-ProvedDead lease r.log l)

  signal_owned-Justified :
      (signal : Signal) (lease : Lease) (identity : ServerIdentity)
      (go_on : Run → (Status × Reason) × Run) (r : Run)
      → ((q : Run) → Justified q.log → Justified (go_on q).1.log)
      → Justified r.log
      → Justified (signal_owned config_hash token_hash w signal lease identity go_on r).1.log
  unfolding signal_owned check_context verify group_signal
  signal_owned-Justified signal lease identity go_on r f j = ground (
    arith,
    f (record {
      consulted = suc (suc (suc (suc r.consulted)));
      log =
          signalled lease.leader_pgid signal
          ∷ (verify config_hash token_hash w lease identity (next r)).1.log;
    }),
  )

  after_kill-Justified :
      (name : String) (lease : Lease) (identity : ServerIdentity) (limit : Option ℕ) (r : Run)
      → Justified r.log
      → Justified (after_kill config_hash token_hash w name lease identity limit r).1.log
  unfolding after_kill check_context release_if_current
  after_kill-Justified name lease identity limit r j =
      let seen = wait-Waited lease identity limit r j in
      let proved =
        Waited-ProvedDead lease (wait config_hash token_hash w lease identity limit r) seen in
      ground (arith, seen, proved)

  after_term-Justified :
      (name : String) (lease : Lease) (identity : ServerIdentity) (term kill : Option ℕ) (r : Run)
      → Justified r.log
      → Justified (after_term config_hash token_hash w name lease identity term kill r).1.log
  unfolding after_term
  after_term-Justified name lease identity term kill r j =
      let x = wait config_hash token_hash w lease identity term r in
      let seen = wait-Waited lease identity term r j in
      let killed =
        signal_owned-Justified sigkill lease identity
          (after_kill config_hash token_hash w name lease identity kill) x.1
          (λ q. after_kill-Justified name lease identity kill q) in
      ground (arith, seen, killed, release_dead-Justified reclaimed name lease x.1)

  reconcile_lease-Justified :
      (name : String) (lease : Lease) (identity : ServerIdentity) (term kill : Option ℕ) (r : Run)
      → Justified r.log
      → Justified (reconcile_lease config_hash token_hash w name lease identity term kill r).1.log
  unfolding reconcile_lease verify
  reconcile_lease-Justified name lease identity term kill r j =
      let q = (verify config_hash token_hash w lease identity r).1 in
      let ended =
        signal_owned-Justified sigterm lease identity
          (after_term config_hash token_hash w name lease identity term kill) q
          (λ p. after_term-Justified name lease identity term kill p) j in
      ground (arith, ended, release_dead-Justified removed_dead name lease q)

  reconcile_record-Justified :
      (expected : Dict String ServerIdentity) (term kill : Option ℕ) (name : String)
      (stored : Option Lease) (r : Run)
      → Justified r.log
      → Justified (reconcile_record config_hash token_hash w expected term kill name stored r).1.log
  unfolding reconcile_record
  reconcile_record-Justified expected term kill name none r j = j
  reconcile_record-Justified expected term kill name (some lease) r j =
      Option-branches {B = (Status × Reason) × Run} (λ x. Justified x.1.log) (lookup name expected)
        _ _ j (λ identity e. reconcile_lease-Justified name lease identity term kill r j)

  reconcile_records-Justified :
      (expected : Dict String ServerIdentity) (term kill : Option ℕ)
      (records : List (String × Option Lease)) (r : Run)
      → Justified r.log
      → Justified (reconcile_records config_hash token_hash w expected term kill records r).1.log
  unfolding reconcile_records
  reconcile_records-Justified expected term kill [] r j = j
  reconcile_records-Justified expected term kill ((name, stored) ∷ records) r j =
      reconcile_records-Justified expected term kill records
        (reconcile_record config_hash token_hash w expected term kill name stored r).1
        (reconcile_record-Justified expected term kill name stored r j)

  -- No stranger is touched. Whatever the process table, the context, the waiter, the signaler and the
  -- store do in the meantime, `Reconcile` sends a signal only to a process group that the
  -- verification directly before it found owned, and removes a lease only after a verification that
  -- found the group of that generation dead, with no other verification or signal in between.
  pub reconcile-Justified :
      (has_store : Bool) (records : Option (List (String × Option Lease)))
      (expected : Dict String ServerIdentity) (term kill : Option ℕ) (r : Run)
      → Justified r.log
      → Justified (reconcile config_hash token_hash w has_store records expected term kill r).1.log
  unfolding reconcile
  reconcile-Justified false records expected term kill r j = j
  reconcile-Justified true none expected term kill r j = j
  reconcile-Justified true (some rs) expected term kill r j =
      reconcile_records-Justified expected term kill rs r j
