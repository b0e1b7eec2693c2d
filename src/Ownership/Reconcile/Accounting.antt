-- ===== src/Ownership/Reconcile/Accounting.antt =====
-- internal/ownership/reconcile.go: what is reported as removed has been removed.
use vision_mcp_manager.Base.{
  ℕ, zero, suc, ◌+◌, ◌≡◌, refl, arith, Option, none, some, String, List, [], ◌∷◌, Option-branches,
  Dict, lookup, string_eq,
}
use vision_mcp_manager.Ownership.Verify.{Lease, ServerIdentity}
use vision_mcp_manager.Ownership.Reconcile.{
  Signal, sigterm, sigkill, Event, verified, signalled, released, World, Run, Status, Reason,
  verify, check_context, group_signal, release_if_current, verify_live, wait_rounds, wait,
  release_dead, signal_owned, after_kill, after_term, reconcile_lease, reconcile_record,
  reconcile_records, removed_dead, reclaimed, next, scrub_status,
}

abbrev pub releases : List Event → ℕ
releases [] = 0
releases (released name generation ∷ es) = suc (releases es)
releases (verified lease status ∷ es) = releases es
releases (signalled pgid signal ∷ es) = releases es

-- 1 for a report that the lease is gone, else 0.
abbrev pub successes_of : Status → ℕ
successes_of removed_dead = 1
successes_of reclaimed = 1
successes_of _ = 0

abbrev pub successes : List (String × (Status × Reason)) → ℕ
successes [] = 0
successes ((name, (status, why)) ∷ results) = successes_of status + successes results

module _ (config_hash : ServerIdentity → String) (token_hash : List ℕ → String) (w : World) where
  -- The result of a step from `r` on is counted by the log.
  abbrev Counted : Run → (Status × Reason) × Run → Type 0
  Counted r x = releases x.1.log ≡ successes_of x.0.0 + releases r.log

  verify_live-releases :
      (lease : Lease) (identity : ServerIdentity) (r : Run)
      → releases (verify_live config_hash token_hash w lease identity r).1.log ≡ releases r.log
  unfolding verify_live check_context verify
  verify_live-releases lease identity r = ground arith

  wait_rounds-releases :
      (lease : Lease) (identity : ServerIdentity) (rounds : ℕ) (r : Run)
      → releases (wait_rounds config_hash token_hash w lease identity rounds r).1.log
        ≡ releases r.log
  unfolding wait_rounds
  wait_rounds-releases lease identity zero r = ground (arith, verify_live-releases lease identity r)
  wait_rounds-releases lease identity (suc rounds) r =
      let seen = verify_live config_hash token_hash w lease identity r in
      ground (
        arith,
        verify_live-releases lease identity r,
        wait_rounds-releases lease identity rounds (next seen.1),
      )

  wait-releases :
      (lease : Lease) (identity : ServerIdentity) (limit : Option ℕ) (r : Run)
      → releases (wait config_hash token_hash w lease identity limit r).1.log ≡ releases r.log
  unfolding wait
  wait-releases lease identity none r = verify_live-releases lease identity r
  wait-releases lease identity (some rounds) r = wait_rounds-releases lease identity rounds r

  release_dead-Counted :
      (success : Status) (name : String) (lease : Lease) (r : Run)
      → successes_of success ≡ 1
      → Counted r (release_dead config_hash token_hash w success name lease r)
  unfolding release_dead check_context release_if_current
  release_dead-Counted success name lease r h = ground (arith, h)

  signal_owned-Counted :
      (signal : Signal) (lease : Lease) (identity : ServerIdentity)
      (go_on : Run → (Status × Reason) × Run) (r : Run)
      → ((q : Run) → Counted q (go_on q))
      → Counted r (signal_owned config_hash token_hash w signal lease identity go_on r)
  unfolding signal_owned check_context verify group_signal scrub_status
  signal_owned-Counted signal lease identity go_on r f = ground (
    arith,
    f (record {
      consulted = suc (suc (suc (suc r.consulted)));
      log =
          signalled lease.leader_pgid signal
          ∷ (verify config_hash token_hash w lease identity (next r)).1.log;
    }),
  )

  after_kill-Counted :
      (name : String) (lease : Lease) (identity : ServerIdentity) (limit : Option ℕ) (r : Run)
      → Counted r (after_kill config_hash token_hash w name lease identity limit r)
  unfolding after_kill check_context release_if_current
  after_kill-Counted name lease identity limit r =
      ground (arith, wait-releases lease identity limit r)

  after_term-Counted :
      (name : String) (lease : Lease) (identity : ServerIdentity) (term kill : Option ℕ) (r : Run)
      → Counted r (after_term config_hash token_hash w name lease identity term kill r)
  unfolding after_term
  after_term-Counted name lease identity term kill r =
      let q = (wait config_hash token_hash w lease identity term r).1 in
      ground (
        arith,
        wait-releases lease identity term r,
        signal_owned-Counted sigkill lease identity
            (after_kill config_hash token_hash w name lease identity kill) q
            (after_kill-Counted name lease identity kill),
        release_dead-Counted reclaimed name lease q refl,
      )

  reconcile_lease-Counted :
      (name : String) (lease : Lease) (identity : ServerIdentity) (term kill : Option ℕ) (r : Run)
      → Counted r (reconcile_lease config_hash token_hash w name lease identity term kill r)
  unfolding reconcile_lease verify
  reconcile_lease-Counted name lease identity term kill r =
      let q = (verify config_hash token_hash w lease identity r).1 in
      ground (
        arith,
        signal_owned-Counted sigterm lease identity
            (after_term config_hash token_hash w name lease identity term kill) q
            (after_term-Counted name lease identity term kill),
        release_dead-Counted removed_dead name lease q refl,
      )

  reconcile_record-Counted :
      (expected : Dict String ServerIdentity) (term kill : Option ℕ) (name : String)
      (stored : Option Lease) (r : Run)
      → Counted r (reconcile_record config_hash token_hash w expected term kill name stored r)
  unfolding reconcile_record
  reconcile_record-Counted expected term kill name none r = omega arith
  reconcile_record-Counted expected term kill name (some lease) r =
      Option-branches (Counted r) (lookup name expected) _ _ (omega arith)
        (λ identity e. reconcile_lease-Counted name lease identity term kill r)

  -- Reports are true. Over the records of the store, as many leases are removed as results say
  -- `removed_dead` or `reclaimed`.
  pub reports_true :
      (expected : Dict String ServerIdentity) (term kill : Option ℕ)
      (records : List (String × Option Lease)) (r : Run)
      → releases (reconcile_records config_hash token_hash w expected term kill records r).1.log
        ≡ successes (reconcile_records config_hash token_hash w expected term kill records r).0
          + releases r.log
  unfolding reconcile_records
  reports_true expected term kill [] r = omega arith
  reports_true expected term kill ((name, stored) ∷ records) r =
      let q = (reconcile_record config_hash token_hash w expected term kill name stored r).1 in
      omega (
        arith,
        reconcile_record-Counted expected term kill name stored r,
        reports_true expected term kill records q,
      )
