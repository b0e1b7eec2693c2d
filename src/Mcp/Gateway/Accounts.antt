-- ===== src/Mcp/Gateway/Accounts.antt =====
-- internal/mcp/managed_gateway.go: the active-sessions gauge and the leases, under every
-- interleaving of the gateway's requests, sweeps and recycles.
use vision_mcp_manager.Base.{
  ℕ, ◌+◌, ◌-◌, leb, if◌then◌else◌, if-branches, String, ◌≡◌, ap, ◌∙◌, sym, Bool, true, false,
  Option, none, some, List, [], ◌∷◌, arith,
}
use vision_mcp_manager.Mcp.Lease.{LeaseManager, LeaseError, commit}
use vision_mcp_manager.Mcp.Lease.History.{finalize_close}
use vision_mcp_manager.Mcp.Lease.Machine.{
  Call, commits, finalizes, invalidates, expires_uncertain, step,
}
use vision_mcp_manager.Mcp.Lease.Invariant.{Inv, new-Inv}
use vision_mcp_manager.Mcp.Lease.Preserved.{step-Inv}
use vision_mcp_manager.Mcp.Lease.Sizes.{
  size, is_neutral, step-size, Committed, commit-Committed, Finalized, finalize_close-Finalized,
  invalidate_all-size, expire_cleanup_uncertain-size, new-size,
}
use vision_mcp_manager.Mcp.Gateway.{
  Gateway, new_managed_gateway, with_leases, opened_by, closed_by, open_session, finalize_session,
  sweep_quarantines, count_quarantines, invalidate_sessions,
}

-- A gateway with the quarantined leases that `closeExpiredQuarantines` has closed and not yet
-- counted, which it does after it has freed the lifecycle mutex.
pub record System : Type 0 where
  pub gateway : Gateway
  pub uncounted : ℕ

-- One critical section of the gateway: a call of the lease manager that neither adds nor closes a
-- lease, one of those that do, with the metrics under the lifecycle mutex, the sweep of quarantines,
-- or one round of its loop over the metrics.
pub data Section : Type 0 where
  calls : (c : Call) → is_neutral c ≡ true → Section
  opens : ℕ → String → Section
  finalizes_session : String → String → Section
  sweeps_quarantines counts_one : Section
  invalidates_sessions : String → Section

-- The next uncounted lease is counted.
pub count_one : System → System
count_one s =
    if leb s.uncounted 0
    then s
    else record { gateway = count_quarantines 1 s.gateway; uncounted = s.uncounted - 1 }

abbrev pub with_gateway : Gateway → System → System
with_gateway g s = record s { gateway = g }

module _ (digest : String → String) where
  pub section : ℕ → Section → System → System
  unfolding count_one
  section now (calls c n) s =
      with_gateway (with_leases (step digest now c s.gateway.leases) s.gateway) s
  section now (opens token sid) s = with_gateway (open_session digest token sid now s.gateway).0 s
  section now (finalizes_session sid reason) s =
      with_gateway (finalize_session sid reason now s.gateway) s
  section now sweeps_quarantines s =
      let (g, closed) = sweep_quarantines now s.gateway in
      record { gateway = g; uncounted = closed + s.uncounted }
  section now counts_one s = count_one s
  section now (invalidates_sessions reason) s =
      with_gateway (invalidate_sessions reason now s.gateway) s

  pub run_sections : System → List (ℕ × Section) → System
  unfolding section
  run_sections s [] = s
  run_sections s ((now, x) ∷ rest) = run_sections (section now x s) rest

-- What was opened less what has gone is the number of leases and of those that wait to be counted.
pub record Balanced (g : Gateway) (uncounted : ℕ) : Type 0 where
  pub inv : Inv g.leases
  pub gauge : g.meters.opened ≡ g.meters.gone + (uncounted + size g.leases)

abbrev pub Accounted : System → Type 0
Accounted s = Balanced s.gateway s.uncounted

calls-Accounted :
    (digest : String → String) (now : ℕ) (c : Call) (g : Gateway) (n : ℕ)
    → is_neutral c ≡ true
    → Balanced g n
    → Balanced (with_leases (step digest now c g.leases) g) n
calls-Accounted digest now c g n neutral v = record {
  inv = step-Inv digest now c g.leases v.inv;
  gauge = omega (arith, v.gauge, step-size digest now c g.leases neutral);
}

opened-Accounted :
    (g : Gateway) (n : ℕ) (r : LeaseManager × Option LeaseError)
    → Committed g.leases r
    → Inv r.0
    → Balanced g n
    → Balanced (opened_by r g).0 n
opened-Accounted g n (m, none) more w v = record { inv = w; gauge = omega (arith, v.gauge, more) }
opened-Accounted g n (m, some e) same w v = record {
  inv = w;
  gauge = v.gauge ∙ ap (λ x. g.meters.gone + (n + size x)) (sym same);
}

closed-Accounted :
    (g : Gateway) (n : ℕ) (reason : String) (r : LeaseManager × Bool)
    → Finalized g.leases r
    → Inv r.0
    → Balanced g n
    → Balanced (closed_by r reason g) n
closed-Accounted g n reason (m, true) less w v = record {
  inv = w;
  gauge = omega (arith, v.gauge, less);
}
closed-Accounted g n reason (m, false) same w v = record {
  inv = w;
  gauge = v.gauge ∙ ap (λ x. g.meters.gone + (n + size x)) (sym same);
}

section-Accounted :
    (digest : String → String) (now : ℕ) (x : Section) (s : System)
    → Accounted s
    → Accounted (section digest now x s)
unfolding section step open_session finalize_session invalidate_sessions count_one
section-Accounted digest now (calls c n) s v =
    calls-Accounted digest now c s.gateway s.uncounted n v
section-Accounted digest now (opens token sid) s v =
    opened-Accounted s.gateway s.uncounted (commit digest token sid now s.gateway.leases)
      (commit-Committed digest token sid now s.gateway.leases)
      (step-Inv digest now (commits token sid) s.gateway.leases v.inv) v
section-Accounted digest now (finalizes_session sid reason) s v =
    closed-Accounted s.gateway s.uncounted reason (finalize_close sid now s.gateway.leases)
      (finalize_close-Finalized sid now s.gateway.leases v.inv)
      (step-Inv digest now (finalizes sid) s.gateway.leases v.inv) v
section-Accounted digest now sweeps_quarantines s v = record {
  inv = step-Inv digest now expires_uncertain s.gateway.leases v.inv;
  gauge = omega (arith, v.gauge, expire_cleanup_uncertain-size now s.gateway.leases v.inv);
}
section-Accounted digest now counts_one s v =
    if-branches Accounted (leb s.uncounted 0) _ _ (λ none_left. v)
      (λ some_left. record { inv = v.inv; gauge = ground (arith, v.gauge, some_left) })
section-Accounted digest now (invalidates_sessions reason) s v = record {
  inv = step-Inv digest now (invalidates (reason ∷ [])) s.gateway.leases v.inv;
  gauge = omega (arith, v.gauge, invalidate_all-size (reason ∷ []) now s.gateway.leases);
}

run-Accounted :
    (digest : String → String) (s : System) (xs : List (ℕ × Section))
    → Accounted s
    → Accounted (run_sections digest s xs)
unfolding run_sections
run-Accounted digest s [] v = v
run-Accounted digest s ((now, x) ∷ rest) v =
    run-Accounted digest (section digest now x s) rest (section-Accounted digest now x s v)

abbrev pub fresh_system : (max_sessions idle grace : ℕ) → System
fresh_system max_sessions idle grace = record {
  gateway = new_managed_gateway max_sessions idle grace;
  uncounted = 0;
}

new-Accounted : (max idle grace : ℕ) → Accounted (fresh_system max idle grace)
unfolding new_managed_gateway
new-Accounted max idle grace = record {
  inv = new-Inv max idle grace;
  gauge = omega (arith, new-size max idle grace);
}

-- However the critical sections of requests, sweeps, answers and recycles interleave, the gauge of
-- active sessions, which is the number of openings that were counted less the number of endings, is
-- the number of leases that the manager of a new gateway holds and of the quarantined ones that it
-- has closed and not yet counted. So it is the number of leases whenever no sweep of quarantines is
-- between the mutex and its metrics.
pub gauge_true :
    (digest : String → String) (max_sessions idle grace : ℕ) (xs : List (ℕ × Section))
    → let s = run_sections digest (fresh_system max_sessions idle grace) xs in
      s.gateway.meters.opened ≡ s.gateway.meters.gone + (s.uncounted + size s.gateway.leases)
gauge_true digest max_sessions idle grace xs =
    (run-Accounted digest (fresh_system max_sessions idle grace) xs
      (new-Accounted max_sessions idle grace)).gauge
