-- ===== src/Mcp/Gateway/Pruning.antt =====
-- internal/mcp/managed_gateway.go: what the pruning of idle sessions makes of each lease, and that
-- it makes room for a new session.
use vision_mcp_manager.Base.{
  ℕ, ◌+◌, String, ◌≡◌, refl, ap, ◌∙◌, sym, subst, inl, inr, Bool, true, false, ◌||◌, Option, none,
  some, List, [], ◌∷◌, arith, any, lookup, string_eq, nat_eq, ◌==◌, if◌then◌else◌, Bool-cases,
  ==_iff, Distinct,
}
use vision_mcp_manager.Mcp.Lease.{Lease, LeaseManager, quarantined, expire_as}
use vision_mcp_manager.Mcp.Lease.Sweep.{
  ExpiredLease, is_due, expiry_reason, expire_eligible, is_quarantine_over,
}
use vision_mcp_manager.Mcp.Lease.Invariant.{Inv}
use vision_mcp_manager.Mcp.Lease.Preserved.{swept}
use vision_mcp_manager.Mcp.Lease.Machine.{expires_uncertain, step}
use vision_mcp_manager.Mcp.Lease.Lookups.{
  changed, Changes, mark_cleanup_uncertain-Changes, reactivated, restore_active-Changes, gone,
  finalize_close-Changes, expire_eligible-Changed, expire_cleanup_uncertain-Changed, is_of, passes,
  expire_eligible-any, SameRules, swept-SameRules, expire_cleanup_uncertain-SameRules,
}
use vision_mcp_manager.Mcp.Gateway.{
  Gateway, with_leases, Cleanup, request_invalid, gate_closed, transport_failed, answered,
  is_disposed, finalize_session, close_expired_quarantines, cleanup_one, cleanup_all, prune_idle,
}
use vision_mcp_manager.Mcp.Gateway.Refusals.{step-quiet, closed_by-leases}

-- What the answer to its DELETE makes of an expired session at a time, where quarantines last
-- `bound`.
abbrev pub fate : (bound : ℕ) → Cleanup → (now : ℕ) → Lease → Option Lease
fate bound request_invalid now l = some (quarantined "cleanup_request_invalid" (now + bound) l)
fate bound gate_closed now l = reactivated l
fate bound transport_failed now l = some (quarantined "cleanup_result_ambiguous" (now + bound) l)
fate bound (answered status) now l =
    if is_disposed status then none else some (quarantined "cleanup_rejected" (now + bound) l)

if-Changes :
    (b : Bool) (sid : String) (f h : Lease → Option Lease) (m : LeaseManager) (g g' : Gateway)
    → Changes sid f m g.leases
    → Changes sid h m g'.leases
    → Changes sid (λ l. if b then f l else h l) m (if b then g else g').leases
if-Changes true sid f h m g g' v w = v
if-Changes false sid f h m g g' v w = w

cleanup_one-Changes :
    (e : ExpiredLease) (answer : Cleanup) (now : ℕ) (g : Gateway)
    → Changes e.session_id
        (fate g.leases.cleanup_uncertain_bound answer now)
        g.leases
        (cleanup_one e answer now g).leases
unfolding cleanup_one finalize_session
cleanup_one-Changes e request_invalid now g =
    mark_cleanup_uncertain-Changes e.session_id "cleanup_request_invalid" now g.leases
cleanup_one-Changes e gate_closed now g = restore_active-Changes e.session_id g.leases
cleanup_one-Changes e transport_failed now g =
    mark_cleanup_uncertain-Changes e.session_id "cleanup_result_ambiguous" now g.leases
cleanup_one-Changes e (answered status) now g =
    if-Changes (is_disposed status) e.session_id gone _ g.leases
      (finalize_session e.session_id e.reason now g) _
      (subst (λ m. Changes e.session_id gone g.leases m) (sym (closed_by-leases g e.reason _))
        (finalize_close-Changes e.session_id now g.leases))
      (mark_cleanup_uncertain-Changes e.session_id "cleanup_rejected" now g.leases)

-- A second cleanup with the same answer at the same time changes nothing more.
fate_twice :
    (bound : ℕ) (answer : Cleanup) (now : ℕ) (o : Option Lease)
    → changed (fate bound answer now) (changed (fate bound answer now) o)
      ≡ changed (fate bound answer now) o
fate_twice bound answer now none = refl
fate_twice bound request_invalid now (some l) = refl
fate_twice bound gate_closed now (some l) = ground arith
fate_twice bound transport_failed now (some l) = refl
fate_twice bound (answered status) now (some l) = ground arith

-- One turn of the loop, for a session with the answer and the time of its own.
turn :
    (answer : String → Cleanup) (clock : String → ℕ) (e : ExpiredLease) (sid : String) (g : Gateway)
    → lookup sid (cleanup_one e (answer e.session_id) (clock e.session_id) g).leases.leases ≡ (
        if e.session_id == sid
        then changed
            (fate g.leases.cleanup_uncertain_bound (answer sid) (clock sid))
            (lookup sid g.leases.leases)
        else lookup sid g.leases.leases)
turn answer clock e sid g =
    let now = clock e.session_id in
    let one = (cleanup_one-Changes e (answer e.session_id) now g).0 sid in
    elim (Bool-cases (e.session_id == sid)) [
      | inl same ↦
          subst
            (λ x. lookup sid (cleanup_one e (answer e.session_id) now g).leases.leases ≡ (
              if e.session_id == sid
              then changed (fate g.leases.cleanup_uncertain_bound (answer x) (clock x))
                  (lookup sid g.leases.leases)
              else lookup sid g.leases.leases))
            ((==_iff e.session_id sid).0 same) one
      | inr other ↦ rw other (rw other at one)
    ]

-- The first turn and the rest, where a second turn changes nothing more.
ends :
    (here later : Bool) (f : Option Lease → Option Lease) (before between after : Option Lease)
    → between ≡ (if here then f before else before)
    → after ≡ (if later then f between else between)
    → f (f before) ≡ f before
    → after ≡ (if here || later then f before else before)
ends true true f before between after e e' twice = e' ∙ ap f e ∙ twice
ends true false f before between after e e' twice = e' ∙ e
ends false true f before between after e e' twice = e' ∙ ap f e
ends false false f before between after e e' twice = e' ∙ e

cleanup_all-lookup :
    (answer : String → Cleanup) (clock : String → ℕ) (sid : String) (es : List ExpiredLease)
    (g : Gateway)
    → lookup sid (cleanup_all answer clock es g).leases.leases ≡ (
        if any (is_of sid) es
        then changed
            (fate g.leases.cleanup_uncertain_bound (answer sid) (clock sid))
            (lookup sid g.leases.leases)
        else lookup sid g.leases.leases)
unfolding cleanup_all
cleanup_all-lookup answer clock sid [] g = refl
cleanup_all-lookup answer clock sid (e ∷ es) g =
    let g₁ = cleanup_one e (answer e.session_id) (clock e.session_id) g in
    let same = (cleanup_one-Changes e (answer e.session_id) (clock e.session_id) g).1 in
    let rest = rw same at (cleanup_all-lookup answer clock sid es g₁) in
    let first = turn answer clock e sid g in
    let twice =
      fate_twice g.leases.cleanup_uncertain_bound (answer sid) (clock sid)
        (lookup sid g.leases.leases) in
    ends (e.session_id == sid) (any (is_of sid) es)
      (changed (fate g.leases.cleanup_uncertain_bound (answer sid) (clock sid))) _ _ _ first rest
      twice

-- What pruning makes of a lease.
abbrev pruned :
    (answer : String → Cleanup)
    → (clock : String → ℕ) → ℕ
    → LeaseManager
    → String
    → Lease
    → Option Lease
pruned answer clock now m sid l =
    if is_quarantine_over now l
    then none
    else if is_due m now l
    then fate m.cleanup_uncertain_bound (answer sid) (clock sid) (swept m now sid l)
    else some l

-- A lease that is swept, and cleaned up if the sweep returned it.
swept_then :
    (due : Lease → Bool) (sweep : Lease → Lease) (clean : Lease → Option Lease) (reached : Bool)
    (o before after : Option Lease)
    → ((l : Lease) → due l ≡ false → sweep l ≡ l)
    → reached ≡ passes due o
    → before ≡ changed (λ l. some (sweep l)) o
    → after ≡ (if reached then changed clean before else before)
    → after ≡ changed (λ l. if due l then clean (sweep l) else some l) o
swept_then due sweep clean reached none before after same r b a = ground (arith, r, b, a)
swept_then due sweep clean reached (some l) before after same r b a = elim (Bool-cases (due l)) [
  | inl due_now ↦ rw due_now (
      a ∙ ap (λ x. if x then changed clean before else before) (r ∙ due_now) ∙ ap (changed clean) b)
  | inr spared ↦ rw spared (
      a
      ∙ ap (λ x. if x then changed clean before else before) (r ∙ spared)
      ∙ b
      ∙ ap some (same l spared))
]

swept-not_due :
    (m : LeaseManager) (now : ℕ) (sid : String) (l : Lease)
    → is_due m now l ≡ false
    → swept m now sid l ≡ l
swept-not_due m now sid l spared = rw spared refl

-- The sweep for expired leases and the cleanup of what it returned.
expire_and_clean :
    (answer : String → Cleanup) (clock : String → ℕ) (now : ℕ) (sid : String) (g : Gateway)
    → Distinct g.leases.leases
    → lookup sid
        (cleanup_all answer clock
          (expire_eligible now g.leases).1
          (with_leases (expire_eligible now g.leases).0 g)).leases.leases
      ≡ changed
          (λ l.
            if is_due g.leases now l
            then fate g.leases.cleanup_uncertain_bound
                (answer sid)
                (clock sid)
                (swept g.leases now sid l)
            else some l)
          (lookup sid g.leases.leases)
unfolding expire_eligible
expire_and_clean answer clock now sid g d =
    let (m, es) = expire_eligible now g.leases in
    swept_then (is_due g.leases now) (swept g.leases now sid) _ (any (is_of sid) es)
      (lookup sid g.leases.leases) (lookup sid m.leases) _ (swept-not_due g.leases now sid)
      (expire_eligible-any now sid g.leases d) (expire_eligible-Changed now sid g.leases)
      (cleanup_all-lookup answer clock sid es (with_leases m g))

cleaned_up-same :
    (answer : String → Cleanup) (clock : String → ℕ) (now : ℕ) (sid : String) (m m' : LeaseManager)
    (l : Lease)
    → SameRules m m'
    → (if is_due m' now l
        then fate m'.cleanup_uncertain_bound (answer sid) (clock sid) (swept m' now sid l)
        else some l)
      ≡ (if is_due m now l
          then fate m.cleanup_uncertain_bound (answer sid) (clock sid) (swept m now sid l)
          else some l)
cleaned_up-same answer clock now sid m m' l same =
    let (due, reason) = swept-SameRules m m' now l same in rw (due, reason, same.2) refl

closed_then :
    (answer : String → Cleanup) (clock : String → ℕ) (now : ℕ) (sid : String) (m m' : LeaseManager)
    (o between after : Option Lease)
    → SameRules m m'
    → between ≡ changed (λ l. if is_quarantine_over now l then none else some l) o
    → after
      ≡ changed
          (λ l.
            if is_due m' now l
            then fate m'.cleanup_uncertain_bound (answer sid) (clock sid) (swept m' now sid l)
            else some l)
          between
    → after ≡ changed (pruned answer clock now m sid) o
closed_then answer clock now sid m m' none between after same b a = ground (arith, a, b)
closed_then answer clock now sid m m' (some l) between after same b a =
    elim (Bool-cases (is_quarantine_over now l)) [
      | inl over ↦ rw over (a ∙ ap (changed _) (b ∙ ap (λ x. if x then none else some l) over))
      | inr held ↦ rw held (
          a
          ∙ ap (changed _) (b ∙ ap (λ x. if x then none else some l) held)
          ∙ cleaned_up-same answer clock now sid m m' l same)
    ]

pub prune_idle-lookup :
    (answer : String → Cleanup) (clock : String → ℕ) (now : ℕ) (sid : String) (g : Gateway)
    → Inv g.leases
    → lookup sid (prune_idle answer clock now g).leases.leases
      ≡ changed (pruned answer clock now g.leases sid) (lookup sid g.leases.leases)
unfolding prune_idle close_expired_quarantines step
prune_idle-lookup answer clock now sid g v =
    let g₁ = close_expired_quarantines now g in
    let inv = (step-quiet now expires_uncertain g.leases refl v).inv in
    closed_then answer clock now sid g.leases g₁.leases (lookup sid g.leases.leases)
      (lookup sid g₁.leases.leases) _ (expire_cleanup_uncertain-SameRules now g.leases)
      (expire_cleanup_uncertain-Changed now sid g.leases v.distinct_ids)
      (expire_and_clean answer clock now sid g₁ inv.distinct_ids)

-- Pruning is exact. A lease whose quarantine is over goes. Of the others, one that is due is
-- claimed for expiry and cleaned up once: it goes if the backend answered its DELETE with a success
-- or with 404, turns active again if the backend's gate was closed, and is quarantined otherwise;
-- and one that is not due stays as it was.
pub prune_idle_exact :
    (answer : String → Cleanup) (clock : String → ℕ) (now : ℕ) (sid : String) (g : Gateway)
    (l : Lease)
    → Inv g.leases
    → lookup sid g.leases.leases ≡ some l
    → let after = lookup sid (prune_idle answer clock now g).leases.leases in
      (is_quarantine_over now l ≡ true → after ≡ none)
      × (is_quarantine_over now l ≡ false → is_due g.leases now l ≡ false → after ≡ some l)
      × (is_quarantine_over now l ≡ false
          → is_due g.leases now l ≡ true
          → after
            ≡ fate g.leases.cleanup_uncertain_bound
                (answer sid)
                (clock sid)
                (expire_as (expiry_reason g.leases now l) l))
prune_idle_exact answer clock now sid g l v there =
    let e = prune_idle-lookup answer clock now sid g v ∙ ap (changed _) there in
    (
      λ over. e ∙ (rw over refl),
      λ held spared. e ∙ (rw (held, spared) refl),
      λ held due_now. e ∙ (rw (held, due_now) refl),
    )
