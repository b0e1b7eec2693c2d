-- ===== src/Mcp/Lease/Expiring.antt =====
-- internal/mcp/lease.go: a lease that is expiring stays so until a call that ends its expiry.
use vision_mcp_manager.Base.{
  ℕ, String, ◌≡◌, sym, subst, ltb, Bool-cases, refl, ◌∙◌, inl, inr, Bool, true, false, some, List,
  [], ◌∷◌, arith, All, lookup, string_eq, nat_eq, Option-cases, ◌==◌, lookup-insert,
}
use vision_mcp_manager.Mcp.Lease.{
  Lease, LeaseManager, Guard, expiring, reserve, commit, admit, new_lease, release_reservation,
  begin_request, begun, complete, settle, finished, begin_sse, sse_begun, end_sse, sse_ended,
  try_begin_expiry, expire_as, mark_cleanup_uncertain, restore_active,
}
use vision_mcp_manager.Mcp.Lease.History.{finalize_close}
use vision_mcp_manager.Mcp.Lease.Sweep.{
  is_due, expire_eligible, is_quarantine_over, expire_cleanup_uncertain,
}
use vision_mcp_manager.Mcp.Lease.Machine.{
  Call, reserves, commits, releases, begins, completes, begins_sse, ends_sse, expires_eligible,
  tries_expiry, marks_uncertain, restores, finalizes, invalidates, expires_uncertain, step, run,
}
use vision_mcp_manager.Mcp.Lease.Invariant.{Inv}
use vision_mcp_manager.Mcp.Lease.Preserved.{step-Inv}
use vision_mcp_manager.Mcp.Lease.Lookups.{
  mark_cleanup_uncertain-Changes, restore_active-Changes, finalize_close-Changes,
  expire_eligible-Changed, expire_cleanup_uncertain-Changed,
}

-- The session's lease is expiring and has no request in flight.
abbrev pub IsExpiring : String → LeaseManager → Type 0
IsExpiring sid m =
    (l : Lease) × (lookup sid m.leases ≡ some l) × (l.state ≡ expiring) × (l.in_flight ≡ 0)

-- Whether a call ends the expiry of a session: it restores, closes or quarantines its lease, or all.
abbrev pub ends_expiry : String → Call → Bool
ends_expiry sid (restores s) = s == sid
ends_expiry sid (finalizes s) = s == sid
ends_expiry sid (marks_uncertain s reason) = s == sid
ends_expiry sid (invalidates reasons) = true
ends_expiry sid _ = false

-- The lease that is there stays.
abbrev Stays : String → LeaseManager → LeaseManager → Type 0
Stays sid m m' = lookup sid m'.leases ≡ lookup sid m.leases

commit-Stays :
    (digest : String → String) (token : ℕ) (s sid : String) (now : ℕ) (m : LeaseManager)
    → IsExpiring sid m
    → Stays sid m (commit digest token s now m).0
unfolding commit admit
commit-Stays digest token s sid now m (l, found, state, still) = ground (
  arith,
  found,
  string_eq.beq_iff s sid,
  lookup-insert s sid (new_lease digest m.next_address s now) m.leases,
)

begin_request-Stays :
    (s sid : String) (application : Bool) (now : ℕ) (m : LeaseManager)
    → IsExpiring sid m
    → Stays sid m (begin_request s application now m).0
unfolding begin_request
begin_request-Stays s sid application now m (l, found, state, still) =
    elim (Option-cases (lookup s m.leases)) [
      | inl e ↦ ground (arith, e)
      | inr (l', e) ↦ ground (
        arith,
        e,
        found,
        state,
        string_eq.beq_iff s sid,
        lookup-insert s sid (begun m.disconnect_grace application now l') m.leases,
      )
    ]

settle-Stays :
    (g : Guard) (sid : String) (now : ℕ) (m : LeaseManager)
    → IsExpiring sid m
    → Stays sid m (settle g now m)
unfolding settle
settle-Stays g sid now m (l, found, state, still) =
    elim (Option-cases (lookup g.session_id m.leases)) [
      | inl e ↦ ground (arith, e)
      | inr (l', e) ↦ ground (
        arith,
        e,
        found,
        still,
        string_eq.beq_iff g.session_id sid,
        lookup-insert g.session_id sid (finished m.disconnect_grace g.application_activity now l')
            m.leases,
      )
    ]

complete-Stays :
    (g : Guard) (sid : String) (now : ℕ) (m : LeaseManager)
    → IsExpiring sid m
    → Stays sid m (complete g now m).0
unfolding complete
complete-Stays g sid now m v = ground (arith, settle-Stays g sid now m v)

begin_sse-Stays :
    (s sid : String) (m : LeaseManager) → IsExpiring sid m → Stays sid m (begin_sse s m).0
unfolding begin_sse
begin_sse-Stays s sid m (l, found, state, still) = elim (Option-cases (lookup s m.leases)) [
  | inl e ↦ ground (arith, e)
  | inr (l', e) ↦
      ground (
        arith,
        e,
        found,
        state,
        string_eq.beq_iff s sid,
        lookup-insert s sid (sse_begun l') m.leases,
      )
]

try_begin_expiry-Stays :
    (s sid reason : String) (m : LeaseManager)
    → IsExpiring sid m
    → Stays sid m (try_begin_expiry s reason m).0
unfolding try_begin_expiry
try_begin_expiry-Stays s sid reason m (l, found, state, still) =
    elim (Option-cases (lookup s m.leases)) [
      | inl e ↦ ground (arith, e)
      | inr (l', e) ↦ ground (
        arith,
        e,
        found,
        state,
        string_eq.beq_iff s sid,
        lookup-insert s sid (expire_as reason l') m.leases,
      )
    ]

expire_eligible-Stays :
    (sid : String) (now : ℕ) (m : LeaseManager)
    → IsExpiring sid m
    → Stays sid m (expire_eligible now m).0
expire_eligible-Stays sid now m (l, found, state, still) =
    let not_due : is_due m now l ≡ false = unfold is_due in ground (arith, state) in
    ground (arith, found, not_due, expire_eligible-Changed now sid m)

expire_cleanup_uncertain-Stays :
    (sid : String) (now : ℕ) (m : LeaseManager)
    → Inv m
    → IsExpiring sid m
    → Stays sid m (expire_cleanup_uncertain now m).0
expire_cleanup_uncertain-Stays sid now m v (l, found, state, still) =
    let not_over : is_quarantine_over now l ≡ false =
      unfold is_quarantine_over in ground (arith, state) in
    ground (arith, found, not_over, expire_cleanup_uncertain-Changed now sid m v.distinct_ids)

-- What stays is still expiring.
kept-IsExpiring :
    (sid : String) (m m' : LeaseManager) → Stays sid m m' → IsExpiring sid m → IsExpiring sid m'
kept-IsExpiring sid m m' same (l, found, state, still) = (l, same ∙ found, state, still)

-- The end of a stream changes other fields.
sse_ended-Expiring :
    (grace now : ℕ) (l : Lease)
    → ((sse_ended grace now l).state ≡ l.state) × ((sse_ended grace now l).in_flight ≡ l.in_flight)
unfolding sse_ended
sse_ended-Expiring grace now l = (refl, refl)

end_sse-IsExpiring :
    (s sid : String) (now : ℕ) (m : LeaseManager)
    → IsExpiring sid m
    → IsExpiring sid (end_sse s now m)
unfolding end_sse
end_sse-IsExpiring s sid now m (l, found, state, still) = elim (Bool-cases (s == sid)) [
  | inl same ↦
      let own : lookup s m.leases ≡ some l =
        subst (λ x. lookup x m.leases ≡ some l) (sym ((string_eq.beq_iff s sid).0 same)) found in
      let fields = sse_ended-Expiring m.disconnect_grace now l in
      elim (Bool-cases (ltb 0 l.sse_count)) [
        | inl open_ ↦ (
          sse_ended m.disconnect_grace now l,
          ground (
            arith,
            own,
            open_,
            same,
            lookup-insert s sid (sse_ended m.disconnect_grace now l) m.leases,
          ),
          fields.0 ∙ state,
          fields.1 ∙ still,
        )
        | inr none_open ↦ (l, ground (arith, own, none_open, found), state, still)
      ]
  | inr differs ↦ (
    l,
    elim (Option-cases (lookup s m.leases)) [
      | inl e ↦ ground (arith, e, found)
      | inr (l', e) ↦ ground (
        arith,
        e,
        found,
        differs,
        lookup-insert s sid (sse_ended m.disconnect_grace now l') m.leases,
      )
    ],
    state,
    still,
  )
]

-- One call, and a history of calls, that end no expiry of the session.
step-IsExpiring :
    (digest : String → String) (sid : String) (now : ℕ) (c : Call) (m : LeaseManager)
    → ends_expiry sid c ≡ false
    → Inv m
    → IsExpiring sid m
    → IsExpiring sid (step digest now c m)
unfolding step
step-IsExpiring digest sid now reserves m spared i v =
    kept-IsExpiring sid m (reserve m).0 (unfold reserve in ground arith) v
step-IsExpiring digest sid now (commits token s) m spared i v =
    kept-IsExpiring sid m (commit digest token s now m).0 (commit-Stays digest token s sid now m v)
      v
step-IsExpiring digest sid now (releases token) m spared i v =
    kept-IsExpiring sid m (release_reservation token m) (unfold release_reservation in refl) v
step-IsExpiring digest sid now (begins s application) m spared i v =
    kept-IsExpiring sid m (begin_request s application now m).0
      (begin_request-Stays s sid application now m v) v
step-IsExpiring digest sid now (completes g) m spared i v =
    kept-IsExpiring sid m (complete g now m).0 (complete-Stays g sid now m v) v
step-IsExpiring digest sid now (begins_sse s) m spared i v =
    kept-IsExpiring sid m (begin_sse s m).0 (begin_sse-Stays s sid m v) v
step-IsExpiring digest sid now (ends_sse s) m spared i v = end_sse-IsExpiring s sid now m v
step-IsExpiring digest sid now expires_eligible m spared i v =
    kept-IsExpiring sid m (expire_eligible now m).0 (expire_eligible-Stays sid now m v) v
step-IsExpiring digest sid now (tries_expiry s reason) m spared i v =
    kept-IsExpiring sid m (try_begin_expiry s reason m).0 (try_begin_expiry-Stays s sid reason m v)
      v
step-IsExpiring digest sid now (marks_uncertain s reason) m spared i v =
    kept-IsExpiring sid m (mark_cleanup_uncertain s reason now m).0
      (ground (arith, spared, (mark_cleanup_uncertain-Changes s reason now m).0 sid)) v
step-IsExpiring digest sid now (restores s) m spared i v =
    kept-IsExpiring sid m (restore_active s m).0
      (ground (arith, spared, (restore_active-Changes s m).0 sid)) v
step-IsExpiring digest sid now (finalizes s) m spared i v =
    kept-IsExpiring sid m (finalize_close s now m).0
      (ground (arith, spared, (finalize_close-Changes s now m).0 sid)) v
step-IsExpiring digest sid now (invalidates reasons) m spared i v = absurd (ground (arith, spared))
step-IsExpiring digest sid now expires_uncertain m spared i v =
    kept-IsExpiring sid m (expire_cleanup_uncertain now m).0
      (expire_cleanup_uncertain-Stays sid now m i v) v

pub run-IsExpiring :
    (digest : String → String) (sid : String) (cs : List (ℕ × Call)) (m : LeaseManager)
    → All (λ (c : ℕ × Call). ends_expiry sid c.1 ≡ false) cs
    → Inv m
    → IsExpiring sid m
    → IsExpiring sid (run digest m cs)
unfolding run
run-IsExpiring digest sid [] m spared i v = v
run-IsExpiring digest sid ((now, c) ∷ cs) m spared i v =
    run-IsExpiring digest sid cs (step digest now c m) spared.1 (step-Inv digest now c m i)
      (step-IsExpiring digest sid now c m spared.0 i v)
