-- ===== src/Session/Shared/Books.antt =====
-- internal/session/shared.go: the reference count, the two maps of upstream sessions and the limit.
use vision_mcp_manager.Base.{
  ℕ, suc, ◌-◌, ◌≤◌, ◌<◌, String, ◌≡◌, ap, ◌∙◌, sym, subst, inl, inr, arith, Bool, not, ◌&&◌, Option,
  none, some, Result, ltb, leb, nat_beq, length, Dict, lookup, insert, erase, Distinct, string_eq,
  ==_iff, Option-cases, if-branches, Option-branches, Option-branches_eq, lookup-insert,
  lookup-erase, insert-Distinct, erase-Distinct, length-insert_new, length-insert_old,
  length-erase_old,
}
use vision_mcp_manager.Session.Shared.{
  SharedError, SharedSession, Shared, arm_idle_timer, new_session, track, await_admission, granted,
  admission_begin, forget, admission_end, remove_session, touch_session, request_enter,
  request_admit, leave_session, one_less_active, request_release, more_in_flight, less_in_flight,
}
use vision_mcp_manager.Session.Shared.Startup.{is_some}
use vision_mcp_manager.Session.Shared.Frames.{SameBooks}

-- The books of a manager with the limit `max`: its limit, its count and its two maps.
pub record Books (max : ℕ) (limit : ℕ) (refs : ℕ) (upstream : Dict String (Unit {0}))
    (sessions : Dict String SharedSession) : Type 0 where
  pub same_limit : limit ≡ max
  pub distinct_upstream : Distinct upstream
  pub distinct_sessions : Distinct sessions
  pub count_upstream : refs ≡ length upstream
  pub count_sessions : refs ≡ length sessions
  pub agree : (sid : String) → is_some (lookup sid upstream) ≡ is_some (lookup sid sessions)
  pub within : 0 < max → refs ≤ max

abbrev pub Kept : ℕ → Shared → Type 0
Kept max s = Books max s.max_sessions s.ref_count s.upstream_sessions s.sessions

pub same-Kept : (max : ℕ) (s s' : Shared) → SameBooks s s' → Kept max s → Kept max s'
same-Kept max s s' same v = record {
  same_limit = same.limit ∙ v.same_limit;
  distinct_upstream = subst (λ d. Distinct d) (sym same.upstream) v.distinct_upstream;
  distinct_sessions = subst (λ d. Distinct d) (sym same.sessions) v.distinct_sessions;
  count_upstream = same.count ∙ v.count_upstream ∙ ap length (sym same.upstream);
  count_sessions = same.count ∙ v.count_sessions ∙ ap length (sym same.sessions);
  agree = λ sid.
      ap (λ d. is_some (lookup sid d)) same.upstream
      ∙ v.agree sid
      ∙ ap (λ d. is_some (lookup sid d)) (sym same.sessions);
  within = λ h. omega (arith, v.within h, same.count);
}

-- A session that is there is written again.
write-Books :
    (max limit refs : ℕ) (upstream : Dict String (Unit {0})) (sessions : Dict String SharedSession)
    (sid : String) (t t' : SharedSession)
    → lookup sid sessions ≡ some t
    → Books max limit refs upstream sessions
    → Books max limit refs upstream (insert sid t' sessions)
write-Books max limit refs upstream sessions sid t t' there v = record {
  same_limit = v.same_limit;
  distinct_upstream = v.distinct_upstream;
  distinct_sessions = insert-Distinct sid t' sessions v.distinct_sessions;
  count_upstream = v.count_upstream;
  count_sessions = v.count_sessions ∙ sym (length-insert_old sid t' t sessions there);
  agree = λ other.
      ground (arith, v.agree other, there, lookup-insert sid other t' sessions, ==_iff sid other);
  within = v.within;
}

arm_idle_timer-SameBooks : (s : Shared) → SameBooks s (arm_idle_timer s)
unfolding arm_idle_timer
arm_idle_timer-SameBooks s = ground arith

forget-Kept :
    (max : ℕ) (sid : String) (s : Shared) (t : SharedSession)
    → lookup sid s.sessions ≡ some t
    → Kept max s
    → Kept max (forget sid s)
unfolding forget
forget-Kept max sid s t there v =
    let (u, also) : (u : Unit {0}) × (lookup sid s.upstream_sessions ≡ some u) =
      (tt, ground (arith, v.agree sid, there)) in
    let left_upstream = length-erase_old sid u s.upstream_sessions v.distinct_upstream also in
    let left_sessions = length-erase_old sid t s.sessions v.distinct_sessions there in
    let s' : Shared = record s {
      upstream_sessions = erase sid s.upstream_sessions;
      sessions = erase sid s.sessions;
      ref_count = s.ref_count - 1;
    } in
    same-Kept max s' (arm_idle_timer s') (arm_idle_timer-SameBooks s') (record {
      same_limit = v.same_limit;
      distinct_upstream = erase-Distinct sid s.upstream_sessions v.distinct_upstream;
      distinct_sessions = erase-Distinct sid s.sessions v.distinct_sessions;
      count_upstream = omega (arith, v.count_upstream, left_upstream);
      count_sessions = omega (arith, v.count_sessions, left_sessions);
      agree = λ other. ground (
        arith,
        v.agree other,
        lookup-erase sid other s.upstream_sessions,
        lookup-erase sid other s.sessions,
      );
      within = λ h. omega (arith, v.within h);
    })

track-Kept :
    (max : ℕ) (sid : String) (now : ℕ) (s : Shared)
    → lookup sid s.upstream_sessions ≡ none
    → (0 < s.max_sessions → s.ref_count < s.max_sessions)
    → Kept max s
    → Kept max (track sid now s)
unfolding track
track-Kept max sid now s new room v =
    let t = new_session s.next_address now in
    let also : lookup sid s.sessions ≡ none = ground (arith, v.agree sid, new) in
    record {
      same_limit = v.same_limit;
      distinct_upstream = insert-Distinct sid tt s.upstream_sessions v.distinct_upstream;
      distinct_sessions = insert-Distinct sid t s.sessions v.distinct_sessions;
      count_upstream =
          omega (arith, v.count_upstream, length-insert_new sid tt s.upstream_sessions new);
      count_sessions = omega (arith, v.count_sessions, length-insert_new sid t s.sessions also);
      agree = λ other. ground (
        arith,
        v.agree other,
        lookup-insert sid other tt s.upstream_sessions,
        lookup-insert sid other t s.sessions,
      );
      within = λ h. omega (arith, room, v.same_limit, v.within h);
    }

-- What an admission leaves, if it does not panic.
abbrev pub Awaited : ℕ → Option (Shared × ℕ) → Type 0
Awaited max none = Unit
Awaited max (some (s, address)) = Kept max s

await_admission-Awaited :
    (max : ℕ) (sid : String) (s : Shared) → Kept max s → Awaited max (await_admission sid s)
unfolding await_admission
await_admission-Awaited max sid s v =
    Option-branches (Awaited max) (lookup sid s.sessions) _ _ tt (λ t there.
      write-Books max s.max_sessions s.ref_count s.upstream_sessions s.sessions sid t
        (record t { pending = suc t.pending }) there v)

abbrev pub Began : ℕ → Option (Shared × Result SharedError ℕ) → Type 0
Began max none = Unit
Began max (some (s, r)) = Kept max s

granted-Began : (max : ℕ) (r : Option (Shared × ℕ)) → Awaited max r → Began max (granted r)
granted-Began max none v = tt
granted-Began max (some (s, address)) v = v

pub admission_begin-Began :
    (max : ℕ) (sid : String) (now : ℕ) (s : Shared)
    → Kept max s
    → Began max (admission_begin sid now s)
unfolding admission_begin
admission_begin-Began max sid now s v =
    if-branches (Began max) s.closed _ _ (λ _. v)
      λ _.
        Option-branches_eq (Began max) (lookup sid s.upstream_sessions) _ _
          (λ new.
            if-branches (Began max) (ltb 0 s.max_sessions && leb s.max_sessions s.ref_count) _ _
              (λ _. v)
              (λ room. granted-Began max (await_admission sid (track sid now s)) (
                await_admission-Awaited max sid (track sid now s)
                  (track-Kept max sid now s new (λ h. ground (arith, room, h)) v))))
          (λ _ there.
            granted-Began max (await_admission sid s) (await_admission-Awaited max sid s v))

pub admission_end-Kept :
    (max : ℕ) (sid : String) (address : ℕ) (ready : Bool) (now : ℕ) (s : Shared)
    → Kept max s
    → Kept max (admission_end sid address ready now s)
unfolding admission_end
admission_end-Kept max sid address ready now s v =
    Option-branches (Kept max) (lookup sid s.sessions) _ _ v λ t there.
      if-branches (Kept max) (not (nat_beq t.address address)) _ _ (λ _. v)
        λ _.
          if-branches (Kept max) (not ready && not t.admitted && nat_beq (t.pending - 1) 0) _ _
            (λ _. forget-Kept max sid s t there v)
            (λ _.
              write-Books max s.max_sessions s.ref_count s.upstream_sessions s.sessions sid t _
                there v)

pub remove_session-Kept :
    (max : ℕ) (sid : String) (s : Shared) → Kept max s → Kept max (remove_session sid s).0
unfolding remove_session
remove_session-Kept max sid s v =
    Option-branches (λ (r : Shared × Option SharedError). Kept max r.0)
      (lookup sid s.upstream_sessions) _ _ v
      λ _ there. elim (Option-cases (lookup sid s.sessions)) [
        | inl missing ↦ absurd (ground (arith, v.agree sid, there, missing))
        | inr (t, also) ↦ forget-Kept max sid s t also v
      ]

pub touch_session-Kept :
    (max : ℕ) (sid : String) (now : ℕ) (s : Shared)
    → Kept max s
    → Kept max (touch_session sid now s)
unfolding touch_session
touch_session-Kept max sid now s v =
    Option-branches (Kept max) (lookup sid s.sessions) _ _ v λ t there.
      if-branches (Kept max) t.expiring _ _ (λ _. v)
        (λ _.
          write-Books max s.max_sessions s.ref_count s.upstream_sessions s.sessions sid t _ there v)

abbrev pub Entered : ℕ → Shared × Result SharedError ℕ → Type 0
Entered max r = Kept max r.0

pub request_enter-Entered :
    (max : ℕ) (sid : String) (s : Shared) → Kept max s → Entered max (request_enter sid s)
unfolding request_enter
request_enter-Entered max sid s v =
    if-branches (Entered max) s.closed _ _ (λ _. v)
      λ _. Option-branches (Entered max) (lookup sid s.sessions) _ _ v λ t there.
        if-branches (Entered max) t.expiring _ _ (λ _. v)
          (λ _.
            write-Books max s.max_sessions s.ref_count s.upstream_sessions s.sessions sid t
              (more_in_flight t) there v)

leave_session-Kept :
    (max : ℕ) (sid : String) (address : ℕ) (s : Shared)
    → Kept max s
    → Kept max (leave_session sid address s)
unfolding leave_session
leave_session-Kept max sid address s v =
    Option-branches (Kept max) (lookup sid s.sessions) _ _ v λ t there.
      if-branches (Kept max) (nat_beq t.address address) _ _
        (λ _.
          write-Books max s.max_sessions s.ref_count s.upstream_sessions s.sessions sid t
            (less_in_flight t) there v)
        (λ _. v)

one_less_active-SameBooks : (s : Shared) → SameBooks s (one_less_active s)
unfolding one_less_active
one_less_active-SameBooks s = ground arith

pub request_release-Kept :
    (max : ℕ) (sid : String) (address : ℕ) (admitted : Bool) (s : Shared)
    → Kept max s
    → Kept max (request_release sid address admitted s)
unfolding request_release
request_release-Kept max sid address admitted s v =
    let s' = leave_session sid address s in
    let w = leave_session-Kept max sid address s v in
    if-branches (Kept max) admitted _ _
      (λ _. same-Kept max s' (one_less_active s') (one_less_active-SameBooks s') w) (λ _. w)

pub request_admit-SameBooks :
    (sid : String) (address : ℕ) (s s' : Shared)
    → request_admit sid address s ≡ (s', none)
    → SameBooks s s'
unfolding request_admit
request_admit-SameBooks sid address s s' e = ground arith
