-- ===== src/Session/Shared/Drains.antt =====
-- internal/session/shared.go: active requests hold the subprocess, and a drain ends with the last.
use vision_mcp_manager.Base.{
  ℕ, suc, ◌+◌, ◌<◌, String, ◌≡◌, refl, ap, ◌∙◌, sym, subst, ◌⊎◌, inl, inr, arith, Bool, true, false,
  Option, none, some, nat_beq_iff, lookup, insert, erase, Distinct, string_eq, nat_eq,
  insert-Distinct, erase-Distinct, bit, count, count-insert_new, count-insert_old, count-erase,
}
use vision_mcp_manager.Session.Shared.{
  SharedStartup, Shared, arm_idle_timer, request_admit, leave_session, one_less_active,
  request_release,
}
use vision_mcp_manager.Session.Shared.Startup.{
  is_in, is_some, start_downstream, get_or_create_downstream, startup_clear, startup_close,
  startup_spawn, startup_publish, startup_refuse, startup_finish, reap_downstream, close_all,
  close_ended, health_check_result,
}
use vision_mcp_manager.Session.Shared.Frames.{SameRequests, Untouched, leave_session-Untouched}
use vision_mcp_manager.Session.Shared.Steps.{Request, System, with_shared}

abbrev pub drain_of : Option SharedStartup → Option ℕ
drain_of none = none
drain_of (some st) = st.drain

abbrev pub is_admitted : Request → Bool
is_admitted r = r.admitted

-- `n` requests are active; someone waits for their end only if there are any; and the channel that a
-- startup waits for is closed, or is the one that the last active request will close.
pub record Sync (n : ℕ) (s : Shared) : Type 0 where
  pub active : s.active_requests ≡ n
  pub waited : is_some s.requests_drained ≡ true → 0 < s.active_requests
  pub awaited :
      (ch : ℕ)
      → drain_of s.starting ≡ some ch
      → (is_in ch s.drained ≡ true) ⊎ (s.requests_drained ≡ some ch)

-- The requests are as they were, and a startup waits for the same channel, or for none.
pub record Eases (s s' : Shared) : Type 0 where
  pub requests : SameRequests s s'
  pub drain : (drain_of s'.starting ≡ drain_of s.starting) ⊎ (drain_of s'.starting ≡ none)

eased-Sync : (n : ℕ) (s s' : Shared) → Eases s s' → Sync n s → Sync n s'
eased-Sync n s s' same v = record {
  active = same.requests.active ∙ v.active;
  waited = λ h.
      omega (arith, same.requests.active, v.waited (ap is_some (sym same.requests.waited) ∙ h));
  awaited = λ ch e. elim same.drain [
    | inr gone ↦ absurd (ground (arith, gone, e))
    | inl kept ↦ elim (v.awaited ch (sym kept ∙ e)) [
      | inl over ↦ inl (ap (is_in ch) same.requests.drained ∙ over)
      | inr last ↦ inr (same.requests.waited ∙ last)
    ]
  ];
}

Untouched-Eases : (s s' : Shared) → Untouched s s' → Eases s s'
Untouched-Eases s s' same = record { requests = same.1; drain = inl (ap drain_of same.0.starting) }

pub get_or_create_downstream-Eases : (s : Shared) → Eases s (get_or_create_downstream s).0
unfolding get_or_create_downstream start_downstream
get_or_create_downstream-Eases s = record { requests = ground arith; drain = ground arith }

-- A startup goes on.
goes_on-Eases :
    (st : SharedStartup) (s s' : Shared)
    → s.starting ≡ some st
    → SameRequests s s'
    → drain_of s'.starting ≡ st.drain
    → Eases s s'
goes_on-Eases st s s' e same f = record { requests = same; drain = inl (f ∙ ap drain_of (sym e)) }

pub startup_clear-Eases :
    (st : SharedStartup) (s : Shared) → s.starting ≡ some st → Eases s (startup_clear st s)
unfolding startup_clear
startup_clear-Eases st s e = goes_on-Eases st s _ e (ground arith) refl

pub startup_close-Eases :
    (st : SharedStartup) (s : Shared) → s.starting ≡ some st → Eases s (startup_close st s)
unfolding startup_close
startup_close-Eases st s e = goes_on-Eases st s _ e (ground arith) refl

pub startup_spawn-Eases :
    (st : SharedStartup) (p : Option ℕ) (s : Shared)
    → s.starting ≡ some st
    → Eases s (startup_spawn st p s)
unfolding startup_spawn
startup_spawn-Eases st none s e = goes_on-Eases st s _ e (ground arith) refl
startup_spawn-Eases st (some p) s e = goes_on-Eases st s _ e (ground arith) refl

pub startup_publish-Eases :
    (st : SharedStartup) (p : Option ℕ) (s : Shared)
    → s.starting ≡ some st
    → Eases s (startup_publish st p s)
unfolding startup_publish
startup_publish-Eases st none s e = goes_on-Eases st s _ e (ground arith) refl
startup_publish-Eases st (some p) s e = goes_on-Eases st s _ e (ground arith) (ground arith)

pub startup_refuse-Eases :
    (st : SharedStartup) (p : ℕ) (s : Shared)
    → s.starting ≡ some st
    → Eases s (startup_refuse st p s)
unfolding startup_refuse
startup_refuse-Eases st p s e = goes_on-Eases st s _ e (ground arith) refl

pub startup_finish-Eases : (s : Shared) → Eases s (startup_finish s)
unfolding startup_finish arm_idle_timer
startup_finish-Eases s = record { requests = ground arith; drain = inr (ground arith) }

pub reap_downstream-Eases : (s : Shared) → Eases s (reap_downstream s)
unfolding reap_downstream arm_idle_timer
reap_downstream-Eases s = record { requests = ground arith; drain = inl (ground arith) }

pub close_all-Eases : (s : Shared) → Eases s (close_all s)
unfolding close_all
close_all-Eases s = record { requests = ground arith; drain = inl (ground arith) }

pub close_ended-Eases : (s : Shared) → Eases s (close_ended s)
unfolding close_ended
close_ended-Eases s = record { requests = ground arith; drain = inl (ground arith) }

pub health_check_result-Sync :
    (n p : ℕ) (succeeded says_closed : Bool) (s : Shared)
    → Sync n s
    → Sync n (health_check_result p succeeded says_closed s)
unfolding health_check_result start_downstream
health_check_result-Sync n p succeeded says_closed s v = record {
  active = ground (arith, v.active);
  waited = ground (arith, v.waited);
  awaited = λ ch e. ground (arith, v.awaited ch, e);
}

one_less_active-Sync : (n : ℕ) (s : Shared) → Sync (suc n) s → Sync n (one_less_active s)
unfolding one_less_active
one_less_active-Sync n s v = record {
  active = ground (arith, v.active);
  waited = ground (arith, v.waited, v.active);
  awaited = λ ch e. ground (arith, v.awaited ch, e, v.active, nat_beq_iff ch ch);
}

-- The active requests are those that have been dispatched and not released.
pub record Counted (w : System) : Type 0 where
  pub distinct : Distinct w.requests
  pub sync : Sync (count is_admitted w.requests) w.shared

pub shared-Counted :
    (w : System) (s : Shared) → Eases w.shared s → Counted w → Counted (with_shared w s)
shared-Counted w s same v = record {
  distinct = v.distinct;
  sync = eased-Sync (count is_admitted w.requests) w.shared s same v.sync;
}

pub Untouched-Counted :
    (w : System) (s : Shared) → Untouched w.shared s → Counted w → Counted (with_shared w s)
Untouched-Counted w s same v = shared-Counted w s (Untouched-Eases w.shared s same) v

pub enters-Counted :
    (w : System) (n : ℕ) (r : Request) (s : Shared)
    → lookup n w.requests ≡ none
    → r.admitted ≡ false
    → Untouched w.shared s
    → Counted w
    → Counted (record { shared = s; requests = insert n r w.requests })
enters-Counted w n r s free new same v =
    let more : count is_admitted (insert n r w.requests) ≡ count is_admitted w.requests =
      ground (arith, count-insert_new is_admitted n r w.requests free, new) in
    record {
      distinct = insert-Distinct n r w.requests v.distinct;
      sync =
          subst (λ k. Sync k s) (sym more)
            (eased-Sync _ w.shared s (Untouched-Eases w.shared s same) v.sync);
    }

request_admit-Sync :
    (n : ℕ) (sid : String) (address : ℕ) (s s' : Shared)
    → request_admit sid address s ≡ (s', none)
    → Sync n s
    → Sync (suc n) s'
unfolding request_admit
request_admit-Sync n sid address s s' e v = record {
  active = ground (arith, e, v.active);
  waited = λ h. ground (arith, e, v.waited);
  awaited = λ ch f. ground (arith, e, f, v.awaited ch);
}

pub dispatches-Counted :
    (w : System) (n : ℕ) (r : Request) (s : Shared)
    → lookup n w.requests ≡ some r
    → r.admitted ≡ false
    → request_admit r.session_id r.address w.shared ≡ (s, none)
    → Counted w
    → Counted (record { shared = s; requests = insert n (record r { admitted = true }) w.requests })
dispatches-Counted w n r s there new e v =
    let r' = record r { admitted = true } in
    let more : count is_admitted (insert n r' w.requests) ≡ suc (count is_admitted w.requests) =
      ground (arith, count-insert_old is_admitted n r' r w.requests there, new) in
    record {
      distinct = insert-Distinct n r' w.requests v.distinct;
      sync =
          subst (λ k. Sync k s) (sym more)
            (request_admit-Sync _ r.session_id r.address w.shared s e v.sync);
    }

request_release-Sync :
    (n : ℕ) (sid : String) (address : ℕ) (admitted : Bool) (s : Shared)
    → Sync (bit admitted + n) s
    → Sync n (request_release sid address admitted s)
unfolding request_release
request_release-Sync n sid address true s v =
    let s' = leave_session sid address s in
    one_less_active-Sync n s' (
      subst (λ k. Sync k s') (ground arith)
        (eased-Sync (1 + n) s s' (Untouched-Eases s s' (leave_session-Untouched sid address s)) v))
request_release-Sync n sid address false s v =
    let s' = leave_session sid address s in
    subst (λ k. Sync k s') (ground arith)
      (eased-Sync (0 + n) s s' (Untouched-Eases s s' (leave_session-Untouched sid address s)) v)

pub releases-Counted :
    (w : System) (n : ℕ) (r : Request)
    → lookup n w.requests ≡ some r
    → Counted w
    → Counted (record {
      shared = request_release r.session_id r.address r.admitted w.shared;
      requests = erase n w.requests;
    })
releases-Counted w n r there v = record {
  distinct = erase-Distinct n w.requests v.distinct;
  sync =
      request_release-Sync (count is_admitted (erase n w.requests)) r.session_id r.address
        r.admitted w.shared
        (subst (λ k. Sync k w.shared) (count-erase is_admitted n r w.requests v.distinct there)
          v.sync);
}
