-- ===== src/Session/Manager/Removal.antt =====
-- internal/session/manager.go: what each way of removing a session does.
use vision_mcp_manager.Base.{
  ℕ, ◌+◌, ◌≡◌, ◌≢◌, ◌↔◌, ◌<◌, ◌==◌, lookup-erase, ◌⊎◌, refl, ap, ◌∙◌, sym, inl, inr, arith, Bool,
  true, false, Option, none, some, String, List, [], ◌∷◌, ◌++◌, map, select, if◌then◌else◌,
  Bool-cases, Dict, lookup, erase, Distinct, string_eq,
}
use mathlib.Core.List.{append-nil, append_assoc}
use vision_mcp_manager.Session.Manager.{
  session_not_found, Outcome, remove_entry, panicked, returned, TrackedSession, Effect, notified,
  closed, Manager, session_removed_callbacks, close_tracked_session, remove_session, is_expired,
  reap_entries, close_sessions, reap_expired_sessions, started,
}

-- The log of one closing: every callback, in order, before `Close`.
abbrev pub closing : List ℕ → String → List Effect
closing callbacks sid = map (λ callback. notified callback sid) callbacks ++ (closed sid ∷ [])

abbrev pub closings : List ℕ → List TrackedSession → List Effect
closings callbacks [] = []
closings callbacks (t ∷ ts) = closing callbacks t.session_id ++ closings callbacks ts

close_sessions-log :
    (ts : List TrackedSession) (m : Manager)
    → (close_sessions ts m).log ≡ m.log ++ closings (session_removed_callbacks m) ts
unfolding close_sessions
close_sessions-log [] m = sym (append-nil m.log)
close_sessions-log (t ∷ ts) m =
    close_sessions-log ts (close_tracked_session t m)
    ∙ append_assoc m.log (closing (session_removed_callbacks m) t.session_id)
        (closings (session_removed_callbacks m) ts)

pub close_sessions-sessions :
    (ts : List TrackedSession) (m : Manager) → (close_sessions ts m).sessions ≡ m.sessions
unfolding close_sessions
close_sessions-sessions [] m = refl
close_sessions-sessions (t ∷ ts) m = close_sessions-sessions ts (close_tracked_session t m)

-- The session of an entry, if its process runs.
abbrev pub running : Option (Option TrackedSession) → List TrackedSession
running none = []
running (some none) = []
running (some (some t)) = t ∷ []

pub reap_entries-missing :
    (idle ttl now : ℕ) (sid : String) (sessions : Dict String (Option TrackedSession))
    → lookup sid sessions ≡ none
    → lookup sid (reap_entries idle ttl now sessions).0 ≡ none
unfolding reap_entries lookup
reap_entries-missing idle ttl now sid [] h = h
reap_entries-missing idle ttl now sid ((s, none) ∷ sessions) h =
    ground (arith, h, reap_entries-missing idle ttl now sid sessions)
reap_entries-missing idle ttl now sid ((s, some t) ∷ sessions) h =
    ground (arith, h, reap_entries-missing idle ttl now sid sessions)

-- What the reaper makes of an entry.
abbrev pub kept : (idle ttl now : ℕ) → Option TrackedSession → Option (Option TrackedSession)
kept idle ttl now none = some none
kept idle ttl now (some t) = if is_expired idle ttl now t then none else some (some t)

pub reap_entries-lookup :
    (idle ttl now : ℕ) (sid : String) (entry : Option TrackedSession)
    (sessions : Dict String (Option TrackedSession))
    → Distinct sessions
    → lookup sid sessions ≡ some entry
    → lookup sid (reap_entries idle ttl now sessions).0 ≡ kept idle ttl now entry
unfolding reap_entries lookup
reap_entries-lookup idle ttl now sid entry [] d h = cc
reap_entries-lookup idle ttl now sid entry ((s, none) ∷ sessions) d h =
    ground (
      arith,
      h,
      d,
      string_eq.beq_iff s sid,
      reap_entries-lookup idle ttl now sid entry sessions d.1,
    )
reap_entries-lookup idle ttl now sid entry ((s, some t) ∷ sessions) d h = ground (
  arith,
  h,
  d,
  string_eq.beq_iff s sid,
  reap_entries-lookup idle ttl now sid entry sessions d.1,
  reap_entries-missing idle ttl now sid sessions,
)

reap_entries-select :
    (idle ttl now : ℕ) (sessions : Dict String (Option TrackedSession))
    → (reap_entries idle ttl now sessions).1 ≡ select (is_expired idle ttl now) (started sessions)
unfolding reap_entries started
reap_entries-select idle ttl now [] = refl
reap_entries-select idle ttl now ((s, none) ∷ sessions) = reap_entries-select idle ttl now sessions
reap_entries-select idle ttl now ((s, some t) ∷ sessions) =
    ground (arith, reap_entries-select idle ttl now sessions)

-- Idle longer than a timeout that is on, or older than a lifetime that is on.
abbrev pub Expired : (idle ttl now : ℕ) → TrackedSession → Type 0
Expired idle ttl now t =
    ((0 < idle) × (t.last_activity + idle < now)) ⊎ ((0 < ttl) × (t.created_at + ttl < now))

is_expired-Expired :
    (idle ttl now : ℕ) (t : TrackedSession)
    → is_expired idle ttl now t ≡ true
    → Expired idle ttl now t
unfolding is_expired
is_expired-Expired idle ttl now t h = ground (arith, h)

-- The reaper is exact. A session whose process runs is removed if it has been idle for longer than
-- the timeout or has lived longer than its time, where those are on, and stays as it was otherwise;
-- a session that is being spawned stays; and for exactly the sessions that go, in turn, every
-- removal callback is called, the primary one first, before the session's connection is closed.
pub reap_exact :
    (idle ttl now : ℕ) (sid : String) (m : Manager)
    → Distinct m.sessions
    → ((t : TrackedSession)
        → lookup sid m.sessions ≡ some (some t)
        → (Expired idle ttl now t
            → lookup sid (reap_expired_sessions idle ttl now m).sessions ≡ none)
          × (¬ Expired idle ttl now t
              → lookup sid (reap_expired_sessions idle ttl now m).sessions ≡ some (some t)))
      × (lookup sid m.sessions ≡ some none
          → lookup sid (reap_expired_sessions idle ttl now m).sessions ≡ some none)
      × ((reap_expired_sessions idle ttl now m).log
          ≡ m.log
            ++ closings
                (session_removed_callbacks m)
                (select (is_expired idle ttl now) (started m.sessions)))
unfolding reap_expired_sessions is_expired
reap_exact idle ttl now sid m d =
    let swept = record m { sessions = (reap_entries idle ttl now m.sessions).0 } in
    let gone = (reap_entries idle ttl now m.sessions).1 in
    let same = ap (lookup sid) (close_sessions-sessions gone swept) in
    (
      λ t found. (
        λ due.
            ground
              (arith, same, due, reap_entries-lookup idle ttl now sid (some t) m.sessions d found),
        λ spared. elim (Bool-cases (is_expired idle ttl now t)) [
          | inl due ↦ absurd (spared (is_expired-Expired idle ttl now t due))
          | inr stays ↦
              ground (
                arith,
                same,
                stays,
                reap_entries-lookup idle ttl now sid (some t) m.sessions d found,
              )
        ],
      ),
      λ reserved. same ∙ reap_entries-lookup idle ttl now sid none m.sessions d reserved,
      close_sessions-log gone swept
          ∙ ap (λ ts. m.log ++ closings (session_removed_callbacks m) ts)
              (reap_entries-select idle ttl now m.sessions),
    )

remove_entry-limit :
    (closes : Bool) (sid : String) (entry : Option (Option TrackedSession)) (m : Manager)
    → (remove_entry closes sid entry m).0.max_sessions ≡ m.max_sessions
unfolding remove_entry close_tracked_session
remove_entry-limit closes sid none m = refl
remove_entry-limit closes sid (some none) m = refl
remove_entry-limit closes sid (some (some t)) m = refl

remove_entry-sessions :
    (closes : Bool) (sid : String) (entry : Option (Option TrackedSession)) (m : Manager)
    → (remove_entry closes sid entry m).0.sessions
      ≡ elim entry [ none ↦ m.sessions | some _ ↦ erase sid m.sessions ]
unfolding remove_entry close_tracked_session
remove_entry-sessions closes sid none m = refl
remove_entry-sessions closes sid (some none) m = refl
remove_entry-sessions closes sid (some (some t)) m = refl

remove_entry-log :
    (closes : Bool) (sid : String) (entry : Option (Option TrackedSession)) (m : Manager)
    → (remove_entry closes sid entry m).0.log
      ≡ m.log ++ closings (session_removed_callbacks m) (running entry)
unfolding remove_entry close_tracked_session
remove_entry-log closes sid none m = sym (append-nil m.log)
remove_entry-log closes sid (some none) m = sym (append-nil m.log)
remove_entry-log closes sid (some (some t)) m =
    ap (λ x. m.log ++ x) (sym (append-nil (closing (session_removed_callbacks m) t.session_id)))

abbrev pub is_panic : Outcome → Bool
is_panic panicked = true
is_panic (returned e) = false

remove_entry-panics :
    (closes : Bool) (sid : String) (entry : Option (Option TrackedSession)) (m : Manager)
    → (is_panic (remove_entry closes sid entry m).1 ≡ true) ↔ (entry ≡ some none)
unfolding remove_entry
remove_entry-panics closes sid none m = ground arith
remove_entry-panics closes sid (some none) m = ground arith
remove_entry-panics closes sid (some (some t)) m = ground arith

pub remove_session-sessions :
    (closes : Bool) (sid : String) (m : Manager)
    → ((remove_session closes sid m).0.max_sessions ≡ m.max_sessions)
      × ((remove_session closes sid m).0.sessions
          ≡ elim (lookup sid m.sessions) [ none ↦ m.sessions | some _ ↦ erase sid m.sessions ])
unfolding remove_session
remove_session-sessions closes sid m = (
  remove_entry-limit closes sid (lookup sid m.sessions) m,
  remove_entry-sessions closes sid (lookup sid m.sessions) m,
)

removed-gone :
    (closes : Bool) (sid other : String) (m : Manager)
    → lookup other (remove_session closes sid m).0.sessions
      ≡ (if sid == other then none else lookup other m.sessions)
removed-gone closes sid other m =
    ap (lookup other) (remove_session-sessions closes sid m).1
    ∙ ground (arith, lookup-erase sid other m.sessions, string_eq.beq_iff sid other)

-- A session that is not listed.
removed-unknown :
    (closes : Bool) (sid : String) (m : Manager)
    → lookup sid m.sessions ≡ none
    → remove_session closes sid m ≡ (m, returned (some session_not_found))
unfolding remove_session remove_entry
removed-unknown closes sid m new = ap (λ entry. remove_entry closes sid entry m) new

-- A removal is final. Whatever was listed, and even where it panics, `RemoveSession` leaves the
-- session unlisted and all other sessions as they were, so that a second removal finds nothing,
-- changes nothing and calls no callback; it adds to the log exactly the callbacks, the primary one
-- first, and then the closing of a session whose process ran; and it panics exactly if the session
-- was still being spawned.
pub removed_once :
    (closes again : Bool) (sid : String) (m : Manager)
    → let (m₁, o) = remove_session closes sid m in
      (lookup sid m₁.sessions ≡ none)
      × ((other : String) → other ≢ sid → lookup other m₁.sessions ≡ lookup other m.sessions)
      × (remove_session again sid m₁ ≡ (m₁, returned (some session_not_found)))
      × (m₁.log ≡ m.log ++ closings (session_removed_callbacks m) (running (lookup sid m.sessions)))
      × ((is_panic o ≡ true) ↔ (lookup sid m.sessions ≡ some none))
removed_once closes again sid m =
    let gone : lookup sid (remove_session closes sid m).0.sessions ≡ none =
      ground (arith, removed-gone closes sid sid m, string_eq.beq_iff sid sid) in
    (
      gone,
      λ other h. ground (arith, h, removed-gone closes sid other m, string_eq.beq_iff sid other),
      removed-unknown again sid (remove_session closes sid m).0 gone,
      unfold remove_session in remove_entry-log closes sid (lookup sid m.sessions) m,
      unfold remove_session in remove_entry-panics closes sid (lookup sid m.sessions) m,
    )
