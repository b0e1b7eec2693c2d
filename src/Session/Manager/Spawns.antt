-- ===== src/Session/Manager/Spawns.antt =====
-- internal/session/manager.go: the sections of `SpawnSession` and the limit on sessions.
use vision_mcp_manager.Base.{
  ℕ, false, ◌==◌, nat_eq, ◌≤◌, ◌<◌, ◌≡◌, sym, subst, inl, inr, arith, Option, none, some, String,
  length, Option-cases, Dict, lookup, insert, erase, Distinct, string_eq, lookup-erase,
  lookup-insert, insert-Distinct, erase-Distinct, length-insert_new, length-insert_old,
  length-erase-le,
}
use vision_mcp_manager.Session.Manager.{
  TrackedSession, Manager, spawn_begin, spawn_failed, spawn_connected, System,
}

-- Entries are distinct and within the limit `max`, and each session that is being spawned is
-- reserved, by one caller.
pub record Reserved (max : ℕ) (limit : ℕ) (sessions : Dict String (Option TrackedSession))
    (spawning : Dict ℕ String) : Type 0 where
  pub same_limit : limit ≡ max
  pub distinct : Distinct sessions
  pub within : 0 < max → length sessions ≤ max
  pub reserved :
      (n : ℕ) (sid : String) → lookup n spawning ≡ some sid → lookup sid sessions ≡ some none
  pub apart :
      (n k : ℕ) (sid : String) → lookup n spawning ≡ some sid → lookup k spawning ≡ some sid → n ≡ k

abbrev pub Inv : ℕ → System → Type 0
Inv max s = Reserved max s.manager.max_sessions s.manager.sessions s.spawning

spawn_begin-cases :
    (sid : String) (m m' : Manager)
    → spawn_begin sid m ≡ (m', none)
    → (lookup sid m.sessions ≡ none)
      × (0 < m.max_sessions → length m.sessions < m.max_sessions)
      × (m' ≡ record m { sessions = insert sid none m.sessions })
unfolding spawn_begin
spawn_begin-cases sid m m' e = elim (Option-cases (lookup sid m.sessions)) [
  | inr (entry, old) ↦ absurd (ground (arith, e, old))
  | inl new ↦ (new, λ h. ground (arith, e, new), ground (arith, e, new))
]

pub begins-Inv :
    (max : ℕ) (s : System) (n : ℕ) (sid : String) (m : Manager)
    → spawn_begin sid s.manager ≡ (m, none)
    → Inv max s
    → Reserved max m.max_sessions m.sessions (insert n sid s.spawning)
begins-Inv max s n sid m e v =
    let (new, room, changed) = spawn_begin-cases sid s.manager m e in
    subst (λ x. Reserved max x.max_sessions x.sessions (insert n sid s.spawning)) (sym changed)
      (record {
        same_limit = v.same_limit;
        distinct = insert-Distinct sid none s.manager.sessions v.distinct;
        within = λ h. omega (
          arith,
          length-insert_new sid none s.manager.sessions new,
          room,
          v.same_limit,
          v.within h,
        );
        reserved = λ k other h. ground (
          arith,
          h,
          new,
          lookup-insert sid other none s.manager.sessions,
          lookup-insert n k sid s.spawning,
          v.reserved k other,
          string_eq.beq_iff sid other,
        );
        apart = λ j k other h i. ground (
          arith,
          h,
          i,
          new,
          lookup-insert n j sid s.spawning,
          lookup-insert n k sid s.spawning,
          v.reserved j other,
          v.reserved k other,
          v.apart j k other,
        );
      })

-- What is said of the sessions holds with fewer of them, if those that are being spawned stay.
pub fewer-Inv :
    (max limit : ℕ) (sessions fewer : Dict String (Option TrackedSession))
    (spawning : Dict ℕ String)
    → Distinct fewer
    → length fewer ≤ length sessions
    → ((sid : String) → lookup sid sessions ≡ some none → lookup sid fewer ≡ some none)
    → Reserved max limit sessions spawning
    → Reserved max limit fewer spawning
fewer-Inv max limit sessions fewer spawning d le keep v = record {
  same_limit = v.same_limit;
  distinct = d;
  within = λ h. omega (arith, le, v.within h);
  reserved = λ n sid h. keep sid (v.reserved n sid h);
  apart = v.apart;
}

-- Without one of the calls, the others are still apart.
erased-apart :
    (max : ℕ) (s : System) (n : ℕ)
    → Inv max s
    → (j k : ℕ) (sid : String) → lookup j (erase n s.spawning) ≡ some sid
    → lookup k (erase n s.spawning) ≡ some sid
    → j ≡ k
erased-apart max s n v j k sid h i =
    ground (arith, h, i, lookup-erase n j s.spawning, lookup-erase n k s.spawning, v.apart j k sid)

-- The session of another call is another one.
erased-other :
    (max : ℕ) (s : System) (n : ℕ) (sid : String) (k : ℕ) (other : String)
    → lookup n s.spawning ≡ some sid
    → Inv max s
    → lookup k (erase n s.spawning) ≡ some other
    → ((sid == other) ≡ false) × (lookup other s.manager.sessions ≡ some none)
erased-other max s n sid k other p v h = ground (
  arith,
  h,
  p,
  lookup-erase n k s.spawning,
  v.apart n k sid,
  v.reserved k other,
  string_eq.beq_iff sid other,
)

pub fails-Inv :
    (max : ℕ) (s : System) (n : ℕ) (sid : String)
    → lookup n s.spawning ≡ some sid
    → Inv max s
    → Inv max (record { manager = spawn_failed sid s.manager; spawning = erase n s.spawning })
unfolding spawn_failed
fails-Inv max s n sid p v = record {
  same_limit = v.same_limit;
  distinct = erase-Distinct sid s.manager.sessions v.distinct;
  within = λ h. omega (arith, length-erase-le sid s.manager.sessions, v.within h);
  reserved = λ k other h.
      ground
        (arith, lookup-erase sid other s.manager.sessions, erased-other max s n sid k other p v h);
  apart = erased-apart max s n v;
}

pub connects-Inv :
    (max : ℕ) (s : System) (n : ℕ) (sid : String) (now : ℕ)
    → lookup n s.spawning ≡ some sid
    → Inv max s
    → Inv max
        (record { manager = spawn_connected sid now s.manager; spawning = erase n s.spawning })
unfolding spawn_connected
connects-Inv max s n sid now p v =
    let t : TrackedSession = record { session_id = sid; created_at = now; last_activity = now } in
    record {
      same_limit = v.same_limit;
      distinct = insert-Distinct sid (some t) s.manager.sessions v.distinct;
      within = λ h. omega (
        arith,
        length-insert_old sid (some t) none s.manager.sessions (v.reserved n sid p),
        v.within h,
      );
      reserved = λ k other h. ground (
        arith,
        lookup-insert sid other (some t) s.manager.sessions,
        erased-other max s n sid k other p v h,
      );
      apart = erased-apart max s n v;
    }
