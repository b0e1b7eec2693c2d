-- ===== src/Mcp/SharedTools.antt =====
-- internal/mcp/proxy.go: the coordinator of shared read-only tools, which joins equal calls and
-- caches their results. Results are of any type; an error is its text. Times are nanoseconds, and a
-- lifetime or a limit that is not positive is 0.
pub mod Trim
pub mod Flights
mod Examples
use vision_mcp_manager.Base.{
  ℕ, zero, suc, ◌+◌, String, Bool, true, false, not, ◌&&◌, ◌||◌, Option, none, some, Result, ok,
  err, List, [], ◌∷◌, ltb, leb, nat_beq, if◌then◌else◌, length, any, Dict, lookup, insert, erase,
  ◌==◌, string_eq, nat_eq,
}

pub record CacheEntry {ℓ} (A : Type ℓ) : Type ℓ where
  pub result : A
  pub expires_at : ℕ
  pub created_at : ℕ

-- `finished` has what each call left for those that wait for it, by the call's number. A result may
-- be nil.
pub record Coordinator {ℓ} (A : Type ℓ) : Type ℓ where
  pub enabled : List String
  pub cache_ttl : ℕ
  pub max_entries : ℕ
  pub next_call : ℕ
  pub inflight : Dict String ℕ
  pub cache : Dict String (CacheEntry A)
  pub finished : Dict ℕ (Result String (Option A))

-- The trimmed names that are not empty, once each. `trim` is `strings.TrimSpace`.
pub enabled_tools : (trim : String → String) → List String → List String
enabled_tools trim [] = []
enabled_tools trim (tool ∷ tools) =
    let rest = enabled_tools trim tools in
    if trim tool == "" || any (λ t. t == trim tool) rest then rest else trim tool ∷ rest

-- What a call of an enabled tool finds: a cached result, an equal call in flight, or nothing, in
-- which case it leads.
pub data Begun {ℓ} (A : Type ℓ) : Type ℓ where
  hits : A → Begun A
  joins leads : ℕ → Begun A

module _ {ℓ} {A : Type ℓ} where
  pub new_shared_tool_coordinator :
      (trim : String → String) → List String → (cache_ttl max_entries : ℕ) → Option (Coordinator A)
  unfolding enabled_tools
  new_shared_tool_coordinator trim tools cache_ttl max_entries = elim (enabled_tools trim tools) [
    | [] ↦ none
    | tool ∷ rest ↦ some (record {
      enabled = tool ∷ rest;
      cache_ttl = cache_ttl;
      max_entries = if leb max_entries 0 then 128 else max_entries;
      next_call = 0;
      inflight = [];
      cache = [];
      finished = [];
    })
  ]

  -- A nil coordinator enables nothing.
  pub enabled_for : String → Option (Coordinator A) → Bool
  enabled_for tool none = false
  enabled_for tool (some c) = any (λ t. t == tool) c.enabled

  -- The search for the oldest entry. Go visits a map in any order; here, among entries of one time,
  -- the first in the list is found.
  pub oldest_from : String → ℕ → Dict String (CacheEntry A) → String × ℕ
  oldest_from key time [] = (key, time)
  oldest_from key time ((k, e) ∷ rest) =
      if ltb e.created_at time then oldest_from k e.created_at rest else oldest_from key time rest

  pub oldest_key : Dict String (CacheEntry A) → String
  unfolding oldest_from
  oldest_key [] = ""
  oldest_key ((k, e) ∷ rest) = (oldest_from k e.created_at rest).0

  -- The loop of `trimCacheLocked`, for at most `rounds` rounds.
  pub trim_rounds :
      (rounds : ℕ) → (max_entries : ℕ) → Dict String (CacheEntry A) → Dict String (CacheEntry A)
  unfolding oldest_key
  trim_rounds zero max_entries cache = cache
  trim_rounds (suc rounds) max_entries cache =
      if leb (length cache) max_entries || oldest_key cache == ""
      then cache
      else trim_rounds rounds max_entries (erase (oldest_key cache) cache)

  -- Each round drops an entry, so there are no more rounds than entries.
  pub trim_cache : Coordinator A → Coordinator A
  unfolding trim_rounds
  trim_cache c =
      if leb c.max_entries 0
      then c
      else record c { cache = trim_rounds (length c.cache) c.max_entries c.cache }

  abbrev pub lead : String → Coordinator A → Coordinator A × Begun A
  lead key c = (
    record c { next_call = suc c.next_call; inflight = insert key c.next_call c.inflight },
    leads c.next_call,
  )

  abbrev pub join_or_lead : String → Coordinator A → Coordinator A × Begun A
  join_or_lead key c = elim (lookup key c.inflight) [
    | some call ↦ (c, joins call)
    | none ↦ lead key c
  ]

  -- `execute` up to the call of the tool, or to the wait of a call that joins another. That wait ends
  -- with the other call's outcome or with the caller's context, which changes nothing here.
  pub execute_begin : String → (now : ℕ) → Coordinator A → Coordinator A × Begun A
  execute_begin key now c = elim (lookup key c.cache) [
    | none ↦ join_or_lead key c
    | some entry ↦
        if ltb 0 c.cache_ttl && ltb now entry.expires_at
        then (c, hits entry.result)
        else join_or_lead key (record c { cache = erase key c.cache })
  ]

  abbrev pub cached : String → (now : ℕ) → Result String (Option A) → Coordinator A → Coordinator A
  cached key now (ok (some result)) c =
      if ltb 0 c.cache_ttl
      then trim_cache (record c {
        cache =
            insert key
              (record { result = result; expires_at = now + c.cache_ttl; created_at = now })
              c.cache;
      })
      else c
  cached key now _ c = c

  -- What the leader does with the outcome of its call.
  pub execute_finish :
      String → (call : ℕ) → (now : ℕ) → Result String (Option A) → Coordinator A → Coordinator A
  unfolding trim_cache
  execute_finish key call now outcome c =
      let c' = cached key now outcome (record c { inflight = erase key c.inflight }) in
      record c' { finished = insert call outcome c'.finished }
