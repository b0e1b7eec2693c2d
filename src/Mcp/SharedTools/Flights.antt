-- ===== src/Mcp/SharedTools/Flights.antt =====
-- internal/mcp/proxy.go: equal calls of a shared tool are joined.
use vision_mcp_manager.Base.{
  ℕ, String, ◌≡◌, refl, ap, ◌∙◌, ◌⊎◌, inl, inr, false, ◌&&◌, Option, none, some, Result, ok, err,
  List, [], ◌∷◌, arith, ltb, lookup, erase, All, ◌==◌, ==_iff, string_eq, nat_eq, Bool-cases,
  Option-cases, lookup-insert, lookup-insert_self, lookup-erase, lookup-erase_self,
}
use vision_mcp_manager.Mcp.SharedTools.{
  Coordinator, hits, joins, trim_cache, join_or_lead, execute_begin, cached, execute_finish,
}

-- One critical section of `execute`: the start of a call, or the end of one that leads.
pub data Event {ℓ} (A : Type ℓ) : Type ℓ where
  begins : String → ℕ → Event A
  finishes : String → ℕ → ℕ → Result String (Option A) → Event A

module _ {ℓ} {A : Type ℓ} where
  pub execute_step : Event A → Coordinator A → Coordinator A
  execute_step (begins key now) c = (execute_begin key now c).0
  execute_step (finishes key call now outcome) c = execute_finish key call now outcome c

  pub execute_run : Coordinator A → List (Event A) → Coordinator A
  unfolding execute_step
  execute_run c [] = c
  execute_run c (e ∷ es) = execute_run (execute_step e c) es

  -- The event is not the end of a call under the key.
  abbrev pub Leaves : String → Event A → Type 0
  Leaves key (begins other now) = Unit
  Leaves key (finishes other call now outcome) = (other == key) ≡ false

  cached-inflight :
      (key : String) (now : ℕ) (outcome : Result String (Option A)) (c : Coordinator A)
      → (cached key now outcome c).inflight ≡ c.inflight
  unfolding trim_cache
  cached-inflight key now (ok (some result)) c = ground arith
  cached-inflight key now (ok none) c = refl
  cached-inflight key now (err e) c = refl

  join_or_lead-keeps :
      (key other : String) (call : ℕ) (c : Coordinator A)
      → lookup key c.inflight ≡ some call
      → lookup key (join_or_lead other c).0.inflight ≡ some call
  join_or_lead-keeps key other call c flies =
      ground (arith, flies, lookup-insert other key c.next_call c.inflight, ==_iff other key)

  execute_begin-keeps :
      (key other : String) (now call : ℕ) (c : Coordinator A)
      → lookup key c.inflight ≡ some call
      → lookup key (execute_begin other now c).0.inflight ≡ some call
  unfolding execute_begin
  execute_begin-keeps key other now call c flies = ground (
    arith,
    flies,
    join_or_lead-keeps key other call c,
    join_or_lead-keeps key other call (record c { cache = erase other c.cache }),
  )

  execute_step-keeps :
      (key : String) (call : ℕ) (e : Event A) (c : Coordinator A)
      → Leaves key e
      → lookup key c.inflight ≡ some call
      → lookup key (execute_step e c).inflight ≡ some call
  unfolding execute_step execute_finish
  execute_step-keeps key call (begins other now) c leaves flies =
      execute_begin-keeps key other now call c flies
  execute_step-keeps key call (finishes other ended now outcome) c leaves flies =
      ap (lookup key)
        (cached-inflight other now outcome (record c { inflight = erase other c.inflight }))
      ∙ lookup-erase other key c.inflight
      ∙ (rw leaves flies)

  execute_run-keeps :
      (key : String) (call : ℕ) (es : List (Event A)) (c : Coordinator A)
      → All (Leaves key) es
      → lookup key c.inflight ≡ some call
      → lookup key (execute_run c es).inflight ≡ some call
  unfolding execute_run
  execute_run-keeps key call [] c leaves flies = flies
  execute_run-keeps key call (e ∷ es) c leaves flies =
      execute_run-keeps key call es (execute_step e c) leaves.1
        (execute_step-keeps key call e c leaves.0 flies)

  -- A call under a key in flight does not lead.
  follows :
      (key : String) (now call : ℕ) (c : Coordinator A)
      → lookup key c.inflight ≡ some call
      → ((execute_begin key now c).1 ≡ joins call)
        ⊎ ((result : A) × ((execute_begin key now c).1 ≡ hits result))
  unfolding execute_begin
  follows key now call c flies = elim (Option-cases (lookup key c.cache)) [
    | inl missing ↦ inl (ground (arith, missing, flies))
    | inr (entry, there) ↦ elim (Bool-cases (ltb 0 c.cache_ttl && ltb now entry.expires_at)) [
      | inl fresh ↦ inr (entry.result, rw (execute_begin, there, fresh) refl)
      | inr stale ↦ inl (rw (execute_begin, there, stale) (ground (arith, flies)))
    ]
  ]

  execute_finish-finished :
      (key : String) (call now : ℕ) (outcome : Result String (Option A)) (c : Coordinator A)
      → (lookup call (execute_finish key call now outcome c).finished ≡ some outcome)
        × (lookup key (execute_finish key call now outcome c).inflight ≡ none)
  unfolding execute_finish
  execute_finish-finished key call now outcome c = (
    lookup-insert_self call outcome _,
    ap (lookup key) (cached-inflight key now outcome (record c { inflight = erase key c.inflight }))
        ∙ lookup-erase_self key c.inflight,
  )

-- At most one call of a tool with given arguments is in flight. While a call leads under a key,
-- whatever other calls begin and whatever calls under other keys end, each further call under the
-- key joins it, or finds a cached result, and none leads; and when it ends, those that joined it
-- find its outcome, and the key is free.
pub single_flight {ℓ} :
    {A : Type ℓ} (key : String) (call now later : ℕ) (outcome : Result String (Option A))
    (es : List (Event A)) (c : Coordinator A)
    → lookup key c.inflight ≡ some call
    → All (Leaves key) es
    → let c' = execute_run c es in
      (((execute_begin key now c').1 ≡ joins call)
        ⊎ ((result : A) × ((execute_begin key now c').1 ≡ hits result)))
      × (lookup call (execute_finish key call later outcome c').finished ≡ some outcome)
      × (lookup key (execute_finish key call later outcome c').inflight ≡ none)
single_flight key call now later outcome es c flies leaves =
    let c' = execute_run c es in
    let (left, free) = execute_finish-finished key call later outcome c' in
    (follows key now call c' (execute_run-keeps key call es c leaves flies), left, free)
