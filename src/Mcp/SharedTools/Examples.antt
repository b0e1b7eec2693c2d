-- ===== src/Mcp/SharedTools/Examples.antt =====
-- internal/mcp/proxy.go: the theorems at concrete coordinators.
use vision_mcp_manager.Base.{
  ℕ, ◌≡◌, refl, ◌⊎◌, arith, none, some, ok, List, [], ◌∷◌, lookup, erase, Distinct, string_eq,
  nat_eq,
}
use vision_mcp_manager.Mcp.SharedTools.{
  CacheEntry, Coordinator, joins, hits, execute_begin, execute_finish, trim_cache, trim_rounds,
  oldest_key, oldest_from,
}
use vision_mcp_manager.Mcp.SharedTools.Trim.{Trimmed, trim_ends}
use vision_mcp_manager.Mcp.SharedTools.Flights.{Event, begins, finishes, execute_run, single_flight}

abbrev entry : ℕ → CacheEntry ℕ
entry time = record { result = 7; expires_at = 100; created_at = time }

-- Three entries where two fit, and a call in flight.
abbrev coordinator : Coordinator ℕ
coordinator = record {
  enabled = "read" ∷ [];
  cache_ttl = 50;
  max_entries = 2;
  next_call = 1;
  inflight = ("read:a", 0) ∷ [];
  cache = ("read:x", entry 5) ∷ ("read:y", entry 3) ∷ ("read:z", entry 9) ∷ [];
  finished = [];
}

distinct : Distinct coordinator.cache
unfolding lookup
distinct = (refl, (refl, (refl, tt)))

trim_ends_example : Trimmed 2 coordinator.cache (trim_cache coordinator).cache
trim_ends_example = trim_ends coordinator (ground arith) distinct (refl, (refl, (refl, tt)))

oldest_dropped : (trim_cache coordinator).cache ≡ ("read:x", entry 5) ∷ ("read:z", entry 9) ∷ []
unfolding trim_cache trim_rounds oldest_key oldest_from erase
oldest_dropped = refl

abbrev events : List (Event ℕ)
events = begins "read:b" 10 ∷ finishes "read:b" 1 11 (ok (some 4)) ∷ begins "read:a" 12 ∷ []

flies : lookup "read:a" coordinator.inflight ≡ some 0
unfolding lookup
flies = refl

single_flight_example :
    let c' = execute_run coordinator events in
    (((execute_begin "read:a" 13 c').1 ≡ joins 0)
      ⊎ ((result : ℕ) × ((execute_begin "read:a" 13 c').1 ≡ hits result)))
    × (lookup 0 (execute_finish "read:a" 0 14 (ok none) c').finished ≡ some (ok none))
    × (lookup "read:a" (execute_finish "read:a" 0 14 (ok none) c').inflight ≡ none)
single_flight_example =
    single_flight "read:a" 0 13 14 (ok none) events coordinator flies (tt, (refl, (tt, tt)))
