-- ===== src/Mcp/SharedTools/Trim.antt =====
-- internal/mcp/proxy.go: trimming the cache of shared results.
use Prim.Native.Nat.{min}
use vision_mcp_manager.Base.{
  ℕ, zero, suc, ◌+◌, ◌≤◌, ◌<◌, String, ◌≡◌, refl, ap, ◌∙◌, sym, ◌⊎◌, inl, inr, false, none, some,
  [], ◌∷◌, arith, ltb, leb, length, Dict, lookup, erase, Distinct, Each, Each-lookup, Each-mono,
  erase-Each, ◌==◌, ==_iff, ==_refl, string_eq, Bool-cases, if-branches, lookup-erase,
  erase-Distinct, length-erase_old,
}
use vision_mcp_manager.Mcp.SharedTools.{
  CacheEntry, Coordinator, oldest_from, oldest_key, trim_rounds, trim_cache,
}

module _ {ℓ} {A : Type ℓ} where
  -- No later than a time and than all entries.
  abbrev Least : ℕ → Dict String (CacheEntry A) → String × ℕ → Type 0
  Least time cache r = (r.1 ≤ time) × Each (λ k e. r.1 ≤ e.created_at) cache

  oldest_from-Least :
      (key : String) (time : ℕ) (cache : Dict String (CacheEntry A))
      → Least time cache (oldest_from key time cache)
  unfolding oldest_from
  oldest_from-Least key time [] = (omega arith, tt)
  oldest_from-Least key time ((k, e) ∷ rest) =
      if-branches (Least time ((k, e) ∷ rest)) (ltb e.created_at time)
        (oldest_from k e.created_at rest) (oldest_from key time rest)
        (λ older.
          let (le, all) = oldest_from-Least k e.created_at rest in
          (ground (arith, le, older), (le, all)))
        (λ younger.
          let (le, all) = oldest_from-Least key time rest in
          (le, (ground (arith, le, younger), all)))

  -- What is found is where the search began, or an entry.
  abbrev Found : String → ℕ → Dict String (CacheEntry A) → String × ℕ → Type ℓ
  Found key time cache r =
      ((r.0 ≡ key) × (r.1 ≡ time))
      ⊎ ((e : CacheEntry A) × (lookup r.0 cache ≡ some e) × (e.created_at ≡ r.1))

  lookup-later :
      (k j : String) (e e' : CacheEntry A) (rest : Dict String (CacheEntry A))
      → lookup k rest ≡ none
      → lookup j rest ≡ some e'
      → lookup j ((k, e) ∷ rest) ≡ some e'
  unfolding lookup
  lookup-later k j e e' rest new found = ground (arith, new, found, ==_iff k j)

  oldest_from-Found :
      (key : String) (time : ℕ) (cache : Dict String (CacheEntry A))
      → Distinct cache
      → Found key time cache (oldest_from key time cache)
  unfolding oldest_from lookup
  oldest_from-Found key time [] d = inl (refl, refl)
  oldest_from-Found key time ((k, e) ∷ rest) d =
      if-branches (Found key time ((k, e) ∷ rest)) (ltb e.created_at time)
        (oldest_from k e.created_at rest) (oldest_from key time rest)
        (λ older. elim (oldest_from-Found k e.created_at rest d.1) [
          | inl (key_eq, time_eq) ↦ inr (e, rw (key_eq, ==_refl k) refl, sym time_eq)
          | inr (e', found, time_eq) ↦ inr (e', lookup-later k _ e e' rest d.0 found, time_eq)
        ])
        (λ younger. elim (oldest_from-Found key time rest d.1) [
          | inl start ↦ inl start
          | inr (e', found, time_eq) ↦ inr (e', lookup-later k _ e e' rest d.0 found, time_eq)
        ])

  -- The oldest key is that of an entry, no other of which is older.
  oldest_key-lem :
      (cache : Dict String (CacheEntry A))
      → 0 < length cache
      → Distinct cache
      → (e : CacheEntry A) × (lookup (oldest_key cache) cache ≡ some e)
        × Each (λ j e'. e.created_at ≤ e'.created_at) cache
  unfolding oldest_key lookup
  oldest_key-lem [] some_there d = absurd (omega (arith, some_there))
  oldest_key-lem ((k, e) ∷ rest) some_there d =
      let (le, all) = oldest_from-Least k e.created_at rest in
      elim (oldest_from-Found k e.created_at rest d.1) [
        | inl (key_eq, time_eq) ↦ (
          e,
          rw (key_eq, ==_refl k) refl,
          (omega arith, Each-mono _ _ rest (λ j e' p. omega (arith, p, time_eq)) all),
        )
        | inr (e₀, found, time_eq) ↦ (
          e₀,
          lookup-later k _ e e₀ rest d.0 found,
          (
            omega (arith, le, time_eq),
            Each-mono _ _ rest (λ j e' p. omega (arith, p, time_eq)) all,
          ),
        )
      ]

  -- Cache keys are `tool:arguments`, so none is empty.
  abbrev pub Named : Dict String (CacheEntry A) → Type 0
  Named cache = Each (λ k e. (k == "") ≡ false) cache

  -- A trimmed cache has as many of the entries as the limit allows, and each that was dropped is no
  -- younger than any that was kept.
  pub record Trimmed (max_entries : ℕ) (cache trimmed : Dict String (CacheEntry A)) : Type ℓ where
    pub full : length trimmed ≡ min (length cache) max_entries
    pub kept : (k : String) (e : CacheEntry A) → lookup k trimmed ≡ some e → lookup k cache ≡ some e
    pub dropped :
        (k j : String) (e e' : CacheEntry A)
        → lookup k trimmed ≡ some e
        → lookup j cache ≡ some e'
        → lookup j trimmed ≡ none
        → e'.created_at ≤ e.created_at

  untrimmed :
      (max_entries : ℕ) (cache : Dict String (CacheEntry A))
      → length cache ≤ max_entries
      → Trimmed max_entries cache cache
  untrimmed max_entries cache fits = record {
    full = omega (arith, fits);
    kept = λ k e h. h;
    dropped = λ k j e e' h there gone. absurd (ground (arith, there, gone));
  }

  one_less :
      (max_entries : ℕ) (o : String) (first : CacheEntry A)
      (cache trimmed : Dict String (CacheEntry A))
      → max_entries < length cache
      → Distinct cache
      → lookup o cache ≡ some first
      → Each (λ j e'. first.created_at ≤ e'.created_at) cache
      → Trimmed max_entries (erase o cache) trimmed
      → Trimmed max_entries cache trimmed
  one_less max_entries o first cache trimmed more d there least v = record {
    full = omega (arith, v.full, more, length-erase_old o first cache d there);
    kept = λ k e h. ground (arith, v.kept k e h, lookup-erase o k cache);
    dropped = λ k j e e' h j_there gone. elim (Bool-cases (o == j)) [
      | inl same ↦
          let k_there : lookup k cache ≡ some e =
            ground (arith, v.kept k e h, lookup-erase o k cache) in
          let le : first.created_at ≤ e.created_at = Each-lookup _ k cache least k_there in
          let at_j : lookup j cache ≡ some first =
            ap (λ x. lookup x cache) (sym ((==_iff o j).0 same)) ∙ there in
          ground (arith, le, at_j, j_there)
      | inr other ↦ v.dropped k j e e' h (lookup-erase o j cache ∙ (rw other j_there)) gone
    ];
  }

  trim_rounds-Trimmed :
      (rounds max_entries : ℕ) (cache : Dict String (CacheEntry A))
      → length cache ≤ rounds + max_entries
      → Distinct cache
      → Named cache
      → Trimmed max_entries cache (trim_rounds rounds max_entries cache)
  unfolding trim_rounds
  trim_rounds-Trimmed zero max_entries cache enough d named =
      untrimmed max_entries cache (omega (arith, enough))
  trim_rounds-Trimmed (suc rounds) max_entries cache enough d named =
      elim (Bool-cases (leb (length cache) max_entries)) [
        | inl fits ↦ rw fits (untrimmed max_entries cache (ground (arith, fits)))
        | inr more ↦
            let excess : max_entries < length cache = ground (arith, more) in
            let (first, there, least) = oldest_key-lem cache (omega (arith, excess)) d in
            let o = oldest_key cache in
            let rest =
              trim_rounds-Trimmed rounds max_entries (erase o cache)
                (omega (arith, enough, length-erase_old o first cache d there))
                (erase-Distinct o cache d) (erase-Each _ o cache named) in
            rw (more, Each-lookup _ o cache named there)
              (one_less max_entries o first cache _ excess d there least rest)
      ]

-- Trimming ends, whatever the number of entries: the loop that drops the oldest entry until the
-- cache is within a limit that is on leaves as many entries as fit, all of them entries of before,
-- and every entry that it dropped was made no later than every entry that it kept. The keys are
-- distinct and not empty.
pub trim_ends {ℓ} :
    {A : Type ℓ} (c : Coordinator A)
    → 0 < c.max_entries
    → Distinct c.cache
    → Named c.cache
    → Trimmed c.max_entries c.cache (trim_cache c).cache
unfolding trim_cache
trim_ends c limited d named =
    let on : leb c.max_entries 0 ≡ false = ground (arith, limited) in
    rw on (trim_rounds-Trimmed (length c.cache) c.max_entries c.cache (omega arith) d named)
