-- ===== src/Base/Maps.antt =====
-- Go maps as association lists. A key that is written again keeps its place; erasing drops every
-- entry of the key.
use Prim.Native.Nat.{suc, ◌≤◌}
use mathlib.Core.Path.{◌≡◌, refl, sym, subst}
use mathlib.Core.Logic.{inl, inr}
use mathlib.Core.Bool.{false}
use mathlib.Core.Option.{Option, none, some}
use mathlib.Core.List.{List, [], ◌∷◌}
use native.Mathlib.Omega.{arith}
use vision_mcp_manager.Base.Tests.{if◌then◌else◌, Bool-cases}
use vision_mcp_manager.Base.Lists.{length}
use vision_mcp_manager.Base.Equality.{Eq, ◌==◌, ==_refl}

abbrev pub Dict {ℓ κ} : Type ℓ → Type κ → Type (ℓ ⊔ κ)
Dict K V = List (K × V)

module _ {ℓ κ} {K : Type ℓ} {V : Type κ} ⦃e : Eq K⦄ where
  unfoldable pub lookup : K → Dict K V → Option V
  lookup k [] = none
  lookup k ((j, v) ∷ m) = if j == k then some v else lookup k m

  unfoldable pub insert : K → V → Dict K V → Dict K V
  insert k v [] = (k, v) ∷ []
  insert k v ((j, w) ∷ m) = if j == k then (j, v) ∷ m else (j, w) ∷ insert k v m

  unfoldable pub erase : K → Dict K V → Dict K V
  erase k [] = []
  erase k ((j, w) ∷ m) = if j == k then erase k m else (j, w) ∷ erase k m

  -- Each key stands once.
  abbrev pub Distinct : Dict K V → Type κ
  Distinct [] = Unit
  Distinct ((k, v) ∷ m) = (lookup k m ≡ none) × Distinct m

  pub lookup-insert :
      (new key : K) (value : V) (m : Dict K V)
      → lookup key (insert new value m) ≡ (if new == key then some value else lookup key m)
  unfolding insert lookup
  lookup-insert new key value [] = refl
  lookup-insert new key value ((first, old) ∷ rest) = ground (
    arith,
    lookup-insert new key value rest,
    e.beq_iff new key,
    e.beq_iff first new,
    e.beq_iff first key,
  )

  pub lookup-erase :
      (k j : K) (m : Dict K V) → lookup j (erase k m) ≡ (if k == j then none else lookup j m)
  unfolding lookup erase
  lookup-erase k j [] = ground arith
  lookup-erase k j ((i, w) ∷ m) =
      ground (arith, e.beq_iff k j, e.beq_iff i k, e.beq_iff i j, lookup-erase k j m)

  pub insert-Distinct : (k : K) (v : V) (m : Dict K V) → Distinct m → Distinct (insert k v m)
  unfolding lookup insert
  insert-Distinct k v [] d = ground arith
  insert-Distinct k v ((i, w) ∷ m) d =
      ground (arith, e.beq_iff i k, e.beq_iff k i, lookup-insert k i v m, insert-Distinct k v m d.1)

  pub erase-Distinct : (k : K) (m : Dict K V) → Distinct m → Distinct (erase k m)
  unfolding lookup erase
  erase-Distinct k [] d = tt
  erase-Distinct k ((i, w) ∷ m) d =
      ground (arith, e.beq_iff i k, e.beq_iff k i, lookup-erase k i m, erase-Distinct k m d.1)

  pub length-insert_new :
      (k : K) (v : V) (m : Dict K V) → lookup k m ≡ none → length (insert k v m) ≡ suc (length m)
  unfolding lookup insert
  length-insert_new k v [] h = refl
  length-insert_new k v ((i, w) ∷ m) h = ground (arith, length-insert_new k v m)

  pub length-insert_old :
      (k : K) (v w : V) (m : Dict K V) → lookup k m ≡ some w → length (insert k v m) ≡ length m
  unfolding lookup insert
  length-insert_old k v w [] h = cc
  length-insert_old k v w ((i, u) ∷ m) h = ground (arith, length-insert_old k v w m)

  pub erase_missing : (k : K) (m : Dict K V) → lookup k m ≡ none → erase k m ≡ m
  unfolding lookup erase
  erase_missing k [] h = refl
  erase_missing k ((i, w) ∷ m) h = ground (arith, erase_missing k m)

  pub length-erase_old :
      (k : K) (w : V) (m : Dict K V)
      → Distinct m
      → lookup k m ≡ some w
      → length m ≡ suc (length (erase k m))
  unfolding lookup erase
  length-erase_old k w [] d h = cc
  length-erase_old k w ((i, u) ∷ m) d h =
      ground (arith, e.beq_iff i k, length-erase_old k w m d.1, erase_missing i m d.0)

  pub length-erase-le : (k : K) (m : Dict K V) → length (erase k m) ≤ length m
  unfolding erase
  length-erase-le k [] = omega arith
  length-erase-le k ((i, w) ∷ m) = ground (arith, length-erase-le k m)

  -- Every entry satisfies `P`.
  abbrev pub Each {μ} : (K → V → Type μ) → Dict K V → Type μ
  Each P [] = Unit
  Each P ((k, v) ∷ m) = P k v × Each P m

  pub Each-lookup {μ} :
      (P : K → V → Type μ) (k : K) {v : V} (m : Dict K V) → Each P m → lookup k m ≡ some v → P k v
  unfolding lookup
  Each-lookup P k [] h q = absurd (cc)
  Each-lookup P k {v} ((j, w) ∷ m) h q = elim (Bool-cases (j == k)) [
    | inl hit ↦
        let e₂ : w ≡ v = ground arith in
        subst (λ x. P k x) e₂ (subst (λ x. P x w) ((e.beq_iff j k).0 hit) h.0)
    | inr miss ↦ Each-lookup P k m h.1 (ground arith)
  ]

  pub insert-Each {μ} :
      (P : K → V → Type μ) (k : K) (v : V) (m : Dict K V) → P k v → Each P m → Each P (insert k v m)
  unfolding insert
  insert-Each P k v [] p h = (p, tt)
  insert-Each P k v ((j, w) ∷ m) p h = elim (Bool-cases (j == k)) [
    | inl hit ↦ rw hit (subst (λ x. P x v) (sym ((e.beq_iff j k).0 hit)) p, h.1)
    | inr miss ↦ rw miss (h.0, insert-Each P k v m p h.1)
  ]

  pub erase-Each {μ} : (P : K → V → Type μ) (k : K) (m : Dict K V) → Each P m → Each P (erase k m)
  unfolding erase
  erase-Each P k [] h = tt
  erase-Each P k ((j, w) ∷ m) h = elim (Bool-cases (j == k)) [
    | inl hit ↦ rw hit (erase-Each P k m h.1)
    | inr miss ↦ rw miss (h.0, erase-Each P k m h.1)
  ]

  pub Each-mono {μ} :
      (P Q : K → V → Type μ) (m : Dict K V)
      → ((k : K) (v : V) → P k v → Q k v)
      → Each P m
      → Each Q m
  Each-mono P Q [] f h = tt
  Each-mono P Q ((k, v) ∷ m) f h = (f k v h.0, Each-mono P Q m f h.1)

  -- The same keys, each with the value that `f` makes of its own.
  abbrev pub map_values : (K → V → V) → Dict K V → Dict K V
  map_values f [] = []
  map_values f ((k, v) ∷ m) = (k, f k v) ∷ map_values f m

  pub lookup-map_values :
      (f : K → V → V) (k : K) (m : Dict K V)
      → lookup k (map_values f m) ≡ elim (lookup k m) [ none ↦ none | some v ↦ some (f k v) ]
  unfolding lookup
  lookup-map_values f k [] = refl
  lookup-map_values f k ((j, w) ∷ m) = elim (Bool-cases (j == k)) [
    | inl hit ↦ rw ((e.beq_iff j k).0 hit, ==_refl k)
    | inr miss ↦ rw (miss, lookup-map_values f k m)
  ]

  pub map_values-Distinct : (f : K → V → V) (m : Dict K V) → Distinct m → Distinct (map_values f m)
  map_values-Distinct f [] d = tt
  map_values-Distinct f ((k, v) ∷ m) d =
      (rw (lookup-map_values f k m, d.0), map_values-Distinct f m d.1)

  pub length-map_values : (f : K → V → V) (m : Dict K V) → length (map_values f m) ≡ length m
  length-map_values f [] = refl
  length-map_values f ((k, v) ∷ m) = omega (arith, length-map_values f m)

  pub map_values-Each {μ} :
      (P : K → V → Type μ) (f : K → V → V) (m : Dict K V)
      → ((k : K) (v : V) → P k v → P k (f k v))
      → Each P m
      → Each P (map_values f m)
  map_values-Each P f [] g h = tt
  map_values-Each P f ((k, v) ∷ m) g h = (g k v h.0, map_values-Each P f m g h.1)

  pub lookup-insert_self : (k : K) (v : V) (m : Dict K V) → lookup k (insert k v m) ≡ some v
  lookup-insert_self k v m = rw (lookup-insert k k v m, ==_refl k)

  pub lookup-erase_self : (k : K) (m : Dict K V) → lookup k (erase k m) ≡ none
  lookup-erase_self k m = rw (lookup-erase k k m, ==_refl k)

  pub Each-zip {μ ν} :
      (P : K → V → Type μ) (Q : K → V → Type ν) (m : Dict K V)
      → Each P m
      → Each Q m
      → Each (λ k v. P k v × Q k v) m
  Each-zip P Q [] g h = tt
  Each-zip P Q ((k, v) ∷ m) g h = ((g.0, h.0), Each-zip P Q m g.1 h.1)

  -- A key that looks up nothing differs from the key of each entry.
  pub absent-Each : (k : K) (m : Dict K V) → lookup k m ≡ none → Each (λ j w. (k == j) ≡ false) m
  unfolding lookup
  absent-Each k [] h = tt
  absent-Each k ((j, w) ∷ m) h =
      (ground (arith, e.beq_iff j k, e.beq_iff k j), absent-Each k m (ground arith))

  -- Where keys are distinct, each entry is what its key looks up.
  pub entries-Each : (m : Dict K V) → Distinct m → Each (λ j w. lookup j m ≡ some w) m
  unfolding lookup
  entries-Each [] d = tt
  entries-Each ((k, v) ∷ m) d = (
    rw (==_refl k),
    Each-mono _ _ m (λ j w p. rw (p.0) p.1)
        (Each-zip _ _ m (absent-Each k m d.0) (entries-Each m d.1)),
  )
