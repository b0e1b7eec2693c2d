-- ===== src/Base/Counts.antt =====
-- How many entries of a map pass a test.
use Prim.Native.Nat.{ℕ, ◌+◌}
use mathlib.Core.Path.{◌≡◌, refl}
use mathlib.Core.Bool.{Bool, true, false}
use mathlib.Core.Option.{none, some}
use mathlib.Core.List.{[], ◌∷◌}
use native.Mathlib.Omega.{arith}
use vision_mcp_manager.Base.Equality.{Eq}
use vision_mcp_manager.Base.Maps.{Dict, lookup, insert, erase, Distinct, erase_missing}

abbrev pub bit : Bool → ℕ
bit true = 1
bit false = 0

module _ {ℓ κ} {K : Type ℓ} {V : Type κ} ⦃e : Eq K⦄ (p : V → Bool) where
  abbrev pub count : Dict K V → ℕ
  count [] = 0
  count ((k, v) ∷ d) = bit (p v) + count d

  pub count-insert_new :
      (k : K) (v : V) (d : Dict K V)
      → lookup k d ≡ none
      → count (insert k v d) ≡ bit (p v) + count d
  unfolding lookup insert
  count-insert_new k v [] h = refl
  count-insert_new k v ((j, w) ∷ d) h = ground (arith, count-insert_new k v d)

  pub count-insert_old :
      (k : K) (v w : V) (d : Dict K V)
      → lookup k d ≡ some w
      → count (insert k v d) + bit (p w) ≡ bit (p v) + count d
  unfolding lookup insert
  count-insert_old k v w [] h = cc
  count-insert_old k v w ((j, u) ∷ d) h = ground (arith, count-insert_old k v w d)

  pub count-erase :
      (k : K) (w : V) (d : Dict K V)
      → Distinct d
      → lookup k d ≡ some w
      → count d ≡ bit (p w) + count (erase k d)
  unfolding lookup erase
  count-erase k w [] d h = cc
  count-erase k w ((j, u) ∷ rest) d h =
      ground (arith, e.beq_iff j k, count-erase k w rest d.1, erase_missing j rest d.0)
