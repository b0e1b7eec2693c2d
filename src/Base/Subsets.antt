-- ===== src/Base/Subsets.antt =====
-- Maps with fewer keys are shorter.
use Prim.Native.Nat.{◌≤◌, ◌<◌}
use mathlib.Core.Path.{◌≡◌}
use mathlib.Core.Logic.{inl, inr}
use mathlib.Core.Option.{none, some}
use mathlib.Core.List.{[], ◌∷◌}
use native.Mathlib.Omega.{arith}
use vision_mcp_manager.Base.Tests.{Option-cases}
use vision_mcp_manager.Base.Lists.{length}
use vision_mcp_manager.Base.Equality.{Eq, ==_iff, ==_refl}
use vision_mcp_manager.Base.Maps.{
  Dict, lookup, erase, Distinct, lookup-erase, length-erase_old, erase-Distinct,
}

module _ {ℓ κ} {K : Type ℓ} {V : Type κ} ⦃e : Eq K⦄ where
  -- What is missing from the second map is missing from the first.
  abbrev pub Within : Dict K V → Dict K V → Type (ℓ ⊔ κ)
  Within d' d = (k : K) → lookup k d ≡ none → lookup k d' ≡ none

  pub Within-length :
      (d' d : Dict K V) → Distinct d' → Distinct d → Within d' d → length d' ≤ length d
  unfolding lookup
  Within-length [] d v w h = omega arith
  Within-length ((k, x) ∷ rest) d v w h = elim (Option-cases (lookup k d)) [
    | inl missing ↦ absurd (ground (arith, h k missing, ==_refl k))
    | inr (y, found) ↦
        let le =
          Within-length rest (erase k d) v.1 (erase-Distinct k d w)
            (λ j gone. ground (arith, gone, lookup-erase k j d, h j, ==_iff k j, v.0)) in
        omega (arith, le, length-erase_old k y d w found)
  ]

  pub Within-shorter :
      (d' d : Dict K V) (k : K) (x : V)
      → Distinct d'
      → Distinct d
      → Within d' d
      → lookup k d ≡ some x
      → lookup k d' ≡ none
      → length d' < length d
  Within-shorter d' d k x v w h found gone =
      let le =
        Within-length d' (erase k d) v (erase-Distinct k d w)
          (λ j missing. ground (arith, missing, gone, lookup-erase k j d, h j, ==_iff k j)) in
      omega (arith, le, length-erase_old k x d w found)
