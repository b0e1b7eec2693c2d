-- ===== src/Base/Equality.antt =====
-- Decidable equality as an instance, for the keys of maps and for tags.
use Prim.Native.Nat.{ℕ}
use Prim.Native.String.{String}
use mathlib.Core.Path.{◌≡◌, refl}
use mathlib.Core.Logic.{◌↔◌}
use mathlib.Core.Bool.{Bool, true}
use text.Mathlib.Text.{◌==◌ as str_eq}
use text.Mathlib.TextEquality.{eq_iff}
use vision_mcp_manager.Base.Tests.{nat_beq, nat_beq_iff}

pub record Eq {ℓ} (K : Type ℓ) : Type ℓ where
  pub beq : K → K → Bool
  pub beq_iff : (k j : K) → (beq k j ≡ true) ↔ (k ≡ j)

-- Text first, then numbers.
instance abbrev pub string_eq : Eq String
string_eq = record { beq_iff = eq_iff; beq = str_eq }

instance abbrev pub nat_eq : Eq ℕ
nat_eq = record { beq_iff = nat_beq_iff; beq = nat_beq }

infix 50 ◌==◌
abbrev pub ◌==◌ {ℓ} : {K : Type ℓ} ⦃d : Eq K⦄ → K → K → Bool
◌==◌ ⦃d⦄ = d.beq

pub ==_iff {ℓ} : {K : Type ℓ} ⦃d : Eq K⦄ (k j : K) → ((k == j) ≡ true) ↔ (k ≡ j)
==_iff ⦃d⦄ k j = d.beq_iff k j

pub ==_refl {ℓ} : {K : Type ℓ} ⦃d : Eq K⦄ (k : K) → (k == k) ≡ true
==_refl ⦃d⦄ k = (d.beq_iff k k).1 refl
