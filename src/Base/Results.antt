-- ===== src/Base/Results.antt =====
-- The outcome of a fallible operation: a value, or an error.
pub data Result {ℓ κ} (E : Type ℓ) (A : Type κ) : Type (ℓ ⊔ κ) where
  ok : A → Result E A
  err : E → Result E A
