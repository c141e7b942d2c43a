-- ===== src/Prelude/Result.antt =====
-- A value with an error, as Go returns them: either the value or the error.
pub data Result {ℓ κ} (E : Type ℓ) (A : Type κ) : Type (ℓ ⊔ κ) where
  ok : A → Result E A
  err : E → Result E A
