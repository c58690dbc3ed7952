-- ===== src/Prelude/Outcome.antt =====
-- Rust's `Result<T, E>`, with the error first.
pub data Result {ℓ κ} (E : Type ℓ) (A : Type κ) : Type (ℓ ⊔ κ) where
  ok : A → Result E A
  err : E → Result E A
