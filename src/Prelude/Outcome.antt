-- ===== src/Prelude/Outcome.antt =====
-- What a C function that returns a status does: a result, an error code, or no return.
use se_l4_libs.Prelude.Int.{ℤ}

-- `abort` is a failed `assert`, or a loop that does not end.
pub data Outcome {ℓ} (A : Type ℓ) : Type ℓ where
  ok : A → Outcome A
  err : ℤ → Outcome A
  abort : Outcome A
