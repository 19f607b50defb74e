-- ===== src/Cspace/Mspace.antt =====
-- The bookkeeping memory that a component takes from its allocation manager, as the interface
-- `allocman_mspace_alloc` and `allocman_mspace_free` of libsel4allocman/include/allocman/allocman.h.
use se_l4_libs.Prelude.{ℕ}
use se_l4_libs.Prelude.Int.{ℤ}

-- `alloc m bytes` is the error code, the pointer and the manager afterwards.
pub record Mspace : Type 1 where
  pub State : Type 0
  pub alloc : State → ℕ → ℤ × ℕ × State
  pub free : State → ℕ → ℕ → State
