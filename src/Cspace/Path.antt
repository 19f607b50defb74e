-- ===== src/Cspace/Path.antt =====
-- `cspacepath_t` of libsel4vka/include/vka/cspacepath_t.h.
use se_l4_libs.Prelude.{ℕ}

pub record CspacePath : Type 0 where
  pub root : ℕ
  pub cap_ptr : ℕ
  pub cap_depth : ℕ
  pub dest : ℕ
  pub dest_depth : ℕ
  pub offset : ℕ
  pub window : ℕ
