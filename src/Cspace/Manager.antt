-- ===== src/Cspace/Manager.antt =====
-- What a cspace allocator asks of its allocation manager and of the kernel: the calls
-- `allocman_mspace_*` and `allocman_utspace_*` of libsel4allocman/include/allocman/allocman.h, and
-- `seL4_CNode_Delete`. All act on one state, that of the manager and the kernel.
use se_l4_libs.Prelude.{ℕ, Bool}
use se_l4_libs.Prelude.Int.{ℤ}
use se_l4_libs.Cspace.Path.{CspacePath}
use se_l4_libs.Cspace.Mspace.{Mspace}
use se_l4_libs.Objects.{ObjectType}

pub record Manager : Type 1 where
  pub mem : Mspace
  -- `utspace_alloc st size_bits type path can_be_dev` is the error code and the cookie.
  pub utspace_alloc : mem.State → ℕ → ObjectType → CspacePath → Bool → ℤ × ℕ × mem.State
  pub utspace_free : mem.State → ℕ → ℕ → mem.State
  -- `cnode_delete st cnode index depth` is the error code.
  pub cnode_delete : mem.State → ℕ → ℕ → ℕ → ℤ × mem.State
