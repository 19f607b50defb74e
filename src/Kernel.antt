-- ===== src/Kernel.antt =====
-- The seL4 system calls that the libraries make. The kernel is not part of the repository: it is a state
-- with operations whose results the components pass on.
use se_l4_libs.Prelude.{ℕ}
use se_l4_libs.Prelude.Int.{ℤ}
use se_l4_libs.Cspace.Path.{CspacePath}
use se_l4_libs.Objects.{ObjectType}

-- `retype k ut type size_bits slot` is `seL4_Untyped_Retype` for one object, with its error code.
pub record Kernel : Type 1 where
  pub State : Type 0
  pub retype : State → ℕ → ObjectType → ℕ → CspacePath → ℤ × State
