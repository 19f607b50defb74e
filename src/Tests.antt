-- ===== src/Tests.antt =====
-- Small systems on which the theorems and the definitions are evaluated.
pub mod Fixtures
pub mod Cspace
pub mod TwoLevel
pub mod Untyped
pub mod Sync
pub mod CondVar
pub mod Managed
pub mod Vspace
pub mod Mspace
pub mod Irq
pub mod Allocman
