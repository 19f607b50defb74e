-- ===== src/Mspace.antt =====
pub mod FixedPool
