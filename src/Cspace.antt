-- ===== src/Cspace.antt =====
-- The slot allocators of libsel4allocman/src/cspace and the paths that name a slot.
pub mod Path
pub mod Mspace
pub mod Manager
pub mod SingleLevel
pub mod TwoLevel
pub mod Simple
