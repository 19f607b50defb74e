-- ===== src/Utspace.antt =====
-- The untyped allocators of libsel4allocman/src/utspace.
pub mod Twinkle
