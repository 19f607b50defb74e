-- ===== src/Vspace.antt =====
pub mod Reservations
pub mod Range
pub mod Bottom
