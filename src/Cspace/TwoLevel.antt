-- ===== src/Cspace/TwoLevel.antt =====
-- libsel4allocman/src/cspace/two_level.c: a first-level cnode whose slots hold second-level cnodes, each with
-- its own bitmap. `second_levels` has `BIT(cnode_size_bits)` entries, `none` for NULL; an index behind its
-- end reads as NULL, and the invariant keeps every index inside. A read through NULL and a failed `assert`
-- are an `abort`.
pub mod Defs
pub mod Second
pub mod Slots
pub mod Whole
pub mod Valid
pub mod AllocAt
pub mod Paths
pub mod Faults
