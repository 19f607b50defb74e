-- ===== src/Allocman.antt =====
-- libsel4allocman/src/allocman.c: the allocation manager, which runs the memory, slot and untyped allocators on top of
-- each other, with a reserve (the watermark) for what they ask of each other while they run.
pub mod Defs
pub mod Ops
pub mod Refill
pub mod Kept
pub mod Depth
pub mod Calls
pub mod Safe
pub mod Reserve
pub mod Filled
pub mod Whole
pub mod Bounded
pub mod Calling
pub mod Freed
pub mod Ends
pub mod Answered
pub mod Ended
pub mod Refilled
pub mod Finish
