-- ===== src/Irq.antt =====
-- libsel4platsupport/src/irq.c: interrupts, the notifications they are delivered on, and the bits of a badge that
-- tell them apart.
pub mod Defs
pub mod Ids
pub mod Bind
pub mod Calls
pub mod Register
pub mod Notify
pub mod Serve
pub mod Served
pub mod Linked
pub mod Clear
pub mod Links
pub mod Counts
pub mod Search
pub mod Sound
pub mod Effects
pub mod Release
pub mod Ops
pub mod Given
pub mod History
pub mod Results
pub mod Unbound
pub mod Returned
pub mod Pending
