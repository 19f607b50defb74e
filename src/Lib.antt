-- ===== src/Lib.antt =====
-- Verification of the resource allocators, the locks and the interrupt bookkeeping of seL4_libs, the C libraries
-- for user-level systems on the seL4 kernel.
--
-- Parts. An allocation manager (libsel4allocman) hands out capability slots, untyped memory and bookkeeping
-- memory. A cspace allocator keeps the free slots, with the manager as the source of its own memory and
-- cnodes; an untyped allocator retypes untypeds into objects. Beside it libsel4sync builds locks from
-- kernel notifications and atomic integers, libsel4utils keeps the ranges of virtual address spaces, and
-- libsel4platsupport keeps which interrupts are delivered on which notifications.
--
-- - Prelude: native numbers, lists, C integers, words and their bits, outcomes (a result, an error code or an
--   `abort` for a failed `assert` and undefined behaviour).
-- - Cspace/Path: `cspacepath_t` (libsel4vka/include/vka/cspacepath_t.h).
-- - Allocman: libsel4allocman/src/allocman.c and include/allocman/allocman.h. Defs has the state and the record
--   Allocators, the three allocators that are attached, which may call the manager again; a call is a function of
--   the manager and of what the allocators keep, without a result when an `assert` fails. Ops has what allocates and
--   frees, Refill the filling of the reserves. The loops over the queues of what waits to be freed have a bound on
--   their rounds, since freeing may queue again; more rounds than a queue has entries are enough where allocators do
--   not call the manager. Kept, Depth, Calls, Safe, Reserve, Filled, Whole, Bounded and Calling follow the arrays
--   through all calls. What the allocators are told to free is read from their state by `freed` of IsQuiet. Freed,
--   Ends, Answered, Ended, Refilled and Finish are about coming to an end.
-- - Cspace/Mspace, Cspace/Manager, Kernel: the manager and the kernel as the other parts call them, as
--   records of functions on an unknown state. Nothing is assumed of their answers.
-- - Cspace/SingleLevel: libsel4allocman/src/cspace/single_level.c and include/allocman/cspace/single_level.h.
--   `create`, `destroy`, `alloc`, `alloc_at`, `free` and `make_path` are the functions of those names; the
--   search loop of `alloc` is `scan`, by `bitmap_length` rounds, after which the index is back at its start.
--   Valid has the invariant and the set of free slots, Alloc, AllocAt and Create the proofs.
-- - Cspace/TwoLevel: libsel4allocman/src/cspace/two_level.c and its header. Defs has the data and the paths,
--   Second the making and dropping of a second level, Slots `alloc_at`, `alloc` and `free`, Whole `create`
--   and `destroy`; Valid, AllocAt, Paths and Faults are the proofs. The search `hunt` visits each of the
--   `2 ^ cnode_size_bits` entries once. Where `alloc_at` and `alloc` begin to read behind `second_levels` they are `abort`.
-- - Cspace/Simple: libsel4allocman/src/cspace/simple1level.c.
-- - Mspace/FixedPool: libsel4allocman/src/mspace/fixed_pool.c without the malloc on top of it.
-- - Objects: `vka_get_object_size` (libsel4vka/include/vka/object.h) and `get_sel4_object_size`
--   (libsel4allocman/include/allocman/utspace/utspace.h), the kernel's constants as a parameter.
-- - Utspace/Twinkle: libsel4allocman/src/utspace/twinkle.c. Fit, Alloc and Effect are the proofs.
-- - Sync: libsel4sync. Notification has the kernel's notifications and the atomic integers as parameters,
--   with their documented behaviour as named laws. BinSem is include/sync/bin_sem_bare.h and the check of
--   `sync_bin_sem_init`, RecursiveMutex is src/recursive_mutex.c; both are cut where a thread touches what
--   it shares, and run by steps of any thread in any order. CondVar is include/sync/condition_var.h, by
--   stretches between taking and releasing the lock. Valid, Step and Safety are the proofs. Managed has the
--   functions that initialise, make and drop a semaphore, a mutex or a condition variable.
-- - Vspace: libsel4utils/src/vspace/vspace.c and include/sel4utils/vspace_internal.h. Reservations is the list of
--   reserved ranges, with its proofs in Order. Bottom has the loops over the entries of a bottom level, with
--   their proof in Walk, and 512 rounds as a level has 512 pages. Range is the search for free pages, with its
--   proof in Fit, and `limit + 1` rounds since each moves on.
-- - Irq: libsel4platsupport/src/irq.c, with the calls of the VKA, the kernel and the memory allocator as the
--   record Platform, of whose answers nothing is assumed. Defs has the tables, Ids the search for free ids and
--   badge bits, Bind the binding of interrupts to notifications, Register the making, registering, unregistering
--   and acknowledging, Notify the notifications that are given and taken back, Serve what happens when interrupts
--   arrive, the callbacks as the record Driver. A word is the set of its 64 bits, a loop over the bits of a word
--   visits each from the lowest on, and reading or writing outside the tables is `abort`. The pointers that the
--   functions test for NULL are taken to be valid. A history is a list of calls, waits, polls and handled interrupts of a
--   standard interface, and ends at an `abort`; callbacks change the bookkeeping by calls. Linked, Clear and Links have the invariant of the two tables,
--   Counts and Search those of the counts and bitfields, Sound, Effects, Release, Ops, Given, Calls, Served and History
--   what keeps them,
--   Results, Unbound, Returned and Pending what the calls do.
-- - Tests: small instances of the parameters, and the theorems at concrete inputs.
--
-- A `size_t`, a `seL4_Word` and a pointer are numbers below 2^64 with the wrap-around written out where the
-- source adds, subtracts or shifts. Bounds in the statements are those that keep such sums from wrapping.
--
-- Not modelled: log output; memory ordering, since the steps of threads follow one another; the contents of
-- the arrays that the bookkeeping memory holds once they are freed; CONFIG_CACHE_COLORING. Of the rest
-- of the repository nothing is modelled: the split allocator, the configuring of the manager's reserves, the memory pools,
-- the upper levels of the page tables of virtual address spaces, the counting semaphore's wait and post,
-- processes and devices.
pub mod Prelude
pub mod Allocman
pub mod Cspace
pub mod Kernel
pub mod Objects
pub mod Utspace
pub mod Sync
pub mod Tests
pub mod Vspace
pub mod Mspace
pub mod Irq
