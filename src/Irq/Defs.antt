-- ===== src/Irq/Defs.antt =====
-- The data of libsel4platsupport/src/irq.c and what it calls. An id of -1 is `none`; `badge_bits` is
-- `MAX_INTERRUPTS_TO_NOTIFICATIONS`, 64 on a 64-bit platform.
use se_l4_libs.Prelude.{ℕ, Bool, true, false, Option, none, some, ltb, if◌then◌else◌}
use se_l4_libs.Prelude.Int.{ℤ, pos, negsuc}
use se_l4_libs.Prelude.Outcome.{Outcome}
use se_l4_libs.Prelude.Bits.{Bits, no_bits, assign}
use se_l4_libs.Cspace.Path.{CspacePath}

abbrev pub badge_bits : ℕ
badge_bits = 64

-- `irq_entry_t`; a callback is its address, `none` for NULL.
pub record IrqEntry : Type 0 where
  pub allocated : Bool
  pub irq : ℕ
  pub handler_path : CspacePath
  pub callback : Option ℕ
  pub callback_data : ℕ
  pub ntfn_path : CspacePath
  pub paired_ntfn : Option ℕ
  pub badge_index : Option ℕ

-- `ntfn_entry_t`
pub record NtfnEntry : Type 0 where
  pub allocated : Bool
  pub root_ntfn_path : CspacePath
  pub num_irqs_bound : ℕ
  pub usable_mask : Bits
  pub status : Bits
  pub pending : Bits
  pub bound_irqs : ℕ → Option ℕ

pub data IfaceType : Type 0 where
  standard mini : IfaceType

-- `irq_cookie_t`, with the arrays as functions; the model aborts where the source leaves them.
pub record Irq : Type 0 where
  pub iface_type : IfaceType
  pub num_registered_irqs : ℕ
  pub num_allocated_ntfns : ℕ
  pub max_irq_ids : ℕ
  pub max_ntfn_ids : ℕ
  pub num_irq_bitfields : ℕ
  pub num_ntfn_bitfields : ℕ
  pub irq_bitfields : ℕ → Bits
  pub ntfn_bitfields : ℕ → Bits
  pub irq_table : ℕ → IrqEntry
  pub ntfn_table : ℕ → NtfnEntry

-- The calls of the VKA, the simple interface, the allocator of libplatsupport and the kernel, on one state, and
-- the macro ALIGN_UP of libutils.
pub record Platform : Type 1 where
  pub State : Type 0
  pub alloc_path : State → ℤ × CspacePath × State
  pub free_path : State → CspacePath → State
  pub make_path : ℕ → CspacePath
  pub mint : State → CspacePath → CspacePath → Bits → ℤ × State
  pub delete : State → CspacePath → ℤ × State
  pub set_notification : State → ℕ → ℕ → ℤ × State
  pub ack : State → ℕ → ℤ × State
  pub clear : State → ℕ → ℤ × State
  pub copy_irq_cap : State → ℕ → CspacePath → ℤ × State
  pub calloc : State → ℕ → ℤ × ℕ × State
  pub free : State → ℕ → ℕ → State
  pub wait : State → ℕ → Bits × State
  pub poll : State → ℕ → Bits × State
  pub align_up : ℕ → ℕ → ℕ

abbrev pub Step : Platform → Type 0 → Type 0
Step p A = Outcome A × Irq × p.State

-- The error codes of errno.h, negated.
abbrev pub eperm : ℤ
eperm = negsuc 0

abbrev pub enomem : ℤ
enomem = negsuc 11

abbrev pub efault : ℤ
efault = negsuc 13

abbrev pub einval : ℤ
einval = negsuc 21

abbrev pub emfile : ℤ
emfile = negsuc 23

abbrev pub enospc : ℤ
enospc = negsuc 27

abbrev pub eaddrinuse : ℤ
eaddrinuse = negsuc 97

abbrev pub null_path : CspacePath
null_path = record {
  root = 0;
  cap_ptr = 0;
  cap_depth = 0;
  dest = 0;
  dest_depth = 0;
  offset = 0;
  window = 0;
}

-- An entry after `memset` and the reset of its two ids.
abbrev pub free_irq : IrqEntry
free_irq = record {
  allocated = false;
  irq = 0;
  handler_path = null_path;
  callback = none;
  callback_data = 0;
  ntfn_path = null_path;
  paired_ntfn = none;
  badge_index = none;
}

-- An entry after `memset`, whose `bound_irqs` is then 0 or filled with -1.
abbrev pub blank_ntfn : Option ℕ → NtfnEntry
blank_ntfn unbound = record {
  allocated = false;
  root_ntfn_path = null_path;
  num_irqs_bound = 0;
  usable_mask = no_bits;
  status = no_bits;
  pending = no_bits;
  bound_irqs = λ b. unbound;
}

abbrev pub set_irq : Irq → ℕ → IrqEntry → Irq
set_irq c i e = record c { irq_table = assign c.irq_table i e }

abbrev pub set_ntfn_entry : Irq → ℕ → NtfnEntry → Irq
set_ntfn_entry c n e = record c { ntfn_table = assign c.ntfn_table n e }

-- `check_irq_id_is_valid` and `check_ntfn_id_is_valid`: the index that an `int` is below the limit.
abbrev pub valid_id : ℕ → ℤ → Option ℕ
valid_id limit (pos i) = if ltb i limit then some i else none
valid_id limit (negsuc i) = none

-- An id that is valid and, by the second function, allocated.
abbrev pub allocated_if : Bool → ℕ → Option ℕ
allocated_if true i = some i
allocated_if false i = none

abbrev pub irq_at : Irq → Option ℕ → Option ℕ
irq_at c none = none
irq_at c (some i) = allocated_if (c.irq_table i).allocated i

abbrev pub ntfn_at : Irq → Option ℕ → Option ℕ
ntfn_at c none = none
ntfn_at c (some n) = allocated_if (c.ntfn_table n).allocated n

-- `check_*_id_is_valid` and `check_*_id_is_allocated`
unfoldable pub usable_irq : Irq → ℤ → Option ℕ
usable_irq c id = irq_at c (valid_id c.max_irq_ids id)

unfoldable pub usable_ntfn : Irq → ℤ → Option ℕ
usable_ntfn c id = ntfn_at c (valid_id c.max_ntfn_ids id)
