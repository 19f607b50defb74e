-- ===== src/Objects.antt =====
-- Object sizes: `vka_get_object_size` of libsel4vka/include/vka/object.h and `get_sel4_object_size` of
-- libsel4allocman/include/allocman/utspace/utspace.h, without CONFIG_CACHE_COLORING, with
-- CONFIG_KERNEL_MCS. The constants of the kernel's headers are a parameter.
use se_l4_libs.Prelude.{ℕ, ◌+◌, ◌^◌, ◌<◌, ◌≡◌, arith, ltb, if◌then◌else◌, sub_size, ◌%◌}

-- `seL4_ObjectType`; `arch` is a type that only `vka_arch_get_object_size` knows.
pub data ObjectType : Type 0 where
  untyped tcb sched_context reply endpoint notification cap_table : ObjectType
  arch : ℕ → ObjectType

pub record ObjectBits : Type 0 where
  pub tcb_bits : ℕ
  pub min_sched_context_bits : ℕ
  pub reply_bits : ℕ
  pub endpoint_bits : ℕ
  pub notification_bits : ℕ
  pub slot_bits : ℕ
  pub arch_bits : ℕ → ℕ

module _ (b : ObjectBits) where
  unfoldable pub vka_get_object_size : ObjectType → ℕ → ℕ
  vka_get_object_size ObjectType.untyped size = size
  vka_get_object_size ObjectType.tcb size = b.tcb_bits
  vka_get_object_size ObjectType.sched_context size =
      if ltb b.min_sched_context_bits size then size else b.min_sched_context_bits
  vka_get_object_size ObjectType.reply size = b.reply_bits
  vka_get_object_size ObjectType.endpoint size = b.endpoint_bits
  vka_get_object_size ObjectType.notification size = b.notification_bits
  vka_get_object_size ObjectType.cap_table size = (b.slot_bits + size) % 2 ^ 64
  vka_get_object_size (ObjectType.arch t) size = b.arch_bits t

  unfoldable pub get_sel4_object_size : ObjectType → ℕ → ℕ
  get_sel4_object_size ObjectType.cap_table size = sub_size size b.slot_bits
  get_sel4_object_size t size = vka_get_object_size t size

  -- For a size and a `seL4_SlotBits` below 2^64, a size in memory that `vka_get_object_size` gives is left
  -- alone by the way to the size of a retype call and back.
  pub object_size-round_trip :
      (t : ObjectType) (size : ℕ)
      → size < 2 ^ 64
      → b.slot_bits < 2 ^ 64
      → vka_get_object_size t (get_sel4_object_size t (vka_get_object_size t size))
        ≡ vka_get_object_size t size
  unfolding vka_get_object_size get_sel4_object_size
  object_size-round_trip ObjectType.cap_table size small slot = omega arith
  object_size-round_trip t size small slot = ground arith
