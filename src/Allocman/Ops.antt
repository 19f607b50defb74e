-- ===== src/Allocman/Ops.antt =====
-- Allocating and freeing through the manager of libsel4allocman/src/allocman.c.
use se_l4_libs.Prelude.{
  ℕ, zero, suc, Bool, true, false, not, ◌&&◌, ◌||◌, none, some, List, [], ◌∷◌, ◌==◌, length,
  if◌then◌else◌, add_size, sub_size,
}
use se_l4_libs.Prelude.Int.{ℤ, pos, nonzero}
use se_l4_libs.Prelude.Bits.{assign}
use se_l4_libs.Cspace.Path.{CspacePath}
use se_l4_libs.Allocman.Defs.{
  Space, Properties, Act, Allocators, have, alloc_depth, free_depth, set_alloc_depth,
  set_free_depth, done, next, modify, with_state,
}

-- `ALLOCMAN_NO_PADDR`
abbrev pub no_paddr : ℕ
no_paddr = 1

unfoldable pub can_alloc : Properties → ℕ → ℕ → Bool
can_alloc properties in_alloc in_free =
    (properties.alloc_can_alloc || (in_alloc == 0)) && (properties.free_can_alloc || (in_free == 0))

unfoldable pub can_free : Properties → ℕ → ℕ → Bool
can_free properties in_alloc in_free =
    (properties.alloc_can_free || (in_alloc == 0)) && (properties.free_can_free || (in_free == 0))

-- `assert(!"Out of space ...")` ends the program.
unfoldable pub queue_slot : {S : Type 0} → CspacePath → Act S (Unit {0})
queue_slot path (a, s) =
    if length a.freed_slots == a.config.desired_freed_slots
    then none
    else some (tt, record a { freed_slots = path ∷ a.freed_slots }, s)

unfoldable pub queue_mspace : {S : Type 0} → ℕ → ℕ → Act S (Unit {0})
queue_mspace ptr bytes (a, s) =
    if length a.freed_mspace_chunks == a.config.desired_freed_mspace_chunks
    then none
    else some (tt, record a { freed_mspace_chunks = (ptr, bytes) ∷ a.freed_mspace_chunks }, s)

unfoldable pub queue_utspace : {S : Type 0} → ℕ → ℕ → Act S (Unit {0})
queue_utspace cookie size_bits (a, s) =
    if length a.freed_utspace_chunks == a.config.desired_freed_utspace_chunks
    then none
    else some
        (tt, record a { freed_utspace_chunks = (cookie, size_bits) ∷ a.freed_utspace_chunks }, s)

module _ (b : Allocators) (refill : Act b.State Bool) where
  open b use {State, properties}

  abbrev pub start_operation : Act State Bool
  start_operation (a, s) = some (not a.in_operation, record a { in_operation = true }, s)

  -- `_end_operation`: the root operation refills the watermark.
  unfoldable pub end_operation : Bool → Act State (Unit {0})
  end_operation root =
      next (modify (λ a. record a { in_operation = not root }))
        (λ u. if root then next refill (λ full. done tt) else done tt)

  -- A call of an allocator, with the depth counted up and down around it.
  unfoldable pub within_alloc : {A : Type 0} → Space → Act State A → Act State A
  within_alloc space call =
      next
        (modify (λ a. record a {
          depths = set_alloc_depth space (add_size (alloc_depth space a.depths) 1) a.depths;
        }))
        (λ u. next call (λ x.
          next
            (modify (λ a. record a {
              depths = set_alloc_depth space (sub_size (alloc_depth space a.depths) 1) a.depths;
            }))
            (λ v. done x)))

  unfoldable pub within_free : {A : Type 0} → Space → Act State A → Act State A
  within_free space call =
      next
        (modify (λ a. record a {
          depths = set_free_depth space (add_size (free_depth space a.depths) 1) a.depths;
        }))
        (λ u. next call (λ x.
          next
            (modify (λ a. record a {
              depths = set_free_depth space (sub_size (free_depth space a.depths) 1) a.depths;
            }))
            (λ v. done x)))

  -- `ALLOCMAN_FREE`
  unfoldable pub free_through :
      Space → Act State (Unit {0}) → Act State (Unit {0}) → Act State (Unit {0})
  free_through space queue call = with_state (λ a.
      if not (have space a)
      then (λ t. none)
      else if not
          (can_free (properties space) (alloc_depth space a.depths) (free_depth space a.depths))
      then queue
      else next start_operation (λ root. next (within_free space call) (λ u. end_operation root)))

  unfoldable pub cspace_free : CspacePath → Act State (Unit {0})
  cspace_free slot = free_through Space.cspace (queue_slot slot) (b.cspace_free slot)

  unfoldable pub mspace_free : ℕ → ℕ → Act State (Unit {0})
  mspace_free ptr bytes =
      free_through Space.mspace (queue_mspace ptr bytes) (b.mspace_free ptr bytes)

  unfoldable pub utspace_free : ℕ → ℕ → Act State (Unit {0})
  utspace_free cookie size_bits =
      free_through Space.utspace (queue_utspace cookie size_bits) (b.utspace_free cookie size_bits)

  -- `_try_watermark_mspace`, from pool `i` on, of which `rounds` are left.
  abbrev pub take_chunk : ℕ → List ℕ → Act State (ℤ × ℕ) → Act State (ℤ × ℕ)
  take_chunk i [] others = others
  take_chunk i (ptr ∷ rest) others =
      next
        (modify
          (λ a. record a { mspace_chunks = assign a.mspace_chunks i rest; used_watermark = true }))
        (λ u. done (pos 0, ptr))

  unfoldable pub watermark_mspace_from : ℕ → ℕ → ℕ → Act State (ℤ × ℕ)
  watermark_mspace_from zero i size = done (pos 1, 0)
  watermark_mspace_from (suc rounds) i size =
      let others = watermark_mspace_from rounds (suc i) size in
      with_state (λ a.
        if (a.config.mspace_chunk i).size == size
        then take_chunk i (a.mspace_chunks i) others
        else others)

  unfoldable pub try_watermark_mspace : ℕ → Act State (ℤ × ℕ)
  unfolding watermark_mspace_from
  try_watermark_mspace size =
      with_state (λ a. watermark_mspace_from a.config.num_mspace_chunks 0 size)

  abbrev pub take_slot : CspacePath → List CspacePath → Act State (ℤ × CspacePath)
  take_slot empty [] = done (pos 1, empty)
  take_slot empty (slot ∷ rest) =
      next (modify (λ a. record a { cspace_slots = rest; used_watermark = true }))
        (λ u. done (pos 0, slot))

  -- The slot that is left unwritten is `empty`.
  unfoldable pub try_watermark_cspace : CspacePath → Act State (ℤ × CspacePath)
  try_watermark_cspace empty = with_state (λ a. take_slot empty a.cspace_slots)

  -- `_try_watermark_utspace`: the capability is moved, and its old slot is free.
  abbrev pub move_to : CspacePath → CspacePath → Act State ℤ
  move_to path slot (a, s) = let (error, s') = b.cnode_move path slot s in some (error, a, s')

  abbrev pub take_untyped :
      ℕ → CspacePath → List (ℕ × CspacePath) → Act State (ℤ × ℕ) → Act State (ℤ × ℕ)
  take_untyped i path [] others = others
  take_untyped i path ((cookie, slot) ∷ rest) others = next (move_to path slot) (λ error.
      if nonzero error
      then done (pos 1, 0)
      else next
          (modify (λ a. record a {
            utspace_chunks = assign a.utspace_chunks i rest;
            used_watermark = true;
          }))
          (λ u. next (cspace_free slot) (λ v. done (pos 0, cookie))))

  unfoldable pub watermark_utspace_from : ℕ → ℕ → ℕ → ℕ → CspacePath → Act State (ℤ × ℕ)
  watermark_utspace_from zero i size_bits ut_type path = done (pos 1, 0)
  watermark_utspace_from (suc rounds) i size_bits ut_type path =
      let others = watermark_utspace_from rounds (suc i) size_bits ut_type path in
      with_state (λ a.
        if ((a.config.utspace_chunk i).size_bits == size_bits)
          && ((a.config.utspace_chunk i).ut_type == ut_type)
        then take_untyped i path (a.utspace_chunks i) others
        else others)

  unfoldable pub try_watermark_utspace : ℕ → ℕ → CspacePath → Act State (ℤ × ℕ)
  unfolding watermark_utspace_from
  try_watermark_utspace size_bits ut_type path =
      with_state (λ a. watermark_utspace_from a.config.num_utspace_chunks 0 size_bits ut_type path)

  -- What `_allocman_mspace_alloc`, `_allocman_cspace_alloc` and `_allocman_utspace_alloc` share: `reserve` is what they
  -- try when the allocator may not be entered or fails.
  abbrev pub attempted : {A : Type 0} → Act State (ℤ × A) → Bool → ℤ × A → Act State (ℤ × A)
  attempted reserve root (error, x) =
      if nonzero error
      then next reserve (λ r. next (end_operation root) (λ u. done r))
      else next (end_operation root) (λ u. done (pos 0, x))

  unfoldable pub alloc_through :
      {A : Type 0} → Space → A → Act State (ℤ × A) → Act State (ℤ × A) → Act State (ℤ × A)
  alloc_through space nothing call reserve = with_state (λ a.
      if not (have space a)
      then done (pos 1, nothing)
      else if not
          (can_alloc (properties space) (alloc_depth space a.depths) (free_depth space a.depths))
      then reserve
      else next start_operation (λ root. next (within_alloc space call) (attempted reserve root)))

  abbrev pub reserve_if : {A : Type 0} → Bool → A → Act State (ℤ × A) → Act State (ℤ × A)
  reserve_if true nothing reserve = reserve
  reserve_if false nothing reserve = done (pos 1, nothing)

  unfoldable pub mspace_alloc_with : Bool → ℕ → Act State (ℤ × ℕ)
  mspace_alloc_with use_watermark size =
      alloc_through Space.mspace 0 (b.mspace_alloc size)
        (reserve_if use_watermark 0 (try_watermark_mspace size))

  unfoldable pub cspace_alloc_with : Bool → CspacePath → Act State (ℤ × CspacePath)
  cspace_alloc_with use_watermark empty =
      alloc_through Space.cspace empty b.cspace_alloc
        (reserve_if use_watermark empty (try_watermark_cspace empty))

  unfoldable pub utspace_alloc_with : Bool → ℕ → ℕ → CspacePath → ℕ → Bool → Act State (ℤ × ℕ)
  utspace_alloc_with use_watermark size_bits ut_type path paddr can_be_dev =
      alloc_through Space.utspace 0 (b.utspace_alloc size_bits ut_type path paddr can_be_dev) (
        reserve_if (use_watermark && (paddr == no_paddr)) 0
          (try_watermark_utspace size_bits ut_type path))
