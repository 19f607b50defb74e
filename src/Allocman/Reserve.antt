-- ===== src/Allocman/Reserve.antt =====
-- Allocating from the reserves of libsel4allocman/src/allocman.c, and through the allocators.
use se_l4_libs.Prelude.{
  ℕ, zero, suc, ◌≡◌, refl, Bool, true, false, not, ◌&&◌, some, List, [], ◌∷◌, ◌==◌, Bool-cases, inl,
  inr,
}
use se_l4_libs.Prelude.Int.{ℤ, pos, nonzero}
use se_l4_libs.Prelude.Bits.{assign}
use se_l4_libs.Cspace.Path.{CspacePath}
use se_l4_libs.Allocman.Defs.{
  Space, Allocman, Act, Allocators, have, alloc_depth, free_depth, done, next,
}
use se_l4_libs.Allocman.Ops
use se_l4_libs.Allocman.Ops.{
  no_paddr, can_alloc, can_free, queue_slot, queue_mspace, queue_utspace, start_operation,
  end_operation, within_alloc, within_free, free_through, cspace_free, mspace_free, utspace_free,
  watermark_mspace_from, try_watermark_mspace, try_watermark_cspace, watermark_utspace_from,
  try_watermark_utspace, alloc_through, mspace_alloc_with, cspace_alloc_with, utspace_alloc_with,
  reserve_if,
}
use se_l4_libs.Allocman.Kept.{
  IsStep, IsStep-refl, IsStep-IsOrder, Good, Keeps, Keeps-done, Keeps-with_state, Keeps-next,
  Keeps-if, Good-continue,
}
use se_l4_libs.Allocman.Calls.{IsTame, take_slot-IsStep, take_chunk-IsStep, take_untyped-IsStep}
use se_l4_libs.Allocman.Safe.{
  start_operation-Keeps, end_operation-Keeps, within_alloc-Keeps, cspace_free-Keeps,
}

module _ (b : Allocators) (tame : IsTame b) (refill : Act b.State Bool)
    (refill_keeps : Keeps IsStep refill) where
  open b use {State, properties}

  take_chunk-Good :
      (i : ℕ) (l : List ℕ) {others : Act State (ℤ × ℕ)}
      → Keeps IsStep others
      → (a : Allocman) (s : State) → a.mspace_chunks i ≡ l
      → Good IsStep a (Ops.take_chunk b refill i l others (a, s))
  take_chunk-Good i [] h a s e = h.keeps a s
  take_chunk-Good i (ptr ∷ rest) h a s e = take_chunk-IsStep a i ptr rest e

  watermark_mspace_from-Keeps :
      (rounds i size : ℕ) → Keeps IsStep (watermark_mspace_from b refill rounds i size)
  unfolding watermark_mspace_from
  watermark_mspace_from-Keeps zero i size = Keeps-done IsStep-IsOrder (pos 1, 0)
  watermark_mspace_from-Keeps (suc rounds) i size =
      (let later = watermark_mspace_from-Keeps rounds (suc i) size in
        record {
          keeps = λ a s. elim (Bool-cases ((a.config.mspace_chunk i).size == size)) [
            | inl e ↦ rw e (take_chunk-Good i (a.mspace_chunks i) later a s refl)
            | inr e ↦ rw e (later.keeps a s)
          ];
        })

  try_watermark_mspace-Keeps : (size : ℕ) → Keeps IsStep (try_watermark_mspace b refill size)
  unfolding try_watermark_mspace
  try_watermark_mspace-Keeps size =
      Keeps-with_state IsStep-IsOrder
        (λ a. watermark_mspace_from-Keeps a.config.num_mspace_chunks 0 size)

  try_watermark_cspace-Keeps :
      (empty : CspacePath) → Keeps IsStep (try_watermark_cspace b refill empty)
  unfolding try_watermark_cspace
  try_watermark_cspace-Keeps empty = record { keeps = λ a s. taken a s a.cspace_slots refl }
    where
      taken :
          (a : Allocman) (s : State) (l : List CspacePath)
          → a.cspace_slots ≡ l
          → Good IsStep a (Ops.take_slot b refill empty l (a, s))
      taken a s [] e = IsStep-refl a
      taken a s (slot ∷ rest) e = take_slot-IsStep a slot rest e

  take_untyped-Good :
      (i : ℕ) (path : CspacePath) (l : List (ℕ × CspacePath)) {others : Act State (ℤ × ℕ)}
      → Keeps IsStep others
      → (a : Allocman) (s : State) → a.utspace_chunks i ≡ l
      → Good IsStep a (Ops.take_untyped b refill i path l others (a, s))
  take_untyped-Good i path [] h a s e = h.keeps a s
  take_untyped-Good i path ((cookie, slot) ∷ rest) h a s e =
      (let moved = b.cnode_move path slot s in
        elim (Bool-cases (nonzero moved.0)) [
          | inl q ↦ rw q (IsStep-refl a)
          | inr q ↦ rw q (
              Good-continue IsStep-IsOrder
                (λ u. next (cspace_free b refill slot) (λ v. done (pos 0, cookie))) a
                (some (
                  tt,
                  record a {
                    utspace_chunks = assign a.utspace_chunks i rest;
                    used_watermark = true;
                  },
                  moved.1,
                ))
                (take_untyped-IsStep a i (cookie, slot) rest e)
                (λ u.
                  Keeps-next IsStep-IsOrder (cspace_free-Keeps b tame refill refill_keeps slot)
                    (λ v. Keeps-done IsStep-IsOrder (pos 0, cookie))))
        ])

  watermark_utspace_from-Keeps :
      (rounds i bits ut_type : ℕ) (path : CspacePath)
      → Keeps IsStep (watermark_utspace_from b refill rounds i bits ut_type path)
  unfolding watermark_utspace_from
  watermark_utspace_from-Keeps zero i bits ut_type path = Keeps-done IsStep-IsOrder (pos 1, 0)
  watermark_utspace_from-Keeps (suc rounds) i bits ut_type path =
      (let later = watermark_utspace_from-Keeps rounds (suc i) bits ut_type path in
        record {
          keeps = λ a s.
              elim (Bool-cases (
                ((a.config.utspace_chunk i).size_bits == bits)
                && ((a.config.utspace_chunk i).ut_type == ut_type))) [
                  | inl e ↦ rw e (take_untyped-Good i path (a.utspace_chunks i) later a s refl)
                  | inr e ↦ rw e (later.keeps a s)
                ];
        })

  try_watermark_utspace-Keeps :
      (bits ut_type : ℕ) (path : CspacePath)
      → Keeps IsStep (try_watermark_utspace b refill bits ut_type path)
  unfolding try_watermark_utspace
  try_watermark_utspace-Keeps bits ut_type path =
      Keeps-with_state IsStep-IsOrder
        (λ a. watermark_utspace_from-Keeps a.config.num_utspace_chunks 0 bits ut_type path)

  attempted-Keeps :
      {A : Type 0} {reserve : Act State (ℤ × A)}
      → Keeps IsStep reserve
      → (root : Bool) (r : ℤ × A) → Keeps IsStep (Ops.attempted b refill reserve root r)
  attempted-Keeps h root (error, x) =
      Keeps-if IsStep-IsOrder (nonzero error)
        (Keeps-next IsStep-IsOrder h (λ r.
          Keeps-next IsStep-IsOrder (end_operation-Keeps b tame refill refill_keeps root)
            (λ u. Keeps-done IsStep-IsOrder r)))
        (Keeps-next IsStep-IsOrder (end_operation-Keeps b tame refill refill_keeps root)
          (λ u. Keeps-done IsStep-IsOrder (pos 0, x)))

  alloc_through-Keeps :
      {A : Type 0} (space : Space) (nothing : A) {call reserve : Act State (ℤ × A)}
      → Keeps IsStep call
      → Keeps IsStep reserve
      → Keeps IsStep (alloc_through b refill space nothing call reserve)
  unfolding alloc_through
  alloc_through-Keeps space nothing h r = Keeps-with_state IsStep-IsOrder (λ a.
      Keeps-if IsStep-IsOrder (not (have space a)) (Keeps-done IsStep-IsOrder (pos 1, nothing)) (
        Keeps-if IsStep-IsOrder
          (not
            (can_alloc (properties space) (alloc_depth space a.depths) (free_depth space a.depths)))
          r
          (Keeps-next IsStep-IsOrder (start_operation-Keeps b tame refill refill_keeps) (λ root.
            Keeps-next IsStep-IsOrder (within_alloc-Keeps b tame refill refill_keeps space h)
              (attempted-Keeps r root)))))

  reserve_if-Keeps :
      {A : Type 0} (use_it : Bool) (nothing : A) {reserve : Act State (ℤ × A)}
      → Keeps IsStep reserve
      → Keeps IsStep (reserve_if b refill use_it nothing reserve)
  reserve_if-Keeps true nothing h = h
  reserve_if-Keeps false nothing h = Keeps-done IsStep-IsOrder (pos 1, nothing)

  pub mspace_alloc_with-Keeps :
      (use_watermark : Bool) (size : ℕ)
      → Keeps IsStep (mspace_alloc_with b refill use_watermark size)
  unfolding mspace_alloc_with
  mspace_alloc_with-Keeps use_watermark size =
      alloc_through-Keeps Space.mspace 0 (tame.mspace_alloc_keeps size)
        (reserve_if-Keeps use_watermark 0 (try_watermark_mspace-Keeps size))

  pub cspace_alloc_with-Keeps :
      (use_watermark : Bool) (empty : CspacePath)
      → Keeps IsStep (cspace_alloc_with b refill use_watermark empty)
  unfolding cspace_alloc_with
  cspace_alloc_with-Keeps use_watermark empty =
      alloc_through-Keeps Space.cspace empty tame.cspace_alloc_keeps
        (reserve_if-Keeps use_watermark empty (try_watermark_cspace-Keeps empty))

  pub utspace_alloc_with-Keeps :
      (use_watermark : Bool) (bits ut_type : ℕ) (path : CspacePath) (paddr : ℕ) (can_be_dev : Bool)
      → Keeps IsStep (utspace_alloc_with b refill use_watermark bits ut_type path paddr can_be_dev)
  unfolding utspace_alloc_with
  utspace_alloc_with-Keeps use_watermark bits ut_type path paddr can_be_dev =
      alloc_through-Keeps Space.utspace 0
        (tame.utspace_alloc_keeps bits ut_type path paddr can_be_dev)
        (reserve_if-Keeps (use_watermark && (paddr == no_paddr)) 0
          (try_watermark_utspace-Keeps bits ut_type path))
