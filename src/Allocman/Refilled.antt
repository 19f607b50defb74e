-- ===== src/Allocman/Refilled.antt =====
-- Filling the reserves of libsel4allocman/src/allocman.c comes to an end, for allocators that do not call the manager
-- back.
use se_l4_libs.Prelude.{ℕ, zero, suc, true, false, [], ◌∷◌, length, ltb}
use se_l4_libs.Prelude.Int.{ℤ, nonzero}
use se_l4_libs.Prelude.Bits.{assign}
use se_l4_libs.Cspace.Path.{CspacePath}
use se_l4_libs.Allocman.Defs.{UtspaceChunk, Allocman, Act, Allocators}
use se_l4_libs.Allocman.Refill
use se_l4_libs.Allocman.Refill.{
  both_of, refill_slot, refill_untyped, refill_untypeds, refill_chunk, refill_chunks,
}
use se_l4_libs.Allocman.Freed.{
  Frees-Ends, Ends, Ends-done, Ends-modify, Ends-any, Ends-next, Ends-if,
}
use se_l4_libs.Allocman.Ends.{IsQuiet, IsReady, same-IsReady}
use se_l4_libs.Allocman.Answered.{
  cspace_free-Frees, mspace_alloc_with-Frees, utspace_alloc_with-Frees, cspace_alloc_with-Frees,
}

module _ (b : Allocators) (quiet : IsQuiet b) where
  open b use {State}

  abbrev pub IsEmpty : Allocman → Type 0
  IsEmpty = IsReady [] [] []

  abbrev pub EndsEmpty : {A : Type 0} → Act State A → Type 0
  EndsEmpty m = Ends quiet.freed [] IsEmpty IsEmpty m

  keep_slot-Ends : (r : ℤ × CspacePath) → EndsEmpty (Refill.keep_slot b r)
  keep_slot-Ends (error, slot) = Ends-if (nonzero error) (Ends-done (true, false)) (
      Ends-next {Q = IsEmpty}
        (Ends-modify _ (λ a h.
          same-IsReady [] [] [] a h a.in_operation a.used_watermark a.depths (slot ∷ a.cspace_slots)
            a.mspace_chunks a.utspace_chunks h.idle))
        (λ u. Ends-done (true, true)))

  pub refill_slot-Ends : EndsEmpty (refill_slot b)
  unfolding refill_slot
  refill_slot-Ends = record {
    ends = λ a s h.
        (Ends-if (ltb (length a.cspace_slots) a.config.desired_cspace_slots)
            (Ends-next {Q = IsEmpty} (Frees-Ends (cspace_alloc_with-Frees b quiet [] [] [] false))
              keep_slot-Ends)
            (Ends-done (false, false))).ends
          a s h;
  }

  keep_chunk-Ends : (i : ℕ) (r : ℤ × ℕ) → EndsEmpty (Refill.keep_chunk b i r)
  keep_chunk-Ends i (error, ptr) = Ends-if (nonzero error) (Ends-done (true, false)) (
      Ends-next {Q = IsEmpty}
        (Ends-modify _ (λ a h.
          same-IsReady [] [] [] a h a.in_operation a.used_watermark a.depths a.cspace_slots
            (assign a.mspace_chunks i (ptr ∷ a.mspace_chunks i)) a.utspace_chunks h.idle))
        (λ u. Ends-done (true, true)))

  refill_chunk-Ends : (i : ℕ) → EndsEmpty (refill_chunk b i)
  unfolding refill_chunk
  refill_chunk-Ends i = record {
    ends = λ a s h.
        (Ends-if (ltb (length (a.mspace_chunks i)) (a.config.mspace_chunk i).count)
            (Ends-next {Q = IsEmpty}
              (Frees-Ends (mspace_alloc_with-Frees b quiet [] [] [] (a.config.mspace_chunk i).size))
              (keep_chunk-Ends i))
            (Ends-done (false, false))).ends
          a s h;
  }

  keep_untyped-Ends :
      (i : ℕ) (slot : CspacePath) (r : ℤ × ℕ) → EndsEmpty (Refill.keep_untyped b i slot r)
  keep_untyped-Ends i slot (error, cookie) =
      Ends-if (nonzero error)
        (Ends-next {Q = IsEmpty} (Ends-any (Frees-Ends (cspace_free-Frees b quiet [] [] [] slot)))
          (λ u. Ends-done (true, false)))
        (Ends-next {Q = IsEmpty}
          (Ends-modify _ (λ a h.
            same-IsReady [] [] [] a h a.in_operation a.used_watermark a.depths a.cspace_slots
              a.mspace_chunks (assign a.utspace_chunks i ((cookie, slot) ∷ a.utspace_chunks i))
              h.idle))
          (λ u. Ends-done (true, true)))

  untyped_for-Ends :
      (i : ℕ) (chunk : UtspaceChunk) (r : ℤ × CspacePath)
      → EndsEmpty (Refill.untyped_for b i chunk r)
  untyped_for-Ends i chunk (error, slot) = Ends-if (nonzero error) (Ends-done (true, false)) (
      Ends-next {Q = IsEmpty}
        (Frees-Ends (utspace_alloc_with-Frees b quiet [] [] [] chunk.size_bits chunk.ut_type slot))
        (keep_untyped-Ends i slot))

  refill_untyped-Ends : (i : ℕ) → EndsEmpty (refill_untyped b i)
  unfolding refill_untyped
  refill_untyped-Ends i = record {
    ends = λ a s h.
        (Ends-if (ltb (length (a.utspace_chunks i)) (a.config.utspace_chunk i).count)
            (Ends-next {Q = IsEmpty} (Frees-Ends (cspace_alloc_with-Frees b quiet [] [] [] true))
              (untyped_for-Ends i (a.config.utspace_chunk i)))
            (Ends-done (false, false))).ends
          a s h;
  }

  pub refill_untypeds-Ends : (rounds i : ℕ) → EndsEmpty (refill_untypeds b rounds i)
  unfolding refill_untypeds
  refill_untypeds-Ends zero i = Ends-done (false, false)
  refill_untypeds-Ends (suc rounds) i = Ends-next {Q = IsEmpty} (refill_untyped-Ends i) (λ one.
      Ends-next {Q = IsEmpty} (refill_untypeds-Ends rounds (suc i))
        (λ rest. Ends-done (both_of one rest)))

  pub refill_chunks-Ends : (rounds i : ℕ) → EndsEmpty (refill_chunks b rounds i)
  unfolding refill_chunks
  refill_chunks-Ends zero i = Ends-done (false, false)
  refill_chunks-Ends (suc rounds) i = Ends-next {Q = IsEmpty} (refill_chunk-Ends i) (λ one.
      Ends-next {Q = IsEmpty} (refill_chunks-Ends rounds (suc i))
        (λ rest. Ends-done (both_of one rest)))
