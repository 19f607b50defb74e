-- ===== src/Allocman/Ended.antt =====
-- The loops over the queues of libsel4allocman/src/allocman.c, for allocators that do not call the manager back.
use se_l4_libs.Prelude.{
  ℕ, zero, suc, ◌<◌, ◌≡◌, refl, sym, subst, true, false, List, [], ◌∷◌, ◌++◌, length, arith,
}
use se_l4_libs.Cspace.Path.{CspacePath}
use se_l4_libs.Allocman.Defs.{Space, Allocman, Allocators, have}
use se_l4_libs.Allocman.Refill
use se_l4_libs.Allocman.Refill.{
  Progress, both_of, no_slot, drain_slots, drain_mspace_chunks, drain_utspace_chunks, refill_slot,
  refill_untyped, refill_untypeds, refill_chunk, refill_chunks, refill_round, refill_loop,
  refill_watermark,
}
use se_l4_libs.Allocman.Freed.{
  Ending, Frees, Frees-done, Frees-modify, Frees-next, Frees-last, Frees-both, slots_freed,
  chunks_freed, untypeds_freed,
}
use se_l4_libs.Allocman.Ends.{IsQuiet, IsReady}
use se_l4_libs.Allocman.Answered.{cspace_free-Frees, mspace_free-Frees, utspace_free-Frees}

pub all_attached :
    (a : Allocman)
    → a.have_mspace ≡ true
    → a.have_cspace ≡ true
    → a.have_utspace ≡ true
    → (s : Space) → have s a ≡ true
all_attached a m c u Space.mspace = m
all_attached a m c u Space.cspace = c
all_attached a m c u Space.utspace = u

module _ (b : Allocators) (quiet : IsQuiet b) where
  open b use {State}

  module _ (chunks untypeds : List (ℕ × ℕ)) where
    pub drain_slots-Frees :
        (rounds : ℕ) (slots : List CspacePath)
        → length slots < rounds
        → Frees quiet.freed
            (slots_freed slots)
            (IsReady slots chunks untypeds)
            (IsReady [] chunks untypeds)
            (drain_slots b rounds)
    unfolding drain_slots
    drain_slots-Frees zero slots l = absurd (omega arith)
    drain_slots-Frees (suc rounds) slots l = record {
      frees = λ a s h.
          subst
            (λ k.
              Ending
                (λ a' s'.
                  IsReady [] chunks untypeds a'
                  × (quiet.freed s' ≡ slots_freed slots ++ quiet.freed s))
                (Refill.drain_slot b k (drain_slots b rounds) (a, s)))
            (sym h.freed) ((drained slots l (drain_slots-Frees rounds)).frees a s h);
    }
      where
        popped :
            (slot : CspacePath) (rest : List CspacePath) (a : Allocman)
            → IsReady (slot ∷ rest) chunks untypeds a
            → IsReady rest chunks untypeds (record a { freed_slots = rest })
        popped slot rest a h = record {
          attached =
              all_attached (record a { freed_slots = rest }) (h.attached Space.mspace)
                (h.attached Space.cspace) (h.attached Space.utspace);
          idle = h.idle;
          refilling = h.refilling;
          freed = refl;
          freed_chunks = h.freed_chunks;
          freed_untypeds = h.freed_untypeds;
        }

        drained :
            (k : List CspacePath)
            → length k < suc rounds
            → ((k : List CspacePath)
                → length k < rounds
                → Frees quiet.freed
                    (slots_freed k)
                    (IsReady k chunks untypeds)
                    (IsReady [] chunks untypeds)
                    (drain_slots b rounds))
            → Frees quiet.freed
                (slots_freed k)
                (IsReady k chunks untypeds)
                (IsReady [] chunks untypeds)
                (Refill.drain_slot b k (drain_slots b rounds))
        drained [] l later = Frees-done false
        drained (slot ∷ rest) l later =
            Frees-next {Q = IsReady rest chunks untypeds} (Frees-modify _ (popped slot rest)) (λ u.
              Frees-both {Q = IsReady rest chunks untypeds}
                (cspace_free-Frees b quiet rest chunks untypeds slot)
                (λ v.
                  Frees-last {Q = IsReady [] chunks untypeds} (later rest (omega arith))
                    (λ w. Frees-done true)))

  module _ (slots : List CspacePath) (untypeds : List (ℕ × ℕ)) where
    pub drain_mspace_chunks-Frees :
        (rounds : ℕ) (chunks : List (ℕ × ℕ))
        → length chunks < rounds
        → Frees quiet.freed
            (chunks_freed chunks)
            (IsReady slots chunks untypeds)
            (IsReady slots [] untypeds)
            (drain_mspace_chunks b rounds)
    unfolding drain_mspace_chunks
    drain_mspace_chunks-Frees zero chunks l = absurd (omega arith)
    drain_mspace_chunks-Frees (suc rounds) chunks l = record {
      frees = λ a s h.
          subst
            (λ k.
              Ending
                (λ a' s'.
                  IsReady slots [] untypeds a'
                  × (quiet.freed s' ≡ chunks_freed chunks ++ quiet.freed s))
                (Refill.drain_mspace_chunk b k (drain_mspace_chunks b rounds) (a, s)))
            (sym h.freed_chunks)
            ((drained chunks l (drain_mspace_chunks-Frees rounds)).frees a s h);
    }
      where
        popped :
            (x : ℕ × ℕ) (rest : List (ℕ × ℕ)) (a : Allocman)
            → IsReady slots (x ∷ rest) untypeds a
            → IsReady slots rest untypeds (record a { freed_mspace_chunks = rest })
        popped x rest a h = record {
          attached =
              all_attached (record a { freed_mspace_chunks = rest }) (h.attached Space.mspace)
                (h.attached Space.cspace) (h.attached Space.utspace);
          idle = h.idle;
          refilling = h.refilling;
          freed = h.freed;
          freed_chunks = refl;
          freed_untypeds = h.freed_untypeds;
        }

        drained :
            (k : List (ℕ × ℕ))
            → length k < suc rounds
            → ((k : List (ℕ × ℕ))
                → length k < rounds
                → Frees quiet.freed
                    (chunks_freed k)
                    (IsReady slots k untypeds)
                    (IsReady slots [] untypeds)
                    (drain_mspace_chunks b rounds))
            → Frees quiet.freed
                (chunks_freed k)
                (IsReady slots k untypeds)
                (IsReady slots [] untypeds)
                (Refill.drain_mspace_chunk b k (drain_mspace_chunks b rounds))
        drained [] l later = Frees-done false
        drained ((ptr, bytes) ∷ rest) l later =
            Frees-next {Q = IsReady slots rest untypeds} (Frees-modify _ (popped (ptr, bytes) rest))
              (λ u.
                Frees-both {Q = IsReady slots rest untypeds}
                  (mspace_free-Frees b quiet slots rest untypeds ptr bytes)
                  (λ v.
                    Frees-last {Q = IsReady slots [] untypeds} (later rest (omega arith))
                      (λ w. Frees-done true)))

  module _ (slots : List CspacePath) (chunks : List (ℕ × ℕ)) where
    pub drain_utspace_chunks-Frees :
        (rounds : ℕ) (untypeds : List (ℕ × ℕ))
        → length untypeds < rounds
        → Frees quiet.freed
            (untypeds_freed untypeds)
            (IsReady slots chunks untypeds)
            (IsReady slots chunks [])
            (drain_utspace_chunks b rounds)
    unfolding drain_utspace_chunks
    drain_utspace_chunks-Frees zero untypeds l = absurd (omega arith)
    drain_utspace_chunks-Frees (suc rounds) untypeds l = record {
      frees = λ a s h.
          subst
            (λ k.
              Ending
                (λ a' s'.
                  IsReady slots chunks [] a'
                  × (quiet.freed s' ≡ untypeds_freed untypeds ++ quiet.freed s))
                (Refill.drain_utspace_chunk b k (drain_utspace_chunks b rounds) (a, s)))
            (sym h.freed_untypeds)
            ((drained untypeds l (drain_utspace_chunks-Frees rounds)).frees a s h);
    }
      where
        popped :
            (x : ℕ × ℕ) (rest : List (ℕ × ℕ)) (a : Allocman)
            → IsReady slots chunks (x ∷ rest) a
            → IsReady slots chunks rest (record a { freed_utspace_chunks = rest })
        popped x rest a h = record {
          attached =
              all_attached (record a { freed_utspace_chunks = rest }) (h.attached Space.mspace)
                (h.attached Space.cspace) (h.attached Space.utspace);
          idle = h.idle;
          refilling = h.refilling;
          freed = h.freed;
          freed_chunks = h.freed_chunks;
          freed_untypeds = refl;
        }

        drained :
            (k : List (ℕ × ℕ))
            → length k < suc rounds
            → ((k : List (ℕ × ℕ))
                → length k < rounds
                → Frees quiet.freed
                    (untypeds_freed k)
                    (IsReady slots chunks k)
                    (IsReady slots chunks [])
                    (drain_utspace_chunks b rounds))
            → Frees quiet.freed
                (untypeds_freed k)
                (IsReady slots chunks k)
                (IsReady slots chunks [])
                (Refill.drain_utspace_chunk b k (drain_utspace_chunks b rounds))
        drained [] l later = Frees-done false
        drained ((cookie, bits) ∷ rest) l later =
            Frees-next {Q = IsReady slots chunks rest} (Frees-modify _ (popped (cookie, bits) rest))
              (λ u.
                Frees-both {Q = IsReady slots chunks rest}
                  (utspace_free-Frees b quiet slots chunks rest cookie bits)
                  (λ v.
                    Frees-last {Q = IsReady slots chunks []} (later rest (omega arith))
                      (λ w. Frees-done true)))
