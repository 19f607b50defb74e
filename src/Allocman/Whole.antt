-- ===== src/Allocman/Whole.antt =====
-- The parts of a round of `_refill_watermark` of libsel4allocman/src/allocman.c.
use se_l4_libs.Prelude.{
  ℕ, zero, suc, ◌≡◌, refl, ap, Bool, true, false, not, ◌||◌, Option, none, some, List, [], ◌∷◌,
  length, ltb, arith, Bool-cases, inl, inr,
}
use se_l4_libs.Prelude.Int.{ℤ, nonzero}
use se_l4_libs.Cspace.Path.{CspacePath}
use se_l4_libs.Allocman.Defs.{Allocman, Act, Allocators, done, continue, next}
use se_l4_libs.Allocman.Ops.{mspace_alloc_with, cspace_alloc_with}
use se_l4_libs.Allocman.Refill
use se_l4_libs.Allocman.Refill.{
  Progress, both_of, no_slot, nested_refill, drain_slots, drain_mspace_chunks, drain_utspace_chunks,
  refill_slot, refill_untyped, refill_untypeds, refill_chunk, refill_chunks, refill_round,
  refill_loop, refill_watermark,
}
use se_l4_libs.Allocman.Kept.{
  IsStep, IsStep-refl, IsStep-IsOrder, Good, Keeps, Keeps-done, Keeps-none, Keeps-with_state,
  Keeps-next, Keeps-if, Good-continue,
}
use se_l4_libs.Allocman.Calls.{
  IsTame, freed_slots-IsStep, freed_mspace_chunks-IsStep, freed_utspace_chunks-IsStep,
}
use se_l4_libs.Allocman.Safe.{cspace_free-Keeps, mspace_free-Keeps, utspace_free-Keeps}
use se_l4_libs.Allocman.Reserve.{mspace_alloc_with-Keeps, cspace_alloc_with-Keeps}
use se_l4_libs.Allocman.Filled.{IsFill, IsFill-IsOrder, push_slot-IsFill, push_chunk-IsFill}

module _ (b : Allocators) (tame : IsTame b) where
  open b use {State}

  pub nested_refill-Keeps : Keeps IsStep (nested_refill b)
  unfolding nested_refill
  nested_refill-Keeps = Keeps-with_state IsStep-IsOrder (λ a.
      Keeps-if IsStep-IsOrder (a.refilling_watermark || not a.used_watermark)
        (Keeps-done IsStep-IsOrder false) (Keeps-none IsStep-IsOrder))

  -- What is popped off a queue is freed, and the loop goes on.
  popped-Good :
      (a a' : Allocman) (s : State) {free : Act State (Unit {0})} {later : Act State Bool}
      → IsStep a a'
      → Keeps IsStep free
      → Keeps IsStep later
      → Good IsStep a (next free (λ v. next later (λ w. done true)) (a', s))
  popped-Good a a' s {free = free} {later = later} p h l =
      Good-continue IsStep-IsOrder (λ u. next free (λ v. next later (λ w. done true))) a
        (some (tt, a', s)) p
        (λ u.
          Keeps-next IsStep-IsOrder h
            (λ v. Keeps-next IsStep-IsOrder l (λ w. Keeps-done IsStep-IsOrder true)))

  pub drain_slots-Keeps : (rounds : ℕ) → Keeps IsStep (drain_slots b rounds)
  unfolding drain_slots
  drain_slots-Keeps zero = Keeps-none IsStep-IsOrder
  drain_slots-Keeps (suc rounds) = record {
    keeps = λ a s. drained a s a.freed_slots (drain_slots-Keeps rounds) refl;
  }
    where
      drained :
          (a : Allocman) (s : State) (l : List CspacePath) {later : Act State Bool}
          → Keeps IsStep later
          → a.freed_slots ≡ l
          → Good IsStep a (Refill.drain_slot b l later (a, s))
      drained a s [] k e = IsStep-refl a
      drained a s (slot ∷ rest) k e =
          popped-Good a (record a { freed_slots = rest }) s
            (freed_slots-IsStep a rest (λ h.
              let q : length a.freed_slots ≡ suc (length rest) = ap length e in
              let x = h.freed in omega arith))
            (cspace_free-Keeps b tame (nested_refill b) nested_refill-Keeps slot) k

  pub drain_mspace_chunks-Keeps : (rounds : ℕ) → Keeps IsStep (drain_mspace_chunks b rounds)
  unfolding drain_mspace_chunks
  drain_mspace_chunks-Keeps zero = Keeps-none IsStep-IsOrder
  drain_mspace_chunks-Keeps (suc rounds) = record {
    keeps = λ a s. drained a s a.freed_mspace_chunks (drain_mspace_chunks-Keeps rounds) refl;
  }
    where
      drained :
          (a : Allocman) (s : State) (l : List (ℕ × ℕ)) {later : Act State Bool}
          → Keeps IsStep later
          → a.freed_mspace_chunks ≡ l
          → Good IsStep a (Refill.drain_mspace_chunk b l later (a, s))
      drained a s [] k e = IsStep-refl a
      drained a s ((ptr, bytes) ∷ rest) k e =
          popped-Good a (record a { freed_mspace_chunks = rest }) s
            (freed_mspace_chunks-IsStep a rest (λ h.
              let q : length a.freed_mspace_chunks ≡ suc (length rest) = ap length e in
              let x = h.freed_chunks in omega arith))
            (mspace_free-Keeps b tame (nested_refill b) nested_refill-Keeps ptr bytes) k

  pub drain_utspace_chunks-Keeps : (rounds : ℕ) → Keeps IsStep (drain_utspace_chunks b rounds)
  unfolding drain_utspace_chunks
  drain_utspace_chunks-Keeps zero = Keeps-none IsStep-IsOrder
  drain_utspace_chunks-Keeps (suc rounds) = record {
    keeps = λ a s. drained a s a.freed_utspace_chunks (drain_utspace_chunks-Keeps rounds) refl;
  }
    where
      drained :
          (a : Allocman) (s : State) (l : List (ℕ × ℕ)) {later : Act State Bool}
          → Keeps IsStep later
          → a.freed_utspace_chunks ≡ l
          → Good IsStep a (Refill.drain_utspace_chunk b l later (a, s))
      drained a s [] k e = IsStep-refl a
      drained a s ((cookie, bits) ∷ rest) k e =
          popped-Good a (record a { freed_utspace_chunks = rest }) s
            (freed_utspace_chunks-IsStep a rest (λ h.
              let q : length a.freed_utspace_chunks ≡ suc (length rest) = ap length e in
              let x = h.freed_untypeds in omega arith))
            (utspace_free-Keeps b tame (nested_refill b) nested_refill-Keeps cookie bits) k

  pub refill_slot-Keeps : Keeps IsFill (refill_slot b)
  unfolding refill_slot
  refill_slot-Keeps = record {
    keeps = λ a s. elim (Bool-cases (ltb (length a.cspace_slots) a.config.desired_cspace_slots)) [
      | inl e ↦ rw e (
          kept a e (cspace_alloc_with b (nested_refill b) false no_slot (a, s)) (
            (cspace_alloc_with-Keeps b tame (nested_refill b) nested_refill-Keeps false
                no_slot).keeps
              a s))
      | inr e ↦ rw e (IsFill-IsOrder.same a)
    ];
  }
    where
      kept :
          (a : Allocman)
          → ltb (length a.cspace_slots) a.config.desired_cspace_slots ≡ true
          → (o : Option ((ℤ × CspacePath) × Allocman × State)) → Good IsStep a o
          → Good IsFill a (continue (Refill.keep_slot b) o)
      kept a room none g = tt
      kept a room (some ((error, slot), a', s')) g = elim (Bool-cases (nonzero error)) [
        | inl e ↦ rw e (record { fills = λ f. g.kept })
        | inr e ↦ rw e (push_slot-IsFill a a' slot g room)
      ]

  pub refill_chunk-Keeps : (i : ℕ) → Keeps IsFill (refill_chunk b i)
  unfolding refill_chunk
  refill_chunk-Keeps i = record {
    keeps = λ a s.
        elim (Bool-cases (ltb (length (a.mspace_chunks i)) (a.config.mspace_chunk i).count)) [
          | inl e ↦ rw e (
              kept a e
                (mspace_alloc_with b (nested_refill b) false (a.config.mspace_chunk i).size (a, s))
                ((mspace_alloc_with-Keeps b tame (nested_refill b) nested_refill-Keeps false
                    (a.config.mspace_chunk i).size).keeps
                  a s))
          | inr e ↦ rw e (IsFill-IsOrder.same a)
        ];
  }
    where
      kept :
          (a : Allocman)
          → ltb (length (a.mspace_chunks i)) (a.config.mspace_chunk i).count ≡ true
          → (o : Option ((ℤ × ℕ) × Allocman × State)) → Good IsStep a o
          → Good IsFill a (continue (Refill.keep_chunk b i) o)
      kept a room none g = tt
      kept a room (some ((error, ptr), a', s')) g = elim (Bool-cases (nonzero error)) [
        | inl e ↦ rw e (record { fills = λ f. g.kept })
        | inr e ↦ rw e (push_chunk-IsFill a a' i ptr g room)
      ]
