-- ===== src/Allocman/Bounded.antt =====
-- The rounds of `_refill_watermark` of libsel4allocman/src/allocman.c and the arrays of the manager.
use se_l4_libs.Prelude.{
  ℕ, zero, suc, ◌≡◌, refl, sym, ◌∙◌, Bool, true, false, not, ◌&&◌, ◌||◌, Option, none, some, length,
  ltb, if◌then◌else◌, Bool-cases, inl, inr,
}
use se_l4_libs.Prelude.Int.{ℤ, nonzero}
use se_l4_libs.Prelude.Bits.{clash}
use se_l4_libs.Cspace.Path.{CspacePath}
use se_l4_libs.Allocman.Defs.{UtspaceChunk, Allocman, Act, Allocators, done, continue, next, modify}
use se_l4_libs.Allocman.Ops.{no_paddr, cspace_free, cspace_alloc_with, utspace_alloc_with}
use se_l4_libs.Allocman.Refill
use se_l4_libs.Allocman.Refill.{
  Progress, both_of, no_slot, nested_refill, drain_slots, drain_mspace_chunks, drain_utspace_chunks,
  refill_slot, refill_untyped, refill_untypeds, refill_chunk, refill_chunks, refill_round,
  refill_loop, refill_watermark,
}
use se_l4_libs.Allocman.Kept.{
  IsBounded, IsStep, IsStep-refl, IsStep-trans, IsStep-IsOrder, Good, Keeps, Keeps-done,
  Keeps-with_state, Keeps-next, Keeps-if,
}
use se_l4_libs.Allocman.Calls.{IsTame}
use se_l4_libs.Allocman.Safe.{cspace_free-Keeps}
use se_l4_libs.Allocman.Reserve.{cspace_alloc_with-Keeps, utspace_alloc_with-Keeps}
use se_l4_libs.Allocman.Filled.{
  IsFill, IsFill-IsOrder, Good-IsFill, Keeps-IsFill, push_untyped-IsFill,
}
use se_l4_libs.Allocman.Whole.{
  nested_refill-Keeps, drain_slots-Keeps, drain_mspace_chunks-Keeps, drain_utspace_chunks-Keeps,
  refill_slot-Keeps, refill_chunk-Keeps,
}

module _ (b : Allocators) (tame : IsTame b) where
  open b use {State}

  -- A slot, and an untyped that is put there.
  refill_untyped-Keeps : (i : ℕ) → Keeps IsFill (refill_untyped b i)
  unfolding refill_untyped
  refill_untyped-Keeps i = record {
    keeps = λ a s.
        elim (Bool-cases (ltb (length (a.utspace_chunks i)) (a.config.utspace_chunk i).count)) [
          | inl e ↦ rw e (
              slot_given a e (a.config.utspace_chunk i)
                (cspace_alloc_with b (nested_refill b) true no_slot (a, s))
                ((cspace_alloc_with-Keeps b tame (nested_refill b) (nested_refill-Keeps b tame) true
                    no_slot).keeps
                  a s))
          | inr e ↦ rw e (IsFill-IsOrder.same a)
        ];
  }
    where
      later :
          {A : Type 0} (a a' : Allocman) (o : Option (A × Allocman × State))
          → IsStep a a'
          → Good IsStep a' o
          → Good IsStep a o
      later a a' none p g = tt
      later a a' (some (x, a'', s)) p g = IsStep-trans p g

      given_back :
          (slot : CspacePath)
          → Keeps IsStep {A = Progress}
              (next (cspace_free b (nested_refill b) slot) (λ u. done (true, false)))
      given_back slot =
          Keeps-next IsStep-IsOrder
            (cspace_free-Keeps b tame (nested_refill b) (nested_refill-Keeps b tame) slot)
            (λ u. Keeps-done IsStep-IsOrder (true, false))

      kept :
          (a : Allocman)
          → ltb (length (a.utspace_chunks i)) (a.config.utspace_chunk i).count ≡ true
          → (slot : CspacePath) → (o : Option ((ℤ × ℕ) × Allocman × State)) → Good IsStep a o
          → Good IsFill a (continue (Refill.keep_untyped b i slot) o)
      kept a room slot none g = tt
      kept a room slot (some ((error, cookie), a', s')) g = elim (Bool-cases (nonzero error)) [
        | inl e ↦ rw e (
            Good-IsFill a
              (next (cspace_free b (nested_refill b) slot) (λ u. done (true, false)) (a', s'))
              (later a a'
                (next (cspace_free b (nested_refill b) slot) (λ u. done (true, false)) (a', s')) g
                ((given_back slot).keeps a' s')))
        | inr e ↦ rw e (push_untyped-IsFill a a' i (cookie, slot) g room)
      ]

      slot_given :
          (a : Allocman)
          → ltb (length (a.utspace_chunks i)) (a.config.utspace_chunk i).count ≡ true
          → (chunk : UtspaceChunk) → (o : Option ((ℤ × CspacePath) × Allocman × State))
          → Good IsStep a o
          → Good IsFill a (continue (Refill.untyped_for b i chunk) o)
      slot_given a room chunk none g = tt
      slot_given a room chunk (some ((error, slot), a', s')) g = elim (Bool-cases (nonzero error)) [
        | inl e ↦ rw e (record { fills = λ f. g.kept })
        | inr e ↦ rw e (
            let made =
              utspace_alloc_with b (nested_refill b) false chunk.size_bits chunk.ut_type slot
                no_paddr false (a', s') in
            let step =
              (utspace_alloc_with-Keeps b tame (nested_refill b) (nested_refill-Keeps b tame) false
                  chunk.size_bits chunk.ut_type slot no_paddr false).keeps
                a' s' in
            kept a room slot made (later a a' made g step))
      ]

  refill_untypeds-Keeps : (rounds i : ℕ) → Keeps IsFill (refill_untypeds b rounds i)
  unfolding refill_untypeds
  refill_untypeds-Keeps zero i = Keeps-done IsFill-IsOrder (false, false)
  refill_untypeds-Keeps (suc rounds) i = Keeps-next IsFill-IsOrder (refill_untyped-Keeps i) (λ one.
      Keeps-next IsFill-IsOrder (refill_untypeds-Keeps rounds (suc i))
        (λ rest. Keeps-done IsFill-IsOrder (both_of one rest)))

  refill_chunks-Keeps : (rounds i : ℕ) → Keeps IsFill (refill_chunks b rounds i)
  unfolding refill_chunks
  refill_chunks-Keeps zero i = Keeps-done IsFill-IsOrder (false, false)
  refill_chunks-Keeps (suc rounds) i =
      Keeps-next IsFill-IsOrder (refill_chunk-Keeps b tame i) (λ one.
        Keeps-next IsFill-IsOrder (refill_chunks-Keeps rounds (suc i))
          (λ rest. Keeps-done IsFill-IsOrder (both_of one rest)))

  refill_round-Keeps : (bound : ℕ) → Keeps IsFill (refill_round b bound)
  unfolding refill_round
  refill_round-Keeps bound =
      Keeps-next IsFill-IsOrder (Keeps-IsFill (drain_slots-Keeps b tame bound)) (λ x.
        Keeps-next IsFill-IsOrder (Keeps-IsFill (drain_mspace_chunks-Keeps b tame bound)) (λ y.
          Keeps-next IsFill-IsOrder (Keeps-IsFill (drain_utspace_chunks-Keeps b tame bound)) (λ z.
            Keeps-next IsFill-IsOrder (refill_slot-Keeps b tame) (λ slot.
              Keeps-next IsFill-IsOrder
                (Keeps-with_state IsFill-IsOrder
                  (λ a. refill_untypeds-Keeps a.config.num_utspace_chunks 0))
                (λ uts.
                  Keeps-next IsFill-IsOrder
                    (Keeps-with_state IsFill-IsOrder
                      (λ a. refill_chunks-Keeps a.config.num_mspace_chunks 0))
                    (λ mems. Keeps-done IsFill-IsOrder _))))))

  go_on-Keeps :
      {later : Act State Bool}
      → Keeps IsFill later
      → (r : Progress) → Keeps IsFill (Refill.go_on b later r)
  go_on-Keeps h (found, did) =
      Keeps-if IsFill-IsOrder (found && did) h (Keeps-done IsFill-IsOrder found)

  refill_loop-Keeps : (bound rounds : ℕ) → Keeps IsFill (refill_loop b bound rounds)
  unfolding refill_loop
  refill_loop-Keeps bound zero =
      Keeps-next IsFill-IsOrder (refill_round-Keeps bound)
        (λ r. go_on-Keeps (Keeps-done IsFill-IsOrder true) r)
  refill_loop-Keeps bound (suc rounds) =
      Keeps-next IsFill-IsOrder (refill_round-Keeps bound)
        (λ r. go_on-Keeps (refill_loop-Keeps bound rounds) r)

  -- The flag is set, the loop fills, and the flag is taken back.
  flag_set-IsStep :
      (a a' : Allocman) (used : Bool)
      → a.refilling_watermark ≡ false
      → IsFill (record a { refilling_watermark = true }) a'
      → IsStep a (record a' { refilling_watermark = false; used_watermark = used })
  flag_set-IsStep a a' used idle g =
      (let k = g.fills refl in
        let raised : IsBounded a → IsBounded (record a { refilling_watermark = true }) = λ h.
          record {
            slots = h.slots;
            chunks = h.chunks;
            untypeds = h.untypeds;
            freed = h.freed;
            freed_chunks = h.freed_chunks;
            freed_untypeds = h.freed_untypeds;
            words = h.words;
          } in
        record {
          kept = record {
            bounded = λ h.
                (let k' = k.bounded (raised h) in
                  record {
                    slots = k'.slots;
                    chunks = k'.chunks;
                    untypeds = k'.untypeds;
                    freed = k'.freed;
                    freed_chunks = k'.freed_chunks;
                    freed_untypeds = k'.freed_untypeds;
                    words = k'.words;
                  });
            same_config = k.same_config;
            same_depths = λ h. k.same_depths (raised h);
            same_refilling = sym idle;
          };
          less = λ f. clash (sym f ∙ idle);
        })

  pub refill_watermark-Keeps : (bound : ℕ) → Keeps IsStep (refill_watermark b bound)
  unfolding refill_watermark
  refill_watermark-Keeps bound = record {
    keeps = λ a s. elim (Bool-cases (a.refilling_watermark || not a.used_watermark)) [
      | inl e ↦ rw e (IsStep-refl a)
      | inr e ↦ rw e (
          lowered a (idle a.refilling_watermark a.used_watermark e)
            (refill_loop b bound 3 (record a { refilling_watermark = true }, s))
            ((refill_loop-Keeps bound 3).keeps (record a { refilling_watermark = true }) s))
    ];
  }
    where
      idle : (r u : Bool) → (r || not u) ≡ false → r ≡ false
      idle true u e = e
      idle false u e = refl

      lowered :
          (a : Allocman)
          → a.refilling_watermark ≡ false
          → (o : Option (Bool × Allocman × State))
          → Good IsFill (record a { refilling_watermark = true }) o
          → Good IsStep a (
              continue
                (λ found.
                  next
                    (modify (λ a. record a {
                      refilling_watermark = false;
                      used_watermark = if found then a.used_watermark else false;
                    }))
                    (λ v. done found))
                o)
      lowered a h none g = tt
      lowered a h (some (found, a', s')) g =
          flag_set-IsStep a a' (if found then a'.used_watermark else false) h g
