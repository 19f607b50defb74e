-- ===== src/Allocman/Refill.antt =====
-- Filling the reserves of libsel4allocman/src/allocman.c up again, and making and completing a manager.
use se_l4_libs.Prelude.{
  ℕ, zero, suc, Bool, true, false, not, ◌&&◌, ◌||◌, none, List, [], ◌∷◌, ltb, length, if◌then◌else◌,
}
use se_l4_libs.Prelude.Int.{ℤ, pos, nonzero}
use se_l4_libs.Prelude.Bits.{assign}
use se_l4_libs.Cspace.Path.{CspacePath}
use se_l4_libs.Allocman.Defs.{
  Space, UtspaceChunk, Allocman, Act, Allocators, have, done, next, modify, with_state,
}
use se_l4_libs.Allocman.Ops.{
  no_paddr, start_operation, end_operation, cspace_free, mspace_free, utspace_free,
  mspace_alloc_with, cspace_alloc_with, utspace_alloc_with,
}

-- A slot that is not written.
abbrev pub no_slot : CspacePath
no_slot = record {
  root = 0;
  cap_ptr = 0;
  cap_depth = 0;
  dest = 0;
  dest_depth = 0;
  offset = 0;
  window = 0;
}

-- What a part of a round found and did: an empty reserve, and an allocation.
abbrev pub Progress : Type 0
Progress = Bool × Bool

abbrev pub both_of : Progress → Progress → Progress
both_of (found, did) (found', did') = (found || found', did || did')

module _ (b : Allocators) where
  open b use {State}

  -- `_refill_watermark` while it is running already: it returns at once.
  unfoldable pub nested_refill : Act State Bool
  nested_refill =
      with_state
        (λ a. if a.refilling_watermark || not a.used_watermark then done false else (λ t. none))

  -- The three loops over what could not be freed yet. Freeing may queue again, so that the rounds are bounded.
  abbrev pub drain_slot : List CspacePath → Act State Bool → Act State Bool
  drain_slot [] later = done false
  drain_slot (slot ∷ rest) later =
      next (modify (λ a. record a { freed_slots = rest }))
        (λ u. next (cspace_free b nested_refill slot) (λ v. next later (λ w. done true)))

  unfoldable pub drain_slots : ℕ → Act State Bool
  drain_slots zero = λ t. none
  drain_slots (suc rounds) =
      let later = drain_slots rounds in with_state (λ a. drain_slot a.freed_slots later)

  abbrev pub drain_mspace_chunk : List (ℕ × ℕ) → Act State Bool → Act State Bool
  drain_mspace_chunk [] later = done false
  drain_mspace_chunk ((ptr, bytes) ∷ rest) later =
      next (modify (λ a. record a { freed_mspace_chunks = rest }))
        (λ u. next (mspace_free b nested_refill ptr bytes) (λ v. next later (λ w. done true)))

  unfoldable pub drain_mspace_chunks : ℕ → Act State Bool
  drain_mspace_chunks zero = λ t. none
  drain_mspace_chunks (suc rounds) =
      let later = drain_mspace_chunks rounds in
      with_state (λ a. drain_mspace_chunk a.freed_mspace_chunks later)

  abbrev pub drain_utspace_chunk : List (ℕ × ℕ) → Act State Bool → Act State Bool
  drain_utspace_chunk [] later = done false
  drain_utspace_chunk ((cookie, size_bits) ∷ rest) later =
      next (modify (λ a. record a { freed_utspace_chunks = rest })) (λ u.
        next (utspace_free b nested_refill cookie size_bits) (λ v. next later (λ w. done true)))

  unfoldable pub drain_utspace_chunks : ℕ → Act State Bool
  drain_utspace_chunks zero = λ t. none
  drain_utspace_chunks (suc rounds) =
      let later = drain_utspace_chunks rounds in
      with_state (λ a. drain_utspace_chunk a.freed_utspace_chunks later)

  -- One slot
  abbrev pub keep_slot : ℤ × CspacePath → Act State Progress
  keep_slot (error, slot) =
      if nonzero error
      then done (true, false)
      else next (modify (λ a. record a { cspace_slots = slot ∷ a.cspace_slots }))
          (λ u. done (true, true))

  unfoldable pub refill_slot : Act State Progress
  refill_slot = with_state (λ a.
      if ltb (length a.cspace_slots) a.config.desired_cspace_slots
      then next (cspace_alloc_with b nested_refill false no_slot) keep_slot
      else done (false, false))

  -- One untyped of each kind
  abbrev pub keep_untyped : ℕ → CspacePath → ℤ × ℕ → Act State Progress
  keep_untyped i slot (error, cookie) =
      if nonzero error
      then next (cspace_free b nested_refill slot) (λ u. done (true, false))
      else next
          (modify (λ a. record a {
            utspace_chunks = assign a.utspace_chunks i ((cookie, slot) ∷ a.utspace_chunks i);
          }))
          (λ u. done (true, true))

  abbrev pub untyped_for : ℕ → UtspaceChunk → ℤ × CspacePath → Act State Progress
  untyped_for i chunk (error, slot) =
      if nonzero error
      then done (true, false)
      else next
          (utspace_alloc_with b nested_refill false chunk.size_bits chunk.ut_type slot no_paddr
            false)
          (keep_untyped i slot)

  unfoldable pub refill_untyped : ℕ → Act State Progress
  refill_untyped i = with_state (λ a.
      if ltb (length (a.utspace_chunks i)) (a.config.utspace_chunk i).count
      then next (cspace_alloc_with b nested_refill true no_slot)
          (untyped_for i (a.config.utspace_chunk i))
      else done (false, false))

  unfoldable pub refill_untypeds : ℕ → ℕ → Act State Progress
  unfolding refill_untyped
  refill_untypeds zero i = done (false, false)
  refill_untypeds (suc rounds) i =
      let later = refill_untypeds rounds (suc i) in
      next (refill_untyped i) (λ one. next later (λ rest. done (both_of one rest)))

  -- One chunk of memory of each size
  abbrev pub keep_chunk : ℕ → ℤ × ℕ → Act State Progress
  keep_chunk i (error, ptr) =
      if nonzero error
      then done (true, false)
      else next
          (modify
            (λ a. record a { mspace_chunks = assign a.mspace_chunks i (ptr ∷ a.mspace_chunks i) }))
          (λ u. done (true, true))

  unfoldable pub refill_chunk : ℕ → Act State Progress
  refill_chunk i = with_state (λ a.
      if ltb (length (a.mspace_chunks i)) (a.config.mspace_chunk i).count
      then next (mspace_alloc_with b nested_refill false (a.config.mspace_chunk i).size)
          (keep_chunk i)
      else done (false, false))

  unfoldable pub refill_chunks : ℕ → ℕ → Act State Progress
  unfolding refill_chunk
  refill_chunks zero i = done (false, false)
  refill_chunks (suc rounds) i =
      let later = refill_chunks rounds (suc i) in
      next (refill_chunk i) (λ one. next later (λ rest. done (both_of one rest)))

  -- One round of the loop, of which there are at most four; `bound` bounds the rounds of the inner loops.
  unfoldable pub refill_round : ℕ → Act State Progress
  refill_round bound = next (drain_slots bound) (λ slots.
      next (drain_mspace_chunks bound) (λ chunks. next (drain_utspace_chunks bound) (λ untypeds.
        next refill_slot (λ slot.
          next (with_state (λ a. refill_untypeds a.config.num_utspace_chunks 0)) (λ uts.
            next (with_state (λ a. refill_chunks a.config.num_mspace_chunks 0)) (λ mems.
              done (
                both_of (false, slots || chunks || untypeds)
                  (both_of slot (both_of uts mems)))))))))

  abbrev pub go_on : Act State Bool → Progress → Act State Bool
  go_on later (found, did) = if found && did then later else done found

  unfoldable pub refill_loop : ℕ → ℕ → Act State Bool
  refill_loop bound zero = next (refill_round bound) (go_on (done true))
  refill_loop bound (suc rounds) =
      let later = refill_loop bound rounds in next (refill_round bound) (go_on later)

  unfoldable pub refill_watermark : ℕ → Act State Bool
  refill_watermark bound = with_state (λ a.
      if a.refilling_watermark || not a.used_watermark
      then done false
      else next (modify (λ a. record a { refilling_watermark = true })) (λ u.
        next (refill_loop bound 3) (λ found.
          next
            (modify (λ a. record a {
              refilling_watermark = false;
              used_watermark = if found then a.used_watermark else false;
            }))
            (λ v. done found))))

  unfoldable pub fill_reserves : ℕ → Act State Bool
  fill_reserves bound = next (start_operation b (refill_watermark bound)) (λ root.
      next (modify (λ a. record a { used_watermark = true })) (λ u.
        next (refill_watermark bound)
          (λ full. next (end_operation b (refill_watermark bound) root) (λ v. done full))))

  abbrev pub set_have : Space → Allocman → Allocman
  set_have Space.mspace a = record a { have_mspace = true }
  set_have Space.cspace a = record a { have_cspace = true }
  set_have Space.utspace a = record a { have_utspace = true }

  -- `ALLOCMAN_ATTACH`; the early return leaves the operation open.
  unfoldable pub attach : ℕ → Space → Act State ℤ
  attach bound space = next (start_operation b (refill_watermark bound)) (λ root.
      if not root
      then (λ t. none)
      else with_state (λ a.
        if have space a
        then done (pos 1)
        else next (modify (set_have space))
            (λ u. next (end_operation b (refill_watermark bound) root) (λ v. done (pos 0)))))

-- `allocman_create`
unfoldable pub create : Allocman
create = record {
  have_mspace = true;
  have_cspace = false;
  have_utspace = false;
  in_operation = false;
  depths = record {
    mspace_alloc_depth = 0;
    mspace_free_depth = 0;
    cspace_alloc_depth = 0;
    cspace_free_depth = 0;
    utspace_alloc_depth = 0;
    utspace_free_depth = 0;
  };
  refilling_watermark = false;
  used_watermark = false;
  config = record {
    desired_freed_slots = 0;
    desired_freed_mspace_chunks = 0;
    desired_freed_utspace_chunks = 0;
    desired_cspace_slots = 0;
    num_mspace_chunks = 0;
    mspace_chunk = λ i. record { size = 0; count = 0 };
    num_utspace_chunks = 0;
    utspace_chunk = λ i. record { size_bits = 0; ut_type = 0; count = 0 };
  };
  freed_slots = [];
  freed_mspace_chunks = [];
  freed_utspace_chunks = [];
  cspace_slots = [];
  mspace_chunks = λ i. [];
  utspace_chunks = λ i. [];
}
