-- ===== src/Allocman/Finish.antt =====
-- `_refill_watermark` of libsel4allocman/src/allocman.c, for allocators that do not call the manager back.
use se_l4_libs.Prelude.{
  ℕ, zero, suc, ◌<◌, ◌≡◌, refl, ap, ◌∙◌, Bool, true, false, not, ◌&&◌, ◌||◌, List, [], ◌++◌, length,
  arith, if◌then◌else◌,
}
use se_l4_libs.Cspace.Path.{CspacePath}
use se_l4_libs.Allocman.Defs.{
  Space, Allocman, Act, Allocators, have, done, continue, next, modify, with_state,
}
use se_l4_libs.Allocman.Refill
use se_l4_libs.Allocman.Refill.{
  Progress, both_of, no_slot, drain_slots, drain_mspace_chunks, drain_utspace_chunks, refill_slot,
  refill_untyped, refill_untypeds, refill_chunk, refill_chunks, refill_round, refill_loop,
  refill_watermark,
}
use se_l4_libs.Allocman.Freed.{
  Freed, Ending, Ends, Ends-next, Ends-then, Ends-if, Ends-done, slots_freed, chunks_freed,
  untypeds_freed,
}
use se_l4_libs.Allocman.Ends.{IsQuiet, no_depths, IsReady}
use se_l4_libs.Allocman.Refilled.{
  IsEmpty, EndsEmpty, refill_slot-Ends, refill_untypeds-Ends, refill_chunks-Ends,
}
use se_l4_libs.Allocman.Ended.{
  all_attached, drain_slots-Frees, drain_mspace_chunks-Frees, drain_utspace_chunks-Frees,
}

module _ (b : Allocators) (quiet : IsQuiet b) where
  open b use {State}

  -- What the three loops free, the last first: the slots, the memory and the untypeds, each from the head of its queue.
  abbrev pub all_freed : List CspacePath → List (ℕ × ℕ) → List (ℕ × ℕ) → List Freed
  all_freed slots chunks untypeds =
      (untypeds_freed untypeds ++ chunks_freed chunks) ++ slots_freed slots

  module _ (bound : ℕ) where
    refill_round-Ends :
        (slots : List CspacePath) (chunks untypeds : List (ℕ × ℕ))
        → length slots < bound
        → length chunks < bound
        → length untypeds < bound
        → Ends quiet.freed
            (all_freed slots chunks untypeds)
            (IsReady slots chunks untypeds)
            (IsEmpty b quiet)
            (refill_round b bound)
    unfolding refill_round
    refill_round-Ends slots chunks untypeds l m n =
        Ends-then {Q = IsReady [] chunks untypeds}
          (drain_slots-Frees b quiet chunks untypeds bound slots l)
          (λ x.
            Ends-then {Q = IsReady [] [] untypeds}
              (drain_mspace_chunks-Frees b quiet [] untypeds bound chunks m)
              (λ y.
                Ends-then {Q = (IsEmpty b quiet)}
                  (drain_utspace_chunks-Frees b quiet [] [] bound untypeds n)
                  (λ z. Ends-next {Q = (IsEmpty b quiet)} (refill_slot-Ends b quiet) (λ slot.
                    Ends-next {Q = (IsEmpty b quiet)}
                      {m = with_state (λ a. refill_untypeds b a.config.num_utspace_chunks 0)}
                      (record {
                        ends = λ a s h.
                            (refill_untypeds-Ends b quiet a.config.num_utspace_chunks 0).ends a s h;
                      })
                      (λ uts.
                        Ends-next {Q = (IsEmpty b quiet)}
                          {m = with_state (λ a. refill_chunks b a.config.num_mspace_chunks 0)}
                          (record {
                            ends = λ a s h.
                                (refill_chunks-Ends b quiet a.config.num_mspace_chunks 0).ends a s
                                  h;
                          })
                          (λ mems.
                            Ends-done
                              (both_of (false, x || y || z) (both_of slot (both_of uts mems)))))))))

    go_on-Ends :
        {later : Act State Bool}
        → EndsEmpty b quiet later
        → (r : Progress) → EndsEmpty b quiet (Refill.go_on b later r)
    go_on-Ends h (found, did) = Ends-if (found && did) h (Ends-done found)

    refill_loop-Ends :
        (rounds : ℕ) (slots : List CspacePath) (chunks untypeds : List (ℕ × ℕ))
        → length slots < bound
        → length chunks < bound
        → length untypeds < bound
        → Ends quiet.freed
            (all_freed slots chunks untypeds)
            (IsReady slots chunks untypeds)
            (IsEmpty b quiet)
            (refill_loop b bound rounds)
    unfolding refill_loop
    refill_loop-Ends zero slots chunks untypeds l m n =
        Ends-next {Q = (IsEmpty b quiet)} (refill_round-Ends slots chunks untypeds l m n)
          (λ r. go_on-Ends (Ends-done true) r)
    refill_loop-Ends (suc rounds) slots chunks untypeds l m n =
        Ends-next {Q = (IsEmpty b quiet)} (refill_round-Ends slots chunks untypeds l m n) (λ r.
          go_on-Ends (refill_loop-Ends rounds [] [] [] (omega arith) (omega arith) (omega arith)) r)

    -- Nothing is left to free, the reserves may be filled again, and after what had been freed before the allocators
    -- have been told to free all that was queued, once each and first, and then perhaps more.
    abbrev pub IsDrained : Allocman → State → Allocman → State → Type 0
    IsDrained a s a' s' =
        (a'.freed_slots ≡ [])
        × (a'.freed_mspace_chunks ≡ [])
        × (a'.freed_utspace_chunks ≡ [])
        × (a'.refilling_watermark ≡ false)
        × (a'.depths ≡ no_depths)
        × ((more : List Freed) × (quiet.freed s'
              ≡ more
                ++ (all_freed a.freed_slots a.freed_mspace_chunks a.freed_utspace_chunks
                    ++ quiet.freed s)))

    -- For allocators that answer without calling the manager, when all three are attached and none is entered, a
    -- reserve has been used, the reserves are not being filled, and `bound` is more than each queue holds: filling the
    -- reserves comes to an end, the queues are empty, and the allocators have been told to free each slot, each chunk of
    -- memory and each untyped that was queued, once and in the order of the queues, before anything else was freed.
    pub refill_watermark-Ending :
        (a : Allocman) (s : State)
        → ((space : Space) → have space a ≡ true)
        → a.depths ≡ no_depths
        → a.refilling_watermark ≡ false
        → a.used_watermark ≡ true
        → length a.freed_slots < bound
        → length a.freed_mspace_chunks < bound
        → length a.freed_utspace_chunks < bound
        → Ending (IsDrained a s) (refill_watermark b bound (a, s))
    unfolding refill_watermark
    refill_watermark-Ending a s attached idle unfilled used l m n =
        (let on = record a { refilling_watermark = true } in
          let (found, a', s', e, (h, (more, l'))) =
            (refill_loop-Ends 3 a.freed_slots a.freed_mspace_chunks a.freed_utspace_chunks l m
                n).ends
              on s
              (record {
                attached =
                    all_attached on (attached Space.mspace) (attached Space.cspace)
                      (attached Space.utspace);
                idle = idle;
                refilling = refl;
                freed = refl;
                freed_chunks = refl;
                freed_untypeds = refl;
              }) in
          (
            found,
            record a' {
              refilling_watermark = false;
              used_watermark = if found then a'.used_watermark else false;
            },
            s',
            ap (λ r. (if r then done {S = State} false else whole) (a, s))
                  (fresh a.refilling_watermark a.used_watermark unfilled used)
                ∙ ap (continue lowered) e,
            (h.freed, h.freed_chunks, h.freed_untypeds, refl, h.idle, (more, l')),
          ))
      where
        fresh : (r u : Bool) → r ≡ false → u ≡ true → (r || not u) ≡ false
        fresh r u q q' = rw q (rw q' refl)

        lowered : Bool → Act State Bool
        lowered found =
            next
              (modify (λ a. record a {
                refilling_watermark = false;
                used_watermark = if found then a.used_watermark else false;
              }))
              (λ v. done found)

        whole : Act State Bool
        whole =
            next (modify (λ a. record a { refilling_watermark = true }))
              (λ u. next (refill_loop b bound 3) lowered)
