-- ===== src/Tests/Allocman.antt =====
-- A manager of three allocators that count what they give out.
use se_l4_libs.Prelude.{ℕ, suc, ◌≡◌, ◌<◌, refl, arith, true, false, some, List, [], ◌∷◌}
use se_l4_libs.Prelude.Int.{pos}
use se_l4_libs.Allocman.Defs
use se_l4_libs.Allocman.Defs.{Space, Allocman, Allocators, have}
use se_l4_libs.Allocman.Refill.{no_slot, refill_watermark}
use se_l4_libs.Allocman.Kept.{IsBounded, IsStep-refl, Good}
use se_l4_libs.Allocman.Calls.{IsTame}
use se_l4_libs.Allocman.Calling.{
  Call, cspace_allocating, mspace_freeing, utspace_allocating, filling, calls, IsIntact,
  calls-IsIntact,
}
use se_l4_libs.Allocman.Freed.{Freed, freed_slot, freed_chunk, freed_untyped, Ending}
use se_l4_libs.Allocman.Ends.{IsQuiet, no_depths}
use se_l4_libs.Allocman.Finish.{IsDrained, refill_watermark-Ending}

abbrev counting : Allocators
counting = record {
  State = ℕ;
  properties = λ space. record {
    alloc_can_free = false;
    free_can_alloc = false;
    alloc_can_alloc = false;
    free_can_free = false;
  };
  mspace_alloc = λ size t. some ((pos 0, t.1), t.0, suc t.1);
  mspace_free = λ ptr size t. some (tt, t.0, t.1);
  cspace_alloc = λ t. some ((pos 0, record no_slot { cap_ptr = t.1 }), t.0, suc t.1);
  cspace_free = λ slot t. some (tt, t.0, t.1);
  utspace_alloc = λ size_bits ut_type path paddr can_be_dev t. some ((pos 0, t.1), t.0, suc t.1);
  utspace_free = λ cookie size_bits t. some (tt, t.0, t.1);
  cnode_move = λ to_path from_path s. (pos 0, s);
}

counting-IsTame : IsTame counting
counting-IsTame = record {
  mspace_alloc_keeps = λ size. record { keeps = λ a s. IsStep-refl a };
  mspace_free_keeps = λ ptr size. record { keeps = λ a s. IsStep-refl a };
  cspace_alloc_keeps = record { keeps = λ a s. IsStep-refl a };
  cspace_free_keeps = λ slot. record { keeps = λ a s. IsStep-refl a };
  utspace_alloc_keeps =
      λ size_bits ut_type path paddr can_be_dev. record { keeps = λ a s. IsStep-refl a };
  utspace_free_keeps = λ cookie size_bits. record { keeps = λ a s. IsStep-refl a };
}

-- Allocators that count what they have given and record what they are told to free.
abbrev logging : Allocators
logging = record {
  State = ℕ × List Freed;
  properties = counting.properties;
  mspace_alloc = λ size t. some ((pos 0, t.1.0), t.0, (suc t.1.0, t.1.1));
  mspace_free = λ ptr size t. some (tt, t.0, (t.1.0, freed_chunk ptr size ∷ t.1.1));
  cspace_alloc = λ t. some ((pos 0, record no_slot { cap_ptr = t.1.0 }), t.0, (suc t.1.0, t.1.1));
  cspace_free = λ slot t. some (tt, t.0, (t.1.0, freed_slot slot ∷ t.1.1));
  utspace_alloc =
      λ size_bits ut_type path paddr can_be_dev t. some ((pos 0, t.1.0), t.0, (suc t.1.0, t.1.1));
  utspace_free =
      λ cookie size_bits t. some (tt, t.0, (t.1.0, freed_untyped cookie size_bits ∷ t.1.1));
  cnode_move = λ to_path from_path s. (pos 0, s);
}

logging-IsQuiet : IsQuiet logging
logging-IsQuiet = record {
  freed = λ s. s.1;
  mspace_alloc_answers =
      λ size. record { answer = λ a s. ((pos 0, s.0), (suc s.0, s.1), refl, refl) };
  mspace_free_answers =
      λ ptr size. record { answer = λ a s. (tt, (s.0, freed_chunk ptr size ∷ s.1), refl, refl) };
  cspace_alloc_answers = record {
    answer = λ a s. ((pos 0, record no_slot { cap_ptr = s.0 }), (suc s.0, s.1), refl, refl);
  };
  cspace_free_answers =
      λ slot. record { answer = λ a s. (tt, (s.0, freed_slot slot ∷ s.1), refl, refl) };
  utspace_alloc_answers = λ size_bits ut_type path paddr can_be_dev. record {
    answer = λ a s. ((pos 0, s.0), (suc s.0, s.1), refl, refl);
  };
  utspace_free_answers = λ cookie size_bits. record {
    answer = λ a s. (tt, (s.0, freed_untyped cookie size_bits ∷ s.1), refl, refl);
  };
}

-- One slot in reserve of the two wanted, a slot and a chunk of memory that wait to be freed, and a used reserve.
abbrev stocked : Allocman
stocked = record {
  have_mspace = true;
  have_cspace = true;
  have_utspace = true;
  in_operation = false;
  depths = no_depths;
  refilling_watermark = false;
  used_watermark = true;
  config = record {
    desired_freed_slots = 2;
    desired_freed_mspace_chunks = 2;
    desired_freed_utspace_chunks = 2;
    desired_cspace_slots = 2;
    num_mspace_chunks = 1;
    mspace_chunk = λ i. record { size = 64; count = 1 };
    num_utspace_chunks = 1;
    utspace_chunk = λ i. record { size_bits = 4; ut_type = 0; count = 1 };
  };
  freed_slots = no_slot ∷ [];
  freed_mspace_chunks = (5, 64) ∷ [];
  freed_utspace_chunks = [];
  cspace_slots = no_slot ∷ [];
  mspace_chunks = λ i. [];
  utspace_chunks = λ i. [];
}

stocked-IsBounded : IsBounded stocked
stocked-IsBounded = record {
  slots = omega arith;
  chunks = λ i. omega arith;
  untypeds = λ i. omega arith;
  freed = omega arith;
  freed_chunks = omega arith;
  freed_untypeds = omega arith;
  words = record { alloc_word = allocs; free_word = frees };
}
  where
    allocs : (s : Space) → Defs.alloc_depth s no_depths < 18446744073709551616
    allocs Space.mspace = omega arith
    allocs Space.cspace = omega arith
    allocs Space.utspace = omega arith

    frees : (s : Space) → Defs.free_depth s no_depths < 18446744073709551616
    frees Space.mspace = omega arith
    frees Space.cspace = omega arith
    frees Space.utspace = omega arith

all_three : (space : Space) → have space stocked ≡ true
all_three Space.mspace = refl
all_three Space.cspace = refl
all_three Space.utspace = refl

abbrev some_calls : List Call
some_calls =
    cspace_allocating no_slot
    ∷ mspace_freeing 9 64
    ∷ utspace_allocating 4 0 no_slot 1 false
    ∷ filling
    ∷ []

calls-IsIntact_example :
    Good (IsIntact counting counting-IsTame 3) stocked (calls counting 3 some_calls (stocked, 7))
calls-IsIntact_example =
    calls-IsIntact counting counting-IsTame 3 some_calls stocked 7 stocked-IsBounded

refill_watermark-Ending_example :
    Ending
      (IsDrained logging logging-IsQuiet 3 stocked (7, []))
      (refill_watermark logging 3 (stocked, (7, [])))
refill_watermark-Ending_example =
    refill_watermark-Ending logging logging-IsQuiet 3 stocked (7, []) all_three refl refl refl
      (omega arith) (omega arith) (omega arith)
