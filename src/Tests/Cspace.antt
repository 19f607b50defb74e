-- ===== src/Tests/Cspace.antt =====
-- Small cspaces of one and of two levels.
use se_l4_libs.Prelude.{ℕ, zero, suc, ◌^◌, ◌≡◌, ◌<◌, refl, arith, [], ◌∷◌}
use se_l4_libs.Prelude.Int.{pos}
use se_l4_libs.Prelude.Outcome.{ok, err}
use se_l4_libs.Cspace.Path.{CspacePath}
use se_l4_libs.Cspace.SingleLevel
use se_l4_libs.Cspace.SingleLevel.{
  SingleLevel, alloc, alloc_at, free, create, destroy, word, num_slots, fresh_words, take_from,
  scan, make_path,
}
use se_l4_libs.Cspace.SingleLevel.Valid
use se_l4_libs.Cspace.SingleLevel.Alloc.{AllocSpec, alloc-AllocSpec}
use se_l4_libs.Cspace.SingleLevel.AllocAt.{
  AllocAtSpec, alloc_at-AllocAtSpec, FreeSpec, free-FreeSpec, free-alloc,
}
use se_l4_libs.Cspace.SingleLevel.Create.{CreateSpec, create-CreateSpec}
use se_l4_libs.Cspace.Simple
use se_l4_libs.Cspace.Simple.{drain, drain-create}
use se_l4_libs.Tests.Fixtures.{bump, path_at}

abbrev config : SingleLevel.Config
config = record {
  cnode = 2;
  cnode_size_bits = 8;
  cnode_guard_bits = 56;
  first_slot = 10;
  end_slot = 138;
}

-- Slot 76 is the only free one of the 128.
abbrev slots : SingleLevel
slots = record {
  config = config;
  bitmap = 4096;
  words = 0 ∷ 4 ∷ [];
  bitmap_length = 2;
  last_entry = 0;
}

small_word : (i : ℕ) → word slots i < 2 ^ 64
small_word zero = omega arith
small_word (suc zero) = omega arith
small_word (suc (suc i)) = omega arith

slots-IsValid : Valid.IsValid slots
slots-IsValid = record {
  in_array = omega arith;
  last_in = omega arith;
  no_wrap = omega arith;
  small = small_word;
}

abbrev emptied : SingleLevel
emptied = record slots { words = 0 ∷ 0 ∷ []; last_entry = 1 }

abbrev slot_76 : CspacePath
slot_76 = record (path_at 76) { root = 2 }

alloc-slots : alloc slots ≡ ok (slot_76, emptied)
unfolding alloc take_from scan make_path
alloc-slots = refl

alloc-emptied : alloc emptied ≡ err (pos 1)
unfolding alloc take_from scan make_path
alloc-emptied = refl

alloc-AllocSpec_example : AllocSpec slots (alloc slots)
alloc-AllocSpec_example = alloc-AllocSpec slots-IsValid

alloc_at-AllocAtSpec_example : AllocAtSpec slots 76 (alloc_at slots 76)
alloc_at-AllocAtSpec_example = alloc_at-AllocAtSpec slots-IsValid 76 (omega arith)

free-FreeSpec_example : FreeSpec slots 11 (free slots (path_at 11))
free-FreeSpec_example = free-FreeSpec slots-IsValid (path_at 11) (omega arith, omega arith)

free-alloc_example :
    (c : SingleLevel) × (free emptied slot_76 ≡ ok c)
    × ((s : ℕ) → Valid.is_free c s ≡ Valid.is_free slots s)
free-alloc_example = free-alloc slots-IsValid alloc-slots

create-CreateSpec_example : CreateSpec bump 0 config (create bump 0 config).0
create-CreateSpec_example = create-CreateSpec bump 0 config (omega arith) (omega arith)

-- 70 slots, so that the second word is padded
abbrev ragged : SingleLevel.Config
ragged = record config { end_slot = 80 }

abbrev ragged_slots : SingleLevel
ragged_slots = record {
  config = ragged;
  bitmap = 4096;
  words = fresh_words 70;
  bitmap_length = 1;
  last_entry = 0;
}

create-ragged : create bump 0 ragged ≡ (ok ragged_slots, 16)
unfolding create
create-ragged = refl

abbrev three : Simple.Config
three = record {
  cnode = 2;
  cnode_size_bits = 8;
  cnode_guard_bits = 56;
  first_slot = 40;
  end_slot = 43;
}

drain-create_example : drain 4 (Simple.create three) ≡ 40 ∷ 41 ∷ 42 ∷ []
drain-create_example = drain-create three 3 refl (omega arith)
