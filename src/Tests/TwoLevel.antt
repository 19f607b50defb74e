-- ===== src/Tests/TwoLevel.antt =====
-- A two-level cspace with one second level of 64 slots.
use se_l4_libs.Prelude.{
  ℕ, zero, suc, ◌-◌, ◌^◌, ◌≡◌, ◌<◌, refl, arith, true, [], ◌∷◌, Option, none, some, get_or,
  replicate, subst, sym, ◌∙◌,
}
use mathlib.Core.Option.{some-injective, none-ne-some}
use se_l4_libs.Prelude.Int.{pos}
use se_l4_libs.Prelude.Outcome.{ok, err}
use se_l4_libs.Cspace.Path.{CspacePath}
use se_l4_libs.Cspace.Manager.{Manager}
use se_l4_libs.Cspace.SingleLevel
use se_l4_libs.Cspace.SingleLevel.{SingleLevel, word}
use se_l4_libs.Cspace.SingleLevel.Valid
use se_l4_libs.Cspace.TwoLevel.Defs.{Node, TwoLevel, node_at, make_path}
use se_l4_libs.Cspace.TwoLevel.Second.{create_second_level}
use se_l4_libs.Cspace.TwoLevel.Slots.{alloc, alloc_at, hunt}
use se_l4_libs.Cspace.TwoLevel.Valid.{IsLevel, IsValid}
use se_l4_libs.Cspace.TwoLevel.AllocAt.{TwoLevelSpec, alloc_at-TwoLevelSpec}
use se_l4_libs.Cspace.TwoLevel.Paths.{simple_path, make_path-simple}
use se_l4_libs.Cspace.TwoLevel.Faults.{NoResult, alloc-stale, alloc_at-leak}
use se_l4_libs.Tests.Fixtures.{bump, exhausted, manager_of}

abbrev plenty : Manager
plenty = manager_of bump

abbrev poor : Manager
poor = manager_of exhausted

-- A cspace of 64 slots from 0, with the free ones in one word.
abbrev one_word : ℕ → ℕ → SingleLevel
one_word guard free = record {
  config = record {
    cnode = 2;
    cnode_size_bits = 6;
    cnode_guard_bits = guard;
    first_slot = 0;
    end_slot = 64;
  };
  bitmap = 4096;
  words = free ∷ [];
  bitmap_length = 1;
  last_entry = 0;
}

one_word-small : (guard free : ℕ) → free < 2 ^ 64 → (i : ℕ) → word (one_word guard free) i < 2 ^ 64
one_word-small guard free h zero = h
one_word-small guard free h (suc i) = omega arith

one_word-IsValid : (guard free : ℕ) → free < 2 ^ 64 → Valid.IsValid (one_word guard free)
one_word-IsValid guard free h = record {
  in_array = omega arith;
  last_in = omega arith;
  no_wrap = omega arith;
  small = one_word-small guard free h;
}

-- Second level 0 is full and nothing else is there; the search starts at 1.
abbrev full_node : Node
full_node = record {
  address = 8192;
  count = 64;
  second_level = one_word 0 0;
  cookie = some 7;
  cookie_valid = true;
}

abbrev two : TwoLevel
two = record {
  config = record {
    cnode = 2;
    cnode_size_bits = 6;
    cnode_guard_bits = 52;
    first_slot = 0;
    end_slot = 64;
    level_two_bits = 6;
    start_existing_index = 0;
    end_existing_index = 0;
    start_existing_slot = 0;
    end_existing_slot = 0;
  };
  first_level = one_word 52 (2 ^ 64 - 2);
  array = 12288;
  second_levels = some full_node ∷ replicate 63 none;
  last_second_level = 1;
}

none_there : (n i : ℕ) → get_or {A = Option Node} (replicate n none) i none ≡ none
none_there zero i = refl
none_there (suc n) zero = refl
none_there (suc n) (suc i) = none_there n i

two-levels : (i : ℕ) (node : Node) → node_at two i ≡ some node → IsLevel two node
two-levels zero node h =
    subst (λ (k : Node). IsLevel two k) (some-injective full_node node h)
      (record { valid = one_word-IsValid 0 0 (omega arith); first = refl })
two-levels (suc i) node h = absurd (none-ne-some node (sym (none_there 63 i) ∙ h))

two-IsValid : IsValid two
two-IsValid = record {
  wide = omega arith;
  narrow = omega arith;
  first = one_word-IsValid 52 (2 ^ 64 - 2) (omega arith);
  inside = omega arith;
  levels = two-levels;
}

-- Slot 69 is in second level 1, which is made first.
alloc_at-TwoLevelSpec_example : TwoLevelSpec plenty two 69 (alloc_at plenty 5 two 0 69)
alloc_at-TwoLevelSpec_example =
    alloc_at-TwoLevelSpec plenty 5 two-IsValid 0 69 (omega arith) (omega arith)

make_path-simple_example : make_path two 5 ≡ ok (simple_path two 5)
make_path-simple_example = make_path-simple two 5 full_node (omega arith) refl refl

abbrev slot_63 : CspacePath
slot_63 = record {
  root = 2;
  cap_ptr = 63;
  cap_depth = 58;
  dest = 0;
  dest_depth = 0;
  offset = 63;
  window = 1;
}

two-hunt : hunt plenty 5 two 64 1 ≡ none
unfolding hunt
two-hunt = refl

two-first : SingleLevel.alloc two.first_level ≡ ok (slot_63, one_word 52 (2 ^ 63 - 2))
unfolding SingleLevel.alloc SingleLevel.take_from SingleLevel.make_path
two-first = refl

alloc-stale_example : NoResult (alloc plenty 5 two 0).0
alloc-stale_example =
    alloc-stale plenty 5 two-IsValid 0 slot_63 (one_word 52 (2 ^ 63 - 2)) two-hunt refl two-first
      (λ e. omega arith)

abbrev after_take : TwoLevel
after_take = record two { first_level = one_word 52 (2 ^ 64 - 4) }

two-take : SingleLevel.alloc_at two.first_level 1 ≡ ok (one_word 52 (2 ^ 64 - 4))
unfolding SingleLevel.alloc_at
two-take = refl

two-fails : create_second_level poor 5 after_take 0 1 true ≡ (err (pos 1), after_take, 0)
unfolding create_second_level
two-fails = refl

alloc_at-leak_example :
    (alloc_at poor 5 two 0 69 ≡ (err (pos 1), after_take, 0))
    × ((later : ℕ) → alloc_at poor 5 after_take later 69 ≡ (err (pos 1), after_take, later))
alloc_at-leak_example = alloc_at-leak poor 5 two-IsValid 69 (omega arith) refl two-take 0 two-fails
