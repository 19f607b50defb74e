-- ===== src/Cspace/SingleLevel.antt =====
-- libsel4allocman/src/cspace/single_level.c: slots of one cnode in a bitmap, a set bit for each free
-- slot. The array is `words`; a read behind its end gives 0, a write there changes nothing, and
-- the invariant keeps every index inside. Words have 64 bits.
pub mod Valid
pub mod Alloc
pub mod AllocAt
pub mod Create
use se_l4_libs.Prelude.{
  ℕ, zero, suc, ◌+◌, ◌-◌, ◌*◌, ◌/◌, ◌%◌, ◌^◌, Bool, not, ◌&&◌, ◌||◌, Option, none, some, List, ◌==◌,
  leb, if◌then◌else◌, get_or, set, replicate, add_size, sub_size,
}
use se_l4_libs.Prelude.Int.{pos, nonzero}
use se_l4_libs.Prelude.Words.{test_bit, clear_bit, set_bit, top_bit}
use se_l4_libs.Prelude.Outcome.{Outcome, ok, err, abort}
use se_l4_libs.Cspace.Path.{CspacePath}
use se_l4_libs.Cspace.Mspace.{Mspace}

abbrev pub bits_per_word : ℕ
bits_per_word = 64

pub record Config : Type 0 where
  pub cnode : ℕ
  pub cnode_size_bits : ℕ
  pub cnode_guard_bits : ℕ
  pub first_slot : ℕ
  pub end_slot : ℕ

-- `bitmap` is the array's address, `words` what it holds.
pub record SingleLevel : Type 0 where
  pub config : Config
  pub bitmap : ℕ
  pub words : List ℕ
  pub bitmap_length : ℕ
  pub last_entry : ℕ

unfoldable pub make_path : SingleLevel → ℕ → CspacePath
make_path c slot = record {
  root = c.config.cnode;
  cap_ptr = slot;
  cap_depth = c.config.cnode_size_bits + c.config.cnode_guard_bits;
  dest = 0;
  dest_depth = 0;
  offset = slot;
  window = 1;
}

-- `word ^= BIT(i)`
abbrev pub flip_bit : ℕ → ℕ → ℕ
flip_bit w i = if test_bit w i then clear_bit w i else set_bit w i

-- `for (i = excess; i < BITS_PER_WORD; i++) word ^= BIT(i)`, by the rounds left
pub pad : ℕ → ℕ → ℕ
pad zero w = w
pad (suc k) w = pad k (flip_bit w (bits_per_word - suc k))

-- The bitmap of `num_slots` slots: every bit set but those of the last word's padding.
abbrev pub fresh_words : ℕ → List ℕ
fresh_words num_slots =
    let full = num_slots / bits_per_word in
    let excess = num_slots % bits_per_word in
    if excess == 0
    then replicate full (2 ^ 64 - 1)
    else set (replicate (full + 1) (2 ^ 64 - 1)) full (pad (bits_per_word - excess) (2 ^ 64 - 1))

abbrev pub num_slots : Config → ℕ
num_slots config = sub_size config.end_slot config.first_slot

abbrev pub num_entries : Config → ℕ
num_entries config =
    let full = num_slots config / bits_per_word in
    if num_slots config % bits_per_word == 0 then full else full + 1

module _ (m : Mspace) where
  open m use {State, alloc as mspace_alloc, free as mspace_free}

  unfoldable pub create : State → Config → Outcome SingleLevel × State
  unfolding pad
  create st config =
      let (error, array, st') = mspace_alloc st (num_entries config * 8) in
      if nonzero error then (err error, st') else (
        ok (record {
          config = config;
          bitmap = array;
          words = fresh_words (num_slots config);
          bitmap_length = num_slots config / bits_per_word;
          last_entry = 0;
        }),
        st',
      )

  unfoldable pub destroy : State → SingleLevel → State
  destroy st c = mspace_free st c.bitmap (c.bitmap_length * 8)

abbrev pub word : SingleLevel → ℕ → ℕ
word c i = get_or c.words i 0

-- `do { i = (i + 1) % bitmap_length; } while (bitmap[i] == 0 && i != last_entry)`. Each round
-- visits another word, so `bitmap_length` rounds come back to `last_entry`.
unfoldable pub scan : SingleLevel → ℕ → ℕ → Option ℕ
scan c zero i = none
scan c (suc rounds) i =
    let next = (i + 1) % c.bitmap_length in
    let rest = scan c rounds next in
    if (word c next == 0) && not (next == c.last_entry) then rest else some next

-- What follows the choice of word `i`.
unfoldable pub take_from : SingleLevel → ℕ → Outcome (CspacePath × SingleLevel)
unfolding make_path
take_from c i =
    let index = top_bit bits_per_word (word c i) in
    ok (
      make_path c (add_size c.config.first_slot (i * bits_per_word + index)),
      record c { words = set c.words i (clear_bit (word c i) index) },
    )

-- The slot, or error 1 with nothing changed.
unfoldable pub alloc : SingleLevel → Outcome (CspacePath × SingleLevel)
unfolding scan take_from
alloc c =
    if not (word c c.last_entry == 0)
    then take_from c c.last_entry
    else if (c.bitmap_length == 0) || leb c.bitmap_length c.last_entry
    then abort
    else elim (scan c c.bitmap_length c.last_entry) [
      | none ↦ abort
      | some i ↦
          if i == c.last_entry then err (pos 1) else take_from (record c { last_entry = i }) i
    ]

-- The index of a slot in the bitmap.
abbrev pub slot_index : SingleLevel → ℕ → ℕ
slot_index c slot = sub_size slot c.config.first_slot

abbrev pub index_bit : SingleLevel → ℕ → Bool
index_bit c index = test_bit (word c (index / bits_per_word)) (index % bits_per_word)

unfoldable pub alloc_at : SingleLevel → ℕ → Outcome SingleLevel
alloc_at c slot =
    let index = slot_index c slot in
    let i = index / bits_per_word in
    if leb c.bitmap_length i || not (index_bit c index)
    then err (pos 1)
    else ok (record c { words = set c.words i (clear_bit (word c i) (index % bits_per_word)) })

unfoldable pub free : SingleLevel → CspacePath → Outcome SingleLevel
free c slot =
    let index = slot_index c slot.cap_ptr in
    let i = index / bits_per_word in
    if index_bit c index
    then abort
    else ok (record c { words = set c.words i (set_bit (word c i) (index % bits_per_word)) })
