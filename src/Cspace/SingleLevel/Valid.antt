-- ===== src/Cspace/SingleLevel/Valid.antt =====
-- The invariant of the bitmap of single_level.c, the set of free slots that it stands for, and how
-- setting or clearing the bit of one index changes that set.
use se_l4_libs.Prelude.{
  ℕ, add_size, ◌+◌, ◌-◌, ◌*◌, ◌/◌, ◌%◌, ◌^◌, ◌≤◌, ◌<◌, ◌≡◌, Bool, true, false, ◌&&◌, List, arith,
  ◌==◌, leb, ltb, if◌then◌else◌, get_or, set, length, length-set, get_or-set_self, get_or-set_ne,
  ℕ_discrete,
}
use se_l4_libs.Prelude.Words.{
  clear_bit, set_bit, test_bit-clear_self, test_bit-clear_ne, test_bit-set_self, test_bit-set_ne,
  clear_bit-le, set_bit-lt,
}
use se_l4_libs.Cspace.SingleLevel.{SingleLevel, bits_per_word, word, index_bit}

pub record IsValid (c : SingleLevel) : Type 0 where
  pub in_array : c.bitmap_length ≤ length c.words
  pub last_in : c.last_entry < c.bitmap_length
  pub no_wrap : c.config.first_slot + c.bitmap_length * bits_per_word < 2 ^ 64
  pub small : (i : ℕ) → word c i < 2 ^ 64

-- The slots that `bitmap_length` words of the bitmap hold as free.
abbrev pub is_free : SingleLevel → ℕ → Bool
is_free c slot =
    leb c.config.first_slot slot
    && (ltb (slot - c.config.first_slot) (c.bitmap_length * bits_per_word)
        && index_bit c (slot - c.config.first_slot))

abbrev pub clear_index : SingleLevel → ℕ → SingleLevel
clear_index c k = record c { words = set c.words (k / 64) (clear_bit (word c (k / 64)) (k % 64)) }

abbrev pub set_index : SingleLevel → ℕ → SingleLevel
set_index c k = record c { words = set c.words (k / 64) (set_bit (word c (k / 64)) (k % 64)) }

pub get_or-set :
    (ws : List ℕ) (i v j : ℕ)
    → i < length ws
    → get_or (set ws i v) j 0 ≡ (if i == j then v else get_or ws j 0)
get_or-set ws i v j h = elim (ℕ_discrete i j) [
  | yes e ↦ ground (arith, get_or-set_self ws i v 0 h)
  | no ne ↦ ground (arith, get_or-set_ne ws i j v 0 ne)
]

module _ (c : SingleLevel) (k : ℕ) (inside : k / 64 < length c.words) where
  pub index_bit-clear :
      (j : ℕ) → index_bit (clear_index c k) j ≡ (if j == k then false else index_bit c j)
  index_bit-clear j = ground (
    arith,
    get_or-set c.words (k / 64) (clear_bit (word c (k / 64)) (k % 64)) (j / 64) inside,
    test_bit-clear_self (word c (k / 64)) (k % 64),
    test_bit-clear_ne (word c (k / 64)) (k % 64) (j % 64),
  )

  pub index_bit-set :
      (j : ℕ) → index_bit (set_index c k) j ≡ (if j == k then true else index_bit c j)
  index_bit-set j = ground (
    arith,
    get_or-set c.words (k / 64) (set_bit (word c (k / 64)) (k % 64)) (j / 64) inside,
    test_bit-set_self (word c (k / 64)) (k % 64),
    test_bit-set_ne (word c (k / 64)) (k % 64) (j % 64),
  )

  pub small-clear : ((i : ℕ) → word c i < 2 ^ 64) → (i : ℕ) → word (clear_index c k) i < 2 ^ 64
  small-clear small i = ground (
    arith,
    get_or-set c.words (k / 64) (clear_bit (word c (k / 64)) (k % 64)) i inside,
    clear_bit-le (word c (k / 64)) (k % 64),
    small i,
    small (k / 64),
  )

  pub small-set : ((i : ℕ) → word c i < 2 ^ 64) → (i : ℕ) → word (set_index c k) i < 2 ^ 64
  small-set small i = ground (
    arith,
    get_or-set c.words (k / 64) (set_bit (word c (k / 64)) (k % 64)) i inside,
    set_bit-lt 64 (word c (k / 64)) (k % 64),
    small i,
    small (k / 64),
  )

-- Clearing the bit of an index inside the bitmap takes just that slot out of the free ones.
module _ {c : SingleLevel} (valid : IsValid c) (k : ℕ) (inside : k < c.bitmap_length * 64) where
  index_in : k / 64 < length c.words
  index_in = omega (arith, valid.in_array)

  pub add_size-first : add_size c.config.first_slot k ≡ c.config.first_slot + k
  add_size-first = omega (arith, valid.no_wrap)

  pub is_free-clear :
      (s : ℕ)
      → is_free (clear_index c k) s
        ≡ (if s == add_size c.config.first_slot k then false else is_free c s)
  is_free-clear s =
      rw add_size-first (ground (arith, index_bit-clear c k index_in (s - c.config.first_slot)))

  pub is_free-set :
      (s : ℕ)
      → is_free (set_index c k) s
        ≡ (if s == add_size c.config.first_slot k then true else is_free c s)
  is_free-set s =
      rw add_size-first (ground (arith, index_bit-set c k index_in (s - c.config.first_slot)))

  pub is_free-index : is_free c (add_size c.config.first_slot k) ≡ index_bit c k
  is_free-index =
      let back : c.config.first_slot + k - c.config.first_slot ≡ k = omega arith in
      rw (add_size-first, back) (ground arith)

  pub clear-IsValid : IsValid (clear_index c k)
  clear-IsValid = record {
    in_array =
        omega (
          arith,
          valid.in_array,
          length-set c.words (k / 64) (clear_bit (word c (k / 64)) (k % 64)),
        );
    last_in = valid.last_in;
    no_wrap = valid.no_wrap;
    small = small-clear c k index_in valid.small;
  }

  pub set-IsValid : IsValid (set_index c k)
  set-IsValid = record {
    in_array =
        omega
          (arith, valid.in_array, length-set c.words (k / 64) (set_bit (word c (k / 64)) (k % 64)));
    last_in = valid.last_in;
    no_wrap = valid.no_wrap;
    small = small-set c k index_in valid.small;
  }
