-- ===== src/Vspace/Range.antt =====
-- `find_range` of libsel4utils/src/vspace/vspace.c: first fit for pages from where the last search ended.
use se_l4_libs.Prelude.{
  ℕ, zero, suc, ◌+◌, ◌*◌, ◌%◌, ◌^◌, ◌<◌, ◌≤◌, ◌≡◌, ◌⊎◌, Bool, true, false, Option, none, some, ◌==◌,
  leb, ltb, if◌then◌else◌, add_size,
}
use se_l4_libs.Prelude.Outcome.{Outcome, ok, err, abort}
pub mod Fit

-- `limit` is KERNEL_RESERVED_START, `align_up` the macro ALIGN_UP of libutils and `available` the answer of
-- `is_available` for a page of `2 ^ bits` bytes.
module _ (limit : ℕ) (align_up : ℕ → ℕ → ℕ) (available : ℕ → ℕ → Bool) where
  -- What a search gives: the start and the end of the range, or `none` for NULL.
  abbrev pub Found : Type 0
  Found = Outcome (Option (ℕ × ℕ))

  -- A round of the loop, by the test of the page at `current`; `go` is the rest of the loop.
  abbrev pub advance : (ℕ → ℕ → ℕ → Found) → Bool → ℕ → ℕ → ℕ → Found
  advance go true contiguous start next =
      if leb limit next then ok none else go (suc contiguous) start next
  advance go false contiguous start next = if leb limit next then ok none else go 0 next next

  abbrev pub rounds : ℕ → ℕ → ℕ → ℕ → ℕ → ℕ → Found
  rounds zero num_pages bits contiguous start current = abort
  rounds (suc fuel) num_pages bits contiguous start current =
      if ltb contiguous num_pages
      then advance (rounds fuel num_pages bits) (available current bits) contiguous start
          (add_size current (2 ^ bits))
      else ok (some (start, current))

  -- The `assert`, then the loop; each round moves `current` up, so that `limit` rounds are enough.
  unfoldable pub find_range : ℕ → ℕ → ℕ → Found
  find_range last_allocated num_pages bits =
      let start = align_up last_allocated (2 ^ bits) in
      if start % 2 ^ bits == 0 then rounds (limit + 1) num_pages bits 0 start start else abort
