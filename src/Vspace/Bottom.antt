-- ===== src/Vspace/Bottom.antt =====
-- The bottom level of the table of capabilities in libsel4utils/include/sel4utils/vspace_internal.h: the loops
-- over the pages of a range that reserve, clear, update and test their entries. What is written before an error
-- stays. A level has 512 entries, an address its entry at bits 12 to 20.
use se_l4_libs.Prelude.{
  ℕ, zero, suc, ◌+◌, ◌-◌, ◌/◌, ◌%◌, ◌^◌, ◌≡◌, Bool, true, false, not, ◌&&◌, Option, none, some,
  List, get_or, set, ◌==◌, ltb, if◌then◌else◌, add_size,
}
use se_l4_libs.Prelude.Int.{ℤ, pos, negsuc}
use se_l4_libs.Prelude.Outcome.{Outcome, ok, err, abort}
pub mod Walk

-- `vspace_bottom_level_t`
pub record Bottom : Type 0 where
  pub cap : List ℕ
  pub cookie : List ℕ

-- RESERVED and EMPTY
abbrev pub reserved : ℕ
reserved = 2 ^ 64 - 1

abbrev pub empty : ℕ
empty = 0

-- `INDEX_FOR_LEVEL(addr, 0)`
abbrev pub index_of : ℕ → ℕ
index_of address = address / 4096 % 512

abbrev pub write : Bottom → ℕ → ℕ × ℕ → Bottom
write b i (cap, cookie) = record { cap = set b.cap i cap; cookie = set b.cookie i cookie }

-- One round, by what becomes of the entry: `none` is the return of -1.
abbrev pub visit :
    (Bottom → Outcome (ℤ × Bottom)) → Bottom → ℕ → Option (ℕ × ℕ) → Outcome (ℤ × Bottom)
visit go b i none = ok (negsuc 0, b)
visit go b i (some entry) = go (write b i entry)

-- The loop `while (start < end)` over the entries, with `change` for the body.
abbrev pub walk : (ℕ → Option (ℕ × ℕ)) → ℕ → Bottom → ℕ → ℕ → Outcome (ℤ × Bottom)
walk change zero b start end = if ltb start end then abort else ok (pos 0, b)
walk change (suc rounds) b start end =
    if ltb start end
    then visit (λ (c : Bottom). walk change rounds c (add_size start 4096) end) b (index_of start)
        (change (get_or b.cap (index_of start) 0))
    else ok (pos 0, b)

abbrev pub reserve_entry : Bool → ℕ → Option (ℕ × ℕ)
reserve_entry preserve_frames cap =
    if cap == reserved
    then none
    else if not (cap == empty) && preserve_frames
    then none
    else some (reserved, 0)

abbrev pub clear_entry : Bool → ℕ → Option (ℕ × ℕ)
clear_entry only_reserved cap =
    if not (cap == reserved) && only_reserved then none else some (empty, 0)

abbrev pub update_entry : ℕ → ℕ → ℕ → Option (ℕ × ℕ)
update_entry cap cookie old =
    if not (old == reserved) && not (old == empty) then none else some (cap, cookie)

-- A level has 512 pages, so that as many rounds are enough.
unfoldable pub reserve_entries_bottom : Bottom → ℕ → ℕ → Bool → Outcome (ℤ × Bottom)
reserve_entries_bottom b start end preserve_frames =
    walk (reserve_entry preserve_frames) 512 b start end

unfoldable pub clear_entries_bottom : Bottom → ℕ → ℕ → Bool → Outcome (ℤ × Bottom)
clear_entries_bottom b start end only_reserved = walk (clear_entry only_reserved) 512 b start end

unfoldable pub update_entries_bottom : Bottom → ℕ → ℕ → ℕ → ℕ → Outcome (ℤ × Bottom)
update_entries_bottom b start end cap cookie = walk (update_entry cap cookie) 512 b start end
