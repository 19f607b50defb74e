-- ===== src/Irq/Ids.antt =====
-- The search for a free id or a free bit of a badge in libsel4platsupport/src/irq.c.
use se_l4_libs.Prelude.{
  ℕ, zero, suc, ◌+◌, ◌-◌, ◌*◌, ◌/◌, ◌%◌, true, not, ◌&&◌, Option, none, some, ◌==◌, ltb,
  if◌then◌else◌, sub_size,
}
use se_l4_libs.Prelude.Bits.{Bits, fill, unfill, without, lowest, assign}
use se_l4_libs.Irq.Defs.{Irq, NtfnEntry}

-- `fill_bit_in_bitfield` and `unfill_bit_in_bitfield`
unfoldable pub fill_bit_in_bitfield : (ℕ → Bits) → ℕ → ℕ → Bits
fill_bit_in_bitfield array index =
    assign array (index / 64) (fill (array (index / 64)) (index % 64))

unfoldable pub unfill_bit_in_bitfield : (ℕ → Bits) → ℕ → ℕ → Bits
unfill_bit_in_bitfield array index =
    assign array (index / 64) (unfill (array (index / 64)) (index % 64))

-- `BSWAP_WORD(MASK(n))`: bit `k` is that of the byte swapped word.
abbrev pub swapped_mask : ℕ → Bits
swapped_mask n k = ltb ((7 - k / 8) * 8 + k % 8) n

-- The word `i` of an array of `count` words for `limit` ids, negated; the mask is put on word `masked` only.
unfoldable pub unallocated : (ℕ → Bits) → ℕ → ℕ → ℕ → ℕ → Bits
unallocated array count limit masked i k =
    not (array i k) && (if i == masked then swapped_mask (sub_size (count * 8) limit) k else true)

-- The loop over the words, from word `i` on.
abbrev pub found_in : ℕ → Option ℕ → Option ℕ → Option ℕ
found_in i none rest = rest
found_in i (some k) rest = some (k + i * 64)

abbrev pub find_from : ℕ → ℕ → (ℕ → Bits) → Option ℕ
find_from zero i words = none
find_from (suc rounds) i words = found_in i (lowest (words i)) (find_from rounds (suc i) words)

unfoldable pub find_free_irq_id : Irq → Option ℕ
unfolding unallocated
find_free_irq_id c =
    find_from c.num_irq_bitfields 0 (
      unallocated c.irq_bitfields c.num_irq_bitfields c.max_irq_ids
        (sub_size c.num_irq_bitfields 1))

-- The word that is masked is the last of the interrupts' bitfields, as the source has it.
unfoldable pub find_free_ntfn_id : Irq → Option ℕ
unfolding unallocated
find_free_ntfn_id c = find_from c.num_ntfn_bitfields 0 (
    unallocated c.ntfn_bitfields c.num_ntfn_bitfields c.max_ntfn_ids
      (sub_size c.num_irq_bitfields 1))

unfoldable pub find_free_ntfn_badge_index : NtfnEntry → Option ℕ
find_free_ntfn_badge_index e = lowest (without e.usable_mask e.status)
