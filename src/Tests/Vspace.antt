-- ===== src/Tests/Vspace.antt =====
-- Reservations and the search for a range.
use se_l4_libs.Prelude.{
  ℕ, ◌+◌, ◌-◌, ◌*◌, ◌/◌, ◌%◌, ◌^◌, ◌≡◌, inl, inr, refl, arith, Bool, true, false, not, some, List,
  [], ◌∷◌, ◌==◌, if◌then◌else◌, replicate, length-replicate,
}
use native.Mathlib.Nat.{mul-mod_left}
use se_l4_libs.Prelude.Outcome.{ok}
use se_l4_libs.Vspace.Reservations.{
  Reservation, insert_reservation, remove_reservation, find_reserve, holds,
}
use se_l4_libs.Vspace.Reservations.Order.{IsOrdered, insert-IsOrdered, find-insert, remove-insert}
use se_l4_libs.Vspace.Bottom.{
  Bottom, reserve_entry, clear_entry, update_entry, reserve_entries_bottom, clear_entries_bottom,
  update_entries_bottom,
}
use se_l4_libs.Vspace.Bottom.Walk.{IsLevel, WalkSpec, bottom-WalkSpec}
use se_l4_libs.Vspace.Range.{find_range}
use se_l4_libs.Vspace.Range.Fit.{RangeSpec, find_range-RangeSpec}

abbrev between : ℕ → ℕ → ℕ → Reservation
between address start end = record {
  address = address;
  start = start;
  end = end;
  rights = 3;
  cacheable = true;
  malloced = true;
  rights_deferred = false;
}

abbrev high : Reservation
high = between 1 36864 40960

abbrev low : Reservation
low = between 2 4096 8192

abbrev middle : Reservation
middle = between 3 16384 20480

abbrev both : List Reservation
both = high ∷ low ∷ []

both-IsOrdered : IsOrdered both
both-IsOrdered = (omega arith, (omega arith, tt), (omega arith, tt, tt))

insert-both : insert_reservation middle both ≡ high ∷ middle ∷ low ∷ []
unfolding insert_reservation
insert-both = refl

insert-IsOrdered_example : IsOrdered (insert_reservation middle both)
insert-IsOrdered_example =
    insert-IsOrdered middle both (omega arith) both-IsOrdered
      (inl (omega arith), (inr (omega arith), tt))

find-insert_example :
    find_reserve (insert_reservation middle both) 16390
    ≡ (if holds middle 16390 then some middle else find_reserve both 16390)
find-insert_example = find-insert middle both 16390 (inl (omega arith), (inr (omega arith), tt))

remove-insert_example : remove_reservation middle (insert_reservation middle both) ≡ ok both
remove-insert_example = remove-insert middle both ((λ e. omega arith), ((λ e. omega arith), tt))

-- The page at 8192 is taken.
abbrev but_one : ℕ → ℕ → Bool
but_one page bits = not (page == 8192)

abbrev round_up_to : ℕ → ℕ → ℕ
round_up_to x size = (x + size - 1) / size * size

round_up_to_aligned : (x k : ℕ) → round_up_to x (2 ^ k) % 2 ^ k ≡ 0
round_up_to_aligned x k = mul-mod_left ((x + 2 ^ k - 1) / 2 ^ k) (2 ^ k)

find_range-RangeSpec_example :
    RangeSpec 65536 round_up_to but_one 2 12 (find_range 65536 round_up_to but_one 4096 2 12)
find_range-RangeSpec_example =
    find_range-RangeSpec 65536 round_up_to but_one 2 12 (omega arith) (omega arith) (omega arith)
      4096 round_up_to_aligned (omega arith)

abbrev blank_level : Bottom
blank_level = record { cap = replicate 512 0; cookie = replicate 512 0 }

blank-IsLevel : IsLevel blank_level
blank-IsLevel = (length-replicate {A = ℕ} 512 0, length-replicate {A = ℕ} 512 0)

-- Pages 2 and 3 of the level at 2 MiB.
bottom-WalkSpec_example :
    WalkSpec
      (reserve_entry true)
      2
      4
      blank_level
      (reserve_entries_bottom blank_level (2097152 + 2 * 4096) (2097152 + 4 * 4096) true)
    × WalkSpec
        (clear_entry false)
        2
        4
        blank_level
        (clear_entries_bottom blank_level (2097152 + 2 * 4096) (2097152 + 4 * 4096) false)
    × WalkSpec
        (update_entry 9 7)
        2
        4
        blank_level
        (update_entries_bottom blank_level (2097152 + 2 * 4096) (2097152 + 4 * 4096) 9 7)
bottom-WalkSpec_example =
    bottom-WalkSpec 2097152 refl (omega arith) 2 4 blank_level blank-IsLevel (omega arith)
      (omega arith) true false 9 7
