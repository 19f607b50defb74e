-- ===== src/Vspace/Reservations.antt =====
-- The reservations of libsel4utils/src/vspace/vspace.c: the linked list from `reservation_head` as a list of
-- the structures, each with its address.
use se_l4_libs.Prelude.{
  ℕ, ◌+◌, ◌<◌, ◌≤◌, ◌≡◌, Bool, true, false, ◌&&◌, Option, none, some, List, [], ◌∷◌, ◌==◌, leb, ltb,
  if◌then◌else◌,
}
use se_l4_libs.Prelude.Outcome.{Outcome, ok, err, abort}
pub mod Order

-- `sel4utils_res_t`
pub record Reservation : Type 0 where
  pub address : ℕ
  pub start : ℕ
  pub end : ℕ
  pub rights : ℕ
  pub cacheable : Bool
  pub malloced : Bool
  pub rights_deferred : Bool

-- `check_reservation_bounds`
unfoldable pub check_reservation_bounds : Reservation → ℕ → ℕ → Bool
check_reservation_bounds r start end = leb r.start start && leb end r.end

-- `insert_reservation`: in front of the first with a smaller start, or at the end.
unfoldable pub insert_reservation : Reservation → List Reservation → List Reservation
insert_reservation r [] = r ∷ []
insert_reservation r (x ∷ xs) =
    let rest = insert_reservation r xs in if ltb x.start r.start then r ∷ x ∷ xs else x ∷ rest

-- The loop of `remove_reservation` behind the head; one that is not in the list leaves it as it is.
unfoldable pub remove_from : Reservation → List Reservation → List Reservation
remove_from r [] = []
remove_from r (x ∷ xs) =
    let rest = remove_from r xs in if x.address == r.address then xs else x ∷ rest

-- An empty list is read through NULL.
unfoldable pub remove_reservation : Reservation → List Reservation → Outcome (List Reservation)
unfolding remove_from
remove_reservation r [] = abort
remove_reservation r (x ∷ xs) = if r.address == x.address then ok xs else ok (x ∷ remove_from r xs)

-- `vaddr >= current->start && vaddr < current->end`
abbrev pub holds : Reservation → ℕ → Bool
holds r vaddr = leb r.start vaddr && ltb vaddr r.end

unfoldable pub find_reserve : List Reservation → ℕ → Option Reservation
find_reserve [] vaddr = none
find_reserve (x ∷ xs) vaddr =
    let rest = find_reserve xs vaddr in if holds x vaddr then some x else rest
