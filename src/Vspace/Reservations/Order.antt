-- ===== src/Vspace/Reservations/Order.antt =====
-- The list of reservations is ordered by falling addresses, without overlap; what is in it is found.
use se_l4_libs.Prelude.{
  ℕ, ◌<◌, ◌≤◌, ◌≡◌, ◌≢◌, ◌⊎◌, inl, inr, refl, sym, ap, ◌∙◌, true, false, Option, some, List, [],
  ◌∷◌, ◌==◌, ltb, if◌then◌else◌, All, All-get_elem?, get_elem?, zero, suc, arith, Bool-cases,
}
use mathlib.Core.Option.{some-injective, none-ne-some}
use se_l4_libs.Prelude.Outcome.{ok}
use se_l4_libs.Vspace.Reservations.{
  Reservation, insert_reservation, remove_from, remove_reservation, holds, find_reserve,
}

abbrev pub IsBelow : Reservation → Reservation → Type 0
IsBelow x y = y.end ≤ x.start

abbrev pub IsApart : Reservation → Reservation → Type 0
IsApart x y = (x.end ≤ y.start) ⊎ (y.end ≤ x.start)

-- Each is not empty and lies above all that follow.
abbrev pub IsOrdered : List Reservation → Type 0
IsOrdered [] = Unit
IsOrdered (x ∷ xs) = (x.start < x.end) × All (IsBelow x) xs × IsOrdered xs

IsBelow-trans :
    (r x : Reservation) (xs : List Reservation)
    → x.end ≤ r.start
    → x.start < x.end
    → All (IsBelow x) xs
    → All (IsBelow r) xs
IsBelow-trans r x [] h k a = tt
IsBelow-trans r x (y ∷ ys) h k a = (omega (arith, a.0), IsBelow-trans r x ys h k a.1)

insert-IsBelow :
    (r x : Reservation) (xs : List Reservation)
    → r.end ≤ x.start
    → All (IsBelow x) xs
    → All (IsBelow x) (insert_reservation r xs)
unfolding insert_reservation
insert-IsBelow r x [] h a = (h, tt)
insert-IsBelow r x (y ∷ ys) h a = elim (Bool-cases (ltb y.start r.start)) [
  | inl e ↦ rw e (h, a)
  | inr e ↦ rw e (a.0, insert-IsBelow r x ys h a.1)
]

-- A reservation that is not empty and overlaps none of an ordered list is inserted where the list stays
-- ordered.
pub insert-IsOrdered :
    (r : Reservation) (xs : List Reservation)
    → r.start < r.end
    → IsOrdered xs
    → All (IsApart r) xs
    → IsOrdered (insert_reservation r xs)
unfolding insert_reservation
insert-IsOrdered r [] h o a = (h, tt, tt)
insert-IsOrdered r (x ∷ xs) h o a = elim (Bool-cases (ltb x.start r.start)) [
  | inl e ↦
      (let under : x.end ≤ r.start = ground (arith, a.0, o.0) in
        rw e (h, (under, IsBelow-trans r x xs under o.0 o.1), o))
  | inr e ↦
      (let over : r.end ≤ x.start = ground (arith, a.0, h) in
        rw e (o.0, insert-IsBelow r x xs over o.1, insert-IsOrdered r xs h o.2 a.1))
]

passed :
    (r x : Reservation) (v : ℕ) (new old : Option Reservation)
    → IsApart r x
    → new ≡ (if holds r v then some r else old)
    → (if holds x v then some x else new)
      ≡ (if holds r v then some r else (if holds x v then some x else old))
passed r x v new old apart h = elim (Bool-cases (holds x v)) [
  | inl e ↦ elim (Bool-cases (holds r v)) [
    | inl k ↦ absurd (ground (arith, apart))
    | inr k ↦ rw (e, k) refl
  ]
  | inr e ↦ rw (e, h) refl
]

-- After the insertion of a reservation that overlaps no other, a search finds it for its own addresses and
-- finds what it found before for all others.
pub find-insert :
    (r : Reservation) (xs : List Reservation) (v : ℕ)
    → All (IsApart r) xs
    → find_reserve (insert_reservation r xs) v ≡ (if holds r v then some r else find_reserve xs v)
unfolding insert_reservation find_reserve
find-insert r [] v a = refl
find-insert r (x ∷ xs) v a = elim (Bool-cases (ltb x.start r.start)) [
  | inl e ↦ rw e refl
  | inr e ↦ rw e (
      passed r x v (find_reserve (insert_reservation r xs) v) (find_reserve xs v) a.0
        (find-insert r xs v a.1))
]

same : (a b : ℕ) → a ≡ b → (a == b) ≡ true
same a b h = ground arith

other : (a b : ℕ) → a ≢ b → (a == b) ≡ false
other a b h = ground arith

remove_from-insert :
    (r : Reservation) (xs : List Reservation)
    → All (λ x. x.address ≢ r.address) xs
    → remove_from r (insert_reservation r xs) ≡ xs
unfolding insert_reservation remove_from
remove_from-insert r [] a = rw (same r.address r.address refl) refl
remove_from-insert r (x ∷ xs) a = elim (Bool-cases (ltb x.start r.start)) [
  | inl e ↦ rw (e, same r.address r.address refl) refl
  | inr e ↦
      rw (e, other x.address r.address a.0)
        (ap (λ (ys : List Reservation). x ∷ ys) (remove_from-insert r xs a.1))
]

-- Removing a reservation gives back the list that it was inserted into, if no other has its address.
pub remove-insert :
    (r : Reservation) (xs : List Reservation)
    → All (λ x. x.address ≢ r.address) xs
    → remove_reservation r (insert_reservation r xs) ≡ ok xs
unfolding insert_reservation remove_reservation
remove-insert r [] a = rw (same r.address r.address refl) refl
remove-insert r (x ∷ xs) a = elim (Bool-cases (ltb x.start r.start)) [
  | inl e ↦ rw (e, same r.address r.address refl) refl
  | inr e ↦
      rw (e, other r.address x.address (λ q. a.0 (sym q)))
        (ap (λ (ys : List Reservation). ok (x ∷ ys)) (remove_from-insert r xs a.1))
]

-- In an ordered list the search for an address finds the reservation that holds it.
pub find-held :
    (xs : List Reservation) (i : ℕ) (x : Reservation) (v : ℕ)
    → IsOrdered xs
    → get_elem? xs i ≡ some x
    → holds x v ≡ true
    → find_reserve xs v ≡ some x
unfolding find_reserve
find-held [] i x v o h k = absurd (none-ne-some x h)
find-held (y ∷ ys) zero x v o h k =
    let e : y ≡ x = some-injective y x h in
    let held : holds y v ≡ true = ap (λ (z : Reservation). holds z v) e ∙ k in
    rw held (ap (λ (z : Reservation). some z) e)
find-held (y ∷ ys) (suc i) x v o h k =
    let below : IsBelow y x = All-get_elem? (IsBelow y) ys i x o.1 h in
    let missed : holds y v ≡ false = ground arith in rw missed (find-held ys i x v o.2 h k)
