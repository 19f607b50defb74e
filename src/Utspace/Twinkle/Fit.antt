-- ===== src/Utspace/Twinkle/Fit.antt =====
-- Where a twinkle allocation lies in its untyped: `_round_up` and the test of the first loop.
use se_l4_libs.Prelude.{
  ℕ, ◌+◌, ◌-◌, ◌*◌, ◌/◌, ◌%◌, ◌^◌, ◌≤◌, ◌<◌, ◌≡◌, true, arith, ◌==◌, add_size, Bool-cases, inl, inr,
  dec_lt,
}
use native.Mathlib.Nat.{
  pow-le-pow_right, mul-mod_right, div-add-mod, mod-lt, mod-le, mul-le-mul_left,
}
use se_l4_libs.Prelude.Words.{pow_pos}
use se_l4_libs.Utspace.Twinkle.{Ut, round_up, fits, used}

-- seL4's untypeds have at most 47 size bits; 62 keeps every sum of the search below 2 ^ 64.
pub record IsUt (u : Ut) : Type 0 where
  pub size : u.size_bits ≤ 62
  pub within : u.offset ≤ 2 ^ u.size_bits

pow_bound : (n : ℕ) → n ≤ 62 → 2 ^ n ≤ 2 ^ 62
pow_bound n h = pow-le-pow_right (omega arith) h

round_multiple : (v m : ℕ) → 0 < m → (v - v % m + m) % m ≡ 0
round_multiple v m h =
    let e : v - v % m + m ≡ m * (v / m + 1) = grind (arith, div-add-mod v m) in
    rw e (mul-mod_right m (v / m + 1))

-- `_round_up` is the least multiple of `2 ^ bits` that is not below `v`.
pub round_up_bounds :
    (v bits : ℕ)
    → v ≤ 2 ^ 62
    → bits ≤ 62
    → (round_up v bits % 2 ^ bits ≡ 0) × (v ≤ round_up v bits) × (round_up v bits < v + 2 ^ bits)
unfolding round_up
round_up_bounds v bits hv hb = elim (Bool-cases (v % 2 ^ bits == 0)) [
  | inl aligned ↦ rw aligned (ground arith, omega arith, omega (arith, pow_pos bits))
  | inr off ↦
      let plain : add_size (v - v % 2 ^ bits) (2 ^ bits) ≡ v - v % 2 ^ bits + 2 ^ bits =
        omega (arith, pow_bound bits hb) in
      rw (off, plain)
        (
          round_multiple v (2 ^ bits) (pow_pos bits),
          omega (arith, mod-lt v (pow_pos bits)),
          ground (arith, mod-le v (2 ^ bits)),
        )
]

-- For an untyped of at most 62 bits and a block of at most 62, a block that passes the test of the search
-- is aligned, starts behind what is used of the untyped and ends inside it; afterwards the untyped is used
-- up to the block's end.
pub fits_block :
    (u : Ut) (bits : ℕ)
    → IsUt u
    → bits ≤ 62
    → fits u bits ≡ true
    → (u.offset ≤ round_up u.offset bits)
      × (round_up u.offset bits % 2 ^ bits ≡ 0)
      × (round_up u.offset bits + 2 ^ bits ≤ 2 ^ u.size_bits)
      × ((used u bits).offset ≡ round_up u.offset bits + 2 ^ bits)
unfolding fits
fits_block u bits valid hb h = ground (
  arith,
  round_up_bounds u.offset bits,
  pow_bound bits hb,
  pow_bound u.size_bits valid.size,
  valid.within,
)

pub used-IsUt : (u : Ut) (bits : ℕ) → IsUt u → bits ≤ 62 → fits u bits ≡ true → IsUt (used u bits)
used-IsUt u bits valid hb h = record {
  size = valid.size;
  within = omega (arith, fits_block u bits valid hb h);
}

-- Of two multiples of `m` the one below the other plus `m` is not above it.
multiple_le : (m a r : ℕ) → a % m ≡ 0 → r % m ≡ 0 → r < a + m → r ≤ a
multiple_le m a r ha hr h = elim (dec_lt (a / m) (r / m)) [
  | yes p ↦ absurd (
      omega (
        arith,
        div-add-mod a m,
        div-add-mod r m,
        mul-le-mul_left {m = a / m + 1} {n = r / m} m (omega arith),
      ))
  | no p ↦ omega (
    arith,
    div-add-mod a m,
    div-add-mod r m,
    mul-le-mul_left {m = r / m} {n = a / m} m (omega arith),
  )
]

-- For an untyped of at most 62 bits and a block of at most 62, the test holds if there is any aligned
-- block between what is used and the end.
pub fits_complete :
    (u : Ut) (bits a : ℕ)
    → IsUt u
    → bits ≤ 62
    → u.offset ≤ a
    → a % 2 ^ bits ≡ 0
    → a + 2 ^ bits ≤ 2 ^ u.size_bits
    → fits u bits ≡ true
unfolding fits
fits_complete u bits a valid hb low aligned high =
    let (multiple, above, below) =
      round_up_bounds u.offset bits (omega (arith, valid.within, pow_bound u.size_bits valid.size))
        hb in
    ground (
      arith,
      multiple_le (2 ^ bits) a (round_up u.offset bits) aligned multiple (omega arith),
      pow_bound u.size_bits valid.size,
    )
