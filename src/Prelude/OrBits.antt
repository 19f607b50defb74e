-- ===== src/Prelude/OrBits.antt =====
-- `(x << n) | y` for a `y` of `n` bits is `x * 2 ^ n + y`.
use se_l4_libs.Prelude.{
  ℕ, zero, suc, ◌+◌, ◌*◌, ◌/◌, ◌%◌, ◌^◌, ◌≤◌, ◌<◌, ◌≡◌, refl, sym, ap, ap₂, ◌∙◌, arith,
}
use Prim.Native.Nat.{bit_or, bit_or-bitwise, digits, max}
use native.Mathlib.Nat.{pow-suc, mul_assoc}

abbrev or_digits : ℕ → ℕ → ℕ → ℕ
or_digits = digits (λ y. y) max

-- More rounds than the first number has digits change nothing.
or_digits_enough : (n k x y : ℕ) → x ≤ n → x ≤ k → or_digits n x y ≡ or_digits k x y
or_digits_enough zero zero x y p q = refl
or_digits_enough zero (suc k) zero y p q = refl
or_digits_enough zero (suc k) (suc x) y p q = absurd (omega arith)
or_digits_enough (suc n) zero zero y p q = refl
or_digits_enough (suc n) zero (suc x) y p q = absurd (omega arith)
or_digits_enough (suc n) (suc k) zero y p q = refl
or_digits_enough (suc n) (suc k) (suc x) y p q =
    omega (arith, or_digits_enough n k (suc x / 2) (y / 2) (omega arith) (omega arith))

zero-bit_or : (y : ℕ) → bit_or 0 y ≡ y
zero-bit_or y = bit_or-bitwise 0 y

-- The lowest digit and the rest.
bit_or-halves : (x y : ℕ) → bit_or x y ≡ bit_or (x / 2) (y / 2) * 2 + max (x % 2) (y % 2)
bit_or-halves zero y = omega (arith, zero-bit_or y, zero-bit_or (y / 2))
bit_or-halves (suc x) y = omega (
  arith,
  bit_or-bitwise (suc x) y,
  bit_or-bitwise (suc x / 2) (y / 2),
  or_digits_enough x (suc x / 2) (suc x / 2) (y / 2) (omega arith) (omega arith),
)

or_zero_upto : (n x : ℕ) → x ≤ n → bit_or x 0 ≡ x
or_zero_upto n zero h = zero-bit_or 0
or_zero_upto zero (suc x) h = absurd (omega arith)
or_zero_upto (suc n) (suc x) h =
    omega (arith, bit_or-halves (suc x) 0, or_zero_upto n (suc x / 2) (omega arith))

pub bit_or-zero : (x : ℕ) → bit_or x 0 ≡ x
bit_or-zero x = or_zero_upto x x (omega arith)

pub bit_or-shift : (n x y : ℕ) → y < 2 ^ n → bit_or (x * 2 ^ n) y ≡ x * 2 ^ n + y
bit_or-shift zero x y h =
    let none_low : y ≡ 0 = omega arith in
    ap (bit_or (x * 1)) none_low ∙ omega (arith, bit_or-zero (x * 1))
bit_or-shift (suc n) x y h =
    let double : x * 2 ^ suc n ≡ x * 2 ^ n * 2 =
      ap (λ (k : ℕ). x * k) (pow-suc 2 n) ∙ sym (mul_assoc x (2 ^ n) 2) in
    let half : x * 2 ^ suc n / 2 ≡ x * 2 ^ n = omega (arith, double) in
    let even : x * 2 ^ suc n % 2 ≡ 0 = omega (arith, double) in
    bit_or-halves (x * 2 ^ suc n) y
    ∙ ap₂ (λ (k r : ℕ). bit_or k (y / 2) * 2 + r) half (ap (λ (k : ℕ). max k (y % 2)) even)
    ∙ omega (arith, double, bit_or-shift n x (y / 2) (omega (arith, pow-suc 2 n)))
