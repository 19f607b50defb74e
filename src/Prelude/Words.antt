-- ===== src/Prelude/Words.antt =====
-- The bits of an unsigned word: `x & BIT(i)`, `x & ~BIT(i)`, `x | BIT(i)` and the index of the
-- highest set bit, `BITS_PER_WORD - 1 - CLZL(x)`, by recursion on the bit's index.
use se_l4_libs.Prelude.{
  ℕ, zero, suc, ◌+◌, ◌-◌, ◌*◌, ◌/◌, ◌%◌, ◌^◌, ◌≤◌, ◌<◌, ◌≡◌, refl, ap, ℕ_discrete, ◌≢◌, Bool, true,
  false, arith, ◌==◌, if◌then◌else◌, Bool-cases, inl, inr,
}
use native.Mathlib.Nat.{pow-suc}

-- `(x & BIT(i)) != 0`
abbrev pub test_bit : ℕ → ℕ → Bool
test_bit x zero = x % 2 == 1
test_bit x (suc i) = test_bit (x / 2) i

-- `x & ~BIT(i)`
abbrev pub clear_bit : ℕ → ℕ → ℕ
clear_bit x zero = x - x % 2
clear_bit x (suc i) = clear_bit (x / 2) i * 2 + x % 2

-- `x | BIT(i)`
abbrev pub set_bit : ℕ → ℕ → ℕ
set_bit x zero = x - x % 2 + 1
set_bit x (suc i) = set_bit (x / 2) i * 2 + x % 2

-- The highest set bit below `n`; 0 if there is none.
abbrev pub top_bit : ℕ → ℕ → ℕ
top_bit zero x = 0
top_bit (suc n) x = if test_bit x n then n else top_bit n x

pub pow_pos : (n : ℕ) → 0 < 2 ^ n
pow_pos zero = omega arith
pow_pos (suc n) = omega (arith, pow-suc 2 n, pow_pos n)

half-bit : (a b : ℕ) → (a * 2 + b % 2) / 2 ≡ a
half-bit a b = omega arith

low-bit : (a b : ℕ) → (a * 2 + b % 2) % 2 ≡ b % 2
low-bit a b = omega arith

pub test_bit-clear_self : (x i : ℕ) → test_bit (clear_bit x i) i ≡ false
test_bit-clear_self x zero = ground arith
test_bit-clear_self x (suc i) =
    rw (half-bit (clear_bit (x / 2) i) x) (test_bit-clear_self (x / 2) i)

pub test_bit-clear_ne : (x i j : ℕ) → i ≢ j → test_bit (clear_bit x i) j ≡ test_bit x j
test_bit-clear_ne x zero zero h = absurd (h refl)
test_bit-clear_ne x zero (suc j) h = ap (λ k. test_bit k j) (omega arith)
test_bit-clear_ne x (suc i) zero h = ap (λ k. k == 1) (low-bit (clear_bit (x / 2) i) x)
test_bit-clear_ne x (suc i) (suc j) h =
    rw (half-bit (clear_bit (x / 2) i) x) (test_bit-clear_ne (x / 2) i j (omega arith))

pub test_bit-set_self : (x i : ℕ) → test_bit (set_bit x i) i ≡ true
test_bit-set_self x zero = ground arith
test_bit-set_self x (suc i) = rw (half-bit (set_bit (x / 2) i) x) (test_bit-set_self (x / 2) i)

pub test_bit-set_ne : (x i j : ℕ) → i ≢ j → test_bit (set_bit x i) j ≡ test_bit x j
test_bit-set_ne x zero zero h = absurd (h refl)
test_bit-set_ne x zero (suc j) h = ap (λ k. test_bit k j) (omega arith)
test_bit-set_ne x (suc i) zero h = ap (λ k. k == 1) (low-bit (set_bit (x / 2) i) x)
test_bit-set_ne x (suc i) (suc j) h =
    rw (half-bit (set_bit (x / 2) i) x) (test_bit-set_ne (x / 2) i j (omega arith))

-- A word with no bit below its width is 0.
pub eq-zero_of_bits : (n x : ℕ) → x < 2 ^ n → ((i : ℕ) → i < n → test_bit x i ≡ false) → x ≡ 0
eq-zero_of_bits zero x h none_set = omega arith
eq-zero_of_bits (suc n) x h none_set =
    let rest : x / 2 ≡ 0 =
      eq-zero_of_bits n (x / 2) (omega (arith, pow-suc 2 n))
        (λ i p. none_set (suc i) (omega arith)) in
    ground (arith, none_set 0 (omega arith))

pub zero-test_bit : (i : ℕ) → test_bit 0 i ≡ false
zero-test_bit zero = refl
zero-test_bit (suc i) = zero-test_bit i

-- Every bit above the highest set bit is clear.
pub top_bit-lt : (n x : ℕ) → 0 < n → top_bit n x < n
top_bit-lt zero x h = absurd (omega arith)
top_bit-lt (suc zero) x h = ground arith
top_bit-lt (suc (suc n)) x h = ground (arith, top_bit-lt (suc n) x (omega arith))

all_clear : (n x : ℕ) → test_bit x (top_bit n x) ≡ false → (i : ℕ) → i < n → test_bit x i ≡ false
all_clear zero x h i lt = absurd (omega arith)
all_clear (suc n) x h i lt = elim (Bool-cases (test_bit x n)) [
  | inl e ↦ cc (rw (e, e) at h)
  | inr e ↦ elim (ℕ_discrete i n) [
    | yes same ↦ rw same e
    | no other ↦ all_clear n x (rw e at h) i (omega arith)
  ]
]

-- All bits of `2 ^ n - 1` are set.
pub test_bit-ones : (n i : ℕ) → i < n → test_bit (2 ^ n - 1) i ≡ true
test_bit-ones zero i h = absurd (omega arith)
test_bit-ones (suc n) zero h =
    let odd : (2 ^ suc n - 1) % 2 ≡ 1 = omega (arith, pow-suc 2 n, pow_pos n) in rw odd
test_bit-ones (suc n) (suc i) h =
    let half : (2 ^ suc n - 1) / 2 ≡ 2 ^ n - 1 = omega (arith, pow-suc 2 n, pow_pos n) in
    rw half (test_bit-ones n i (omega arith))

-- A word that is not 0 has its highest bit set.
pub test_bit-top : (n x : ℕ) → x < 2 ^ n → x ≢ 0 → test_bit x (top_bit n x) ≡ true
test_bit-top n x lt ne = elim (Bool-cases (test_bit x (top_bit n x))) [
  | inl e ↦ e
  | inr e ↦ absurd (ne (eq-zero_of_bits n x lt (all_clear n x e)))
]

pub clear_bit-le : (x i : ℕ) → clear_bit x i ≤ x
clear_bit-le x zero = omega arith
clear_bit-le x (suc i) = omega (arith, clear_bit-le (x / 2) i)

pub set_bit-lt : (n x i : ℕ) → i < n → x < 2 ^ n → set_bit x i < 2 ^ n
set_bit-lt zero x i lt h = absurd (omega arith)
set_bit-lt (suc n) x zero lt h = omega (arith, pow-suc 2 n)
set_bit-lt (suc n) x (suc i) lt h =
    omega (arith, pow-suc 2 n, set_bit-lt n (x / 2) i (omega arith) (omega (arith, pow-suc 2 n)))
