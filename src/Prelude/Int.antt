-- ===== src/Prelude/Int.antt =====
-- Signed integers over the native numbers: C `int` values and return codes.
use se_l4_libs.Prelude.{ℕ, zero, suc, ◌+◌, ◌≡◌, ◌≢◌, refl, sym, ◌∙◌, ap, arith, Bool, true, false}

-- `negsuc n` is -(n + 1).
pub data ℤ : Type 0 where
  pos : ℕ → ℤ
  negsuc : ℕ → ℤ

abbrev pub pos_part : ℤ → ℕ
pos_part (pos n) = n
pos_part (negsuc n) = 0

abbrev pub neg_part : ℤ → ℕ
neg_part (pos n) = 0
neg_part (negsuc n) = suc n

-- `a + 1` and `a - 1` on the integers.
abbrev pub incr : ℤ → ℤ
incr (pos n) = pos (n + 1)
incr (negsuc zero) = pos 0
incr (negsuc (suc n)) = negsuc n

abbrev pub decr : ℤ → ℤ
decr (pos zero) = negsuc 0
decr (pos (suc n)) = pos n
decr (negsuc n) = negsuc (n + 1)

-- `a <= 0`
abbrev pub leb_zero : ℤ → Bool
leb_zero (pos zero) = true
leb_zero (pos (suc n)) = false
leb_zero (negsuc n) = true

-- `a > 0`
abbrev pub is_pos : ℤ → Bool
is_pos (pos zero) = false
is_pos (pos (suc n)) = true
is_pos (negsuc n) = false

-- `a != 0`, the test of an `if (error)`
abbrev pub nonzero : ℤ → Bool
nonzero (pos zero) = false
nonzero (pos (suc n)) = true
nonzero (negsuc n) = true

-- What a step of one does to the two parts, by the sign the code tests.
pub decr-nonpositive :
    (v : ℤ)
    → leb_zero v ≡ true
    → (pos_part v ≡ 0) × (pos_part (decr v) ≡ 0) × (neg_part (decr v) ≡ suc (neg_part v))
decr-nonpositive (pos zero) h = (refl, refl, refl)
decr-nonpositive (pos (suc n)) h = ground arith
decr-nonpositive (negsuc n) h = (refl, refl, omega arith)

pub decr-positive :
    (v : ℤ)
    → leb_zero v ≡ false
    → (pos_part v ≡ suc (pos_part (decr v))) × (neg_part v ≡ 0) × (neg_part (decr v) ≡ 0)
decr-positive (pos zero) h = ground arith
decr-positive (pos (suc n)) h = (refl, refl, refl)
decr-positive (negsuc n) h = ground arith

pub incr-nonpositive :
    (v : ℤ)
    → leb_zero (incr v) ≡ true
    → (pos_part v ≡ 0) × (pos_part (incr v) ≡ 0) × (neg_part v ≡ suc (neg_part (incr v)))
incr-nonpositive (pos n) h = ground arith
incr-nonpositive (negsuc zero) h = (refl, refl, refl)
incr-nonpositive (negsuc (suc n)) h = (refl, refl, refl)

pub incr-positive :
    (v : ℤ)
    → leb_zero (incr v) ≡ false
    → (pos_part (incr v) ≡ suc (pos_part v)) × (neg_part v ≡ 0) × (neg_part (incr v) ≡ 0)
incr-positive (pos n) h = (omega arith, refl, refl)
incr-positive (negsuc zero) h = ground arith
incr-positive (negsuc (suc n)) h = ground arith

pub nonzero_true : (e : ℤ) → nonzero e ≡ true → e ≢ pos 0
nonzero_true e h q = cc (sym h ∙ ap nonzero q)

pub nonzero_false : (e : ℤ) → nonzero e ≡ false → e ≡ pos 0
nonzero_false (pos zero) h = refl
nonzero_false (pos (suc n)) h = cc h
nonzero_false (negsuc n) h = cc h
