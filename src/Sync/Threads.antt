-- ===== src/Sync/Threads.antt =====
-- The threads of a system as the list of where each stands in its program, and what a move of one changes in
-- the number of those that stand at a place.
use se_l4_libs.Prelude.{
  ℕ, zero, suc, ◌+◌, ◌≤◌, ◌≡◌, refl, List, [], ◌∷◌, some, get_elem?, set, replicate, arith, ap, All,
}
use mathlib.Core.Option.{some-injective, none-ne-some}

-- The sum of a weight over the list; with weights 0 and 1 the number of threads at the places of weight 1.
abbrev pub tally {ℓ} : {A : Type ℓ} → (A → ℕ) → List A → ℕ
tally f [] = 0
tally f (x ∷ xs) = f x + tally f xs

module _ {ℓ} {A : Type ℓ} (f : A → ℕ) where
  pub tally-set :
      (xs : List A) (i : ℕ) (x y : A)
      → get_elem? xs i ≡ some x
      → tally f (set xs i y) + f x ≡ tally f xs + f y
  tally-set [] i x y h = absurd (none-ne-some x h)
  tally-set (z ∷ xs) zero x y h = omega (arith, ap f (some-injective z x h))
  tally-set (z ∷ xs) (suc i) x y h = omega (arith, tally-set xs i x y h)

  pub tally-replicate : (n : ℕ) (x : A) → f x ≡ 0 → tally f (replicate n x) ≡ 0
  tally-replicate zero x h = refl
  tally-replicate (suc n) x h = omega (arith, tally-replicate n x h)

  pub tally-one : (xs : List A) (i : ℕ) (x : A) → get_elem? xs i ≡ some x → f x ≤ tally f xs
  tally-one [] i x h = absurd (none-ne-some x h)
  tally-one (z ∷ xs) zero x h = omega (arith, ap f (some-injective z x h))
  tally-one (z ∷ xs) (suc i) x h = omega (arith, tally-one xs i x h)

  -- A weight that the whole list carries at most once stands at one index.
  pub tally-same :
      (xs : List A) (i j : ℕ) (x y : A)
      → get_elem? xs i ≡ some x
      → get_elem? xs j ≡ some y
      → f x ≡ 1
      → f y ≡ 1
      → tally f xs ≤ 1
      → i ≡ j
  tally-same [] i j x y h k p q few = absurd (none-ne-some x h)
  tally-same (z ∷ xs) zero zero x y h k p q few = refl
  tally-same (z ∷ xs) zero (suc j) x y h k p q few =
      absurd (omega (arith, ap f (some-injective z x h), tally-one xs j y k))
  tally-same (z ∷ xs) (suc i) zero x y h k p q few =
      absurd (omega (arith, ap f (some-injective z y k), tally-one xs i x h))
  tally-same (z ∷ xs) (suc i) (suc j) x y h k p q few =
      ap suc (tally-same xs i j x y h k p q (omega arith))

module _ {ℓ κ} {A : Type ℓ} (f : A → ℕ) (P : A → Type κ) where
  pub tally-All : (xs : List A) → ((x : A) → P x → f x ≡ 0) → All P xs → tally f xs ≡ 0
  tally-All [] g h = refl
  tally-All (x ∷ xs) g h = omega (arith, g x h.0, tally-All xs g h.1)
