-- ===== src/Irq/Counts.antt =====
-- The count of an interrupt notification's bound bits in libsel4platsupport/src/irq.c.
use se_l4_libs.Prelude.{
  ℕ, zero, suc, ◌+◌, ◌<◌, ◌≤◌, ◌≡◌, refl, sym, ap, ◌∙◌, true, false, arith, ℕ_discrete, Bool-cases,
  inl, inr,
}
use se_l4_libs.Prelude.Bits.{Bits, no_bits, fill, unfill, assign_ne}
use se_l4_libs.Irq.Notify.{popcount_from}

pub popcount_from-le : (rounds i : ℕ) (w : Bits) → popcount_from rounds i w ≤ rounds
popcount_from-le zero i w = omega arith
popcount_from-le (suc rounds) i w = let h = popcount_from-le rounds (suc i) w in ground arith

pub popcount_from-no_bits : (rounds i : ℕ) → popcount_from rounds i no_bits ≡ 0
popcount_from-no_bits zero i = refl
popcount_from-no_bits (suc rounds) i = let h = popcount_from-no_bits rounds (suc i) in omega arith

-- The bits from `i` on decide the count.
pub popcount_from-same :
    (rounds i : ℕ) (v w : Bits)
    → ((k : ℕ) → i ≤ k → v k ≡ w k)
    → popcount_from rounds i v ≡ popcount_from rounds i w
popcount_from-same zero i v w h = refl
popcount_from-same (suc rounds) i v w h =
    let e = h i (omega arith) in
    let rest = popcount_from-same rounds (suc i) v w (λ k l. h k (omega arith)) in
    rw e (rw rest refl)

-- One more bit, and one less.
pub popcount_from-fill :
    (rounds i : ℕ) (w : Bits) (b : ℕ)
    → i ≤ b
    → b < i + rounds
    → w b ≡ false
    → popcount_from rounds i (fill w b) ≡ suc (popcount_from rounds i w)
popcount_from-fill zero i w b l u e = absurd (omega arith)
popcount_from-fill (suc rounds) i w b l u e = elim (ℕ_discrete b i) [
  | yes q ↦
      (let here : fill w b i ≡ true = ground arith in
        let was : w i ≡ false = ap w (sym q) ∙ e in
        let rest =
          popcount_from-same rounds (suc i) (fill w b) w
            (λ k l'. assign_ne w b k true (λ r. absurd (omega arith))) in
        rw here (rw was (rw rest (omega arith))))
  | no ne ↦
      (let here = assign_ne w b i true ne in
        let rest = popcount_from-fill rounds (suc i) w b (omega arith) (omega arith) e in
        rw here (rw rest (ground arith)))
]

pub popcount_from-unfill :
    (rounds i : ℕ) (w : Bits) (b : ℕ)
    → i ≤ b
    → b < i + rounds
    → w b ≡ true
    → suc (popcount_from rounds i (unfill w b)) ≡ popcount_from rounds i w
popcount_from-unfill zero i w b l u e = absurd (omega arith)
popcount_from-unfill (suc rounds) i w b l u e = elim (ℕ_discrete b i) [
  | yes q ↦
      (let here : unfill w b i ≡ false = ground arith in
        let was : w i ≡ true = ap w (sym q) ∙ e in
        let rest =
          popcount_from-same rounds (suc i) (unfill w b) w
            (λ k l'. assign_ne w b k false (λ r. absurd (omega arith))) in
        rw here (rw was (rw rest (omega arith))))
  | no ne ↦
      (let here = assign_ne w b i false ne in
        let rest = popcount_from-unfill rounds (suc i) w b (omega arith) (omega arith) e in
        rw here (let r = sym rest in rw r (ground arith)))
]

-- A notification without bits is one whose count is 0.
pub popcount_from-zero :
    (rounds i : ℕ) (w : Bits) (b : ℕ)
    → popcount_from rounds i w ≡ 0
    → i ≤ b
    → b < i + rounds
    → w b ≡ false
popcount_from-zero zero i w b h l u = absurd (omega arith)
popcount_from-zero (suc rounds) i w b h l u = elim (Bool-cases (w i)) [
  | inl e ↦ (let h' = rw e at h in absurd (omega arith))
  | inr e ↦
      (let h' = rw e at h in
        elim (ℕ_discrete b i) [
          | yes q ↦ ap w q ∙ e
          | no ne ↦ popcount_from-zero rounds (suc i) w b (omega arith) (omega arith) (omega arith)
        ])
]
