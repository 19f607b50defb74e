-- ===== src/Prelude/Bits.antt =====
-- A 64-bit word as the set of its bits, for words that the source only takes apart bitwise, and arrays as
-- functions.
use se_l4_libs.Prelude.{
  ℕ, zero, suc, ◌+◌, ◌≤◌, ◌<◌, ◌≡◌, ◌≢◌, refl, sym, ap, ◌∙◌, subst, ◌⊎◌, inl, inr, Bool, true,
  false, not, ◌&&◌, ◌||◌, Option, none, some, arith, ◌==◌, if◌then◌else◌, Bool-cases, ℕ_discrete,
}
use mathlib.Core.Path.{fun_ext}
use mathlib.Core.Option.{none-ne-some}

abbrev pub Bits : Type 0
Bits = ℕ → Bool

abbrev pub no_bits : Bits
no_bits i = false

-- `BIT(n)`
abbrev pub bit : ℕ → Bits
bit n i = n == i

-- `w | BIT(n)` and `w & ~BIT(n)`
abbrev pub fill : Bits → ℕ → Bits
fill w n i = if n == i then true else w i

abbrev pub unfill : Bits → ℕ → Bits
unfill w n i = if n == i then false else w i

-- The words `a & b` and `a & ~b`, and `a | b` and `a ^ b`.
abbrev pub both : Bits → Bits → Bits
both a b i = a i && b i

abbrev pub without : Bits → Bits → Bits
without a b i = a i && not (b i)

abbrev pub either : Bits → Bits → Bits
either a b i = a i || b i

abbrev pub differ : Bits → Bits → Bits
differ a b i = if a i then not (b i) else b i

-- `CTZL` from bit `i` on, of which `rounds` are left; `none` for a word without bits there.
abbrev pub lowest_from : ℕ → ℕ → Bits → Option ℕ
lowest_from zero i w = none
lowest_from (suc rounds) i w =
    let rest = lowest_from rounds (suc i) w in if w i then some i else rest

abbrev pub lowest : Bits → Option ℕ
lowest w = lowest_from 64 0 w

-- Either no bit of the window is set, or `n` is the lowest.
abbrev pub IsLowest : ℕ → ℕ → Bits → Option ℕ → Type 0
IsLowest from end w none = (k : ℕ) → from ≤ k → k < end → w k ≡ false
IsLowest from end w (some n) =
    (from ≤ n) × (n < end) × (w n ≡ true) × ((k : ℕ) → from ≤ k → k < n → w k ≡ false)

IsLowest-later :
    (i end : ℕ) (w : Bits) (o : Option ℕ)
    → w i ≡ false
    → IsLowest (suc i) end w o
    → IsLowest i end w o
IsLowest-later i end w none e h =
    λ k l u. elim (ℕ_discrete k i) [ yes q ↦ ap w q ∙ e | no ne ↦ h k (omega arith) u ]
IsLowest-later i end w (some n) e (low, high, set, below) = (
  omega arith,
  high,
  set,
  λ k l u. elim (ℕ_discrete k i) [ yes q ↦ ap w q ∙ e | no ne ↦ below k (omega arith) u ],
)

pub lowest_from-IsLowest :
    (rounds i end : ℕ) (w : Bits) → i + rounds ≡ end → IsLowest i end w (lowest_from rounds i w)
lowest_from-IsLowest zero i end w h = λ k l u. absurd (omega arith)
lowest_from-IsLowest (suc rounds) i end w h = elim (Bool-cases (w i)) [
  | inl e ↦ rw e (omega arith, omega arith, e, λ k l u. absurd (omega arith))
  | inr e ↦ rw e (
      IsLowest-later i end w (lowest_from rounds (suc i) w) e
        (lowest_from-IsLowest rounds (suc i) end w (omega arith)))
]

pub lowest-IsLowest : (w : Bits) → IsLowest 0 64 w (lowest w)
lowest-IsLowest w = lowest_from-IsLowest 64 0 64 w refl

-- `table[i] = v`
abbrev pub assign {ℓ} : {A : Type ℓ} → (ℕ → A) → ℕ → A → ℕ → A
assign f i v j = if i == j then v else f j

module _ {ℓ} {A : Type ℓ} where
  pub assign_self : (f : ℕ → A) (i : ℕ) (v : A) → assign f i v i ≡ v
  assign_self f i v = let e : (i == i) ≡ true = ground arith in rw e refl

  pub assign_ne : (f : ℕ → A) (i j : ℕ) (v : A) → i ≢ j → assign f i v j ≡ f j
  assign_ne f i j v h = let e : (i == j) ≡ false = ground arith in rw e refl

-- The loop `while (bits) { n = CTZL(bits); body; bits &= ~BIT(n); }` over a word that the body does not change, by
-- the bits that are left to look at.
abbrev pub each_bit {ℓ} : {S : Type ℓ} → ℕ → ℕ → Bits → (ℕ → S → S) → S → S
each_bit zero i w body s = s
each_bit (suc rounds) i w body s = each_bit rounds (suc i) w body (if w i then body i s else s)

-- What holds of an assigned table at `j`, by whether `j` is the index that was assigned.
module _ {ℓ ℓ'} {A : Type ℓ} (P : A → Type ℓ') (f : ℕ → A) (i : ℕ) (v : A) (j : ℕ) where
  pub assign_elim : (i ≡ j → P v) → (i ≢ j → P (f j)) → P (assign f i v j)
  assign_elim here there = elim (ℕ_discrete i j) [
    | yes q ↦ let e : (i == j) ≡ true = ground arith in rw e (here q)
    | no ne ↦ let e : (i == j) ≡ false = ground arith in rw e (there ne)
  ]

  pub assign_cases : P (assign f i v j) → ((i ≡ j) × P v) ⊎ ((i ≢ j) × P (f j))
  assign_cases h = elim (ℕ_discrete i j) [
    | yes q ↦
        (let e : assign f i v j ≡ v = subst (λ (k : ℕ). assign f i v k ≡ v) q (assign_self f i v) in
          inl (q, subst P e h))
    | no ne ↦ inr (ne, subst P (assign_ne f i j v ne) h)
  ]

pub assign_twice {ℓ} :
    {A : Type ℓ} (f : ℕ → A) (i : ℕ) (v w : A) → assign (assign f i v) i w ≡ assign f i w
assign_twice f i v w = fun_ext (λ j. elim (ℕ_discrete i j) [
  | yes q ↦ let e : (i == j) ≡ true = ground arith in rw e refl
  | no ne ↦ let e : (i == j) ≡ false = ground arith in rw e refl
])

pub clash {ℓ} : {A : Type ℓ} → true ≡ false → A
clash h = ground arith

pub none_clash {ℓ ℓ'} : {A : Type ℓ} {B : Type ℓ'} {a : A} → none ≡ some a → B
none_clash {a = a} h = absurd (none-ne-some a h)

-- A field of a table's entries.
module _ {ℓ ℓ'} {A : Type ℓ} {B : Type ℓ'} (g : A → B) (f : ℕ → A) (i : ℕ) (v : A) (j : ℕ) where
  pub assign-field : g (assign f i v j) ≡ assign (λ k. g (f k)) i (g v) j
  assign-field =
      assign_elim (λ x. g x ≡ assign (λ k. g (f k)) i (g v) j) f i v j
        (λ q. sym (ap (assign (λ k. g (f k)) i (g v)) (sym q) ∙ assign_self (λ k. g (f k)) i (g v)))
        (λ ne. sym (assign_ne (λ k. g (f k)) i j (g v) ne))

  pub assign-same_field : g v ≡ g (f i) → g (assign f i v j) ≡ g (f j)
  assign-same_field h =
      assign_elim (λ x. g x ≡ g (f j)) f i v j (λ q. h ∙ ap (λ k. g (f k)) q) (λ ne. refl)

pub assign_old {ℓ} : {A : Type ℓ} (f : ℕ → A) (i : ℕ) → assign f i (f i) ≡ f
assign_old f i = fun_ext (λ j. assign_elim (λ x. x ≡ f j) f i (f i) j (λ q. ap f q) (λ ne. refl))

-- What each round keeps holds of the loop's result; `I k` is about the bits below `k`.
pub each_bit-keeps {ℓ ℓ'} :
    {S : Type ℓ} (I : ℕ → S → Type ℓ') (w : Bits) (body : ℕ → S → S) (end : ℕ)
    → ((k : ℕ) (s : S) → k < end → w k ≡ true → I k s → I (suc k) (body k s))
    → ((k : ℕ) (s : S) → k < end → w k ≡ false → I k s → I (suc k) s)
    → (rounds i : ℕ) (s : S) → i + rounds ≡ end
    → I i s
    → I end (each_bit rounds i w body s)
each_bit-keeps I w body end on off zero i s h start = subst (λ (k : ℕ). I k s) (omega arith) start
each_bit-keeps I w body end on off (suc rounds) i s h start = elim (Bool-cases (w i)) [
  | inl e ↦ rw e (
      each_bit-keeps I w body end on off rounds (suc i) (body i s) (omega arith)
        (on i s (omega arith) e start))
  | inr e ↦ rw e (
      each_bit-keeps I w body end on off rounds (suc i) s (omega arith)
        (off i s (omega arith) e start))
]
