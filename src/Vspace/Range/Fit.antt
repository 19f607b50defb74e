-- ===== src/Vspace/Range/Fit.antt =====
-- What `find_range` finds.
use se_l4_libs.Prelude.{
  ℕ, zero, suc, ◌+◌, ◌*◌, ◌%◌, ◌^◌, ◌<◌, ◌≤◌, ◌≡◌, inl, inr, refl, sym, ap, ◌∙◌, subst, Bool, true,
  false, none, some, ◌==◌, leb, ltb, add_size, arith, Bool-cases, ltb→lt,
}
use native.Mathlib.Nat.{pow-le-pow_right, suc-mul}
use se_l4_libs.Prelude.Words.{pow_pos}
use se_l4_libs.Prelude.Outcome.{ok, err, abort}
use se_l4_libs.Vspace.Range.{Found, advance, rounds, find_range}

module _ (limit : ℕ) (align_up : ℕ → ℕ → ℕ) (available : ℕ → ℕ → Bool) where
  -- Pages `0` to `n - 1` behind `start` are available.
  abbrev pub IsClear : ℕ → ℕ → ℕ → Type 0
  IsClear bits start zero = Unit
  IsClear bits start (suc n) = IsClear bits start n × (available (start + n * 2 ^ bits) bits ≡ true)

  -- A range found has the pages asked for, all available, and ends below the limit; NULL is the only failure.
  abbrev pub RangeSpec : ℕ → ℕ → Found limit align_up available → Type 0
  RangeSpec num_pages bits (ok (some (start, end))) =
      (end ≡ start + num_pages * 2 ^ bits) × IsClear bits start num_pages × (end < limit)
  RangeSpec num_pages bits (ok none) = Unit
  RangeSpec num_pages bits (err e) = ⊥
  RangeSpec num_pages bits abort = ⊥

  module _ (num_pages bits : ℕ) (some_pages : 0 < num_pages) (low : limit ≤ 2 ^ 63)
      (narrow : bits ≤ 62) where
    -- Where the loop stands.
    record IsOn (fuel contiguous start current : ℕ) : Type 0 where
      here : current ≡ start + contiguous * 2 ^ bits
      clear : IsClear bits start contiguous
      few : contiguous ≤ num_pages
      enough : limit ≤ current + fuel
      small : current ≤ 2 ^ 63
      alive : 0 < fuel
      below : (0 < contiguous) → current < limit

    page : (0 < 2 ^ bits) × (2 ^ bits ≤ 2 ^ 62)
    page = (pow_pos bits, pow-le-pow_right (omega arith) narrow)

    advance-RangeSpec :
        (fuel contiguous start current : ℕ) (go : ℕ → ℕ → ℕ → Found limit align_up available)
        → IsOn (suc fuel) contiguous start current
        → contiguous < num_pages
        → ((k s c : ℕ) → IsOn fuel k s c → RangeSpec num_pages bits (go k s c))
        → (b : Bool) → available current bits ≡ b
        → RangeSpec num_pages bits
            (advance limit align_up available go b contiguous start (add_size current (2 ^ bits)))
    advance-RangeSpec fuel contiguous start current go on more next true e =
        let p = page in
        let sum : add_size current (2 ^ bits) ≡ current + 2 ^ bits = omega (arith, on.small) in
        elim (Bool-cases (leb limit (add_size current (2 ^ bits)))) [
          | inl full ↦ rw full tt
          | inr room ↦
              (let under : add_size current (2 ^ bits) < limit = ground (arith, sum) in
                rw room (
                  next (suc contiguous) start (add_size current (2 ^ bits)) (record {
                    here = omega (arith, sum, on.here, suc-mul contiguous (2 ^ bits));
                    clear = (on.clear, ap (λ (k : ℕ). available k bits) (sym on.here) ∙ e);
                    few = omega arith;
                    enough = omega (arith, sum, on.enough);
                    small = omega (arith, under, low);
                    alive = omega (arith, sum, on.enough, under);
                    below = λ q. under;
                  })))
        ]
    advance-RangeSpec fuel contiguous start current go on more next false e =
        let p = page in
        let sum : add_size current (2 ^ bits) ≡ current + 2 ^ bits = omega (arith, on.small) in
        elim (Bool-cases (leb limit (add_size current (2 ^ bits)))) [
          | inl full ↦ rw full tt
          | inr room ↦
              (let under : add_size current (2 ^ bits) < limit = ground (arith, sum) in
                rw room (
                  next 0 (add_size current (2 ^ bits)) (add_size current (2 ^ bits)) (record {
                    here = omega arith;
                    clear = tt;
                    few = omega arith;
                    enough = omega (arith, sum, on.enough);
                    small = omega (arith, under, low);
                    alive = omega (arith, sum, on.enough, under);
                    below = λ q. under;
                  })))
        ]

    rounds-RangeSpec :
        (fuel contiguous start current : ℕ)
        → IsOn fuel contiguous start current
        → RangeSpec num_pages bits
            (rounds limit align_up available fuel num_pages bits contiguous start current)
    rounds-RangeSpec zero contiguous start current on = absurd (omega (arith, on.alive))
    rounds-RangeSpec (suc fuel) contiguous start current on =
        elim (Bool-cases (ltb contiguous num_pages)) [
          | inl e ↦ rw e (
              advance-RangeSpec fuel contiguous start current
                (rounds limit align_up available fuel num_pages bits) on
                (ltb→lt contiguous num_pages e) (rounds-RangeSpec fuel) (available current bits)
                refl)
          | inr e ↦
              (let done : contiguous ≡ num_pages = ground (arith, on.few) in
                rw e (
                  on.here ∙ ap (λ (k : ℕ). start + k * 2 ^ bits) done,
                  subst (IsClear bits start) done on.clear,
                  on.below (omega arith),
                ))
        ]

    -- With a limit up to 2^63 and pages up to 2^62 bytes, and if ALIGN_UP aligns and stays up to 2^63, a search
    -- for one page or more ends with NULL or with a range of available pages that ends below the limit.
    pub find_range-RangeSpec :
        (last_allocated : ℕ)
        → ((x k : ℕ) → align_up x (2 ^ k) % 2 ^ k ≡ 0)
        → align_up last_allocated (2 ^ bits) ≤ 2 ^ 63
        → RangeSpec num_pages bits
            (find_range limit align_up available last_allocated num_pages bits)
    unfolding find_range
    find_range-RangeSpec last_allocated aligned small =
        let start : ℕ = align_up last_allocated (2 ^ bits) in
        let fine : (start % 2 ^ bits == 0) ≡ true = ground (arith, aligned last_allocated bits) in
        rw fine (
          rounds-RangeSpec (limit + 1) 0 start start (record {
            here = omega arith;
            clear = tt;
            few = omega arith;
            enough = omega arith;
            small = small;
            alive = omega arith;
            below = λ q. absurd (omega arith);
          }))
