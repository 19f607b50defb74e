-- ===== src/Utspace/Twinkle/Effect.antt =====
-- What a call of `_utspace_twinkle_alloc` changes, on every branch, and `_utspace_twinkle_add_uts`.
use se_l4_libs.Prelude.{
  ℕ, ◌+◌, ◌-◌, ◌*◌, ◌%◌, ◌^◌, ◌≤◌, ◌≡◌, refl, sym, ap, subst, ◌∙◌, ◌≢◌, ◌⊎◌, true, false, not, ◌||◌,
  Option, none, some, List, ◌++◌, arith, ◌==◌, Bool-cases, inl, inr, get_elem?, set, length, All,
  All-set, All-get_elem?,
}
use se_l4_libs.Prelude.Int.{pos, nonzero}
use se_l4_libs.Cspace.Path.{CspacePath}
use se_l4_libs.Cspace.Mspace.{Mspace}
use se_l4_libs.Kernel.{Kernel}
use se_l4_libs.Objects.{ObjectType, ObjectBits, vka_get_object_size, get_sel4_object_size}
use se_l4_libs.Utspace.Twinkle.{
  Ut, Twinkle, Result, round_up, new_entries, add_uts, fits, choose, no_paddr, ut_kernel, ut_bytes,
  failed, alloc_from, alloc,
}
use se_l4_libs.Utspace.Twinkle.Fit.{IsUt, fits_block}
use se_l4_libs.Utspace.Twinkle.Alloc.{ChooseSpec, choose-ChooseSpec}

-- Untyped `i` gives the aligned block of `2 ^ bits` bytes at `start`, behind what was used of it.
pub record Took {K : Type 0} (t : Twinkle) (bits : ℕ) (r : Result K) : Type 0 where
  pub index : ℕ
  pub from : Ut
  pub start : ℕ
  pub stands : get_elem? t.uts index ≡ some from
  pub free : from.offset ≤ start
  pub aligned : start % 2 ^ bits ≡ 0
  pub within : start + 2 ^ bits ≤ 2 ^ from.size_bits
  pub written : r.error ≡ some (pos 0)
  pub after :
      r.twinkle ≡ record t { uts = set t.uts index (record from { offset = start + 2 ^ bits }) }

pub record Refused {K : Type 0} (t : Twinkle) (r : Result K) : Type 0 where
  pub error : r.error ≢ some (pos 0)
  pub same : r.twinkle ≡ t

module _ (b : ObjectBits) (k : Kernel) (st : k.State) (t : Twinkle) (bits : ℕ) (type : ObjectType)
    (slot : CspacePath) (valid : All IsUt t.uts) (small : bits ≤ 62) where
  alloc_from-Took :
      (o : Option (ℕ × Ut))
      → ChooseSpec t.uts bits o
      → Refused t (alloc_from b k st t bits type slot o)
        ⊎ Took t bits (alloc_from b k st t bits type slot o)
  unfolding alloc_from
  alloc_from-Took none h = inl (record { error = ground arith; same = refl })
  alloc_from-Took (some (i, u)) h =
      let answer = k.retype st u.path.cap_ptr type (get_sel4_object_size b type bits) slot in
      elim (Bool-cases (nonzero answer.0)) [
        | inl bad ↦ inl (rw bad (record { error = ground arith; same = refl }))
        | inr good ↦ inr (
            let block = fits_block u bits (All-get_elem? IsUt t.uts i u valid h.0.0) small h.0.1 in
            rw good (record {
              index = i;
              from = u;
              start = round_up u.offset bits;
              stands = h.0.0;
              free = block.0;
              aligned = block.1;
              within = block.2;
              written = refl;
              after = ap (λ n. record t { uts = set t.uts i (record u { offset = n }) }) block.3;
            }))
      ]

  -- Where every untyped has at most 62 bits and is used up to its end at most, a request of at most 62
  -- bits either leaves the untypeds alone and does not report success, or takes an aligned block behind
  -- what was used of one untyped and inside it, and marks just that one as used up to the block's end.
  pub alloc-Took :
      (paddr : ℕ)
      → Refused t (alloc b k st t bits type slot paddr)
        ⊎ Took t bits (alloc b k st t bits type slot paddr)
  unfolding alloc
  alloc-Took paddr = elim (Bool-cases (not (paddr == no_paddr))) [
    | inl fixed ↦ inl (rw fixed (record { error = ground arith; same = refl }))
    | inr any ↦
        elim (Bool-cases (
          not (bits == vka_get_object_size b type (get_sel4_object_size b type bits))
          || (bits == 0))) [
            | inl wrong ↦ inl (rw (any, wrong) (record { error = ground arith; same = refl }))
            | inr fine ↦
                rw (any, fine) (alloc_from-Took (choose t.uts bits) (choose-ChooseSpec t.uts bits))
          ]
  ]

  -- Where every untyped has at most 62 bits and is used up to its end at most, a request of at most 62 bits
  -- leaves it so.
  pub alloc-IsUt : (paddr : ℕ) → All IsUt (alloc b k st t bits type slot paddr).twinkle.uts
  alloc-IsUt paddr = elim (alloc-Took paddr) [
    | inl refused ↦ subst (λ (w : Twinkle). All IsUt w.uts) (sym refused.same) valid
    | inr took ↦
        subst (λ (w : Twinkle). All IsUt w.uts) (sym took.after)
          (All-set IsUt t.uts took.index (record took.from { offset = took.start + 2 ^ bits }) valid
            (record {
              size = (All-get_elem? IsUt t.uts took.index took.from valid took.stands).size;
              within = took.within;
            }))
  ]

served :
    (b : ObjectBits) (k : Kernel) (st : k.State) (t : Twinkle) (bits : ℕ) (type : ObjectType)
    (slot : CspacePath) (i : ℕ) (u : Ut)
    → get_elem? t.uts i ≡ some u
    → fits u bits ≡ true
    → ((s : k.State) (c : ℕ) (ty : ObjectType) (n : ℕ) (p : CspacePath)
        → (k.retype s c ty n p).0 ≡ pos 0)
    → (o : Option (ℕ × Ut)) → ChooseSpec t.uts bits o
    → (alloc_from b k st t bits type slot o).error ≡ some (pos 0)
unfolding alloc_from
served b k st t bits type slot i u e room granted none h =
    cc (sym room ∙ All-get_elem? (λ v. fits v bits ≡ false) t.uts i u h e)
served b k st t bits type slot i u e room granted (some (j, v)) h =
    rw (granted st v.path.cap_ptr type (get_sel4_object_size b type bits) slot) refl

-- A request of a size that is not 0 and fits its type, without a physical address, is served whenever some
-- untyped has room and the kernel does not refuse the retype.
pub alloc-served :
    (b : ObjectBits) (k : Kernel) (st : k.State) (t : Twinkle) (bits : ℕ) (type : ObjectType)
    (slot : CspacePath) (i : ℕ) (u : Ut)
    → get_elem? t.uts i ≡ some u
    → fits u bits ≡ true
    → ((s : k.State) (c : ℕ) (ty : ObjectType) (n : ℕ) (p : CspacePath)
        → (k.retype s c ty n p).0 ≡ pos 0)
    → bits ≢ 0
    → bits ≡ vka_get_object_size b type (get_sel4_object_size b type bits)
    → (alloc b k st t bits type slot no_paddr).error ≡ some (pos 0)
unfolding alloc
alloc-served b k st t bits type slot i u e room granted pos_size size =
    let fine : (not (bits == vka_get_object_size b type (get_sel4_object_size b type bits))
          || (bits == 0))
        ≡ false =
      ground arith in
    rw fine (
      served b k st t bits type slot i u e room granted (choose t.uts bits)
        (choose-ChooseSpec t.uts bits))

-- A request for a physical address returns the word of all ones and changes nothing, but leaves `*error`
-- unwritten, so the caller reads what it held before.
pub alloc-paddr :
    (b : ObjectBits) (k : Kernel) (st : k.State) (t : Twinkle) (bits : ℕ) (type : ObjectType)
    (slot : CspacePath) (paddr : ℕ)
    → paddr ≢ no_paddr
    → alloc b k st t bits type slot paddr
      ≡ record { cookie = 2 ^ 64 - 1; error = none; twinkle = t; kernel = st }
unfolding alloc
alloc-paddr b k st t bits type slot paddr h =
    let fixed : not (paddr == no_paddr) ≡ true = ground arith in rw fixed

-- New untypeds come unused behind those that are there, whose use is kept; a type other than
-- ALLOCMAN_UT_KERNEL and a failure of the bookkeeping memory leave them alone.
pub add_uts-append :
    (m : Mspace) (st : m.State) (t : Twinkle) (uts : List (CspacePath × ℕ)) (ut_type : ℕ)
    → let r = add_uts m st t uts ut_type in
      ((r.0 ≢ pos 0) × (r.1 ≡ t))
      ⊎ ((r.0 ≡ pos 0) × (ut_type ≡ ut_kernel) × (r.1.uts ≡ t.uts ++ new_entries uts))
unfolding add_uts
add_uts-append m st t uts ut_type = elim (Bool-cases (not (ut_type == ut_kernel))) [
  | inl other ↦ inl (rw other (ground arith, refl))
  | inr kernel ↦
      elim (Bool-cases (nonzero (m.alloc st (ut_bytes * (length uts + length t.uts))).0)) [
        | inl failed ↦ inl (rw (kernel, failed) (ground arith, refl))
        | inr got ↦ inr (rw (kernel, got) (refl, ground arith, refl))
      ]
]
