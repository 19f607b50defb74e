-- ===== src/Vspace/Bottom/Walk.antt =====
-- What the loops over the entries of a bottom level change.
use se_l4_libs.Prelude.{
  ℕ, zero, suc, ◌+◌, ◌*◌, ◌%◌, ◌^◌, ◌≡◌, ◌≢◌, ◌≤◌, ◌<◌, ◌⊎◌, inl, inr, refl, sym, ap, ap₂, ◌∙◌,
  subst, Bool, false, Option, none, some, get_or, length, length-set, get_or-set_self,
  get_or-set_ne, ltb, Bool-cases, add_size, arith, ℕ_discrete,
}
use se_l4_libs.Prelude.Int.{ℤ, pos, negsuc}
use se_l4_libs.Prelude.Outcome.{Outcome, ok, err, abort}
use se_l4_libs.Vspace.Bottom.{
  Bottom, index_of, write, visit, walk, reserve_entry, clear_entry, update_entry,
  reserve_entries_bottom, clear_entries_bottom, update_entries_bottom,
}

-- The entry of page `k`.
abbrev pub entry : Bottom → ℕ → ℕ × ℕ
entry b k = (get_or b.cap k 0, get_or b.cookie k 0)

abbrev pub IsLevel : Bottom → Type 0
IsLevel b = (length b.cap ≡ 512) × (length b.cookie ≡ 512)

-- On success every page from `i` up to `j` has become what `change` makes of its capability, on an error `change`
-- refused a page of the range; pages outside are untouched either way.
pub record Changed (change : ℕ → Option (ℕ × ℕ)) (i j : ℕ) (b : Bottom) (error : ℤ) (c : Bottom)
    : Type 0 where
  pub outside : (k : ℕ) → (k < i) ⊎ (j ≤ k) → entry c k ≡ entry b k
  pub inside :
      ((error ≡ pos 0) × ((k : ℕ) → i ≤ k → k < j → change (get_or b.cap k 0) ≡ some (entry c k)))
      ⊎ ((error ≡ negsuc 0) × ((k : ℕ) × (i ≤ k) × (k < j) × (change (get_or b.cap k 0) ≡ none)))

abbrev pub WalkSpec : (ℕ → Option (ℕ × ℕ)) → ℕ → ℕ → Bottom → Outcome (ℤ × Bottom) → Type 0
WalkSpec change i j b (ok (error, c)) = Changed change i j b error c
WalkSpec change i j b (err e) = ⊥
WalkSpec change i j b abort = ⊥

write_self : (b : Bottom) (i : ℕ) (e : ℕ × ℕ) → IsLevel b → i < 512 → entry (write b i e) i ≡ e
write_self b i e h l =
    ap₂ (λ (x y : ℕ). (x, y)) (get_or-set_self b.cap i e.0 0 (omega arith))
      (get_or-set_self b.cookie i e.1 0 (omega arith))

write_other : (b : Bottom) (i k : ℕ) (e : ℕ × ℕ) → i ≢ k → entry (write b i e) k ≡ entry b k
write_other b i k e n =
    ap₂ (λ (x y : ℕ). (x, y)) (get_or-set_ne b.cap i k e.0 0 n) (get_or-set_ne b.cookie i k e.1 0 n)

module _ (change : ℕ → Option (ℕ × ℕ)) (base : ℕ) (aligned : base % 2 ^ 21 ≡ 0)
    (low : base ≤ 2 ^ 63) where
  -- One page changed, and then the rest.
  after-page :
      (i j : ℕ) (b : Bottom) (e : ℕ × ℕ) (o : Outcome (ℤ × Bottom))
      → IsLevel b
      → i < j
      → j ≤ 512
      → change (get_or b.cap i 0) ≡ some e
      → WalkSpec change (suc i) j (write b i e) o
      → WalkSpec change i j b o
  after-page i j b e (err x) level h l first spec = spec
  after-page i j b e abort level h l first spec = spec
  after-page i j b e (ok (x, c)) level h l first spec =
      let old : (k : ℕ) → k ≢ i → get_or (write b i e).cap k 0 ≡ get_or b.cap k 0 =
        λ k n. get_or-set_ne b.cap i k e.0 0 (λ q. n (sym q)) in
      let here : entry c i ≡ e =
        spec.outside i (inl (omega arith)) ∙ write_self b i e level (omega arith) in
      record {
        outside =
            λ k away. spec.outside k (further k away) ∙ write_other b i k e (λ q. apart k away q);
        inside = elim spec.inside [
          | inl fine ↦ inl (
            fine.0,
            λ k low high. elim (ℕ_discrete k i) [
              | yes q ↦
                  subst (λ (m : ℕ). change (get_or b.cap m 0) ≡ some (entry c m)) (sym q)
                    (first ∙ ap (λ (p : ℕ × ℕ). some p) (sym here))
              | no n ↦ ap change (sym (old k n)) ∙ fine.1 k (omega arith) high
            ],
          )
          | inr (bad, (k, low, high, refused)) ↦
              inr
                (bad, (k, omega arith, high, ap change (sym (old k (λ q. omega arith))) ∙ refused))
        ];
      }
    where
      further : (k : ℕ) → (k < i) ⊎ (j ≤ k) → (k < suc i) ⊎ (j ≤ k)
      further k (inl q) = inl (omega arith)
      further k (inr q) = inr q

      apart : (k : ℕ) → (k < i) ⊎ (j ≤ k) → i ≢ k
      apart k (inl q) = λ r. omega arith
      apart k (inr q) = λ r. omega arith

  stopped : (i j : ℕ) (b : Bottom) → j ≤ i → Changed change i j b (pos 0) b
  stopped i j b h = record {
    outside = λ k away. refl;
    inside = inl (refl, λ k low high. absurd (omega arith));
  }

  page_walked :
      (i j : ℕ) (b : Bottom)
      → IsLevel b
      → i < j
      → j ≤ 512
      → (o : Option (ℕ × ℕ)) → change (get_or b.cap i 0) ≡ o
      → (go : Bottom → Outcome (ℤ × Bottom))
      → ((c : Bottom) → IsLevel c → WalkSpec change (suc i) j c (go c))
      → WalkSpec change i j b (visit go b i o)
  page_walked i j b level h l none e go next = record {
    outside = λ k away. refl;
    inside = inr (refl, (i, omega arith, h, e));
  }
  page_walked i j b level h l (some new) e go next =
      after-page i j b new (go (write b i new)) level h l e (
        next (write b i new)
          (length-set b.cap i new.0 ∙ level.0, length-set b.cookie i new.1 ∙ level.1))

  pub walk-WalkSpec :
      (rounds i j : ℕ) (b : Bottom)
      → IsLevel b
      → i ≤ j
      → j ≤ 512
      → j ≤ i + rounds
      → WalkSpec change i j b (walk change rounds b (base + i * 4096) (base + j * 4096))
  walk-WalkSpec zero i j b level h l enough =
      let over : ltb (base + i * 4096) (base + j * 4096) ≡ false = ground arith in
      rw over (stopped i j b (omega arith))
  walk-WalkSpec (suc rounds) i j b level h l enough =
      elim (Bool-cases (ltb (base + i * 4096) (base + j * 4096))) [
        | inl more ↦
            (let less : i < j = ground arith in
              let index : index_of (base + i * 4096) ≡ i = omega arith in
              let next : add_size (base + i * 4096) 4096 ≡ base + suc i * 4096 = omega arith in
              rw (more, index, next)
                (page_walked i j b level less l (change (get_or b.cap i 0)) refl
                  (λ (c : Bottom). walk change rounds c (base + suc i * 4096) (base + j * 4096))
                  (λ c q. walk-WalkSpec rounds (suc i) j c q less l (omega arith))))
        | inr over ↦ rw over (stopped i j b (ground arith))
      ]

module _ (base : ℕ) (aligned : base % 2 ^ 21 ≡ 0) (low : base ≤ 2 ^ 63) (i j : ℕ) (b : Bottom)
    (level : IsLevel b) (order : i ≤ j) (inside : j ≤ 512) where
  -- The three loops over the pages from `i` up to `j` of a level of 512 entries that starts at a multiple of 2 MiB
  -- up to 2^63. Each ends: either every page of the range has become what the loop's body makes of it, or the
  -- result is -1 and the body refused one page of the range; pages outside the range stay as they are.
  pub bottom-WalkSpec :
      (preserve_frames only_reserved : Bool) (cap cookie : ℕ)
      → WalkSpec
          (reserve_entry preserve_frames)
          i
          j
          b
          (reserve_entries_bottom b (base + i * 4096) (base + j * 4096) preserve_frames)
        × WalkSpec
            (clear_entry only_reserved)
            i
            j
            b
            (clear_entries_bottom b (base + i * 4096) (base + j * 4096) only_reserved)
        × WalkSpec
            (update_entry cap cookie)
            i
            j
            b
            (update_entries_bottom b (base + i * 4096) (base + j * 4096) cap cookie)
  unfolding reserve_entries_bottom clear_entries_bottom update_entries_bottom
  bottom-WalkSpec preserve_frames only_reserved cap cookie = (
    walk-WalkSpec (reserve_entry preserve_frames) base aligned low 512 i j b level order inside
        (omega arith),
    walk-WalkSpec (clear_entry only_reserved) base aligned low 512 i j b level order inside
        (omega arith),
    walk-WalkSpec (update_entry cap cookie) base aligned low 512 i j b level order inside
        (omega arith),
  )
