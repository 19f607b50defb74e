-- ===== src/Irq/Release.antt =====
-- Taking a notification back in libsel4platsupport/src/irq.c: the loop over its bits.
use se_l4_libs.Prelude.{
  ℕ, suc, ◌<◌, ◌≤◌, ◌≡◌, refl, sym, ap, ◌∙◌, subst, Bool, true, false, Option, none, some, ltb, leb,
  if◌then◌else◌, arith, Bool-cases, inl, inr,
}
use se_l4_libs.Prelude.Bits.{
  unfill, assign, assign_elim, assign-field, assign_self, assign_ne, assign_twice, assign_old,
  each_bit, each_bit-keeps,
}
use se_l4_libs.Irq.Defs.{IrqEntry, NtfnEntry, Irq, Platform, blank_ntfn}
use se_l4_libs.Irq.Bind.{unpair}
use se_l4_libs.Irq.Notify.{popcount_from, release_bound, release_bit, release_all, forget}
use se_l4_libs.Irq.Linked.{IsPair, IsLinked}
use se_l4_libs.Irq.Links.{IsDropped, drop-IsLinked}
use se_l4_libs.Irq.Clear.{empty-IsLinked}
use se_l4_libs.Irq.Counts.{popcount_from-no_bits, popcount_from-zero}
use se_l4_libs.Irq.Search.{IsTracked, IsTracked-assign, unfill_bit_in_bitfield_lem}
use se_l4_libs.Irq.Sound.{IsSound}
use se_l4_libs.Irq.Effects.{IsTracked-same, IsCounted-assign}

-- The interrupts below bit `k` of notification `n` are unbound: the tables are linked when the entry of `n` is read as
-- `rest`, which has the bits from `k` on only.
record IsReleased (c : Irq) (n k : ℕ) (irqs : ℕ → IrqEntry) (rest : NtfnEntry) : Type 0 where
  linked : IsLinked irqs (assign c.ntfn_table n rest) c.max_irq_ids c.max_ntfn_ids
  tracked : IsTracked c.irq_bitfields (λ i. (irqs i).allocated) c.max_irq_ids
  done : (j : ℕ) → j < k → rest.status j ≡ false
  left : (j : ℕ) → k ≤ j → rest.status j ≡ (c.ntfn_table n).status j
  left_bound : (j : ℕ) → k ≤ j → rest.bound_irqs j ≡ (c.ntfn_table n).bound_irqs j

no_count : (x y : ℕ) → leb x 0 ≡ true → x ≡ y → y ≡ 0
no_count x y h e = ground arith

module _ (p : Platform) (c : Irq) (n : ℕ) (n_low : n < c.max_ntfn_ids) (sound : IsSound c) where
  open p use {State}

  Released : ℕ → Option (Irq × State) → Type 0
  Released k none = Unit
  Released k (some (d, st)) =
      (irqs : ℕ → IrqEntry) × (rest : NtfnEntry) × (d ≡ record c { irq_table = irqs })
      × IsReleased c n k irqs rest

  -- A bit that is not set.
  skip :
      (k : ℕ) (s : Option (Irq × State))
      → k < 64
      → (c.ntfn_table n).status k ≡ false
      → Released k s
      → Released (suc k) s
  unfolding Released
  skip k none l e r = tt
  skip k (some (d, st)) l e (irqs, rest, is, h) = (
    irqs,
    rest,
    is,
    record {
      linked = h.linked;
      tracked = h.tracked;
      done = λ j u. elim (Bool-cases (ltb j k)) [
        | inl q ↦ h.done j (ground arith)
        | inr q ↦
            (let j_k : j ≡ k = ground arith in ap rest.status j_k ∙ h.left k (omega arith) ∙ e)
      ];
      left = λ j u. h.left j (omega arith);
      left_bound = λ j u. h.left_bound j (omega arith);
    },
  )

  -- The interrupt that bit `k` stands for loses its notification.
  release_one :
      (k : ℕ) (irqs : ℕ → IrqEntry) (rest : NtfnEntry)
      → IsReleased c n k irqs rest
      → (i : ℕ) → IsPair (irqs i) rest i n k
      → (e : IrqEntry) → e.paired_ntfn ≡ none
      → e.allocated ≡ (irqs i).allocated
      → IsReleased c n (suc k) (assign irqs i e) (record rest {
        status = unfill rest.status k;
        bound_irqs = assign rest.bound_irqs k none;
      })
  release_one k irqs rest h i pair e gone live = record {
    linked =
        subst (λ (f : ℕ → NtfnEntry). IsLinked (assign irqs i e) f c.max_irq_ids c.max_ntfn_ids)
          (assign_twice c.ntfn_table n rest less)
          (drop-IsLinked h.linked
            (subst (λ (t : NtfnEntry). IsPair (irqs i) t i n k) (sym here) pair) e gone less
            (subst (λ (t : NtfnEntry). IsDropped t k less) (sym here) (refl, refl, refl, refl)));
    tracked = IsTracked-same (λ (x : IrqEntry). x.allocated) i e live h.tracked;
    done = λ j u.
        assign_elim (λ x. x ≡ false) rest.status k false j (λ q. refl)
          (λ ne. h.done j (omega arith));
    left =
        λ j u. assign_ne rest.status k j false (λ q. absurd (omega arith)) ∙ h.left j (omega arith);
    left_bound = λ j u.
        assign_ne rest.bound_irqs k j none (λ q. absurd (omega arith))
        ∙ h.left_bound j (omega arith);
  }
    where
      less : NtfnEntry
      less = record rest {
        status = unfill rest.status k;
        bound_irqs = assign rest.bound_irqs k none;
      }

      here : assign c.ntfn_table n rest n ≡ rest
      here = assign_self c.ntfn_table n rest

  bound_lem :
      (k : ℕ) (irqs : ℕ → IrqEntry) (rest : NtfnEntry)
      → IsReleased c n k irqs rest
      → k < 64
      → (c.ntfn_table n).status k ≡ true
      → (i : ℕ) × IsPair (irqs i) rest i n k × ((c.ntfn_table n).bound_irqs k ≡ some i)
  bound_lem k irqs rest h low e =
      (let here = assign_self c.ntfn_table n rest in
        let set = ap (λ (t : NtfnEntry). t.status k) here ∙ h.left k (omega arith) ∙ e in
        let (i, i_low, there) = h.linked.back n k n_low low set in
        let pair : IsPair (irqs i) rest i n k =
          subst (λ (t : NtfnEntry). IsPair (irqs i) t i n k) here there in
        (i, pair, sym (h.left_bound k (omega arith)) ∙ pair.bound))

  step :
      (k : ℕ) (s : Option (Irq × State))
      → k < 64
      → (c.ntfn_table n).status k ≡ true
      → Released k s
      → Released (suc k) (release_bit p (c.ntfn_table n).bound_irqs k s)
  unfolding Released unpair
  step k none l e r = tt
  step k (some (d, st)) l e (irqs, rest, is, h) =
      (let (i, pair, bound) = bound_lem k irqs rest h l e in
        subst (λ (x : Irq). Released (suc k) (release_bound p x st ((c.ntfn_table n).bound_irqs k)))
          (sym is)
          (subst
            (λ (o : Option ℕ).
              Released (suc k) (release_bound p (record c { irq_table = irqs }) st o))
            (sym bound) (ended k irqs rest h i pair _ _)))
    where
      ended :
          (k : ℕ) (irqs : ℕ → IrqEntry) (rest : NtfnEntry)
          → IsReleased c n k irqs rest
          → (i : ℕ) → IsPair (irqs i) rest i n k
          → (failed : Bool) (st : State)
          → Released
              (suc k)
              (if failed then none else some (unpair (record c { irq_table = irqs }) i, st))
      ended k irqs rest h i pair true st = tt
      ended k irqs rest h i pair false st =
          (_, _, refl, release_one k irqs rest h i pair _ refl refl)

  -- The whole loop.
  released :
      (st : State)
      → Released 64 (
          each_bit 64 0
            (c.ntfn_table n).status
            (release_bit p (c.ntfn_table n).bound_irqs)
            (some (c, st)))
  unfolding Released
  released st =
      each_bit-keeps Released (c.ntfn_table n).status (release_bit p (c.ntfn_table n).bound_irqs) 64
        step skip 64 0 (some (c, st)) refl
        (
          c.irq_table,
          c.ntfn_table n,
          refl,
          record {
            linked =
                subst (λ (f : ℕ → NtfnEntry). IsLinked c.irq_table f c.max_irq_ids c.max_ntfn_ids)
                  (sym (assign_old c.ntfn_table n)) sound.linked;
            tracked = sound.irqs_tracked;
            done = λ j l. absurd (omega arith);
            left = λ j l. refl;
            left_bound = λ j l. refl;
          },
        )

  -- The notification's entry is cleared.
  forget-IsSound :
      (irqs : ℕ → IrqEntry) (rest : NtfnEntry)
      → IsReleased c n 64 irqs rest
      → IsSound (forget p (record c { irq_table = irqs }) n)
  unfolding forget
  forget-IsSound irqs rest h = record {
    linked =
        subst (λ (f : ℕ → NtfnEntry). IsLinked irqs f c.max_irq_ids c.max_ntfn_ids)
          (assign_twice c.ntfn_table n rest (blank_ntfn none))
          (empty-IsLinked h.linked n (blank_ntfn none)
            (λ b l live.
              ap (λ (t : NtfnEntry). t.status b) (assign_self c.ntfn_table n rest) ∙ h.done b l)
            (λ b. refl));
    counted =
        IsCounted-assign c.ntfn_table c.max_ntfn_ids n _ sound.counted
          (sym (popcount_from-no_bits 64 0));
    irqs_tracked = h.tracked;
    ntfns_tracked =
        IsTracked-assign n false sound.ntfns_tracked (unfill_bit_in_bitfield_lem c.ntfn_bitfields n)
          (λ j. assign-field (λ (t : NtfnEntry). t.allocated) c.ntfn_table n _ j);
  }

  -- What is left when the loop ends: the program ended, or the entry may be cleared.
  abbrev pub IsForgettable : Option (Irq × State) → Type 0
  IsForgettable none = Unit
  IsForgettable (some (d, st)) = IsSound (forget p d n) × (d.ntfn_table ≡ c.ntfn_table)

  pub release_all-IsForgettable : (st : State) → IsForgettable (release_all p c st n)
  unfolding release_all Released
  release_all-IsForgettable st = elim (Bool-cases (leb (c.ntfn_table n).num_irqs_bound 0)) [
    | inl e ↦ rw e (
        let empty : popcount_from 64 0 (c.ntfn_table n).status ≡ 0 =
          no_count _ _ e (sound.counted n n_low) in
        (
          forget-IsSound c.irq_table (c.ntfn_table n) record {
            linked =
                subst (λ (f : ℕ → NtfnEntry). IsLinked c.irq_table f c.max_irq_ids c.max_ntfn_ids)
                  (sym (assign_old c.ntfn_table n)) sound.linked;
            tracked = sound.irqs_tracked;
            done = λ j l. popcount_from-zero 64 0 (c.ntfn_table n).status j empty (omega arith) l;
            left = λ j l. refl;
            left_bound = λ j l. refl;
          },
          refl,
        ))
    | inr e ↦ rw e (at_end _ (released st))
  ]
    where
      at_end : (o : Option (Irq × State)) → Released 64 o → IsForgettable o
      at_end none r = tt
      at_end (some (d, st)) (irqs, rest, is, h) = (
        subst (λ (x : Irq). IsSound (forget p x n)) (sym is) (forget-IsSound irqs rest h),
        ap (λ (x : Irq). x.ntfn_table) is,
      )
