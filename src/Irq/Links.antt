-- ===== src/Irq/Links.antt =====
-- What binding and unbinding of table entries in libsel4platsupport/src/irq.c keeps of the invariant.
use se_l4_libs.Prelude.{
  ℕ, ◌<◌, ◌≡◌, ◌≢◌, refl, sym, ap, ◌∙◌, subst, true, false, Option, none, some, arith, inl, inr,
}
use mathlib.Core.Option.{some-injective}
use se_l4_libs.Prelude.Bits.{
  Bits, fill, unfill, assign, assign_elim, assign_cases, clash, none_clash,
}
use se_l4_libs.Irq.Defs.{IrqEntry, NtfnEntry}
use se_l4_libs.Irq.Linked.{IsPair, IsLinked, IsPair-renumber}

-- The entry of a notification without badge bit `b`, and that of one with it.
abbrev pub IsDropped : NtfnEntry → ℕ → NtfnEntry → Type 0
IsDropped t b t' =
    (t'.allocated ≡ t.allocated)
    × (t'.status ≡ unfill t.status b)
    × (t'.usable_mask ≡ t.usable_mask)
    × (t'.bound_irqs ≡ assign t.bound_irqs b none)

abbrev pub IsFilled : NtfnEntry → ℕ → ℕ → NtfnEntry → Type 0
IsFilled t b i t' =
    (t'.allocated ≡ t.allocated)
    × (t'.status ≡ fill t.status b)
    × (t'.usable_mask ≡ t.usable_mask)
    × (t'.bound_irqs ≡ assign t.bound_irqs b (some i))

-- The other bits of such entries are as before.
dropped_keeps :
    {e : IrqEntry} {t t' : NtfnEntry} {b : ℕ}
    → IsDropped t b t'
    → {j n k : ℕ} → b ≢ k
    → IsPair e t j n k
    → IsPair e t' j n k
dropped_keeps {t = t} {b = b} (live, status, usable, bound) {j = j} {k = k} ne p = record {
  paired = p.paired;
  index = p.index;
  live_irq = p.live_irq;
  live = live ∙ p.live;
  set =
      ap (λ (w : Bits). w k) status
      ∙ assign_elim (λ x. x ≡ true) t.status b false k (λ q. absurd (ne q)) (λ u. p.set);
  usable = ap (λ (w : Bits). w k) usable ∙ p.usable;
  bound =
      ap (λ (w : ℕ → Option ℕ). w k) bound
      ∙ assign_elim (λ x. x ≡ some j) t.bound_irqs b none k (λ q. absurd (ne q)) (λ u. p.bound);
  in_badge = p.in_badge;
}

filled_keeps :
    {e : IrqEntry} {t t' : NtfnEntry} {b : ℕ} (i : ℕ)
    → IsFilled t b i t'
    → {j n k : ℕ} → b ≢ k
    → IsPair e t j n k
    → IsPair e t' j n k
filled_keeps {t = t} {b = b} i (live, status, usable, bound) {j = j} {k = k} ne p = record {
  paired = p.paired;
  index = p.index;
  live_irq = p.live_irq;
  live = live ∙ p.live;
  set =
      ap (λ (w : Bits). w k) status
      ∙ assign_elim (λ x. x ≡ true) t.status b true k (λ q. refl) (λ u. p.set);
  usable = ap (λ (w : Bits). w k) usable ∙ p.usable;
  bound =
      ap (λ (w : ℕ → Option ℕ). w k) bound
      ∙ assign_elim (λ x. x ≡ some j) t.bound_irqs b (some i) k (λ q. absurd (ne q)) (λ u. p.bound);
  in_badge = p.in_badge;
}

module _ {irqs : ℕ → IrqEntry} {ntfns : ℕ → NtfnEntry} {mi mn : ℕ}
    (linked : IsLinked irqs ntfns mi mn) where
  -- An interrupt that loses its notification, and the notification the bit.
  pub drop-IsLinked :
      {i n b : ℕ}
      → IsPair (irqs i) (ntfns n) i n b
      → (e : IrqEntry) → e.paired_ntfn ≡ none
      → (t : NtfnEntry) → IsDropped (ntfns n) b t
      → IsLinked (assign irqs i e) (assign ntfns n t) mi mn
  drop-IsLinked {i} {n} {b} pair e gone t less = record {
    forth = λ j m l h. elim (assign_cases (λ x. x.paired_ntfn ≡ some m) irqs i e j h) [
      | inl (q, paired) ↦ none_clash ((sym gone ∙ paired))
      | inr (ne, paired) ↦
          (let (low, (k, old)) = linked.forth j m l paired in (low, (k, kept j m k ne old)))
    ];
    back = λ m k l u s. elim (assign_cases (λ x. x.status k ≡ true) ntfns n t m s) [
      | inl (q, set) ↦
          (let set' : unfill (ntfns n).status b k ≡ true =
              ap (λ (w : Bits). w k) (sym less.1) ∙ set in
            elim (assign_cases (λ x. x ≡ true) (ntfns n).status b false k set') [
              | inl (r, bad) ↦ clash (sym bad)
              | inr (ne, was) ↦
                  (let (j, low, old) =
                      linked.back m k l u (ap (λ (v : ℕ). (ntfns v).status k) (sym q) ∙ was) in
                    (
                      j,
                      low,
                      kept j m k
                          (λ r. ne (
                            some-injective b k (
                              sym pair.index ∙ ap (λ (v : ℕ). (irqs v).badge_index) r ∙ old.index)))
                          old,
                    ))
            ])
      | inr (ne, set) ↦
          (let (j, low, old) = linked.back m k l u set in
            (
              j,
              low,
              kept j m k
                  (λ r. ne (
                    some-injective n m
                      (sym pair.paired ∙ ap (λ (v : ℕ). (irqs v).paired_ntfn) r ∙ old.paired)))
                  old,
            ))
    ];
  }
    where
      kept :
          (j m k : ℕ)
          → i ≢ j
          → IsPair (irqs j) (ntfns m) j m k
          → IsPair (assign irqs i e j) (assign ntfns n t m) j m k
      kept j m k ne old =
          assign_elim (λ x. IsPair x (assign ntfns n t m) j m k) irqs i e j (λ q. absurd (ne q))
            (λ u.
              assign_elim (λ x. IsPair (irqs j) x j m k) ntfns n t m
                (λ q.
                  (let here = subst (λ (v : ℕ). IsPair (irqs j) (ntfns v) j m k) (sym q) old in
                    dropped_keeps less
                      (λ r. ne (
                        some-injective i j
                          (sym pair.bound ∙ ap (λ (v : ℕ). (ntfns n).bound_irqs v) r ∙ here.bound)))
                      here))
                (λ u'. old))

  -- An interrupt that is bound to nothing gets a bit of an allocated notification that stands for nothing.
  pub link-IsLinked :
      {i n b : ℕ}
      → i < mi
      → n < mn
      → (irqs i).paired_ntfn ≡ none
      → (ntfns n).status b ≡ false
      → (e : IrqEntry) (t : NtfnEntry) → IsFilled (ntfns n) b i t
      → IsPair e t i n b
      → IsLinked (assign irqs i e) (assign ntfns n t) mi mn
  link-IsLinked {i} {n} {b} i_low n_low unpaired unset e t more pair = record {
    forth = λ j m l h. elim (assign_cases (λ x. x.paired_ntfn ≡ some m) irqs i e j h) [
      | inl (q, paired) ↦
          (let n_m = some-injective n m (sym pair.paired ∙ paired) in
            (omega arith, (b, new j m q n_m)))
      | inr (ne, paired) ↦
          (let (low, (k, old)) = linked.forth j m l paired in (low, (k, kept j m k ne old)))
    ];
    back = λ m k l u s. elim (assign_cases (λ x. x.status k ≡ true) ntfns n t m s) [
      | inl (q, set) ↦
          (let set' : fill (ntfns n).status b k ≡ true =
              ap (λ (w : Bits). w k) (sym more.1) ∙ set in
            elim (assign_cases (λ x. x ≡ true) (ntfns n).status b true k set') [
              | inl (r, tru) ↦ (
                i,
                i_low,
                subst (λ (v : ℕ). IsPair (assign irqs i e i) (assign ntfns n t m) i m v) r
                    (new i m refl q),
              )
              | inr (ne, was) ↦ old_pair m k l u (ap (λ (v : ℕ). (ntfns v).status k) (sym q) ∙ was)
            ])
      | inr (ne, set) ↦ old_pair m k l u set
    ];
  }
    where
      new : (j m : ℕ) → i ≡ j → n ≡ m → IsPair (assign irqs i e j) (assign ntfns n t m) j m b
      new j m q r =
          assign_elim (λ x. IsPair x (assign ntfns n t m) j m b) irqs i e j
            (λ q'.
              assign_elim (λ x. IsPair e x j m b) ntfns n t m (λ r'. IsPair-renumber q r pair)
                (λ ne. absurd (ne r)))
            (λ ne. absurd (ne q))

      kept :
          (j m k : ℕ)
          → i ≢ j
          → IsPair (irqs j) (ntfns m) j m k
          → IsPair (assign irqs i e j) (assign ntfns n t m) j m k
      kept j m k ne old =
          assign_elim (λ x. IsPair x (assign ntfns n t m) j m k) irqs i e j (λ q. absurd (ne q))
            (λ u.
              assign_elim (λ x. IsPair (irqs j) x j m k) ntfns n t m
                (λ q.
                  (let here = subst (λ (v : ℕ). IsPair (irqs j) (ntfns v) j m k) (sym q) old in
                    filled_keeps i more
                      (λ r.
                        (let h : true ≡ false =
                            sym here.set ∙ ap (λ (v : ℕ). (ntfns n).status v) (sym r) ∙ unset in
                          clash h))
                      here))
                (λ u'. old))

      old_pair :
          (m k : ℕ)
          → m < mn
          → k < 64
          → (ntfns m).status k ≡ true
          → (j : ℕ) × (j < mi) × IsPair (assign irqs i e j) (assign ntfns n t m) j m k
      old_pair m k l u set =
          let (j, low, old) = linked.back m k l u set in
          (
            j,
            low,
            kept j m k
                (λ q.
                  none_clash (sym unpaired ∙ ap (λ (v : ℕ). (irqs v).paired_ntfn) q ∙ old.paired))
                old,
          )
