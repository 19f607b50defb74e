-- ===== src/Irq/Clear.antt =====
-- What clearing and reusing entries that nothing is bound to keeps of the invariant of libsel4platsupport/src/irq.c.
use se_l4_libs.Prelude.{ℕ, ◌<◌, ◌≡◌, sym, ap, ◌∙◌, true, false, none, some, inl, inr}
use se_l4_libs.Prelude.Bits.{assign, assign_elim, assign_cases, clash, none_clash}
use se_l4_libs.Irq.Defs.{IrqEntry, NtfnEntry}
use se_l4_libs.Irq.Linked.{IsPair, IsLinked}

module _ {irqs : ℕ → IrqEntry} {ntfns : ℕ → NtfnEntry} {mi mn : ℕ}
    (linked : IsLinked irqs ntfns mi mn) where
  -- An entry of an interrupt that is bound to nothing, before and after.
  pub unpaired-IsLinked :
      (i : ℕ) (e : IrqEntry)
      → (irqs i).paired_ntfn ≡ none
      → e.paired_ntfn ≡ none
      → IsLinked (assign irqs i e) ntfns mi mn
  unpaired-IsLinked i e before after = record {
    forth = λ j n l h. elim (assign_cases (λ x. x.paired_ntfn ≡ some n) irqs i e j h) [
      | inl (q, paired) ↦ none_clash ((sym after ∙ paired))
      | inr (ne, paired) ↦
          (let (low, (b, old)) = linked.forth j n l paired in
            (
              low,
              (
                b,
                assign_elim (λ x. IsPair x (ntfns n) j n b) irqs i e j (λ q. absurd (ne q))
                    (λ k. old),
              ),
            ))
    ];
    back = λ n b l m s.
        (let (j, low, old) = linked.back n b l m s in
          (
            j,
            low,
            assign_elim (λ x. IsPair x (ntfns n) j n b) irqs i e j
                (λ q.
                  none_clash ((sym before ∙ ap (λ (k : ℕ). (irqs k).paired_ntfn) q ∙ old.paired)))
                (λ ne. old),
          ));
  }

  -- A notification without bound interrupts that is replaced by one without.
  pub empty-IsLinked :
      (n : ℕ) (t : NtfnEntry)
      → ((b : ℕ) → b < 64 → (ntfns n).allocated ≡ true → (ntfns n).status b ≡ false)
      → ((b : ℕ) → t.status b ≡ false)
      → IsLinked irqs (assign ntfns n t) mi mn
  empty-IsLinked n t before after = record {
    forth = λ j m l h.
        (let (low, (b, old)) = linked.forth j m l h in
          (
            low,
            (
              b,
              assign_elim (λ x. IsPair (irqs j) x j m b) ntfns n t m
                  (λ q.
                    (let h : true ≡ false =
                        sym (ap (λ (k : ℕ). (ntfns k).status b) q ∙ old.set)
                        ∙ before b old.in_badge
                            (ap (λ (k : ℕ). (ntfns k).allocated) q ∙ old.live) in
                      clash h))
                  (λ ne. old),
            ),
          ));
    back = λ m b l k s. elim (assign_cases (λ x. x.status b ≡ true) ntfns n t m s) [
      | inl (q, set) ↦ (let h : true ≡ false = sym set ∙ after b in clash h)
      | inr (ne, set) ↦
          (let (j, low, old) = linked.back m b l k set in
            (
              j,
              low,
              assign_elim (λ x. IsPair (irqs j) x j m b) ntfns n t m (λ q. absurd (ne q))
                  (λ u. old),
            ))
    ];
  }
