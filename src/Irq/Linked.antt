-- ===== src/Irq/Linked.antt =====
-- The invariant of the bookkeeping of libsel4platsupport/src/irq.c: an interrupt's notification and badge bit, and a
-- notification's bits and the interrupts they stand for, say the same; and what a change of the tables keeps of it.
use se_l4_libs.Prelude.{
  ℕ, ◌<◌, ◌≡◌, ◌≢◌, refl, sym, ap, ◌∙◌, subst, true, Option, some, arith, inl, inr,
}
use mathlib.Core.Option.{some-injective}
use se_l4_libs.Prelude.Bits.{Bits, assign, assign_elim, assign_cases, assign_self}
use se_l4_libs.Irq.Defs.{IrqEntry, NtfnEntry, Irq}

-- Interrupt `i` is bound to bit `b` of notification `n`, as both entries have it.
pub record IsPair (e : IrqEntry) (t : NtfnEntry) (i n b : ℕ) : Type 0 where
  pub paired : e.paired_ntfn ≡ some n
  pub index : e.badge_index ≡ some b
  pub live_irq : e.allocated ≡ true
  pub live : t.allocated ≡ true
  pub set : t.status b ≡ true
  pub usable : t.usable_mask b ≡ true
  pub bound : t.bound_irqs b ≡ some i
  pub in_badge : b < 64

pub record IsLinked (irqs : ℕ → IrqEntry) (ntfns : ℕ → NtfnEntry) (max_irqs max_ntfns : ℕ)
    : Type 0 where
  pub forth :
      (i n : ℕ)
      → i < max_irqs
      → (irqs i).paired_ntfn ≡ some n
      → (n < max_ntfns) × ((b : ℕ) × IsPair (irqs i) (ntfns n) i n b)
  pub back :
      (n b : ℕ)
      → n < max_ntfns
      → b < 64
      → (ntfns n).status b ≡ true
      → (i : ℕ) × (i < max_irqs) × IsPair (irqs i) (ntfns n) i n b

abbrev pub Linked : Irq → Type 0
Linked c = IsLinked c.irq_table c.ntfn_table c.max_irq_ids c.max_ntfn_ids

-- The entries agree on what a pair is about.
abbrev pub IsSameIrq : IrqEntry → IrqEntry → Type 0
IsSameIrq e e' =
    (e'.paired_ntfn ≡ e.paired_ntfn) × (e'.badge_index ≡ e.badge_index) × (e'.allocated ≡ true)

abbrev pub IsSameNtfn : NtfnEntry → NtfnEntry → Type 0
IsSameNtfn t t' =
    (t'.allocated ≡ t.allocated)
    × (t'.status ≡ t.status)
    × (t'.usable_mask ≡ t.usable_mask)
    × (t'.bound_irqs ≡ t.bound_irqs)

pub IsPair-same_irq :
    {e e' : IrqEntry} {t : NtfnEntry} {i n b : ℕ}
    → IsSameIrq e e'
    → IsPair e t i n b
    → IsPair e' t i n b
IsPair-same_irq (same, same_index, live) p = record {
  paired = same ∙ p.paired;
  index = same_index ∙ p.index;
  live_irq = live;
  live = p.live;
  set = p.set;
  usable = p.usable;
  bound = p.bound;
  in_badge = p.in_badge;
}

pub IsPair-same_ntfn :
    {e : IrqEntry} {t t' : NtfnEntry} {i n b : ℕ}
    → IsSameNtfn t t'
    → IsPair e t i n b
    → IsPair e t' i n b
IsPair-same_ntfn {b = b} (live, status, usable, bound) p = record {
  paired = p.paired;
  index = p.index;
  live_irq = p.live_irq;
  live = live ∙ p.live;
  set = ap (λ (w : Bits). w b) status ∙ p.set;
  usable = ap (λ (w : Bits). w b) usable ∙ p.usable;
  bound = ap (λ (w : ℕ → Option ℕ). w b) bound ∙ p.bound;
  in_badge = p.in_badge;
}

pub IsPair-renumber :
    {e : IrqEntry} {t : NtfnEntry} {i j n m b : ℕ}
    → i ≡ j
    → n ≡ m
    → IsPair e t i n b
    → IsPair e t j m b
IsPair-renumber i_j n_m p = record {
  paired = p.paired ∙ ap some n_m;
  index = p.index;
  live_irq = p.live_irq;
  live = p.live;
  set = p.set;
  usable = p.usable;
  bound = p.bound ∙ ap some i_j;
  in_badge = p.in_badge;
}

module _ {irqs : ℕ → IrqEntry} {ntfns : ℕ → NtfnEntry} {mi mn : ℕ}
    (linked : IsLinked irqs ntfns mi mn) where
  -- A notification's bit stands for one interrupt only.
  pub IsLinked-one :
      (i j : ℕ) {n b : ℕ}
      → IsPair (irqs i) (ntfns n) i n b
      → IsPair (irqs j) (ntfns n) j n b
      → i ≡ j
  IsLinked-one i j p q = some-injective i j (sym p.bound ∙ q.bound)

  -- An entry that keeps its pairing, and is allocated.
  pub irq-IsLinked :
      (i : ℕ) (e : IrqEntry) → IsSameIrq (irqs i) e → IsLinked (assign irqs i e) ntfns mi mn
  irq-IsLinked i e same = record {
    forth = λ j n l h. elim (assign_cases (λ x. x.paired_ntfn ≡ some n) irqs i e j h) [
      | inl (q, paired) ↦
          (let (low, (b, old)) = linked.forth i n (omega arith) (sym same.0 ∙ paired) in
            (
              low,
              (b, whole i e same j n b (λ k. IsPair-renumber q refl old) (λ ne. absurd (ne q))),
            ))
      | inr (ne, paired) ↦
          (let (low, (b, old)) = linked.forth j n l paired in
            (low, (b, whole i e same j n b (λ k. absurd (ne k)) (λ k. old))))
    ];
    back = λ n b l m s.
        (let (j, low, old) = linked.back n b l m s in
          (
            j,
            low,
            whole i e same j n b
                (λ q. subst (λ (k : ℕ). IsPair (irqs k) (ntfns n) j n b) (sym q) old) (λ ne. old),
          ));
  }
    where
      whole :
          (i : ℕ) (e : IrqEntry)
          → IsSameIrq (irqs i) e
          → (j n b : ℕ) → (i ≡ j → IsPair (irqs i) (ntfns n) j n b)
          → (i ≢ j → IsPair (irqs j) (ntfns n) j n b)
          → IsPair (assign irqs i e j) (ntfns n) j n b
      whole i e same j n b here there =
          assign_elim (λ x. IsPair x (ntfns n) j n b) irqs i e j
            (λ q. IsPair-same_irq same (here q)) there

pub IsPair-assigned :
    (irqs : ℕ → IrqEntry) (ntfns : ℕ → NtfnEntry) {e : IrqEntry} {t : NtfnEntry} {i n b : ℕ}
    → IsPair e t i n b
    → IsPair (assign irqs i e i) (assign ntfns n t n) i n b
IsPair-assigned irqs ntfns {e = e} {t = t} {i = i} {n = n} {b = b} pair =
    subst (λ (x : IrqEntry). IsPair x (assign ntfns n t n) i n b) (sym (assign_self irqs i e))
      (subst (λ (x : NtfnEntry). IsPair e x i n b) (sym (assign_self ntfns n t)) pair)
