-- ===== src/Irq/Sound.antt =====
-- The whole invariant of the bookkeeping of libsel4platsupport/src/irq.c, and the ids that its functions accept.
use se_l4_libs.Prelude.{
  ℕ, ◌<◌, ◌≡◌, true, false, Option, none, some, ltb, arith, Bool-cases, inl, inr, add_size,
  sub_size,
}
use se_l4_libs.Prelude.Int.{ℤ, pos, negsuc}
use se_l4_libs.Prelude.Bits.{fill, unfill}
use se_l4_libs.Irq.Defs.{NtfnEntry, Irq, usable_irq, usable_ntfn, valid_id, irq_at, ntfn_at}
use se_l4_libs.Irq.Notify.{popcount_from}
use se_l4_libs.Irq.Linked.{Linked}
use se_l4_libs.Irq.Counts.{popcount_from-le, popcount_from-fill, popcount_from-unfill}
use se_l4_libs.Irq.Search.{IsTracked}

-- The count is that of the bits.
abbrev pub IsCounted : NtfnEntry → Type 0
IsCounted t = t.num_irqs_bound ≡ popcount_from 64 0 t.status

pub record IsSound (c : Irq) : Type 0 where
  pub linked : Linked c
  pub counted : (n : ℕ) → n < c.max_ntfn_ids → IsCounted (c.ntfn_table n)
  pub irqs_tracked : IsTracked c.irq_bitfields (λ i. (c.irq_table i).allocated) c.max_irq_ids
  pub ntfns_tracked : IsTracked c.ntfn_bitfields (λ n. (c.ntfn_table n).allocated) c.max_ntfn_ids

-- A property of the id, when there is one.
abbrev pub Each : (ℕ → Type 0) → Option ℕ → Type 0
Each P none = Unit
Each P (some n) = P n

abbrev pub IsUsableIrq : Irq → ℕ → Type 0
IsUsableIrq c i = (i < c.max_irq_ids) × ((c.irq_table i).allocated ≡ true)

abbrev pub IsUsableNtfn : Irq → ℕ → Type 0
IsUsableNtfn c n = (n < c.max_ntfn_ids) × ((c.ntfn_table n).allocated ≡ true)

valid_id_lem : (limit : ℕ) (id : ℤ) → Each (λ i. i < limit) (valid_id limit id)
valid_id_lem limit (pos i) = elim (Bool-cases (ltb i limit)) [
  | inl e ↦ rw e (ground arith)
  | inr e ↦ rw e tt
]
valid_id_lem limit (negsuc i) = tt

pub usable_irq_lem : (c : Irq) (id : ℤ) → Each (IsUsableIrq c) (usable_irq c id)
unfolding usable_irq
usable_irq_lem c id = at (valid_id c.max_irq_ids id) (valid_id_lem c.max_irq_ids id)
  where
    at : (o : Option ℕ) → Each (λ i. i < c.max_irq_ids) o → Each (IsUsableIrq c) (irq_at c o)
    at none low = tt
    at (some i) low = elim (Bool-cases (c.irq_table i).allocated) [
      | inl e ↦ rw e (low, e)
      | inr e ↦ rw e tt
    ]

pub usable_ntfn_lem : (c : Irq) (id : ℤ) → Each (IsUsableNtfn c) (usable_ntfn c id)
unfolding usable_ntfn
usable_ntfn_lem c id = at (valid_id c.max_ntfn_ids id) (valid_id_lem c.max_ntfn_ids id)
  where
    at : (o : Option ℕ) → Each (λ n. n < c.max_ntfn_ids) o → Each (IsUsableNtfn c) (ntfn_at c o)
    at none low = tt
    at (some n) low = elim (Bool-cases (c.ntfn_table n).allocated) [
      | inl e ↦ rw e (low, e)
      | inr e ↦ rw e tt
    ]

-- Counting one more and one less bit.
pub fill-IsCounted :
    (t : NtfnEntry) (b : ℕ)
    → b < 64
    → t.status b ≡ false
    → IsCounted t
    → add_size t.num_irqs_bound 1 ≡ popcount_from 64 0 (fill t.status b)
fill-IsCounted t b low unset h =
    let more = popcount_from-fill 64 0 t.status b (omega arith) low unset in
    let most = popcount_from-le 64 0 (fill t.status b) in omega arith

pub unfill-IsCounted :
    (t : NtfnEntry) (b : ℕ)
    → b < 64
    → t.status b ≡ true
    → IsCounted t
    → sub_size t.num_irqs_bound 1 ≡ popcount_from 64 0 (unfill t.status b)
unfill-IsCounted t b low set h =
    let less = popcount_from-unfill 64 0 t.status b (omega arith) low set in
    let most = popcount_from-le 64 0 t.status in omega arith
