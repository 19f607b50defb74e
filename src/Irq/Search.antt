-- ===== src/Irq/Search.antt =====
-- The bitfields of allocated ids in libsel4platsupport/src/irq.c and the search for a free id.
use se_l4_libs.Prelude.{
  ℕ, zero, suc, ◌+◌, ◌*◌, ◌/◌, ◌%◌, ◌^◌, ◌≤◌, ◌<◌, dec_lt, ◌≡◌, ◌≢◌, refl, sym, ap, ◌∙◌, subst,
  Bool, true, false, not, ◌&&◌, Option, none, some, ◌==◌, arith, ℕ_discrete, inl, inr, Bool-cases,
  sub_size,
}
use mathlib.Core.Option.{some-injective}
use se_l4_libs.Prelude.Bits.{
  Bits, assign, assign_self, assign_ne, assign_elim, lowest, IsLowest, lowest-IsLowest, clash,
  none_clash, without,
}
use se_l4_libs.Irq.Defs.{Irq, NtfnEntry}
use se_l4_libs.Irq.Ids.{
  fill_bit_in_bitfield, unfill_bit_in_bitfield, unallocated, find_from, found_in, find_free_irq_id,
  find_free_ntfn_id, find_free_ntfn_badge_index,
}

-- The bit of an id
abbrev pub id_bit : (ℕ → Bits) → ℕ → Bool
id_bit array id = array (id / 64) (id % 64)

same_bit : (i j : ℕ) → i / 64 ≡ j / 64 → i % 64 ≡ j % 64 → i ≡ j
same_bit i j h h' = omega arith

-- The two functions on the bits of the ids: an assignment.
assigned_bit :
    (array : ℕ → Bits) (v : Bool) (i j : ℕ)
    → id_bit (assign array (i / 64) (assign (array (i / 64)) (i % 64) v)) j
      ≡ assign (id_bit array) i v j
assigned_bit array v i j = elim (ℕ_discrete (i / 64) (j / 64)) [
  | yes q ↦ elim (ℕ_discrete (i % 64) (j % 64)) [
    | yes r ↦
        (let e : (i / 64 == j / 64) ≡ true = ground arith in
          let e' : (i % 64 == j % 64) ≡ true = ground arith in
          let s = same_bit i j q r in
          let e'' : (i == j) ≡ true = ground arith in rw e (rw e' (rw e'' refl)))
    | no ne ↦
        (let e : (i / 64 == j / 64) ≡ true = ground arith in
          let e' : (i % 64 == j % 64) ≡ false = ground arith in
          let e'' : (i == j) ≡ false = differs i j (λ h. ne (ap (λ (k : ℕ). k % 64) h)) in
          rw e (rw e' (rw e'' (ap (λ (k : ℕ). array k (j % 64)) q))))
  ]
  | no ne ↦
      (let e : (i / 64 == j / 64) ≡ false = ground arith in
        let e'' : (i == j) ≡ false = differs i j (λ h. ne (ap (λ (k : ℕ). k / 64) h)) in
        rw e (rw e'' refl))
]
  where
    differs : (i j : ℕ) → i ≢ j → (i == j) ≡ false
    differs i j h = ground arith

pub fill_bit_in_bitfield_lem :
    (array : ℕ → Bits) (i j : ℕ)
    → id_bit (fill_bit_in_bitfield array i) j ≡ assign (id_bit array) i true j
unfolding fill_bit_in_bitfield
fill_bit_in_bitfield_lem array i j = assigned_bit array true i j

pub unfill_bit_in_bitfield_lem :
    (array : ℕ → Bits) (i j : ℕ)
    → id_bit (unfill_bit_in_bitfield array i) j ≡ assign (id_bit array) i false j
unfolding unfill_bit_in_bitfield
unfill_bit_in_bitfield_lem array i j = assigned_bit array false i j

-- The bitfields say which of the ids below `limit` are allocated.
pub record IsTracked (array : ℕ → Bits) (live : ℕ → Bool) (limit : ℕ) : Type 0 where
  pub tracks : (i : ℕ) → i < limit → id_bit array i ≡ live i

pub IsTracked-assign :
    {array array' : ℕ → Bits} {live live' : ℕ → Bool} {limit : ℕ} (i : ℕ) (v : Bool)
    → IsTracked array live limit
    → ((j : ℕ) → id_bit array' j ≡ assign (id_bit array) i v j)
    → ((j : ℕ) → live' j ≡ assign live i v j)
    → IsTracked array' live' limit
IsTracked-assign {array = array} {live = live} i v tracked bits lives = record {
  tracks = λ j l.
      bits j
      ∙ assign_elim (λ x. x ≡ assign live i v j) (id_bit array) i v j
          (λ q. sym (ap (assign live i v) (sym q) ∙ assign_self live i v))
          (λ ne. tracked.tracks j l ∙ sym (assign_ne live i j v ne))
      ∙ sym (lives j);
}

-- The search finds a bit that is set.
pub find_from_lem :
    (rounds i : ℕ) (words : ℕ → Bits) (id : ℕ)
    → find_from rounds i words ≡ some id
    → id_bit words id ≡ true
find_from_lem zero i words id h = none_clash h
find_from_lem (suc rounds) i words id h =
    first (lowest (words i)) refl (lowest-IsLowest (words i))
      (find_from_lem rounds (suc i) words id) h
  where
    word_of : (i k : ℕ) → k < 64 → (k + i * 64) / 64 ≡ i
    word_of i k l = omega arith

    bit_of : (i k : ℕ) → k < 64 → (k + i * 64) % 64 ≡ k
    bit_of i k l = omega arith

    first :
        (o : Option ℕ)
        → lowest (words i) ≡ o
        → IsLowest 0 64 (words i) o
        → (find_from rounds (suc i) words ≡ some id → id_bit words id ≡ true)
        → found_in i o (find_from rounds (suc i) words) ≡ some id
        → id_bit words id ≡ true
    first none q low later e = later e
    first (some k) q (from, end, set, below) later e =
        (let id_is = some-injective (k + i * 64) id e in
          subst (λ (v : ℕ). id_bit words v ≡ true) id_is
            (let e₁ = word_of i k end in let e₂ = bit_of i k end in rw e₁ (rw e₂ set)))

-- A bit that is set is found, or one before it.
pub find_from_first :
    (rounds i : ℕ) (words : ℕ → Bits) (j : ℕ)
    → i * 64 ≤ j
    → j < (i + rounds) * 64
    → id_bit words j ≡ true
    → (id : ℕ) × (find_from rounds i words ≡ some id) × (id ≤ j)
find_from_first zero i words j low high set = absurd (omega arith)
find_from_first (suc rounds) i words j low high set =
    first (lowest (words i)) (lowest-IsLowest (words i))
      (λ l. find_from_first rounds (suc i) words j l (omega arith) set)
  where
    here : j / 64 ≡ i → words i (j % 64) ≡ true
    here q = ap (λ (k : ℕ). words k (j % 64)) (sym q) ∙ set

    before : (k : ℕ) → k < 64 → ((l : ℕ) → 0 ≤ l → l < k → words i l ≡ false) → k + i * 64 ≤ j
    before k end below = elim (ℕ_discrete (j / 64) i) [
      | yes q ↦ elim (dec_lt (j % 64) k) [
        | yes l ↦ clash (sym (here q) ∙ below (j % 64) (omega arith) l)
        | no l ↦ omega arith
      ]
      | no ne ↦ omega arith
    ]

    first :
        (o : Option ℕ)
        → IsLowest 0 64 (words i) o
        → (suc i * 64 ≤ j → (id : ℕ) × (find_from rounds (suc i) words ≡ some id) × (id ≤ j))
        → (id : ℕ) × (found_in i o (find_from rounds (suc i) words) ≡ some id) × (id ≤ j)
    first (some k) (from, end, is_set, below) later = (k + i * 64, refl, before k end below)
    first none q later = elim (ℕ_discrete (j / 64) i) [
      | yes same ↦ clash (sym (here same) ∙ q (j % 64) (omega arith) (omega arith))
      | no ne ↦ later (omega arith)
    ]

unallocated_free :
    (array : ℕ → Bits) (count limit masked i k : ℕ)
    → unallocated array count limit masked i k ≡ true
    → array i k ≡ false
unfolding unallocated
unallocated_free array count limit masked i k h = elim (Bool-cases (array i k)) [
  | inl e ↦ (let h' = rw e at h in clash (sym h'))
  | inr e ↦ e
]

free_in :
    (array : ℕ → Bits) (count limit masked id : ℕ)
    → find_from count 0 (unallocated array count limit masked) ≡ some id
    → id_bit array id ≡ false
free_in array count limit masked id h =
    unallocated_free array count limit masked (id / 64) (id % 64)
      (find_from_lem count 0 (unallocated array count limit masked) id h)

-- A free id that is found has no bit in the bitfields.
pub find_free_irq_id_lem :
    (c : Irq) (id : ℕ) → find_free_irq_id c ≡ some id → id_bit c.irq_bitfields id ≡ false
unfolding find_free_irq_id
find_free_irq_id_lem c id h =
    free_in c.irq_bitfields c.num_irq_bitfields c.max_irq_ids (sub_size c.num_irq_bitfields 1) id h

-- With a word more than the ids take, the mask is on none of their bits, and the search finds an id that is free.
pub find_free_irq_id_first :
    (c : Irq) (j : ℕ)
    → c.max_irq_ids + 64 ≤ c.num_irq_bitfields * 64
    → c.num_irq_bitfields < 2 ^ 64
    → j < c.max_irq_ids
    → id_bit c.irq_bitfields j ≡ false
    → (id : ℕ) × (find_free_irq_id c ≡ some id) × (id ≤ j)
unfolding find_free_irq_id unallocated
find_free_irq_id_first c j wide few low idle =
    find_from_first c.num_irq_bitfields 0
      (unallocated c.irq_bitfields c.num_irq_bitfields c.max_irq_ids
        (sub_size c.num_irq_bitfields 1))
      j (omega arith) (omega arith)
      (let unmasked : (j / 64 == sub_size c.num_irq_bitfields 1) ≡ false = ground arith in
        rw (idle, unmasked) refl)

pub find_free_ntfn_id_lem :
    (c : Irq) (id : ℕ) → find_free_ntfn_id c ≡ some id → id_bit c.ntfn_bitfields id ≡ false
unfolding find_free_ntfn_id
find_free_ntfn_id_lem c id h =
    free_in c.ntfn_bitfields c.num_ntfn_bitfields c.max_ntfn_ids (sub_size c.num_irq_bitfields 1) id
      h

-- A badge bit is one of the 64, usable and free.
pub find_free_ntfn_badge_index_lem :
    (t : NtfnEntry) (b : ℕ)
    → find_free_ntfn_badge_index t ≡ some b
    → (b < 64) × (t.usable_mask b ≡ true) × (t.status b ≡ false)
unfolding find_free_ntfn_badge_index
find_free_ntfn_badge_index_lem t b h = from (
    subst (IsLowest 0 64 (without t.usable_mask t.status)) h
      (lowest-IsLowest (without t.usable_mask t.status)))
  where
    from :
        IsLowest 0 64 (without t.usable_mask t.status) (some b)
        → (b < 64) × (t.usable_mask b ≡ true) × (t.status b ≡ false)
    from (low, high, set, below) =
        (high, usable (t.usable_mask b) (t.status b) set, free (t.usable_mask b) (t.status b) set)
      where
        usable : (u s : Bool) → (u && not s) ≡ true → u ≡ true
        usable true s e = refl
        usable false s e = e

        free : (u s : Bool) → (u && not s) ≡ true → s ≡ false
        free true true e = sym e
        free true false e = refl
        free false true e = sym e
        free false false e = refl
