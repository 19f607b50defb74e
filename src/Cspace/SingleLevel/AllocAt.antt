-- ===== src/Cspace/SingleLevel/AllocAt.antt =====
-- `_cspace_single_level_alloc_at` and `_cspace_single_level_free`.
use se_l4_libs.Prelude.{
  ℕ, add_size, ◌+◌, ◌*◌, ◌/◌, ◌^◌, ◌≤◌, ◌<◌, ◌≡◌, refl, ◌∙◌, subst, inl, inr, true, false, arith,
  ◌==◌, leb, if◌then◌else◌, Bool-cases, dec_lt,
}
use se_l4_libs.Prelude.Int.{pos}
use se_l4_libs.Prelude.Outcome.{Outcome, ok, err, abort}
use se_l4_libs.Cspace.Path.{CspacePath}
use se_l4_libs.Cspace.SingleLevel.{SingleLevel, index_bit, slot_index, alloc, alloc_at, free}
use se_l4_libs.Cspace.SingleLevel.Valid.{
  IsValid, is_free, clear_index, set_index, is_free-clear, is_free-set, is_free-index,
  clear-IsValid, set-IsValid,
}
use se_l4_libs.Cspace.SingleLevel.Alloc.{AllocSpec, alloc-AllocSpec}

-- The slots whose bit lies in the words that `bitmap_length` counts.
abbrev pub InRange : SingleLevel → ℕ → Type 0
InRange c slot = (c.config.first_slot ≤ slot) × (slot < c.config.first_slot + c.bitmap_length * 64)

module _ {c : SingleLevel} (valid : IsValid c) (slot : ℕ) (range : InRange c slot) where
  index_inside : slot_index c slot < c.bitmap_length * 64
  index_inside = omega (arith, valid.no_wrap)

  slot-index : add_size c.config.first_slot (slot_index c slot) ≡ slot
  slot-index = omega (arith, valid.no_wrap)

  pub is_free-slot : is_free c slot ≡ index_bit c (slot_index c slot)
  is_free-slot = rw slot-index at (is_free-index valid (slot_index c slot) index_inside)

  pub is_free-clear_slot :
      (s : ℕ)
      → is_free (clear_index c (slot_index c slot)) s ≡ (if s == slot then false else is_free c s)
  is_free-clear_slot s = rw slot-index at (is_free-clear valid (slot_index c slot) index_inside s)

  pub is_free-set_slot :
      (s : ℕ)
      → is_free (set_index c (slot_index c slot)) s ≡ (if s == slot then true else is_free c s)
  is_free-set_slot s = rw slot-index at (is_free-set valid (slot_index c slot) index_inside s)

  pub clear_slot-IsValid : IsValid (clear_index c (slot_index c slot))
  clear_slot-IsValid = clear-IsValid valid (slot_index c slot) index_inside

  pub set_slot-IsValid : IsValid (set_index c (slot_index c slot))
  set_slot-IsValid = set-IsValid valid (slot_index c slot) index_inside

abbrev pub AllocAtSpec : SingleLevel → ℕ → Outcome SingleLevel → Type 0
AllocAtSpec c slot (ok c') =
    (is_free c slot ≡ true)
    × ((s : ℕ) → is_free c' s ≡ (if s == slot then false else is_free c s))
    × IsValid c'
AllocAtSpec c slot (err e) = (e ≡ pos 1) × (is_free c slot ≡ false)
AllocAtSpec c slot abort = ⊥

outside :
    {c : SingleLevel}
    → IsValid c
    → (slot : ℕ) → slot < 2 ^ 64
    → c.bitmap_length ≤ slot_index c slot / 64
    → is_free c slot ≡ false
outside valid slot word out = ground (arith, valid.no_wrap)

in_range :
    {c : SingleLevel}
    → IsValid c
    → (slot : ℕ) → slot < 2 ^ 64
    → slot_index c slot / 64 < c.bitmap_length
    → InRange c slot
in_range valid slot word h = omega (arith, valid.no_wrap)

-- In a valid bitmap a given slot below 2^64 is taken exactly when it is free, and no other slot changes;
-- else the call fails with error 1.
pub alloc_at-AllocAtSpec :
    {c : SingleLevel}
    → IsValid c
    → (slot : ℕ) → slot < 2 ^ 64
    → AllocAtSpec c slot (alloc_at c slot)
unfolding alloc_at
alloc_at-AllocAtSpec {c} valid slot small = elim (dec_lt (slot_index c slot / 64) c.bitmap_length) [
  | yes h ↦
      let range : InRange c slot = in_range valid slot small h in
      let inside : leb c.bitmap_length (slot_index c slot / 64) ≡ false = ground arith in
      elim (Bool-cases (index_bit c (slot_index c slot))) [
        | inl set ↦
            rw (inside, set)
              (
                is_free-slot valid slot range ∙ set,
                is_free-clear_slot valid slot range,
                clear_slot-IsValid valid slot range,
              )
        | inr clear ↦ rw (inside, clear) (refl, is_free-slot valid slot range ∙ clear)
      ]
  | no h ↦
      let beyond : leb c.bitmap_length (slot_index c slot / 64) ≡ true = ground arith in
      rw beyond (refl, outside valid slot small (omega arith))
]

abbrev pub FreeSpec : SingleLevel → ℕ → Outcome SingleLevel → Type 0
FreeSpec c slot (ok c') =
    (is_free c slot ≡ false)
    × ((s : ℕ) → is_free c' s ≡ (if s == slot then true else is_free c s))
    × IsValid c'
FreeSpec c slot (err e) = ⊥
FreeSpec c slot abort = is_free c slot ≡ true

-- In a valid bitmap, giving a slot in range back makes it free and changes no other; a slot that is
-- already free fails the assertion.
pub free-FreeSpec :
    {c : SingleLevel}
    → IsValid c
    → (p : CspacePath) → InRange c p.cap_ptr
    → FreeSpec c p.cap_ptr (free c p)
unfolding free
free-FreeSpec {c} valid p range = elim (Bool-cases (index_bit c (slot_index c p.cap_ptr))) [
  | inl set ↦ rw set (is_free-slot valid p.cap_ptr range ∙ set)
  | inr clear ↦ rw clear (
    is_free-slot valid p.cap_ptr range ∙ clear,
    is_free-set_slot valid p.cap_ptr range,
    set_slot-IsValid valid p.cap_ptr range,
  )
]

pub free_range : (c : SingleLevel) (s : ℕ) → is_free c s ≡ true → InRange c s
free_range c s h = (ground arith, ground arith)

refree :
    (c : SingleLevel) {c' : SingleLevel} {p : CspacePath}
    → AllocSpec c (ok (p, c'))
    → (o : Outcome SingleLevel) → FreeSpec c' p.cap_ptr o
    → (c'' : SingleLevel) × (o ≡ ok c'') × ((s : ℕ) → is_free c'' s ≡ is_free c s)
refree c {c'} {p} (path, was, taken, kept, same, size) (ok c'') (unused, back, valid) =
    (c'', refl, λ s. ground (arith, back s, taken s))
refree c (path, was, taken, kept, same, size) (err e) f = absurd f
refree c {p} (path, was, taken, kept, same, size) abort set = ground (arith, taken p.cap_ptr)

-- A slot that has just been allocated from a valid bitmap can be given back, and then the same slots are
-- free as before.
pub free-alloc :
    {c c' : SingleLevel} {p : CspacePath}
    → IsValid c
    → alloc c ≡ ok (p, c')
    → (c'' : SingleLevel) × (free c' p ≡ ok c'') × ((s : ℕ) → is_free c'' s ≡ is_free c s)
free-alloc {c} {c'} {p} valid e =
    let spec = subst (AllocSpec c) e (alloc-AllocSpec valid) in
    let range : InRange c' p.cap_ptr = rw (spec.4, spec.5) (free_range c p.cap_ptr spec.1) in
    refree c spec (free c' p) (free-FreeSpec spec.3 p range)
