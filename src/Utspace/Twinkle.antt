-- ===== src/Utspace/Twinkle.antt =====
-- libsel4allocman/src/utspace/twinkle.c: untypeds that are used up from the front. `array` is the address
-- of the array, 0 before the first untypeds are added, and `uts` its first `num_uts` entries.
pub mod Fit
pub mod Alloc
pub mod Effect
use se_l4_libs.Prelude.{
  ℕ, zero, suc, ◌+◌, ◌-◌, ◌*◌, ◌%◌, ◌^◌, ◌≡◌, Bool, not, ◌&&◌, ◌||◌, Option, none, some, List, [],
  ◌∷◌, ◌++◌, ◌==◌, leb, ltb, if◌then◌else◌, set, length, add_size, sub_size,
}
use se_l4_libs.Prelude.Int.{ℤ, pos, negsuc, nonzero}
use se_l4_libs.Cspace.Path.{CspacePath}
use se_l4_libs.Cspace.Mspace.{Mspace}
use se_l4_libs.Kernel.{Kernel}
use se_l4_libs.Objects.{ObjectType, ObjectBits, vka_get_object_size, get_sel4_object_size}

pub record Ut : Type 0 where
  pub path : CspacePath
  pub offset : ℕ
  pub size_bits : ℕ

pub record Twinkle : Type 0 where
  pub array : ℕ
  pub uts : List Ut

-- `_round_up`, with `MASK(bits)` as the remainder by `BIT(bits)`
unfoldable pub round_up : ℕ → ℕ → ℕ
round_up v bits = if v % 2 ^ bits == 0 then v else add_size (v - v % 2 ^ bits) (2 ^ bits)

unfoldable pub create : Twinkle
create = record { array = 0; uts = [] }

-- `sizeof(struct utspace_twinkle_ut)`
abbrev pub ut_bytes : ℕ
ut_bytes = 72

abbrev pub ut_kernel : ℕ
ut_kernel = 0

-- One new entry for each untyped given.
abbrev pub new_entries : List (CspacePath × ℕ) → List Ut
new_entries [] = []
new_entries ((path, size_bits) ∷ rest) =
    record { path = path; offset = 0; size_bits = size_bits } ∷ new_entries rest

module _ (m : Mspace) where
  open m use {State, alloc as mspace_alloc, free as mspace_free}

  unfoldable pub add_uts : State → Twinkle → List (CspacePath × ℕ) → ℕ → ℤ × Twinkle × State
  add_uts st t uts ut_type =
      if not (ut_type == ut_kernel)
      then (negsuc 0, t, st)
      else let (error, new_uts, st') = mspace_alloc st (ut_bytes * (length uts + length t.uts)) in
        let released =
          if t.array == 0 then st' else mspace_free st' t.array (ut_bytes * length t.uts) in
        if nonzero error
        then (error, t, st')
        else (pos 0, record { array = new_uts; uts = t.uts ++ new_entries uts }, released)

-- The test that an object of `2 ^ bits` bytes fits behind what is used of an untyped.
unfoldable pub fits : Ut → ℕ → Bool
fits u bits = leb (add_size (round_up u.offset bits) (2 ^ bits)) (2 ^ u.size_bits)

-- The bytes that alignment skips.
unfoldable pub waste : Ut → ℕ → ℕ
waste u bits = sub_size (round_up u.offset bits) u.offset

-- The first loop: the first untyped that fits, its index, and the array from it on.
unfoldable pub first_fit : List Ut → ℕ → ℕ → Option (ℕ × Ut × List Ut)
first_fit [] bits i = none
first_fit (u ∷ us) bits i = if fits u bits then some (i, u, u ∷ us) else first_fit us bits (i + 1)

-- The second loop, at index `j` with the choice `i`, which holds `u`: over the untypeds of the same size
-- that follow.
unfoldable pub best : List Ut → ℕ → ℕ → ℕ → Ut → ℕ × Ut
best [] bits j i u = (i, u)
best (v ∷ vs) bits j i u =
    let better = fits v bits && ltb (waste v bits) (waste u bits) in
    let rest = best vs bits (j + 1) (if better then j else i) (if better then v else u) in
    if u.size_bits == v.size_bits then rest else (i, u)

unfoldable pub choose : List Ut → ℕ → Option (ℕ × Ut)
unfolding first_fit best
choose uts bits = elim (first_fit uts bits 0) [
  | none ↦ none
  | some (i, u, rest) ↦ some (best rest bits i i u)
]

-- What a call leaves behind: the cookie returned, `*error` if it was written, and the states.
pub record Result (K : Type 0) : Type 0 where
  pub cookie : ℕ
  pub error : Option ℤ
  pub twinkle : Twinkle
  pub kernel : K

abbrev pub no_paddr : ℕ
no_paddr = 1

-- `uts[i].offset = _round_up(uts[i].offset, size_bits) + BIT(size_bits)`
abbrev pub used : Ut → ℕ → Ut
used u bits = record u { offset = add_size (round_up u.offset bits) (2 ^ bits) }

module _ (b : ObjectBits) (k : Kernel) where
  open k use {State, retype}

  abbrev pub failed : State → Twinkle → Result State
  failed st t = record { cookie = 0; error = some (pos 1); twinkle = t; kernel = st }

  unfoldable pub alloc_from :
      State → Twinkle → ℕ → ObjectType → CspacePath → Option (ℕ × Ut) → Result State
  alloc_from st t size_bits type slot none = failed st t
  alloc_from st t size_bits type slot (some (i, u)) =
      let sel4_size_bits = get_sel4_object_size b type size_bits in
      let (error, st') = retype st u.path.cap_ptr type sel4_size_bits slot in
      if nonzero error then failed st' t else record {
        cookie = 0;
        error = some (pos 0);
        twinkle = record t { uts = set t.uts i (used u size_bits) };
        kernel = st';
      }

  unfoldable pub alloc : State → Twinkle → ℕ → ObjectType → CspacePath → ℕ → Result State
  unfolding alloc_from choose
  alloc st t size_bits type slot paddr =
      if not (paddr == no_paddr)
      then record { cookie = 2 ^ 64 - 1; error = none; twinkle = t; kernel = st }
      else if not (size_bits == vka_get_object_size b type (get_sel4_object_size b type size_bits))
          || (size_bits == 0)
      then failed st t
      else alloc_from st t size_bits type slot (choose t.uts size_bits)
