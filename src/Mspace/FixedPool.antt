-- ===== src/Mspace/FixedPool.antt =====
-- libsel4allocman/src/mspace/fixed_pool.c: the part of a fixed area that K&R malloc has not asked for yet.
use se_l4_libs.Prelude.{
  ℕ, ◌+◌, ◌*◌, ◌%◌, ◌^◌, ◌≡◌, ◌≤◌, ◌<◌, ◌↔◌, inl, inr, refl, Option, none, some, arith, ltb,
  if◌then◌else◌, Bool-cases, add_size, sub_size,
}

-- `sizeof(k_r_malloc_header_t)`
abbrev pub header_bytes : ℕ
header_bytes = 16

pub record FixedPool : Type 0 where
  pub pool_ptr : ℕ
  pub remaining : ℕ

-- `mspace_fixed_pool_create` from `config.pool` and `config.size`
unfoldable pub create : ℕ → ℕ → FixedPool
create pool size =
    let padding = pool % header_bytes in
    record { pool_ptr = add_size pool padding; remaining = sub_size size padding }

-- `_morecore`; `none` is NULL.
unfoldable pub morecore : FixedPool → ℕ → Option ℕ × FixedPool
morecore p new_units =
    let new_size = new_units * header_bytes % 2 ^ 64 in
    if ltb p.remaining new_size then (none, p) else (
      some p.pool_ptr,
      record { pool_ptr = add_size p.pool_ptr new_size; remaining = sub_size p.remaining new_size },
    )

-- The pool ends at `end`.
pub record IsPool (end : ℕ) (p : FixedPool) : Type 0 where
  pub ends : p.pool_ptr + p.remaining ≡ end
  pub small : end < 2 ^ 64

abbrev pub MorecoreSpec : ℕ → FixedPool → ℕ → Option ℕ × FixedPool → Type 0
MorecoreSpec end p units (none, q) = (q ≡ p) × (p.remaining < units * header_bytes)
MorecoreSpec end p units (some block, q) =
    (p.pool_ptr ≤ block)
    × (block + units * header_bytes ≤ q.pool_ptr)
    × (q.pool_ptr ≤ end)
    × IsPool end q

-- For a pool that ends below 2^64 and a request whose bytes fit a word, `_morecore` either gives a block
-- of that size out of what remains, wholly before the pool that is left, or gives NULL, leaves the pool
-- alone, and less remains.
pub morecore-MorecoreSpec :
    (end : ℕ) (p : FixedPool) (units : ℕ)
    → IsPool end p
    → units * header_bytes < 2 ^ 64
    → MorecoreSpec end p units (morecore p units)
unfolding morecore
morecore-MorecoreSpec end p units valid fits =
    elim (Bool-cases (ltb p.remaining (units * header_bytes % 2 ^ 64))) [
      | inl e ↦ rw e (refl, ground arith)
      | inr e ↦
          (let room : units * header_bytes ≤ p.remaining = ground arith in
            rw e (
              omega arith,
              omega (arith, valid.ends, valid.small),
              omega (arith, valid.ends, valid.small),
              record { ends = omega (arith, valid.ends, valid.small); small = valid.small },
            ))
    ]

-- The padding is added, not filled up: a pool below 2^63 is aligned to a header after `mspace_fixed_pool_create`
-- if and only if its address was a multiple of half a header.
pub create-aligned :
    (pool size : ℕ)
    → pool < 2 ^ 63
    → ((create pool size).pool_ptr % header_bytes ≡ 0) ↔ (pool % 8 ≡ 0)
unfolding create
create-aligned pool size small = (λ h. omega arith, λ h. omega arith)
