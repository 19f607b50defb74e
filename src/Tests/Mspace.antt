-- ===== src/Tests/Mspace.antt =====
-- A fixed pool of 4096 bytes.
use se_l4_libs.Prelude.{◌≡◌, refl, arith, none}
use se_l4_libs.Mspace.FixedPool.{
  FixedPool, create, morecore, IsPool, MorecoreSpec, morecore-MorecoreSpec,
}

abbrev pool : FixedPool
pool = record { pool_ptr = 8192; remaining = 4096 }

pool-IsPool : IsPool 12288 pool
pool-IsPool = record { ends = omega arith; small = omega arith }

morecore-too_much : morecore pool 257 ≡ (none, pool)
unfolding morecore
morecore-too_much = refl

create-unaligned : create 8196 4096 ≡ record { pool_ptr = 8200; remaining = 4092 }
unfolding create
create-unaligned = refl

morecore-MorecoreSpec_example : MorecoreSpec 12288 pool 3 (morecore pool 3)
morecore-MorecoreSpec_example = morecore-MorecoreSpec 12288 pool 3 pool-IsPool (omega arith)
