-- ===== src/Allocman/Calling.antt =====
-- Sequences of calls of the manager of libsel4allocman/src/allocman.c.
use se_l4_libs.Prelude.{ℕ, ◌≡◌, Bool, true, Option, none, some, List, [], ◌∷◌}
use se_l4_libs.Cspace.Path.{CspacePath}
use se_l4_libs.Allocman.Defs.{Allocman, Act, Allocators, done, next}
use se_l4_libs.Allocman.Ops.{
  cspace_free, mspace_free, utspace_free, mspace_alloc_with, cspace_alloc_with, utspace_alloc_with,
}
use se_l4_libs.Allocman.Refill.{refill_watermark, fill_reserves}
use se_l4_libs.Allocman.Kept.{
  IsBounded, IsStep, IsStep-IsOrder, Good, Keeps, Keeps-done, Keeps-modify, Keeps-next,
}
use se_l4_libs.Allocman.Calls.{IsTame, flags-IsStep}
use se_l4_libs.Allocman.Safe.{
  start_operation-Keeps, end_operation-Keeps, cspace_free-Keeps, mspace_free-Keeps,
  utspace_free-Keeps,
}
use se_l4_libs.Allocman.Reserve.{
  mspace_alloc_with-Keeps, cspace_alloc_with-Keeps, utspace_alloc_with-Keeps,
}
use se_l4_libs.Allocman.Bounded.{refill_watermark-Keeps}

-- The calls of the header allocman.h, with their arguments.
pub data Call : Type 0 where
  mspace_allocating : ℕ → Call
  mspace_freeing : ℕ → ℕ → Call
  cspace_allocating : CspacePath → Call
  cspace_freeing : CspacePath → Call
  utspace_allocating : ℕ → ℕ → CspacePath → ℕ → Bool → Call
  utspace_freeing : ℕ → ℕ → Call
  filling : Call

module _ (b : Allocators) where
  open b use {State}

  abbrev pub ignore : {A : Type 0} → Act State A → Act State (Unit {0})
  ignore m = next m (λ x. done tt)

  -- `bound` bounds the rounds of the loops over the queues.
  unfoldable pub call : ℕ → Call → Act State (Unit {0})
  call bound (mspace_allocating size) =
      ignore (mspace_alloc_with b (refill_watermark b bound) true size)
  call bound (mspace_freeing ptr bytes) = mspace_free b (refill_watermark b bound) ptr bytes
  call bound (cspace_allocating empty) =
      ignore (cspace_alloc_with b (refill_watermark b bound) true empty)
  call bound (cspace_freeing slot) = cspace_free b (refill_watermark b bound) slot
  call bound (utspace_allocating size_bits ut_type path paddr can_be_dev) =
      ignore (
        utspace_alloc_with b (refill_watermark b bound) true size_bits ut_type path paddr
          can_be_dev)
  call bound (utspace_freeing cookie size_bits) =
      utspace_free b (refill_watermark b bound) cookie size_bits
  call bound filling = ignore (fill_reserves b bound)

  unfoldable pub calls : ℕ → List Call → Act State (Unit {0})
  unfolding call
  calls bound [] = done tt
  calls bound (x ∷ xs) = next (call bound x) (λ u. calls bound xs)

  module _ (tame : IsTame b) (bound : ℕ) where
    refills : Keeps IsStep (refill_watermark b bound)
    refills = refill_watermark-Keeps b tame bound

    ignore-Keeps : {A : Type 0} {m : Act State A} → Keeps IsStep m → Keeps IsStep (ignore m)
    ignore-Keeps h = Keeps-next IsStep-IsOrder h (λ x. Keeps-done IsStep-IsOrder tt)

    fill_reserves-Keeps : Keeps IsStep (fill_reserves b bound)
    unfolding fill_reserves
    fill_reserves-Keeps =
        Keeps-next IsStep-IsOrder (start_operation-Keeps b tame (refill_watermark b bound) refills)
          (λ root.
            Keeps-next IsStep-IsOrder
              (Keeps-modify IsStep-IsOrder (λ a. flags-IsStep a a.in_operation true))
              (λ u. Keeps-next IsStep-IsOrder refills (λ full.
                Keeps-next IsStep-IsOrder
                  (end_operation-Keeps b tame (refill_watermark b bound) refills root)
                  (λ v. Keeps-done IsStep-IsOrder full))))

    call-Keeps : (x : Call) → Keeps IsStep (call bound x)
    unfolding call
    call-Keeps (mspace_allocating size) =
        ignore-Keeps (mspace_alloc_with-Keeps b tame (refill_watermark b bound) refills true size)
    call-Keeps (mspace_freeing ptr bytes) =
        mspace_free-Keeps b tame (refill_watermark b bound) refills ptr bytes
    call-Keeps (cspace_allocating empty) =
        ignore-Keeps (cspace_alloc_with-Keeps b tame (refill_watermark b bound) refills true empty)
    call-Keeps (cspace_freeing slot) =
        cspace_free-Keeps b tame (refill_watermark b bound) refills slot
    call-Keeps (utspace_allocating size_bits ut_type path paddr can_be_dev) = ignore-Keeps (
        utspace_alloc_with-Keeps b tame (refill_watermark b bound) refills true size_bits ut_type
          path paddr can_be_dev)
    call-Keeps (utspace_freeing cookie size_bits) =
        utspace_free-Keeps b tame (refill_watermark b bound) refills cookie size_bits
    call-Keeps filling = ignore-Keeps fill_reserves-Keeps

    -- The manager's calls are again steps of the kind that the allocators may make.
    pub calls-Keeps : (xs : List Call) → Keeps IsStep (calls bound xs)
    unfolding calls
    calls-Keeps [] = Keeps-done IsStep-IsOrder tt
    calls-Keeps (x ∷ xs) = Keeps-next IsStep-IsOrder (call-Keeps x) (λ u. calls-Keeps xs)

    -- The reserves and the queues fit into their arrays, and no allocator is left entered.
    abbrev pub IsIntact : Allocman → Allocman → Type 0
    IsIntact a a' = IsBounded a' × (a'.depths ≡ a.depths) × (a'.config ≡ a.config)

    -- When the allocators change the manager only by steps as its own calls are, any list of calls that comes to its
    -- end, begun where the reserves and the queues fit into their arrays, leaves them within their arrays, with the
    -- depths of re-entry and the configuration as before, although filling a reserve may use the reserves.
    pub calls-IsIntact :
        (xs : List Call) (a : Allocman) (s : State)
        → IsBounded a
        → Good IsIntact a (calls bound xs (a, s))
    calls-IsIntact xs a s h = intact (calls bound xs (a, s)) ((calls-Keeps xs).keeps a s)
      where
        intact : (o : Option (Unit {0} × Allocman × State)) → Good IsStep a o → Good IsIntact a o
        intact none g = tt
        intact (some (x, a', s')) g = (g.kept.bounded h, g.kept.same_depths h, g.kept.same_config)
