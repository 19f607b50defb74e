-- ===== src/Tests/Untyped.antt =====
-- Small twinkle allocators and object sizes.
use se_l4_libs.Prelude.{◌≡◌, ◌⊎◌, refl, arith, true, [], ◌∷◌, some}
use se_l4_libs.Prelude.Int.{pos}
use se_l4_libs.Objects.{
  ObjectType, vka_get_object_size, get_sel4_object_size, object_size-round_trip,
}
use se_l4_libs.Utspace.Twinkle.{
  Ut, Twinkle, round_up, fits, choose, first_fit, best, alloc, alloc_from, no_paddr,
}
use se_l4_libs.Utspace.Twinkle.Fit.{IsUt}
use se_l4_libs.Utspace.Twinkle.Alloc.{ChooseSpec, choose-ChooseSpec}
use se_l4_libs.Utspace.Twinkle.Effect.{Took, Refused, alloc-Took, alloc-served}
use se_l4_libs.Tests.Fixtures.{granting, x86_bits, path_at}

-- 100 bytes of 4096 are used
abbrev ut : Ut
ut = record { path = path_at 5; offset = 100; size_bits = 12 }

abbrev twinkle : Twinkle
twinkle = record { array = 4096; uts = ut ∷ [] }

ut-IsUt : IsUt ut
ut-IsUt = record { size = omega arith; within = omega arith }

fits-ut : fits ut 10 ≡ true
unfolding fits round_up
fits-ut = refl

-- A request that does not fit.
alloc-too_big :
    (alloc x86_bits granting 0 twinkle 12 ObjectType.untyped (path_at 9) no_paddr).error
    ≡ some (pos 1)
unfolding alloc alloc_from choose first_fit best fits round_up vka_get_object_size
    get_sel4_object_size
alloc-too_big = refl

choose-ChooseSpec_example : ChooseSpec (ut ∷ ut ∷ []) 10 (choose (ut ∷ ut ∷ []) 10)
choose-ChooseSpec_example = choose-ChooseSpec (ut ∷ ut ∷ []) 10

alloc-Took_example :
    Refused twinkle (alloc x86_bits granting 0 twinkle 10 ObjectType.untyped (path_at 9) no_paddr)
    ⊎ Took twinkle 10 (alloc x86_bits granting 0 twinkle 10 ObjectType.untyped (path_at 9) no_paddr)
alloc-Took_example =
    alloc-Took x86_bits granting 0 twinkle 10 ObjectType.untyped (path_at 9) (ut-IsUt, tt)
      (omega arith) no_paddr

alloc-served_example :
    (alloc x86_bits granting 0 twinkle 10 ObjectType.untyped (path_at 9) no_paddr).error
    ≡ some (pos 0)
unfolding vka_get_object_size get_sel4_object_size
alloc-served_example =
    alloc-served x86_bits granting 0 twinkle 10 ObjectType.untyped (path_at 9) 0 ut refl fits-ut
      (λ s c ty n p. refl) (λ e. omega arith) refl

object_size-round_trip_example :
    vka_get_object_size x86_bits ObjectType.cap_table (
      get_sel4_object_size x86_bits ObjectType.cap_table
        (vka_get_object_size x86_bits ObjectType.cap_table 8))
    ≡ vka_get_object_size x86_bits ObjectType.cap_table 8
object_size-round_trip_example =
    object_size-round_trip x86_bits ObjectType.cap_table 8 (omega arith) (omega arith)
