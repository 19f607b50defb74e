-- ===== src/Tests/Sync.antt =====
-- Two threads on a binary semaphore and on a recursive mutex.
use se_l4_libs.Prelude.{
  ℕ, ◌≡◌, ◌≢◌, ◌≤◌, ◌<◌, refl, arith, Bool, true, false, [], ◌∷◌, none, some, get_elem?,
}
use se_l4_libs.Prelude.Int.{ℤ, pos, negsuc}
use se_l4_libs.Sync.BinSem
use se_l4_libs.Sync.BinSem.{
  idle, waiting, holding, posting, signalling, bare_wait, bare_post, bare_post_check,
  bare_wait_return,
}
use se_l4_libs.Sync.BinSem.Valid.{IsValid}
use se_l4_libs.Sync.BinSem.Step.{step-IsValid}
use se_l4_libs.Sync.BinSem.Safety.{Reach-IsValid, mutual_exclusion, signal_unmerged, sleeper_steps}
use se_l4_libs.Sync.RecursiveMutex
use se_l4_libs.Sync.RecursiveMutex.{
  outside, blocked, woken, owning, inside, take, claim, lock, count_up,
}
use se_l4_libs.Sync.RecursiveMutex.Valid
use se_l4_libs.Sync.RecursiveMutex.Step.{step-keeps}
use se_l4_libs.Sync.RecursiveMutex.Safety.{
  Reach-keeps, mutex_exclusion, inside-owner, Reach-no_failure,
}
use se_l4_libs.Tests.Fixtures.{flag, flag-laws, counter, counter-laws}

abbrev Sem : Type 0
Sem = BinSem.System flag counter

abbrev Runs : Sem → Type 0
Runs = BinSem.Reach flag counter (pos 1)

abbrev sem : ℤ → Bool → BinSem.Pc → BinSem.Pc → Sem
sem v s p q = record { value = v; object = s; threads = p ∷ q ∷ [] }

at_start : Runs (sem (pos 1) false idle idle)
at_start = BinSem.start 2 false refl refl

first_holds : Runs (sem (pos 0) false holding idle)
unfolding BinSem.step bare_wait
first_holds = BinSem.later 0 at_start refl

second_waits : Runs (sem (negsuc 0) false holding waiting)
unfolding BinSem.step bare_wait
second_waits = BinSem.later 1 first_holds refl

first_posts : Runs (sem (pos 0) false (posting (pos 0)) waiting)
unfolding BinSem.step bare_post
first_posts = BinSem.later 0 second_waits refl

first_signals : Runs (sem (pos 0) false signalling waiting)
unfolding BinSem.step bare_post_check
first_signals = BinSem.later 0 first_posts refl

first_done : Runs (sem (pos 0) true idle waiting)
unfolding BinSem.step
first_done = BinSem.later 0 first_signals refl

one : pos 1 ≡ pos 1
one = refl

step-IsValid_example : IsValid flag counter 1 (sem (negsuc 0) false holding waiting)
unfolding BinSem.step bare_wait
step-IsValid_example =
    step-IsValid flag flag-laws counter counter-laws 1 (sem (pos 0) false holding idle)
      (sem (negsuc 0) false holding waiting) 1 (omega arith)
      (Reach-IsValid flag flag-laws counter counter-laws (pos 1) (sem (pos 0) false holding idle)
        first_holds)
      refl

Reach-IsValid_example : IsValid flag counter 1 (sem (pos 0) true idle waiting)
Reach-IsValid_example =
    Reach-IsValid flag flag-laws counter counter-laws (pos 1) (sem (pos 0) true idle waiting)
      first_done

mutual_exclusion_example : ◌≡◌ {A = ℕ} 0 0
mutual_exclusion_example =
    mutual_exclusion flag flag-laws counter counter-laws (pos 1)
      (sem (negsuc 0) false holding waiting) 0 0 second_waits refl refl

signal_unmerged_example : false ≡ false
signal_unmerged_example =
    signal_unmerged flag flag-laws counter counter-laws (pos 1)
      (sem (pos 0) false signalling waiting) 0 first_signals refl

sleeper_steps_example : BinSem.step flag counter (sem (pos 0) true idle waiting) 1 ≢ none
sleeper_steps_example =
    sleeper_steps flag flag-laws counter counter-laws (sem (pos 0) true idle waiting) 1 first_done
      (tt, (tt, tt)) refl

abbrev Mut : Type 0
Mut = RecursiveMutex.System flag

abbrev mutex : ℕ → ℕ → Bool → RecursiveMutex.Pc → RecursiveMutex.Pc → Mut
mutex owner held s p q = record {
  mutex = record { owner = owner; held = held };
  object = s;
  threads = p ∷ q ∷ [];
}

ready : RecursiveMutex.Reach flag (mutex 0 0 true outside outside)
unfolding RecursiveMutex.init
ready = RecursiveMutex.start 2 false

first_blocks : RecursiveMutex.Reach flag (mutex 0 0 true blocked outside)
unfolding RecursiveMutex.step lock
first_blocks = RecursiveMutex.later 0 true ready refl

first_woken : RecursiveMutex.Reach flag (mutex 0 0 false woken outside)
unfolding RecursiveMutex.step
first_woken = RecursiveMutex.later 0 true first_blocks refl

first_owns : RecursiveMutex.Reach flag (mutex 1 0 false owning outside)
unfolding RecursiveMutex.step take
first_owns = RecursiveMutex.later 0 true first_woken refl

first_inside : RecursiveMutex.Reach flag (mutex 1 1 false inside outside)
unfolding RecursiveMutex.step claim count_up
first_inside = RecursiveMutex.later 0 true first_owns refl

first_again : RecursiveMutex.Reach flag (mutex 1 2 false inside outside)
unfolding RecursiveMutex.step lock count_up
first_again = RecursiveMutex.later 0 true first_inside refl

step-keeps_example : Valid.IsValid flag (mutex 1 2 false inside outside)
unfolding RecursiveMutex.step lock count_up
step-keeps_example =
    step-keeps flag flag-laws (mutex 1 1 false inside outside) (mutex 1 2 false inside outside) 0
      true (Reach-keeps flag flag-laws (mutex 1 1 false inside outside) first_inside) refl

Reach-keeps_example : Valid.IsValid flag (mutex 1 2 false inside outside)
Reach-keeps_example = Reach-keeps flag flag-laws (mutex 1 2 false inside outside) first_again

mutex_exclusion_example : ◌≡◌ {A = ℕ} 0 0
mutex_exclusion_example =
    mutex_exclusion flag flag-laws (mutex 1 2 false inside outside) 0 0 first_again refl refl

inside-owner_example : (◌≡◌ {A = ℕ} 1 1) × (0 < 2) × (2 ≤ 4294967295)
inside-owner_example =
    inside-owner flag flag-laws (mutex 1 2 false inside outside) 0 first_again refl

Reach-no_failure_example : get_elem? (woken ∷ outside ∷ []) 0 ≢ some RecursiveMutex.crashed
Reach-no_failure_example =
    Reach-no_failure flag flag-laws (mutex 0 0 false woken outside) 0 first_woken
