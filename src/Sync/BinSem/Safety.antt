-- ===== src/Sync/BinSem/Safety.antt =====
-- What the binary semaphore promises, in every state that any interleaving of any number of threads reaches.
use se_l4_libs.Prelude.{
  ℕ, ◌≡◌, ◌≢◌, ◌≤◌, refl, sym, Bool, true, false, Option, none, some, get_elem?, arith, All, ◌⊎◌,
  inl, inr,
}
use mathlib.Core.Option.{none-ne-some}
use se_l4_libs.Prelude.Int.{ℤ, pos, negsuc, pos_part, neg_part}
use se_l4_libs.Sync.Threads.{tally-one, tally-same, tally-All}
use se_l4_libs.Sync.Notification.{Notification, NotificationLaws, Atomics, AtomicsLaws}
use se_l4_libs.Sync.BinSem.{
  Pc, idle, waiting, holding, posting, signalling, crashed, System, bare_wait_return, step, place,
  woken, Reach, start, later,
}
use se_l4_libs.Sync.BinSem.Valid.{
  count, is_waiter, is_holder, is_waker, is_crash, IsValid, start-IsValid, init-small,
}
use se_l4_libs.Sync.BinSem.Step.{step-IsValid}

-- A thread that is not in a call of the semaphore, or sleeps in one.
abbrev pub IsQuiet : Pc → Type 0
IsQuiet idle = Unit
IsQuiet waiting = Unit
IsQuiet holding = ⊥
IsQuiet (posting v) = ⊥
IsQuiet signalling = ⊥
IsQuiet crashed = ⊥

quiet-holder : (p : Pc) → IsQuiet p → is_holder p ≡ 0
quiet-holder idle h = refl
quiet-holder waiting h = refl
quiet-holder holding h = absurd h
quiet-holder (posting v) h = absurd h
quiet-holder signalling h = absurd h
quiet-holder crashed h = absurd h

quiet-waker : (p : Pc) → IsQuiet p → is_waker p ≡ 0
quiet-waker idle h = refl
quiet-waker waiting h = refl
quiet-waker holding h = absurd h
quiet-waker (posting v) h = absurd h
quiet-waker signalling h = absurd h
quiet-waker crashed h = absurd h

one_part : (v : ℤ) → neg_part v ≡ 0 ⊎ pos_part v ≡ 0
one_part (pos k) = inl refl
one_part (negsuc k) = inr refl

counted : (b : Bool) → count b ≡ 1 → b ≡ true
counted true h = refl
counted false h = absurd (omega arith)

uncounted : (b : Bool) → count b ≡ 0 → b ≡ false
uncounted false h = refl
uncounted true h = absurd (omega arith)

module _ (n : Notification) (laws : NotificationLaws n) (a : Atomics) (atomic : AtomicsLaws a) where
  Reach-small : (v : ℤ) (x : System n a) → Reach n a v x → pos_part v ≤ 1
  Reach-small v x (start k s ok quiet) = init-small n a v ok
  Reach-small v x (later {x = w} i r e) = Reach-small v w r

  -- Every reachable state satisfies the invariant, with one permit or none as the semaphore was initialised.
  pub Reach-IsValid : (v : ℤ) (x : System n a) → Reach n a v x → IsValid n a (pos_part v) x
  Reach-IsValid v x (start k s ok quiet) = start-IsValid n a k v s ok quiet
  Reach-IsValid v x (later {x = w} i r e) =
      step-IsValid n laws a atomic (pos_part v) w x i (Reach-small v w r) (Reach-IsValid v w r) e

  -- In every state that steps reach from idle threads and a semaphore that `init` accepted, at most one
  -- thread holds the semaphore: two threads that hold it are the same. Under the laws of the kernel's
  -- notifications and of the atomic integers.
  pub mutual_exclusion :
      (v : ℤ) (x : System n a) (i j : ℕ)
      → Reach n a v x
      → get_elem? x.threads i ≡ some holding
      → get_elem? x.threads j ≡ some holding
      → i ≡ j
  mutual_exclusion v x i j r h k =
      tally-same is_holder x.threads i j holding holding h k refl refl
        (omega (arith, (Reach-IsValid v x r).shared, Reach-small v x r))

  -- No `assert` of `sync_bin_sem_bare_post` fails in a reachable state. Under the laws of the kernel's
  -- notifications and of the atomic integers.
  pub Reach-no_crash :
      (v : ℤ) (x : System n a) (i : ℕ) → Reach n a v x → get_elem? x.threads i ≢ some crashed
  Reach-no_crash v x i r h =
      omega (arith, (Reach-IsValid v x r).intact, tally-one is_crash x.threads i crashed h)

  -- A thread of a reachable state that is about to signal finds no signal pending, so that none merges
  -- with another and is lost. Under the laws of the kernel's notifications and of the atomic integers.
  pub signal_unmerged :
      (v : ℤ) (x : System n a) (i : ℕ)
      → Reach n a v x
      → get_elem? x.threads i ≡ some signalling
      → n.pending x.object ≡ false
  signal_unmerged v x i r h = uncounted (n.pending x.object) (
      omega (
        arith,
        (Reach-IsValid v x r).shared,
        Reach-small v x r,
        tally-one is_waker x.threads i signalling h,
      ))

  placed_waiting :
      (x : System n a) (i : ℕ) (o : Option n.State)
      → o ≢ none
      → place n a x i (woken n a o x.value) ≢ none
  placed_waiting x i none ready = absurd (ready refl)
  placed_waiting x i (some t) ready = λ e. none-ne-some _ (sym e)

  step_waiting :
      (x : System n a) (i : ℕ)
      → get_elem? x.threads i ≡ some waiting
      → n.wait x.object ≢ none
      → step n a x i ≢ none
  unfolding step bare_wait_return
  step_waiting x i h ready = rw h (placed_waiting x i (n.wait x.object) ready)

  -- No wake-up is lost: in a reachable state of a semaphore that started at 1, where every thread is
  -- outside or asleep, a sleeping thread is not blocked and can take its next step. Under the laws of the
  -- kernel's notifications and of the atomic integers.
  pub sleeper_steps :
      (x : System n a) (i : ℕ)
      → Reach n a (pos 1) x
      → All IsQuiet x.threads
      → get_elem? x.threads i ≡ some waiting
      → step n a x i ≢ none
  sleeper_steps x i r quiet h =
      let valid = Reach-IsValid (pos 1) x r in
      let none_holds = tally-All is_holder IsQuiet x.threads quiet-holder quiet in
      let none_wakes = tally-All is_waker IsQuiet x.threads quiet-waker quiet in
      let one_waits = tally-one is_waiter x.threads i waiting h in
      let one : count (n.pending x.object) ≡ 1 = elim (one_part x.value) [
        | inl e ↦ omega (arith, valid.queued, valid.shared)
        | inr e ↦ omega (arith, valid.queued, valid.shared)
      ] in
      step_waiting x i h (laws.wait_ready x.object (counted (n.pending x.object) one))
