-- ===== src/Sync/RecursiveMutex/Safety.antt =====
-- What the recursive mutex promises, in every state that any interleaving of any number of threads reaches.
use se_l4_libs.Prelude.{
  ℕ, zero, suc, ◌+◌, ◌≡◌, ◌≢◌, ◌≤◌, ◌<◌, refl, ap, subst, some, get_elem?, replicate, arith,
}
use mathlib.Core.Option.{some-injective, none-ne-some}
use se_l4_libs.Sync.Threads.{tally-replicate, tally-same}
use se_l4_libs.Sync.Notification.{Notification, NotificationLaws}
use se_l4_libs.Sync.RecursiveMutex.{
  Pc, outside, inside, crashed, uint_max, System, init, Reach, start, later,
}
use se_l4_libs.Sync.RecursiveMutex.Valid.{count, carries, Agrees, IsValid}
use se_l4_libs.Sync.RecursiveMutex.Step.{step-keeps}

get_elem?-replicate :
    {A : Type 0} (k i : ℕ) (a b : A) → get_elem? (replicate k a) i ≡ some b → a ≡ b
get_elem?-replicate zero i a b h = absurd (none-ne-some b h)
get_elem?-replicate (suc k) zero a b h = some-injective a b h
get_elem?-replicate (suc k) (suc i) a b h = get_elem?-replicate k i a b h

module _ (n : Notification) (laws : NotificationLaws n) where
  init-IsValid : (k : ℕ) (s : n.State) → IsValid n (init n k s)
  unfolding init
  init-IsValid k s =
      let is : count (n.pending (n.signal s)) ≡ 1 = ap count (laws.signal_pending s) in
      record {
        token = omega (arith, tally-replicate carries k outside refl);
        free = λ q. (refl, refl);
        small = omega arith;
        views = λ i p h.
            subst (λ (q : Pc). Agrees (i + 1) q (record { owner = 0; held = 0 }))
              (get_elem?-replicate k i outside p h) (λ e. omega arith);
      }

  -- Every reachable state satisfies the invariant: one token, and each thread's place agrees with `owner` and
  -- `held`.
  pub Reach-keeps : (x : System n) → Reach n x → IsValid n x
  Reach-keeps x (start k s) = init-IsValid k s
  Reach-keeps x (later {x = w} i again r e) = step-keeps n laws w x i again (Reach-keeps w r) e

  -- In every state that steps reach from `init`, at most one thread is inside the mutex: two threads that
  -- are inside are the same. Under the laws of the kernel's notifications.
  pub mutex_exclusion :
      (x : System n) (i j : ℕ)
      → Reach n x
      → get_elem? x.threads i ≡ some inside
      → get_elem? x.threads j ≡ some inside
      → i ≡ j
  mutex_exclusion x i j r h k =
      tally-same carries x.threads i j inside inside h k refl refl
        (omega (arith, (Reach-keeps x r).token))

  -- In a reachable state the thread inside is the `owner` and `held` is from 1 to `UINT_MAX`. Under the
  -- laws of the kernel's notifications.
  pub inside-owner :
      (x : System n) (i : ℕ)
      → Reach n x
      → get_elem? x.threads i ≡ some inside
      → (x.mutex.owner ≡ i + 1) × (0 < x.mutex.held) × (x.mutex.held ≤ uint_max)
  inside-owner x i r h =
      let valid = Reach-keeps x r in
      let view = valid.views i inside h in (view.0, view.1, valid.small)

  -- No `assert` of `lock` and `unlock` fails in a reachable state. Under the laws of the kernel's
  -- notifications.
  pub Reach-no_failure : (x : System n) (i : ℕ) → Reach n x → get_elem? x.threads i ≢ some crashed
  Reach-no_failure x i r h = (Reach-keeps x r).views i crashed h
