-- ===== src/Sync/Notification.antt =====
-- The kernel's notification objects (`seL4_Signal`, `seL4_Wait`) and the atomic integers of libplatsupport
-- (`sync_atomic_decrement_safe`, `sync_atomic_increment`), neither of them code of this repository.
use se_l4_libs.Prelude.{◌≡◌, ◌≢◌, Bool, true, false, Option, none, some}
use se_l4_libs.Prelude.Int.{ℤ, incr, decr}

-- `wait` is `none` while the caller blocks; `pending` is whether a signal is there to be taken.
pub record Notification : Type 1 where
  pub State : Type 0
  pub pending : State → Bool
  pub signal : State → State
  pub wait : State → Option State

-- The documented behaviour: a signal stays pending, signals merge, a wait takes the pending one or blocks.
pub record NotificationLaws (n : Notification) : Type 0 where
  pub signal_pending : (s : n.State) → n.pending (n.signal s) ≡ true
  pub wait_ready : (s : n.State) → n.pending s ≡ true → n.wait s ≢ none
  pub wait_was : (s t : n.State) → n.wait s ≡ some t → n.pending s ≡ true
  pub wait_takes : (s t : n.State) → n.wait s ≡ some t → n.pending t ≡ false

-- `decrement_safe v` is `none` when it fails, otherwise the old value and the new content; `increment v` is the
-- returned value and the new content.
pub record Atomics : Type 0 where
  pub decrement_safe : ℤ → Option (ℤ × ℤ)
  pub increment : ℤ → ℤ × ℤ

pub record AtomicsLaws (a : Atomics) : Type 0 where
  pub decrement_old : (v old new : ℤ) → a.decrement_safe v ≡ some (old, new) → old ≡ v
  pub decrement_new : (v old new : ℤ) → a.decrement_safe v ≡ some (old, new) → new ≡ decr v
  pub increment_result : (v : ℤ) → (a.increment v).0 ≡ incr v
  pub increment_new : (v : ℤ) → (a.increment v).1 ≡ incr v
