-- ===== src/Sync/BinSem.antt =====
-- libsel4sync/include/sync/bin_sem_bare.h and the checks of bin_sem.h: any number of threads that wait on and
-- post one binary semaphore, cut where they touch what they share. A thread posts only what it holds. The
-- fence is not in the model, whose steps are one after another.
use se_l4_libs.Prelude.{
  ℕ, zero, suc, ◌+◌, ◌≡◌, Bool, true, false, not, ◌&&◌, if◌then◌else◌, List, Option, none, some,
  get_elem?, set, replicate,
}
use se_l4_libs.Prelude.Int.{ℤ, pos, negsuc, leb_zero, decr}
use se_l4_libs.Sync.Notification.{Notification, Atomics}
pub mod Valid
pub mod Step
pub mod Safety

-- `waiting` is blocked in `seL4_Wait`; `posting val` has incremented and is before the `assert`; `signalling`
-- is before `seL4_Signal`; `crashed` is a failed `assert`.
pub data Pc : Type 0 where
  idle : Pc
  waiting : Pc
  holding : Pc
  posting : ℤ → Pc
  signalling : Pc
  crashed : Pc

-- `*value <= 1`
abbrev pub leb_one : ℤ → Bool
leb_one v = leb_zero (decr v)

module _ (n : Notification) (a : Atomics) where
  pub record System : Type 0 where
    pub value : ℤ
    pub object : n.State
    pub threads : List Pc

  abbrev pub Move : Type 0
  Move = Pc × ℤ × n.State

  -- `sync_bin_sem_bare_wait` up to `seL4_Wait`, by the result of the decrement; a failed one returns -1.
  abbrev pub decremented : Option (ℤ × ℤ) → ℤ → n.State → Move
  decremented none v s = (idle, v, s)
  decremented (some (old, new)) v s = if leb_zero old then (waiting, new, s) else (holding, new, s)

  unfoldable pub bare_wait : ℤ → n.State → Move
  bare_wait v s = decremented (a.decrement_safe v) v s

  -- The return of `seL4_Wait`.
  abbrev pub woken : Option n.State → ℤ → Option Move
  woken none v = none
  woken (some t) v = some (holding, v, t)

  unfoldable pub bare_wait_return : ℤ → n.State → Option Move
  bare_wait_return v s = woken (n.wait s) v

  -- `sync_bin_sem_bare_post`: the increment, then the `assert` on a value read again, then the signal.
  unfoldable pub bare_post : ℤ → n.State → Move
  bare_post v s = (posting (a.increment v).0, (a.increment v).1, s)

  unfoldable pub bare_post_check : ℤ → ℤ → n.State → Move
  bare_post_check val v s =
      if leb_one v
      then (if leb_zero val then (signalling, v, s) else (idle, v, s))
      else (crashed, v, s)

  abbrev pub advance : Pc → ℤ → n.State → Option Move
  advance idle v s = some (bare_wait v s)
  advance waiting v s = bare_wait_return v s
  advance holding v s = some (bare_post v s)
  advance (posting val) v s = some (bare_post_check val v s)
  advance signalling v s = some (idle, v, n.signal s)
  advance crashed v s = none

  abbrev pub place : System → ℕ → Option Move → Option System
  place x i none = none
  place x i (some (pc, v, s)) =
      some (record { value = v; object = s; threads = set x.threads i pc })

  abbrev pub move_of : System → ℕ → Option Pc → Option System
  move_of x i none = none
  move_of x i (some pc) = place x i (advance pc x.value x.object)

  -- The next step of thread `i`; `none` while it is blocked or has crashed.
  unfoldable pub step : System → ℕ → Option System
  step x i = move_of x i (get_elem? x.threads i)

  -- `sync_bin_sem_init`: anything but 0 and 1 is -1.
  abbrev pub init : ℤ → ℤ × Option ℤ
  init (pos zero) = (pos 0, some (pos 0))
  init (pos (suc zero)) = (pos 0, some (pos 1))
  init (pos (suc (suc n))) = (negsuc 0, none)
  init (negsuc n) = (negsuc 0, none)

  -- The systems that steps lead to from idle threads and a semaphore that `init` set to `v`.
  pub data Reach (v : ℤ) : System → Type 0 where
    start :
        (count : ℕ) (s : n.State)
        → (init v).1 ≡ some v
        → n.pending s ≡ false
        → Reach v (record { value = v; object = s; threads = replicate count idle })
    later : {x y : System} (i : ℕ) → Reach v x → step x i ≡ some y → Reach v y
