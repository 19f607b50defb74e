-- ===== src/Sync/CondVar.antt =====
-- libsel4sync/include/sync/condition_var.h: any number of threads of one monitor. Between taking and releasing
-- the lock a thread is alone, as bin_sem_bare.h has it, so that each such stretch is one step. `waiters` is a
-- number; it counts threads, and stays in an `int` for fewer than 2^31 of them.
use se_l4_libs.Prelude.{
  ℕ, zero, suc, ◌+◌, ◌-◌, ◌≡◌, Bool, true, false, List, Option, none, some, get_elem?, set,
  replicate, ltb, if◌then◌else◌,
}
use se_l4_libs.Sync.Notification.{Notification}
pub mod Valid
pub mod Step

-- `inside` holds the lock; `asleep` is in `seL4_Wait` of `sync_cv_wait`, `awake` behind it and before the lock;
-- `announcing` is between the release and the signal of `sync_cv_broadcast_release`. A thread that could not take
-- the lock again returns the error, and goes on outside.
pub data Pc : Type 0 where
  outside : Pc
  inside : Pc
  asleep : Pc
  awake : Pc
  announcing : Pc

-- The calls of a thread inside, and whether the lock can be taken by one awake.
pub data Call : Type 0 where
  leave wait signal broadcast broadcast_release : Call
  lock_fails : Call

module _ (n : Notification) where
  -- `sync_cv_t` with its notification, and whether the lock is taken.
  pub record Cv : Type 0 where
    pub waiters : ℕ
    pub broadcasting : Bool
    pub object : n.State
    pub locked : Bool

  -- `sync_cv_wait` up to `seL4_Wait`.
  unfoldable pub cv_wait : Cv → Pc × Cv
  cv_wait c = (asleep, record c { waiters = c.waiters + 1; broadcasting = false; locked = false })

  -- `sync_cv_wait` behind the lock.
  unfoldable pub cv_wait_return : Cv → Pc × Cv
  cv_wait_return c =
      let left = c.waiters - 1 in
      if c.broadcasting
      then (if ltb 0 left
          then (inside, record c { waiters = left; object = n.signal c.object; locked = true })
          else (inside, record c { waiters = left; broadcasting = false; locked = true }))
      else (inside, record c { waiters = left; locked = true })

  unfoldable pub cv_signal : Cv → Pc × Cv
  cv_signal c =
      if ltb 0 c.waiters then (inside, record c { object = n.signal c.object }) else (inside, c)

  unfoldable pub cv_broadcast : Cv → Pc × Cv
  cv_broadcast c =
      if ltb 0 c.waiters
      then (inside, record c { broadcasting = true; object = n.signal c.object })
      else (inside, c)

  unfoldable pub cv_broadcast_release : Cv → Pc × Cv
  cv_broadcast_release c =
      if ltb 0 c.waiters
      then (announcing, record c { broadcasting = true; locked = false })
      else (outside, record c { locked = false })

  abbrev pub call : Call → Cv → Pc × Cv
  call leave c = (outside, record c { locked = false })
  call wait c = cv_wait c
  call signal c = cv_signal c
  call broadcast c = cv_broadcast c
  call broadcast_release c = cv_broadcast_release c
  call lock_fails c = (inside, c)

  abbrev pub woken : Option n.State → Cv → Option (Pc × Cv)
  woken none c = none
  woken (some t) c = some (awake, record c { object = t })

  -- The return of `sync_bin_sem_wait` to a thread that is awake.
  abbrev pub relock : Call → Bool → Cv → Option (Pc × Cv)
  relock lock_fails locked c = some (outside, c)
  relock leave true c = none
  relock leave false c = some (cv_wait_return c)
  relock wait true c = none
  relock wait false c = some (cv_wait_return c)
  relock signal true c = none
  relock signal false c = some (cv_wait_return c)
  relock broadcast true c = none
  relock broadcast false c = some (cv_wait_return c)
  relock broadcast_release true c = none
  relock broadcast_release false c = some (cv_wait_return c)

  abbrev pub enter : Bool → Cv → Option (Pc × Cv)
  enter true c = none
  enter false c = some (inside, record c { locked = true })

  abbrev pub advance : Call → Pc → Cv → Option (Pc × Cv)
  advance k outside c = enter c.locked c
  advance k inside c = some (call k c)
  advance k asleep c = woken (n.wait c.object) c
  advance k awake c = relock k c.locked c
  advance k announcing c = some (outside, record c { object = n.signal c.object })

  -- How often an error has thrown a thread out of `sync_cv_wait` is counted in `thrown`, which nothing reads.
  pub record System : Type 0 where
    pub cv : Cv
    pub threads : List Pc
    pub thrown : ℕ

  abbrev pub thrown_by : Pc → Call → ℕ
  thrown_by outside k = 0
  thrown_by inside k = 0
  thrown_by asleep k = 0
  thrown_by announcing k = 0
  thrown_by awake lock_fails = 1
  thrown_by awake leave = 0
  thrown_by awake wait = 0
  thrown_by awake signal = 0
  thrown_by awake broadcast = 0
  thrown_by awake broadcast_release = 0

  abbrev pub place : System → ℕ → ℕ → Option (Pc × Cv) → Option System
  place x i lost none = none
  place x i lost (some (p, c)) =
      some (record { cv = c; threads = set x.threads i p; thrown = x.thrown + lost })

  abbrev pub move_of : System → ℕ → Call → Option Pc → Option System
  move_of x i k none = none
  move_of x i k (some p) = place x i (thrown_by p k) (advance k p x.cv)

  unfoldable pub step : System → ℕ → Call → Option System
  step x i k = move_of x i k (get_elem? x.threads i)

  -- `sync_cv_init`, with threads outside and the lock free.
  unfoldable pub init : ℕ → n.State → System
  init count s = record {
    cv = record { waiters = 0; broadcasting = false; object = s; locked = false };
    threads = replicate count outside;
    thrown = 0;
  }

  pub data Reach : System → Type 0 where
    start : (count : ℕ) (s : n.State) → Reach (init count s)
    later : {x y : System} (i : ℕ) (k : Call) → Reach x → step x i k ≡ some y → Reach y
