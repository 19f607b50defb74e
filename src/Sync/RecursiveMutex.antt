-- ===== src/Sync/RecursiveMutex.antt =====
-- libsel4sync/src/recursive_mutex.c: any number of threads that lock and unlock one recursive mutex, cut where
-- they touch what they share. Thread `i` has the id `i + 1`, for the address of its IPC buffer; 0 is NULL. A
-- thread unlocks only what it has locked.
use se_l4_libs.Prelude.{
  ℕ, zero, suc, ◌+◌, ◌-◌, ◌^◌, ◌≡◌, Bool, true, false, List, Option, none, some, get_elem?, set,
  replicate, ◌==◌, ltb, if◌then◌else◌,
}
use se_l4_libs.Sync.Notification.{Notification}
pub mod Valid
pub mod Step
pub mod Safety

-- `blocked` is in `seL4_Wait`; `woken` is behind it, before `owner` is set; `owning` has set it; `inside` has
-- returned from `lock`; `releasing` has counted `held` down to 0; `signalling` has stored NULL.
pub data Pc : Type 0 where
  outside : Pc
  blocked : Pc
  woken : Pc
  owning : Pc
  inside : Pc
  releasing : Pc
  signalling : Pc
  crashed : Pc

-- `UINT_MAX`
abbrev pub uint_max : ℕ
uint_max = 2 ^ 32 - 1

-- `sync_recursive_mutex_t`; the notification stands beside it.
pub record Mutex : Type 0 where
  pub owner : ℕ
  pub held : ℕ

-- The last test of `lock`: at `UINT_MAX` it returns -1 and nothing changes.
unfoldable pub count_up : Mutex → Pc × Mutex
count_up m = if m.held == uint_max then (inside, m) else (inside, record m { held = m.held + 1 })

-- `sync_recursive_mutex_lock` up to `seL4_Wait`.
unfoldable pub lock : ℕ → Mutex → Pc × Mutex
lock id m = if m.owner == id then count_up m else (blocked, m)

-- Behind `seL4_Wait`: the first `assert` and the new owner, then the second.
unfoldable pub take : ℕ → Mutex → Pc × Mutex
take id m = if m.owner == 0 then (owning, record m { owner = id }) else (crashed, m)

unfoldable pub claim : Mutex → Pc × Mutex
claim m = if m.held == 0 then count_up m else (crashed, m)

-- `sync_recursive_mutex_unlock` up to the store of NULL.
unfoldable pub unlock : ℕ → Mutex → Pc × Mutex
unlock id m =
    if m.owner == id
    then (if ltb 0 m.held
        then (if m.held - 1 == 0
            then (releasing, record m { held = m.held - 1 })
            else (inside, record m { held = m.held - 1 }))
        else (crashed, m))
    else (crashed, m)

abbrev pub release : Mutex → Pc × Mutex
release m = (signalling, record m { owner = 0 })

module _ (n : Notification) where
  pub record System : Type 0 where
    pub mutex : Mutex
    pub object : n.State
    pub threads : List Pc

  abbrev pub Move : Type 0
  Move = (Pc × Mutex) × n.State

  abbrev pub wait_return : Option n.State → Mutex → Option Move
  wait_return none m = none
  wait_return (some t) m = some ((woken, m), t)

  -- What a thread does next; inside, `again` says whether it locks once more or unlocks.
  abbrev pub advance : Bool → ℕ → Pc → Mutex → n.State → Option Move
  advance again id outside m s = some (lock id m, s)
  advance again id blocked m s = wait_return (n.wait s) m
  advance again id woken m s = some (take id m, s)
  advance again id owning m s = some (claim m, s)
  advance true id inside m s = some (lock id m, s)
  advance false id inside m s = some (unlock id m, s)
  advance again id releasing m s = some (release m, s)
  advance again id signalling m s = some ((outside, m), n.signal s)
  advance again id crashed m s = none

  abbrev pub place : System → ℕ → Option Move → Option System
  place x i none = none
  place x i (some (r, s)) = some (record { mutex = r.1; object = s; threads = set x.threads i r.0 })

  abbrev pub move_of : System → ℕ → Bool → Option Pc → Option System
  move_of x i again none = none
  move_of x i again (some pc) = place x i (advance again (i + 1) pc x.mutex x.object)

  unfoldable pub step : System → ℕ → Bool → Option System
  step x i again = move_of x i again (get_elem? x.threads i)

  -- `sync_recursive_mutex_init`, which primes the notification, and threads outside.
  unfoldable pub init : ℕ → n.State → System
  init count s = record {
    mutex = record { owner = 0; held = 0 };
    object = n.signal s;
    threads = replicate count outside;
  }

  pub data Reach : System → Type 0 where
    start : (count : ℕ) (s : n.State) → Reach (init count s)
    later : {x y : System} (i : ℕ) (again : Bool) → Reach x → step x i again ≡ some y → Reach y
