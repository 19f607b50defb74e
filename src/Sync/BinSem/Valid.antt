-- ===== src/Sync/BinSem/Valid.antt =====
-- The invariant of a binary semaphore: where the permits are and what each sleeper will be woken by.
use se_l4_libs.Prelude.{
  ℕ, zero, suc, ◌+◌, ◌≡◌, ◌≤◌, refl, Bool, true, false, some, get_elem?, set, replicate, arith, ap,
}
use se_l4_libs.Prelude.Int.{ℤ, pos, negsuc, pos_part, neg_part, leb_zero}
use mathlib.Core.Option.{none-ne-some}
use se_l4_libs.Sync.Threads.{tally, tally-set, tally-replicate}
use se_l4_libs.Sync.Notification.{Notification, Atomics}
use se_l4_libs.Sync.BinSem.{
  Pc, idle, waiting, holding, posting, signalling, crashed, System, Move, init,
}

abbrev pub count : Bool → ℕ
count true = 1
count false = 0

abbrev pub is_waiter : Pc → ℕ
is_waiter waiting = 1
is_waiter idle = 0
is_waiter holding = 0
is_waiter (posting v) = 0
is_waiter signalling = 0
is_waiter crashed = 0

abbrev pub is_holder : Pc → ℕ
is_holder holding = 1
is_holder idle = 0
is_holder waiting = 0
is_holder (posting v) = 0
is_holder signalling = 0
is_holder crashed = 0

-- A thread that has found a sleeper to wake and has not signalled yet.
abbrev pub is_waker : Pc → ℕ
is_waker signalling = 1
is_waker (posting v) = count (leb_zero v)
is_waker idle = 0
is_waker waiting = 0
is_waker holding = 0
is_waker crashed = 0

abbrev pub is_crash : Pc → ℕ
is_crash crashed = 1
is_crash idle = 0
is_crash waiting = 0
is_crash holding = 0
is_crash (posting v) = 0
is_crash signalling = 0

module _ (n : Notification) (a : Atomics) where
  abbrev pub waiters : System n a → ℕ
  waiters x = tally is_waiter x.threads

  abbrev pub holders : System n a → ℕ
  holders x = tally is_holder x.threads

  abbrev pub wakers : System n a → ℕ
  wakers x = tally is_waker x.threads

  -- A signal that no sleeper has taken yet.
  abbrev pub pending : System n a → ℕ
  pending x = count (n.pending x.object)

  -- The one permit, or none, is held, on its way to a sleeper, or the value; every sleeper has a wake-up on
  -- its way or is counted by the value; no `assert` failed.
  pub record IsValid (permits : ℕ) (x : System n a) : Type 0 where
    pub queued : waiters x ≡ wakers x + pending x + neg_part x.value
    pub shared : holders x + wakers x + pending x + pos_part x.value ≡ permits
    pub intact : tally is_crash x.threads ≡ 0

  -- What a move of one thread from `p` adds to both sides of the equations.
  pub record IsBalanced (p : Pc) (v : ℤ) (s : n.State) (m : Move n a) : Type 0 where
    pub queue :
        is_waiter m.0 + is_waker p + count (n.pending s) + neg_part v
        ≡ is_waiter p + is_waker m.0 + count (n.pending m.2) + neg_part m.1
    pub share :
        is_holder m.0 + is_waker m.0 + count (n.pending m.2) + pos_part m.1
        ≡ is_holder p + is_waker p + count (n.pending s) + pos_part v
    pub calm : is_crash m.0 ≡ 0

  pub balanced-IsValid :
      (permits : ℕ) (x : System n a) (i : ℕ) (p : Pc) (m : Move n a)
      → get_elem? x.threads i ≡ some p
      → IsBalanced p x.value x.object m
      → IsValid permits x
      → IsValid permits (record { value = m.1; object = m.2; threads = set x.threads i m.0 })
  balanced-IsValid permits x i p m there balanced valid = record {
    queued = omega (
      arith,
      balanced.queue,
      valid.queued,
      tally-set is_waiter x.threads i p m.0 there,
      tally-set is_waker x.threads i p m.0 there,
    );
    shared = omega (
      arith,
      balanced.share,
      valid.shared,
      tally-set is_holder x.threads i p m.0 there,
      tally-set is_waker x.threads i p m.0 there,
    );
    intact = omega (arith, balanced.calm, valid.intact, tally-set is_crash x.threads i p m.0 there);
  }

  pub init-small : (v : ℤ) → (init n a v).1 ≡ some v → pos_part v ≤ 1
  init-small (pos zero) h = omega arith
  init-small (pos (suc zero)) h = omega arith
  init-small (pos (suc (suc k))) h = absurd (none-ne-some (pos (suc (suc k))) h)
  init-small (negsuc k) h = omega arith

  init-nonnegative : (v : ℤ) → (init n a v).1 ≡ some v → neg_part v ≡ 0
  init-nonnegative (pos k) h = refl
  init-nonnegative (negsuc k) h = absurd (none-ne-some (negsuc k) h)

  pub start-IsValid :
      (k : ℕ) (v : ℤ) (s : n.State)
      → (init n a v).1 ≡ some v
      → n.pending s ≡ false
      → IsValid (pos_part v) (record { value = v; object = s; threads = replicate k idle })
  start-IsValid k v s ok quiet =
      let none_waits = tally-replicate is_waiter k idle refl in
      let none_holds = tally-replicate is_holder k idle refl in
      let none_wakes = tally-replicate is_waker k idle refl in
      let none_left : count (n.pending s) ≡ 0 = ap count quiet in
      let none_owed = init-nonnegative v ok in
      record {
        queued = omega arith;
        shared = omega arith;
        intact = tally-replicate is_crash k idle refl;
      }
