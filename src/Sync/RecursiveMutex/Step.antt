-- ===== src/Sync/RecursiveMutex/Step.antt =====
-- Every step of a thread keeps the recursive mutex's invariant.
use se_l4_libs.Prelude.{
  ℕ, ◌+◌, ◌-◌, ◌≡◌, ◌≢◌, ◌≤◌, ◌<◌, inl, inr, refl, ap, subst, Bool, true, false, Option, none, some,
  get_elem?, set, arith, ◌==◌, lt→ltb, Bool-cases,
}
use mathlib.Core.Option.{some-injective, none-ne-some}
use se_l4_libs.Sync.Threads.{tally-one}
use se_l4_libs.Sync.Notification.{Notification, NotificationLaws}
use se_l4_libs.Sync.RecursiveMutex.{
  Pc, outside, blocked, woken, owning, inside, releasing, signalling, crashed, uint_max, Mutex,
  System, Move, count_up, lock, take, claim, unlock, release, wait_return, advance, place, move_of,
  step,
}
use se_l4_libs.Sync.RecursiveMutex.Valid.{count, carries, Agrees, IsValid, IsFair, fair-IsValid}

module _ (n : Notification) (laws : NotificationLaws n) where
  -- What the invariant says of the one thread and the shared state.
  record Before (id : ℕ) (p : Pc) (m : Mutex) (s : n.State) : Type 0 where
    few : m.held ≤ uint_max
    nonzero : 0 < id
    sole : carries p + count (n.pending s) ≤ 1
    free : count (n.pending s) ≡ 1 → (m.owner ≡ 0) × (m.held ≡ 0)
    view : Agrees id p m

  lock-outside-IsFair :
      (id : ℕ) (m : Mutex) (s : n.State)
      → Before id outside m s
      → IsFair n id outside m s (lock id m, s)
  unfolding lock
  lock-outside-IsFair id m s b = elim (Bool-cases (m.owner == id)) [
    | inl e ↦ absurd (b.view (ground arith))
    | inr e ↦
        rw e
          (record { balance = refl; freed = b.free; few = b.few; view = b.view; owned = inl refl })
  ]

  same : (a b : ℕ) → a ≡ b → (a == b) ≡ true
  same a b h = ground arith

  -- Both branches of the last test of `lock`, for a thread that owns the mutex.
  count_up-IsFair :
      (id : ℕ) (p : Pc) (m : Mutex) (s : n.State)
      → Before id p m s
      → carries p ≡ 1
      → m.owner ≡ id
      → IsFair n id p m s (count_up m, s)
  unfolding count_up
  count_up-IsFair id p m s b one mine =
      let quiet : count (n.pending s) ≡ 0 = omega (arith, b.sole) in
      elim (Bool-cases (m.held == uint_max)) [
        | inl e ↦ rw e (record {
          balance = omega arith;
          freed = λ q. absurd (omega arith);
          few = b.few;
          view = (mine, ground arith);
          owned = inl refl;
        })
        | inr e ↦ rw e (record {
          balance = omega arith;
          freed = λ q. absurd (omega arith);
          few = (let apart : m.held ≢ uint_max = ground arith in omega (arith, b.few));
          view = (mine, omega arith);
          owned = inr (one, inl refl);
        })
      ]

  lock-inside-IsFair :
      (id : ℕ) (m : Mutex) (s : n.State)
      → Before id inside m s
      → IsFair n id inside m s (lock id m, s)
  unfolding lock
  lock-inside-IsFair id m s b =
      rw (same m.owner id b.view.0) (count_up-IsFair id inside m s b refl b.view.0)

  return-IsFair :
      (id : ℕ) (m : Mutex) (s : n.State) (o : Option n.State) (r : Move n)
      → n.wait s ≡ o
      → Before id blocked m s
      → wait_return n o m ≡ some r
      → IsFair n id blocked m s r
  return-IsFair id m s none r e b h = absurd (none-ne-some r h)
  return-IsFair id m s (some t) r e b h =
      let was : count (n.pending s) ≡ 1 = ap count (laws.wait_was s t e) in
      let is : count (n.pending t) ≡ 0 = ap count (laws.wait_takes s t e) in
      subst (IsFair n id blocked m s) (some-injective ((woken, m), t) r h) (record {
        balance = omega arith;
        freed = λ q. absurd (omega arith);
        few = b.few;
        view = b.free was;
        owned = inl refl;
      })

  take-IsFair :
      (id : ℕ) (m : Mutex) (s : n.State)
      → Before id woken m s
      → IsFair n id woken m s (take id m, s)
  unfolding take
  take-IsFair id m s b = rw (same m.owner 0 b.view.0) (record {
    balance = refl;
    freed = λ q. absurd (omega (arith, b.sole));
    few = b.few;
    view = (refl, b.view.1);
    owned = inr (refl, inr (inl refl));
  })

  claim-IsFair :
      (id : ℕ) (m : Mutex) (s : n.State)
      → Before id owning m s
      → IsFair n id owning m s (claim m, s)
  unfolding claim
  claim-IsFair id m s b =
      rw (same m.held 0 b.view.1) (count_up-IsFair id owning m s b refl b.view.0)

  unlock-IsFair :
      (id : ℕ) (m : Mutex) (s : n.State)
      → Before id inside m s
      → IsFair n id inside m s (unlock id m, s)
  unfolding unlock
  unlock-IsFair id m s b =
      rw (same m.owner id b.view.0, lt→ltb 0 m.held b.view.1)
        (elim (Bool-cases (m.held - 1 == 0)) [
          | inl e ↦ rw e (record {
            balance = refl;
            freed = λ q. absurd (omega (arith, b.sole));
            few = omega (arith, b.few);
            view = (b.view.0, ground arith);
            owned = inr (refl, inl refl);
          })
          | inr e ↦ rw e (record {
            balance = refl;
            freed = λ q. absurd (omega (arith, b.sole));
            few = omega (arith, b.few);
            view = (b.view.0, (let left : m.held - 1 ≢ 0 = ground arith in omega arith));
            owned = inr (refl, inl refl);
          })
        ])

  release-IsFair :
      (id : ℕ) (m : Mutex) (s : n.State)
      → Before id releasing m s
      → IsFair n id releasing m s (release m, s)
  release-IsFair id m s b = record {
    balance = refl;
    freed = λ q. absurd (omega (arith, b.sole));
    few = b.few;
    view = (refl, b.view.1);
    owned = inr (refl, inr (inr refl));
  }

  signal-IsFair :
      (id : ℕ) (m : Mutex) (s : n.State)
      → Before id signalling m s
      → IsFair n id signalling m s ((outside, m), n.signal s)
  signal-IsFair id m s b =
      let is : count (n.pending (n.signal s)) ≡ 1 = ap count (laws.signal_pending s) in
      record {
        balance = omega (arith, b.sole);
        freed = λ q. b.view;
        few = b.few;
        view = λ e. omega (arith, b.nonzero, b.view.0);
        owned = inl refl;
      }

  advance-IsFair :
      (again : Bool) (id : ℕ) (p : Pc) (m : Mutex) (s : n.State) (r : Move n)
      → Before id p m s
      → advance n again id p m s ≡ some r
      → IsFair n id p m s r
  advance-IsFair again id outside m s r b h =
      subst (IsFair n id outside m s) (some-injective (lock id m, s) r h)
        (lock-outside-IsFair id m s b)
  advance-IsFair again id blocked m s r b h = return-IsFair id m s (n.wait s) r refl b h
  advance-IsFair again id woken m s r b h =
      subst (IsFair n id woken m s) (some-injective (take id m, s) r h) (take-IsFair id m s b)
  advance-IsFair again id owning m s r b h =
      subst (IsFair n id owning m s) (some-injective (claim m, s) r h) (claim-IsFair id m s b)
  advance-IsFair true id inside m s r b h =
      subst (IsFair n id inside m s) (some-injective (lock id m, s) r h)
        (lock-inside-IsFair id m s b)
  advance-IsFair false id inside m s r b h =
      subst (IsFair n id inside m s) (some-injective (unlock id m, s) r h) (unlock-IsFair id m s b)
  advance-IsFair again id releasing m s r b h =
      subst (IsFair n id releasing m s) (some-injective (release m, s) r h)
        (release-IsFair id m s b)
  advance-IsFair again id signalling m s r b h =
      subst (IsFair n id signalling m s) (some-injective ((outside, m), n.signal s) r h)
        (signal-IsFair id m s b)
  advance-IsFair again id crashed m s r b h = absurd (none-ne-some r h)

  before :
      (x : System n) (i : ℕ) (p : Pc)
      → IsValid n x
      → get_elem? x.threads i ≡ some p
      → Before (i + 1) p x.mutex x.object
  before x i p valid there = record {
    few = valid.small;
    nonzero = omega arith;
    sole = omega (arith, valid.token, tally-one carries x.threads i p there);
    free = valid.free;
    view = valid.views i p there;
  }

  placed-IsValid :
      (x y : System n) (i : ℕ) (p : Pc) (o : Option (Move n))
      → IsValid n x
      → get_elem? x.threads i ≡ some p
      → ((r : Move n) → o ≡ some r → IsFair n (i + 1) p x.mutex x.object r)
      → place n x i o ≡ some y
      → IsValid n y
  placed-IsValid x y i p none valid there f h = absurd (none-ne-some y h)
  placed-IsValid x y i p (some r) valid there f h =
      subst (IsValid n)
        (some-injective (record { mutex = r.0.1; object = r.1; threads = set x.threads i r.0.0 }) y
          h)
        (fair-IsValid n x i p r valid there (f r refl))

  moved-IsValid :
      (x y : System n) (i : ℕ) (again : Bool) (o : Option Pc)
      → IsValid n x
      → get_elem? x.threads i ≡ o
      → move_of n x i again o ≡ some y
      → IsValid n y
  moved-IsValid x y i again none valid e h = absurd (none-ne-some y h)
  moved-IsValid x y i again (some p) valid e h =
      placed-IsValid x y i p (advance n again (i + 1) p x.mutex x.object) valid e
        (λ r. advance-IsFair again (i + 1) p x.mutex x.object r (before x i p valid e)) h

  -- A step of any thread, whichever way it goes on inside the mutex, leads from a state that satisfies the
  -- invariant to one that does. Under the laws of the kernel's notifications.
  pub step-keeps :
      (x y : System n) (i : ℕ) (again : Bool)
      → IsValid n x
      → step n x i again ≡ some y
      → IsValid n y
  unfolding step
  step-keeps x y i again valid h = moved-IsValid x y i again (get_elem? x.threads i) valid refl h
