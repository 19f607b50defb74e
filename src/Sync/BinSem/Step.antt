-- ===== src/Sync/BinSem/Step.antt =====
-- Every step of a thread keeps the invariant.
use se_l4_libs.Prelude.{
  ℕ, zero, suc, ◌≡◌, ◌≤◌, refl, ap, sym, ◌∙◌, Bool, true, false, Option, none, some, get_elem?, set,
  arith, if◌then◌else◌, Bool-cases, inl, inr, subst,
}
use mathlib.Core.Option.{some-injective, none-ne-some}
use se_l4_libs.Prelude.Int.{
  ℤ, pos, negsuc, pos_part, neg_part, leb_zero, incr, decr, decr-nonpositive, decr-positive,
  incr-nonpositive, incr-positive,
}
use se_l4_libs.Sync.Threads.{tally-one}
use se_l4_libs.Sync.Notification.{Notification, NotificationLaws, Atomics, AtomicsLaws}
use se_l4_libs.Sync.BinSem.{
  Pc, idle, waiting, holding, posting, signalling, crashed, System, Move, leb_one, bare_wait,
  decremented, woken, bare_wait_return, bare_post, bare_post_check, advance, place, move_of, step,
}
use se_l4_libs.Sync.BinSem.Valid.{count, is_waker, IsValid, IsBalanced, balanced-IsValid}

module _ (n : Notification) (laws : NotificationLaws n) (a : Atomics) (atomic : AtomicsLaws a) where
  decremented-IsBalanced :
      (v : ℤ) (s : n.State) (o : Option (ℤ × ℤ))
      → a.decrement_safe v ≡ o
      → IsBalanced n a idle v s (decremented n a o v s)
  decremented-IsBalanced v s none h = record {
    queue = omega arith;
    share = omega arith;
    calm = refl;
  }
  decremented-IsBalanced v s (some (old, new)) h =
      let was : old ≡ v = atomic.decrement_old v old new h in
      let is : new ≡ decr v = atomic.decrement_new v old new h in
      let negative : neg_part new ≡ neg_part (decr v) = ap neg_part is in
      let positive : pos_part new ≡ pos_part (decr v) = ap pos_part is in
      elim (Bool-cases (leb_zero old)) [
        | inl e ↦
            (let parts = decr-nonpositive v (ap leb_zero (sym was) ∙ e) in
              rw e (record { queue = omega arith; share = omega arith; calm = refl }))
        | inr e ↦
            (let parts = decr-positive v (ap leb_zero (sym was) ∙ e) in
              rw e (record { queue = omega arith; share = omega arith; calm = refl }))
      ]

  wait-IsBalanced : (v : ℤ) (s : n.State) → IsBalanced n a idle v s (bare_wait n a v s)
  unfolding bare_wait
  wait-IsBalanced v s = decremented-IsBalanced v s (a.decrement_safe v) refl

  woken-IsBalanced :
      (v : ℤ) (s : n.State) (o : Option n.State) (m : Move n a)
      → n.wait s ≡ o
      → woken n a o v ≡ some m
      → IsBalanced n a waiting v s m
  woken-IsBalanced v s none m h k = absurd (none-ne-some m k)
  woken-IsBalanced v s (some t) m h k =
      let was : count (n.pending s) ≡ 1 = ap count (laws.wait_was s t h) in
      let is : count (n.pending t) ≡ 0 = ap count (laws.wait_takes s t h) in
      subst (λ (q : Move n a). IsBalanced n a waiting v s q) (some-injective (holding, v, t) m k)
        (record { queue = omega arith; share = omega arith; calm = refl })

  return-IsBalanced :
      (v : ℤ) (s : n.State) (m : Move n a)
      → bare_wait_return n a v s ≡ some m
      → IsBalanced n a waiting v s m
  unfolding bare_wait_return
  return-IsBalanced v s m h = woken-IsBalanced v s (n.wait s) m refl h

  post-IsBalanced : (v : ℤ) (s : n.State) → IsBalanced n a holding v s (bare_post n a v s)
  unfolding bare_post
  post-IsBalanced v s =
      let result = ap (λ (k : ℤ). count (leb_zero k)) (atomic.increment_result v) in
      let negative = ap neg_part (atomic.increment_new v) in
      let positive = ap pos_part (atomic.increment_new v) in
      elim (Bool-cases (leb_zero (incr v))) [
        | inl e ↦
            (let parts = incr-nonpositive v e in
              let one = ap count e in
              record { queue = omega arith; share = omega arith; calm = refl })
        | inr e ↦
            (let parts = incr-positive v e in
              let one = ap count e in
              record { queue = omega arith; share = omega arith; calm = refl })
      ]

  -- `*value <= 1` holds of a value whose positive part is at most 1.
  small-leb_one : (v : ℤ) → pos_part v ≤ 1 → leb_one v ≡ true
  small-leb_one (pos zero) h = refl
  small-leb_one (pos (suc zero)) h = refl
  small-leb_one (pos (suc (suc k))) h = absurd (omega arith)
  small-leb_one (negsuc k) h = refl

  checked-IsBalanced :
      (val v : ℤ) (s : n.State) (b : Bool)
      → leb_zero val ≡ b
      → IsBalanced n a (posting val) v s (if b then (signalling, v, s) else (idle, v, s))
  checked-IsBalanced val v s true e =
      let one : count (leb_zero val) ≡ 1 = ap count e in
      record { queue = omega arith; share = omega arith; calm = refl }
  checked-IsBalanced val v s false e =
      let one : count (leb_zero val) ≡ 0 = ap count e in
      record { queue = omega arith; share = omega arith; calm = refl }

  check-IsBalanced :
      (val v : ℤ) (s : n.State)
      → pos_part v ≤ 1
      → IsBalanced n a (posting val) v s (bare_post_check n a val v s)
  unfolding bare_post_check
  check-IsBalanced val v s h =
      rw (small-leb_one v h) (checked-IsBalanced val v s (leb_zero val) refl)

  signal-IsBalanced :
      (v : ℤ) (s : n.State)
      → count (n.pending s) ≡ 0
      → IsBalanced n a signalling v s (idle, v, n.signal s)
  signal-IsBalanced v s h =
      let is : count (n.pending (n.signal s)) ≡ 1 = ap count (laws.signal_pending s) in
      record { queue = omega arith; share = omega arith; calm = refl }

  advance-IsBalanced :
      (permits : ℕ) (x : System n a) (i : ℕ) (p : Pc) (m : Move n a)
      → permits ≤ 1
      → IsValid n a permits x
      → get_elem? x.threads i ≡ some p
      → advance n a p x.value x.object ≡ some m
      → IsBalanced n a p x.value x.object m
  advance-IsBalanced permits x i idle m few valid there h =
      subst (IsBalanced n a idle x.value x.object)
        (some-injective (bare_wait n a x.value x.object) m h) (wait-IsBalanced x.value x.object)
  advance-IsBalanced permits x i waiting m few valid there h =
      return-IsBalanced x.value x.object m h
  advance-IsBalanced permits x i holding m few valid there h =
      subst (IsBalanced n a holding x.value x.object)
        (some-injective (bare_post n a x.value x.object) m h) (post-IsBalanced x.value x.object)
  advance-IsBalanced permits x i (posting val) m few valid there h =
      subst (IsBalanced n a (posting val) x.value x.object)
        (some-injective (bare_post_check n a val x.value x.object) m h)
        (check-IsBalanced val x.value x.object (omega (arith, valid.shared)))
  advance-IsBalanced permits x i signalling m few valid there h =
      subst (IsBalanced n a signalling x.value x.object)
        (some-injective (idle, x.value, n.signal x.object) m h)
        (signal-IsBalanced x.value x.object
          (omega (arith, valid.shared, tally-one is_waker x.threads i signalling there)))
  advance-IsBalanced permits x i crashed m few valid there h = absurd (none-ne-some m h)

  placed-IsValid :
      (permits : ℕ) (x y : System n a) (i : ℕ) (p : Pc) (o : Option (Move n a))
      → ((m : Move n a) → o ≡ some m → IsBalanced n a p x.value x.object m)
      → IsValid n a permits x
      → get_elem? x.threads i ≡ some p
      → place n a x i o ≡ some y
      → IsValid n a permits y
  placed-IsValid permits x y i p none f valid there h = absurd (none-ne-some y h)
  placed-IsValid permits x y i p (some m) f valid there h =
      subst (IsValid n a permits)
        (some-injective (record { value = m.1; object = m.2; threads = set x.threads i m.0 }) y h)
        (balanced-IsValid n a permits x i p m there (f m refl) valid)

  moved-IsValid :
      (permits : ℕ) (x y : System n a) (i : ℕ) (o : Option Pc)
      → permits ≤ 1
      → get_elem? x.threads i ≡ o
      → IsValid n a permits x
      → move_of n a x i o ≡ some y
      → IsValid n a permits y
  moved-IsValid permits x y i none few e valid h = absurd (none-ne-some y h)
  moved-IsValid permits x y i (some p) few e valid h =
      placed-IsValid permits x y i p (advance n a p x.value x.object)
        (λ m. advance-IsBalanced permits x i p m few valid e) valid e h

  -- With at most one permit, a step of any thread from a state that satisfies the invariant leads to one
  -- that does: `value`, the notification and the threads stay in balance whichever operation the thread is
  -- in. Under the laws of the kernel's notifications and of the atomic integers.
  pub step-IsValid :
      (permits : ℕ) (x y : System n a) (i : ℕ)
      → permits ≤ 1
      → IsValid n a permits x
      → step n a x i ≡ some y
      → IsValid n a permits y
  unfolding step
  step-IsValid permits x y i few valid h =
      moved-IsValid permits x y i (get_elem? x.threads i) few refl valid h
