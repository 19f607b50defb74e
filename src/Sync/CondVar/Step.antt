-- ===== src/Sync/CondVar/Step.antt =====
-- Every step of a thread keeps the invariant of the condition variable, and what follows for a broadcast.
use se_l4_libs.Prelude.{
  ℕ, ◌+◌, ◌-◌, ◌≡◌, ◌≢◌, ◌≤◌, ◌<◌, refl, ap, sym, subst, Bool, true, false, Option, none, some,
  get_elem?, set, ltb, Bool-cases, inl, inr, arith, All,
}
use mathlib.Core.Option.{some-injective, none-ne-some}
use se_l4_libs.Sync.Threads.{tally-one, tally-replicate, tally-All}
use se_l4_libs.Sync.Notification.{Notification, NotificationLaws}
use se_l4_libs.Sync.CondVar.{
  Pc, outside, inside, asleep, awake, announcing, Call, leave, wait, signal, broadcast,
  broadcast_release, lock_fails, Cv, System, cv_wait, cv_wait_return, cv_signal, cv_broadcast,
  cv_broadcast_release, call, woken, relock, enter, advance, thrown_by, place, move_of, step, init,
  Reach, start, later,
}
use se_l4_libs.Sync.CondVar.Valid.{count, is_counted, is_carrier, IsValid, IsKept, kept-IsValid}

module _ (n : Notification) (laws : NotificationLaws n) where
  signalled : (s : n.State) → count (n.pending (n.signal s)) ≡ 1
  signalled s = ap count (laws.signal_pending s)

  return-IsKept : (c : Cv n) → 0 < c.waiters → IsKept n 0 awake c (cv_wait_return n c)
  unfolding cv_wait_return
  return-IsKept c some_waits = elim (Bool-cases c.broadcasting) [
    | inl e ↦ elim (Bool-cases (ltb 0 (c.waiters - 1))) [
      | inl k ↦
          rw (e, k)
            (record {
              count_kept = omega arith;
              carry_kept = λ rest h. omega (arith, signalled c.object, ap count e);
            })
      | inr k ↦ rw (e, k) (record { count_kept = omega arith; carry_kept = λ rest h. omega arith })
    ]
    | inr e ↦
        rw e (record { count_kept = omega arith; carry_kept = λ rest h. omega (arith, ap count e) })
  ]

  call-IsKept : (k : Call) (c : Cv n) → IsKept n 0 inside c (call n k c)
  unfolding cv_wait cv_signal cv_broadcast cv_broadcast_release
  call-IsKept leave c = record { count_kept = omega arith; carry_kept = λ rest h. omega arith }
  call-IsKept wait c = record { count_kept = omega arith; carry_kept = λ rest h. omega arith }
  call-IsKept signal c = elim (Bool-cases (ltb 0 c.waiters)) [
    | inl e ↦ rw e (record {
      count_kept = omega arith;
      carry_kept = λ rest h. grind (arith, signalled c.object);
    })
    | inr e ↦ rw e (record { count_kept = omega arith; carry_kept = λ rest h. omega arith })
  ]
  call-IsKept broadcast c = elim (Bool-cases (ltb 0 c.waiters)) [
    | inl e ↦ rw e (record {
      count_kept = omega arith;
      carry_kept = λ rest h. omega (arith, signalled c.object);
    })
    | inr e ↦ rw e (record { count_kept = omega arith; carry_kept = λ rest h. omega arith })
  ]
  call-IsKept broadcast_release c = elim (Bool-cases (ltb 0 c.waiters)) [
    | inl e ↦ rw e (record { count_kept = omega arith; carry_kept = λ rest h. omega arith })
    | inr e ↦ rw e (record { count_kept = omega arith; carry_kept = λ rest h. omega arith })
  ]
  call-IsKept lock_fails c = record { count_kept = omega arith; carry_kept = λ rest h. omega arith }

  enter-IsKept :
      (b : Bool) (c : Cv n) (r : Pc × Cv n) → enter n b c ≡ some r → IsKept n 0 outside c r
  enter-IsKept true c r h = absurd (none-ne-some r h)
  enter-IsKept false c r h =
      subst (IsKept n 0 outside c) (some-injective (inside, record c { locked = true }) r h)
        (record { count_kept = omega arith; carry_kept = λ rest h. omega arith })

  woken-IsKept :
      (o : Option n.State) (c : Cv n) (r : Pc × Cv n)
      → n.wait c.object ≡ o
      → woken n o c ≡ some r
      → IsKept n 0 asleep c r
  woken-IsKept none c r e h = absurd (none-ne-some r h)
  woken-IsKept (some t) c r e h =
      let was : count (n.pending c.object) ≡ 1 = ap count (laws.wait_was c.object t e) in
      subst (IsKept n 0 asleep c) (some-injective (awake, record c { object = t }) r h)
        (record { count_kept = omega arith; carry_kept = λ rest q. omega arith })

  retaken :
      (c : Cv n) (r : Pc × Cv n)
      → 0 < c.waiters
      → some (cv_wait_return n c) ≡ some r
      → IsKept n 0 awake c r
  retaken c r w h =
      subst (IsKept n 0 awake c) (some-injective (cv_wait_return n c) r h) (return-IsKept c w)

  relock-IsKept :
      (k : Call) (b : Bool) (c : Cv n) (r : Pc × Cv n)
      → 0 < c.waiters
      → relock n k b c ≡ some r
      → IsKept n (thrown_by n awake k) awake c r
  relock-IsKept lock_fails b c r w h =
      subst (IsKept n 1 awake c) (some-injective (outside, c) r h)
        (record { count_kept = omega arith; carry_kept = λ rest h. omega arith })
  relock-IsKept leave true c r w h = absurd (none-ne-some r h)
  relock-IsKept wait true c r w h = absurd (none-ne-some r h)
  relock-IsKept signal true c r w h = absurd (none-ne-some r h)
  relock-IsKept broadcast true c r w h = absurd (none-ne-some r h)
  relock-IsKept broadcast_release true c r w h = absurd (none-ne-some r h)
  relock-IsKept leave false c r w h = retaken c r w h
  relock-IsKept wait false c r w h = retaken c r w h
  relock-IsKept signal false c r w h = retaken c r w h
  relock-IsKept broadcast false c r w h = retaken c r w h
  relock-IsKept broadcast_release false c r w h = retaken c r w h

  advance-IsKept :
      (x : System n) (i : ℕ) (k : Call) (p : Pc) (r : Pc × Cv n)
      → IsValid n x
      → get_elem? x.threads i ≡ some p
      → advance n k p x.cv ≡ some r
      → IsKept n (thrown_by n p k) p x.cv r
  advance-IsKept x i k outside r valid there h = enter-IsKept x.cv.locked x.cv r h
  advance-IsKept x i k inside r valid there h =
      subst (IsKept n 0 inside x.cv) (some-injective (call n k x.cv) r h) (call-IsKept k x.cv)
  advance-IsKept x i k asleep r valid there h = woken-IsKept (n.wait x.cv.object) x.cv r refl h
  advance-IsKept x i k awake r valid there h =
      relock-IsKept k x.cv.locked x.cv r
        (omega (arith, valid.counted, tally-one is_counted x.threads i awake there)) h
  advance-IsKept x i k announcing r valid there h =
      subst (IsKept n 0 announcing x.cv)
        (some-injective (outside, record x.cv { object = n.signal x.cv.object }) r h)
        (record {
          count_kept = omega arith;
          carry_kept = λ rest q. grind (arith, signalled x.cv.object);
        })

  placed-kept :
      (x y : System n) (i lost : ℕ) (p : Pc) (o : Option (Pc × Cv n))
      → IsValid n x
      → get_elem? x.threads i ≡ some p
      → ((r : Pc × Cv n) → o ≡ some r → IsKept n lost p x.cv r)
      → place n x i lost o ≡ some y
      → IsValid n y
  placed-kept x y i lost p none valid there f h = absurd (none-ne-some y h)
  placed-kept x y i lost p (some r) valid there f h =
      subst (IsValid n)
        (some-injective
          (record { cv = r.1; threads = set x.threads i r.0; thrown = x.thrown + lost }) y h)
        (kept-IsValid n x i lost p r there (f r refl) valid)

  moved-kept :
      (x y : System n) (i : ℕ) (k : Call) (o : Option Pc)
      → IsValid n x
      → get_elem? x.threads i ≡ o
      → move_of n x i k o ≡ some y
      → IsValid n y
  moved-kept x y i k none valid e h = absurd (none-ne-some y h)
  moved-kept x y i k (some p) valid e h =
      placed-kept x y i (thrown_by n p k) p (advance n k p x.cv) valid e
        (λ r. advance-IsKept x i k p r valid e) h

  init-kept : (k : ℕ) (s : n.State) → IsValid n (init n k s)
  unfolding init
  init-kept k s = record {
    counted = omega (arith, tally-replicate is_counted k outside refl);
    carried = omega arith;
  }

  pub Reach-counted : (x : System n) → Reach n x → IsValid n x
  unfolding step
  Reach-counted x (start k s) = init-kept k s
  Reach-counted x (later {x = w} i k r e) =
      moved-kept w x i k (get_elem? w.threads i) (Reach-counted w r) refl e

  pending_true : (b : Bool) → 1 ≤ count b → b ≡ true
  pending_true true h = refl
  pending_true false h = absurd (omega arith)

  placed_woken :
      (x : System n) (i lost : ℕ) (o : Option n.State)
      → o ≢ none
      → place n x i lost (woken n o x.cv) ≢ none
  placed_woken x i lost none ready = absurd (ready refl)
  placed_woken x i lost (some t) ready = λ e. none-ne-some _ (sym e)

  -- A broadcast does not get stuck: in a reachable state in which one is on, no thread was thrown out of
  -- `sync_cv_wait` by an error, and every thread is outside, inside or asleep, a thread that is asleep can take its next step. Under the laws of the kernel's
  -- notifications.
  pub broadcast_steps :
      (x : System n) (i : ℕ) (k : Call)
      → Reach n x
      → x.cv.broadcasting ≡ true
      → x.thrown ≡ 0
      → All (λ p. is_carrier p ≡ 0) x.threads
      → get_elem? x.threads i ≡ some asleep
      → step n x i k ≢ none
  unfolding step
  broadcast_steps x i k r on none_thrown quiet there =
      let valid = Reach-counted x r in
      let idle = tally-All is_carrier (λ p. is_carrier p ≡ 0) x.threads (λ p h. h) quiet in
      let some_signal : 1 ≤ count (n.pending x.cv.object) =
        omega (arith, valid.carried, ap count on) in
      rw there (
        placed_woken x i 0 (n.wait x.cv.object)
          (laws.wait_ready x.cv.object (pending_true (n.pending x.cv.object) some_signal)))
