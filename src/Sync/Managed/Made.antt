-- ===== src/Sync/Managed/Made.antt =====
-- What `new` makes and `destroy` gives back.
use se_l4_libs.Prelude.{
  zero, suc, ◌≡◌, ◌≢◌, ◌⊎◌, inl, inr, refl, sym, ap, ◌∙◌, true, false, Option, some, Bool-cases,
}
use se_l4_libs.Prelude.Int.{ℤ, pos, negsuc, nonzero, nonzero_true, nonzero_false}
use se_l4_libs.Sync.Managed.{
  VkaObject, Vka, Sem, CondVar, is_binary, bin_sem_init, cv_init, bin_sem_new, mutex_new, cv_new,
  sem_destroy, mutex_destroy, cv_destroy,
}

binary : (v : ℤ) → is_binary v ≡ true → (v ≡ pos 0) ⊎ (v ≡ pos 1)
binary (pos zero) h = inl refl
binary (pos (suc zero)) h = inr refl
binary (pos (suc (suc n))) h = cc h
binary (negsuc n) h = cc h

not_binary : (v : ℤ) → is_binary v ≡ false → (v ≢ pos 0) × (v ≢ pos 1)
not_binary v h = ((λ q. cc (sym h ∙ ap is_binary q)), (λ q. cc (sym h ∙ ap is_binary q)))

module _ (v : Vka) (st : v.State) where
  -- What is left of a call of `new` for an object and a value, and what dropping it then does.
  abbrev pub Made : ℤ × VkaObject × v.State → ℤ → ℤ × Option Sem × v.State → Type 0
  Made (e, object, st') value r =
      ((e ≢ pos 0) × (r.0 ≡ e) × (r.2 ≡ st'))
      ⊎ ((e ≡ pos 0)
          × (r.0 ≡ pos 0)
          × (r.1 ≡ some (record { object = object; value = value }))
          × (r.2 ≡ st')
          × (sem_destroy v r.2 r.1 ≡ (pos 0, v.free_object st' object)))

  -- `sync_bin_sem_new` refuses every value but 0 and 1 with -1, the semaphore unchanged and no object asked
  -- for. For 0 and 1 it asks for a notification: an error of that is returned; without one the call returns 0,
  -- the semaphore holds the object and the value, and `sync_bin_sem_destroy` gives back just that object.
  pub bin_sem_new-Made :
      (sem : Sem) (value : ℤ)
      → ((value ≢ pos 0)
          × (value ≢ pos 1)
          × (bin_sem_new v st (some sem) value ≡ (negsuc 0, some sem, st)))
        ⊎ (((value ≡ pos 0) ⊎ (value ≡ pos 1))
            × Made (v.alloc_notification st sem.object) value (bin_sem_new v st (some sem) value))
  unfolding bin_sem_new bin_sem_init sem_destroy
  bin_sem_new-Made sem value = elim (Bool-cases (is_binary value)) [
    | inl fine ↦ elim (Bool-cases (nonzero (v.alloc_notification st sem.object).0)) [
      | inl bad ↦ inr (
          rw (fine, bad)
            (
              binary value fine,
              inl (nonzero_true (v.alloc_notification st sem.object).0 bad, refl, refl),
            ))
      | inr good ↦ inr (
          rw (fine, good)
            (
              binary value fine,
              inr (
                nonzero_false (v.alloc_notification st sem.object).0 good,
                refl,
                refl,
                refl,
                refl,
              ),
            ))
    ]
    | inr wrong ↦
        (let refused = not_binary value wrong in inl (refused.0, refused.1, rw wrong refl))
  ]

  -- If the allocation of a notification succeeds, the mutex that `sync_mutex_new` has made is a semaphore
  -- of value 1 with the object allocated, which is what `sync_mutex_destroy` frees.
  pub mutex_new-destroy :
      (mutex : Sem)
      → (v.alloc_notification st mutex.object).0 ≡ pos 0
      → ((mutex_new v st (some mutex)).1
          ≡ some (record { object = (v.alloc_notification st mutex.object).1; value = pos 1 }))
        × (mutex_destroy v (mutex_new v st (some mutex)).2 (mutex_new v st (some mutex)).1 ≡ (
          pos 0,
          v.free_object
              (v.alloc_notification st mutex.object).2
              (v.alloc_notification st mutex.object).1,
        ))
  unfolding mutex_new bin_sem_new bin_sem_init mutex_destroy sem_destroy
  mutex_new-destroy mutex granted =
      let good : nonzero (v.alloc_notification st mutex.object).0 ≡ false = ap nonzero granted in
      rw good (refl, refl)

  -- The same for a condition variable, which starts without waiters and without a broadcast.
  pub cv_new-destroy :
      (cv : CondVar)
      → (v.alloc_notification st cv.notification).0 ≡ pos 0
      → ((cv_new v st (some cv)).1
          ≡ some (record {
            notification = (v.alloc_notification st cv.notification).1;
            waiters = 0;
            broadcasting = false;
          }))
        × (cv_destroy v (cv_new v st (some cv)).2 (cv_new v st (some cv)).1 ≡ (
          pos 0,
          v.free_object
              (v.alloc_notification st cv.notification).2
              (v.alloc_notification st cv.notification).1,
        ))
  unfolding cv_new cv_init cv_destroy
  cv_new-destroy cv granted =
      let good : nonzero (v.alloc_notification st cv.notification).0 ≡ false = ap nonzero granted in
      rw good (refl, refl)
