-- ===== src/Tests/Managed.antt =====
-- Semaphores, mutexes and condition variables on a VKA that counts its objects.
use se_l4_libs.Prelude.{ℕ, ◌+◌, ◌-◌, ◌≡◌, ◌≢◌, ◌⊎◌, refl, true, false, some}
use se_l4_libs.Prelude.Int.{pos, negsuc}
use se_l4_libs.Sync.Managed.{
  VkaObject, Vka, Sem, CondVar, bin_sem_new, sem_new, sem_init, cv_new, cv_destroy,
}
use se_l4_libs.Sync.Managed.Made.{Made, bin_sem_new-Made, cv_new-destroy}

abbrev blank : VkaObject
blank = record { cptr = 0; ut = 0; type = 0; size_bits = 0 }

abbrev fresh : VkaObject
fresh = record { cptr = 100; ut = 3; type = 4; size_bits = 6 }

abbrev counting : Vka
counting = record {
  State = ℕ;
  alloc_notification = λ st o. (pos 0, fresh, st + 1);
  alloc_endpoint = λ st o. (pos 0, fresh, st + 1);
  free_object = λ st o. st - 1;
}

abbrev sem : Sem
sem = record { object = blank; value = pos 9 }

abbrev cv : CondVar
cv = record { notification = blank; waiters = 5; broadcasting = true }

sem_new-three :
    sem_new counting 0 (some sem) (pos 3)
    ≡ (pos 0, some (record { object = fresh; value = pos 3 }), 1)
unfolding sem_new sem_init
sem_new-three = refl

bin_sem_new-Made_example :
    ((pos 1 ≢ pos 0)
      × (pos 1 ≢ pos 1)
      × (bin_sem_new counting 0 (some sem) (pos 1) ≡ (negsuc 0, some sem, 0)))
    ⊎ (((pos 1 ≡ pos 0) ⊎ (pos 1 ≡ pos 1))
        × Made counting 0 (pos 0, fresh, 1) (pos 1) (bin_sem_new counting 0 (some sem) (pos 1)))
bin_sem_new-Made_example = bin_sem_new-Made counting 0 sem (pos 1)

cv_new-destroy_example :
    ((cv_new counting 0 (some cv)).1
      ≡ some (record { notification = fresh; waiters = 0; broadcasting = false }))
    × (cv_destroy counting (cv_new counting 0 (some cv)).2 (cv_new counting 0 (some cv)).1
        ≡ (pos 0, 0))
cv_new-destroy_example = cv_new-destroy counting 0 cv refl
