-- ===== src/Sync/Managed.antt =====
-- Making and dropping the locks of libsel4sync: the `init`, `new` and `destroy` functions of
-- include/sync/bin_sem.h, mutex.h, sem.h and condition_var.h. A pointer is `none` for NULL; what a call
-- changes behind it is given back.
use se_l4_libs.Prelude.{ℕ, zero, suc, Bool, true, false, Option, none, some, if◌then◌else◌, not}
use se_l4_libs.Prelude.Int.{ℤ, pos, negsuc, nonzero}
pub mod Made

-- `vka_object_t`
pub record VkaObject : Type 0 where
  pub cptr : ℕ
  pub ut : ℕ
  pub type : ℕ
  pub size_bits : ℕ

-- The calls `vka_alloc_notification`, `vka_alloc_endpoint` and `vka_free_object` of libsel4vka: an error code
-- and the object, which is the old one on an error.
pub record Vka : Type 1 where
  pub State : Type 0
  pub alloc_notification : State → VkaObject → ℤ × VkaObject × State
  pub alloc_endpoint : State → VkaObject → ℤ × VkaObject × State
  pub free_object : State → VkaObject → State

-- `sync_bin_sem_t`, which is `sync_mutex_t` too, and `sync_sem_t` with its endpoint.
pub record Sem : Type 0 where
  pub object : VkaObject
  pub value : ℤ

-- `sync_cv_t`
pub record CondVar : Type 0 where
  pub notification : VkaObject
  pub waiters : ℕ
  pub broadcasting : Bool

abbrev pub with_cptr : VkaObject → ℕ → VkaObject
with_cptr o cptr = record o { cptr = cptr }

-- `value != 0 && value != 1`
abbrev pub is_binary : ℤ → Bool
is_binary (pos zero) = true
is_binary (pos (suc zero)) = true
is_binary (pos (suc (suc n))) = false
is_binary (negsuc n) = false

unfoldable pub bin_sem_init : Option Sem → ℕ → ℤ → ℤ × Option Sem
bin_sem_init none cptr value = (negsuc 0, none)
bin_sem_init (some sem) cptr value =
    if not (is_binary value)
    then (negsuc 0, some sem)
    else (pos 0, some (record { object = with_cptr sem.object cptr; value = value }))

unfoldable pub sem_init : Option Sem → ℕ → ℤ → ℤ × Option Sem
sem_init none cptr value = (negsuc 0, none)
sem_init (some sem) cptr value =
    (pos 0, some (record { object = with_cptr sem.object cptr; value = value }))

unfoldable pub mutex_init : Option Sem → ℕ → ℤ × Option Sem
unfolding bin_sem_init
mutex_init mutex cptr = bin_sem_init mutex cptr (pos 1)

unfoldable pub cv_init : Option CondVar → ℕ → ℤ × Option CondVar
cv_init none cptr = (negsuc 0, none)
cv_init (some cv) cptr = (
  pos 0,
  some
      (record { notification = with_cptr cv.notification cptr; waiters = 0; broadcasting = false }),
)

module _ (v : Vka) where
  open v use {State, alloc_notification, alloc_endpoint, free_object}

  unfoldable pub bin_sem_new : State → Option Sem → ℤ → ℤ × Option Sem × State
  unfolding bin_sem_init
  bin_sem_new st none value = (negsuc 0, none, st)
  bin_sem_new st (some sem) value =
      if not (is_binary value)
      then (negsuc 0, some sem, st)
      else (let (error, object, st') = alloc_notification st sem.object in
          let allocated : Sem = record sem { object = object } in
          if nonzero error
          then (error, some allocated, st')
          else (let (result, made) = bin_sem_init (some allocated) object.cptr value in
              (result, made, st')))

  unfoldable pub sem_new : State → Option Sem → ℤ → ℤ × Option Sem × State
  unfolding sem_init
  sem_new st none value = (negsuc 0, none, st)
  sem_new st (some sem) value =
      let (error, object, st') = alloc_endpoint st sem.object in
      let allocated : Sem = record sem { object = object } in
      if nonzero error
      then (error, some allocated, st')
      else (let (result, made) = sem_init (some allocated) object.cptr value in (result, made, st'))

  unfoldable pub mutex_new : State → Option Sem → ℤ × Option Sem × State
  unfolding bin_sem_new
  mutex_new st mutex = bin_sem_new st mutex (pos 1)

  unfoldable pub cv_new : State → Option CondVar → ℤ × Option CondVar × State
  unfolding cv_init
  cv_new st none = (negsuc 0, none, st)
  cv_new st (some cv) =
      let (error, object, st') = alloc_notification st cv.notification in
      let allocated : CondVar = record cv { notification = object } in
      if nonzero error
      then (error, some allocated, st')
      else (let (result, made) = cv_init (some allocated) object.cptr in (result, made, st'))

  -- `sync_bin_sem_destroy` and `sync_sem_destroy`, which free the object of their semaphore.
  unfoldable pub sem_destroy : State → Option Sem → ℤ × State
  sem_destroy st none = (negsuc 0, st)
  sem_destroy st (some sem) = (pos 0, free_object st sem.object)

  unfoldable pub mutex_destroy : State → Option Sem → ℤ × State
  unfolding sem_destroy
  mutex_destroy st mutex = sem_destroy st mutex

  unfoldable pub cv_destroy : State → Option CondVar → ℤ × State
  cv_destroy st none = (negsuc 0, st)
  cv_destroy st (some cv) = (pos 0, free_object st cv.notification)
