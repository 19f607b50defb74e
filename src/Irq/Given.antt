-- ===== src/Irq/Given.antt =====
-- The bookkeeping of libsel4platsupport/src/irq.c after registering and after giving and taking back notifications.
use se_l4_libs.Prelude.{
  ℕ, ◌<◌, ◌≡◌, refl, sym, ◌∙◌, Bool, true, false, Option, none, some, ◌==◌, ltb, leb, if◌then◌else◌,
  not, ◌||◌, arith, Bool-cases, inl, inr,
}
use se_l4_libs.Prelude.Int.{ℤ, pos, negsuc}
use se_l4_libs.Prelude.Outcome.{ok, err, abort}
use se_l4_libs.Prelude.Bits.{Bits, lowest}
use se_l4_libs.Cspace.Path.{CspacePath}
use se_l4_libs.Irq.Defs
use se_l4_libs.Irq.Defs.{
  IrqEntry, NtfnEntry, Irq, IfaceType, Platform, Step, usable_irq, usable_ntfn,
}
use se_l4_libs.Irq.Ids.{find_free_irq_id, find_free_ntfn_id}
use se_l4_libs.Irq.Register.{enter, register_common, unregister, register_mini, drop_handler}
use se_l4_libs.Irq.Register
use se_l4_libs.Irq.Notify.{provide_ntfn, provide_ntfn_with_id, return_ntfn, release_all}
use se_l4_libs.Irq.Notify
use se_l4_libs.Irq.Search.{find_free_ntfn_id_lem}
use se_l4_libs.Irq.Sound.{IsSound, IsUsableNtfn, Each, usable_ntfn_lem}
use se_l4_libs.Irq.Effects.{enter-IsSound, provide_common-IsSound}
use se_l4_libs.Irq.Release.{IsForgettable, release_all-IsForgettable}
use se_l4_libs.Irq.Ops.{IsSoundAfter}

module _ (p : Platform) (c : Irq) (sound : IsSound c) where
  open p use {State}

  pub register_common-IsSound :
      (st : State) (irq : ℕ) (callback : Option ℕ) (cell : ℕ)
      → IsSoundAfter p (register_common p c st irq callback cell)
  unfolding register_common
  register_common-IsSound st irq callback cell =
      elim (Bool-cases (leb c.max_irq_ids c.num_registered_irqs)) [
        | inl e ↦ rw e sound
        | inr e ↦ rw e (with callback)
      ]
    where
      entered :
          (failed low : Bool) (callback id : ℕ) (path : CspacePath) (st₂ st₃ : State)
          → IsSoundAfter p (
              if failed
              then (err Defs.efault, c, st₃)
              else if low
              then (ok id, enter c id irq callback cell path, st₂)
              else (abort, c, st₂))
      entered true low callback id path st₂ st₃ = sound
      entered false true callback id path st₂ st₃ = enter-IsSound c sound id irq callback cell path
      entered false false callback id path st₂ st₃ = sound

      with_free :
          (callback : ℕ) (o : Option ℕ)
          → IsSoundAfter p (Register.with_id p c st irq callback cell o)
      with_free callback none = sound
      with_free callback (some id) = entered _ (ltb id c.max_irq_ids) callback id _ _ _

      with : (o : Option ℕ) → IsSoundAfter p (Register.with_callback p c st irq o cell)
      with none = sound
      with (some f) = with_free f (find_free_irq_id c)

  provide_checked-IsSound :
      (st : State) (iface : IfaceType) (ntfn : ℕ) (mask : Bits) (go : Unit {0} → Step p ℕ)
      → IsSoundAfter p (go tt)
      → IsSoundAfter p (Notify.provide_checked p c st iface ntfn mask go)
  provide_checked-IsSound st iface ntfn mask go h =
      elim (Bool-cases ((ntfn == 0) || not (Notify.any_bit (lowest mask)))) [
        | inl e ↦ rw e sound
        | inr e ↦ rw e (of iface)
      ]
    where
      of :
          (iface : IfaceType)
          → IsSoundAfter p (elim iface [
            | IfaceType.mini ↦ (err Defs.eperm, c, st)
            | IfaceType.standard ↦
                if leb c.max_ntfn_ids c.num_allocated_ntfns then (err Defs.emfile, c, st) else go tt
          ])
      of IfaceType.mini = sound
      of IfaceType.standard = elim (Bool-cases (leb c.max_ntfn_ids c.num_allocated_ntfns)) [
        | inl e ↦ rw e sound
        | inr e ↦ rw e h
      ]

  pub provide_ntfn-IsSound :
      (st : State) (ntfn : ℕ) (mask : Bits) → IsSoundAfter p (provide_ntfn p c st ntfn mask)
  unfolding provide_ntfn
  provide_ntfn-IsSound st ntfn mask =
      provide_checked-IsSound st c.iface_type ntfn mask
        (λ u. Notify.provided p c st ntfn mask (find_free_ntfn_id c))
        (given (find_free_ntfn_id c) refl)
    where
      given :
          (o : Option ℕ)
          → find_free_ntfn_id c ≡ o
          → IsSoundAfter p (Notify.provided p c st ntfn mask o)
      given none e = sound
      given (some id) e = elim (Bool-cases (ltb id c.max_ntfn_ids)) [
        | inl low ↦ rw low (
            provide_common-IsSound c sound p ntfn mask id
              (sym (sound.ntfns_tracked.tracks id (ground arith)) ∙ find_free_ntfn_id_lem c id e))
        | inr high ↦ rw high sound
      ]

  pub provide_ntfn_with_id-IsSound :
      (st : State) (ntfn : ℕ) (mask : Bits) (hint : ℤ)
      → IsSoundAfter p (provide_ntfn_with_id p c st ntfn mask hint)
  unfolding provide_ntfn_with_id
  provide_ntfn_with_id-IsSound st ntfn mask hint =
      provide_checked-IsSound st c.iface_type ntfn mask
        (λ u. Notify.provided_at p c st ntfn mask hint) (given hint)
    where
      given : (hint : ℤ) → IsSoundAfter p (Notify.provided_at p c st ntfn mask hint)
      given (negsuc k) = sound
      given (pos id) = elim (Bool-cases (leb c.max_ntfn_ids id)) [
        | inl high ↦ rw high sound
        | inr low ↦ rw low (elim (Bool-cases (c.ntfn_table id).allocated) [
          | inl e ↦ rw e sound
          | inr e ↦ rw e (provide_common-IsSound c sound p ntfn mask id e)
        ])
      ]

  pub return_ntfn-IsSound : (st : State) (ntfn_id : ℤ) → IsSoundAfter p (return_ntfn p c st ntfn_id)
  unfolding return_ntfn
  return_ntfn-IsSound st ntfn_id =
      at c.iface_type (usable_ntfn c ntfn_id) (usable_ntfn_lem c ntfn_id)
    where
      all :
          (n : ℕ) (o : Option (Irq × State)) (low : n < c.max_ntfn_ids)
          → IsForgettable p c n low sound o
          → IsSoundAfter p (Notify.returned p c st n o)
      all n none low h = sound
      all n (some (d, st')) low h = h.0

      at :
          (iface : IfaceType) (n : Option ℕ)
          → Each (IsUsableNtfn c) n
          → IsSoundAfter p (Notify.return_checked p c st iface n)
      at IfaceType.mini n n_ok = sound
      at IfaceType.standard none n_ok = sound
      at IfaceType.standard (some n) (low, live) =
          all n (release_all p c st n) low (release_all-IsForgettable p c n low sound st)
