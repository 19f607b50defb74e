-- ===== src/Irq/Ops.antt =====
-- The bookkeeping of libsel4platsupport/src/irq.c after binding, unbinding and unregistering, on all answers of the
-- platform.
use se_l4_libs.Prelude.{
  ℕ, ◌<◌, ◌≡◌, refl, sym, ◌∙◌, subst, Bool, true, false, Option, none, some, leb, if◌then◌else◌,
  Bool-cases, inl, inr,
}
use se_l4_libs.Prelude.Int.{ℤ}
use se_l4_libs.Prelude.Outcome.{Outcome, ok, err, abort}
use mathlib.Core.Option.{some-injective}
use se_l4_libs.Cspace.Path.{CspacePath}
use se_l4_libs.Irq.Defs
use se_l4_libs.Irq.Defs.{
  IrqEntry, NtfnEntry, Irq, IfaceType, Platform, Step, usable_irq, usable_ntfn,
}
use se_l4_libs.Irq.Ids.{find_free_ntfn_badge_index}
use se_l4_libs.Irq.Bind.{set_ntfn_common, set_ntfn, unset_ntfn}
use se_l4_libs.Irq.Bind
use se_l4_libs.Irq.Register.{enter, register_common, unregister, register_mini, drop_handler}
use se_l4_libs.Irq.Register
use se_l4_libs.Irq.Linked.{IsPair}
use se_l4_libs.Irq.Search.{find_free_ntfn_badge_index_lem}
use se_l4_libs.Irq.Sound.{IsSound, IsUsableIrq, IsUsableNtfn, Each, usable_irq_lem, usable_ntfn_lem}
use se_l4_libs.Irq.Effects.{
  leave-IsSound, unpair-drop_badge-IsSound, leave-drop_badge-IsSound, link-IsSound,
}

-- The bookkeeping after a step.
abbrev pub IsSoundAfter : (p : Platform) {A : Type 0} → Step p A → Type 0
IsSoundAfter p (result, c, st) = IsSound c

module _ (p : Platform) (c : Irq) (sound : IsSound c) where
  open p use {State}

  pub set_ntfn_common-IsSound :
      (st : State) (n i : ℕ)
      → IsUsableNtfn c n
      → IsUsableIrq c i
      → IsSoundAfter p (set_ntfn_common p c st n i)
  unfolding set_ntfn_common
  set_ntfn_common-IsSound st n i n_ok i_ok = paired (c.irq_table i).paired_ntfn refl
    where
      made :
          (b : ℕ)
          → (c.irq_table i).paired_ntfn ≡ none
          → (b < 64) × ((c.ntfn_table n).usable_mask b ≡ true) × ((c.ntfn_table n).status b ≡ false)
          → (r : Outcome CspacePath × State) → IsSoundAfter p (Bind.linked p c n i b r)
      made b unpaired (low, usable, unset) (ok path, st') =
          link-IsSound c sound i n b path i_ok n_ok unpaired low usable unset
      made b unpaired free (err e, st') = sound
      made b unpaired free (abort, st') = sound

      badge :
          (o : Option ℕ)
          → find_free_ntfn_badge_index (c.ntfn_table n) ≡ o
          → (c.irq_table i).paired_ntfn ≡ none
          → IsSoundAfter p (Bind.with_badge p c st n i o)
      badge none e unpaired = sound
      badge (some b) e unpaired =
          made b unpaired (find_free_ntfn_badge_index_lem (c.ntfn_table n) b e) _

      paired :
          (o : Option ℕ)
          → (c.irq_table i).paired_ntfn ≡ o
          → IsSoundAfter p (Bind.if_unpaired p c st n i o)
      paired (some m) e = sound
      paired none e = elim (Bool-cases (leb 64 (c.ntfn_table n).num_irqs_bound)) [
        | inl full ↦ rw full sound
        | inr room ↦ rw room (badge (find_free_ntfn_badge_index (c.ntfn_table n)) refl e)
      ]

  -- `sel4platsupport_irq_set_ntfn` keeps the invariant, for all ids and whatever the calls return.
  pub set_ntfn-IsSound :
      (st : State) (ntfn_id irq_id : ℤ) → IsSoundAfter p (set_ntfn p c st ntfn_id irq_id)
  unfolding set_ntfn
  set_ntfn-IsSound st ntfn_id irq_id =
      at c.iface_type (usable_ntfn c ntfn_id) (usable_irq c irq_id) (usable_ntfn_lem c ntfn_id)
        (usable_irq_lem c irq_id)
    where
      at :
          (iface : IfaceType) (n i : Option ℕ)
          → Each (IsUsableNtfn c) n
          → Each (IsUsableIrq c) i
          → IsSoundAfter p (Bind.set_checked p c st iface n i)
      at IfaceType.mini n i n_ok i_ok = sound
      at IfaceType.standard none i n_ok i_ok = sound
      at IfaceType.standard (some n) none n_ok i_ok = sound
      at IfaceType.standard (some n) (some i) n_ok i_ok = set_ntfn_common-IsSound st n i n_ok i_ok

  -- The index of a bound interrupt.
  pub pair_of :
      (i n : ℕ)
      → i < c.max_irq_ids
      → (c.irq_table i).paired_ntfn ≡ some n
      → (n < c.max_ntfn_ids) × ((b : ℕ) × IsPair (c.irq_table i) (c.ntfn_table n) i n b)
  pair_of i n low e = sound.linked.forth i n low e

  pub unset_ntfn-IsSound : (st : State) (irq_id : ℤ) → IsSoundAfter p (unset_ntfn p c st irq_id)
  unfolding unset_ntfn
  unset_ntfn-IsSound st irq_id = at c.iface_type (usable_irq c irq_id) (usable_irq_lem c irq_id)
    where
      cleared :
          (failed : Bool) (i n : ℕ) (o : Option ℕ)
          → (c.irq_table i).badge_index ≡ o
          → i < c.max_irq_ids
          → (c.irq_table i).paired_ntfn ≡ some n
          → (st₁ st₃ : State)
          → IsSoundAfter p (
              if failed
              then (err Defs.efault, c, st₁)
              else Bind.unset_dropped p c st₃ i (Bind.drop_index p c n o))
      cleared true i n o index low e st₁ st₃ = sound
      cleared false i n none index low e st₁ st₃ = sound
      cleared false i n (some b) index low e st₁ st₃ =
          (let (n_low, (k, pair)) = pair_of i n low e in
            let same : k ≡ b = some-injective k b (sym pair.index ∙ index) in
            unpair-drop_badge-IsSound c sound i n b
              (subst (λ (v : ℕ). IsPair (c.irq_table i) (c.ntfn_table n) i n v) same pair) n_low)

      paired :
          (i : ℕ) (o : Option ℕ)
          → (c.irq_table i).paired_ntfn ≡ o
          → i < c.max_irq_ids
          → IsSoundAfter p (Bind.unset_paired p c st i o)
      paired i none e low = sound
      paired i (some n) e low = cleared _ i n (c.irq_table i).badge_index refl low e _ _

      at :
          (iface : IfaceType) (i : Option ℕ)
          → Each (IsUsableIrq c) i
          → IsSoundAfter p (Bind.unset_checked p c st iface i)
      at IfaceType.mini i i_ok = sound
      at IfaceType.standard none i_ok = sound
      at IfaceType.standard (some i) (low, live) = paired i (c.irq_table i).paired_ntfn refl low

  pub unregister-IsSound : (st : State) (irq_id : ℤ) → IsSoundAfter p (unregister p c st irq_id)
  unfolding unregister drop_handler
  unregister-IsSound st irq_id = at (usable_irq c irq_id) (usable_irq_lem c irq_id)
    where
      cleared :
          (failed : Bool) (i n : ℕ) (handler : CspacePath) (o : Option ℕ)
          → (c.irq_table i).badge_index ≡ o
          → i < c.max_irq_ids
          → (c.irq_table i).paired_ntfn ≡ some n
          → (st₁ st₃ : State)
          → IsSoundAfter p (
              if failed
              then (err Defs.efault, c, st₁)
              else Register.dropped p c st₃ i handler (Bind.drop_index p c n o))
      cleared true i n handler o index low e st₁ st₃ = sound
      cleared false i n handler none index low e st₁ st₃ = sound
      cleared false i n handler (some b) index low e st₁ st₃ =
          (let (n_low, (k, pair)) = pair_of i n low e in
            let same : k ≡ b = some-injective k b (sym pair.index ∙ index) in
            leave-drop_badge-IsSound c sound i n b
              (subst (λ (v : ℕ). IsPair (c.irq_table i) (c.ntfn_table n) i n v) same pair) n_low)

      paired :
          (i : ℕ) (o : Option ℕ)
          → (c.irq_table i).paired_ntfn ≡ o
          → i < c.max_irq_ids
          → IsSoundAfter p (Register.unregister_paired p c st i o)
      paired i none e low = leave-IsSound c sound i e
      paired i (some n) e low = cleared _ i n _ (c.irq_table i).badge_index refl low e _ _

      at :
          (i : Option ℕ) → Each (IsUsableIrq c) i → IsSoundAfter p (Register.unregister_at p c st i)
      at none i_ok = sound
      at (some i) (low, live) = paired i (c.irq_table i).paired_ntfn refl low
