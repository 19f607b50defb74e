-- ===== src/Irq/Results.antt =====
-- What the calls of libsel4platsupport/src/irq.c that bind and unbind interrupts do on each branch.
use se_l4_libs.Prelude.{
  ℕ, ◌+◌, ◌*◌, ◌^◌, ◌≤◌, ◌<◌, ◌≡◌, ◌≢◌, ◌⊎◌, lt→ltb, refl, sym, ap, ◌∙◌, subst, Bool, true, false,
  Option, none, some, leb, if◌then◌else◌, arith, Bool-cases, inl, inr,
}
use mathlib.Core.Option.{none-ne-some}
use se_l4_libs.Prelude.Int.{ℤ}
use se_l4_libs.Prelude.Outcome.{Outcome, ok, err, abort}
use se_l4_libs.Prelude.Bits.{assign, assign_self, assign_ne, clash}
use se_l4_libs.Cspace.Path.{CspacePath}
use se_l4_libs.Irq.Defs
use se_l4_libs.Irq.Defs.{
  IrqEntry, NtfnEntry, Irq, IfaceType, Platform, Step, free_irq, usable_irq, usable_ntfn,
}
use se_l4_libs.Irq.Ids.{find_free_ntfn_badge_index, find_free_irq_id}
use se_l4_libs.Irq.Bind
use se_l4_libs.Irq.Bind.{set_ntfn_common, set_ntfn, unset_ntfn, link, unpair, drop_badge}
use se_l4_libs.Irq.Register
use se_l4_libs.Irq.Register.{enter, leave, register_common, unregister, drop_handler}
use se_l4_libs.Irq.Linked.{IsPair, IsPair-assigned}
use se_l4_libs.Irq.Search.{
  find_free_ntfn_badge_index_lem, find_free_irq_id_lem, find_free_irq_id_first,
}
use se_l4_libs.Irq.Sound.{IsSound, IsUsableIrq, IsUsableNtfn, Each, usable_irq_lem, usable_ntfn_lem}

module _ (p : Platform) (c : Irq) where
  open p use {State}

  -- A registration's result and the bookkeeping after it.
  abbrev pub IsRegistered : ℕ → Option ℕ → ℕ → Step p ℕ → Type 0
  IsRegistered irq callback cell (ok id, c', st) =
      (c.num_registered_irqs < c.max_irq_ids)
      × (id < c.max_irq_ids)
      × ((c.irq_table id).allocated ≡ false)
      × ((c'.irq_table id).allocated ≡ true)
      × ((c'.irq_table id).irq ≡ irq)
      × ((c'.irq_table id).callback ≡ callback)
      × ((c'.irq_table id).callback_data ≡ cell)
      × ((j : ℕ) → id ≢ j → c'.irq_table j ≡ c.irq_table j)
      × (c'.ntfn_table ≡ c.ntfn_table)
  IsRegistered irq callback cell (err e, c', st) =
      (c' ≡ c)
      × (((e ≡ Defs.emfile) × (c.max_irq_ids ≤ c.num_registered_irqs))
          ⊎ ((c.num_registered_irqs < c.max_irq_ids)
              × (((e ≡ Defs.einval) × (callback ≡ none))
                  ⊎ ((e ≡ Defs.efault) × (callback ≢ none)))))
  IsRegistered irq callback cell (abort, c', st) = ⊥

  -- The bitfields have a word more than the ids take, and while the count is below the limit an id is free.
  pub record HasRoom : Type 0 where
    pub wide : c.max_irq_ids + 64 ≤ c.num_irq_bitfields * 64
    pub few : c.num_irq_bitfields < 2 ^ 64
    pub free :
        c.num_registered_irqs < c.max_irq_ids
        → (j : ℕ) × (j < c.max_irq_ids) × ((c.irq_table j).allocated ≡ false)

  -- In sound bookkeeping whose bitfields have a word more than the ids take, and in which an id is free while the
  -- count is below the limit: a registration returns `-EMFILE` exactly at the limit, `-EINVAL` or `-EFAULT` only below
  -- it and without or with a callback, changing nothing; one that succeeds is below the limit and returns an id inside
  -- the table that was free, and only that id's entry changes: it is in use with the interrupt, the callback and the
  -- callback's data. Nothing is written outside of the table.
  pub register_common-IsRegistered :
      IsSound c
      → HasRoom
      → (st : State) (irq : ℕ) (callback : Option ℕ) (cell : ℕ)
      → IsRegistered irq callback cell (register_common p c st irq callback cell)
  unfolding register_common enter
  register_common-IsRegistered sound room st irq callback cell =
      elim (Bool-cases (leb c.max_irq_ids c.num_registered_irqs)) [
        | inl e ↦ rw e (refl, inl (refl, ground arith))
        | inr e ↦ rw e (with (ground arith) callback)
      ]
    where
      entered :
          (f id : ℕ) (path : CspacePath) (st : State)
          → c.num_registered_irqs < c.max_irq_ids
          → id < c.max_irq_ids
          → (c.irq_table id).allocated ≡ false
          → IsRegistered irq (some f) cell (ok id, enter c id irq f cell path, st)
      entered f id path st below low idle =
          (let new : IrqEntry = record (c.irq_table id) {
            allocated = true;
            irq = irq;
            handler_path = path;
            callback = some f;
            callback_data = cell;
          } in
            let here : assign c.irq_table id new id ≡ new = assign_self c.irq_table id new in
            (
              below,
              low,
              idle,
              ap (λ (e : IrqEntry). e.allocated) here,
              ap (λ (e : IrqEntry). e.irq) here,
              ap (λ (e : IrqEntry). e.callback) here,
              ap (λ (e : IrqEntry). e.callback_data) here,
              (λ j ne. assign_ne c.irq_table id j new ne),
              refl,
            ))

      copied :
          (failed : Bool) (f id : ℕ) (path : CspacePath) (st₂ st₃ : State)
          → c.num_registered_irqs < c.max_irq_ids
          → id < c.max_irq_ids
          → find_free_irq_id c ≡ some id
          → IsRegistered irq (some f) cell (
              if failed
              then (err Defs.efault, c, st₃)
              else Register.written p c st₂ id irq f cell path)
      copied true f id path st₂ st₃ below low e =
          (refl, inr (below, inr (refl, λ q. none-ne-some f (sym q))))
      copied false f id path st₂ st₃ below low e = rw (lt→ltb _ _ low) (
          entered f id path st₂ below low
            (sym (sound.irqs_tracked.tracks id low) ∙ find_free_irq_id_lem c id e))

      with :
          c.num_registered_irqs < c.max_irq_ids
          → (o : Option ℕ) → IsRegistered irq o cell (Register.with_callback p c st irq o cell)
      with below none = (refl, inr (below, inl (refl, refl)))
      with below (some f) =
          (let (j, low, idle) = room.free below in
            let (id, found, first) =
              find_free_irq_id_first c j room.wide room.few low
                (sound.irqs_tracked.tracks j low ∙ idle) in
            subst (λ o. IsRegistered irq (some f) cell (Register.with_id p c st irq f cell o))
              (sym found) (copied _ f id _ _ _ below (omega arith) found))

  -- The result of setting a notification and the bookkeeping after it.
  abbrev pub IsBound : ℕ → ℕ → Step p ℕ → Type 0
  IsBound n i (ok b, c', st) =
      ((c.irq_table i).paired_ntfn ≡ none)
      × ((c.ntfn_table n).usable_mask b ≡ true)
      × ((j : ℕ) → ¬ IsPair (c.irq_table j) (c.ntfn_table n) j n b)
      × IsPair (c'.irq_table i) (c'.ntfn_table n) i n b
      × ((j : ℕ) → i ≢ j → c'.irq_table j ≡ c.irq_table j)
      × ((m : ℕ) → n ≢ m → c'.ntfn_table m ≡ c.ntfn_table m)
  IsBound n i (err e, c', st) = c' ≡ c
  IsBound n i (abort, c', st) = c' ≡ c

  pub set_ntfn_common-IsBound :
      (st : State) (n i : ℕ)
      → IsUsableNtfn c n
      → IsUsableIrq c i
      → IsBound n i (set_ntfn_common p c st n i)
  unfolding set_ntfn_common link
  set_ntfn_common-IsBound st n i (n_low, n_live) (i_low, i_live) =
      paired (c.irq_table i).paired_ntfn refl
    where
      bound :
          (b : ℕ) (path : CspacePath) (st : State)
          → (c.irq_table i).paired_ntfn ≡ none
          → (b < 64) × ((c.ntfn_table n).usable_mask b ≡ true) × ((c.ntfn_table n).status b ≡ false)
          → IsBound n i (ok b, link c n i b path, st)
      bound b path st unpaired (low, usable, unset) = (
        unpaired,
        usable,
        (λ j old. clash (sym old.set ∙ unset)),
        IsPair-assigned c.irq_table c.ntfn_table record {
          paired = refl;
          index = refl;
          live_irq = i_live;
          live = n_live;
          set = assign_self (c.ntfn_table n).status b true;
          usable = usable;
          bound = assign_self (c.ntfn_table n).bound_irqs b (some i);
          in_badge = low;
        },
        (λ j ne. assign_ne c.irq_table i j _ ne),
        (λ m ne. assign_ne c.ntfn_table n m _ ne),
      )

      made :
          (b : ℕ)
          → (c.irq_table i).paired_ntfn ≡ none
          → (b < 64) × ((c.ntfn_table n).usable_mask b ≡ true) × ((c.ntfn_table n).status b ≡ false)
          → (r : Outcome CspacePath × State) → IsBound n i (Bind.linked p c n i b r)
      made b unpaired free (ok path, st') = bound b path st' unpaired free
      made b unpaired free (err e, st') = refl
      made b unpaired free (abort, st') = refl

      badge :
          (o : Option ℕ)
          → find_free_ntfn_badge_index (c.ntfn_table n) ≡ o
          → (c.irq_table i).paired_ntfn ≡ none
          → IsBound n i (Bind.with_badge p c st n i o)
      badge none e unpaired = refl
      badge (some b) e unpaired =
          made b unpaired (find_free_ntfn_badge_index_lem (c.ntfn_table n) b e) _

      paired :
          (o : Option ℕ)
          → (c.irq_table i).paired_ntfn ≡ o
          → IsBound n i (Bind.if_unpaired p c st n i o)
      paired (some m) e = refl
      paired none e = elim (Bool-cases (leb 64 (c.ntfn_table n).num_irqs_bound)) [
        | inl full ↦ rw full refl
        | inr room ↦ rw room (badge (find_free_ntfn_badge_index (c.ntfn_table n)) refl e)
      ]

  -- On a standard interface, for ids of a notification and an interrupt in use: when setting succeeds, the interrupt
  -- was bound to nothing, the returned bit is usable and was no other interrupt's, both entries name each other, and
  -- the other entries are as before; when it fails the bookkeeping is as before.
  pub set_ntfn-IsBound :
      (st : State) (ntfn_id irq_id : ℤ) (n i : ℕ)
      → c.iface_type ≡ IfaceType.standard
      → usable_ntfn c ntfn_id ≡ some n
      → usable_irq c irq_id ≡ some i
      → IsBound n i (set_ntfn p c st ntfn_id irq_id)
  unfolding set_ntfn
  set_ntfn-IsBound st ntfn_id irq_id n i standard n_is i_is =
      subst
        (λ (f : IfaceType).
          IsBound n i (Bind.set_checked p c st f (usable_ntfn c ntfn_id) (usable_irq c irq_id)))
        (sym standard)
        (rw n_is (
          rw i_is (
            set_ntfn_common-IsBound st n i
              (subst (Each (IsUsableNtfn c)) n_is (usable_ntfn_lem c ntfn_id))
              (subst (Each (IsUsableIrq c)) i_is (usable_irq_lem c irq_id)))))
