-- ===== src/Irq/Unbound.antt =====
-- `unset_ntfn` and `unregister` of libsel4platsupport/src/irq.c, on each branch.
use se_l4_libs.Prelude.{
  ℕ, ◌<◌, ◌≡◌, ◌≢◌, refl, sym, ap, ◌∙◌, subst, Bool, true, false, Option, none, some, if◌then◌else◌,
}
use mathlib.Core.Option.{some-injective}
use se_l4_libs.Prelude.Int.{ℤ}
use se_l4_libs.Prelude.Outcome.{ok, err, abort}
use se_l4_libs.Prelude.Bits.{assign_self, assign_ne, none_clash}
use se_l4_libs.Cspace.Path.{CspacePath}
use se_l4_libs.Irq.Defs
use se_l4_libs.Irq.Defs.{
  IrqEntry, NtfnEntry, Irq, IfaceType, Platform, Step, free_irq, blank_ntfn, usable_irq,
  usable_ntfn,
}
use se_l4_libs.Irq.Bind
use se_l4_libs.Irq.Bind.{unset_ntfn, unpair, drop_badge}
use se_l4_libs.Irq.Register
use se_l4_libs.Irq.Register.{leave, unregister, drop_handler}
use se_l4_libs.Irq.Linked.{IsPair}
use se_l4_libs.Irq.Sound.{IsSound, IsUsableIrq, Each, usable_irq_lem}

-- Only interrupt `i` and notification `n` changed.
abbrev pub IsElsewhereSame : Irq → Irq → ℕ → ℕ → Type 0
IsElsewhereSame c c' i n =
    ((j : ℕ) → i ≢ j → c'.irq_table j ≡ c.irq_table j)
    × ((m : ℕ) → n ≢ m → c'.ntfn_table m ≡ c.ntfn_table m)

-- The bit `b` of notification `n` is free again.
abbrev pub IsBitFree : Irq → ℕ → ℕ → Type 0
IsBitFree c n b =
    ((c.ntfn_table n).status b ≡ false)
    × ((c.ntfn_table n).pending b ≡ false)
    × ((c.ntfn_table n).bound_irqs b ≡ none)

module _ (p : Platform) (c : Irq) (sound : IsSound c) where
  open p use {State}

  drop_badge-IsBitFree : (n b : ℕ) → IsBitFree (drop_badge c n b) n b
  unfolding drop_badge
  drop_badge-IsBitFree n b =
      subst
        (λ (t : NtfnEntry). (t.status b ≡ false) × (t.pending b ≡ false) × (t.bound_irqs b ≡ none))
        (sym (assign_self c.ntfn_table n _))
        (
          assign_self (c.ntfn_table n).status b false,
          assign_self (c.ntfn_table n).pending b false,
          assign_self (c.ntfn_table n).bound_irqs b none,
        )

  -- The index that an interrupt's entry holds is that of its pair.
  index_of :
      (i n : ℕ) (o : Option ℕ)
      → i < c.max_irq_ids
      → (c.irq_table i).paired_ntfn ≡ some n
      → (c.irq_table i).badge_index ≡ o
      → (b : ℕ) × (o ≡ some b) × IsPair (c.irq_table i) (c.ntfn_table n) i n b
  index_of i n o low e index =
      (let (n_low, (b, pair)) = sound.linked.forth i n low e in (b, sym index ∙ pair.index, pair))

  -- The result of unsetting and the bookkeeping after it.
  abbrev pub IsUnset : ℕ → Step p (Unit {0}) → Type 0
  IsUnset i (ok done, c', st) =
      (n : ℕ) × (b : ℕ) × IsPair (c.irq_table i) (c.ntfn_table n) i n b
      × ((c'.irq_table i).paired_ntfn ≡ none)
      × ((c'.irq_table i).allocated ≡ true)
      × IsBitFree c' n b
      × IsElsewhereSame c c' i n
  IsUnset i (err e, c', st) = c' ≡ c
  IsUnset i (abort, c', st) = ⊥

  -- The result of unregistering and the bookkeeping after it.
  abbrev pub IsGone : ℕ → Step p (Unit {0}) → Type 0
  IsGone i (ok done, c', st) =
      (c'.irq_table i ≡ free_irq)
      × ((n b : ℕ) → IsPair (c.irq_table i) (c.ntfn_table n) i n b → IsBitFree c' n b)
      × ((j : ℕ) → i ≢ j → c'.irq_table j ≡ c.irq_table j)
  IsGone i (err e, c', st) = c' ≡ c
  IsGone i (abort, c', st) = ⊥

  unpair_dropped :
      (i n b : ℕ) (st : State)
      → IsUsableIrq c i
      → IsPair (c.irq_table i) (c.ntfn_table n) i n b
      → IsUnset i (ok tt, unpair (drop_badge c n b) i, st)
  unfolding unpair drop_badge
  unpair_dropped i n b st (low, live) pair = (
    n,
    b,
    pair,
    ap (λ (e : IrqEntry). e.paired_ntfn) (assign_self c.irq_table i _),
    ap (λ (e : IrqEntry). e.allocated) (assign_self c.irq_table i _) ∙ live,
    drop_badge-IsBitFree n b,
    ((λ j ne. assign_ne c.irq_table i j _ ne), (λ m ne. assign_ne c.ntfn_table n m _ ne)),
  )

  pub unset_paired-IsUnset :
      (st : State) (i : ℕ)
      → IsUsableIrq c i
      → IsUnset i (Bind.unset_paired p c st i (c.irq_table i).paired_ntfn)
  unset_paired-IsUnset st i i_ok = paired (c.irq_table i).paired_ntfn refl
    where
      cleared :
          (failed : Bool) (n b : ℕ) (o : Option ℕ)
          → o ≡ some b
          → IsPair (c.irq_table i) (c.ntfn_table n) i n b
          → (st₁ st₃ : State)
          → IsUnset i (
              if failed
              then (err Defs.efault, c, st₁)
              else Bind.unset_dropped p c st₃ i (Bind.drop_index p c n o))
      cleared true n b o q pair st₁ st₃ = refl
      cleared false n b none q pair st₁ st₃ = none_clash q
      cleared false n b (some k) q pair st₁ st₃ = unpair_dropped i n k st₃ i_ok (
          subst (λ (v : ℕ). IsPair (c.irq_table i) (c.ntfn_table n) i n v)
            (sym (some-injective k b q)) pair)

      paired :
          (o : Option ℕ)
          → (c.irq_table i).paired_ntfn ≡ o
          → IsUnset i (Bind.unset_paired p c st i o)
      paired none e = refl
      paired (some n) e =
          (let (b, q, pair) = index_of i n (c.irq_table i).badge_index i_ok.0 e refl in
            cleared _ n b (c.irq_table i).badge_index q pair _ _)

  leave_dropped :
      (i n b : ℕ) (st : State)
      → IsPair (c.irq_table i) (c.ntfn_table n) i n b
      → IsGone i (ok tt, leave (drop_badge c n b) i, st)
  unfolding leave drop_badge
  leave_dropped i n b st pair = (
    assign_self c.irq_table i free_irq,
    (λ m k pair'.
        (let n_m = some-injective n m (sym pair.paired ∙ pair'.paired) in
          let b_k = some-injective b k (sym pair.index ∙ pair'.index) in
          subst (λ (v : ℕ). IsBitFree (drop_badge c n b) v k) n_m
            (subst (λ (v : ℕ). IsBitFree (drop_badge c n b) n v) b_k (drop_badge-IsBitFree n b)))),
    (λ j ne. assign_ne c.irq_table i j free_irq ne),
  )

  -- Unregistering an interrupt that is in use.
  pub unregister_paired-IsGone :
      (st : State) (i : ℕ)
      → IsUsableIrq c i
      → IsGone i (Register.unregister_paired p c st i (c.irq_table i).paired_ntfn)
  unfolding drop_handler leave
  unregister_paired-IsGone st i i_ok = paired (c.irq_table i).paired_ntfn refl
    where
      cleared :
          (failed : Bool) (n b : ℕ) (o : Option ℕ) (handler : CspacePath)
          → o ≡ some b
          → IsPair (c.irq_table i) (c.ntfn_table n) i n b
          → (st₁ st₃ : State)
          → IsGone i (
              if failed
              then (err Defs.efault, c, st₁)
              else Register.dropped p c st₃ i handler (Bind.drop_index p c n o))
      cleared true n b o handler q pair st₁ st₃ = refl
      cleared false n b none handler q pair st₁ st₃ = none_clash q
      cleared false n b (some k) handler q pair st₁ st₃ =
          leave_dropped i n k (p.free_path (p.delete st₃ handler).1 handler) (
            subst (λ (v : ℕ). IsPair (c.irq_table i) (c.ntfn_table n) i n v)
              (sym (some-injective k b q)) pair)

      paired :
          (o : Option ℕ)
          → (c.irq_table i).paired_ntfn ≡ o
          → IsGone i (Register.unregister_paired p c st i o)
      paired none e = (
        assign_self c.irq_table i free_irq,
        (λ n b pair. none_clash (sym e ∙ pair.paired)),
        (λ j ne. assign_ne c.irq_table i j free_irq ne),
      )
      paired (some n) e =
          (let (b, q, pair) = index_of i n (c.irq_table i).badge_index i_ok.0 e refl in
            cleared _ n b (c.irq_table i).badge_index _ q pair _ _)

  -- In sound bookkeeping of a standard interface, for an interrupt in use: `unset_ntfn` does not end the program; when
  -- it succeeds the interrupt was bound, is bound to nothing and still in use, its bit of the notification is free
  -- and not pending, and the other entries are as before; when it fails nothing changes.
  pub unset_ntfn-IsUnset :
      (st : State) (irq_id : ℤ) (i : ℕ)
      → c.iface_type ≡ IfaceType.standard
      → usable_irq c irq_id ≡ some i
      → IsUnset i (unset_ntfn p c st irq_id)
  unfolding unset_ntfn
  unset_ntfn-IsUnset st irq_id i standard i_is =
      subst (λ (f : IfaceType). IsUnset i (Bind.unset_checked p c st f (usable_irq c irq_id)))
        (sym standard)
        (rw i_is
          (unset_paired-IsUnset st i (subst (Each (IsUsableIrq c)) i_is (usable_irq_lem c irq_id))))

  -- In sound bookkeeping, for an interrupt in use: `unregister` does not end the program; when it succeeds the
  -- entry is cleared, the bit that the interrupt was bound to is free, and the other interrupts are as before;
  -- when it fails nothing changes.
  pub unregister-IsGone :
      (st : State) (irq_id : ℤ) (i : ℕ)
      → usable_irq c irq_id ≡ some i
      → IsGone i (unregister p c st irq_id)
  unfolding unregister
  unregister-IsGone st irq_id i i_is =
      rw i_is (
        unregister_paired-IsGone st i (subst (Each (IsUsableIrq c)) i_is (usable_irq_lem c irq_id)))
