-- ===== src/Irq/Effects.antt =====
-- What each change of the bookkeeping of libsel4platsupport/src/irq.c keeps of its invariant.
use se_l4_libs.Prelude.{ℕ, ◌<◌, ◌≡◌, refl, sym, ◌∙◌, Bool, true, false, none, some}
use se_l4_libs.Prelude.Bits.{
  Bits, assign, assign_elim, assign-field, assign-same_field, assign_self, clash,
}
use se_l4_libs.Cspace.Path.{CspacePath}
use se_l4_libs.Irq.Defs.{IrqEntry, NtfnEntry, Irq, Platform, free_irq}
use se_l4_libs.Irq.Bind.{link, drop_badge, unpair}
use se_l4_libs.Irq.Register.{enter, leave}
use se_l4_libs.Irq.Notify.{provide_common}
use se_l4_libs.Irq.Linked.{IsPair, irq-IsLinked}
use se_l4_libs.Irq.Links.{drop-IsLinked, link-IsLinked}
use se_l4_libs.Irq.Clear.{unpaired-IsLinked, empty-IsLinked}
use se_l4_libs.Irq.Counts.{popcount_from-no_bits}
use se_l4_libs.Irq.Search.{
  IsTracked, IsTracked-assign, fill_bit_in_bitfield_lem, unfill_bit_in_bitfield_lem,
}
use se_l4_libs.Irq.Sound.{
  IsSound, IsCounted, IsUsableIrq, IsUsableNtfn, fill-IsCounted, unfill-IsCounted,
}

-- A table entry that is as much allocated as before.
pub IsTracked-same :
    {A : Type 0} (g : A → Bool) {array : ℕ → _} {table : ℕ → A} {limit : ℕ} (i : ℕ) (v : A)
    → g v ≡ g (table i)
    → IsTracked array (λ k. g (table k)) limit
    → IsTracked array (λ k. g (assign table i v k)) limit
IsTracked-same g {table = table} i v same tracked = record {
  tracks = λ j l. tracked.tracks j l ∙ sym (assign-same_field g table i v j same);
}

pub IsCounted-assign :
    (ntfns : ℕ → NtfnEntry) (limit n : ℕ) (t : NtfnEntry)
    → ((m : ℕ) → m < limit → IsCounted (ntfns m))
    → IsCounted t
    → (m : ℕ) → m < limit
    → IsCounted (assign ntfns n t m)
IsCounted-assign ntfns limit n t h here m l =
    assign_elim IsCounted ntfns n t m (λ q. here) (λ ne. h m l)

module _ (c : Irq) (sound : IsSound c) where
  -- An interrupt is entered.
  pub enter-IsSound :
      (id irq callback cell : ℕ) (path : CspacePath) → IsSound (enter c id irq callback cell path)
  unfolding enter
  enter-IsSound id irq callback cell path = record {
    linked = irq-IsLinked sound.linked id _ (refl, refl, refl);
    counted = sound.counted;
    irqs_tracked =
        IsTracked-assign id true sound.irqs_tracked (fill_bit_in_bitfield_lem c.irq_bitfields id)
          (λ j. assign-field (λ (e : IrqEntry). e.allocated) c.irq_table id _ j);
    ntfns_tracked = sound.ntfns_tracked;
  }

  -- An interrupt that is bound to nothing leaves.
  pub leave-IsSound : (i : ℕ) → (c.irq_table i).paired_ntfn ≡ none → IsSound (leave c i)
  unfolding leave
  leave-IsSound i unpaired = record {
    linked = unpaired-IsLinked sound.linked i free_irq unpaired refl;
    counted = sound.counted;
    irqs_tracked =
        IsTracked-assign i false sound.irqs_tracked (unfill_bit_in_bitfield_lem c.irq_bitfields i)
          (λ j. assign-field (λ (e : IrqEntry). e.allocated) c.irq_table i free_irq j);
    ntfns_tracked = sound.ntfns_tracked;
  }

  module _ (i n b : ℕ) (pair : IsPair (c.irq_table i) (c.ntfn_table n) i n b)
      (n_low : n < c.max_ntfn_ids) where
    -- A bound interrupt is unbound.
    pub unpair-drop_badge-IsSound : IsSound (unpair (drop_badge c n b) i)
    unfolding unpair drop_badge
    unpair-drop_badge-IsSound = record {
      linked = drop-IsLinked sound.linked pair _ refl _ (refl, refl, refl, refl);
      counted =
          IsCounted-assign c.ntfn_table c.max_ntfn_ids n _ sound.counted
            (unfill-IsCounted (c.ntfn_table n) b pair.in_badge pair.set (sound.counted n n_low));
      irqs_tracked = IsTracked-same (λ (e : IrqEntry). e.allocated) i _ refl sound.irqs_tracked;
      ntfns_tracked = IsTracked-same (λ (t : NtfnEntry). t.allocated) n _ refl sound.ntfns_tracked;
    }

    -- A bound interrupt leaves.
    pub leave-drop_badge-IsSound : IsSound (leave (drop_badge c n b) i)
    unfolding leave drop_badge
    leave-drop_badge-IsSound = record {
      linked = drop-IsLinked sound.linked pair free_irq refl _ (refl, refl, refl, refl);
      counted =
          IsCounted-assign c.ntfn_table c.max_ntfn_ids n _ sound.counted
            (unfill-IsCounted (c.ntfn_table n) b pair.in_badge pair.set (sound.counted n n_low));
      irqs_tracked =
          IsTracked-assign i false sound.irqs_tracked (unfill_bit_in_bitfield_lem c.irq_bitfields i)
            (λ j. assign-field (λ (e : IrqEntry). e.allocated) c.irq_table i free_irq j);
      ntfns_tracked = IsTracked-same (λ (t : NtfnEntry). t.allocated) n _ refl sound.ntfns_tracked;
    }

  -- An interrupt is bound to a free bit.
  pub link-IsSound :
      (i n b : ℕ) (path : CspacePath)
      → IsUsableIrq c i
      → IsUsableNtfn c n
      → (c.irq_table i).paired_ntfn ≡ none
      → b < 64
      → (c.ntfn_table n).usable_mask b ≡ true
      → (c.ntfn_table n).status b ≡ false
      → IsSound (link c n i b path)
  unfolding link
  link-IsSound i n b path (i_low, i_live) (n_low, n_live) unpaired low usable unset = record {
    linked =
        link-IsLinked sound.linked i_low n_low unpaired unset _ _ (refl, refl, refl, refl)
          record {
            paired = refl;
            index = refl;
            live_irq = i_live;
            live = n_live;
            set = assign_self (c.ntfn_table n).status b true;
            usable = usable;
            bound = assign_self (c.ntfn_table n).bound_irqs b (some i);
            in_badge = low;
          };
    counted =
        IsCounted-assign c.ntfn_table c.max_ntfn_ids n _ sound.counted
          (fill-IsCounted (c.ntfn_table n) b low unset (sound.counted n n_low));
    irqs_tracked = IsTracked-same (λ (e : IrqEntry). e.allocated) i _ refl sound.irqs_tracked;
    ntfns_tracked = IsTracked-same (λ (t : NtfnEntry). t.allocated) n _ refl sound.ntfns_tracked;
  }

  -- A notification is given for an id that is not in use.
  pub provide_common-IsSound :
      (p : Platform) (ntfn : ℕ) (mask : Bits) (id : ℕ)
      → (c.ntfn_table id).allocated ≡ false
      → IsSound (provide_common p c ntfn mask id)
  unfolding provide_common
  provide_common-IsSound p ntfn mask id idle = record {
    linked = empty-IsLinked sound.linked id _ (λ b l live. clash (sym live ∙ idle)) (λ b. refl);
    counted =
        IsCounted-assign c.ntfn_table c.max_ntfn_ids id _ sound.counted
          (sym (popcount_from-no_bits 64 0));
    irqs_tracked = sound.irqs_tracked;
    ntfns_tracked =
        IsTracked-assign id true sound.ntfns_tracked (fill_bit_in_bitfield_lem c.ntfn_bitfields id)
          (λ j. assign-field (λ (t : NtfnEntry). t.allocated) c.ntfn_table id _ j);
  }
