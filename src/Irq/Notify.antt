-- ===== src/Irq/Notify.antt =====
-- Notifications given to the interface and taken back.
use se_l4_libs.Prelude.{
  ℕ, zero, suc, ◌+◌, Bool, true, false, not, ◌||◌, Option, none, some, leb, ltb, ◌==◌,
  if◌then◌else◌, add_size, sub_size,
}
use se_l4_libs.Prelude.Int.{ℤ, pos, negsuc, nonzero}
use se_l4_libs.Prelude.Outcome.{Outcome, ok, err, abort}
use se_l4_libs.Prelude.Bits.{Bits, lowest, each_bit}
use se_l4_libs.Irq.Defs.{
  Irq, IfaceType, Platform, Step, eperm, einval, emfile, eaddrinuse, enomem, blank_ntfn,
  set_ntfn_entry, usable_ntfn,
}
use se_l4_libs.Irq.Ids.{find_free_ntfn_id, fill_bit_in_bitfield, unfill_bit_in_bitfield}
use se_l4_libs.Irq.Bind.{unpair}
use se_l4_libs.Irq.Register.{new_common}

-- The number of bits of a word, `POPCOUNTL`
abbrev pub popcount_from : ℕ → ℕ → Bits → ℕ
popcount_from zero i w = 0
popcount_from (suc rounds) i w = (if w i then 1 else 0) + popcount_from rounds (suc i) w

-- A mask that is not 0
abbrev pub any_bit : Option ℕ → Bool
any_bit none = false
any_bit (some b) = true

module _ (p : Platform) where
  open p use {State, make_path, delete, clear}

  -- `provide_ntfn_common`; `memset` leaves 0 in `bound_irqs`, not the -1 of the other resets.
  unfoldable pub provide_common : Irq → ℕ → Bits → ℕ → Irq
  unfolding fill_bit_in_bitfield
  provide_common c ntfn usable_mask id =
      record (set_ntfn_entry c id (record (blank_ntfn (some 0)) {
        allocated = true;
        root_ntfn_path = make_path ntfn;
        usable_mask = usable_mask;
      })) {
        num_allocated_ntfns = add_size c.num_allocated_ntfns 1;
        ntfn_bitfields = fill_bit_in_bitfield c.ntfn_bitfields id;
      }

  -- The checks that both functions share; `go` is what follows.
  abbrev pub provide_checked : Irq → State → IfaceType → ℕ → Bits → (Unit {0} → Step p ℕ) → Step p ℕ
  provide_checked c st iface ntfn usable_mask go =
      if (ntfn == 0) || not (any_bit (lowest usable_mask))
      then (err einval, c, st)
      else elim iface [
        | IfaceType.mini ↦ (err eperm, c, st)
        | IfaceType.standard ↦
            if leb c.max_ntfn_ids c.num_allocated_ntfns then (err emfile, c, st) else go tt
      ]

  -- An id behind the table is written out of bounds.
  abbrev pub provided : Irq → State → ℕ → Bits → Option ℕ → Step p ℕ
  provided c st ntfn usable_mask none = (err emfile, c, st)
  provided c st ntfn usable_mask (some id) =
      if ltb id c.max_ntfn_ids
      then (ok id, provide_common c ntfn usable_mask id, st)
      else (abort, c, st)

  unfoldable pub provide_ntfn : Irq → State → ℕ → Bits → Step p ℕ
  provide_ntfn c st ntfn usable_mask =
      provide_checked c st c.iface_type ntfn usable_mask
        (λ u. provided c st ntfn usable_mask (find_free_ntfn_id c))

  -- The hint is not checked, so that one that is no id reads out of bounds.
  abbrev pub provided_at : Irq → State → ℕ → Bits → ℤ → Step p ℕ
  provided_at c st ntfn usable_mask (negsuc k) = (abort, c, st)
  provided_at c st ntfn usable_mask (pos id) =
      if leb c.max_ntfn_ids id
      then (abort, c, st)
      else if (c.ntfn_table id).allocated
      then (err eaddrinuse, c, st)
      else (ok 0, provide_common c ntfn usable_mask id, st)

  unfoldable pub provide_ntfn_with_id : Irq → State → ℕ → Bits → ℤ → Step p ℕ
  provide_ntfn_with_id c st ntfn usable_mask hint =
      provide_checked c st c.iface_type ntfn usable_mask
        (λ u. provided_at c st ntfn usable_mask hint)

  -- The body of the loop of `return_ntfn` for one bit: `none` once the program has ended.
  abbrev pub release_bound : Irq → State → Option ℕ → Option (Irq × State)
  release_bound c st none = none
  release_bound c st (some i) =
      let irq = c.irq_table i in
      let (ignored, st₁) = clear st irq.handler_path.cap_ptr in
      let (error, st₂) = delete st₁ irq.ntfn_path in
      if nonzero error then none else some (unpair c i, st₂)

  abbrev pub release_bit : (ℕ → Option ℕ) → ℕ → Option (Irq × State) → Option (Irq × State)
  release_bit bound b none = none
  release_bit bound b (some (c, st)) = release_bound c st (bound b)

  unfoldable pub release_all : Irq → State → ℕ → Option (Irq × State)
  release_all c st n =
      if leb (c.ntfn_table n).num_irqs_bound 0
      then some (c, st)
      else each_bit 64 0 (c.ntfn_table n).status (release_bit (c.ntfn_table n).bound_irqs)
          (some (c, st))

  unfoldable pub forget : Irq → ℕ → Irq
  unfolding unfill_bit_in_bitfield
  forget c n = record (set_ntfn_entry c n (blank_ntfn none)) {
    num_allocated_ntfns = sub_size c.num_allocated_ntfns 1;
    ntfn_bitfields = unfill_bit_in_bitfield c.ntfn_bitfields n;
  }

  -- The result is the capability of the notification.
  abbrev pub returned : Irq → State → ℕ → Option (Irq × State) → Step p ℕ
  returned c st n none = (abort, c, st)
  returned c st n (some (d, st')) = (ok (d.ntfn_table n).root_ntfn_path.cap_ptr, forget d n, st')

  abbrev pub return_checked : Irq → State → IfaceType → Option ℕ → Step p ℕ
  return_checked c st IfaceType.mini n = (err eperm, c, st)
  return_checked c st IfaceType.standard none = (err einval, c, st)
  return_checked c st IfaceType.standard (some n) = returned c st n (release_all c st n)

  unfoldable pub return_ntfn : Irq → State → ℤ → Step p ℕ
  return_ntfn c st ntfn_id = return_checked c st c.iface_type (usable_ntfn c ntfn_id)

  abbrev pub mini_made : ℕ → Bits → Option Irq × State → Outcome Irq × State
  mini_made ntfn usable_mask (none, st) = (err enomem, st)
  mini_made ntfn usable_mask (some c, st) = (ok (provide_common c ntfn usable_mask 0), st)

  unfoldable pub new_mini_irq_ops : State → ℕ → Bits → Outcome Irq × State
  new_mini_irq_ops st ntfn usable_mask =
      if not (any_bit (lowest usable_mask)) || (ntfn == 0)
      then (err einval, st)
      else mini_made ntfn usable_mask
          (new_common p st (popcount_from 64 0 usable_mask) 1 IfaceType.mini)
