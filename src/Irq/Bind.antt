-- ===== src/Irq/Bind.antt =====
-- `irq_set_ntfn_common`, `sel4platsupport_irq_set_ntfn` and `sel4platsupport_irq_unset_ntfn`.
use se_l4_libs.Prelude.{ℕ, Option, none, some, leb, if◌then◌else◌, sub_size, add_size}
use se_l4_libs.Prelude.Int.{ℤ, nonzero}
use se_l4_libs.Prelude.Outcome.{Outcome, ok, err, abort}
use se_l4_libs.Prelude.Bits.{bit, fill, unfill, assign}
use se_l4_libs.Cspace.Path.{CspacePath}
use se_l4_libs.Irq.Defs.{
  Irq, IfaceType, Platform, Step, badge_bits, einval, enospc, enomem, efault, eperm, null_path,
  set_irq, set_ntfn_entry, usable_irq, usable_ntfn,
}
use se_l4_libs.Irq.Ids.{find_free_ntfn_badge_index}

-- The bookkeeping of a bound and of an unbound interrupt.
unfoldable pub link : Irq → ℕ → ℕ → ℕ → CspacePath → Irq
link c n i b path =
    let ntfn = c.ntfn_table n in
    let irq = c.irq_table i in
    set_irq
      (set_ntfn_entry c n (record ntfn {
        num_irqs_bound = add_size ntfn.num_irqs_bound 1;
        status = fill ntfn.status b;
        bound_irqs = assign ntfn.bound_irqs b (some i);
      }))
      i (record irq { ntfn_path = path; paired_ntfn = some n; badge_index = some b })

-- The bits of notification `n` that stood for badge index `b`.
unfoldable pub drop_badge : Irq → ℕ → ℕ → Irq
drop_badge c n b =
    let ntfn = c.ntfn_table n in
    set_ntfn_entry c n (record ntfn {
      status = unfill ntfn.status b;
      pending = unfill ntfn.pending b;
      num_irqs_bound = sub_size ntfn.num_irqs_bound 1;
      bound_irqs = assign ntfn.bound_irqs b none;
    })

unfoldable pub unpair : Irq → ℕ → Irq
unpair c i =
    set_irq c i
      (record (c.irq_table i) { ntfn_path = null_path; paired_ntfn = none; badge_index = none })

module _ (p : Platform) where
  open p use {State, alloc_path, free_path, mint, delete, set_notification, ack, clear}

  -- `ZF_LOGF_IF(error)` ends the program.
  abbrev pub drop_mint : State → CspacePath → Outcome CspacePath × State
  drop_mint st path =
      let (error, st') = delete st path in
      if nonzero error then (abort, st') else (err efault, free_path st' path)

  -- The calls of `irq_set_ntfn_common`: a slot, the minted notification, the handler set and acknowledged.
  unfoldable pub mint_badge : State → CspacePath → CspacePath → ℕ → Outcome CspacePath × State
  mint_badge st root handler b =
      let (no_slot, path, st₁) = alloc_path st in
      if nonzero no_slot
      then (err enomem, st₁)
      else (let (no_mint, st₂) = mint st₁ path root (bit b) in
          if nonzero no_mint
          then (err enomem, free_path st₂ path)
          else (let (not_set, st₃) = set_notification st₂ handler.cap_ptr path.cap_ptr in
              if nonzero not_set
              then drop_mint st₃ path
              else (let (no_ack, st₄) = ack st₃ handler.cap_ptr in
                  if nonzero no_ack
                  then (let (not_cleared, st₅) = clear st₄ handler.cap_ptr in
                      if nonzero not_cleared then (abort, st₅) else drop_mint st₅ path)
                  else (ok path, st₄))))

  -- The bookkeeping; the result is the index of the badge's bit.
  abbrev pub linked : Irq → ℕ → ℕ → ℕ → Outcome CspacePath × State → Step p ℕ
  linked c n i b (ok path, st) = (ok b, link c n i b path, st)
  linked c n i b (err e, st) = (err e, c, st)
  linked c n i b (abort, st) = (abort, c, st)

  abbrev pub with_badge : Irq → State → ℕ → ℕ → Option ℕ → Step p ℕ
  with_badge c st n i none = (err enospc, c, st)
  with_badge c st n i (some b) =
      linked c n i b (mint_badge st (c.ntfn_table n).root_ntfn_path (c.irq_table i).handler_path b)

  abbrev pub if_unpaired : Irq → State → ℕ → ℕ → Option ℕ → Step p ℕ
  if_unpaired c st n i (some m) = (err einval, c, st)
  if_unpaired c st n i none =
      if leb badge_bits (c.ntfn_table n).num_irqs_bound
      then (err enospc, c, st)
      else with_badge c st n i (find_free_ntfn_badge_index (c.ntfn_table n))

  unfoldable pub set_ntfn_common : Irq → State → ℕ → ℕ → Step p ℕ
  set_ntfn_common c st n i = if_unpaired c st n i (c.irq_table i).paired_ntfn

  -- The checks of an interface call, `ids` being the two ids when both are valid and allocated.
  abbrev pub set_checked : Irq → State → IfaceType → Option ℕ → Option ℕ → Step p ℕ
  set_checked c st IfaceType.mini n i = (err eperm, c, st)
  set_checked c st IfaceType.standard none i = (err einval, c, st)
  set_checked c st IfaceType.standard (some n) none = (err einval, c, st)
  set_checked c st IfaceType.standard (some n) (some i) = set_ntfn_common c st n i

  unfoldable pub set_ntfn : Irq → State → ℤ → ℤ → Step p ℕ
  set_ntfn c st ntfn_id irq_id =
      set_checked c st c.iface_type (usable_ntfn c ntfn_id) (usable_irq c irq_id)

  -- What `unset_ntfn` and `unregister` share: the badge of a bound interrupt goes. An index of -1 is no bit.
  abbrev pub drop_index : Irq → ℕ → Option ℕ → Option Irq
  drop_index c n none = none
  drop_index c n (some b) = some (drop_badge c n b)

  abbrev pub unset_dropped : Irq → State → ℕ → Option Irq → Step p (Unit {0})
  unset_dropped c st i none = (abort, c, st)
  unset_dropped c st i (some d) = (ok tt, unpair d i, st)

  abbrev pub unset_paired : Irq → State → ℕ → Option ℕ → Step p (Unit {0})
  unset_paired c st i none = (err einval, c, st)
  unset_paired c st i (some n) =
      let irq = c.irq_table i in
      let (not_cleared, st₁) = clear st irq.handler_path.cap_ptr in
      if nonzero not_cleared
      then (err efault, c, st₁)
      else (let (error, st₂) = delete st₁ irq.ntfn_path in
          let st₃ = free_path st₂ irq.ntfn_path in
          unset_dropped c st₃ i (drop_index c n irq.badge_index))

  abbrev pub unset_checked : Irq → State → IfaceType → Option ℕ → Step p (Unit {0})
  unset_checked c st IfaceType.mini i = (err eperm, c, st)
  unset_checked c st IfaceType.standard none = (err einval, c, st)
  unset_checked c st IfaceType.standard (some i) = unset_paired c st i (c.irq_table i).paired_ntfn

  unfoldable pub unset_ntfn : Irq → State → ℤ → Step p (Unit {0})
  unset_ntfn c st irq_id = unset_checked c st c.iface_type (usable_irq c irq_id)
