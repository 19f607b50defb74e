-- ===== src/Irq/Serve.antt =====
-- Interrupts that arrive: waiting, polling, and the callbacks of the drivers.
use se_l4_libs.Prelude.{ℕ, Bool, true, false, ◌&&◌, Option, none, some, ltb, if◌then◌else◌}
use se_l4_libs.Prelude.Int.{ℤ, nonzero}
use se_l4_libs.Prelude.Outcome.{Outcome, ok, err, abort}
use se_l4_libs.Prelude.Bits.{Bits, no_bits, fill, unfill, both, without, either, differ, each_bit}
use se_l4_libs.Irq.Defs.{Irq, Platform, Step, einval, set_ntfn_entry, usable_ntfn}
use se_l4_libs.Irq.Register.{ack_bytes}

-- `run f cell i ack` is a callback `f` on its data, with the acknowledge function's data, the id `i` at address
-- `ack`. It may call the interface again, so that it gives the bookkeeping back.
pub record Driver (p : Platform) : Type 0 where
  pub run : ℕ → ℕ → ℕ → ℕ → Irq × p.State → Irq × p.State

module _ (p : Platform) (d : Driver p) where
  open p use {State, calloc, wait, poll}

  abbrev pub call_back : Irq → State → ℕ → Option ℕ → Outcome (Bool × Irq × State)
  call_back c st i none = ok (false, c, st)
  call_back c st i (some f) =
      let (error, cell, st₁) = calloc st ack_bytes in
      if nonzero error
      then abort
      else (let (c', st₂) = d.run f (c.irq_table i).callback_data i cell (c, st₁) in
          ok (true, c', st₂))

  -- `perform_callback` for what `bound_irqs` holds; -1 and an id behind the table are read out of bounds.
  abbrev pub perform_callback : Irq → State → Option ℕ → Outcome (Bool × Irq × State)
  perform_callback c st none = abort
  perform_callback c st (some i) =
      if ltb i c.max_irq_ids then call_back c st i (c.irq_table i).callback else abort

  abbrev pub Run : Type 0
  Run = Outcome (Bits × Irq × State)

  -- One bit of `serve_irq`; the word is `served_mask`.
  abbrev pub served_by : Bits → ℕ → Outcome (Bool × Irq × State) → Run
  served_by served b (ok (called, c, st)) = ok (if called then fill served b else served, c, st)
  served_by served b (err e) = abort
  served_by served b abort = abort

  abbrev pub serve_bit : Bits → ℕ → ℕ → Run → Run
  serve_bit mask n b (ok (served, c, st)) =
      if mask b
      then served_by served b (perform_callback c st ((c.ntfn_table n).bound_irqs b))
      else ok (served, c, st)
  serve_bit mask n b (err e) = abort
  serve_bit mask n b abort = abort

  -- The bits that are left over, and the pending bits.
  abbrev pub recorded : Irq → State → ℕ → Bits → Run → Step p Bits
  recorded c st n badge (ok (served, c', st')) =
      let ntfn = c'.ntfn_table n in
      (
        ok (without badge served),
        set_ntfn_entry c' n (record ntfn {
          pending = differ ntfn.pending (without (both badge ntfn.usable_mask) served);
        }),
        st',
      )
  recorded c st n badge (err e) = (abort, c, st)
  recorded c st n badge abort = (abort, c, st)

  unfoldable pub serve_irq : Irq → State → ℕ → Bits → Bits → Step p Bits
  serve_irq c st n mask badge =
      let ntfn = c.ntfn_table n in
      recorded c st n badge (
        each_bit 64 0 (either (both badge ntfn.usable_mask) ntfn.pending) (serve_bit mask n)
          (ok (no_bits, c, st)))

  -- `sel4platsupport_irq_wait` and `sel4platsupport_irq_poll`
  abbrev pub served_at : (State → ℕ → Bits × State) → Irq → State → Bits → Option ℕ → Step p Bits
  served_at arrive c st mask none = (err einval, c, st)
  served_at arrive c st mask (some n) =
      let (badge, st₁) = arrive st (c.ntfn_table n).root_ntfn_path.cap_ptr in
      serve_irq c st₁ n mask badge

  unfoldable pub irq_wait : Irq → State → ℤ → Bits → Step p Bits
  irq_wait c st ntfn_id mask = served_at wait c st mask (usable_ntfn c ntfn_id)

  unfoldable pub irq_poll : Irq → State → ℤ → Bits → Step p Bits
  irq_poll c st ntfn_id mask = served_at poll c st mask (usable_ntfn c ntfn_id)

  -- One bit of `sel4platsupport_irq_handle`.
  abbrev pub handled_by : ℕ → ℕ → Outcome (Bool × Irq × State) → Outcome (Irq × State)
  handled_by n b (ok (called, c, st)) =
      let ntfn = c.ntfn_table n in
      ok (
        if called && ntfn.pending b
            then set_ntfn_entry c n (record ntfn { pending = unfill ntfn.pending b })
            else c,
        st,
      )
  handled_by n b (err e) = abort
  handled_by n b abort = abort

  abbrev pub handle_bit : ℕ → ℕ → Outcome (Irq × State) → Outcome (Irq × State)
  handle_bit n b (ok (c, st)) =
      handled_by n b (perform_callback c st ((c.ntfn_table n).bound_irqs b))
  handle_bit n b (err e) = abort
  handle_bit n b abort = abort

  abbrev pub handled : Irq → State → Outcome (Irq × State) → Step p (Unit {0})
  handled c st (ok (c', st')) = (ok tt, c', st')
  handled c st (err e) = (abort, c, st)
  handled c st abort = (abort, c, st)

  abbrev pub handle_at : Irq → State → Bits → Option ℕ → Step p (Unit {0})
  handle_at c st mask none = (err einval, c, st)
  handle_at c st mask (some n) =
      handled c st
        (each_bit 64 0 (both mask (c.ntfn_table n).usable_mask) (handle_bit n) (ok (c, st)))

  unfoldable pub irq_handle : Irq → State → ℤ → Bits → Step p (Unit {0})
  irq_handle c st ntfn_id mask = handle_at c st mask (usable_ntfn c ntfn_id)
