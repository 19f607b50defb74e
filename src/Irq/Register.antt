-- ===== src/Irq/Register.antt =====
-- Making the bookkeeping, registering, unregistering and acknowledging an interrupt.
use se_l4_libs.Prelude.{
  ℕ, ◌*◌, ◌/◌, true, ◌||◌, Option, none, some, leb, ltb, ◌==◌, if◌then◌else◌, add_size, sub_size,
}
use se_l4_libs.Prelude.Int.{ℤ, pos, nonzero}
use se_l4_libs.Prelude.Outcome.{Outcome, ok, err, abort}
use se_l4_libs.Prelude.Bits.{no_bits}
use se_l4_libs.Cspace.Path.{CspacePath}
use se_l4_libs.Irq.Defs.{
  Irq, IfaceType, Platform, Step, einval, emfile, efault, enomem, free_irq, blank_ntfn, set_irq,
  usable_irq,
}
use se_l4_libs.Irq.Ids.{find_free_irq_id, fill_bit_in_bitfield, unfill_bit_in_bitfield}
use se_l4_libs.Irq.Bind.{drop_index, set_ntfn_common}

-- `sizeof` of the records
abbrev pub cookie_bytes : ℕ
cookie_bytes = 104

abbrev pub irq_bytes : ℕ
irq_bytes = 152

abbrev pub ntfn_bytes : ℕ
ntfn_bytes = 352

abbrev pub ack_bytes : ℕ
ack_bytes = 16

-- The entry of a registered interrupt and the counts; the pairing of the entry stays.
unfoldable pub enter : Irq → ℕ → ℕ → ℕ → ℕ → CspacePath → Irq
unfolding fill_bit_in_bitfield
enter c id irq callback callback_data path =
    record (set_irq c id (record (c.irq_table id) {
      allocated = true;
      irq = irq;
      handler_path = path;
      callback = some callback;
      callback_data = callback_data;
    })) {
      num_registered_irqs = add_size c.num_registered_irqs 1;
      irq_bitfields = fill_bit_in_bitfield c.irq_bitfields id;
    }

unfoldable pub leave : Irq → ℕ → Irq
unfolding unfill_bit_in_bitfield
leave c i = record (set_irq c i free_irq) {
  num_registered_irqs = sub_size c.num_registered_irqs 1;
  irq_bitfields = unfill_bit_in_bitfield c.irq_bitfields i;
}

module _ (p : Platform) where
  open p use {
    State, alloc_path, free_path, delete, ack, clear, copy_irq_cap, calloc, free, align_up,
  }

  -- The writes to `irq_table[free_id]` and the rest of the end of `irq_register_common`. C does not look at the
  -- index: behind the table the write is undefined.
  abbrev pub written : Irq → State → ℕ → ℕ → ℕ → ℕ → CspacePath → Step p ℕ
  written c st id irq callback cell path =
      if ltb id c.max_irq_ids
      then (ok id, enter c id irq callback cell path, st)
      else (abort, c, st)

  -- What is left of `irq_register_common` for a free id.
  abbrev pub with_id : Irq → State → ℕ → ℕ → ℕ → Option ℕ → Step p ℕ
  with_id c st irq callback cell none = (err emfile, c, st)
  with_id c st irq callback cell (some id) =
      let (ignored, path, st₁) = alloc_path st in
      let (error, st₂) = copy_irq_cap st₁ irq path in
      if nonzero error
      then (err efault, c, free_path st₂ path)
      else written c st₂ id irq callback cell path

  abbrev pub with_callback : Irq → State → ℕ → Option ℕ → ℕ → Step p ℕ
  with_callback c st irq none cell = (err einval, c, st)
  with_callback c st irq (some callback) cell = with_id c st irq callback cell (find_free_irq_id c)

  unfoldable pub register_common : Irq → State → ℕ → Option ℕ → ℕ → Step p ℕ
  register_common c st irq callback cell =
      if leb c.max_irq_ids c.num_registered_irqs
      then (err emfile, c, st)
      else with_callback c st irq callback cell

  -- The end of `unregister`: the handler and the entry.
  unfoldable pub drop_handler : Irq → State → ℕ → CspacePath → Step p (Unit {0})
  drop_handler c st i handler =
      let (error, st₁) = delete st handler in (ok tt, leave c i, free_path st₁ handler)

  abbrev pub dropped : Irq → State → ℕ → CspacePath → Option Irq → Step p (Unit {0})
  dropped c st i handler none = (abort, c, st)
  dropped c st i handler (some d) = drop_handler d st i handler

  abbrev pub unregister_paired : Irq → State → ℕ → Option ℕ → Step p (Unit {0})
  unregister_paired c st i none = drop_handler c st i (c.irq_table i).handler_path
  unregister_paired c st i (some n) =
      let irq = c.irq_table i in
      let (not_cleared, st₁) = clear st irq.handler_path.cap_ptr in
      if nonzero not_cleared
      then (err efault, c, st₁)
      else (let (error, st₂) = delete st₁ irq.ntfn_path in
          dropped c (free_path st₂ irq.ntfn_path) i irq.handler_path
            (drop_index p c n irq.badge_index))

  abbrev pub unregister_at : Irq → State → Option ℕ → Step p (Unit {0})
  unregister_at c st none = (err einval, c, st)
  unregister_at c st (some i) = unregister_paired c st i (c.irq_table i).paired_ntfn

  unfoldable pub unregister : Irq → State → ℤ → Step p (Unit {0})
  unregister c st irq_id = unregister_at c st (usable_irq c irq_id)

  -- The mini interface binds what it registers to notification 0, and takes it back when that fails; when even
  -- that fails the program ends.
  abbrev pub taken_back : ℤ → Step p (Unit {0}) → Step p ℕ
  taken_back e (ok done, c, st) = (err e, c, st)
  taken_back e (err f, c, st) = (abort, c, st)
  taken_back e (abort, c, st) = (abort, c, st)

  abbrev pub bound_mini : ℕ → Step p ℕ → Step p ℕ
  bound_mini id (ok b, c, st) = (ok id, c, st)
  bound_mini id (err e, c, st) = taken_back e (unregister c st (pos id))
  bound_mini id (abort, c, st) = (abort, c, st)

  abbrev pub registered_mini : Step p ℕ → Step p ℕ
  registered_mini (ok id, c, st) = bound_mini id (set_ntfn_common p c st 0 id)
  registered_mini (err e, c, st) = (err e, c, st)
  registered_mini (abort, c, st) = (abort, c, st)

  unfoldable pub register_mini : Irq → State → ℕ → Option ℕ → ℕ → Step p ℕ
  register_mini c st irq callback cell = registered_mini (register_common c st irq callback cell)

  -- `sel4platsupport_irq_acknowledge` on its data: the id and the address to free.
  abbrev pub ack_at : Irq → State → Option ℕ → Outcome (Unit {0}) × State
  ack_at c st none = (err einval, st)
  ack_at c st (some i) =
      let (error, st₁) = ack st (c.irq_table i).handler_path.cap_ptr in
      if nonzero error then (err efault, st₁) else (ok tt, st₁)

  unfoldable pub acknowledge : Irq → State → ℤ × ℕ → Outcome (Unit {0}) × State
  acknowledge c st (irq_id, cell) =
      let (result, st₁) = ack_at c st (usable_irq c irq_id) in (result, free st₁ ack_bytes cell)

  abbrev pub new_cookie : ℕ → ℕ → IfaceType → Irq
  new_cookie max_irqs max_ntfns iface = record {
    iface_type = iface;
    num_registered_irqs = 0;
    num_allocated_ntfns = 0;
    max_irq_ids = max_irqs;
    max_ntfn_ids = max_ntfns;
    num_irq_bitfields = align_up max_irqs 64 / 8;
    num_ntfn_bitfields = align_up max_ntfns 64 / 8;
    irq_bitfields = λ i. no_bits;
    ntfn_bitfields = λ i. no_bits;
    irq_table = λ i. free_irq;
    ntfn_table = λ n. blank_ntfn none;
  }

  -- `new_irq_ops_common`: five allocations, and what was got is freed when one fails.
  unfoldable pub new_common : State → ℕ → ℕ → IfaceType → Option Irq × State
  new_common st max_irqs max_ntfns iface =
      let irq_words = align_up max_irqs 64 / 8 in
      let ntfn_words = align_up max_ntfns 64 / 8 in
      let (e₁, cookie, st₁) = calloc st cookie_bytes in
      if nonzero e₁
      then (none, st₁)
      else (let (e₂, irqs, st₂) = calloc st₁ (irq_bytes * max_irqs) in
          if nonzero e₂
          then (none, free st₂ cookie_bytes cookie)
          else (let (e₃, ntfns, st₃) = calloc st₂ (ntfn_bytes * max_ntfns) in
              let irqs_freed = λ (s : State). free s (irq_bytes * max_irqs) irqs in
              if nonzero e₃
              then (none, free (irqs_freed st₃) cookie_bytes cookie)
              else (let (e₄, irq_bits, st₄) = calloc st₃ (irq_words * 8) in
                  let tables_freed =
                    λ (s : State). free (irqs_freed s) (ntfn_bytes * max_ntfns) ntfns in
                  if nonzero e₄
                  then (none, free (tables_freed st₄) cookie_bytes cookie)
                  else (let (e₅, ntfn_bits, st₅) = calloc st₄ (ntfn_words * 8) in
                      if nonzero e₅
                      then (
                        none,
                        free (free (tables_freed st₅) (irq_words * 8) irq_bits) cookie_bytes cookie,
                      )
                      else (some (new_cookie max_irqs max_ntfns iface), st₅)))))

  abbrev pub made : Option Irq × State → Outcome Irq × State
  made (none, st) = (err enomem, st)
  made (some c, st) = (ok c, st)

  unfoldable pub new_irq_ops : State → ℕ → ℕ → Outcome Irq × State
  new_irq_ops st max_irqs max_ntfns =
      if (max_irqs == 0) || (max_ntfns == 0)
      then (err einval, st)
      else made (new_common st max_irqs max_ntfns IfaceType.standard)
