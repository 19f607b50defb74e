-- ===== src/Irq/Served.antt =====
-- The bookkeeping of libsel4platsupport/src/irq.c after waiting, polling and handling, when the callbacks change it by
-- its own calls.
use se_l4_libs.Prelude.{
  ℕ, ◌<◌, refl, sym, ap, ◌∙◌, subst, Bool, ◌&&◌, Option, none, some, ltb, Bool-cases, inl, inr,
}
use se_l4_libs.Prelude.Int.{ℤ, nonzero}
use se_l4_libs.Prelude.Outcome.{Outcome, ok, err, abort}
use se_l4_libs.Prelude.Bits.{Bits, no_bits, both, either, unfill, assign_elim, each_bit-keeps}
use se_l4_libs.Irq.Defs.{NtfnEntry, Irq, Platform, set_ntfn_entry, usable_ntfn}
use se_l4_libs.Irq.Register.{ack_bytes}
use se_l4_libs.Irq.Serve
use se_l4_libs.Irq.Serve.{Driver, serve_irq, irq_wait, irq_poll, irq_handle, call_back}
use se_l4_libs.Irq.Linked.{IsSameNtfn, IsPair-same_ntfn}
use se_l4_libs.Irq.Sound.{IsSound, IsCounted}
use se_l4_libs.Irq.Effects.{IsTracked-same}
use se_l4_libs.Irq.Ops.{IsSoundAfter}
use se_l4_libs.Irq.Calls.{Acts, Acts-IsSound}

-- Only the pending bits of a notification change.
module _ (c : Irq) (sound : IsSound c) (n : ℕ) (w : Bits) where
  abbrev repended : Irq
  repended = set_ntfn_entry c n (record (c.ntfn_table n) { pending = w })

  same : (m : ℕ) → IsSameNtfn (c.ntfn_table m) (repended.ntfn_table m)
  same m =
      assign_elim (IsSameNtfn (c.ntfn_table m)) c.ntfn_table n
        (record (c.ntfn_table n) { pending = w }) m
        (λ q.
          subst (λ (k : ℕ). IsSameNtfn (c.ntfn_table k) (record (c.ntfn_table n) { pending = w })) q
            (refl, refl, refl, refl))
        (λ ne. (refl, refl, refl, refl))

  counts : (m : ℕ) → m < c.max_ntfn_ids → IsCounted (repended.ntfn_table m)
  counts m l =
      assign_elim IsCounted c.ntfn_table n (record (c.ntfn_table n) { pending = w }) m
        (λ q.
          subst
            (λ (k : ℕ).
              IsCounted (c.ntfn_table k) → IsCounted (record (c.ntfn_table n) { pending = w }))
            q (λ h. h) (sound.counted m l))
        (λ ne. sound.counted m l)

  repended-IsSound : IsSound repended
  repended-IsSound = record {
    linked = record {
      forth = λ i m l e.
          (let (low, (b, pair)) = sound.linked.forth i m l e in
            (low, (b, IsPair-same_ntfn (same m) pair)));
      back = λ m b l k set.
          (let (i, low, pair) =
              sound.linked.back m b l k (ap (λ (x : Bits). x b) (sym (same m).1) ∙ set) in
            (i, low, IsPair-same_ntfn (same m) pair));
    };
    counted = counts;
    irqs_tracked = sound.irqs_tracked;
    ntfns_tracked = IsTracked-same (λ (t : NtfnEntry). t.allocated) n _ refl sound.ntfns_tracked;
  }

-- The callbacks change the bookkeeping by its calls only.
pub record IsActing {p : Platform} (d : Driver p) : Type 0 where
  pub acts : (f cell i ack : ℕ) (s : Irq × p.State) → Acts p s.0 (d.run f cell i ack s).0

module _ (p : Platform) (d : Driver p) (acting : IsActing d) where
  open p use {State}

  abbrev Called : Outcome (Bool × Irq × State) → Type 0
  Called (ok (u, c, st)) = IsSound c
  Called (err e) = Unit
  Called abort = Unit

  call_back-Called :
      (c : Irq) (st : State) (i : ℕ) (o : Option ℕ) → IsSound c → Called (call_back p d c st i o)
  call_back-Called c st i none h = h
  call_back-Called c st i (some f) h = elim (Bool-cases (nonzero (p.calloc st ack_bytes).0)) [
    | inl e ↦ rw e tt
    | inr e ↦ rw e (
        Acts-IsSound p
          (acting.acts f (c.irq_table i).callback_data i (p.calloc st ack_bytes).1
            (c, (p.calloc st ack_bytes).2))
          h)
  ]

  perform-Called :
      (c : Irq) (st : State) (o : Option ℕ) → IsSound c → Called (Serve.perform_callback p d c st o)
  perform-Called c st none h = tt
  perform-Called c st (some i) h = elim (Bool-cases (ltb i c.max_irq_ids)) [
    | inl e ↦ rw e (call_back-Called c st i (c.irq_table i).callback h)
    | inr e ↦ rw e tt
  ]

  abbrev Running : Outcome (Bits × Irq × State) → Type 0
  Running (ok (served, c, st)) = IsSound c
  Running (err e) = Unit
  Running abort = Unit

  served-Running :
      (served : Bits) (b : ℕ) (r : Outcome (Bool × Irq × State))
      → Called r
      → Running (Serve.served_by p d served b r)
  served-Running served b (ok (u, c, st)) h = h
  served-Running served b (err e) h = tt
  served-Running served b abort h = tt

  bit-Running :
      (mask : Bits) (n b : ℕ) (r : Outcome (Bits × Irq × State))
      → Running r
      → Running (Serve.serve_bit p d mask n b r)
  bit-Running mask n b (ok (served, c, st)) h = elim (Bool-cases (mask b)) [
    | inl e ↦ rw e (
        served-Running served b (Serve.perform_callback p d c st ((c.ntfn_table n).bound_irqs b))
          (perform-Called c st ((c.ntfn_table n).bound_irqs b) h))
    | inr e ↦ rw e h
  ]
  bit-Running mask n b (err e) h = tt
  bit-Running mask n b abort h = tt

  recorded-IsSound :
      (c : Irq) (st : State) (n : ℕ) (badge : Bits) (r : Outcome (Bits × Irq × State))
      → IsSound c
      → Running r
      → IsSoundAfter p (Serve.recorded p d c st n badge r)
  recorded-IsSound c st n badge (ok (served, c', st')) sound h = repended-IsSound c' h n _
  recorded-IsSound c st n badge (err e) sound h = sound
  recorded-IsSound c st n badge abort sound h = sound

  serve_irq-IsSound :
      (c : Irq)
      → IsSound c
      → (st : State) (n : ℕ) (mask badge : Bits) → IsSoundAfter p (serve_irq p d c st n mask badge)
  unfolding serve_irq
  serve_irq-IsSound c sound st n mask badge = recorded-IsSound c st n badge _ sound (
      each_bit-keeps (λ k r. Running r)
        (either (both badge (c.ntfn_table n).usable_mask) (c.ntfn_table n).pending)
        (Serve.serve_bit p d mask n) 64 (λ k r l e h. bit-Running mask n k r h) (λ k r l e h. h) 64
        0 (ok (no_bits, c, st)) refl sound)

  served_at-IsSound :
      (arrive : State → ℕ → Bits × State) (c : Irq)
      → IsSound c
      → (st : State) (mask : Bits) (o : Option ℕ)
      → IsSoundAfter p (Serve.served_at p d arrive c st mask o)
  served_at-IsSound arrive c sound st mask none = sound
  served_at-IsSound arrive c sound st mask (some n) = serve_irq-IsSound c sound _ n mask _

  pub irq_wait-IsSound :
      (c : Irq)
      → IsSound c
      → (st : State) (ntfn_id : ℤ) (mask : Bits) → IsSoundAfter p (irq_wait p d c st ntfn_id mask)
  unfolding irq_wait
  irq_wait-IsSound c sound st ntfn_id mask =
      served_at-IsSound p.wait c sound st mask (usable_ntfn c ntfn_id)

  pub irq_poll-IsSound :
      (c : Irq)
      → IsSound c
      → (st : State) (ntfn_id : ℤ) (mask : Bits) → IsSoundAfter p (irq_poll p d c st ntfn_id mask)
  unfolding irq_poll
  irq_poll-IsSound c sound st ntfn_id mask =
      served_at-IsSound p.poll c sound st mask (usable_ntfn c ntfn_id)

  abbrev Handling : Outcome (Irq × State) → Type 0
  Handling (ok (c, st)) = IsSound c
  Handling (err e) = Unit
  Handling abort = Unit

  handled-Handling :
      (n b : ℕ) (r : Outcome (Bool × Irq × State))
      → Called r
      → Handling (Serve.handled_by p d n b r)
  handled-Handling n b (ok (u, c, st)) h = elim (Bool-cases (u && (c.ntfn_table n).pending b)) [
    | inl e ↦ rw e (repended-IsSound c h n (unfill (c.ntfn_table n).pending b))
    | inr e ↦ rw e h
  ]
  handled-Handling n b (err e) h = tt
  handled-Handling n b abort h = tt

  bit-Handling :
      (n b : ℕ) (r : Outcome (Irq × State)) → Handling r → Handling (Serve.handle_bit p d n b r)
  bit-Handling n b (ok (c, st)) h =
      handled-Handling n b (Serve.perform_callback p d c st ((c.ntfn_table n).bound_irqs b))
        (perform-Called c st ((c.ntfn_table n).bound_irqs b) h)
  bit-Handling n b (err e) h = tt
  bit-Handling n b abort h = tt

  handled-IsSound :
      (c : Irq) (st : State) (r : Outcome (Irq × State))
      → IsSound c
      → Handling r
      → IsSoundAfter p (Serve.handled p d c st r)
  handled-IsSound c st (ok (c', st')) sound h = h
  handled-IsSound c st (err e) sound h = sound
  handled-IsSound c st abort sound h = sound

  handle_at-IsSound :
      (c : Irq)
      → IsSound c
      → (st : State) (mask : Bits) (o : Option ℕ) → IsSoundAfter p (Serve.handle_at p d c st mask o)
  handle_at-IsSound c sound st mask none = sound
  handle_at-IsSound c sound st mask (some n) = handled-IsSound c st _ sound (
      each_bit-keeps (λ k r. Handling r) (both mask (c.ntfn_table n).usable_mask)
        (Serve.handle_bit p d n) 64 (λ k r l e h. bit-Handling n k r h) (λ k r l e h. h) 64 0
        (ok (c, st)) refl sound)

  pub irq_handle-IsSound :
      (c : Irq)
      → IsSound c
      → (st : State) (ntfn_id : ℤ) (mask : Bits) → IsSoundAfter p (irq_handle p d c st ntfn_id mask)
  unfolding irq_handle
  irq_handle-IsSound c sound st ntfn_id mask =
      handle_at-IsSound c sound st mask (usable_ntfn c ntfn_id)
