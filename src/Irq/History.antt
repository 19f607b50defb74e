-- ===== src/Irq/History.antt =====
-- Histories of calls of the interface of libsel4platsupport/src/irq.c, from its making on.
use se_l4_libs.Prelude.{
  ℕ, ◌*◌, ◌/◌, refl, sym, Option, none, some, List, [], ◌∷◌, Bool-cases, inl, inr, ◌||◌, ◌==◌,
}
use se_l4_libs.Prelude.Int.{ℤ, nonzero}
use se_l4_libs.Prelude.Outcome.{Outcome, ok, err, abort}
use se_l4_libs.Prelude.Bits.{Bits, clash, none_clash}
use se_l4_libs.Irq.Defs.{Irq, IfaceType, Platform}
use se_l4_libs.Irq.Register.{
  new_common, new_irq_ops, new_cookie, made, cookie_bytes, irq_bytes, ntfn_bytes,
}
use se_l4_libs.Irq.Serve.{Driver, irq_wait, irq_poll, irq_handle}
use se_l4_libs.Irq.Counts.{popcount_from-no_bits}
use se_l4_libs.Irq.Sound.{IsSound}
use se_l4_libs.Irq.Calls.{
  Call, call, rest_of, go_on, After, rest-IsSound, call-IsSound, go_on-IsSound,
}
use se_l4_libs.Irq.Served.{IsActing, irq_wait-IsSound, irq_poll-IsSound, irq_handle-IsSound}

-- What a program does with a standard interface: a call that changes the bookkeeping, or waiting for, polling or
-- handling interrupts, which runs callbacks.
pub data Event : Type 0 where
  calling : Call → Event
  waiting : ℤ → Bits → Event
  polling : ℤ → Bits → Event
  handling : ℤ → Bits → Event

module _ (p : Platform) (d : Driver p) where
  open p use {State}

  unfoldable pub event : Event → Irq × State → Option (Irq × State)
  event (calling x) s = call p x s
  event (waiting n mask) (c, st) = rest_of p (irq_wait p d c st n mask)
  event (polling n mask) (c, st) = rest_of p (irq_poll p d c st n mask)
  event (handling n mask) (c, st) = rest_of p (irq_handle p d c st n mask)

  -- The history ends where the program does.
  unfoldable pub events : List Event → Irq × State → Option (Irq × State)
  unfolding event
  events [] s = some s
  events (x ∷ xs) s = go_on p (events xs) (event x s)

  module _ (acting : IsActing d) where
    event-IsSound : (x : Event) (s : Irq × State) → IsSound s.0 → After p IsSound (event x s)
    unfolding event
    event-IsSound (calling x) s h = call-IsSound p x s h
    event-IsSound (waiting n mask) (c, st) h =
        rest-IsSound p _ (irq_wait-IsSound p d acting c h st n mask)
    event-IsSound (polling n mask) (c, st) h =
        rest-IsSound p _ (irq_poll-IsSound p d acting c h st n mask)
    event-IsSound (handling n mask) (c, st) h =
        rest-IsSound p _ (irq_handle-IsSound p d acting c h st n mask)

    events-IsSound :
        (xs : List Event) (s : Irq × State) → IsSound s.0 → After p IsSound (events xs s)
    unfolding events
    events-IsSound [] s h = h
    events-IsSound (x ∷ xs) s h =
        go_on-IsSound p (events xs) (events-IsSound xs) (event x s) (event-IsSound x s h)

module _ (p : Platform) where
  open p use {State, calloc, align_up}

  -- New bookkeeping
  pub new_cookie-IsSound :
      (irqs ntfns : ℕ) (iface : IfaceType) → IsSound (new_cookie p irqs ntfns iface)
  new_cookie-IsSound irqs ntfns iface = record {
    linked = record { forth = λ i n l h. none_clash h; back = λ n b l m h. clash (sym h) };
    counted = λ n l. sym (popcount_from-no_bits 64 0);
    irqs_tracked = record { tracks = λ i l. refl };
    ntfns_tracked = record { tracks = λ n l. refl };
  }

  abbrev pub EachMade : (Irq → Type 0) → Outcome Irq × State → Type 0
  EachMade P (ok c, st) = P c
  EachMade P (err e, st) = Unit
  EachMade P (abort, st) = Unit

  abbrev pub EachNew : (Irq → Type 0) → Option Irq → Type 0
  EachNew P none = Unit
  EachNew P (some c) = P c

  -- Each of the five allocations may fail.
  new_common-IsSound :
      (st : State) (irqs ntfns : ℕ) (iface : IfaceType)
      → EachNew IsSound (new_common p st irqs ntfns iface).0
  unfolding new_common
  new_common-IsSound st irqs ntfns iface =
      (let r₁ = calloc st cookie_bytes in
        let r₂ = calloc r₁.2 (irq_bytes * irqs) in
        let r₃ = calloc r₂.2 (ntfn_bytes * ntfns) in
        let r₄ = calloc r₃.2 (align_up irqs 64 / 8 * 8) in
        let r₅ = calloc r₄.2 (align_up ntfns 64 / 8 * 8) in
        elim (Bool-cases (nonzero r₁.0)) [
          | inl e ↦ rw e tt
          | inr e ↦ rw e (elim (Bool-cases (nonzero r₂.0)) [
            | inl e ↦ rw e tt
            | inr e ↦ rw e (elim (Bool-cases (nonzero r₃.0)) [
              | inl e ↦ rw e tt
              | inr e ↦ rw e (elim (Bool-cases (nonzero r₄.0)) [
                | inl e ↦ rw e tt
                | inr e ↦ rw e (elim (Bool-cases (nonzero r₅.0)) [
                  | inl e ↦ rw e tt
                  | inr e ↦ rw e (new_cookie-IsSound irqs ntfns iface)
                ])
              ])
            ])
          ])
        ])

  -- Bookkeeping that `new_irq_ops` makes stays sound through every history of calls, waits, polls and handled
  -- interrupts, as far as the program goes on, whatever the platform's calls return, when callbacks change the
  -- bookkeeping by calls only: interrupts and badge bits belong to each other, the counts of bound interrupts are those
  -- of the bits, and the bitfields mark what is allocated. A call that writes out of bounds ends a history.
  pub new_irq_ops-calls_sound :
      (d : Driver p)
      → IsActing d
      → (st : State) (irqs ntfns : ℕ) (xs : List Event)
      → EachMade
          (λ c. (s : State) → After p IsSound (events p d xs (c, s)))
          (new_irq_ops p st irqs ntfns)
  unfolding new_irq_ops
  new_irq_ops-calls_sound d acting st irqs ntfns xs =
      elim (Bool-cases ((irqs == 0) || (ntfns == 0))) [
        | inl e ↦ rw e tt
        | inr e ↦ rw e (
            of (new_common p st irqs ntfns IfaceType.standard)
              (new_common-IsSound st irqs ntfns IfaceType.standard))
      ]
    where
      of :
          (r : Option Irq × State)
          → EachNew IsSound r.0
          → EachMade (λ c. (s : State) → After p IsSound (events p d xs (c, s))) (made p r)
      of (none, s) h = tt
      of (some c, s) h = λ s'. events-IsSound p d acting xs (c, s') h
