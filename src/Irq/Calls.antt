-- ===== src/Irq/Calls.antt =====
-- The calls of the standard interface of libsel4platsupport/src/irq.c that change its bookkeeping, one after another.
use se_l4_libs.Prelude.{ℕ, ◌≡◌, subst, Option, none, some, List, [], ◌∷◌}
use se_l4_libs.Prelude.Int.{ℤ}
use se_l4_libs.Prelude.Outcome.{ok, err, abort}
use se_l4_libs.Prelude.Bits.{Bits}
use se_l4_libs.Irq.Defs.{Irq, Platform, Step}
use se_l4_libs.Irq.Bind.{set_ntfn, unset_ntfn}
use se_l4_libs.Irq.Register.{register_common, unregister}
use se_l4_libs.Irq.Notify.{provide_ntfn, provide_ntfn_with_id, return_ntfn}
use se_l4_libs.Irq.Sound.{IsSound}
use se_l4_libs.Irq.Ops.{IsSoundAfter, unregister-IsSound, set_ntfn-IsSound, unset_ntfn-IsSound}
use se_l4_libs.Irq.Given.{
  register_common-IsSound, provide_ntfn-IsSound, provide_ntfn_with_id-IsSound, return_ntfn-IsSound,
}

-- The calls, with their arguments. What waits for interrupts is in History.
pub data Call : Type 0 where
  registering : ℕ → Option ℕ → ℕ → Call
  unregistering : ℤ → Call
  setting : ℤ → ℤ → Call
  unsetting : ℤ → Call
  providing : ℕ → Bits → Call
  providing_at : ℕ → Bits → ℤ → Call
  returning : ℤ → Call

module _ (p : Platform) where
  open p use {State}

  -- What a call leaves behind, and nothing when it ends the program or writes out of bounds.
  abbrev pub rest_of : {A : Type 0} → Step p A → Option (Irq × State)
  rest_of (ok x, c, st) = some (c, st)
  rest_of (err e, c, st) = some (c, st)
  rest_of (abort, c, st) = none

  unfoldable pub call : Call → Irq × State → Option (Irq × State)
  call (registering irq callback cell) (c, st) = rest_of (register_common p c st irq callback cell)
  call (unregistering i) (c, st) = rest_of (unregister p c st i)
  call (setting n i) (c, st) = rest_of (set_ntfn p c st n i)
  call (unsetting i) (c, st) = rest_of (unset_ntfn p c st i)
  call (providing ntfn mask) (c, st) = rest_of (provide_ntfn p c st ntfn mask)
  call (providing_at ntfn mask id) (c, st) = rest_of (provide_ntfn_with_id p c st ntfn mask id)
  call (returning n) (c, st) = rest_of (return_ntfn p c st n)

  abbrev pub go_on :
      (Irq × State → Option (Irq × State)) → Option (Irq × State) → Option (Irq × State)
  go_on later none = none
  go_on later (some s) = later s

  unfoldable pub calls : List Call → Irq × State → Option (Irq × State)
  unfolding call
  calls [] s = some s
  calls (x ∷ xs) s = go_on (calls xs) (call x s)

  -- A property of the bookkeeping, where the program goes on.
  abbrev pub After : (Irq → Type 0) → Option (Irq × State) → Type 0
  After P none = Unit
  After P (some s) = P s.0

  pub rest-IsSound : {A : Type 0} (r : Step p A) → IsSoundAfter p r → After IsSound (rest_of r)
  rest-IsSound (ok x, c, st) h = h
  rest-IsSound (err e, c, st) h = h
  rest-IsSound (abort, c, st) h = tt

  pub call-IsSound : (x : Call) (s : Irq × State) → IsSound s.0 → After IsSound (call x s)
  unfolding call
  call-IsSound (registering irq callback cell) (c, st) h =
      rest-IsSound _ (register_common-IsSound p c h st irq callback cell)
  call-IsSound (unregistering i) (c, st) h = rest-IsSound _ (unregister-IsSound p c h st i)
  call-IsSound (setting n i) (c, st) h = rest-IsSound _ (set_ntfn-IsSound p c h st n i)
  call-IsSound (unsetting i) (c, st) h = rest-IsSound _ (unset_ntfn-IsSound p c h st i)
  call-IsSound (providing ntfn mask) (c, st) h =
      rest-IsSound _ (provide_ntfn-IsSound p c h st ntfn mask)
  call-IsSound (providing_at ntfn mask id) (c, st) h =
      rest-IsSound _ (provide_ntfn_with_id-IsSound p c h st ntfn mask id)
  call-IsSound (returning n) (c, st) h = rest-IsSound _ (return_ntfn-IsSound p c h st n)

  pub go_on-IsSound :
      (later : Irq × State → Option (Irq × State))
      → ((s : Irq × State) → IsSound s.0 → After IsSound (later s))
      → (o : Option (Irq × State)) → After IsSound o
      → After IsSound (go_on later o)
  go_on-IsSound later h none sound = tt
  go_on-IsSound later h (some s) sound = h s sound

  pub calls-IsSound : (xs : List Call) (s : Irq × State) → IsSound s.0 → After IsSound (calls xs s)
  unfolding calls
  calls-IsSound [] s h = h
  calls-IsSound (x ∷ xs) s h =
      go_on-IsSound (calls xs) (calls-IsSound xs) (call x s) (call-IsSound x s h)

  -- The bookkeeping changes from one to the other by calls, between which anything may happen to the rest.
  pub data Acts : Irq → Irq → Type 0 where
    still : {c : Irq} → Acts c c
    acting :
        {c c' c'' : Irq} (x : Call) (st st' : State)
        → Acts c c'
        → call x (c', st) ≡ some (c'', st')
        → Acts c c''

  pub Acts-IsSound : {c c' : Irq} → Acts c c' → IsSound c → IsSound c'
  Acts-IsSound still h = h
  Acts-IsSound (acting {c' = d} x st st' before e) h =
      subst (After IsSound) e (call-IsSound x (d, st) (Acts-IsSound before h))
