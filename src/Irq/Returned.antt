-- ===== src/Irq/Returned.antt =====
-- What taking a notification back in libsel4platsupport/src/irq.c does on each branch.
use se_l4_libs.Prelude.{ℕ, ◌<◌, ◌≡◌, ◌≢◌, refl, sym, ap, ◌∙◌, subst, Option, none, some}
use se_l4_libs.Prelude.Int.{ℤ}
use se_l4_libs.Prelude.Outcome.{ok, err, abort}
use se_l4_libs.Prelude.Bits.{assign_self, clash}
use se_l4_libs.Irq.Defs.{NtfnEntry, Irq, IfaceType, Platform, Step, blank_ntfn, usable_ntfn}
use se_l4_libs.Irq.Notify
use se_l4_libs.Irq.Notify.{return_ntfn, release_all, forget}
use se_l4_libs.Irq.Sound.{IsSound, IsUsableNtfn, Each, usable_ntfn_lem}
use se_l4_libs.Irq.Release.{IsForgettable, release_all-IsForgettable}

module _ (p : Platform) (c : Irq) (sound : IsSound c) where
  open p use {State}

  -- The result of giving a notification back and the bookkeeping after it.
  abbrev pub IsReturned : ℕ → Step p ℕ → Type 0
  IsReturned n (ok cap, c', st) =
      (cap ≡ (c.ntfn_table n).root_ntfn_path.cap_ptr)
      × (c'.ntfn_table n ≡ blank_ntfn none)
      × ((i : ℕ) → i < c'.max_irq_ids → (c'.irq_table i).paired_ntfn ≢ some n)
  IsReturned n (err e, c', st) = ⊥
  IsReturned n (abort, c', st) = c' ≡ c

  pub returned-IsReturned :
      (st : State) (n : ℕ)
      → IsUsableNtfn c n
      → IsReturned n (Notify.returned p c st n (release_all p c st n))
  unfolding forget
  returned-IsReturned st n (low, live) =
      all (release_all p c st n) (release_all-IsForgettable p c n low sound st)
    where
      all :
          (o : Option (Irq × State))
          → IsForgettable p c n low sound o
          → IsReturned n (Notify.returned p c st n o)
      all none h = refl
      all (some (d, st')) (h, same) =
          (let blank = assign_self d.ntfn_table n (blank_ntfn none) in
            (
              ap (λ (f : ℕ → NtfnEntry). (f n).root_ntfn_path.cap_ptr) same,
              blank,
              (λ i i_low e.
                  (let (n_low, (b, pair)) = h.linked.forth i n i_low e in
                    clash (sym pair.live ∙ ap (λ (t : NtfnEntry). t.allocated) blank))),
            ))

  -- In sound bookkeeping of a standard interface, for a notification in use: `return_ntfn` does not fail; when it does
  -- not end the program it returns the notification's capability, clears the entry and leaves no interrupt bound to
  -- the notification.
  pub return_ntfn-IsReturned :
      (st : State) (ntfn_id : ℤ) (n : ℕ)
      → c.iface_type ≡ IfaceType.standard
      → usable_ntfn c ntfn_id ≡ some n
      → IsReturned n (return_ntfn p c st ntfn_id)
  unfolding return_ntfn
  return_ntfn-IsReturned st ntfn_id n standard n_is =
      subst
        (λ (f : IfaceType). IsReturned n (Notify.return_checked p c st f (usable_ntfn c ntfn_id)))
        (sym standard)
        (rw n_is (
          returned-IsReturned st n
            (subst (Each (IsUsableNtfn c)) n_is (usable_ntfn_lem c ntfn_id))))
