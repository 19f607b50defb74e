-- ===== src/Irq/Pending.antt =====
-- What `serve_irq` of libsel4platsupport/src/irq.c does with the bits that arrive: which callbacks it runs, what it
-- reports and what stays pending.
use se_l4_libs.Prelude.{
  ℕ, suc, ◌<◌, ◌≡◌, ◌≢◌, refl, sym, ap, ◌∙◌, subst, Bool, true, false, not, ◌&&◌, Option, none,
  some, ltb, arith, Bool-cases, inl, inr, ℕ_discrete,
}
use se_l4_libs.Prelude.Int.{nonzero}
use se_l4_libs.Prelude.Outcome.{Outcome, ok, err, abort}
use se_l4_libs.Prelude.Bits.{
  Bits, no_bits, both, without, either, differ, assign, assign_elim, assign_self, assign_ne,
  each_bit-keeps,
}
use se_l4_libs.Irq.Defs.{NtfnEntry, Irq, Platform, Step}
use se_l4_libs.Irq.Register.{ack_bytes}
use se_l4_libs.Irq.Serve
use se_l4_libs.Irq.Serve.{Driver, serve_irq, serve_bit, perform_callback, call_back}
use se_l4_libs.Irq.Sound.{IsSound}

-- The bits that `serve_irq` looks at: those that arrive and are usable, and those that are pending.
abbrev pub unchecked : NtfnEntry → Bits → Bits
unchecked t badge = either (both badge t.usable_mask) t.pending

abbrev pub has_callback : Irq → Option ℕ → Bool
has_callback c none = false
has_callback c (some i) = elim (c.irq_table i).callback [ none ↦ false | some f ↦ true ]

-- The bits whose callback is run.
abbrev pub called : Irq → ℕ → Bits → Bits → Bits
called c n mask badge b =
    unchecked (c.ntfn_table n) badge b && (mask b && has_callback c ((c.ntfn_table n).bound_irqs b))

differ_off : (a w : Bits) (b : ℕ) → a b ≡ false → differ a w b ≡ w b
differ_off a w b h = rw h refl

differ_on : (a w : Bits) (b : ℕ) → a b ≡ true → w b ≡ false → differ a w b ≡ true
differ_on a w b h off = rw (h, off) refl

and_assoc : (x y z : Bool) → ((x && y) && z) ≡ (x && y && z)
and_assoc true y z = refl
and_assoc false y z = refl

-- One more bit is decided.
decided :
    (served w : Bits) (k : ℕ) (v : Bool)
    → ((j : ℕ) → served j ≡ (ltb j k && w j))
    → w k ≡ v
    → (j : ℕ) → assign served k v j ≡ (ltb j (suc k) && w j)
decided served w k v h e j =
    assign_elim (λ x. x ≡ (ltb j (suc k) && w j)) served k v j
      (λ q. (let low : ltb j (suc k) ≡ true = ground arith in rw low (sym e ∙ ap w q)))
      (λ ne. h j ∙ ap (λ (x : Bool). x && w j) (lower j k ne))
  where
    lower : (j k : ℕ) → k ≢ j → ltb j k ≡ ltb j (suc k)
    lower j k ne = ground arith

-- A bit that is not run is not recorded either.
undecided :
    (served w : Bits) (k : ℕ)
    → ((j : ℕ) → served j ≡ (ltb j k && w j))
    → w k ≡ false
    → (j : ℕ) → served j ≡ (ltb j (suc k) && w j)
undecided served w k h e j = elim (ℕ_discrete k j) [
  | yes q ↦
      (let off : w j ≡ false = ap w (sym q) ∙ e in
        let here = h j in
        let high : ltb j k ≡ false = ground arith in
        let low : ltb j (suc k) ≡ true = ground arith in here ∙ rw high (rw low (rw off refl)))
  | no ne ↦
      (let same : ltb j k ≡ ltb j (suc k) = lower j k ne in h j ∙ ap (λ (x : Bool). x && w j) same)
]
  where
    lower : (j k : ℕ) → k ≢ j → ltb j k ≡ ltb j (suc k)
    lower j k ne = ground arith

module _ (p : Platform) (d : Driver p)
    (quiet : (f cell i ack : ℕ) (c : Irq) (st : p.State) → (d.run f cell i ack (c, st)).0 ≡ c)
    (granted : (st : p.State) (n : ℕ) → nonzero (p.calloc st n).0 ≡ false) (c : Irq)
    (sound : IsSound c) (n : ℕ) (n_low : n < c.max_ntfn_ids) (mask badge : Bits)
    (given : (b : ℕ)
      → b < 64
      → unchecked (c.ntfn_table n) badge b ≡ true
      → mask b ≡ true
      → (c.ntfn_table n).status b ≡ true) where
  open p use {State}

  -- After the bits below `k`.
  IsRun : ℕ → Outcome (Bits × Irq × State) → Type 0
  IsRun k (ok (served, c', st)) =
      (c' ≡ c) × ((j : ℕ) → served j ≡ (ltb j k && called c n mask badge j))
  IsRun k (err e) = ⊥
  IsRun k abort = ⊥

  abbrev IsCalled : Bool → Outcome (Bool × Irq × State) → Type 0
  IsCalled v (ok (u, c', st)) = (u ≡ v) × (c' ≡ c)
  IsCalled v (err e) = ⊥
  IsCalled v abort = ⊥

  call_back_lem :
      (i : ℕ) (st : State) (o : Option ℕ)
      → (c.irq_table i).callback ≡ o
      → IsCalled (has_callback c (some i)) (call_back p d c st i o)
  call_back_lem i st none e = rw (e, has_callback) (refl, refl)
  call_back_lem i st (some f) e =
      let yes = granted st ack_bytes in
      rw (e, has_callback) (rw yes (refl, quiet f (c.irq_table i).callback_data i _ c _))

  perform_lem :
      (b : ℕ) (st : State)
      → b < 64
      → (c.ntfn_table n).status b ≡ true
      → IsCalled
          (has_callback c ((c.ntfn_table n).bound_irqs b))
          (perform_callback p d c st ((c.ntfn_table n).bound_irqs b))
  perform_lem b st low set =
      (let (i, i_low, pair) = sound.linked.back n b n_low low set in
        let bound = pair.bound in
        let inside : ltb i c.max_irq_ids ≡ true = ground arith in
        rw bound (rw inside (call_back_lem i st (c.irq_table i).callback refl)))

  served_lem :
      (k : ℕ) (served : Bits) (v : Bool) (r : Outcome (Bool × Irq × State))
      → IsCalled v r
      → ((j : ℕ) → served j ≡ (ltb j k && called c n mask badge j))
      → called c n mask badge k ≡ v
      → IsRun (suc k) (Serve.served_by p d served k r)
  unfolding IsRun
  served_lem k served v (ok (true, c', st)) (is, same) h e =
      (same, decided served (called c n mask badge) k true h (e ∙ sym is))
  served_lem k served v (ok (false, c', st)) (is, same) h e =
      (same, undecided served (called c n mask badge) k h (e ∙ sym is))
  served_lem k served v (err x) is h e = absurd is
  served_lem k served v abort is h e = absurd is

  on :
      (k : ℕ) (r : Outcome (Bits × Irq × State))
      → k < 64
      → unchecked (c.ntfn_table n) badge k ≡ true
      → IsRun k r
      → IsRun (suc k) (serve_bit p d mask n k r)
  unfolding IsRun
  on k (ok (served, c', st)) low arrived (same, h) =
      subst (λ (x : Irq). IsRun (suc k) (serve_bit p d mask n k (ok (served, x, st)))) (sym same)
        (elim (Bool-cases (mask k)) [
          | inl e ↦ rw e (
              served_lem k served (has_callback c ((c.ntfn_table n).bound_irqs k)) _
                (perform_lem k st low (given k low arrived e)) h (rw arrived (rw e refl)))
          | inr e ↦
              rw e (refl, undecided served (called c n mask badge) k h (rw arrived (rw e refl)))
        ])
  on k (err x) low arrived is = absurd is
  on k abort low arrived is = absurd is

  off :
      (k : ℕ) (r : Outcome (Bits × Irq × State))
      → k < 64
      → unchecked (c.ntfn_table n) badge k ≡ false
      → IsRun k r
      → IsRun (suc k) r
  unfolding IsRun
  off k (ok (served, c', st)) low absent (same, h) =
      (same, undecided served (called c n mask badge) k h (rw absent refl))
  off k (err x) low absent is = absurd is
  off k abort low absent is = absurd is

  -- The result of serving and the bookkeeping after it.
  abbrev pub IsServed : Step p Bits → Type 0
  IsServed (ok leftover, c', st) =
      ((b : ℕ) → b < 64 → leftover b ≡ (badge b && not (called c n mask badge b)))
      × ((b : ℕ)
          → b < 64
          → (c.ntfn_table n).pending b ≡ false
          → (c'.ntfn_table n).pending b
            ≡ (badge b && (c.ntfn_table n).usable_mask b && not (called c n mask badge b)))
      × ((b : ℕ)
          → b < 64
          → (c.ntfn_table n).pending b ≡ true
          → badge b ≡ false
          → called c n mask badge b ≡ false
          → (c'.ntfn_table n).pending b ≡ true)
      × ((m : ℕ) → n ≢ m → c'.ntfn_table m ≡ c.ntfn_table m)
      × (c'.irq_table ≡ c.irq_table)
  IsServed (err e, c', st) = ⊥
  IsServed (abort, c', st) = ⊥

  -- In sound bookkeeping, when the callbacks leave it alone, memory is granted, and each bit that is looked at and in
  -- the mask is that of a bound interrupt: `serve_irq` does not end the program; the bits that arrived are reported
  -- except those whose callback is run; a bit that was not pending is so afterwards exactly when it arrived, is usable
  -- and its callback was not run; a bit that was pending, did not arrive and is not served still is; and no interrupt's
  -- entry and no other notification changes.
  pub serve_irq-IsServed : (st : State) → IsServed (serve_irq p d c st n mask badge)
  unfolding serve_irq IsRun
  serve_irq-IsServed st = recorded_lem _ (
      each_bit-keeps IsRun (unchecked (c.ntfn_table n) badge) (serve_bit p d mask n) 64 on off 64 0
        (ok (no_bits, c, st)) refl (refl, λ j. start j))
    where
      start : (j : ℕ) → false ≡ (ltb j 0 && called c n mask badge j)
      start j = let e : ltb j 0 ≡ false = ground arith in rw e refl

      below : (b : ℕ) → b < 64 → ltb b 64 ≡ true
      below b low = ground arith

      recorded_lem :
          (r : Outcome (Bits × Irq × State))
          → IsRun 64 r
          → IsServed (Serve.recorded p d c st n badge r)
      recorded_lem (ok (served, c', st')) (same, h) =
          (let is : (b : ℕ) → b < 64 → served b ≡ called c n mask badge b =
              λ b low. h b ∙ ap (λ (x : Bool). x && called c n mask badge b) (below b low) in
            let after : (b : ℕ)
                → differ (c'.ntfn_table n).pending
                    (without (both badge (c'.ntfn_table n).usable_mask) served) b
                  ≡ differ (c.ntfn_table n).pending
                      (without (both badge (c.ntfn_table n).usable_mask) served) b =
              λ b.
                ap
                  (λ (x : Irq).
                    differ (x.ntfn_table n).pending
                      (without (both badge (x.ntfn_table n).usable_mask) served) b)
                  same in
            (
              (λ b low. ap (λ (x : Bool). badge b && not x) (is b low)),
              (λ b low idle.
                  ap (λ (t : NtfnEntry). t.pending b) (assign_self c'.ntfn_table n _)
                  ∙ after b
                  ∙ differ_off (c.ntfn_table n).pending
                      (without (both badge (c.ntfn_table n).usable_mask) served) b idle
                  ∙ ap (λ (x : Bool). (badge b && (c.ntfn_table n).usable_mask b) && not x)
                      (is b low)
                  ∙ and_assoc (badge b) ((c.ntfn_table n).usable_mask b) _),
              (λ b low waiting absent idle.
                  ap (λ (t : NtfnEntry). t.pending b) (assign_self c'.ntfn_table n _)
                  ∙ after b
                  ∙ differ_on (c.ntfn_table n).pending
                      (without (both badge (c.ntfn_table n).usable_mask) served) b waiting
                      (rw absent refl)),
              (λ m ne. assign_ne c'.ntfn_table n m _ ne ∙ ap (λ (x : Irq). x.ntfn_table m) same),
              ap (λ (x : Irq). x.irq_table) same,
            ))
      recorded_lem (err e) is = absurd is
      recorded_lem abort is = absurd is
