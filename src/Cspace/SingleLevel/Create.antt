-- ===== src/Cspace/SingleLevel/Create.antt =====
-- `cspace_single_level_create` and `cspace_single_level_destroy`: which slots the new bitmap holds, and
-- which memory is asked for and given back.
use se_l4_libs.Prelude.{
  ℕ, zero, suc, List, [], ◌∷◌, ◌+◌, ◌-◌, ◌*◌, ◌/◌, ◌%◌, ◌^◌, ◌≤◌, ◌<◌, ◌≡◌, ◌≢◌, refl, ap, true,
  ◌&&◌, arith, ◌==◌, leb, ltb, if◌then◌else◌, Bool-cases, inl, inr, get_or, set, replicate, length,
  length-set, length-replicate, get_or-replicate, get_or-set_ne, dec_lt,
}
use se_l4_libs.Prelude.Int.{pos, nonzero, nonzero_true, nonzero_false}
use se_l4_libs.Prelude.Words.{test_bit, test_bit-ones, clear_bit-le, set_bit-lt}
use se_l4_libs.Prelude.Outcome.{Outcome, ok, err, abort}
use se_l4_libs.Cspace.Mspace.{Mspace}
use se_l4_libs.Cspace.SingleLevel.{
  SingleLevel, Config, fresh_words, num_slots, num_entries, create, destroy, pad, flip_bit,
}
use se_l4_libs.Cspace.SingleLevel.Valid.{IsValid, is_free}

length-fresh : (n : ℕ) → n / 64 ≤ length (fresh_words n)
length-fresh n = elim (Bool-cases (n % 64 == 0)) [
  | inl whole ↦ rw whole (omega (arith, length-replicate {0} (n / 64) (2 ^ 64 - 1)))
  | inr part ↦ rw part (
      omega (
        arith,
        length-replicate {0} (n / 64 + 1) (2 ^ 64 - 1),
        length-set {0} (replicate (n / 64 + 1) (2 ^ 64 - 1)) (n / 64)
            (pad (64 - n % 64) (2 ^ 64 - 1)),
      ))
]

fresh_word : (n i : ℕ) → i < n / 64 → get_or (fresh_words n) i 0 ≡ 2 ^ 64 - 1
fresh_word n i h = elim (Bool-cases (n % 64 == 0)) [
  | inl whole ↦ rw whole (get_or-replicate (n / 64) i (2 ^ 64 - 1) 0 h)
  | inr part ↦
      rw
        (
          part,
          get_or-set_ne (replicate (n / 64 + 1) (2 ^ 64 - 1)) (n / 64) i
              (pad (64 - n % 64) (2 ^ 64 - 1)) 0 (omega arith),
        )
        (get_or-replicate (n / 64 + 1) i (2 ^ 64 - 1) 0 (omega arith))
]

flip_bit-lt : (w i : ℕ) → i < 64 → w < 2 ^ 64 → flip_bit w i < 2 ^ 64
flip_bit-lt w i h small = ground (arith, clear_bit-le w i, set_bit-lt 64 w i h small)

pad-lt : (k w : ℕ) → w < 2 ^ 64 → pad k w < 2 ^ 64
unfolding pad
pad-lt zero w h = h
pad-lt (suc k) w h = pad-lt k (flip_bit w (64 - suc k)) (flip_bit-lt w (64 - suc k) (omega arith) h)

replicate-lt : (n i v b : ℕ) → v < b → get_or (replicate n v) i 0 < b
replicate-lt zero i v b h = omega arith
replicate-lt (suc n) zero v b h = h
replicate-lt (suc n) (suc i) v b h = replicate-lt n i v b h

set-lt : (ws : List ℕ) (k v i b : ℕ) → v < b → get_or ws i 0 < b → get_or (set ws k v) i 0 < b
set-lt [] k v i b h g = g
set-lt (w ∷ ws) zero v zero b h g = h
set-lt (w ∷ ws) zero v (suc i) b h g = g
set-lt (w ∷ ws) (suc k) v zero b h g = g
set-lt (w ∷ ws) (suc k) v (suc i) b h g = set-lt ws k v i b h g

fresh-small : (n i : ℕ) → get_or (fresh_words n) i 0 < 2 ^ 64
fresh-small n i = elim (Bool-cases (n % 64 == 0)) [
  | inl whole ↦ rw whole (replicate-lt (n / 64) i (2 ^ 64 - 1) (2 ^ 64) (omega arith))
  | inr part ↦ rw part (
      set-lt (replicate (n / 64 + 1) (2 ^ 64 - 1)) (n / 64) (pad (64 - n % 64) (2 ^ 64 - 1)) i
        (2 ^ 64) (pad-lt (64 - n % 64) (2 ^ 64 - 1) (omega arith))
        (replicate-lt (n / 64 + 1) i (2 ^ 64 - 1) (2 ^ 64) (omega arith)))
]

fresh_bit :
    (n k : ℕ) → k < n / 64 * 64 → test_bit (get_or (fresh_words n) (k / 64) 0) (k % 64) ≡ true
fresh_bit n k h = rw (fresh_word n (k / 64) (omega arith)) (test_bit-ones 64 (k % 64) (omega arith))

-- Only the words that `bitmap_length` counts matter to `is_free`.
fresh_free :
    (first n s : ℕ)
    → (leb first s
        && (ltb (s - first) (n / 64 * 64)
            && test_bit (get_or (fresh_words n) ((s - first) / 64) 0) ((s - first) % 64)))
      ≡ (leb first s && ltb s (first + n / 64 * 64))
fresh_free first n s = elim (dec_lt (s - first) (n / 64 * 64)) [
  | yes h ↦ rw (fresh_bit n (s - first) h) (ground arith)
  | no h ↦ ground arith
]

module _ (m : Mspace) (st : m.State) (config : Config) where
  abbrev pub CreateSpec : Outcome SingleLevel → Type 0
  CreateSpec (ok c) =
      IsValid c
      × ((s : ℕ)
          → is_free c s ≡ (
              leb config.first_slot s
              && ltb s (config.first_slot + (config.end_slot - config.first_slot) / 64 * 64)))
      × (c.config ≡ config)
      × ((m.alloc st (num_entries config * 8)).0 ≡ pos 0)
  CreateSpec (err e) = (e ≡ (m.alloc st (num_entries config * 8)).0) × (e ≢ pos 0)
  CreateSpec abort = ⊥

  -- With at least 64 slots, the last below 2^64, the new bitmap is valid, and exactly the slots of its
  -- whole words are free: `(end_slot - first_slot) % 64` slots at the end are never handed out. A bitmap is
  -- made only when the allocation of its memory returns 0; the call fails only with the error, not 0, that
  -- this allocation returned.
  pub create-CreateSpec :
      config.first_slot + 64 ≤ config.end_slot
      → config.end_slot < 2 ^ 64
      → CreateSpec (create m st config).0
  unfolding create
  create-CreateSpec enough small =
      let total : num_slots config ≡ config.end_slot - config.first_slot = omega arith in
      elim (Bool-cases (nonzero (m.alloc st (num_entries config * 8)).0)) [
        | inl failed ↦ rw failed (refl, nonzero_true (m.alloc st (num_entries config * 8)).0 failed)
        | inr got ↦ rw got (
          record {
            in_array = length-fresh (num_slots config);
            last_in = omega arith;
            no_wrap = omega arith;
            small = fresh-small (num_slots config);
          },
          λ s. rw (← total) (fresh_free config.first_slot (num_slots config) s),
          refl,
          nonzero_false (m.alloc st (num_entries config * 8)).0 got,
        )
      ]

  create_fields :
      {c : SingleLevel} {st' : m.State}
      → create m st config ≡ (ok c, st')
      → (c.bitmap ≡ (m.alloc st (num_entries config * 8)).1)
        × (c.bitmap_length ≡ num_slots config / 64)
  unfolding create
  create_fields e = elim (Bool-cases (nonzero (m.alloc st (num_entries config * 8)).0)) [
    | inl failed ↦ cc (rw failed at (ap (λ p. p.0) e))
    | inr got ↦ let same = rw got at (ap (λ p. p.0) e) in (cc same, cc same)
  ]

  -- `destroy` of what `create` has made gives back the whole bitmap exactly when the number of slots is a
  -- multiple of 64: else the size is 8 bytes short of what `create` asked for.
  pub destroy-create :
      {c : SingleLevel} {st' : m.State}
      → create m st config ≡ (ok c, st')
      → (mem : m.State)
      → destroy m mem c
        ≡ m.free mem
            (m.alloc st (num_entries config * 8)).1
            (num_entries config * 8 - (if num_slots config % 64 == 0 then 0 else 8))
  unfolding create destroy
  destroy-create e mem =
      rw ((create_fields e).0, (create_fields e).1)
        (ap (λ k. m.free mem (m.alloc st (num_entries config * 8)).1 k) (ground arith))
