-- ===== src/Allocman/Answered.antt =====
-- Allocating and freeing in libsel4allocman/src/allocman.c while the reserves are filled, for allocators that do not call
-- the manager back.
use se_l4_libs.Prelude.{
  ℕ, ◌≡◌, refl, ap, ◌∙◌, Bool, true, false, not, ◌||◌, none, List, [], ◌∷◌, add_size, sub_size,
  if◌then◌else◌,
}
use se_l4_libs.Prelude.Int.{ℤ, pos, nonzero}
use se_l4_libs.Cspace.Path.{CspacePath}
use se_l4_libs.Allocman.Defs.{
  Space, Properties, Depths, Act, Allocators, alloc_depth, free_depth, set_alloc_depth,
  set_free_depth, done, continue, next, modify,
}
use se_l4_libs.Allocman.Ops
use se_l4_libs.Allocman.Ops.{
  no_paddr, can_alloc, can_free, start_operation, end_operation, within_alloc, within_free,
  free_through, cspace_free, mspace_free, utspace_free, try_watermark_cspace, alloc_through,
  mspace_alloc_with, cspace_alloc_with, utspace_alloc_with, reserve_if,
}
use se_l4_libs.Allocman.Refill.{nested_refill, no_slot}
use se_l4_libs.Allocman.Freed.{
  Freed, freed_slot, freed_chunk, freed_untyped, IsAnswering, Frees, Frees-done, Frees-modify,
  Frees-next, Frees-last, Frees-if,
}
use se_l4_libs.Allocman.Ends.{IsQuiet, no_depths, IsReady, same-IsReady}

or_true : (x : Bool) → (x || true) ≡ true
or_true true = refl
or_true false = refl

can_free_idle : (q : Properties) → can_free q 0 0 ≡ true
unfolding can_free
can_free_idle q =
    let e = or_true q.alloc_can_free in let e' = or_true q.free_can_free in rw e (rw e' refl)

can_alloc_idle : (q : Properties) → can_alloc q 0 0 ≡ true
unfolding can_alloc
can_alloc_idle q =
    let e = or_true q.alloc_can_alloc in let e' = or_true q.free_can_alloc in rw e (rw e' refl)

alloc_idle : (s : Space) → alloc_depth s no_depths ≡ 0
alloc_idle Space.mspace = refl
alloc_idle Space.cspace = refl
alloc_idle Space.utspace = refl

free_idle : (s : Space) → free_depth s no_depths ≡ 0
free_idle Space.mspace = refl
free_idle Space.cspace = refl
free_idle Space.utspace = refl

abbrev alloc_up : Space → Depths → Depths
alloc_up s d = set_alloc_depth s (add_size (alloc_depth s d) 1) d

abbrev alloc_down : Space → Depths → Depths
alloc_down s d = set_alloc_depth s (sub_size (alloc_depth s d) 1) d

abbrev free_up : Space → Depths → Depths
free_up s d = set_free_depth s (add_size (free_depth s d) 1) d

abbrev free_down : Space → Depths → Depths
free_down s d = set_free_depth s (sub_size (free_depth s d) 1) d

alloc_back : (s : Space) → alloc_down s (alloc_up s no_depths) ≡ no_depths
alloc_back Space.mspace = refl
alloc_back Space.cspace = refl
alloc_back Space.utspace = refl

free_back : (s : Space) → free_down s (free_up s no_depths) ≡ no_depths
free_back Space.mspace = refl
free_back Space.cspace = refl
free_back Space.utspace = refl

module _ (b : Allocators) (quiet : IsQuiet b) (slots : List CspacePath)
    (chunks untypeds : List (ℕ × ℕ)) where
  open b use {State, properties}

  abbrev pub FreesReady : {A : Type 0} → List Freed → Act State A → Type 0
  FreesReady xs m =
      Frees quiet.freed xs (IsReady slots chunks untypeds) (IsReady slots chunks untypeds) m

  nested_refill-Frees : FreesReady [] (nested_refill b)
  unfolding nested_refill
  nested_refill-Frees = record {
    frees = λ a s h. (
      false,
      a,
      s,
      ap (λ r. (if r || not a.used_watermark then done {S = State} false else (λ t. none)) (a, s))
          h.refilling,
      (h, refl),
    );
  }

  start_operation-Frees : FreesReady [] (start_operation b (nested_refill b))
  start_operation-Frees = record {
    frees = λ a s h. (
      not a.in_operation,
      record a { in_operation = true },
      s,
      refl,
      (
        same-IsReady slots chunks untypeds a h true a.used_watermark a.depths a.cspace_slots
            a.mspace_chunks a.utspace_chunks h.idle,
        refl,
      ),
    );
  }

  end_operation-Frees : (root : Bool) → FreesReady [] (end_operation b (nested_refill b) root)
  unfolding end_operation
  end_operation-Frees root =
      Frees-next {Q = IsReady slots chunks untypeds}
        (Frees-modify _ (λ a h.
          same-IsReady slots chunks untypeds a h (not root) a.used_watermark a.depths a.cspace_slots
            a.mspace_chunks a.utspace_chunks h.idle))
        (λ u.
          Frees-if root
            (Frees-next {Q = IsReady slots chunks untypeds} nested_refill-Frees
              (λ full. Frees-done tt))
            (Frees-done tt))

  within_free-Frees :
      {A : Type 0} (space : Space) {call : Act State A} {xs : List Freed}
      → IsAnswering quiet.freed xs call
      → FreesReady xs (within_free b (nested_refill b) space call)
  unfolding within_free
  within_free-Frees space answers = record {
    frees = λ a s h.
        (let (x, s', e, l) = answers.answer (record a { depths = free_up space a.depths }) s in
          (
            x,
            record a { depths = free_down space (free_up space a.depths) },
            s',
            ap
                (continue (λ y.
                  next (modify (λ a. record a { depths = free_down space a.depths }))
                    (λ v. done y)))
                e,
            (
              same-IsReady slots chunks untypeds a h a.in_operation a.used_watermark
                  (free_down space (free_up space a.depths)) a.cspace_slots a.mspace_chunks
                  a.utspace_chunks
                  (ap (λ d. free_down space (free_up space d)) h.idle ∙ free_back space),
              l,
            ),
          ));
  }

  within_alloc-Frees :
      {A : Type 0} (space : Space) {call : Act State A}
      → IsAnswering quiet.freed [] call
      → FreesReady [] (within_alloc b (nested_refill b) space call)
  unfolding within_alloc
  within_alloc-Frees space answers = record {
    frees = λ a s h.
        (let (x, s', e, l) = answers.answer (record a { depths = alloc_up space a.depths }) s in
          (
            x,
            record a { depths = alloc_down space (alloc_up space a.depths) },
            s',
            ap
                (continue (λ y.
                  next (modify (λ a. record a { depths = alloc_down space a.depths }))
                    (λ v. done y)))
                e,
            (
              same-IsReady slots chunks untypeds a h a.in_operation a.used_watermark
                  (alloc_down space (alloc_up space a.depths)) a.cspace_slots a.mspace_chunks
                  a.utspace_chunks
                  (ap (λ d. alloc_down space (alloc_up space d)) h.idle ∙ alloc_back space),
              l,
            ),
          ));
  }

  -- Freeing is never put off, since no allocator is entered.
  free_through-Frees :
      (space : Space) (queue : Act State (Unit {0})) {call : Act State (Unit {0})} {xs : List Freed}
      → IsAnswering quiet.freed xs call
      → FreesReady xs (free_through b (nested_refill b) space queue call)
  unfolding free_through
  free_through-Frees space queue answers = record {
    frees = λ a s h.
        (let live = h.attached space in
          let none_entered : can_free (properties space) (alloc_depth space a.depths)
                (free_depth space a.depths)
              ≡ true =
            ap (λ d. can_free (properties space) (alloc_depth space d) (free_depth space d)) h.idle
            ∙ ap (λ n. can_free (properties space) n (free_depth space no_depths))
                (alloc_idle space)
            ∙ ap (λ n. can_free (properties space) 0 n) (free_idle space)
            ∙ can_free_idle (properties space) in
          rw live (
            rw none_entered (
              (Frees-next {Q = IsReady slots chunks untypeds} start_operation-Frees (λ root.
                  Frees-last {Q = IsReady slots chunks untypeds} (within_free-Frees space answers)
                    (λ u. end_operation-Frees root))).frees
                a s h)));
  }

  pub cspace_free-Frees :
      (slot : CspacePath) → FreesReady (freed_slot slot ∷ []) (cspace_free b (nested_refill b) slot)
  unfolding cspace_free
  cspace_free-Frees slot = free_through-Frees Space.cspace _ (quiet.cspace_free_answers slot)

  pub mspace_free-Frees :
      (ptr bytes : ℕ)
      → FreesReady (freed_chunk ptr bytes ∷ []) (mspace_free b (nested_refill b) ptr bytes)
  unfolding mspace_free
  mspace_free-Frees ptr bytes =
      free_through-Frees Space.mspace _ (quiet.mspace_free_answers ptr bytes)

  pub utspace_free-Frees :
      (cookie bits : ℕ)
      → FreesReady (freed_untyped cookie bits ∷ []) (utspace_free b (nested_refill b) cookie bits)
  unfolding utspace_free
  utspace_free-Frees cookie bits =
      free_through-Frees Space.utspace _ (quiet.utspace_free_answers cookie bits)

  alloc_through-Frees :
      {A : Type 0} (space : Space) (nothing : A) {call reserve : Act State (ℤ × A)}
      → IsAnswering quiet.freed [] call
      → FreesReady [] reserve
      → FreesReady [] (alloc_through b (nested_refill b) space nothing call reserve)
  unfolding alloc_through
  alloc_through-Frees space nothing answers r = record {
    frees = λ a s h.
        (let live = h.attached space in
          let none_entered : can_alloc (properties space) (alloc_depth space a.depths)
                (free_depth space a.depths)
              ≡ true =
            ap (λ d. can_alloc (properties space) (alloc_depth space d) (free_depth space d)) h.idle
            ∙ ap (λ n. can_alloc (properties space) n (free_depth space no_depths))
                (alloc_idle space)
            ∙ ap (λ n. can_alloc (properties space) 0 n) (free_idle space)
            ∙ can_alloc_idle (properties space) in
          rw live (
            rw none_entered (
              (Frees-next {Q = IsReady slots chunks untypeds} start_operation-Frees (λ root.
                  Frees-next {Q = IsReady slots chunks untypeds} (within_alloc-Frees space answers)
                    (λ x. tried r root x))).frees
                a s h)));
  }
    where
      tried :
          {A : Type 0} {reserve : Act State (ℤ × A)}
          → FreesReady [] reserve
          → (root : Bool) (x : ℤ × A)
          → FreesReady [] (Ops.attempted b (nested_refill b) reserve root x)
      tried r root (error, x) =
          Frees-if (nonzero error)
            (Frees-next {Q = IsReady slots chunks untypeds} r (λ y.
              Frees-next {Q = IsReady slots chunks untypeds} (end_operation-Frees root)
                (λ u. Frees-done y)))
            (Frees-next {Q = IsReady slots chunks untypeds} (end_operation-Frees root)
              (λ u. Frees-done (pos 0, x)))

  pub mspace_alloc_with-Frees :
      (size : ℕ) → FreesReady [] (mspace_alloc_with b (nested_refill b) false size)
  unfolding mspace_alloc_with
  mspace_alloc_with-Frees size =
      alloc_through-Frees Space.mspace 0 (quiet.mspace_alloc_answers size) (Frees-done (pos 1, 0))

  pub utspace_alloc_with-Frees :
      (bits ut_type : ℕ) (path : CspacePath)
      → FreesReady []
          (utspace_alloc_with b (nested_refill b) false bits ut_type path no_paddr false)
  unfolding utspace_alloc_with
  utspace_alloc_with-Frees bits ut_type path =
      alloc_through-Frees Space.utspace 0
        (quiet.utspace_alloc_answers bits ut_type path no_paddr false) (Frees-done (pos 1, 0))

  pub cspace_alloc_with-Frees :
      (use_watermark : Bool)
      → FreesReady [] (cspace_alloc_with b (nested_refill b) use_watermark no_slot)
  unfolding cspace_alloc_with try_watermark_cspace
  cspace_alloc_with-Frees use_watermark =
      alloc_through-Frees Space.cspace no_slot quiet.cspace_alloc_answers (reserved use_watermark)
    where
      taken : (l : List CspacePath) → FreesReady [] (Ops.take_slot b (nested_refill b) no_slot l)
      taken [] = Frees-done (pos 1, no_slot)
      taken (slot ∷ rest) =
          Frees-next {Q = IsReady slots chunks untypeds}
            (Frees-modify _ (λ a h.
              same-IsReady slots chunks untypeds a h a.in_operation true a.depths rest
                a.mspace_chunks a.utspace_chunks h.idle))
            (λ u. Frees-done (pos 0, slot))

      reserved :
          (use_it : Bool)
          → FreesReady [] (
              reserve_if b
                (nested_refill b)
                use_it
                no_slot
                (try_watermark_cspace b (nested_refill b) no_slot))
      reserved true = record { frees = λ a s h. (taken a.cspace_slots).frees a s h }
      reserved false = Frees-done (pos 1, no_slot)
