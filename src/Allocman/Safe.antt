-- ===== src/Allocman/Safe.antt =====
-- Freeing through libsel4allocman/src/allocman.c, for any refill that keeps to its arrays.
use se_l4_libs.Prelude.{
  ℕ, suc, ◌≤◌, ◌≡◌, sym, ap, ◌∙◌, subst, Bool, true, false, not, Option, none, some, ◌∷◌, length,
  ◌==◌, arith, add_size, sub_size, Bool-cases, inl, inr,
}
use se_l4_libs.Cspace.Path.{CspacePath}
use se_l4_libs.Allocman.Defs.{
  Space, Depths, Allocman, Act, Allocators, have, alloc_depth, free_depth, set_alloc_depth,
  set_free_depth, done, continue, next, modify,
}
use se_l4_libs.Allocman.Ops.{
  can_free, queue_slot, queue_mspace, queue_utspace, start_operation, end_operation, within_alloc,
  within_free, free_through, cspace_free, mspace_free, utspace_free,
}
use se_l4_libs.Allocman.Kept.{
  IsWords, IsBounded, IsStep, IsStep-IsOrder, Good, Keeps, Keeps-done, Keeps-none, Keeps-modify,
  Keeps-with_state, Keeps-next, Keeps-if,
}
use se_l4_libs.Allocman.Depth.{alloc_up_down, free_up_down, alloc_up-IsWords, free_up-IsWords}
use se_l4_libs.Allocman.Calls.{
  IsTame, flags-IsStep, freed_slots-IsStep, freed_mspace_chunks-IsStep, freed_utspace_chunks-IsStep,
}

-- A queue that is not full has room for one more.
room : (n limit : ℕ) → (n == limit) ≡ false → n ≤ limit → suc n ≤ limit
room n limit e h = ground arith

queue_slot-Keeps : {S : Type 0} (path : CspacePath) → Keeps IsStep {S = S} (queue_slot path)
unfolding queue_slot
queue_slot-Keeps path = record {
  keeps = λ a s. elim (Bool-cases (length a.freed_slots == a.config.desired_freed_slots)) [
    | inl e ↦ rw e tt
    | inr e ↦ rw e (freed_slots-IsStep a (path ∷ a.freed_slots) (λ h. room _ _ e h.freed))
  ];
}

queue_mspace-Keeps : {S : Type 0} (ptr bytes : ℕ) → Keeps IsStep {S = S} (queue_mspace ptr bytes)
unfolding queue_mspace
queue_mspace-Keeps ptr bytes = record {
  keeps = λ a s.
      elim (Bool-cases (length a.freed_mspace_chunks == a.config.desired_freed_mspace_chunks)) [
        | inl e ↦ rw e tt
        | inr e ↦ rw e (
            freed_mspace_chunks-IsStep a ((ptr, bytes) ∷ a.freed_mspace_chunks)
              (λ h. room _ _ e h.freed_chunks))
      ];
}

queue_utspace-Keeps :
    {S : Type 0} (cookie bits : ℕ) → Keeps IsStep {S = S} (queue_utspace cookie bits)
unfolding queue_utspace
queue_utspace-Keeps cookie bits = record {
  keeps = λ a s.
      elim (Bool-cases (length a.freed_utspace_chunks == a.config.desired_freed_utspace_chunks)) [
        | inl e ↦ rw e tt
        | inr e ↦ rw e (
            freed_utspace_chunks-IsStep a ((cookie, bits) ∷ a.freed_utspace_chunks)
              (λ h. room _ _ e h.freed_untypeds))
      ];
}

-- A step between a depth that is counted up and the same counted down.
module _ (up down : Depths → Depths) (same : (d : Depths) → IsWords d → down (up d) ≡ d)
    (words : (d : Depths) → IsWords d → IsWords (up d)) where
  abbrev raised : Allocman → Allocman
  raised a = record a { depths = up a.depths }

  raised-IsBounded : (a : Allocman) → IsBounded a → IsBounded (raised a)
  raised-IsBounded a h = record {
    slots = h.slots;
    chunks = h.chunks;
    untypeds = h.untypeds;
    freed = h.freed;
    freed_chunks = h.freed_chunks;
    freed_untypeds = h.freed_untypeds;
    words = words a.depths h.words;
  }

  lowered-IsStep :
      (a a' : Allocman) → IsStep (raised a) a' → IsStep a (record a' { depths = down a'.depths })
  lowered-IsStep a a' h = record {
    kept = record {
      bounded = λ k.
          (let k' = h.kept.bounded (raised-IsBounded a k) in
            record {
              slots = k'.slots;
              chunks = k'.chunks;
              untypeds = k'.untypeds;
              freed = k'.freed;
              freed_chunks = k'.freed_chunks;
              freed_untypeds = k'.freed_untypeds;
              words = subst IsWords (sym (back k)) k.words;
            });
      same_config = h.kept.same_config;
      same_depths = back;
      same_refilling = h.kept.same_refilling;
    };
    less = λ k.
        let l = h.less k in record { slots = l.slots; chunks = l.chunks; untypeds = l.untypeds };
  }
    where
      back : IsBounded a → down a'.depths ≡ a.depths
      back k = ap down (h.kept.same_depths (raised-IsBounded a k)) ∙ same a.depths k.words

  around-Keeps :
      {S A : Type 0} {call : Act S A}
      → Keeps IsStep call
      → Keeps IsStep (
          next (modify raised) (λ u.
            next call
              (λ x. next (modify (λ a. record a { depths = down a.depths })) (λ v. done x))))
  around-Keeps {call = call} h = record {
    keeps = λ a s. around a (call (raised a, s)) (h.keeps (raised a) s);
  }
    where
      around :
          {S A : Type 0} (a : Allocman) (o : Option (A × Allocman × S))
          → Good IsStep (raised a) o
          → Good IsStep a (
              continue
                (λ x. next (modify (λ a. record a { depths = down a.depths })) (λ v. done x))
                o)
      around a none g = tt
      around a (some (x, a', s)) g = lowered-IsStep a a' g

module _ (b : Allocators) (tame : IsTame b) (refill : Act b.State Bool)
    (refill_keeps : Keeps IsStep refill) where
  open b use {State, properties}

  pub start_operation-Keeps : Keeps IsStep (start_operation b refill)
  start_operation-Keeps = record { keeps = λ a s. flags-IsStep a true a.used_watermark }

  pub end_operation-Keeps : (root : Bool) → Keeps IsStep (end_operation b refill root)
  unfolding end_operation
  end_operation-Keeps root =
      Keeps-next IsStep-IsOrder
        (Keeps-modify IsStep-IsOrder (λ a. flags-IsStep a (not root) a.used_watermark))
        (λ u.
          Keeps-if IsStep-IsOrder root
            (Keeps-next IsStep-IsOrder refill_keeps (λ full. Keeps-done IsStep-IsOrder tt))
            (Keeps-done IsStep-IsOrder tt))

  pub within_alloc-Keeps :
      {A : Type 0} (space : Space) {call : Act State A}
      → Keeps IsStep call
      → Keeps IsStep (within_alloc b refill space call)
  unfolding within_alloc
  within_alloc-Keeps space h =
      around-Keeps (λ d. set_alloc_depth space (add_size (alloc_depth space d) 1) d)
        (λ d. set_alloc_depth space (sub_size (alloc_depth space d) 1) d) (alloc_up_down space)
        (alloc_up-IsWords space) h

  within_free-Keeps :
      {A : Type 0} (space : Space) {call : Act State A}
      → Keeps IsStep call
      → Keeps IsStep (within_free b refill space call)
  unfolding within_free
  within_free-Keeps space h =
      around-Keeps (λ d. set_free_depth space (add_size (free_depth space d) 1) d)
        (λ d. set_free_depth space (sub_size (free_depth space d) 1) d) (free_up_down space)
        (free_up-IsWords space) h

  free_through-Keeps :
      (space : Space) {queue call : Act State (Unit {0})}
      → Keeps IsStep queue
      → Keeps IsStep call
      → Keeps IsStep (free_through b refill space queue call)
  unfolding free_through
  free_through-Keeps space q h = Keeps-with_state IsStep-IsOrder (λ a.
      Keeps-if IsStep-IsOrder (not (have space a)) (Keeps-none IsStep-IsOrder) (
        Keeps-if IsStep-IsOrder
          (not
            (can_free (properties space) (alloc_depth space a.depths) (free_depth space a.depths)))
          q
          (Keeps-next IsStep-IsOrder start_operation-Keeps (λ root.
            Keeps-next IsStep-IsOrder (within_free-Keeps space h)
              (λ u. end_operation-Keeps root)))))

  pub cspace_free-Keeps : (slot : CspacePath) → Keeps IsStep (cspace_free b refill slot)
  unfolding cspace_free
  cspace_free-Keeps slot =
      free_through-Keeps Space.cspace (queue_slot-Keeps slot) (tame.cspace_free_keeps slot)

  pub mspace_free-Keeps : (ptr bytes : ℕ) → Keeps IsStep (mspace_free b refill ptr bytes)
  unfolding mspace_free
  mspace_free-Keeps ptr bytes =
      free_through-Keeps Space.mspace (queue_mspace-Keeps ptr bytes)
        (tame.mspace_free_keeps ptr bytes)

  pub utspace_free-Keeps : (cookie bits : ℕ) → Keeps IsStep (utspace_free b refill cookie bits)
  unfolding utspace_free
  utspace_free-Keeps cookie bits =
      free_through-Keeps Space.utspace (queue_utspace-Keeps cookie bits)
        (tame.utspace_free_keeps cookie bits)
