-- ===== src/Allocman/Freed.antt =====
-- What a call of libsel4allocman/src/allocman.c tells the allocators to free, where it comes to an end.
use se_l4_libs.Prelude.{
  ℕ, ◌≡◌, refl, sym, ap, ◌∙◌, Bool, true, false, Option, some, List, [], ◌∷◌, ◌++◌, if◌then◌else◌,
}
use mathlib.Core.List.{append_assoc}
use se_l4_libs.Cspace.Path.{CspacePath}
use se_l4_libs.Allocman.Defs.{Allocman, Act, done, continue, next, modify}

-- What an allocator is told to free.
pub data Freed : Type 0 where
  freed_slot : CspacePath → Freed
  freed_chunk : ℕ → ℕ → Freed
  freed_untyped : ℕ → ℕ → Freed

-- The items of a queue, as they are freed from its head on, the last first.
abbrev pub slots_freed : List CspacePath → List Freed
slots_freed [] = []
slots_freed (slot ∷ rest) = slots_freed rest ++ (freed_slot slot ∷ [])

abbrev pub chunks_freed : List (ℕ × ℕ) → List Freed
chunks_freed [] = []
chunks_freed ((ptr, size) ∷ rest) = chunks_freed rest ++ (freed_chunk ptr size ∷ [])

abbrev pub untypeds_freed : List (ℕ × ℕ) → List Freed
untypeds_freed [] = []
untypeds_freed ((cookie, size_bits) ∷ rest) =
    untypeds_freed rest ++ (freed_untyped cookie size_bits ∷ [])

-- There is a result, with `Q` of the manager and of the allocators' state in it.
abbrev pub Ending : {S A : Type 0} → (Allocman → S → Type 0) → Option (A × Allocman × S) → Type 0
Ending {S} {A} Q o = (x : A) × (a' : Allocman) × (s' : S) × (o ≡ some (x, a', s')) × Q a' s'

module _ {S : Type 0} (log : S → List Freed) where
  -- An allocator's function gives a result and leaves the manager as it is; `xs` has been freed.
  pub record IsAnswering (xs : List Freed) {A : Type 0} (m : Act S A) : Type 0 where
    pub answer :
        (a : Allocman) (s : S)
        → (x : A) × (s' : S) × (m (a, s) ≡ some (x, a, s')) × (log s' ≡ xs ++ log s)

  -- From `P`, a call gives a result, with `Q` after it, and frees `xs`, the last first.
  pub record Frees (xs : List Freed) (P Q : Allocman → Type 0) {A : Type 0} (m : Act S A)
      : Type 0 where
    pub frees :
        (a : Allocman) (s : S) → P a → Ending (λ a' s'. Q a' × (log s' ≡ xs ++ log s)) (m (a, s))

  -- The same for a call that may free more after it.
  pub record Ends (xs : List Freed) (P Q : Allocman → Type 0) {A : Type 0} (m : Act S A)
      : Type 0 where
    pub ends :
        (a : Allocman) (s : S)
        → P a
        → Ending
            (λ a' s'. Q a' × ((more : List Freed) × (log s' ≡ more ++ (xs ++ log s))))
            (m (a, s))

module _ {S : Type 0} {log : S → List Freed} where
  pub Frees-done : {P : Allocman → Type 0} {A : Type 0} (x : A) → Frees log [] P P (done x)
  Frees-done x = record { frees = λ a s p. (x, a, s, refl, (p, refl)) }

  pub Frees-modify :
      {P Q : Allocman → Type 0} (f : Allocman → Allocman)
      → ((a : Allocman) → P a → Q (f a))
      → Frees log [] P Q (modify f)
  Frees-modify f h = record { frees = λ a s p. (tt, f a, s, refl, (h a p, refl)) }

  pub Frees-Ends :
      {P Q : Allocman → Type 0} {xs : List Freed} {A : Type 0} {m : Act S A}
      → Frees log xs P Q m
      → Ends log xs P Q m
  Frees-Ends h = record {
    ends = λ a s p. (let (x, a', s', e, (q, l)) = h.frees a s p in (x, a', s', e, (q, ([], l))));
  }

  pub Ends-done : {P : Allocman → Type 0} {A : Type 0} (x : A) → Ends log [] P P (done x)
  Ends-done x = Frees-Ends (Frees-done x)

  pub Ends-modify :
      {P Q : Allocman → Type 0} (f : Allocman → Allocman)
      → ((a : Allocman) → P a → Q (f a))
      → Ends log [] P Q (modify f)
  Ends-modify f h = Frees-Ends (Frees-modify f h)

  pub Ends-any :
      {P Q : Allocman → Type 0} {xs : List Freed} {A : Type 0} {m : Act S A}
      → Ends log xs P Q m
      → Ends log [] P Q m
  Ends-any {xs = xs} h = record {
    ends = λ a s p.
        (let (x, a', s', e, (q, (more, l))) = h.ends a s p in
          (x, a', s', e, (q, (more ++ xs, l ∙ sym (append_assoc more xs (log s))))));
  }

  module _ {P Q R : Allocman → Type 0} {A B : Type 0} {m : Act S A} {k : A → Act S B} where
    pub Frees-both :
        {xs ys : List Freed}
        → Frees log xs P Q m
        → ((x : A) → Frees log ys Q R (k x))
        → Frees log (ys ++ xs) P R (next m k)
    Frees-both {xs = xs} {ys = ys} h later = record {
      frees = λ a s p.
          (let (x, a₁, s₁, e, (q, l)) = h.frees a s p in
            let (y, a₂, s₂, e', (r, l')) = (later x).frees a₁ s₁ q in
            (
              y,
              a₂,
              s₂,
              ap (continue k) e ∙ e',
              (r, l' ∙ ap (λ w. ys ++ w) l ∙ sym (append_assoc ys xs (log s))),
            ));
    }

    -- The first part frees nothing, or the second.
    pub Frees-next :
        {ys : List Freed}
        → Frees log [] P Q m
        → ((x : A) → Frees log ys Q R (k x))
        → Frees log ys P R (next m k)
    Frees-next {ys = ys} h later = record {
      frees = λ a s p.
          (let (x, a₁, s₁, e, (q, l)) = h.frees a s p in
            let (y, a₂, s₂, e', (r, l')) = (later x).frees a₁ s₁ q in
            (y, a₂, s₂, ap (continue k) e ∙ e', (r, l' ∙ ap (λ w. ys ++ w) l)));
    }

    pub Frees-last :
        {xs : List Freed}
        → Frees log xs P Q m
        → ((x : A) → Frees log [] Q R (k x))
        → Frees log xs P R (next m k)
    Frees-last h later = record {
      frees = λ a s p.
          (let (x, a₁, s₁, e, (q, l)) = h.frees a s p in
            let (y, a₂, s₂, e', (r, l')) = (later x).frees a₁ s₁ q in
            (y, a₂, s₂, ap (continue k) e ∙ e', (r, l' ∙ l)));
    }

    pub Ends-next :
        {xs : List Freed}
        → Ends log xs P Q m
        → ((x : A) → Ends log [] Q R (k x))
        → Ends log xs P R (next m k)
    Ends-next {xs = xs} h later = record {
      ends = λ a s p.
          (let (x, a₁, s₁, e, (q, (more, l))) = h.ends a s p in
            let (y, a₂, s₂, e', (r, (more', l'))) = (later x).ends a₁ s₁ q in
            (
              y,
              a₂,
              s₂,
              ap (continue k) e ∙ e',
              (
                r,
                (
                  more' ++ more,
                  l' ∙ ap (λ w. more' ++ w) l ∙ sym (append_assoc more' more (xs ++ log s)),
                ),
              ),
            ));
    }

    pub Ends-then :
        {xs ys : List Freed}
        → Frees log xs P Q m
        → ((x : A) → Ends log ys Q R (k x))
        → Ends log (ys ++ xs) P R (next m k)
    Ends-then {xs = xs} {ys = ys} h later = record {
      ends = λ a s p.
          (let (x, a₁, s₁, e, (q, l)) = h.frees a s p in
            let (y, a₂, s₂, e', (r, (more, l'))) = (later x).ends a₁ s₁ q in
            (
              y,
              a₂,
              s₂,
              ap (continue k) e ∙ e',
              (
                r,
                (
                  more,
                  l'
                      ∙ ap (λ w. more ++ (ys ++ w)) l
                      ∙ ap (λ w. more ++ w) (sym (append_assoc ys xs (log s))),
                ),
              ),
            ));
    }

  module _ {P Q : Allocman → Type 0} {xs : List Freed} {A : Type 0} {m n : Act S A} where
    pub Frees-if :
        (c : Bool) → Frees log xs P Q m → Frees log xs P Q n → Frees log xs P Q (if c then m else n)
    Frees-if true h k = h
    Frees-if false h k = k

    pub Ends-if :
        (c : Bool) → Ends log xs P Q m → Ends log xs P Q n → Ends log xs P Q (if c then m else n)
    Ends-if true h k = h
    Ends-if false h k = k
