-- ===== src/Allocman/Calls.antt =====
-- What the arrays of libsel4allocman/src/allocman.c ask of the attached allocators, and the changes of the state that
-- allocating and freeing are made of.
use se_l4_libs.Prelude.{
  ℕ, suc, ◌≤◌, ◌≡◌, refl, sym, ap, ◌∙◌, subst, Bool, true, List, ◌∷◌, length, arith,
}
use se_l4_libs.Prelude.Bits.{assign, assign_elim}
use se_l4_libs.Cspace.Path.{CspacePath}
use se_l4_libs.Allocman.Defs.{Config, Allocman, Allocators}
use se_l4_libs.Allocman.Kept.{IsWords, IsBounded, IsLess, IsStep, Keeps}

-- The allocators change the manager only as its own functions do.
pub record IsTame (b : Allocators) : Type 0 where
  pub mspace_alloc_keeps : (size : ℕ) → Keeps IsStep (b.mspace_alloc size)
  pub mspace_free_keeps : (ptr size : ℕ) → Keeps IsStep (b.mspace_free ptr size)
  pub cspace_alloc_keeps : Keeps IsStep b.cspace_alloc
  pub cspace_free_keeps : (slot : CspacePath) → Keeps IsStep (b.cspace_free slot)
  pub utspace_alloc_keeps :
      (size_bits ut_type : ℕ) (path : CspacePath) (paddr : ℕ) (can_be_dev : Bool)
      → Keeps IsStep (b.utspace_alloc size_bits ut_type path paddr can_be_dev)
  pub utspace_free_keeps : (cookie size_bits : ℕ) → Keeps IsStep (b.utspace_free cookie size_bits)

-- Lists of another manager that has the same configuration and are not longer.
pub shorter-IsStep :
    (a a' : Allocman)
    → a'.config ≡ a.config
    → a'.depths ≡ a.depths
    → a'.refilling_watermark ≡ a.refilling_watermark
    → IsLess a a'
    → (IsBounded a → length a'.freed_slots ≤ a.config.desired_freed_slots)
    → (IsBounded a → length a'.freed_mspace_chunks ≤ a.config.desired_freed_mspace_chunks)
    → (IsBounded a → length a'.freed_utspace_chunks ≤ a.config.desired_freed_utspace_chunks)
    → IsStep a a'
shorter-IsStep a a' config depths refilling less slots chunks untypeds = record {
  kept = record {
    bounded = λ h. record {
      slots =
          subst (λ (c : Config). length a'.cspace_slots ≤ c.desired_cspace_slots) (sym config)
            (let x = h.slots in let y = less.slots in omega arith);
      chunks = λ i.
          subst (λ (c : Config). length (a'.mspace_chunks i) ≤ (c.mspace_chunk i).count)
            (sym config) (let x = h.chunks i in let y = less.chunks i in omega arith);
      untypeds = λ i.
          subst (λ (c : Config). length (a'.utspace_chunks i) ≤ (c.utspace_chunk i).count)
            (sym config) (let x = h.untypeds i in let y = less.untypeds i in omega arith);
      freed =
          subst (λ (c : Config). length a'.freed_slots ≤ c.desired_freed_slots) (sym config)
            (slots h);
      freed_chunks =
          subst (λ (c : Config). length a'.freed_mspace_chunks ≤ c.desired_freed_mspace_chunks)
            (sym config) (chunks h);
      freed_untypeds =
          subst (λ (c : Config). length a'.freed_utspace_chunks ≤ c.desired_freed_utspace_chunks)
            (sym config) (untypeds h);
      words = subst IsWords (sym depths) h.words;
    };
    same_config = config;
    same_depths = λ h. depths;
    same_refilling = refilling;
  };
  less = λ h. less;
}

-- Changes of the flags, of the queues and of the reserves.
pub flags-IsStep :
    (a : Allocman) (operation used : Bool)
    → IsStep a (record a { in_operation = operation; used_watermark = used })
flags-IsStep a operation used =
    shorter-IsStep a _ refl refl refl
      (record { slots = omega arith; chunks = λ i. omega arith; untypeds = λ i. omega arith })
      (λ h. h.freed) (λ h. h.freed_chunks) (λ h. h.freed_untypeds)

pub freed_slots-IsStep :
    (a : Allocman) (l : List CspacePath)
    → (IsBounded a → length l ≤ a.config.desired_freed_slots)
    → IsStep a (record a { freed_slots = l })
freed_slots-IsStep a l h =
    shorter-IsStep a _ refl refl refl
      (record { slots = omega arith; chunks = λ i. omega arith; untypeds = λ i. omega arith }) h
      (λ h. h.freed_chunks) (λ h. h.freed_untypeds)

pub freed_mspace_chunks-IsStep :
    (a : Allocman) (l : List (ℕ × ℕ))
    → (IsBounded a → length l ≤ a.config.desired_freed_mspace_chunks)
    → IsStep a (record a { freed_mspace_chunks = l })
freed_mspace_chunks-IsStep a l h =
    shorter-IsStep a _ refl refl refl
      (record { slots = omega arith; chunks = λ i. omega arith; untypeds = λ i. omega arith })
      (λ h. h.freed) h (λ h. h.freed_untypeds)

pub freed_utspace_chunks-IsStep :
    (a : Allocman) (l : List (ℕ × ℕ))
    → (IsBounded a → length l ≤ a.config.desired_freed_utspace_chunks)
    → IsStep a (record a { freed_utspace_chunks = l })
freed_utspace_chunks-IsStep a l h =
    shorter-IsStep a _ refl refl refl
      (record { slots = omega arith; chunks = λ i. omega arith; untypeds = λ i. omega arith })
      (λ h. h.freed) (λ h. h.freed_chunks) h

less_at :
    {A : Type 0} (f : ℕ → List A) (i : ℕ) (x : A) (rest : List A)
    → f i ≡ x ∷ rest
    → (j : ℕ) → length (assign f i rest j) ≤ length (f j)
less_at f i x rest e j =
    assign_elim (λ l. length l ≤ length (f j)) f i rest j
      (λ q.
        (let h : length (f j) ≡ suc (length rest) = ap length (ap f (sym q) ∙ e) in omega arith))
      (λ ne. omega arith)

pub take_slot-IsStep :
    (a : Allocman) (slot : CspacePath) (rest : List CspacePath)
    → a.cspace_slots ≡ slot ∷ rest
    → IsStep a (record a { cspace_slots = rest; used_watermark = true })
take_slot-IsStep a slot rest e =
    shorter-IsStep a _ refl refl refl
      (record {
        slots = let h : length a.cspace_slots ≡ suc (length rest) = ap length e in omega arith;
        chunks = λ i. omega arith;
        untypeds = λ i. omega arith;
      })
      (λ h. h.freed) (λ h. h.freed_chunks) (λ h. h.freed_untypeds)

pub take_chunk-IsStep :
    (a : Allocman) (i ptr : ℕ) (rest : List ℕ)
    → a.mspace_chunks i ≡ ptr ∷ rest
    → IsStep a (record a { mspace_chunks = assign a.mspace_chunks i rest; used_watermark = true })
take_chunk-IsStep a i ptr rest e =
    shorter-IsStep a _ refl refl refl
      (record {
        slots = omega arith;
        chunks = less_at a.mspace_chunks i ptr rest e;
        untypeds = λ i. omega arith;
      })
      (λ h. h.freed) (λ h. h.freed_chunks) (λ h. h.freed_untypeds)

pub take_untyped-IsStep :
    (a : Allocman) (i : ℕ) (x : ℕ × CspacePath) (rest : List (ℕ × CspacePath))
    → a.utspace_chunks i ≡ x ∷ rest
    → IsStep a (record a { utspace_chunks = assign a.utspace_chunks i rest; used_watermark = true })
take_untyped-IsStep a i x rest e =
    shorter-IsStep a _ refl refl refl
      (record {
        slots = omega arith;
        chunks = λ i. omega arith;
        untypeds = less_at a.utspace_chunks i x rest e;
      })
      (λ h. h.freed) (λ h. h.freed_chunks) (λ h. h.freed_untypeds)
