-- ===== src/Allocman/Ends.antt =====
-- Allocators that do not call the manager of libsel4allocman/src/allocman.c back, and the manager while its reserves are
-- filled.
use se_l4_libs.Prelude.{ℕ, ◌≡◌, Bool, true, List, [], ◌∷◌}
use se_l4_libs.Cspace.Path.{CspacePath}
use se_l4_libs.Allocman.Defs.{Space, Depths, Allocman, Allocators, have}
use se_l4_libs.Allocman.Freed.{Freed, freed_slot, freed_chunk, freed_untyped, IsAnswering}

-- The allocators answer without calling the manager. `freed` is what they have been told to free so far, the last
-- first: each free function adds its arguments, and the alloc functions nothing.
pub record IsQuiet (b : Allocators) : Type 0 where
  pub freed : b.State → List Freed
  pub mspace_alloc_answers : (size : ℕ) → IsAnswering freed [] (b.mspace_alloc size)
  pub mspace_free_answers :
      (ptr size : ℕ) → IsAnswering freed (freed_chunk ptr size ∷ []) (b.mspace_free ptr size)
  pub cspace_alloc_answers : IsAnswering freed [] b.cspace_alloc
  pub cspace_free_answers :
      (slot : CspacePath) → IsAnswering freed (freed_slot slot ∷ []) (b.cspace_free slot)
  pub utspace_alloc_answers :
      (size_bits ut_type : ℕ) (path : CspacePath) (paddr : ℕ) (can_be_dev : Bool)
      → IsAnswering freed [] (b.utspace_alloc size_bits ut_type path paddr can_be_dev)
  pub utspace_free_answers :
      (cookie size_bits : ℕ)
      → IsAnswering freed (freed_untyped cookie size_bits ∷ []) (b.utspace_free cookie size_bits)

-- No allocator is entered.
abbrev pub no_depths : Depths
no_depths = record {
  mspace_alloc_depth = 0;
  mspace_free_depth = 0;
  cspace_alloc_depth = 0;
  cspace_free_depth = 0;
  utspace_alloc_depth = 0;
  utspace_free_depth = 0;
}

-- While the reserves are filled, with what the queues hold.
pub record IsReady (slots : List CspacePath) (chunks untypeds : List (ℕ × ℕ)) (a : Allocman)
    : Type 0 where
  pub attached : (s : Space) → have s a ≡ true
  pub idle : a.depths ≡ no_depths
  pub refilling : a.refilling_watermark ≡ true
  pub freed : a.freed_slots ≡ slots
  pub freed_chunks : a.freed_mspace_chunks ≡ chunks
  pub freed_untypeds : a.freed_utspace_chunks ≡ untypeds

module _ (slots : List CspacePath) (chunks untypeds : List (ℕ × ℕ)) where
  Ready : Allocman → Type 0
  Ready = IsReady slots chunks untypeds

  -- Another manager that agrees on what matters.
  abbrev pub same_ready :
      (a : Allocman) (operation used : Bool) (d : Depths) (held : List CspacePath)
      (mem : ℕ → List ℕ) (uts : ℕ → List (ℕ × CspacePath))
      → Allocman
  same_ready a operation used d held mem uts = record a {
    in_operation = operation;
    used_watermark = used;
    depths = d;
    cspace_slots = held;
    mspace_chunks = mem;
    utspace_chunks = uts;
  }

  pub same-IsReady :
      (a : Allocman)
      → IsReady slots chunks untypeds a
      → (operation used : Bool) (d : Depths) (held : List CspacePath) (mem : ℕ → List ℕ)
        (uts : ℕ → List (ℕ × CspacePath))
      → d ≡ no_depths
      → IsReady slots chunks untypeds (same_ready a operation used d held mem uts)
  same-IsReady a h operation used d held mem uts e = record {
    attached = at h;
    idle = e;
    refilling = h.refilling;
    freed = h.freed;
    freed_chunks = h.freed_chunks;
    freed_untypeds = h.freed_untypeds;
  }
    where
      at :
          IsReady slots chunks untypeds a
          → (s : Space) → have s (same_ready a operation used d held mem uts) ≡ true
      at h Space.mspace = h.attached Space.mspace
      at h Space.cspace = h.attached Space.cspace
      at h Space.utspace = h.attached Space.utspace
