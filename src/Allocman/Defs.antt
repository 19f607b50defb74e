-- ===== src/Allocman/Defs.antt =====
-- The state of libsel4allocman/src/allocman.c (`allocman_t` of include/allocman/allocman.h) and the allocators that it
-- runs. An array that is filled to a count is the list of its entries, the last one first.
use se_l4_libs.Prelude.{ℕ, Bool, Option, none, some, List}
use se_l4_libs.Prelude.Int.{ℤ}
use se_l4_libs.Cspace.Path.{CspacePath}

-- The macros of allocman.c paste the name of one of three allocators.
pub data Space : Type 0 where
  mspace cspace utspace : Space

-- `struct allocman_properties`
pub record Properties : Type 0 where
  pub alloc_can_free : Bool
  pub free_can_alloc : Bool
  pub alloc_can_alloc : Bool
  pub free_can_free : Bool

pub record MspaceChunk : Type 0 where
  pub size : ℕ
  pub count : ℕ

pub record UtspaceChunk : Type 0 where
  pub size_bits : ℕ
  pub ut_type : ℕ
  pub count : ℕ

-- What the reserves and the queues are meant to hold.
pub record Config : Type 0 where
  pub desired_freed_slots : ℕ
  pub desired_freed_mspace_chunks : ℕ
  pub desired_freed_utspace_chunks : ℕ
  pub desired_cspace_slots : ℕ
  pub num_mspace_chunks : ℕ
  pub mspace_chunk : ℕ → MspaceChunk
  pub num_utspace_chunks : ℕ
  pub utspace_chunk : ℕ → UtspaceChunk

-- How often the functions of the allocators have been entered and not left.
pub record Depths : Type 0 where
  pub mspace_alloc_depth : ℕ
  pub mspace_free_depth : ℕ
  pub cspace_alloc_depth : ℕ
  pub cspace_free_depth : ℕ
  pub utspace_alloc_depth : ℕ
  pub utspace_free_depth : ℕ

pub record Allocman : Type 0 where
  pub have_mspace : Bool
  pub have_cspace : Bool
  pub have_utspace : Bool
  pub in_operation : Bool
  pub depths : Depths
  pub refilling_watermark : Bool
  pub used_watermark : Bool
  pub config : Config
  pub freed_slots : List CspacePath
  pub freed_mspace_chunks : List (ℕ × ℕ)
  pub freed_utspace_chunks : List (ℕ × ℕ)
  pub cspace_slots : List CspacePath
  pub mspace_chunks : ℕ → List ℕ
  pub utspace_chunks : ℕ → List (ℕ × CspacePath)

abbrev pub have : Space → Allocman → Bool
have mspace a = a.have_mspace
have cspace a = a.have_cspace
have utspace a = a.have_utspace

abbrev pub alloc_depth : Space → Depths → ℕ
alloc_depth mspace d = d.mspace_alloc_depth
alloc_depth cspace d = d.cspace_alloc_depth
alloc_depth utspace d = d.utspace_alloc_depth

abbrev pub free_depth : Space → Depths → ℕ
free_depth mspace d = d.mspace_free_depth
free_depth cspace d = d.cspace_free_depth
free_depth utspace d = d.utspace_free_depth

abbrev pub set_alloc_depth : Space → ℕ → Depths → Depths
set_alloc_depth mspace n d = record d { mspace_alloc_depth = n }
set_alloc_depth cspace n d = record d { cspace_alloc_depth = n }
set_alloc_depth utspace n d = record d { utspace_alloc_depth = n }

abbrev pub set_free_depth : Space → ℕ → Depths → Depths
set_free_depth mspace n d = record d { mspace_free_depth = n }
set_free_depth cspace n d = record d { cspace_free_depth = n }
set_free_depth utspace n d = record d { utspace_free_depth = n }

-- A call acts on the manager and on what the allocators keep themselves; it gives no result when the program ends.
abbrev pub Act : Type 0 → Type 0 → Type 0
Act S A = Allocman × S → Option (A × Allocman × S)

abbrev pub done : {S A : Type 0} → A → Act S A
done x (a, s) = some (x, a, s)

abbrev pub continue :
    {S A B : Type 0} → (A → Act S B) → Option (A × Allocman × S) → Option (B × Allocman × S)
continue k none = none
continue k (some (x, a, s)) = k x (a, s)

abbrev pub next : {S A B : Type 0} → Act S A → (A → Act S B) → Act S B
next m k t = continue k (m t)

abbrev pub modify : {S : Type 0} → (Allocman → Allocman) → Act S (Unit {0})
modify f (a, s) = some (tt, f a, s)

abbrev pub with_state : {S A : Type 0} → (Allocman → Act S A) → Act S A
with_state f (a, s) = f a (a, s)

-- The allocators that are attached, as `struct mspace_interface` and its kin, and the move of a capability. They may
-- call the manager again.
pub record Allocators : Type 1 where
  pub State : Type 0
  pub properties : Space → Properties
  pub mspace_alloc : ℕ → Act State (ℤ × ℕ)
  pub mspace_free : ℕ → ℕ → Act State (Unit {0})
  pub cspace_alloc : Act State (ℤ × CspacePath)
  pub cspace_free : CspacePath → Act State (Unit {0})
  pub utspace_alloc : ℕ → ℕ → CspacePath → ℕ → Bool → Act State (ℤ × ℕ)
  pub utspace_free : ℕ → ℕ → Act State (Unit {0})
  pub cnode_move : CspacePath → CspacePath → State → ℤ × State
