-- ===== src/Cspace/TwoLevel/Defs.antt =====
-- The data of libsel4allocman/include/allocman/cspace/two_level.h and the paths of its slots.
use se_l4_libs.Prelude.{ℕ, ◌+◌, ◌*◌, ◌/◌, ◌%◌, ◌^◌, Bool, Option, none, some, List, set, get_or}
use Prim.Native.Nat.{bit_or}
use se_l4_libs.Prelude.Outcome.{Outcome, ok, abort}
use se_l4_libs.Cspace.Path.{CspacePath}
use se_l4_libs.Cspace.Manager.{Manager}
use se_l4_libs.Cspace.SingleLevel
use se_l4_libs.Cspace.SingleLevel.{SingleLevel}

-- `existing_index` and `existing_slot` are the ranges of what was in use before.
pub record Config : Type 0 where
  pub cnode : ℕ
  pub cnode_size_bits : ℕ
  pub cnode_guard_bits : ℕ
  pub first_slot : ℕ
  pub end_slot : ℕ
  pub level_two_bits : ℕ
  pub start_existing_index : ℕ
  pub end_existing_index : ℕ
  pub start_existing_slot : ℕ
  pub end_existing_slot : ℕ

-- `struct cspace_two_level_node` at its address; a `cookie` that was never written is `none`.
pub record Node : Type 0 where
  pub address : ℕ
  pub count : ℕ
  pub second_level : SingleLevel
  pub cookie : Option ℕ
  pub cookie_valid : Bool

pub record TwoLevel : Type 0 where
  pub config : Config
  pub first_level : SingleLevel
  pub array : ℕ
  pub second_levels : List (Option Node)
  pub last_second_level : ℕ

abbrev pub node_at : TwoLevel → ℕ → Option Node
node_at c i = get_or c.second_levels i none

abbrev pub set_node : TwoLevel → ℕ → Option Node → TwoLevel
set_node c i n = record c { second_levels = set c.second_levels i n }

-- `slot >> level_two_bits` and `slot & MASK(level_two_bits)`
abbrev pub l1_slot : TwoLevel → ℕ → ℕ
l1_slot c slot = slot / 2 ^ c.config.level_two_bits

abbrev pub l2_slot : TwoLevel → ℕ → ℕ
l2_slot c slot = slot % 2 ^ c.config.level_two_bits

-- `x << n` on a word
abbrev pub shift_left : ℕ → ℕ → ℕ
shift_left x n = x * 2 ^ n % 2 ^ 64

-- The path that joins a first-level and a second-level path; the initialiser leaves `window` 0.
unfoldable pub join_paths : CspacePath → CspacePath → CspacePath
join_paths l1 l2 = record {
  root = l1.root;
  cap_ptr = bit_or (shift_left l1.cap_ptr l2.cap_depth) l2.cap_ptr;
  cap_depth = l1.cap_depth + l2.cap_depth;
  dest = bit_or (shift_left l1.cap_ptr l2.dest_depth) l2.dest;
  dest_depth = l1.cap_depth + l2.dest_depth;
  offset = l2.offset;
  window = 0;
}

unfoldable pub make_path : TwoLevel → ℕ → Outcome CspacePath
unfolding join_paths
make_path c slot = elim (node_at c (l1_slot c slot)) [
  | none ↦ abort
  | some node ↦ ok (
      join_paths (SingleLevel.make_path c.first_level (l1_slot c slot))
        (SingleLevel.make_path node.second_level (l2_slot c slot)))
]

abbrev pub second_config : TwoLevel → SingleLevel.Config
second_config c = record {
  cnode = 0;
  cnode_size_bits = c.config.level_two_bits;
  cnode_guard_bits = 0;
  first_slot = 0;
  end_slot = 2 ^ c.config.level_two_bits;
}

-- `sizeof(struct cspace_two_level_node)` and of a pointer to it
abbrev pub node_bytes : ℕ
node_bytes = 88

abbrev pub pointer_bytes : ℕ
pointer_bytes = 8

-- What a call leaves behind.
abbrev pub Step : Manager → Type 0 → Type 0
Step m A = Outcome A × TwoLevel × m.mem.State
