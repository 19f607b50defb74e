-- ===== src/Cspace/TwoLevel/Paths.antt =====
-- `_cspace_two_level_make_path`: the path that the source builds from two levels is the simple one that its
-- closing comment spells out.
use se_l4_libs.Prelude.{ℕ, ◌+◌, ◌*◌, ◌/◌, ◌%◌, ◌^◌, ◌<◌, ◌≡◌, refl, ap, ap₂, ◌∙◌, arith, some}
use Prim.Native.Nat.{bit_or}
use native.Mathlib.Nat.{mod-lt, mod-eq_of_lt, div-add-mod', div-le_self}
use se_l4_libs.Prelude.Words.{pow_pos}
use se_l4_libs.Prelude.OrBits.{bit_or-zero, bit_or-shift}
use se_l4_libs.Prelude.Outcome.{ok}
use se_l4_libs.Cspace.Path.{CspacePath}
use se_l4_libs.Cspace.SingleLevel
use se_l4_libs.Cspace.TwoLevel.Defs.{
  Node, TwoLevel, node_at, l1_slot, l2_slot, shift_left, join_paths, make_path,
}

-- The path of the comment, and `window` as the initialiser leaves it.
abbrev pub simple_path : TwoLevel → ℕ → CspacePath
simple_path c slot = record {
  root = c.first_level.config.cnode;
  cap_ptr = slot;
  cap_depth =
      c.first_level.config.cnode_size_bits + c.first_level.config.cnode_guard_bits
      + c.config.level_two_bits;
  dest = slot / 2 ^ c.config.level_two_bits;
  dest_depth = c.first_level.config.cnode_size_bits + c.first_level.config.cnode_guard_bits;
  offset = slot % 2 ^ c.config.level_two_bits;
  window = 0;
}

rejoined : (n slot : ℕ) → slot < 2 ^ 64 → bit_or (shift_left (slot / 2 ^ n) n) (slot % 2 ^ n) ≡ slot
rejoined n slot small =
    let whole : slot / 2 ^ n * 2 ^ n + slot % 2 ^ n ≡ slot = div-add-mod' slot (2 ^ n) in
    let kept : shift_left (slot / 2 ^ n) n ≡ slot / 2 ^ n * 2 ^ n =
      mod-eq_of_lt (omega (arith, whole)) in
    ap (λ (k : ℕ). bit_or k (slot % 2 ^ n)) kept
    ∙ bit_or-shift n (slot / 2 ^ n) (slot % 2 ^ n) (mod-lt slot (pow_pos n))
    ∙ whole

unshifted : (x : ℕ) → x < 2 ^ 64 → bit_or (shift_left x 0) 0 ≡ x
unshifted x h = bit_or-zero (x * 1 % 2 ^ 64) ∙ omega (arith, h)

abbrev pub second_depth : Node → ℕ
second_depth node =
    node.second_level.config.cnode_size_bits + node.second_level.config.cnode_guard_bits

abbrev pub first_depth : TwoLevel → ℕ
first_depth c = c.first_level.config.cnode_size_bits + c.first_level.config.cnode_guard_bits

-- The joined path by its pointer, its own depth and its destination.
abbrev path_of : TwoLevel → ℕ → ℕ → ℕ → ℕ → ℕ → CspacePath
path_of c slot pointer depth dest dest_depth = record (simple_path c slot) {
  cap_ptr = pointer;
  cap_depth = c.first_level.config.cnode_size_bits + c.first_level.config.cnode_guard_bits + depth;
  dest = dest;
  dest_depth = dest_depth;
}

joined :
    (c : TwoLevel) (slot : ℕ) (node : Node)
    → join_paths
        (SingleLevel.make_path c.first_level (l1_slot c slot))
        (SingleLevel.make_path node.second_level (l2_slot c slot))
      ≡ path_of c slot
          (bit_or (shift_left (l1_slot c slot) (second_depth node)) (l2_slot c slot))
          (second_depth node)
          (bit_or (shift_left (l1_slot c slot) 0) 0)
          (first_depth c + 0)
unfolding join_paths SingleLevel.make_path
joined c slot node = refl

-- For a slot below 2^64 under which a second-level node stands, whose path has the depth `level_two_bits`, the
-- path that the code builds by shifting and joining the two levels' paths is the path of its closing comment:
-- the slot itself in the cnode at its upper bits, at the lower bits as offset.
pub make_path-simple :
    (c : TwoLevel) (slot : ℕ) (node : Node)
    → slot < 2 ^ 64
    → node_at c (l1_slot c slot) ≡ some node
    → second_depth node ≡ c.config.level_two_bits
    → make_path c slot ≡ ok (simple_path c slot)
unfolding make_path
make_path-simple c slot node small there deep =
    let n : ℕ = c.config.level_two_bits in
    rw (make_path, there)
      (ap (λ (p : CspacePath). ok p) (joined c slot node)
        ∙ ap
            (λ (d : ℕ). ok (
              path_of c slot (bit_or (shift_left (l1_slot c slot) d) (l2_slot c slot)) d
                (bit_or (shift_left (l1_slot c slot) 0) 0) (first_depth c + 0)))
            deep
        ∙ ap
            (λ (k : ℕ). ok (
              path_of c slot (bit_or (shift_left (l1_slot c slot) n) (l2_slot c slot)) n
                (bit_or (shift_left (l1_slot c slot) 0) 0) k))
            (omega arith)
        ∙ ap₂ (λ (p q : ℕ). ok (path_of c slot p n q (first_depth c))) (rejoined n slot small)
            (unshifted (l1_slot c slot) (omega (arith, div-le_self slot (2 ^ n)))))
