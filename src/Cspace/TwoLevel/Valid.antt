-- ===== src/Cspace/TwoLevel/Valid.antt =====
-- The slots of a two-level cspace that are free, and what a new second level holds.
use se_l4_libs.Prelude.{
  ℕ, zero, suc, ◌+◌, ◌-◌, ◌*◌, ◌%◌, ◌^◌, ◌≤◌, ◌<◌, ◌≡◌, refl, ◌∙◌, ap, subst, Bool, true, false,
  ◌&&◌, Option, none, some, arith, ◌==◌, ltb, if◌then◌else◌, Bool-cases, inl, inr, length,
  get_or-set_self, get_or-set_ne, ℕ_discrete,
}
use native.Mathlib.Nat.{pow-suc, div-add-mod, pow-le-pow_right}
use se_l4_libs.Prelude.Int.{ℤ, nonzero}
use se_l4_libs.Prelude.Outcome.{Outcome, ok, err, abort}
use se_l4_libs.Objects.{ObjectType}
use se_l4_libs.Cspace.Manager.{Manager}
use se_l4_libs.Cspace.SingleLevel
use se_l4_libs.Cspace.SingleLevel.{SingleLevel, num_slots, num_entries, fresh_words}
use se_l4_libs.Cspace.SingleLevel.Valid
use se_l4_libs.Cspace.SingleLevel.Create
use se_l4_libs.Cspace.TwoLevel.Defs.{
  Node, TwoLevel, node_at, set_node, l1_slot, l2_slot, second_config, node_bytes, Step,
}
use se_l4_libs.Cspace.TwoLevel.Second.{
  create_second_level, finish_from, finish_second_level, node_cookie, cnode_bits,
}

-- A slot whose second level is missing is free if its first-level slot is.
abbrev pub free_under : TwoLevel → ℕ → Option Node → Bool
free_under c slot none = Valid.is_free c.first_level (l1_slot c slot)
free_under c slot (some node) = Valid.is_free node.second_level (l2_slot c slot)

abbrev pub is_free : TwoLevel → ℕ → Bool
is_free c slot = free_under c slot (node_at c (l1_slot c slot))

-- The bitmap of a second level holds the `2 ^ level_two_bits` slots of its cnode.
pub record IsLevel (c : TwoLevel) (node : Node) : Type 0 where
  pub valid : Valid.IsValid node.second_level
  pub first : node.second_level.config.first_slot ≡ 0

pub record IsValid (c : TwoLevel) : Type 0 where
  pub wide : 6 ≤ c.config.level_two_bits
  pub narrow : c.config.level_two_bits ≤ 63
  pub first : Valid.IsValid c.first_level
  pub inside :
      c.first_level.config.first_slot + c.first_level.bitmap_length * 64 ≤ length c.second_levels
  pub levels : (i : ℕ) (node : Node) → node_at c i ≡ some node → IsLevel c node

pub node_at-set :
    (c : TwoLevel) (i j : ℕ) (n : Option Node)
    → i < length c.second_levels
    → node_at (set_node c i n) j ≡ (if i == j then n else node_at c j)
node_at-set c i j n h = elim (ℕ_discrete i j) [
  | yes e ↦ ground (arith, get_or-set_self c.second_levels i n none h)
  | no ne ↦ ground (arith, get_or-set_ne c.second_levels i j n none ne)
]

-- A slot is its two indices.
pub slot_eq :
    (c : TwoLevel) (s t : ℕ)
    → (s == t) ≡ ((l1_slot c s == l1_slot c t) && (l2_slot c s == l2_slot c t))
slot_eq c s t = ground (
  arith,
  div-add-mod s (2 ^ c.config.level_two_bits),
  div-add-mod t (2 ^ c.config.level_two_bits),
)

pow_64 : (k : ℕ) → 2 ^ (k + 6) % 64 ≡ 0
pow_64 zero = refl
pow_64 (suc k) =
    let step : 2 ^ (suc k + 6) ≡ 2 ^ (k + 6) * 2 =
      ap (λ n. 2 ^ n) (omega arith) ∙ pow-suc 2 (k + 6) in
    rw step (omega (arith, pow_64 k))

pub whole_words : (b : ℕ) → 6 ≤ b → 2 ^ b % 64 ≡ 0
whole_words b h =
    let back : b - 6 + 6 ≡ b = omega arith in subst (λ n. 2 ^ n % 64 ≡ 0) back (pow_64 (b - 6))

pub pow_bounds : (b : ℕ) → 6 ≤ b → b ≤ 63 → (64 ≤ 2 ^ b) × (2 ^ b < 2 ^ 64)
pow_bounds b h k = (
  pow-le-pow_right {n = 2} (omega arith) {i = 6} {j = b} h,
  omega (arith, pow-le-pow_right {n = 2} (omega arith) {i = b} {j = 63} k),
)

-- A new second level is valid, and every slot of its cnode is free.
abbrev pub FreshLevel : TwoLevel → SingleLevel → Type 0
FreshLevel c level =
    Valid.IsValid level
    × (level.config.first_slot ≡ 0)
    × ((s : ℕ) → Valid.is_free level s ≡ ltb s (2 ^ c.config.level_two_bits))

abbrev FreshOutcome : TwoLevel → Outcome SingleLevel → Type 0
FreshOutcome c (ok level) = FreshLevel c level
FreshOutcome c (err e) = Unit
FreshOutcome c abort = ⊥

module _ (m : Manager) (slot_bits : ℕ) (c : TwoLevel) (wide : 6 ≤ c.config.level_two_bits)
    (narrow : c.config.level_two_bits ≤ 63) where
  fresh_outcome :
      (st : m.mem.State) (o : Outcome SingleLevel)
      → Create.CreateSpec m.mem st (second_config c) o
      → FreshOutcome c o
  fresh_outcome st (ok level) (valid, free, config, granted) = (
    valid,
    ap (λ k. k.first_slot) config,
    λ s. ground (arith, free s, whole_words c.config.level_two_bits wide),
  )
  fresh_outcome st (err e) h = tt
  fresh_outcome st abort h = h

  created_fresh :
      (st : m.mem.State) → FreshOutcome c (SingleLevel.create m.mem st (second_config c)).0
  created_fresh st =
      let bounds = pow_bounds c.config.level_two_bits wide narrow in
      fresh_outcome st (SingleLevel.create m.mem st (second_config c)).0 (
        Create.create-CreateSpec m.mem st (second_config c) (omega (arith, bounds))
          (omega (arith, bounds)))

  -- What `_create_second_level` leaves behind when it allocates the cnode: a fresh level at `index` on
  -- success, and never an undefined free.
  abbrev pub Created : ℕ → Step m (Unit {0}) → Type 0
  Created index (ok _, c', st') =
      (address : ℕ) × (cookie : Option ℕ) × (level : SingleLevel) × FreshLevel c level
      × (c'
          ≡ set_node c index (
              some (record {
                address = address;
                count = 0;
                second_level = level;
                cookie = cookie;
                cookie_valid = true;
              })))
  Created index (err e, c', st') = c' ≡ set_node c index none
  Created index (abort, c', st') = ⊥

  finish-Created :
      (st st' : m.mem.State) (index address cookie : ℕ) (made : Outcome SingleLevel)
      → FreshOutcome c made
      → Created index (finish_from m slot_bits c st' index address (some cookie) true made)
  unfolding finish_from
  finish-Created st st' index address cookie (ok level) fresh =
      (address, some cookie, level, fresh, refl)
  finish-Created st st' index address cookie (err e) fresh = refl
  finish-Created st st' index address cookie abort fresh = fresh

  refused :
      (e : ℤ) (st : m.mem.State) (index : ℕ) → Created index (err e, set_node c index none, st)
  refused e st index = refl

  finish_second-Created :
      (st : m.mem.State) (index address cookie : ℕ)
      → Created index (finish_second_level m slot_bits c st index address (some cookie) true)
  unfolding finish_second_level
  finish_second-Created st index address cookie =
      let made = SingleLevel.create m.mem st (second_config c) in
      finish-Created st made.1 index address cookie made.0 (created_fresh st)

  pub create_second-Created :
      (st : m.mem.State) (index : ℕ)
      → Created index (create_second_level m slot_bits c st index true)
  unfolding create_second_level
  create_second-Created st index =
      let memory = m.mem.alloc st node_bytes in
      let cnode = node_cookie m slot_bits c memory.2 index true in
      elim (Bool-cases (nonzero memory.0)) [
        | inl failed ↦
            rw failed (refused (m.mem.alloc st node_bytes).0 (m.mem.alloc st node_bytes).2 index)
        | inr got ↦ elim (Bool-cases (nonzero cnode.0)) [
          | inl failed ↦
              rw (got, failed) (refused cnode.0 (m.mem.free cnode.2 memory.1 node_bytes) index)
          | inr made ↦
              rw (got, made)
                (finish_second-Created cnode.2 index memory.1
                  (m.utspace_alloc memory.2 (cnode_bits m slot_bits c) ObjectType.cap_table
                    (SingleLevel.make_path c.first_level index) false).1)
        ]
      ]
