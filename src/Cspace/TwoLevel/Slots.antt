-- ===== src/Cspace/TwoLevel/Slots.antt =====
-- `_cspace_two_level_alloc_at`, `_cspace_two_level_alloc` and `_cspace_two_level_free`.
use se_l4_libs.Prelude.{
  ℕ, zero, suc, ◌+◌, ◌-◌, ◌%◌, ◌^◌, Bool, true, false, Option, none, some, ◌==◌, ltb, if◌then◌else◌,
  length, add_size, sub_size,
}
use Prim.Native.Nat.{bit_or}
use se_l4_libs.Prelude.Outcome.{Outcome, ok, err, abort}
use se_l4_libs.Cspace.Path.{CspacePath}
use se_l4_libs.Cspace.Manager.{Manager}
use se_l4_libs.Cspace.SingleLevel
use se_l4_libs.Cspace.SingleLevel.{SingleLevel}
use se_l4_libs.Cspace.TwoLevel.Defs.{
  Node, TwoLevel, node_at, set_node, l1_slot, l2_slot, shift_left, make_path, Step,
}
use se_l4_libs.Cspace.TwoLevel.Second.{create_second_level, destroy_second_level}

module _ (m : Manager) (slot_bits : ℕ) where
  open m use {mem, utspace_alloc, utspace_free, cnode_delete}
  open mem use {State, alloc as mspace_alloc, free as mspace_free}

  -- The end of `_cspace_two_level_alloc_at`, when the second level has answered.
  unfoldable pub take_slot : TwoLevel → State → ℕ → Node → Outcome SingleLevel → Step m (Unit {0})
  take_slot c st slot node (ok level) = (
    ok tt,
    set_node c (l1_slot c slot)
        (some (record node { count = add_size node.count 1; second_level = level })),
    st,
  )
  take_slot c st slot node (err e) = (err e, c, st)
  take_slot c st slot node abort = (abort, c, st)

  unfoldable pub alloc_at_second : TwoLevel → State → ℕ → Option Node → Step m (Unit {0})
  unfolding take_slot
  alloc_at_second c st slot none = (abort, c, st)
  alloc_at_second c st slot (some node) =
      take_slot c st slot node (SingleLevel.alloc_at node.second_level (l2_slot c slot))

  -- What follows the call that makes the second level.
  unfoldable pub alloc_at_made : ℕ → Step m (Unit {0}) → Step m (Unit {0})
  unfolding alloc_at_second
  alloc_at_made slot (ok _, c, st) = alloc_at_second c st slot (node_at c (l1_slot c slot))
  alloc_at_made slot (err e, c, st) = (err e, c, st)
  alloc_at_made slot (abort, c, st) = (abort, c, st)

  -- What follows the first level's answer, when there is no second level.
  unfoldable pub alloc_at_first : TwoLevel → State → ℕ → Outcome SingleLevel → Step m (Unit {0})
  unfolding alloc_at_made
  alloc_at_first c st slot (ok level) =
      alloc_at_made slot (
        create_second_level m slot_bits (record c { first_level = level }) st (l1_slot c slot) true)
  alloc_at_first c st slot (err e) = (err e, c, st)
  alloc_at_first c st slot abort = (abort, c, st)

  unfoldable pub alloc_at_under : TwoLevel → State → ℕ → Option Node → Step m (Unit {0})
  unfolding alloc_at_second alloc_at_first
  alloc_at_under c st slot (some node) = alloc_at_second c st slot (some node)
  alloc_at_under c st slot none =
      alloc_at_first c st slot (SingleLevel.alloc_at c.first_level (l1_slot c slot))

  -- `second_levels[l1slot]` is read unchecked: behind the array, what the call does is undefined.
  unfoldable pub alloc_at : TwoLevel → State → ℕ → Step m (Unit {0})
  unfolding alloc_at_under
  alloc_at c st slot =
      if ltb (l1_slot c slot) (length c.second_levels)
      then alloc_at_under c st slot (node_at c (l1_slot c slot))
      else (abort, c, st)

  -- The loop over the second levels, from `last_second_level` round to it again: the first that counts
  -- fewer than `MASK(level_two_bits)` slots. It visits each entry at most once.
  abbrev pub has_room : TwoLevel → ℕ → Bool
  has_room c i = elim (node_at c i) [
    | none ↦ false
    | some node ↦ ltb node.count (2 ^ c.config.level_two_bits - 1)
  ]

  unfoldable pub hunt : TwoLevel → ℕ → ℕ → Option ℕ
  hunt c zero i = none
  hunt c (suc rounds) i =
      let next = (i + 1) % 2 ^ c.config.cnode_size_bits in
      let rest = hunt c rounds next in
      if has_room c i then some i else if next == c.last_second_level then none else rest

  -- The end of `_cspace_two_level_alloc`, when the second level `i` has answered.
  unfoldable pub give_slot :
      TwoLevel → State → ℕ → Node → Outcome (CspacePath × SingleLevel) → Step m CspacePath
  give_slot c st i node (ok (slot, level)) =
      let c' =
        set_node c i (some (record node { count = add_size node.count 1; second_level = level })) in
      (make_path c' (bit_or (shift_left i c.config.level_two_bits) slot.cap_ptr), c', st)
  give_slot c st i node (err e) = (abort, c, st)
  give_slot c st i node abort = (abort, c, st)

  unfoldable pub alloc_second : TwoLevel → State → ℕ → Option Node → Step m CspacePath
  unfolding give_slot
  alloc_second c st i none = (abort, record c { last_second_level = i }, st)
  alloc_second c st i (some node) =
      give_slot (record c { last_second_level = i }) st i node (SingleLevel.alloc node.second_level)

  -- What follows the making of a second level. The variable `i` of the source still is the
  -- `last_second_level` where the hunt ended, not the index of the new level.
  unfoldable pub alloc_made : Step m (Unit {0}) → Step m CspacePath
  unfolding alloc_second
  alloc_made (ok _, c, st) = alloc_second c st c.last_second_level (node_at c c.last_second_level)
  alloc_made (err e, c, st) = (err e, c, st)
  alloc_made (abort, c, st) = (abort, c, st)

  -- What follows the first level's answer, when no second level has room.
  unfoldable pub alloc_first :
      TwoLevel → State → Outcome (CspacePath × SingleLevel) → Step m CspacePath
  unfolding alloc_made
  alloc_first c st (ok (l1slot, level)) =
      alloc_made
        (create_second_level m slot_bits (record c { first_level = level }) st l1slot.offset true)
  alloc_first c st (err e) = (err e, c, st)
  alloc_first c st abort = (abort, c, st)

  unfoldable pub alloc_hunted : TwoLevel → State → Option ℕ → Step m CspacePath
  unfolding alloc_second alloc_first
  alloc_hunted c st (some i) = alloc_second c st i (node_at c i)
  alloc_hunted c st none = alloc_first c st (SingleLevel.alloc c.first_level)

  -- The loop begins with a read of `second_levels[last_second_level]`.
  unfoldable pub alloc : TwoLevel → State → Step m CspacePath
  unfolding hunt alloc_hunted
  alloc c st =
      if ltb c.last_second_level (length c.second_levels)
      then alloc_hunted c st (hunt c (2 ^ c.config.cnode_size_bits) c.last_second_level)
      else (abort, c, st)

  unfoldable pub free : TwoLevel → State → CspacePath → Step m (Unit {0})
  unfolding destroy_second_level
  free c st slot =
      let l1slot = l1_slot c slot.cap_ptr in
      elim (node_at c l1slot) [
        | none ↦ (abort, c, st)
        | some node ↦
            let path = SingleLevel.make_path node.second_level (l2_slot c slot.cap_ptr) in
            elim (SingleLevel.free node.second_level path) [
              | ok level ↦
                  let node' = record node { count = sub_size node.count 1; second_level = level } in
                  if node'.count == 0
                  then (let (gone, c', st') =
                        destroy_second_level m slot_bits (set_node c l1slot (some node')) st l1slot
                          node' in
                      (gone, set_node c' l1slot none, st'))
                  else (ok tt, set_node c l1slot (some node'), st)
              | err e ↦ (abort, c, st)
              | abort ↦ (abort, c, st)
            ]
      ]
