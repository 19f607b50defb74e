-- ===== src/Cspace/TwoLevel/Second.antt =====
-- `_create_second_level` and `_destroy_second_level` of two_level.c.
use se_l4_libs.Prelude.{ℕ, ◌+◌, Bool, true, false, Option, none, some, if◌then◌else◌, sub_size}
use se_l4_libs.Prelude.Int.{ℤ, pos, nonzero}
use se_l4_libs.Prelude.Outcome.{Outcome, ok, err, abort}
use se_l4_libs.Objects.{ObjectType}
use se_l4_libs.Cspace.Manager.{Manager}
use se_l4_libs.Cspace.SingleLevel
use se_l4_libs.Cspace.SingleLevel.{SingleLevel}
use se_l4_libs.Cspace.TwoLevel.Defs.{Node, TwoLevel, set_node, second_config, node_bytes, Step}

module _ (m : Manager) (slot_bits : ℕ) where
  open m use {mem, utspace_alloc, utspace_free, cnode_delete}
  open mem use {State, alloc as mspace_alloc, free as mspace_free}

  abbrev pub cnode_bits : TwoLevel → ℕ
  cnode_bits c = c.config.level_two_bits + slot_bits

  -- The call that gives the node its cnode, or leaves its cookie unwritten.
  abbrev pub node_cookie : TwoLevel → State → ℕ → Bool → ℤ × Option ℕ × State
  node_cookie c st index true =
      let (error, cookie, st') =
        utspace_alloc st (cnode_bits c) ObjectType.cap_table
          (SingleLevel.make_path c.first_level index) false in
      (error, some cookie, st')
  node_cookie c st index false = (pos 0, none, st)

  -- `allocman_utspace_free` of a cookie; one that was never written is undefined.
  abbrev pub free_cookie : TwoLevel → State → Option ℕ → Option State
  free_cookie c st none = none
  free_cookie c st (some cookie) = some (utspace_free st cookie (cnode_bits c))

  -- What follows the making of the node's bitmap: a failure gives back the cookie and the node.
  unfoldable pub finish_from :
      TwoLevel → State → ℕ → ℕ → Option ℕ → Bool → Outcome SingleLevel → Step m (Unit {0})
  finish_from c st index address cookie valid (ok level) = (
    ok tt,
    set_node c index (
        some (record {
          address = address;
          count = 0;
          second_level = level;
          cookie = cookie;
          cookie_valid = valid;
        })),
    st,
  )
  finish_from c st index address cookie valid (err e) = elim (free_cookie c st cookie) [
    | none ↦ (abort, c, st)
    | some st' ↦ (err e, set_node c index none, mspace_free st' address node_bytes)
  ]
  finish_from c st index address cookie valid abort = (abort, c, st)

  -- The node's bitmap is made last.
  unfoldable pub finish_second_level :
      TwoLevel → State → ℕ → ℕ → Option ℕ → Bool → Step m (Unit {0})
  unfolding finish_from
  finish_second_level c st index address cookie valid =
      let (made, st') = SingleLevel.create mem st (second_config c) in
      finish_from c st' index address cookie valid made

  unfoldable pub create_second_level : TwoLevel → State → ℕ → Bool → Step m (Unit {0})
  unfolding finish_second_level
  create_second_level c st index alloc_node =
      let (no_memory, address, st₁) = mspace_alloc st node_bytes in
      let (no_cnode, cookie, st₂) = node_cookie c st₁ index alloc_node in
      if nonzero no_memory
      then (err no_memory, set_node c index none, st₁)
      else if nonzero no_cnode
      then (err no_cnode, set_node c index none, mspace_free st₂ address node_bytes)
      else finish_second_level c st₂ index address cookie alloc_node

  -- The cnode's capability and untyped go only if the cookie is valid.
  abbrev pub drop_cookie : TwoLevel → State → ℕ → Node → Option State
  drop_cookie c st index node =
      if node.cookie_valid
      then (let (error, st') =
            cnode_delete st c.config.cnode index (sub_size 64 c.config.level_two_bits) in
          if nonzero error then none else free_cookie c st' node.cookie)
      else some st

  unfoldable pub destroy_second_level : TwoLevel → State → ℕ → Node → Step m (Unit {0})
  destroy_second_level c st index node =
      elim (drop_cookie c (SingleLevel.destroy mem st node.second_level) index node) [
        | none ↦ (abort, c, st)
        | some st' ↦
            let st'' = mspace_free st' node.address node_bytes in
            elim (SingleLevel.free c.first_level (SingleLevel.make_path c.first_level index)) [
              | ok level ↦ (ok tt, record c { first_level = level }, st'')
              | err e ↦ (abort, c, st'')
              | abort ↦ (abort, c, st'')
            ]
      ]
