-- ===== src/Cspace/TwoLevel/Whole.antt =====
-- `cspace_two_level_create` and `cspace_two_level_destroy`.
use se_l4_libs.Prelude.{
  ℕ, zero, suc, ◌+◌, ◌-◌, ◌*◌, ◌^◌, false, none, some, if◌then◌else◌, replicate,
}
use se_l4_libs.Prelude.Int.{ℤ, nonzero}
use se_l4_libs.Prelude.Outcome.{Outcome, ok, err, abort}
use se_l4_libs.Cspace.Manager.{Manager}
use se_l4_libs.Cspace.SingleLevel
use se_l4_libs.Cspace.SingleLevel.{SingleLevel}
use se_l4_libs.Cspace.TwoLevel.Defs.{Config, TwoLevel, node_at, pointer_bytes, Step}
use se_l4_libs.Cspace.TwoLevel.Second.{create_second_level, destroy_second_level}
use se_l4_libs.Cspace.TwoLevel.Slots.{alloc_at}

module _ (m : Manager) (slot_bits : ℕ) where
  open m use {mem, utspace_alloc, utspace_free, cnode_delete}
  open mem use {State, alloc as mspace_alloc, free as mspace_free}

  -- The loop of `cspace_two_level_destroy` over the indices `from`, `from + 1`, …
  unfoldable pub destroy_nodes : ℕ → ℕ → TwoLevel → State → Step m (Unit {0})
  unfolding destroy_second_level
  destroy_nodes zero from c st = (ok tt, c, st)
  destroy_nodes (suc rounds) from c st = elim (node_at c from) [
    | none ↦ destroy_nodes rounds (from + 1) c st
    | some node ↦
        let (gone, c', st') = destroy_second_level m slot_bits c st from node in
        elim gone [
          | ok _ ↦ destroy_nodes rounds (from + 1) c' st'
          | err e ↦ (err e, c', st')
          | abort ↦ (abort, c', st')
        ]
  ]

  unfoldable pub destroy : TwoLevel → State → Step m (Unit {0})
  unfolding destroy_nodes
  destroy c st =
      let (gone, c', st') = destroy_nodes (2 ^ c.config.cnode_size_bits) 0 c st in
      elim gone [
        | ok _ ↦
            let st'' = mspace_free st' c'.array (pointer_bytes * 2 ^ c.config.cnode_size_bits) in
            (ok tt, c', SingleLevel.destroy mem st'' c'.first_level)
        | err e ↦ (err e, c', st')
        | abort ↦ (abort, c', st')
      ]

  -- A failure of `cspace_two_level_create` behind the first level: destroy, and return the error.
  abbrev pub give_up : ℤ → TwoLevel → State → Step m (Unit {0})
  give_up e c st =
      let (gone, c', st') = destroy c st in
      elim gone [ ok _ ↦ (err e, c', st') | err e' ↦ (err e', c', st') | abort ↦ (abort, c', st') ]

  -- `for (i = start_existing_index; i < end_existing_index; i++)`, by the rounds left
  unfoldable pub existing_nodes : ℕ → ℕ → TwoLevel → State → Step m (Unit {0})
  unfolding create_second_level destroy
  existing_nodes zero i c st = (ok tt, c, st)
  existing_nodes (suc rounds) i c st = elim (SingleLevel.alloc_at c.first_level i) [
    | ok level ↦
        let (made, c', st') =
          create_second_level m slot_bits (record c { first_level = level }) st i false in
        elim made [
          | ok _ ↦ existing_nodes rounds (i + 1) c' st'
          | err e ↦ give_up e c' st'
          | abort ↦ (abort, c', st')
        ]
    | err e ↦ give_up e c st
    | abort ↦ (abort, c, st)
  ]

  -- `for (i = start_existing_slot; i < end_existing_slot; i++)`, by the rounds left
  unfoldable pub existing_slots : ℕ → ℕ → TwoLevel → State → Step m (Unit {0})
  unfolding alloc_at destroy
  existing_slots zero i c st = (ok tt, c, st)
  existing_slots (suc rounds) i c st =
      let (taken, c', st') = alloc_at m slot_bits c st i in
      elim taken [
        | ok _ ↦ existing_slots rounds (i + 1) c' st'
        | err e ↦ give_up e c' st'
        | abort ↦ (abort, c', st')
      ]

  abbrev pub first_config : Config → SingleLevel.Config
  first_config config = record {
    cnode = config.cnode;
    cnode_size_bits = config.cnode_size_bits;
    cnode_guard_bits = config.cnode_guard_bits;
    first_slot = config.first_slot;
    end_slot = config.end_slot;
  }

  -- What `create` sets up before it looks at what exists.
  abbrev pub fresh : Config → SingleLevel → ℕ → TwoLevel
  fresh config level array = record {
    config = config;
    first_level = level;
    array = array;
    second_levels = replicate (2 ^ config.cnode_size_bits) none;
    last_second_level = 0;
  }

  unfoldable pub create : State → Config → Outcome TwoLevel × State
  unfolding existing_nodes existing_slots
  create st config =
      let bytes = pointer_bytes * 2 ^ config.cnode_size_bits in
      let (no_memory, array, st₁) = mspace_alloc st bytes in
      let (made, st₂) = SingleLevel.create mem st₁ (first_config config) in
      if nonzero no_memory then (err no_memory, st₁) else elim made [
        | ok level ↦
            let (nodes, c₁, st₃) =
              existing_nodes (config.end_existing_index - config.start_existing_index)
                config.start_existing_index (fresh config level array) st₂ in
            let (slots, c₂, st₄) =
              existing_slots (config.end_existing_slot - config.start_existing_slot)
                config.start_existing_slot c₁ st₃ in
            elim nodes [
              | ok _ ↦ elim slots [
                | ok _ ↦ (ok c₂, st₄)
                | err e ↦ (err e, st₄)
                | abort ↦ (abort, st₄)
              ]
              | err e ↦ (err e, st₃)
              | abort ↦ (abort, st₃)
            ]
        | err e ↦ (err e, mspace_free st₂ array bytes)
        | abort ↦ (abort, st₂)
      ]
