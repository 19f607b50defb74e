-- ===== src/Cspace/TwoLevel/Faults.antt =====
-- What goes wrong in two_level.c when a second level cannot be made, or is made by `alloc`.
use se_l4_libs.Prelude.{
  ℕ, ◌^◌, ◌<◌, ◌≡◌, refl, ◌∙◌, sym, ap, subst, ◌≢◌, true, false, none, some, arith, length,
  length-set, lt→ltb, ltb, Bool-cases, inl, inr, get_or-set_self, get_or-set_ne,
}
use native.Mathlib.Nat.{div-le_self}
use se_l4_libs.Prelude.Int.{ℤ, pos}
use se_l4_libs.Prelude.Outcome.{Outcome, ok, err, abort}
use se_l4_libs.Cspace.Path.{CspacePath}
use se_l4_libs.Cspace.Manager.{Manager}
use se_l4_libs.Cspace.SingleLevel
use se_l4_libs.Cspace.SingleLevel.{SingleLevel}
use se_l4_libs.Cspace.SingleLevel.Valid
use se_l4_libs.Cspace.SingleLevel.AllocAt
use se_l4_libs.Cspace.TwoLevel.Defs.{Node, TwoLevel, node_at, set_node, l1_slot, Step}
use se_l4_libs.Cspace.TwoLevel.Second.{create_second_level}
use se_l4_libs.Cspace.TwoLevel.Slots.{
  alloc_at_made, alloc_at_first, alloc_at_under, alloc_at, hunt, alloc_second, alloc_made,
  alloc_first, alloc_hunted, alloc,
}
use se_l4_libs.Cspace.TwoLevel.Valid.{IsValid, Created, create_second-Created}

-- The outcome is not a result.
abbrev pub NoResult : {A : Type 0} → Outcome A → Type 0
NoResult (ok a) = ⊥
NoResult (err e) = Unit
NoResult abort = Unit

module _ (m : Manager) (slot_bits : ℕ) {c : TwoLevel} (valid : IsValid c) (st : m.mem.State) where
  stale :
      (level : SingleLevel) (index : ℕ) (made : Step m (Unit {0}))
      → Created m slot_bits (record c { first_level = level }) valid.wide valid.narrow index made
      → index ≢ c.last_second_level
      → node_at c c.last_second_level ≡ none
      → NoResult (alloc_made m slot_bits made).0
  unfolding alloc_made alloc_second
  stale level index (ok _, c', st') (address, cookie, fresh_level, fresh, e) ne missing =
      let node : Node = record {
        address = address;
        count = 0;
        second_level = fresh_level;
        cookie = cookie;
        cookie_valid = true;
      } in
      let still : node_at (set_node c index (some node)) c.last_second_level ≡ none =
        get_or-set_ne c.second_levels index c.last_second_level (some node) none ne ∙ missing in
      subst
        (λ (x : TwoLevel).
          NoResult
            (alloc_second m slot_bits x st' x.last_second_level (node_at x x.last_second_level)).0)
        (sym e)
        (subst
          (λ n.
            NoResult
              (alloc_second m slot_bits
                (set_node (record c { first_level = level }) index (some node)) st'
                c.last_second_level n).0)
          (sym still) tt)
  stale level index (err e, c', st') created ne missing = tt
  stale level index (abort, c', st') created ne missing = tt

  -- In a valid cspace, when the search finds no second level with room, the one it started from is missing
  -- and the first level gives another slot than that, `alloc` never gives a slot, even where the new
  -- second level is made: it goes on with the old index.
  pub alloc-stale :
      (p : CspacePath) (level : SingleLevel)
      → hunt m slot_bits c (2 ^ c.config.cnode_size_bits) c.last_second_level ≡ none
      → node_at c c.last_second_level ≡ none
      → SingleLevel.alloc c.first_level ≡ ok (p, level)
      → p.offset ≢ c.last_second_level
      → NoResult (alloc m slot_bits c st).0
  unfolding alloc alloc_hunted alloc_first
  alloc-stale p level no_room missing first ne =
      elim (Bool-cases (ltb c.last_second_level (length c.second_levels))) [
        | inl e ↦
            rw (e, no_room, first)
              (stale level p.offset
                (create_second_level m slot_bits (record c { first_level = level }) st p.offset
                  true)
                (create_second-Created m slot_bits (record c { first_level = level }) valid.wide
                  valid.narrow st p.offset)
                ne missing)
        | inr e ↦ rw e tt
      ]

-- The first-level slot is taken, and no second level is there.
record IsDead (c : TwoLevel) (slot : ℕ) : Type 0 where
  first : Valid.IsValid c.first_level
  missing : node_at c (l1_slot c slot) ≡ none
  taken : Valid.is_free c.first_level (l1_slot c slot) ≡ false
  within : l1_slot c slot < length c.second_levels

module _ (m : Manager) (slot_bits : ℕ) where
  refuses :
      (c : TwoLevel) (slot : ℕ) (o : Outcome SingleLevel)
      → AllocAt.AllocAtSpec c.first_level (l1_slot c slot) o
      → Valid.is_free c.first_level (l1_slot c slot) ≡ false
      → (st : m.mem.State) → alloc_at_first m slot_bits c st slot o ≡ (err (pos 1), c, st)
  unfolding alloc_at_first
  refuses c slot (ok level) spec taken st = cc (sym taken ∙ spec.0)
  refuses c slot (err e) spec taken st = rw spec.0 refl
  refuses c slot abort spec taken st = absurd spec

  IsDead-refuses :
      (c : TwoLevel) (slot : ℕ)
      → slot < 2 ^ 64
      → IsDead c slot
      → (st : m.mem.State) → alloc_at m slot_bits c st slot ≡ (err (pos 1), c, st)
  unfolding alloc_at alloc_at_under
  IsDead-refuses c slot small dead st = rw (lt→ltb _ _ dead.within) (
      ap (alloc_at_under m slot_bits c st slot) dead.missing
      ∙ refuses c slot (SingleLevel.alloc_at c.first_level (l1_slot c slot))
          (AllocAt.alloc_at-AllocAtSpec dead.first (l1_slot c slot)
            (omega (arith, div-le_self slot (2 ^ c.config.level_two_bits))))
          dead.taken st)

  -- In a valid cspace, when the first-level slot is free and the making of the second level fails,
  -- `alloc_at` passes the error on but keeps the first-level slot: a call for the same slot on the cspace as
  -- the failing call left it fails with error 1 and changes nothing, whatever the state of the memory is by
  -- then.
  pub alloc_at-leak :
      {c c' : TwoLevel} {level : SingleLevel} {e : ℤ} {st' : m.mem.State}
      → IsValid c
      → (slot : ℕ) → slot < 2 ^ 64
      → node_at c (l1_slot c slot) ≡ none
      → SingleLevel.alloc_at c.first_level (l1_slot c slot) ≡ ok level
      → (st : m.mem.State)
      → create_second_level m slot_bits (record c { first_level = level }) st (l1_slot c slot) true
        ≡ (err e, c', st')
      → (alloc_at m slot_bits c st slot ≡ (err e, c', st'))
        × ((later : m.mem.State) → alloc_at m slot_bits c' later slot ≡ (err (pos 1), c', later))
  unfolding alloc_at alloc_at_under alloc_at_first alloc_at_made
  alloc_at-leak {c} {c'} {level} {e} valid slot small missing first st failed =
      let word : l1_slot c slot < 2 ^ 64 =
        omega (arith, div-le_self slot (2 ^ c.config.level_two_bits)) in
      let taken =
        subst (AllocAt.AllocAtSpec c.first_level (l1_slot c slot)) first
          (AllocAt.alloc_at-AllocAtSpec valid.first (l1_slot c slot) word) in
      let inside : l1_slot c slot < length c.second_levels =
        omega (arith, valid.inside, AllocAt.free_range c.first_level (l1_slot c slot) taken.0) in
      let d : TwoLevel = set_node (record c { first_level = level }) (l1_slot c slot) none in
      let same : c' ≡ d =
        subst
          (Created m slot_bits (record c { first_level = level }) valid.wide valid.narrow
            (l1_slot c slot))
          failed
          (create_second-Created m slot_bits (record c { first_level = level }) valid.wide
            valid.narrow st (l1_slot c slot)) in
      let dead : IsDead d slot = record {
        first = taken.2;
        missing = get_or-set_self c.second_levels (l1_slot c slot) none none inside;
        taken = ground (arith, taken.1 (l1_slot c slot));
        within = omega (arith, length-set {0} c.second_levels (l1_slot c slot) none, inside);
      } in
      (
        rw (lt→ltb _ _ inside) (
            ap (alloc_at_under m slot_bits c st slot) missing
            ∙ ap (alloc_at_first m slot_bits c st slot) first
            ∙ ap (alloc_at_made m slot_bits slot) failed),
        IsDead-refuses c' slot small (subst (λ (x : TwoLevel). IsDead x slot) (sym same) dead),
      )
