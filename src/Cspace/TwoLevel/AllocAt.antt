-- ===== src/Cspace/TwoLevel/AllocAt.antt =====
-- `_cspace_two_level_alloc_at`: a given slot is taken, in a second level that is made on demand.
use se_l4_libs.Prelude.{
  ℕ, ◌^◌, ◌≤◌, ◌<◌, ◌≡◌, refl, ◌∙◌, sym, ap, subst, ◌⊎◌, true, false, Option, none, some, List, [],
  ◌∷◌, zero, suc, get_or, arith, ◌==◌, ltb, if◌then◌else◌, lt→ltb, inl, inr, length, Bool-cases,
  length-set, get_or-set_self, add_size,
}
use mathlib.Core.Option.{none-ne-some}
use native.Mathlib.Nat.{mod-lt, pow-le-pow_right, div-le_self}
use se_l4_libs.Prelude.Words.{pow_pos}
use se_l4_libs.Prelude.Outcome.{Outcome, ok, err, abort}
use se_l4_libs.Cspace.Manager.{Manager}
use se_l4_libs.Cspace.SingleLevel
use se_l4_libs.Cspace.SingleLevel.{SingleLevel}
use se_l4_libs.Cspace.SingleLevel.Valid
use se_l4_libs.Cspace.SingleLevel.AllocAt
use se_l4_libs.Cspace.TwoLevel.Defs.{Node, TwoLevel, node_at, set_node, l1_slot, l2_slot, Step}
use se_l4_libs.Cspace.TwoLevel.Second.{create_second_level}
use se_l4_libs.Cspace.TwoLevel.Slots.{
  take_slot, alloc_at_second, alloc_at_made, alloc_at_first, alloc_at_under, alloc_at,
}
use se_l4_libs.Cspace.TwoLevel.Valid.{
  IsValid, IsLevel, is_free, free_under, node_at-set, slot_eq, FreshLevel, Created,
  create_second-Created,
}

-- Just `slot` is taken.
abbrev pub Takes : TwoLevel → ℕ → TwoLevel → Type 0
Takes c slot c' =
    (is_free c slot ≡ true) × ((s : ℕ) → is_free c' s ≡ (if s == slot then false else is_free c s))

-- A failure with the second level there changes nothing; one of its making may.
abbrev pub TwoLevelSpec : (m : Manager) → TwoLevel → ℕ → Step m (Unit {0}) → Type 0
TwoLevelSpec m c slot (ok _, c', st) = Takes c slot c'
TwoLevelSpec m c slot (err e, c', st) =
    ((is_free c slot ≡ false) × (c' ≡ c)) ⊎ (node_at c (l1_slot c slot) ≡ none)
TwoLevelSpec m c slot (abort, c', st) = ⊥

is_free-set :
    (c : TwoLevel) (slot s : ℕ) (node : Node)
    → l1_slot c slot < length c.second_levels
    → is_free (set_node c (l1_slot c slot) (some node)) s ≡ (
        if l1_slot c slot == l1_slot c s
        then Valid.is_free node.second_level (l2_slot c s)
        else is_free c s)
is_free-set c slot s node inside =
    ap (free_under c s) (node_at-set c (l1_slot c slot) (l1_slot c s) (some node) inside)
    ∙ elim (Bool-cases (l1_slot c slot == l1_slot c s)) [
      | inl same ↦ rw same refl
      | inr other ↦ rw other refl
    ]

module _ (m : Manager) (slot_bits : ℕ) where
  module _ (c : TwoLevel) (st : m.mem.State) (slot : ℕ) (node : Node)
      (here : node_at c (l1_slot c slot) ≡ some node)
      (inside : l1_slot c slot < length c.second_levels) where
    was_free : is_free c slot ≡ Valid.is_free node.second_level (l2_slot c slot)
    was_free = ap (free_under c slot) here

    also_free :
        (s : ℕ)
        → (l1_slot c slot == l1_slot c s) ≡ true
        → is_free c s ≡ Valid.is_free node.second_level (l2_slot c s)
    also_free s same =
        let e : l1_slot c slot ≡ l1_slot c s = ground arith in ap (free_under c s) (rw e at here)

    take_slot-Takes :
        (o : Outcome SingleLevel)
        → AllocAt.AllocAtSpec node.second_level (l2_slot c slot) o
        → TwoLevelSpec m c slot (take_slot m slot_bits c st slot node o)
    unfolding take_slot
    take_slot-Takes (ok level') spec = (
      was_free ∙ spec.0,
      λ s.
          is_free-set c slot s
            (record node { count = add_size node.count 1; second_level = level' }) inside
          ∙ elim (Bool-cases (l1_slot c slot == l1_slot c s)) [
            | inl same ↦ ground (arith, spec.1 (l2_slot c s), slot_eq c s slot, also_free s)
            | inr other ↦ ground (arith, slot_eq c s slot)
          ],
    )
    take_slot-Takes (err e) spec = inl (was_free ∙ spec.1, refl)
    take_slot-Takes abort spec = spec

    pub alloc_at_second-Takes :
        IsLevel c node
        → c.config.level_two_bits ≤ 63
        → TwoLevelSpec m c slot (alloc_at_second m slot_bits c st slot (some node))
    unfolding alloc_at_second
    alloc_at_second-Takes level narrow =
        let small : l2_slot c slot < 2 ^ 64 = omega (
          arith,
          mod-lt slot (pow_pos c.config.level_two_bits),
          pow-le-pow_right {n = 2} (omega arith) narrow,
        ) in
        take_slot-Takes (SingleLevel.alloc_at node.second_level (l2_slot c slot))
          (AllocAt.alloc_at-AllocAtSpec level.valid (l2_slot c slot) small)

get_or-inside :
    (c : TwoLevel) (i : ℕ) (node : Node) → node_at c i ≡ some node → i < length c.second_levels
get_or-inside c i node e = inside c.second_levels i e
  where
    inside : (xs : List (Option Node)) (i : ℕ) → get_or xs i none ≡ some node → i < length xs
    inside [] i e = absurd (none-ne-some node e)
    inside (x ∷ xs) zero e = omega arith
    inside (x ∷ xs) (suc i) e = omega (arith, inside xs i e)

module _ (m : Manager) (slot_bits : ℕ) {c : TwoLevel} (valid : IsValid c) (slot : ℕ)
    (missing : node_at c (l1_slot c slot) ≡ none) where
  other_free :
      (level : SingleLevel)
      → AllocAt.AllocAtSpec c.first_level (l1_slot c slot) (ok level)
      → (s : ℕ) → (l1_slot c slot == l1_slot c s) ≡ false
      → (n : Option Node) → free_under (record c { first_level = level }) s n ≡ free_under c s n
  other_free level taken s other none = ground (arith, taken.1 (l1_slot c s))
  other_free level taken s other (some node) = refl

  -- The cspace with the first-level slot taken and a fresh second level in it has the same slots free.
  same_free :
      (level : SingleLevel) (node : Node)
      → AllocAt.AllocAtSpec c.first_level (l1_slot c slot) (ok level)
      → FreshLevel c node.second_level
      → l1_slot c slot < length c.second_levels
      → (s : ℕ)
      → is_free (set_node (record c { first_level = level }) (l1_slot c slot) (some node)) s
        ≡ is_free c s
  same_free level node taken fresh inside s =
      is_free-set (record c { first_level = level }) slot s node inside
      ∙ elim (Bool-cases (l1_slot c slot == l1_slot c s)) [
        | inl same ↦
            let e : l1_slot c slot ≡ l1_slot c s = ground arith in
            let before : is_free c s ≡ Valid.is_free c.first_level (l1_slot c s) =
              ap (free_under c s) (rw e at missing) in
            let room : ltb (l2_slot c s) (2 ^ c.config.level_two_bits) ≡ true =
              lt→ltb (l2_slot c s) (2 ^ c.config.level_two_bits)
                (mod-lt s (pow_pos c.config.level_two_bits)) in
            rw same (fresh.2 (l2_slot c s) ∙ room ∙ sym (before ∙ rw e at taken.0))
        | inr other ↦ rw other (other_free level taken s other (node_at c (l1_slot c s)))
      ]

  within :
      {level : SingleLevel}
      → AllocAt.AllocAtSpec c.first_level (l1_slot c slot) (ok level)
      → l1_slot c slot < length c.second_levels
  within taken =
      omega (arith, valid.inside, AllocAt.free_range c.first_level (l1_slot c slot) taken.0)

  transfer :
      (d : TwoLevel)
      → ((s : ℕ) → is_free d s ≡ is_free c s)
      → (r : Step m (Unit {0})) → TwoLevelSpec m d slot r
      → TwoLevelSpec m c slot r
  transfer d same (ok _, c', st) h = (sym (same slot) ∙ h.0, λ s. ground (arith, h.1 s, same s))
  transfer d same (err e, c', st) h = inr missing
  transfer d same (abort, c', st) h = h

  made-TwoLevelSpec :
      (level : SingleLevel)
      → AllocAt.AllocAtSpec c.first_level (l1_slot c slot) (ok level)
      → (made : Step m (Unit {0}))
      → Created m slot_bits
          (record c { first_level = level })
          valid.wide
          valid.narrow
          (l1_slot c slot)
          made
      → TwoLevelSpec m c slot (alloc_at_made m slot_bits slot made)
  unfolding alloc_at_made
  made-TwoLevelSpec level taken (ok _, c', st') (address, cookie, fresh_level, fresh, e) =
      let node : Node = record {
        address = address;
        count = 0;
        second_level = fresh_level;
        cookie = cookie;
        cookie_valid = true;
      } in
      let inside = within taken in
      let d : TwoLevel = set_node (record c { first_level = level }) (l1_slot c slot) (some node) in
      let here : node_at d (l1_slot c slot) ≡ some node =
        get_or-set_self c.second_levels (l1_slot c slot) (some node) none inside in
      let size = length-set {0} c.second_levels (l1_slot c slot) (some node) in
      let second =
        alloc_at_second-Takes m slot_bits d st' slot node here (omega (arith, size))
          (record { valid = fresh.0; first = fresh.1 }) valid.narrow in
      subst
        (λ (x : TwoLevel).
          TwoLevelSpec m c slot
            (alloc_at_second m slot_bits x st' slot (node_at x (l1_slot x slot))))
        (sym e)
        (subst (λ n. TwoLevelSpec m c slot (alloc_at_second m slot_bits d st' slot n)) (sym here)
          (transfer d (same_free level node taken fresh inside)
            (alloc_at_second m slot_bits d st' slot (some node)) second))
  made-TwoLevelSpec level taken (err e, c', st') created = inr missing
  made-TwoLevelSpec level taken (abort, c', st') created = created

  first-TwoLevelSpec :
      (st : m.mem.State) (o : Outcome SingleLevel)
      → AllocAt.AllocAtSpec c.first_level (l1_slot c slot) o
      → TwoLevelSpec m c slot (alloc_at_first m slot_bits c st slot o)
  unfolding alloc_at_first
  first-TwoLevelSpec st (ok level) taken =
      made-TwoLevelSpec level taken
        (create_second_level m slot_bits (record c { first_level = level }) st (l1_slot c slot)
          true)
        (create_second-Created m slot_bits (record c { first_level = level }) valid.wide
          valid.narrow st (l1_slot c slot))
  first-TwoLevelSpec st (err e) taken = inr missing
  first-TwoLevelSpec st abort taken = taken

module _ (m : Manager) (slot_bits : ℕ) {c : TwoLevel} (valid : IsValid c) (st : m.mem.State)
    (slot : ℕ) where
  under-TwoLevelSpec :
      slot < 2 ^ 64
      → (n : Option Node) → node_at c (l1_slot c slot) ≡ n
      → TwoLevelSpec m c slot (alloc_at_under m slot_bits c st slot n)
  unfolding alloc_at_under
  under-TwoLevelSpec small (some node) e =
      alloc_at_second-Takes m slot_bits c st slot node e (get_or-inside c (l1_slot c slot) node e)
        (valid.levels (l1_slot c slot) node e) valid.narrow
  under-TwoLevelSpec small none e =
      first-TwoLevelSpec m slot_bits valid slot e st
        (SingleLevel.alloc_at c.first_level (l1_slot c slot))
        (AllocAt.alloc_at-AllocAtSpec valid.first (l1_slot c slot)
          (omega (arith, div-le_self slot (2 ^ c.config.level_two_bits))))

  -- In a valid cspace and for a slot below 2^64 whose first-level index is inside `second_levels`, a call that
  -- succeeds found the slot free and took just
  -- it, whether or not it had to make the second level; one that fails with the second level there found
  -- the slot taken and changed nothing. No call reads through NULL or frees a cookie that was never
  -- written.
  pub alloc_at-TwoLevelSpec :
      slot < 2 ^ 64
      → l1_slot c slot < length c.second_levels
      → TwoLevelSpec m c slot (alloc_at m slot_bits c st slot)
  unfolding alloc_at
  alloc_at-TwoLevelSpec small inside =
      rw (lt→ltb _ _ inside) (under-TwoLevelSpec small (node_at c (l1_slot c slot)) refl)
