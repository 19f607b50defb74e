-- ===== src/Cspace/Simple.antt =====
-- libsel4allocman/src/cspace/simple1level.c and its header: slots handed out one after another, never freed.
use se_l4_libs.Prelude.{
  ℕ, zero, suc, ◌+◌, ◌^◌, ◌≡◌, ◌<◌, refl, ap, ◌∙◌, true, false, List, [], ◌∷◌, arith, ◌==◌,
  if◌then◌else◌, add_size,
}
use se_l4_libs.Prelude.Int.{pos}
use se_l4_libs.Prelude.Outcome.{Outcome, ok, err, abort}
use se_l4_libs.Cspace.Path.{CspacePath}

pub record Config : Type 0 where
  pub cnode : ℕ
  pub cnode_size_bits : ℕ
  pub cnode_guard_bits : ℕ
  pub first_slot : ℕ
  pub end_slot : ℕ

pub record Simple : Type 0 where
  pub config : Config
  pub current_slot : ℕ

unfoldable pub make_path : Simple → ℕ → CspacePath
make_path c slot = record {
  root = c.config.cnode;
  cap_ptr = slot;
  cap_depth = c.config.cnode_size_bits + c.config.cnode_guard_bits;
  dest = 0;
  dest_depth = 0;
  offset = slot;
  window = 1;
}

unfoldable pub create : Config → Simple
create config = record { config = config; current_slot = config.first_slot }

unfoldable pub alloc : Simple → Outcome (CspacePath × Simple)
unfolding make_path
alloc c =
    if c.current_slot == c.config.end_slot
    then err (pos 1)
    else ok (make_path c c.current_slot, record c { current_slot = add_size c.current_slot 1 })

-- `_cspace_simple1level_free` ignores the call.
abbrev pub free : Simple → CspacePath → Simple
free c slot = c

-- The slots of up to `n` calls of `alloc`, the first that fails ends them.
abbrev pub followed : (Simple → List ℕ) → Outcome (CspacePath × Simple) → List ℕ
followed go (ok (p, c)) = p.cap_ptr ∷ go c
followed go (err e) = []
followed go abort = []

unfoldable pub drain : ℕ → Simple → List ℕ
unfolding alloc
drain zero c = []
drain (suc n) c = followed (drain n) (alloc c)

abbrev pub range : ℕ → ℕ → List ℕ
range zero first = []
range (suc n) first = first ∷ range n (suc first)

drain-range :
    (n : ℕ) (c : Simple)
    → c.current_slot + n ≡ c.config.end_slot
    → c.config.end_slot < 2 ^ 64
    → drain (suc n) c ≡ range n c.current_slot
unfolding drain alloc make_path
drain-range zero c h small =
    let full : (c.current_slot == c.config.end_slot) ≡ true = ground arith in rw full refl
drain-range (suc n) c h small =
    let room : (c.current_slot == c.config.end_slot) ≡ false = ground arith in
    let next : add_size c.current_slot 1 ≡ suc c.current_slot = omega (arith, h) in
    rw room (
      ap (λ (xs : List ℕ). c.current_slot ∷ xs)
        (drain-range n (record c { current_slot = add_size c.current_slot 1 })
            (omega (arith, next, h)) small
          ∙ ap (range n) next))

-- A new cspace whose range ends below 2^64 hands out each slot of its range once, in order, and then
-- refuses: the calls that succeed of one more than there are slots are the range from `first_slot` to
-- `end_slot`.
pub drain-create :
    (config : Config) (n : ℕ)
    → config.first_slot + n ≡ config.end_slot
    → config.end_slot < 2 ^ 64
    → drain (suc n) (create config) ≡ range n config.first_slot
unfolding create
drain-create config n h small = drain-range n (create config) h small
