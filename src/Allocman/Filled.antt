-- ===== src/Allocman/Filled.antt =====
-- Filling the reserves of libsel4allocman/src/allocman.c, and the use of the reserves by the calls that fill them.
use se_l4_libs.Prelude.{
  ℕ, suc, ◌≤◌, ◌≡◌, ap, ◌∙◌, subst, true, Option, none, some, ◌∷◌, length, ltb, arith,
}
use se_l4_libs.Prelude.Bits.{assign, assign_elim}
use se_l4_libs.Cspace.Path.{CspacePath}
use se_l4_libs.Allocman.Defs.{Config, Allocman, Act}
use se_l4_libs.Allocman.Kept.{IsKept, IsKept-refl, IsKept-trans, IsStep, IsOrder, Good, Keeps}

-- What may happen while the reserves are filled: they may grow, up to what they are meant to hold.
pub record IsFill (a a' : Allocman) : Type 0 where
  pub fills : a.refilling_watermark ≡ true → IsKept a a'

pub IsFill-IsOrder : IsOrder IsFill
IsFill-IsOrder = record {
  same = λ a. record { fills = λ h. IsKept-refl a };
  after = λ p q. record {
    fills = λ h. let k = p.fills h in IsKept-trans k (q.fills (k.same_refilling ∙ h));
  };
}

pub Good-IsFill :
    {S A : Type 0} (a : Allocman) (o : Option (A × Allocman × S))
    → Good IsStep a o
    → Good IsFill a o
Good-IsFill a none g = tt
Good-IsFill a (some (x, a', s)) g = record { fills = λ h. g.kept }

pub Keeps-IsFill : {S A : Type 0} {m : Act S A} → Keeps IsStep m → Keeps IsFill m
Keeps-IsFill {m = m} h = record { keeps = λ a s. Good-IsFill a (m (a, s)) (h.keeps a s) }

push_fits : (n limit m limit' : ℕ) → ltb n limit ≡ true → m ≤ n → limit' ≡ limit → suc m ≤ limit'
push_fits n limit m limit' e l q = ground arith

-- One more entry after a step that began with room.
pub push_slot-IsFill :
    (a a' : Allocman) (slot : CspacePath)
    → IsStep a a'
    → ltb (length a.cspace_slots) a.config.desired_cspace_slots ≡ true
    → IsFill a (record a' { cspace_slots = slot ∷ a'.cspace_slots })
push_slot-IsFill a a' slot g room = record {
  fills = λ f. record {
    bounded = λ h.
        (let k = g.kept.bounded h in
          let less = (g.less f).slots in
          let limit = ap (λ (c : Config). c.desired_cspace_slots) g.kept.same_config in
          record {
            slots = push_fits _ _ _ _ room less limit;
            chunks = k.chunks;
            untypeds = k.untypeds;
            freed = k.freed;
            freed_chunks = k.freed_chunks;
            freed_untypeds = k.freed_untypeds;
            words = k.words;
          });
    same_config = g.kept.same_config;
    same_depths = g.kept.same_depths;
    same_refilling = g.kept.same_refilling;
  };
}

pub push_chunk-IsFill :
    (a a' : Allocman) (i ptr : ℕ)
    → IsStep a a'
    → ltb (length (a.mspace_chunks i)) (a.config.mspace_chunk i).count ≡ true
    → IsFill a (record a' { mspace_chunks = assign a'.mspace_chunks i (ptr ∷ a'.mspace_chunks i) })
push_chunk-IsFill a a' i ptr g room = record {
  fills = λ f. record {
    bounded = λ h.
        (let k = g.kept.bounded h in
          let less = (g.less f).chunks i in
          let limit = ap (λ (c : Config). (c.mspace_chunk i).count) g.kept.same_config in
          record {
            slots = k.slots;
            chunks = λ j.
                assign_elim (λ l. length l ≤ (a'.config.mspace_chunk j).count) a'.mspace_chunks i
                  (ptr ∷ a'.mspace_chunks i) j
                  (λ q.
                    subst
                      (λ (v : ℕ).
                        suc (length (a'.mspace_chunks i)) ≤ (a'.config.mspace_chunk v).count)
                      q (push_fits _ _ _ _ room less limit))
                  (λ ne. k.chunks j);
            untypeds = k.untypeds;
            freed = k.freed;
            freed_chunks = k.freed_chunks;
            freed_untypeds = k.freed_untypeds;
            words = k.words;
          });
    same_config = g.kept.same_config;
    same_depths = g.kept.same_depths;
    same_refilling = g.kept.same_refilling;
  };
}

pub push_untyped-IsFill :
    (a a' : Allocman) (i : ℕ) (x : ℕ × CspacePath)
    → IsStep a a'
    → ltb (length (a.utspace_chunks i)) (a.config.utspace_chunk i).count ≡ true
    → IsFill a (record a' { utspace_chunks = assign a'.utspace_chunks i (x ∷ a'.utspace_chunks i) })
push_untyped-IsFill a a' i x g room = record {
  fills = λ f. record {
    bounded = λ h.
        (let k = g.kept.bounded h in
          let less = (g.less f).untypeds i in
          let limit = ap (λ (c : Config). (c.utspace_chunk i).count) g.kept.same_config in
          record {
            slots = k.slots;
            chunks = k.chunks;
            untypeds = λ j.
                assign_elim (λ l. length l ≤ (a'.config.utspace_chunk j).count) a'.utspace_chunks i
                  (x ∷ a'.utspace_chunks i) j
                  (λ q.
                    subst
                      (λ (v : ℕ).
                        suc (length (a'.utspace_chunks i)) ≤ (a'.config.utspace_chunk v).count)
                      q (push_fits _ _ _ _ room less limit))
                  (λ ne. k.untypeds j);
            freed = k.freed;
            freed_chunks = k.freed_chunks;
            freed_untypeds = k.freed_untypeds;
            words = k.words;
          });
    same_config = g.kept.same_config;
    same_depths = g.kept.same_depths;
    same_refilling = g.kept.same_refilling;
  };
}
