-- ===== src/Allocman/Kept.antt =====
-- The relations between the states of libsel4allocman/src/allocman.c before and after a call: the bounds of the arrays,
-- the depths of re-entry, and the reserves while they are filled.
use se_l4_libs.Prelude.{
  ℕ, ◌<◌, ◌≤◌, ◌≡◌, refl, ◌∙◌, Bool, true, false, Option, none, some, length, arith, if◌then◌else◌,
}
use se_l4_libs.Allocman.Defs.{
  Space, Depths, Allocman, Act, alloc_depth, free_depth, done, continue, next, modify, with_state,
}

-- Each count is a word.
pub record IsWords (d : Depths) : Type 0 where
  pub alloc_word : (s : Space) → alloc_depth s d < 18446744073709551616
  pub free_word : (s : Space) → free_depth s d < 18446744073709551616

pub record IsBounded (a : Allocman) : Type 0 where
  pub slots : length a.cspace_slots ≤ a.config.desired_cspace_slots
  pub chunks : (i : ℕ) → length (a.mspace_chunks i) ≤ (a.config.mspace_chunk i).count
  pub untypeds : (i : ℕ) → length (a.utspace_chunks i) ≤ (a.config.utspace_chunk i).count
  pub freed : length a.freed_slots ≤ a.config.desired_freed_slots
  pub freed_chunks : length a.freed_mspace_chunks ≤ a.config.desired_freed_mspace_chunks
  pub freed_untypeds : length a.freed_utspace_chunks ≤ a.config.desired_freed_utspace_chunks
  pub words : IsWords a.depths

pub record IsKept (a a' : Allocman) : Type 0 where
  pub bounded : IsBounded a → IsBounded a'
  pub same_config : a'.config ≡ a.config
  pub same_depths : IsBounded a → a'.depths ≡ a.depths
  pub same_refilling : a'.refilling_watermark ≡ a.refilling_watermark

-- No reserve has more than before.
pub record IsLess (a a' : Allocman) : Type 0 where
  pub slots : length a'.cspace_slots ≤ length a.cspace_slots
  pub chunks : (i : ℕ) → length (a'.mspace_chunks i) ≤ length (a.mspace_chunks i)
  pub untypeds : (i : ℕ) → length (a'.utspace_chunks i) ≤ length (a.utspace_chunks i)

pub record IsStep (a a' : Allocman) : Type 0 where
  pub kept : IsKept a a'
  pub less : a.refilling_watermark ≡ true → IsLess a a'

pub IsKept-refl : (a : Allocman) → IsKept a a
IsKept-refl a = record {
  bounded = λ h. h;
  same_config = refl;
  same_depths = λ h. refl;
  same_refilling = refl;
}

pub IsKept-trans : {a b c : Allocman} → IsKept a b → IsKept b c → IsKept a c
IsKept-trans p q = record {
  bounded = λ h. q.bounded (p.bounded h);
  same_config = q.same_config ∙ p.same_config;
  same_depths = λ h. q.same_depths (p.bounded h) ∙ p.same_depths h;
  same_refilling = q.same_refilling ∙ p.same_refilling;
}

pub IsStep-refl : (a : Allocman) → IsStep a a
IsStep-refl a = record {
  kept = IsKept-refl a;
  less =
      λ h. record { slots = omega arith; chunks = λ i. omega arith; untypeds = λ i. omega arith };
}

pub IsStep-trans : {a b c : Allocman} → IsStep a b → IsStep b c → IsStep a c
IsStep-trans p q = record {
  kept = IsKept-trans p.kept q.kept;
  less = λ h.
      (let l = p.less h in
        let m = q.less (p.kept.same_refilling ∙ h) in
        record {
          slots = let x = l.slots in let y = m.slots in omega arith;
          chunks = λ i. let x = l.chunks i in let y = m.chunks i in omega arith;
          untypeds = λ i. let x = l.untypeds i in let y = m.untypeds i in omega arith;
        });
}

-- What holds of the state before and after, when there is a result.
abbrev pub Good :
    (Allocman → Allocman → Type 0) → {S A : Type 0} → Allocman → Option (A × Allocman × S) → Type 0
Good R a none = Unit
Good R a (some (x, a', s)) = R a a'

pub record Keeps (R : Allocman → Allocman → Type 0) {S A : Type 0} (m : Act S A) : Type 0 where
  pub keeps : (a : Allocman) (s : S) → Good R a (m (a, s))

pub record IsOrder (R : Allocman → Allocman → Type 0) : Type 0 where
  pub same : (a : Allocman) → R a a
  pub after : {a b c : Allocman} → R a b → R b c → R a c

pub IsKept-IsOrder : IsOrder IsKept
IsKept-IsOrder = record { same = IsKept-refl; after = IsKept-trans }

pub IsStep-IsOrder : IsOrder IsStep
IsStep-IsOrder = record { same = IsStep-refl; after = IsStep-trans }

module _ {R : Allocman → Allocman → Type 0} (order : IsOrder R) {S : Type 0} where
  pub Keeps-done : {A : Type 0} (x : A) → Keeps R {S = S} (done x)
  Keeps-done x = record { keeps = λ a s. order.same a }

  pub Keeps-none : {A : Type 0} → Keeps R {S = S} {A = A} (λ t. none)
  Keeps-none = record { keeps = λ a s. tt }

  pub Keeps-modify :
      {f : Allocman → Allocman} → ((a : Allocman) → R a (f a)) → Keeps R {S = S} (modify f)
  Keeps-modify h = record { keeps = λ a s. h a }

  pub Keeps-with_state :
      {A : Type 0} {f : Allocman → Act S A}
      → ((a : Allocman) → Keeps R (f a))
      → Keeps R (with_state f)
  Keeps-with_state h = record { keeps = λ a s. (h a).keeps a s }

  pub Good-continue :
      {A B : Type 0} (k : A → Act S B) (a : Allocman) (o : Option (A × Allocman × S))
      → Good R a o
      → ((x : A) → Keeps R (k x))
      → Good R a (continue k o)
  Good-continue k a none h later = tt
  Good-continue k a (some (x, a', s)) h later = joined (k x (a', s)) h ((later x).keeps a' s)
    where
      joined : {C : Type 0} (o : Option (C × Allocman × S)) → R a a' → Good R a' o → Good R a o
      joined none p q = tt
      joined (some (y, a'', s')) p q = order.after p q

  pub Keeps-next :
      {A B : Type 0} {m : Act S A} {k : A → Act S B}
      → Keeps R m
      → ((x : A) → Keeps R (k x))
      → Keeps R (next m k)
  Keeps-next {m = m} {k = k} h later = record {
    keeps = λ a s. Good-continue k a (m (a, s)) (h.keeps a s) later;
  }

  pub Keeps-if :
      {A : Type 0} (c : Bool) {m n : Act S A} → Keeps R m → Keeps R n → Keeps R (if c then m else n)
  Keeps-if true p q = p
  Keeps-if false p q = q

pub Keeps-IsKept : {S A : Type 0} {m : Act S A} → Keeps IsStep m → Keeps IsKept m
Keeps-IsKept {m = m} h = record { keeps = λ a s. weaker a (m (a, s)) (h.keeps a s) }
  where
    weaker :
        {S A : Type 0} (a : Allocman) (o : Option (A × Allocman × S))
        → Good IsStep a o
        → Good IsKept a o
    weaker a none g = tt
    weaker a (some (x, a', s)) g = g.kept
