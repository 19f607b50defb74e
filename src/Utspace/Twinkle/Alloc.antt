-- ===== src/Utspace/Twinkle/Alloc.antt =====
-- `_utspace_twinkle_add_uts` and `_utspace_twinkle_alloc`: which untyped is chosen, and what a call changes.
use se_l4_libs.Prelude.{
  ℕ, ◌+◌, ◌≤◌, ◌≡◌, refl, sym, ◌∙◌, subst, ◌⊎◌, true, false, ◌&&◌, Option, none, some, List, [],
  ◌∷◌, ◌++◌, arith, ◌==◌, ltb, if◌then◌else◌, Bool-cases, inl, inr, get_elem?, length,
  length-append, All, All-append, get_elem?-append,
}
use mathlib.Core.List.{append_assoc, append-nil}
use se_l4_libs.Utspace.Twinkle.{Ut, fits, waste, first_fit, best, choose}

-- The untyped `u` stands at index `i` and has room.
abbrev pub IsChoice : List Ut → ℕ → ℕ × Ut → Type 0
IsChoice uts bits (i, u) = (get_elem? uts i ≡ some u) × (fits u bits ≡ true)

best-IsChoice :
    (whole front back : List Ut) (bits j i : ℕ) (u : Ut)
    → whole ≡ front ++ back
    → j ≡ length front
    → IsChoice whole bits (i, u)
    → IsChoice whole bits (best back bits j i u)
unfolding best
best-IsChoice whole front [] bits j i u e here h = h
best-IsChoice whole front (v ∷ vs) bits j i u e here h =
    elim (Bool-cases (u.size_bits == v.size_bits)) [
      | inr other ↦ rw other h
      | inl same ↦
          let next : (i' : ℕ) (u' : Ut)
              → IsChoice whole bits (i', u')
              → IsChoice whole bits (best vs bits (j + 1) i' u') =
            λ i' u' choice.
              best-IsChoice whole (front ++ v ∷ []) vs bits (j + 1) i' u'
                (e ∙ sym (append_assoc front (v ∷ []) vs))
                (omega (arith, length-append {0} front (v ∷ []))) choice in
          elim (Bool-cases (fits v bits && ltb (waste v bits) (waste u bits))) [
            | inl better ↦
                rw (same, better)
                  (next j v (rw (e, here) (get_elem?-append front vs v), ground arith))
            | inr worse ↦ rw (same, worse) (next i u h)
          ]
    ]

best-nil : (bits j i : ℕ) (u : Ut) → best [] bits j i u ≡ (i, u)
unfolding best
best-nil bits j i u = refl

best-cons :
    (v : Ut) (vs : List Ut) (bits j i : ℕ) (u : Ut)
    → best (v ∷ vs) bits j i u ≡ (
        if u.size_bits == v.size_bits
        then (if fits v bits && ltb (waste v bits) (waste u bits)
            then best vs bits (j + 1) j v
            else best vs bits (j + 1) i u)
        else (i, u))
unfolding best
best-cons v vs bits j i u = ground arith

-- The second loop ends with a choice that wastes no more than the first, nor than any untyped of the
-- same size that it passes and that has room.
abbrev pub NoBetter : ℕ → ℕ → ℕ → List Ut → Type 0
NoBetter bits size least [] = Unit
NoBetter bits size least (v ∷ vs) =
    if size == v.size_bits
    then ((fits v bits ≡ false) ⊎ (least ≤ waste v bits)) × NoBetter bits size least vs
    else Unit

record Least (bits : ℕ) (u : Ut) (vs : List Ut) (r : ℕ × Ut) : Type 0 where
  less : waste r.1 bits ≤ waste u bits
  least : NoBetter bits u.size_bits (waste r.1 bits) vs

best-Least : (vs : List Ut) (bits j i : ℕ) (u : Ut) → Least bits u vs (best vs bits j i u)
best-Least [] bits j i u = rw best-nil (record { less = omega arith; least = tt })
best-Least (v ∷ vs) bits j i u = rw best-cons (elim (Bool-cases (u.size_bits == v.size_bits)) [
  | inr other ↦ rw other (record { less = omega arith; least = rw other tt })
  | inl same ↦ rw same (elim (Bool-cases (fits v bits && ltb (waste v bits) (waste u bits))) [
    | inl better ↦
        let found : Least bits v vs (best vs bits (j + 1) j v) = best-Least vs bits (j + 1) j v in
        let size : u.size_bits ≡ v.size_bits = ground arith in
        rw better (record {
          less = ground arith;
          least = rw (same) (
            inr found.less,
            subst (λ n. NoBetter bits n (waste (best vs bits (j + 1) j v).1 bits) vs) (sym size)
                found.least,
          );
        })
    | inr worse ↦
        let found : Least bits u vs (best vs bits (j + 1) i u) = best-Least vs bits (j + 1) i u in
        rw worse (record { less = found.less; least = rw (same) (ground arith, found.least) })
  ])
])

-- What the first loop found: the untypeds before it have no room, and the array goes on with it.
record Found (uts : List Ut) (bits i : ℕ) (u : Ut) (rest : List Ut) : Type 0 where
  front : List Ut
  back : List Ut
  array : uts ≡ front ++ rest
  tail : rest ≡ u ∷ back
  index : i ≡ length front
  no_room : All (λ v. fits v bits ≡ false) front
  room : fits u bits ≡ true

FirstFit : List Ut → ℕ → Option (ℕ × Ut × List Ut) → Type 0
FirstFit uts bits none = All (λ v. fits v bits ≡ false) uts
FirstFit uts bits (some (i, u, rest)) = Found uts bits i u rest

first_fit-FirstFit :
    (front back : List Ut) (bits : ℕ)
    → All (λ v. fits v bits ≡ false) front
    → FirstFit (front ++ back) bits (first_fit back bits (length front))
unfolding FirstFit first_fit
first_fit-FirstFit front [] bits h = rw append-nil h
first_fit-FirstFit front (u ∷ us) bits h = elim (Bool-cases (fits u bits)) [
  | inl room ↦ rw room (record {
    front = front;
    back = us;
    array = refl;
    tail = refl;
    index = refl;
    no_room = h;
    room = room;
  })
  | inr full ↦
      let count : length front + 1 ≡ length (front ++ u ∷ []) =
        omega (arith, length-append {0} front (u ∷ [])) in
      rw (full, count, ← append_assoc front (u ∷ []) us)
        (first_fit-FirstFit (front ++ u ∷ []) us bits
          (All-append (λ v. fits v bits ≡ false) front (u ∷ []) h (full, tt)))
]

-- The untypeds that follow the first with room.
abbrev pub ChooseSpec : List Ut → ℕ → Option (ℕ × Ut) → Type 0
ChooseSpec uts bits none = All (λ v. fits v bits ≡ false) uts
ChooseSpec uts bits (some choice) = IsChoice uts bits choice × record {
  front : List Ut;
  first : Ut;
  back : List Ut;
  array : uts ≡ front ++ first ∷ back;
  no_room : All (λ v. fits v bits ≡ false) front;
  least : NoBetter bits first.size_bits (waste choice.1 bits) (first ∷ back);
}

chosen :
    (uts : List Ut) (bits : ℕ) (o : Option (ℕ × Ut × List Ut))
    → FirstFit uts bits o
    → ChooseSpec uts bits (elim o [ none ↦ none | some (i, u, rest) ↦ some (best rest bits i i u) ])
unfolding FirstFit
chosen uts bits none h = h
chosen uts bits (some (i, u, rest)) f = (
  best-IsChoice uts f.front rest bits i i u f.array f.index
      (rw (f.array, f.tail, f.index) (get_elem?-append f.front f.back u), f.room),
  record {
    front = f.front;
    first = u;
    back = f.back;
    array = rw (← f.tail) f.array;
    no_room = f.no_room;
    least =
        subst (λ l. NoBetter bits u.size_bits (waste (best rest bits i i u).1 bits) l) f.tail
          ((best-Least rest bits i i u).least);
  },
)

-- No untyped is chosen exactly when none has room; else the choice has room, nothing before the first
-- with room is chosen, and of the run of equal size that starts there none with room wastes less.
pub choose-ChooseSpec : (uts : List Ut) (bits : ℕ) → ChooseSpec uts bits (choose uts bits)
unfolding choose
choose-ChooseSpec uts bits =
    chosen uts bits (first_fit uts bits 0) (first_fit-FirstFit [] uts bits tt)
