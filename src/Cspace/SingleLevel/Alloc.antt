-- ===== src/Cspace/SingleLevel/Alloc.antt =====
-- `_cspace_single_level_alloc`: the search for a word with a free slot, and the slot taken.
use se_l4_libs.Prelude.{
  ℕ, add_size, zero, suc, ◌+◌, ◌-◌, ◌*◌, ◌/◌, ◌%◌, ◌≤◌, ◌<◌, ◌≡◌, refl, ap, ◌∙◌, dec_lt, ℕ_discrete,
  ◌≢◌, ◌⊎◌, inl, inr, Bool, true, false, ◌&&◌, ◌||◌, Option, none, some, arith, ◌==◌, leb, ltb,
  if◌then◌else◌, Bool-cases,
}
use native.Mathlib.Nat.{mod-eq_of_lt, mod_self}
use se_l4_libs.Prelude.Int.{pos}
use se_l4_libs.Prelude.Words.{top_bit, top_bit-lt, test_bit-top, zero-test_bit}
use se_l4_libs.Prelude.Outcome.{Outcome, ok, err, abort}
use se_l4_libs.Cspace.Path.{CspacePath}
use se_l4_libs.Cspace.SingleLevel.{
  SingleLevel, bits_per_word, word, index_bit, make_path, scan, take_from, alloc,
}
use se_l4_libs.Cspace.SingleLevel.Valid.{
  IsValid, is_free, clear_index, is_free-clear, is_free-index, clear-IsValid,
}

next_index : (i n : ℕ) → i < n → (i + 1) % n ≡ (if i + 1 == n then 0 else i + 1)
next_index i n h = elim (ℕ_discrete (i + 1) n) [
  | yes e ↦ ground (arith, mod_self n, ap (λ (k : ℕ). k % n) e)
  | no ne ↦ ground (arith, mod-eq_of_lt {n = i + 1} {m = n} (omega arith))
]

-- The words that the search has read on its way from `last` round to `i`.
abbrev visited : ℕ → ℕ → ℕ → Bool
visited last i j = if leb last i then ltb last j && leb j i else ltb last j || leb j i

-- What is left of a round of `n` words.
abbrev remaining : ℕ → ℕ → ℕ → ℕ
remaining n last i = if leb last i then n - i + last else last - i

abbrev ScanSpec : SingleLevel → Option ℕ → Type 0
ScanSpec c none = ⊥
ScanSpec c (some i) =
    (i < c.bitmap_length)
    × ((word c i ≢ 0)
        ⊎ ((i ≡ c.last_entry) × ((j : ℕ) → j < c.bitmap_length → j ≢ c.last_entry → word c j ≡ 0)))

scan_lem :
    (c : SingleLevel) (rounds i : ℕ)
    → c.last_entry < c.bitmap_length
    → i < c.bitmap_length
    → remaining c.bitmap_length c.last_entry i ≤ rounds
    → ((j : ℕ) → j < c.bitmap_length → visited c.last_entry i j ≡ true → word c j ≡ 0)
    → ScanSpec c (scan c rounds i)
unfolding scan
scan_lem c zero i hl hi hr seen = absurd (ground arith)
scan_lem c (suc rounds) i hl hi hr seen = elim (Bool-cases (word c next == 0)) [
  | inl empty ↦
      let further : (j : ℕ)
          → j < c.bitmap_length
          → visited c.last_entry next j ≡ true
          → word c j ≡ 0 =
        (λ j lt v. elim (ℕ_discrete j next) [
          | yes here ↦ rw here (ground (arith, empty))
          | no other ↦ seen j lt (ground (arith, e))
        ]) in
      elim (Bool-cases (next == c.last_entry)) [
        | inl back ↦
            rw (empty, back)
              (in_range, inr (ground arith, λ j lt ne. seen j lt (ground (arith, e))))
        | inr more ↦
            rw (empty, more) (scan_lem c rounds next hl in_range (ground (arith, e)) further)
      ]
  | inr found ↦ rw found (in_range, inl (ground arith))
]
  where
    next : ℕ
    next = (i + 1) % c.bitmap_length

    e : next ≡ (if i + 1 == c.bitmap_length then 0 else i + 1)
    e = next_index i c.bitmap_length hi

    in_range : next < c.bitmap_length
    in_range = ground (arith, e)

-- The bit that `take_from` clears, as an index of the bitmap.
abbrev chosen : SingleLevel → ℕ → ℕ
chosen c i = i * bits_per_word + top_bit bits_per_word (word c i)

take_from_lem :
    (c : SingleLevel) (i : ℕ)
    → take_from c i
      ≡ ok (make_path c (add_size c.config.first_slot (chosen c i)), clear_index c (chosen c i))
unfolding take_from
take_from_lem c i = rw (split.0, split.1) refl
  where
    split : (chosen c i / 64 ≡ i) × (chosen c i % 64 ≡ top_bit bits_per_word (word c i))
    split = omega (arith, top_bit-lt 64 (word c i) (omega arith))

-- What `_cspace_single_level_alloc` promises.
abbrev pub AllocSpec : SingleLevel → Outcome (CspacePath × SingleLevel) → Type 0
AllocSpec c (ok (p, c')) =
    (p ≡ make_path c p.cap_ptr)
    × (is_free c p.cap_ptr ≡ true)
    × ((s : ℕ) → is_free c' s ≡ (if s == p.cap_ptr then false else is_free c s))
    × IsValid c'
    × (c'.config ≡ c.config)
    × (c'.bitmap_length ≡ c.bitmap_length)
AllocSpec c (err e) = (e ≡ pos 1) × ((s : ℕ) → is_free c s ≡ false)
AllocSpec c abort = ⊥

take_from-AllocSpec :
    {c : SingleLevel}
    → IsValid c
    → (i : ℕ) → i < c.bitmap_length
    → word c i ≢ 0
    → AllocSpec c (take_from (record c { last_entry = i }) i)
unfolding make_path
take_from-AllocSpec {c} valid i lt ne =
    let moved : IsValid (record c { last_entry = i }) = record {
      in_array = valid.in_array;
      last_in = lt;
      no_wrap = valid.no_wrap;
      small = valid.small;
    } in
    let inside : chosen c i < c.bitmap_length * 64 =
      omega (arith, top_bit-lt 64 (word c i) (omega arith)) in
    let split : (chosen c i / 64 ≡ i) × (chosen c i % 64 ≡ top_bit 64 (word c i)) =
      omega (arith, top_bit-lt 64 (word c i) (omega arith)) in
    let top_free : index_bit c (chosen c i) ≡ true =
      rw (split.0, split.1) (test_bit-top 64 (word c i) (valid.small i) ne) in
    rw (take_from_lem (record c { last_entry = i }) i) (
      refl,
      is_free-index moved (chosen c i) inside ∙ top_free,
      is_free-clear moved (chosen c i) inside,
      clear-IsValid moved (chosen c i) inside,
      refl,
      refl,
    )

none_free :
    (c : SingleLevel)
    → ((i : ℕ) → i < c.bitmap_length → word c i ≡ 0)
    → (s : ℕ) → is_free c s ≡ false
none_free c empty s =
    let k : ℕ = s - c.config.first_slot in
    elim (dec_lt k (c.bitmap_length * 64)) [
      | yes h ↦ rw (empty (k / 64) (omega arith), zero-test_bit (k % 64)) (ground arith)
      | no h ↦ ground arith
    ]

after_scan : SingleLevel → Option ℕ → Outcome (CspacePath × SingleLevel)
after_scan c o = elim o [
  | none ↦ abort
  | some i ↦ if i == c.last_entry then err (pos 1) else take_from (record c { last_entry = i }) i
]

after_scan-AllocSpec :
    {c : SingleLevel}
    → IsValid c
    → word c c.last_entry ≡ 0
    → (o : Option ℕ) → ScanSpec c o
    → AllocSpec c (after_scan c o)
unfolding after_scan
after_scan-AllocSpec valid empty none spec = spec
after_scan-AllocSpec {c} valid empty (some i) (lt, inl ne) =
    let moved : (i == c.last_entry) ≡ false = elim (ℕ_discrete i c.last_entry) [
      | yes e ↦ absurd (ne (rw e empty))
      | no other ↦ ground arith
    ] in
    rw moved (take_from-AllocSpec valid i lt ne)
after_scan-AllocSpec {c} valid empty (some i) (lt, inr (back, rest)) =
    let same : (i == c.last_entry) ≡ true = ground arith in
    rw same (
      refl,
      none_free c
          λ j h. elim (ℕ_discrete j c.last_entry) [ yes e ↦ rw e empty | no ne ↦ rest j h ne ],
    )

-- From a valid bitmap the search finds a free slot whenever there is one: with nothing free it fails and
-- changes nothing, else it takes one free slot and leaves all others alone. It never aborts.
pub alloc-AllocSpec : {c : SingleLevel} → IsValid c → AllocSpec c (alloc c)
unfolding alloc after_scan
alloc-AllocSpec {c} valid = elim (Bool-cases (word c c.last_entry == 0)) [
  | inl empty ↦
      let guard : ((c.bitmap_length == 0) || leb c.bitmap_length c.last_entry) ≡ false =
        ground (arith, valid.last_in) in
      rw (empty, guard)
        (after_scan-AllocSpec valid (ground arith) (scan c c.bitmap_length c.last_entry) (
          scan_lem c c.bitmap_length c.last_entry valid.last_in valid.last_in (ground arith)
            (λ j h v. absurd (ground arith))))
  | inr found ↦ rw found (take_from-AllocSpec valid c.last_entry valid.last_in (ground arith))
]
