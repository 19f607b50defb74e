-- ===== src/Sync/CondVar/Valid.antt =====
-- The invariant of a condition variable: what `waiters` counts, and who carries a broadcast on.
use se_l4_libs.Prelude.{ℕ, ◌+◌, ◌-◌, ◌≡◌, ◌≤◌, Bool, true, false, some, get_elem?, set, arith}
use se_l4_libs.Sync.Threads.{tally, tally-set, tally-one}
use se_l4_libs.Sync.Notification.{Notification}
use se_l4_libs.Sync.CondVar.{Pc, outside, inside, asleep, awake, announcing, Cv, System}

abbrev pub count : Bool → ℕ
count true = 1
count false = 0

-- Threads that `waiters` counts.
abbrev pub is_counted : Pc → ℕ
is_counted asleep = 1
is_counted awake = 1
is_counted outside = 0
is_counted inside = 0
is_counted announcing = 0

-- Threads that have a wake-up or are about to give one.
abbrev pub is_carrier : Pc → ℕ
is_carrier awake = 1
is_carrier announcing = 1
is_carrier outside = 0
is_carrier inside = 0
is_carrier asleep = 0

module _ (n : Notification) where
  pub record IsValid (x : System n) : Type 0 where
    pub counted : x.cv.waiters ≡ tally is_counted x.threads + x.thrown
    pub carried :
        count x.cv.broadcasting
        ≤ tally is_carrier x.threads + x.thrown + count (n.pending x.cv.object)

  -- What a move of a thread from `p` to `r` has to keep, when `lost` counts it as thrown out.
  pub record IsKept (lost : ℕ) (p : Pc) (c : Cv n) (r : Pc × Cv n) : Type 0 where
    pub count_kept : r.1.waiters + is_counted p ≡ c.waiters + is_counted r.0 + lost
    pub carry_kept :
        (rest : ℕ)
        → count c.broadcasting ≤ rest + is_carrier p + count (n.pending c.object)
        → count r.1.broadcasting ≤ rest + is_carrier r.0 + lost + count (n.pending r.1.object)

  rest_of : (t p : ℕ) → p ≤ t → t - p + p ≡ t
  rest_of t p h = omega arith

  pub kept-IsValid :
      (x : System n) (i lost : ℕ) (p : Pc) (r : Pc × Cv n)
      → get_elem? x.threads i ≡ some p
      → IsKept lost p x.cv r
      → IsValid x
      → IsValid (record { cv = r.1; threads = set x.threads i r.0; thrown = x.thrown + lost })
  kept-IsValid x i lost p r there kept valid =
      let moved = tally-set is_counted x.threads i p r.0 there in
      let carry = tally-set is_carrier x.threads i p r.0 there in
      let one = tally-one is_carrier x.threads i p there in
      let rest : ℕ = tally is_carrier x.threads - is_carrier p + x.thrown in
      let after = kept.carry_kept rest (omega (arith, valid.carried, one)) in
      record {
        counted = omega (arith, kept.count_kept, valid.counted, moved);
        carried = omega (arith, after, carry, one);
      }
