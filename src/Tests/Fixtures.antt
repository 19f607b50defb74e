-- ===== src/Tests/Fixtures.antt =====
-- The interfaces, instantiated by small functions.
use se_l4_libs.Prelude.{
  ℕ, ◌+◌, ◌-◌, ◌^◌, ◌≡◌, ◌≢◌, refl, sym, ap, Bool, Bool-cases, inl, inr, true, false, Option, none,
  some, ◌==◌, arith, if◌then◌else◌,
}
use mathlib.Core.Option.{some-injective, none-ne-some}
use se_l4_libs.Prelude.Int.{ℤ, pos, negsuc, incr, decr}
use se_l4_libs.Cspace.Path.{CspacePath}
use se_l4_libs.Cspace.Mspace.{Mspace}
use se_l4_libs.Cspace.Manager.{Manager}
use se_l4_libs.Kernel.{Kernel}
use se_l4_libs.Objects.{ObjectBits}
use se_l4_libs.Sync.Notification.{Notification, NotificationLaws, Atomics, AtomicsLaws}

-- Memory handed out from 4096 up, and memory that is exhausted.
abbrev pub bump : Mspace
bump = record { State = ℕ; alloc = λ st n. (pos 0, st + 4096, st + n); free = λ st p n. st }

abbrev pub exhausted : Mspace
exhausted = record { State = ℕ; alloc = λ st n. (pos 1, 0, st); free = λ st p n. st }

abbrev pub manager_of : Mspace → Manager
manager_of m = record {
  mem = m;
  utspace_alloc = λ st n t p d. (pos 0, 7, st);
  utspace_free = λ st c n. st;
  cnode_delete = λ st c i d. (pos 0, st);
}

-- A kernel that grants every retype and counts them.
abbrev pub granting : Kernel
granting = record { State = ℕ; retype = λ st ut type n p. (pos 0, st + 1) }

abbrev pub x86_bits : ObjectBits
x86_bits = record {
  tcb_bits = 11;
  min_sched_context_bits = 7;
  reply_bits = 5;
  endpoint_bits = 4;
  notification_bits = 6;
  slot_bits = 5;
  arch_bits = λ t. 12;
}

abbrev pub path_at : ℕ → CspacePath
path_at slot = record {
  root = 0;
  cap_ptr = slot;
  cap_depth = 64;
  dest = 0;
  dest_depth = 0;
  offset = slot;
  window = 1;
}

-- A notification as the flag that it is.
abbrev take_flag : Bool → Option Bool
take_flag true = some false
take_flag false = none

abbrev pub flag : Notification
flag = record { State = Bool; pending = λ s. s; signal = λ s. true; wait = λ s. take_flag s }

take_ready : (s : Bool) → s ≡ true → take_flag s ≢ none
take_ready true h = λ e. none-ne-some false (sym e)
take_ready false h = ground arith

take_was : (s t : Bool) → take_flag s ≡ some t → s ≡ true
take_was true t h = refl
take_was false t h = absurd (none-ne-some t h)

take_takes : (s t : Bool) → take_flag s ≡ some t → t ≡ false
take_takes true t h = sym (some-injective false t h)
take_takes false t h = absurd (none-ne-some t h)

pub flag-laws : NotificationLaws flag
flag-laws = record {
  signal_pending = λ s. refl;
  wait_ready = λ s h. take_ready s h;
  wait_was = λ s t h. take_was s t h;
  wait_takes = λ s t h. take_takes s t h;
}

-- A 32-bit counter whose decrement fails at `INT_MIN`.
abbrev lower : ℤ → Option (ℤ × ℤ)
lower (pos k) = some (pos k, decr (pos k))
lower (negsuc k) = if k == 2 ^ 31 - 1 then none else some (negsuc k, decr (negsuc k))

abbrev pub counter : Atomics
counter = record { decrement_safe = λ v. lower v; increment = λ v. (incr v, incr v) }

lower_both : (v old new : ℤ) → lower v ≡ some (old, new) → (old ≡ v) × (new ≡ decr v)
lower_both (pos k) old new h =
    let e = some-injective (pos k, decr (pos k)) (old, new) h in
    (sym (ap (λ (p : ℤ × ℤ). p.0) e), sym (ap (λ (p : ℤ × ℤ). p.1) e))
lower_both (negsuc k) old new h = elim (Bool-cases (k == 2 ^ 31 - 1)) [
  | inl e ↦ absurd (none-ne-some (old, new) (rw e at h))
  | inr e ↦
      (let q = some-injective (negsuc k, decr (negsuc k)) (old, new) (rw e at h) in
        (sym (ap (λ (p : ℤ × ℤ). p.0) q), sym (ap (λ (p : ℤ × ℤ). p.1) q)))
]

pub counter-laws : AtomicsLaws counter
counter-laws = record {
  decrement_old = λ v old new h. (lower_both v old new h).0;
  decrement_new = λ v old new h. (lower_both v old new h).1;
  increment_result = λ v. refl;
  increment_new = λ v. refl;
}
