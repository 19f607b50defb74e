-- ===== src/Tests/Irq.antt =====
-- A standard interface with four ids for interrupts and two for notifications.
use se_l4_libs.Prelude.{
  ℕ, suc, ◌+◌, ◌-◌, ◌*◌, ◌/◌, ◌<◌, ◌≡◌, refl, arith, subst, Bool, true, false, Option, none, some,
  List, [], ◌∷◌, ltb, ◌&&◌,
}
use se_l4_libs.Prelude.Int.{pos}
use se_l4_libs.Prelude.Bits.{Bits, bit}
use se_l4_libs.Irq.Defs.{Irq, IfaceType, Platform, null_path, usable_irq, usable_ntfn}
use se_l4_libs.Irq.Register.{enter, new_cookie, new_irq_ops, register_common, unregister}
use se_l4_libs.Irq.Bind.{link, mint_badge, set_ntfn_common, set_ntfn, unset_ntfn}
use se_l4_libs.Irq.Ids.{find_free_irq_id, find_free_ntfn_id, find_free_ntfn_badge_index}
use se_l4_libs.Irq.Notify.{provide_common, provide_ntfn, return_ntfn}
use se_l4_libs.Irq.Serve.{Driver, serve_irq, irq_wait, irq_handle}
use se_l4_libs.Irq.Sound.{IsSound}
use se_l4_libs.Irq.Calls.{
  Call, registering, providing, setting, call, calls, After, calls-IsSound, still,
}
use se_l4_libs.Irq.Served.{IsActing}
use se_l4_libs.Irq.History.{
  Event, calling, waiting, handling, event, events, new_cookie-IsSound, EachMade,
  new_irq_ops-calls_sound,
}
use se_l4_libs.Irq.Results.{
  IsRegistered, HasRoom, IsBound, register_common-IsRegistered, set_ntfn-IsBound,
}
use se_l4_libs.Irq.Unbound.{IsUnset, IsGone, unset_ntfn-IsUnset, unregister-IsGone}
use se_l4_libs.Irq.Returned.{IsReturned, return_ntfn-IsReturned}
use se_l4_libs.Irq.Pending.{IsServed, unchecked, serve_irq-IsServed}

-- Every call succeeds, and the state counts the slots that were given out.
abbrev platform : Platform
platform = record {
  State = ℕ;
  alloc_path = λ st. (pos 0, record null_path { cap_ptr = st }, suc st);
  free_path = λ st path. st;
  make_path = λ cap. record null_path { cap_ptr = cap };
  mint = λ st path root badge. (pos 0, st);
  delete = λ st path. (pos 0, st);
  set_notification = λ st handler ntfn. (pos 0, st);
  ack = λ st handler. (pos 0, st);
  clear = λ st handler. (pos 0, st);
  copy_irq_cap = λ st irq path. (pos 0, st);
  calloc = λ st bytes. (pos 0, st, suc st);
  free = λ st bytes cell. st;
  wait = λ st ntfn. (bit 1, st);
  poll = λ st ntfn. (bit 1, st);
  align_up = λ n align. (n + align - 1) / align * align;
}

abbrev quiet : Driver platform
quiet = record { run = λ f cell i ack s. s }

abbrev cookie : Irq
cookie = new_cookie platform 4 2 IfaceType.standard

-- The bits 1 and 2 of a badge may be used.
abbrev two_bits : Bits
two_bits b = ltb 0 b && ltb b 3

abbrev two_registered : List Call
two_registered = registering 7 (some 1) 0 ∷ registering 8 (some 2) 0 ∷ providing 9 two_bits ∷ []

abbrev one_bound : List Call
one_bound =
    registering 7 (some 1) 0
    ∷ registering 8 (some 2) 0
    ∷ providing 9 two_bits
    ∷ setting (pos 0) (pos 1)
    ∷ []

-- The bookkeeping, or an unused one when the program has ended.
abbrev or_cookie : Option (Irq × ℕ) → Irq
or_cookie none = cookie
or_cookie (some s) = s.0

or_cookie-IsSound : (o : Option (Irq × ℕ)) → After platform IsSound o → IsSound (or_cookie o)
or_cookie-IsSound none h = new_cookie-IsSound platform 4 2 IfaceType.standard
or_cookie-IsSound (some s) h = h

after : List Call → Irq
unfolding calls
after xs = or_cookie (calls platform xs (cookie, 0))

after-IsSound : (xs : List Call) → IsSound (after xs)
unfolding after
after-IsSound xs =
    or_cookie-IsSound (calls platform xs (cookie, 0))
      (calls-IsSound platform xs (cookie, 0) (new_cookie-IsSound platform 4 2 IfaceType.standard))

-- Both lists of calls succeed.
both_done :
    (usable_irq (after two_registered) (pos 1) ≡ some 1)
    × (usable_ntfn (after two_registered) (pos 0) ≡ some 0)
    × ((after two_registered).iface_type ≡ IfaceType.standard)
    × (usable_irq (after one_bound) (pos 1) ≡ some 1)
    × (usable_ntfn (after one_bound) (pos 0) ≡ some 0)
    × ((after one_bound).iface_type ≡ IfaceType.standard)
    × (((after one_bound).ntfn_table 0).status 1 ≡ true)
    × ((after one_bound).max_ntfn_ids ≡ 2)
unfolding after calls usable_irq set_ntfn provide_ntfn register_common find_free_irq_id enter
    find_free_ntfn_id provide_common usable_ntfn set_ntfn_common find_free_ntfn_badge_index
    mint_badge link
both_done = (refl, refl, refl, refl, refl, refl, refl, refl)

one_notification : 0 < (after one_bound).max_ntfn_ids
one_notification = let e = both_done.7 in omega arith

only_bit :
    (b : ℕ)
    → b < 64
    → unchecked ((after one_bound).ntfn_table 0) (bit 1) b ≡ true
    → bit 1 b ≡ true
    → ((after one_bound).ntfn_table 0).status b ≡ true
only_bit b low arrived masked =
    let e : 1 ≡ b = ground arith in
    subst (λ (k : ℕ). ((after one_bound).ntfn_table 0).status k ≡ true) e both_done.6

quiet-IsActing : IsActing quiet
quiet-IsActing = record { acts = λ f cell i ack s. still }

-- An interrupt is bound, arrives, and is handled.
abbrev one_handled : List Event
one_handled =
    calling (registering 7 (some 1) 0)
    ∷ calling (providing 9 two_bits)
    ∷ calling (setting (pos 0) (pos 0))
    ∷ waiting (pos 0) (bit 1)
    ∷ handling (pos 0) (bit 1)
    ∷ []

abbrev is_running : Option (Irq × ℕ) → Bool
is_running none = false
is_running (some s) = true

-- The whole history runs.
one_handled_runs : is_running (events platform quiet one_handled (cookie, 0)) ≡ true
unfolding events event call usable_irq set_ntfn provide_ntfn register_common find_free_irq_id enter
    find_free_ntfn_id provide_common usable_ntfn set_ntfn_common find_free_ntfn_badge_index
    mint_badge link irq_wait irq_handle serve_irq
one_handled_runs = refl

new_irq_ops-calls_sound_example :
    EachMade platform
      (λ c. (s : ℕ) → After platform IsSound (events platform quiet one_handled (c, s)))
      (new_irq_ops platform 0 4 2)
new_irq_ops-calls_sound_example =
    new_irq_ops-calls_sound platform quiet quiet-IsActing 0 4 2 one_handled

-- Of the four ids two are in use.
one_bound-HasRoom : HasRoom platform (after one_bound)
unfolding after calls usable_irq set_ntfn provide_ntfn register_common find_free_irq_id enter
    find_free_ntfn_id provide_common usable_ntfn set_ntfn_common find_free_ntfn_badge_index
    mint_badge link
one_bound-HasRoom = record {
  wide = omega arith;
  few = omega arith;
  free = λ h. (3, omega arith, refl);
}

register_common-IsRegistered_example :
    IsRegistered platform
      (after one_bound)
      5
      (some 3)
      0
      (register_common platform (after one_bound) 9 5 (some 3) 0)
register_common-IsRegistered_example =
    register_common-IsRegistered platform (after one_bound) (after-IsSound one_bound)
      one_bound-HasRoom 9 5 (some 3) 0

set_ntfn-IsBound_example :
    IsBound platform
      (after two_registered)
      0
      1
      (set_ntfn platform (after two_registered) 9 (pos 0) (pos 1))
set_ntfn-IsBound_example =
    set_ntfn-IsBound platform (after two_registered) 9 (pos 0) (pos 1) 0 1 both_done.2 both_done.1
      both_done.0

unset_ntfn-IsUnset_example :
    IsUnset platform
      (after one_bound)
      (after-IsSound one_bound)
      1
      (unset_ntfn platform (after one_bound) 9 (pos 1))
unset_ntfn-IsUnset_example =
    unset_ntfn-IsUnset platform (after one_bound) (after-IsSound one_bound) 9 (pos 1) 1 both_done.5
      both_done.3

unregister-IsGone_example :
    IsGone platform
      (after one_bound)
      (after-IsSound one_bound)
      1
      (unregister platform (after one_bound) 9 (pos 1))
unregister-IsGone_example =
    unregister-IsGone platform (after one_bound) (after-IsSound one_bound) 9 (pos 1) 1 both_done.3

return_ntfn-IsReturned_example :
    IsReturned platform
      (after one_bound)
      (after-IsSound one_bound)
      0
      (return_ntfn platform (after one_bound) 9 (pos 0))
return_ntfn-IsReturned_example =
    return_ntfn-IsReturned platform (after one_bound) (after-IsSound one_bound) 9 (pos 0) 0
      both_done.5 both_done.4

serve_irq-IsServed_example :
    IsServed platform quiet
      (λ f cell i ack c st. refl)
      (λ st n. refl)
      (after one_bound)
      (after-IsSound one_bound)
      0
      one_notification
      (bit 1)
      (bit 1)
      only_bit
      (serve_irq platform quiet (after one_bound) 9 0 (bit 1) (bit 1))
serve_irq-IsServed_example =
    serve_irq-IsServed platform quiet (λ f cell i ack c st. refl) (λ st n. refl) (after one_bound)
      (after-IsSound one_bound) 0 one_notification (bit 1) (bit 1) only_bit 9
