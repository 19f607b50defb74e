-- ===== src/Tests/CondVar.antt =====
-- Three threads of a monitor. A broadcast is cut short when a thread that it has woken waits again.
use se_l4_libs.Prelude.{ℕ, ◌≢◌, refl, Bool, true, false, [], ◌∷◌, none}
use se_l4_libs.Sync.CondVar.{
  Pc, outside, inside, asleep, leave, wait, broadcast, System, cv_wait, cv_broadcast, step, init,
  Reach, start, later,
}
use se_l4_libs.Sync.CondVar.Step.{broadcast_steps}
use se_l4_libs.Tests.Fixtures.{flag, flag-laws}

abbrev monitor : ℕ → Bool → Bool → Bool → Pc → Pc → Pc → System flag
monitor waiters broadcasting signal locked p q r = record {
  cv = record { waiters = waiters; broadcasting = broadcasting; object = signal; locked = locked };
  threads = p ∷ q ∷ r ∷ [];
  thrown = 0;
}

ready : Reach flag (monitor 0 false false false outside outside outside)
unfolding init
ready = start 3 false

first_in : Reach flag (monitor 0 false false true inside outside outside)
unfolding step
first_in = later 0 leave ready refl

first_sleeps : Reach flag (monitor 1 false false false asleep outside outside)
unfolding step cv_wait
first_sleeps = later 0 wait first_in refl

second_in : Reach flag (monitor 1 false false true asleep inside outside)
unfolding step
second_in = later 1 leave first_sleeps refl

second_sleeps : Reach flag (monitor 2 false false false asleep asleep outside)
unfolding step cv_wait
second_sleeps = later 1 wait second_in refl

third_in : Reach flag (monitor 2 false false true asleep asleep inside)
unfolding step
third_in = later 2 leave second_sleeps refl

third_broadcasts : Reach flag (monitor 2 true true true asleep asleep inside)
unfolding step cv_broadcast
third_broadcasts = later 2 broadcast third_in refl

third_out : Reach flag (monitor 2 true true false asleep asleep outside)
unfolding step
third_out = later 2 leave third_broadcasts refl

broadcast_steps_example : step flag (monitor 2 true true false asleep asleep outside) 1 leave ≢ none
broadcast_steps_example =
    broadcast_steps flag flag-laws (monitor 2 true true false asleep asleep outside) 1 leave
      third_out refl refl (refl, (refl, (refl, tt))) refl
