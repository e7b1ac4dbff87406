-- ===== src/Tests/Events.antt =====
-- An absorber and a scheduler, at concrete inputs.
use udptun.Prelude.{
  ℕ, ◌-◌, ◌*◌, ◌≤◌, ◌≡◌, ◌↔◌, refl, [], ◌∷◌, some, arith, ok, fault, undefined, find, put, erase,
  insert, remove,
}
use udptun.Scheduler.Timeout.{Needed, Exhausted, timeout-in_time, timeout-Exhausted}
use udptun.Tests.Scheduler.{quiet}
use udptun.Scheduler.{
  Scheduler, timeout, set_timed, cancel_timed, unset_timed, dequeue, add_time, take_time,
}

abbrev two_times : Scheduler
two_times = record quiet {
  table = (3000000, []) ∷ (5000000, 4 ∷ []) ∷ [];
  whens = (4, 5000000) ∷ [];
}

two_times_find : find 5000000 two_times.table ≡ some (4 ∷ [])
unfolding find
two_times_find = refl

timeout-in_time_example :
    (d : ℕ) × (s' : Scheduler) × (timeout 1000000 two_times ≡ ok (some d, s'))
    × (d * 1000000 ≤ 5000000 - 1000000)
    × Needed 1000000 two_times d
    × (find 5000000 s'.table ≡ some (4 ∷ []))
timeout-in_time_example =
    timeout-in_time 1000000 5000000 4 [] two_times ((omega arith, tt), (tt, tt)) two_times_find

-- One timed event was set, and then cancelled.
set_and_cancelled : timeout 1 (cancel_timed 4 (set_timed 9 4 quiet)) ≡ fault undefined
unfolding timeout cancel_timed set_timed unset_timed dequeue add_time take_time find put erase
    insert remove
set_and_cancelled = refl

timeout-Exhausted_example :
    (timeout 1 (cancel_timed 4 (set_timed 9 4 quiet)) ≡ fault undefined)
    ↔ Exhausted (cancel_timed 4 (set_timed 9 4 quiet))
timeout-Exhausted_example = timeout-Exhausted 1 (cancel_timed 4 (set_timed 9 4 quiet))
