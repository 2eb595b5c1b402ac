-- ===== src/Tests/Timers.antt =====
-- A keeper with one timer, and its passes. Times are nanoseconds.
use my_async_lib.Base.{
  List, ℕ, ◌≤◌, ◌<◌, ◌≡◌, ◌≢◌, refl, false, [], ◌∷◌, arith, ◌%◌, pos, count, set, inl, length-set,
  length-replicate, replicate, ◌∙◌,
}
use my_async_lib.Timer.{
  Entry, Keeper, bucket, wheel_slots, tick_of, expiry, new_keeper, add_timer, cancel_timer,
  run_pass,
}
use my_async_lib.Timer.Sweep.{In, IsDue}
use my_async_lib.Timer.Ticks.{IsWheel}
use my_async_lib.Timer.Dispatch.{run_pass_sound, run_pass-due, add_timer-fires}
use my_async_lib.Timer.Cancel.{cancel_timer-silent}
use my_async_lib.Timer.Map.{
  IsMapped, Op, add_task, add_call, cancel, pass, perform_all, perform_all-IsMapped,
}
use my_async_lib.Timer.Late.{run_pass_late}

-- Task 5 is set for 25 ms after the start: tick 2.
abbrev entry : Entry
entry = record {
  id = 1;
  expire_at = 25000000;
  task_node = 5;
  owns_task_node = false;
  canceled = false;
}

abbrev one_timer : Keeper
one_timer = record {
  buckets = set (replicate 4096 []) 2 (entry ∷ []);
  task_map = 1 ∷ [];
  next_id = 2;
  last_tick = 0;
}

one_timer-IsWheel : IsWheel one_timer
one_timer-IsWheel =
    length-set (replicate 4096 []) 2 (entry ∷ []) ∙ length-replicate {A = List Entry} 4096 []

new_keeper-IsWheel : IsWheel new_keeper
unfolding new_keeper
new_keeper-IsWheel = length-replicate {A = List Entry} 4096 []

at_tick : In entry (bucket one_timer (tick_of 25000000 % wheel_slots))
unfolding tick_of
at_tick = inl refl

one_timer_expires : 0 < count 5 (run_pass 25000000 one_timer).expired
one_timer_expires =
    run_pass-due 25000000 one_timer entry (omega arith) at_tick
      (record { live = refl; passed = omega arith }) (omega arith)

run_pass_sound_example :
    (slot : ℕ) × (e : Entry) × In e (bucket one_timer slot) × (e.task_node ≡ 5) × IsDue 25000000 e
run_pass_sound_example = run_pass_sound 25000000 5 one_timer one_timer-IsWheel one_timer_expires

expires : expiry 0 (pos 25) ≤ 25000000
unfolding expiry
expires = omega arith

add_timer-fires_example :
    0 < count 5 (run_pass 25000000 (add_timer new_keeper 0 (pos 25) 5).0).expired
unfolding new_keeper
add_timer-fires_example =
    add_timer-fires new_keeper 0 (pos 25) 5 25000000 new_keeper-IsWheel (omega arith) (omega arith)
      expires

run_pass_late_example :
    In entry (bucket (run_pass 25000000000 (run_pass 24000000 one_timer).keeper).keeper 2)
unfolding tick_of
run_pass_late_example =
    run_pass_late one_timer entry 24000000 25000000000 one_timer-IsWheel at_tick
      (record { live = refl; future = omega arith }) refl (omega arith) (omega arith)

-- Task 6 is set for the same time, and task 5 is canceled.
abbrev other : Entry
other = record entry { id = 2; task_node = 6 }

abbrev two_timers : Keeper
two_timers = record {
  buckets = set (replicate 4096 []) 2 (other ∷ entry ∷ []);
  task_map = 2 ∷ 1 ∷ [];
  next_id = 3;
  last_tick = 0;
}

two_timers-IsWheel : IsWheel two_timers
two_timers-IsWheel =
    length-set (replicate 4096 []) 2 (other ∷ entry ∷ [])
    ∙ length-replicate {A = List Entry} 4096 []

still_there : In other (bucket (cancel_timer two_timers 1) (tick_of 25000000 % wheel_slots))
unfolding tick_of cancel_timer
still_there = inl refl

other_fires : 0 < count 6 (run_pass 25000000 (cancel_timer two_timers 1)).expired
unfolding cancel_timer
other_fires =
    run_pass-due 25000000 (cancel_timer two_timers 1) other (omega arith) still_there
      (record { live = refl; passed = omega arith }) (omega arith)

cancel_timer-silent_example :
    (slot : ℕ) × (e : Entry) × In e (bucket two_timers slot)
    × (e.task_node ≡ 6)
    × IsDue 25000000 e
    × (e.id ≢ 1)
cancel_timer-silent_example =
    cancel_timer-silent two_timers 1 25000000 6 two_timers-IsWheel (omega arith) refl other_fires

-- A timer is set, a pass comes before its time, another one is set, and the first is canceled.
abbrev four_calls : List Op
four_calls = add_task 0 (pos 25) 5 ∷ pass 10000000 ∷ add_call 10000000 (pos 5) 6 ∷ cancel 1 ∷ []

perform_all-IsMapped_example : IsMapped (perform_all four_calls new_keeper)
perform_all-IsMapped_example = perform_all-IsMapped four_calls
