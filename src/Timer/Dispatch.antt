-- ===== src/Timer/Dispatch.antt =====
-- A pass of `Run` (timer_keeper.hpp) and the tasks that it hands over.
use my_async_lib.Base.{
  ℕ, ◌%◌, ◌≤◌, ◌<◌, ◌≡◌, ◌≢◌, refl, false, [], ◌∷◌, arith, inl, inr, count, get_or-set_self, ℤ,
  ==_of_ne,
}
use my_async_lib.Timer.{
  Entry, Keeper, bucket, wheel_slots, tick_of, expiry, add_internal, add_timer, run_pass,
}
use my_async_lib.Timer.Sweep.{In, IsDue}
use my_async_lib.Timer.Ticks.{IsWheel, process_ticks_sound, process_ticks-due}

tick_of_mono : (a b : ℕ) → a ≤ b → tick_of a ≤ tick_of b
unfolding tick_of
tick_of_mono a b h = ground arith

-- Every task that a pass of `Run` at time `now` hands over belongs to an entry of the wheel that is
-- not canceled and whose time is at most `now`: no timer fires early.
pub run_pass_sound :
    (now a : ℕ) (k : Keeper)
    → IsWheel k
    → 0 < count a (run_pass now k).expired
    → (slot : ℕ) × (e : Entry) × In e (bucket k slot) × (e.task_node ≡ a) × IsDue now e
unfolding run_pass
run_pass_sound now a k w h = elim (process_ticks_sound now _ a _ w h) [
  | inl nothing ↦ absurd (omega arith)
  | inr found ↦ found
]

-- A pass of `Run` hands over the task of every due entry that stands in the bucket of its tick, if
-- the wheel has not come past that tick.
pub run_pass-due :
    (now : ℕ) (k : Keeper) (e : Entry)
    → k.last_tick ≤ tick_of e.expire_at
    → In e (bucket k (tick_of e.expire_at % wheel_slots))
    → IsDue now e
    → e.task_node ≢ 0
    → 0 < count e.task_node (run_pass now k).expired
unfolding run_pass
run_pass-due now k e ahead at d ne =
    process_ticks-due now _ e _ (tick_of e.expire_at) ahead
      (omega (arith, tick_of_mono e.expire_at now d.passed)) at d ne

-- A timer with a task that is set for a tick to which the wheel has not come is handed over by the
-- next pass of `Run` if that pass is at or after the timer's time.
pub add_timer-fires :
    (k : Keeper) (now : ℕ) (delay : ℤ) (task later : ℕ)
    → IsWheel k
    → task ≢ 0
    → k.last_tick ≤ tick_of (expiry now delay)
    → expiry now delay ≤ later
    → 0 < count task (run_pass later (add_timer k now delay task).0).expired
unfolding add_timer add_internal
add_timer-fires k now delay task later w ne ahead due = rw (==_of_ne task 0 ne) (
    run_pass-due later _ entry ahead
      (rw
        (get_or-set_self k.buckets (tick_of (expiry now delay) % wheel_slots)
          (entry ∷ bucket k (tick_of (expiry now delay) % wheel_slots)) [] (omega (arith, w)))
        (inl refl))
      (record { live = refl; passed = due }) ne)
  where
    entry : Entry
    entry = record {
      id = k.next_id;
      expire_at = expiry now delay;
      task_node = task;
      owns_task_node = false;
      canceled = false;
    }
