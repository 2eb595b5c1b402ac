-- ===== src/Awaiter/Resuming.antt =====
-- Tasks that awaiters hand to the executor and to the timer.
use my_async_lib.Base.{
  Option, ==_of_ne, arith, length-set, ◌∙◌, ℕ, ◌≤◌, ◌<◌, ◌≡◌, ◌≢◌, refl, List, ◌∷◌, ◌==◌, length,
  count, ℤ, pos, leb_ℤ, some, false, if_ind,
}
use my_async_lib.Executor.{Executor, Caller}
use my_async_lib.Executor.Held.{View, total, Holds, Keeps}
use my_async_lib.Executor.Schedule.{schedule-Keeps, schedule_on-Keeps}
use my_async_lib.Awaiter.{Awaiter}
use my_async_lib.Awaiter.Timeouts.{Suspended, timeout_suspend, timeout_resume}
use my_async_lib.Io.{Requests}
use my_async_lib.Timer.Cancel.{cancel_timer-silent}
use my_async_lib.Timer.Sweep.{In, IsDue}
use my_async_lib.Timer.{
  Entry, add_callback, add_internal, Keeper, tick_of, expiry, add_timer, run_pass, bucket,
}
use my_async_lib.Timer.Ticks.{IsWheel}
use my_async_lib.Timer.Dispatch.{add_timer-fires}
use my_async_lib.Awaiter.Hop.{resume_on, any_worker_thread}
use my_async_lib.Awaiter.Keepers.{sleep}

-- Resuming a coroutine on an executor with a worker, for any thread and any target, in range or
-- not: the executor then holds the coroutine's task, which was in hand, and every task is held in
-- as many places as before, at most one.
pub resume_on-Keeps :
    {s : Executor} {vs : List View} {gs hand : List ℕ} (c : Caller) (t target : ℕ)
    → 0 < length s.workers
    → Holds s vs gs (t ∷ hand)
    → Keeps (resume_on s c t target).0 hand (λ a. total a vs gs (t ∷ hand))
unfolding resume_on
resume_on-Keeps {s} {vs} {gs} {hand} c t target some_worker h =
    if_ind (λ (r : Executor × Caller). Keeps r.0 hand (λ a. total a vs gs (t ∷ hand)))
      (target == any_worker_thread) (λ _. schedule-Keeps c t some_worker h)
      (λ _. schedule_on-Keeps c t target h)

-- A coroutine with a task that sleeps for a positive time sets a timer, and if the wheel has not
-- come to the timer's tick, a next pass of `Run` at or after its time hands the task over.
pub sleep-fires :
    (k : Keeper) (now : ℕ) (delay : ℤ) (task later : ℕ)
    → IsWheel k
    → task ≢ 0
    → leb_ℤ delay (pos 0) ≡ false
    → k.last_tick ≤ tick_of (expiry now delay)
    → expiry now delay ≤ later
    → (r : Keeper × ℕ) × (sleep k now delay task ≡ some r)
      × (0 < count task (run_pass later r.0).expired)
unfolding sleep
sleep-fires k now delay task later w ne positive ahead due =
    rw positive
      (add_timer k now delay task, refl, add_timer-fires k now delay task later w ne ahead due)

-- A coroutine under a timeout that is resumed cancels its timer: on a wheel whose next id is not 0,
-- each task that a pass of `Run` hands over after that belongs to a due entry of the wheel with another id.
pub timeout_resume-silent :
    (k : Keeper) (now later : ℕ) (delay : ℤ) (fresh parent handle a : ℕ) (first : Option Awaiter)
    (rs : Requests)
    → IsWheel k
    → k.next_id ≢ 0
    → handle ≢ 0
    → let s = timeout_suspend k now delay fresh parent handle first rs in
      0 < count a (run_pass later (timeout_resume s.keeper s.timer_id)).expired
      → (slot : ℕ) × (e : Entry) × In e (bucket s.keeper slot)
        × (e.task_node ≡ a)
        × IsDue later e
        × (e.id ≢ s.timer_id)
unfolding timeout_suspend timeout_resume add_callback add_internal
timeout_resume-silent k now later delay fresh parent handle a first rs w ne some_child =
    if_ind
      (λ (s : Suspended).
        0 < count a (run_pass later (timeout_resume s.keeper s.timer_id)).expired
        → (slot : ℕ) × (e : Entry) × In e (bucket s.keeper slot)
          × (e.task_node ≡ a)
          × IsDue later e
          × (e.id ≢ s.timer_id))
      (handle == 0) (λ z. absurd (ground (arith, z)))
      (λ _.
        rw (==_of_ne k.next_id 0 ne) (
          cancel_timer-silent _ k.next_id later a (length-set k.buckets _ _ ∙ w) ne (ground arith)))
