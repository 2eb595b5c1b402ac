-- ===== src/Timer/Handoff.antt =====
-- The end of a round of `Run`, outside the lock: the expired tasks go to the executor.
use my_async_lib.Base.{ℕ, ◌<◌, subst, sym, List, [], ◌∷◌, ◌++◌, arith, length}
use my_async_lib.Base.Bag.{Bag, add, add-nil, add-cons}
use my_async_lib.Task.{Interface}
use my_async_lib.Executor.Contract.{
  Contract, work_stealing, work_stealing-Contract, clear_next, HasBag,
}
use my_async_lib.Executor.{Executor, Caller}
use my_async_lib.Executor.Held.{write_hand-Keeps, Keeps, Keeps-trans}
use my_async_lib.Executor.Schedule.{schedule-Keeps}
use my_async_lib.Executor.Size.{length-schedule}

-- `while (expired_head) { ... executor_.schedule(expired_head); ... }`, on any executor whose tasks
-- can be unlinked. The chain through the tasks' `next` fields, which is read before the task is handed
-- over, is the list of its tasks.
module _ {S : Type 0} (e : Interface S) (clear : ℕ → S → S) where
  unfoldable pub hand_all : List ℕ → S → S
  hand_all [] s = s
  hand_all (task ∷ expired) s = hand_all expired (e.schedule task (clear task s))

-- By what its executor promises, the timer adds exactly the expired tasks to it.
pub hand_all-Contains :
    {S : Type 0} (e : Interface S) (c : Contract e) (expired hand : List ℕ) (s : S) (b : Bag)
    → c.Contains s b (expired ++ hand)
    → c.Contains (hand_all e c.clear expired s) (add expired b) hand
unfolding hand_all
hand_all-Contains e c [] hand s b h = subst (λ x. c.Contains s x hand) (sym (add-nil b)) h
hand_all-Contains e c (task ∷ expired) hand s b h =
    subst (λ x. c.Contains (hand_all e c.clear (task ∷ expired) s) x hand) (add-cons task expired b)
      (hand_all-Contains e c expired hand (e.schedule task (c.clear task s)) (add (task ∷ []) b) (
        c.schedule_adds (c.clear task s) b task (expired ++ hand)
          (c.clear_kept s b task (expired ++ hand) h)))

-- The timer of a scheduler feeds its `WorkStealingExecutor`, with the timer thread's random numbers.
unfoldable pub dispatch : Executor → Caller → List ℕ → Executor × Caller
unfolding hand_all
dispatch s c expired = hand_all work_stealing clear_next expired (s, c)

-- On an executor with a worker, in which every task is in one place at most, and which holds the
-- tasks of a bag, with the expired tasks in hand, distinct, and others: after the timer has handed
-- over the expired tasks the executor holds the bag with exactly these added, and the others are in
-- hand.
pub dispatch-HasBag :
    (expired hand : List ℕ) (s : Executor) (c : Caller) (b : Bag)
    → HasBag (s, c) b (expired ++ hand)
    → HasBag (dispatch s c expired) (add expired b) hand
unfolding dispatch
dispatch-HasBag expired hand s c b h =
    hand_all-Contains work_stealing work_stealing-Contract expired hand (s, c) b h

-- Handing the expired tasks over to an executor with a worker, one after another, leaves each of
-- them held by the executor; the number of places in which each task is held is what it was, at
-- most one.
pub dispatch-Keeps :
    (expired hand : List ℕ) {before : ℕ → ℕ} {s : Executor} (c : Caller)
    → 0 < length s.workers
    → Keeps s (expired ++ hand) before
    → Keeps (dispatch s c expired).0 hand before
unfolding dispatch hand_all
dispatch-Keeps [] hand c some_worker k = k
dispatch-Keeps (task ∷ expired) hand {s} c some_worker k =
    let unlinked = write_hand-Keeps task 0 k (ground arith) in
    dispatch-Keeps expired hand _ (omega (arith, length-schedule _ c task))
      (Keeps-trans unlinked (schedule-Keeps c task some_worker unlinked.holds))
