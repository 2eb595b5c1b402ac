-- ===== src/Tests/Workers.antt =====
-- An executor of two workers: worker 0 is parked and has task 7 in its slot, worker 1 has tasks 9
-- and 8 in its inbox, the global queue has task 3, and task 5 is in hand.
use my_async_lib.Base.{
  ℕ, ◌≡◌, refl, false, true, List, [], ◌∷◌, arith, ◌==◌, if◌then◌else◌, some, ◌≢◌, ◌⊎◌,
}
use my_async_lib.Base.Store.{Store}
use my_async_lib.Mpmc.{Queue}
use my_async_lib.Mpmc.Fifo.{IsQueue}
use my_async_lib.Executor.{Worker, Executor, Caller, new_worker, schedule}
use my_async_lib.Base.Bag.{bag, add}
use my_async_lib.Executor.Contract.{HasBag}
use my_async_lib.Timer.Handoff.{dispatch, dispatch-HasBag}
use my_async_lib.Executor.Held.{View, IsWorker, new_worker-IsWorker, Holds, Keeps, total}
use my_async_lib.Executor.Schedule.{schedule-Keeps}
use my_async_lib.WorkerLoop.{next_task, ticked, Found}
use my_async_lib.WorkerLoop.Idle.{IsIdle, next_task-IsIdle}
use my_async_lib.WorkerLoop.Priority.{next_task-global}

abbrev links : Store
links a = if a == 9 then 8 else 0

abbrev parked_worker : Worker
parked_worker = record new_worker { lifo_slot = 7; tick = 60; is_parked = true }

abbrev busy_worker : Worker
busy_worker = record new_worker { inbox = 9 }

abbrev global_three : Queue
global_three = record { head = 3; tail = 3 }

abbrev two_workers : Executor
two_workers = record {
  next = links;
  workers = parked_worker ∷ busy_worker ∷ [];
  global_queue = global_three;
  running = true;
}

abbrev parked_view : View
parked_view = record { slot = 7 ∷ []; local = []; inbox = [] }

abbrev busy_view : View
busy_view = record { slot = []; local = []; inbox = 9 ∷ 8 ∷ [] }

abbrev views : List View
views = parked_view ∷ busy_view ∷ []

-- A thread of another executor.
abbrev external : Caller
external = record { same_executor = false; thread_id = 0; random = 1 }

parked_worker-IsWorker : IsWorker links parked_worker parked_view
unfolding new_worker
parked_worker-IsWorker = record {
  slot = refl;
  local = (new_worker-IsWorker links).local;
  inbox = refl;
}

busy_worker-IsWorker : IsWorker links busy_worker busy_view
unfolding new_worker
busy_worker-IsWorker = record {
  slot = refl;
  local = (new_worker-IsWorker links).local;
  inbox = (refl, ground arith, (refl, ground arith, refl));
}

global_three-IsQueue : IsQueue links global_three (3 ∷ [])
global_three-IsQueue = record {
  chain = (refl, ground arith, refl);
  tail = refl;
  distinct = λ a. ground arith;
}

two_workers-Holds : Holds two_workers views (3 ∷ []) (5 ∷ [])
two_workers-Holds = record {
  workers = (parked_worker-IsWorker, (busy_worker-IsWorker, tt));
  global = global_three-IsQueue;
  once = λ a. ground arith;
  nonnull = refl;
}

abbrev before : ℕ → ℕ
before a = total a views (3 ∷ []) (5 ∷ [])

two_workers-Keeps : Keeps two_workers (5 ∷ []) before
two_workers-Keeps = record {
  vs = views;
  gs = 3 ∷ [];
  holds = two_workers-Holds;
  balance = λ a. refl;
}

schedule-Keeps_example : Keeps (schedule two_workers external 5).0 [] before
schedule-Keeps_example = schedule-Keeps external 5 (omega arith) two_workers-Holds

-- Worker 1 has two tasks in its inbox.
next_task-IsIdle_example :
    (r : Found × ℕ) × (next_task 2 two_workers 1 1 ≡ some r)
    × ((r.0.1 ≢ 0) ⊎ IsIdle 1 views (3 ∷ []))
next_task-IsIdle_example = next_task-IsIdle 1 2 1 (omega arith) two_workers-Holds (omega arith)

next_task-global_example :
    (s' : Executor) × (next_task 0 two_workers 0 1 ≡ some ((s', 3), 1))
    × (s'.workers ≡ (ticked two_workers 0).workers)
    × IsQueue s'.next s'.global_queue []
next_task-global_example =
    next_task-global two_workers 0 0 1 (omega arith) global_three-IsQueue refl

two_workers-HasBag : HasBag (two_workers, external) (bag (7 ∷ 9 ∷ 8 ∷ 3 ∷ [])) (5 ∷ [])
two_workers-HasBag = (omega arith, (views, 3 ∷ [], two_workers-Holds, refl))

dispatch-HasBag_example :
    HasBag (dispatch two_workers external (5 ∷ [])) (add (5 ∷ []) (bag (7 ∷ 9 ∷ 8 ∷ 3 ∷ []))) []
dispatch-HasBag_example =
    dispatch-HasBag (5 ∷ []) [] two_workers external (bag (7 ∷ 9 ∷ 8 ∷ 3 ∷ [])) two_workers-HasBag
