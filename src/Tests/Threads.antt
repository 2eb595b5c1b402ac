-- ===== src/Tests/Threads.antt =====
-- Task nodes, threads and whole runs at concrete inputs.
use my_async_lib.Base.{
  ℕ, suc, ◌≤◌, ◌≡◌, refl, true, false, List, [], ◌∷◌, arith, some, count, replicate,
  length-replicate, inl, none, if_ind, ◌==◌, Option, ap,
}
use my_async_lib.Mpmc.{empty_queue}
use my_async_lib.Mpmc.Fifo.{empty_queue-IsQueue}
use my_async_lib.Executor.{Executor, Worker, new_worker}
use my_async_lib.Executor.Held.{Holds, total, no_tasks, new_worker-IsWorker}
use my_async_lib.Executor.Pool.{Wake, park_and_wait, park_loop, park_and_wait-Ends}
use my_async_lib.Scheduler.System
use my_async_lib.Scheduler.Stopping
use my_async_lib.Scheduler.Stopping.{Step, launches, shuts_down, joins}
use my_async_lib.Scheduler.System.{System, new_system}
use my_async_lib.Task.{
  TaskNode, type_erased, freed, destroyed, called, run, execute_node, delete_typed, delete_node,
}
use my_async_lib.Task.Life.{
  Operation, create, run_node, delete_as_node, Books, step, steps, IsBalanced, steps-IsBalanced,
}
use my_async_lib.Timer.{Entry, Keeper}
use my_async_lib.Timer.Thread
use my_async_lib.Timer.Thread.{Run, Round}
use my_async_lib.Timer.Whole.{IsWhole, run-IsWhole}
use my_async_lib.WorkerLoop.Loop.{Turn, worker_loop}
use my_async_lib.WorkerLoop.Whole.{Quiet, Goes, Same, worker_loop-Keeps}

abbrev callback : TaskNode
callback = record {
  next = 0;
  execute = type_erased;
  payload = 7;
  destroy_fn = true;
  auto_delete = true;
}

abbrev other_callback : TaskNode
other_callback = record callback { payload = 8 }

abbrev nothing : Books
nothing = record { memory = record { nodes = []; log = [] }; created = []; dropped = [] }

-- Two callbacks: one runs and deletes itself, one is deleted as a plain node.
abbrev two_callbacks : List Operation
two_callbacks = create 1 callback ∷ create 2 other_callback ∷ run_node 1 ∷ delete_as_node 2 ∷ []

abbrev both_gone : Books
both_gone = record {
  memory = record { nodes = []; log = freed 2 ∷ freed 1 ∷ destroyed 7 ∷ called 7 ∷ [] };
  created = other_callback ∷ callback ∷ [];
  dropped = other_callback ∷ [];
}

two_callbacks-both_gone : steps two_callbacks nothing ≡ some both_gone
unfolding steps step run execute_node delete_typed delete_node
two_callbacks-both_gone = refl

steps-IsBalanced_example : IsBalanced 7 both_gone
steps-IsBalanced_example =
    steps-IsBalanced 7 two_callbacks nothing both_gone two_callbacks-both_gone refl

-- Started and stopped once before; the joins of that `Start` and `Stop` return.
abbrev once_stopped : List Step
once_stopped = launches ∷ shuts_down (λ i. true) ∷ joins (λ i. true) ∷ joins (λ i. true) ∷ []

abbrev stopped_system : System
stopped_system = record (System.shut_down (λ i. true) (System.launch (new_system 2 1 256 8 9))) {
  io_threads = [];
}

abbrev parked : Worker
parked = record new_worker { is_parked = true }

abbrev timed_out : Worker → List Wake
timed_out w = record { timed_out = true; running = true; worker = w } ∷ []

-- A wait ends for no reason, and the next one times out with a task in the inbox.
abbrev no_reason : Wake
no_reason = record { timed_out = false; running = true; worker = parked }

abbrev late_task : Wake
late_task = record { timed_out = true; running = true; worker = record parked { inbox = 5 } }

park_and_wait-Ends_example :
    (park_and_wait (no_reason ∷ []) true new_worker ≡ none)
    × (park_and_wait (no_reason ∷ late_task ∷ []) true new_worker
        ≡ some (record parked { inbox = 5; is_parked = false }))
unfolding new_worker
park_and_wait-Ends_example =
    park_and_wait-Ends (no_reason ∷ []) late_task [] new_worker refl (refl, refl, refl, refl, tt)
      (inl refl)

abbrev one_inbox : Executor
one_inbox = record {
  next = λ a. 0;
  workers = record new_worker { inbox = 5 } ∷ [];
  global_queue = empty_queue;
  running = true;
}

one_inbox-Holds :
    (hand : List ℕ)
    → ((a : ℕ) → count a (5 ∷ hand) ≤ 1)
    → count 0 hand ≡ 0
    → Holds one_inbox (record no_tasks { inbox = 5 ∷ [] } ∷ []) [] hand
unfolding new_worker
one_inbox-Holds hand distinct nonnull = record {
  workers = (
    record {
      slot = refl;
      local = (new_worker-IsWorker (λ a. 0)).local;
      inbox = (refl, omega arith, refl);
    },
    tt,
  );
  global = empty_queue-IsQueue _;
  once = λ a. omega (arith, distinct a);
  nonnull = omega (arith, nonnull);
}

abbrev turn : Turn
turn = record { running = true; still_running = true; wakes = timed_out }

turn-Quiet : Quiet turn
unfolding park_and_wait park_loop
turn-Quiet w =
    if_ind (λ (o : Option Worker). (x : Worker) × (o ≡ some x) × Same w x) (w.inbox == 0)
      (λ _. (_, refl, record { slot = refl; queue = refl; inbox = refl }))
      (λ _. (_, refl, record { slot = refl; queue = refl; inbox = refl }))

worker_loop-Keeps_example :
    Goes 1
      (λ a. total a (record no_tasks { inbox = 5 ∷ [] } ∷ []) [] [])
      (worker_loop 1 0
        (turn ∷ turn ∷ [])
        (record { executor = one_inbox; random = 1; empty_spins = 0; ran = [] }))
worker_loop-Keeps_example =
    worker_loop-Keeps 0 1 1 (turn ∷ turn ∷ []) (omega arith)
      (one_inbox-Holds [] (λ a. ground arith) refl) (omega arith) (turn-Quiet, (turn-Quiet, tt))

abbrev later_timer : Entry
later_timer = record {
  id = 1;
  expire_at = 25000000;
  task_node = 6;
  owns_task_node = false;
  canceled = false;
}

abbrev wheel : Keeper
wheel = record {
  buckets = (later_timer ∷ []) ∷ replicate 4095 [];
  task_map = 1 ∷ [];
  next_id = 2;
  last_tick = 0;
}

abbrev timer_run : Run
timer_run = record {
  keeper = wheel;
  executor = one_inbox;
  caller = record { same_executor = false; thread_id = 0; random = 1 };
}

timer_run-IsWhole :
    IsWhole timer_run [] (λ a. total a (record no_tasks { inbox = 5 ∷ [] } ∷ []) [] (6 ∷ []))
timer_run-IsWhole = record {
  wheel = ap suc (length-replicate {A = List Entry} 4095 []);
  some_worker = omega arith;
  keeps = record {
    vs = record no_tasks { inbox = 5 ∷ [] } ∷ [];
    gs = [];
    holds = one_inbox-Holds (6 ∷ []) (λ a. ground arith) refl;
    balance = λ a. refl;
  };
}

run-IsWhole_example :
    IsWhole
      (Thread.run (record { running = true; still_running = true; now = 30000000 } ∷ []) timer_run)
      []
      (λ a. total a (record no_tasks { inbox = 5 ∷ [] } ∷ []) [] (6 ∷ []))
run-IsWhole_example =
    run-IsWhole (record { running = true; still_running = true; now = 30000000 } ∷ []) timer_run
      timer_run-IsWhole
