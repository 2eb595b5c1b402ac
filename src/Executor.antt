-- ===== src/Executor.antt =====
-- include/ant_server/scheduler/executor.hpp: the state of `WorkStealingExecutor` and its scheduling
-- operations. A call runs alone here. `nthreads_` is the number of workers.
pub mod Held
pub mod Spill
pub mod Schedule
pub mod Choice
pub mod Size
pub mod Pool
pub mod Contract
use my_async_lib.Base.{
  ℕ, zero, suc, ◌+◌, ◌-◌, ◌%◌, Bool, true, false, not, ◌&&◌, List, [], ◌∷◌, ◌==◌, ltb, leb,
  if◌then◌else◌, length, get_or, set, last_or,
}
use my_async_lib.Base.Store.{Store, write}
use my_async_lib.Constants.{default_spmc_capacity}
use my_async_lib.Random.{fast_random}
use my_async_lib.Mpmc
use my_async_lib.Mpmc.{Queue}
use my_async_lib.Spmc
use my_async_lib.Spmc.{Spmc}

-- `WorkerState`; a worker's id is its index.
pub record Worker : Type 0 where
  pub lifo_slot : ℕ
  pub queue : Spmc
  pub inbox : ℕ
  pub tick : ℕ
  pub is_parked : Bool

-- `next` holds the `next` field of every task node.
pub record Executor : Type 0 where
  pub next : Store
  pub workers : List Worker
  pub global_queue : Queue
  pub running : Bool

-- The thread that calls: whether its `g_executor` is this executor, its `g_thread_id`, and the state
-- of its random numbers.
pub record Caller : Type 0 where
  pub same_executor : Bool
  pub thread_id : ℕ
  pub random : ℕ

unfoldable pub new_worker : Worker
new_worker = record {
  lifo_slot = 0;
  queue = Spmc.new default_spmc_capacity;
  inbox = 0;
  tick = 0;
  is_parked = false;
}

-- The worker at an index in range; `new_worker` stands for a read out of range.
abbrev pub worker : Executor → ℕ → Worker
worker s i = get_or s.workers i new_worker

abbrev pub set_worker : Executor → ℕ → Worker → Executor
set_worker s i w = record s { workers = set s.workers i w }

-- `push_inbox`. The exchange that succeeds finds the head that `task->next` was set to, whatever
-- other pushes came before it.
unfoldable pub push_inbox : Store → Worker → ℕ → Store × Worker
push_inbox m w task =
    if task == 0 then (m, w) else (write m task w.inbox, record w { inbox = task })

unfoldable pub pop_all_inbox : Worker → Worker × ℕ
pop_all_inbox w = if w.inbox == 0 then (w, 0) else (record w { inbox = 0 }, w.inbox)

unfoldable pub approximate_load : Worker → ℕ
approximate_load w =
    Spmc.size w.queue + (if w.lifo_slot == 0 then 0 else 1) + (if w.inbox == 0 then 0 else 2)

-- The signal on `park_cv` is not part of the state.
unfoldable pub unpark : Worker → Worker
unpark w = if w.is_parked then record w { is_parked = false } else w

unfoldable pub wake_first : List Worker → List Worker
wake_first [] = []
wake_first (w ∷ ws) = if w.is_parked then unpark w ∷ ws else w ∷ wake_first ws

unfoldable pub wake_any_worker : Executor → Executor
wake_any_worker s = record s { workers = wake_first s.workers }

-- `push_inbox` and `unpark` of one worker
unfoldable pub post : Executor → ℕ → ℕ → Executor
post s i task =
    let (m, w) = push_inbox s.next (worker s i) task in
    set_worker (record s { next = m }) i (unpark w)

-- `batch[i]->next = batch[i + 1]`, and the last one's is `task`
unfoldable pub link : Store → List ℕ → ℕ → Store
link m [] task = m
link m (x ∷ []) task = write m x task
link m (x ∷ y ∷ batch) task = link (write m x y) (y ∷ batch) task

unfoldable pub push_global : Executor → ℕ → Executor
push_global s task =
    let (m, g) = Mpmc.push s.next s.global_queue task in record s { next = m; global_queue = g }

-- The batch with `task` behind it goes to the global queue.
unfoldable pub offload : Executor → List ℕ → ℕ → Executor
offload s [] task = push_global s task
offload s (first ∷ batch) task =
    let (m, g) =
      Mpmc.push_batch (write (link s.next (first ∷ batch) task) task 0) s.global_queue first task in
    record s { next = m; global_queue = g }

-- The owner's own slot, then its deque, then half of the deque with the task to the global queue.
unfoldable pub schedule_local : Executor → ℕ → ℕ → Executor
schedule_local s task i =
    let w = worker s i in
    if w.lifo_slot == 0
    then set_worker s i (record w { lifo_slot = task })
    else (let (q, pushed) = Spmc.push default_spmc_capacity w.queue task in
        if pushed
        then set_worker s i (record w { queue = q })
        else (let (q', batch) = Spmc.take_half default_spmc_capacity q in
            wake_any_worker (offload (set_worker s i (record w { queue = q' })) batch task)))

-- `schedule(task, thread_id)`
unfoldable pub schedule_on : Executor → Caller → ℕ → ℕ → Executor
schedule_on s c task i =
    if task == 0
    then s
    else (if leb (length s.workers) i
        then wake_any_worker (push_global s task)
        else (if c.same_executor && (c.thread_id == i)
            then schedule_local s task i
            else post s i task))

-- The two workers that power-of-two-choices compares, from two random numbers.
unfoldable pub choices : ℕ → ℕ → ℕ → ℕ × ℕ
choices n r r' = let w1 = r % n in (w1, (w1 + 1 + r' % (n - 1)) % n)

unfoldable pub target : Executor → ℕ → ℕ → ℕ
target s r r' =
    let (w1, w2) = choices (length s.workers) r r' in
    if leb (approximate_load (worker s w1)) (approximate_load (worker s w2)) then w1 else w2

-- `schedule(task)`
unfoldable pub schedule : Executor → Caller → ℕ → Executor × Caller
schedule s c task =
    if task == 0
    then (s, c)
    else (if c.same_executor && ltb c.thread_id (length s.workers)
        then (schedule_on s c task c.thread_id, c)
        else (if length s.workers == 1
            then (post s 0 task, c)
            else (let r = fast_random c.random in
                let r' = fast_random r in (post s (target s r r') task, record c { random = r' }))))
