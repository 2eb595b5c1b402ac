-- ===== src/Executor/Pool.antt =====
-- `WorkStealingExecutor` (executor.hpp) as a pool of threads: its construction, `Start`, `Stop`, and
-- the waiting of a worker in `park_and_wait`. A join waits for the end of `WorkerLoop`, which comes with
-- the next test of `running_`.
use my_async_lib.Base.{
  ℕ, zero, suc, ◌+◌, ◌≡◌, ◌≢◌, refl, ap, ◌∙◌, Bool, true, false, ◌&&◌, List, [], ◌∷◌, ◌++◌, arith,
  ◌==◌, leb, if◌then◌else◌, length, replicate, Option, none, some, if_ind, inl, inr, ◌⊎◌,
}
use my_async_lib.Mpmc.{empty_queue}
use my_async_lib.Executor.{Worker, Executor, new_worker, unpark}
use my_async_lib.Task.{ThreadLocals}

-- The executor with the ids of the workers whose threads were started and not joined. Addresses of
-- the executor itself and of the scheduler are for the variables of its threads.
pub record Pool : Type 0 where
  pub executor : Executor
  pub threads : List ℕ
  pub nthreads : ℕ
  pub scheduler : ℕ

-- `max(1, hardware_concurrency())`, the default size
abbrev pub default_size : ℕ → ℕ
default_size hardware = if leb hardware 1 then 1 else hardware

unfoldable pub new_pool : ℕ → Pool
new_pool nthreads = record {
  executor = record {
    next = λ a. 0;
    workers = replicate nthreads new_worker;
    global_queue = empty_queue;
    running = false;
  };
  threads = [];
  nthreads = nthreads;
  scheduler = 0;
}

abbrev pub set_scheduler : Pool → ℕ → Pool
set_scheduler p scheduler = record p { scheduler = scheduler }

abbrev pub num_workers : Pool → ℕ
num_workers p = p.nthreads

-- The loop of `Start`, from the rounds left.
unfoldable pub start_threads : ℕ → ℕ → List ℕ
start_threads zero i = []
start_threads (suc n) i = i ∷ start_threads n (i + 1)

unfoldable pub start : Pool → Pool
unfolding start_threads
start p = record p {
  executor = record p.executor { running = true };
  threads = p.threads ++ start_threads p.nthreads 0;
}

unfoldable pub unpark_all : List Worker → List Worker
unpark_all [] = []
unpark_all (w ∷ ws) = unpark w ∷ unpark_all ws

unfoldable pub stop : Pool → Pool
unfolding unpark_all
stop p =
    if p.executor.running
    then record p {
      executor = record p.executor { running = false; workers = unpark_all p.executor.workers };
      threads = [];
    }
    else p

-- `~WorkStealingExecutor`
abbrev pub destroy_pool : Pool → Pool
destroy_pool p = stop p

-- The variables of a worker's thread, as `WorkerLoop` sets them.
abbrev pub worker_locals : Pool → ℕ → ℕ → ThreadLocals
worker_locals p self thread_id = record {
  executor = self;
  scheduler = p.scheduler;
  thread_id = thread_id;
  local_context = 0;
}

-- What a wait on `park_cv` ends with: whether it timed out, `running_`, and the worker's state, both
-- as other threads have left them.
pub record Wake : Type 0 where
  pub timed_out : Bool
  pub running : Bool
  pub worker : Worker

abbrev pub unparked : Worker → Worker
unparked w = record w { is_parked = false }

-- The loop of `park_and_wait`, for the waits of the list; `none` while it still waits.
unfoldable pub park_loop : List Wake → Bool → Worker → Option Worker
park_loop [] running w = if running && w.is_parked && w.inbox == 0 then none else some (unparked w)
park_loop (e ∷ wakes) running w =
    let rest = park_loop wakes e.running e.worker in
    let woken = if e.timed_out then some (unparked e.worker) else rest in
    if running && w.is_parked && w.inbox == 0 then woken else some (unparked w)

unfoldable pub park_and_wait : List Wake → Bool → Worker → Option Worker
unfolding park_loop
park_and_wait wakes running w =
    let rest = park_loop wakes running (record w { is_parked = true }) in
    if running then rest else some w

-- What ends a wait: time, a stop, an unpark, or a task in the inbox.
abbrev pub Ends : Wake → Type 0
Ends e =
    (e.timed_out ≡ true) ⊎ (e.running ≡ false) ⊎ (e.worker.is_parked ≡ false) ⊎ (e.worker.inbox ≢ 0)

-- Waits that end for no reason.
abbrev pub Spurious : List Wake → Type 0
Spurious [] = Unit {0}
Spurious (e ∷ es) =
    (e.timed_out ≡ false)
    × (e.running ≡ true)
    × (e.worker.is_parked ≡ true)
    × (e.worker.inbox ≡ 0)
    × Spurious es

-- A test of the loop that fails ends it.
tested :
    (wakes : List Wake) (running : Bool) (w : Worker)
    → (running && w.is_parked && w.inbox == 0) ≡ false
    → park_loop wakes running w ≡ some (unparked w)
unfolding park_loop
tested [] running w e = rw e (refl)
tested (d ∷ wakes) running w e = rw e (refl)

test_fails :
    (e : Wake)
    → (e.running ≡ false) ⊎ (e.worker.is_parked ≡ false) ⊎ (e.worker.inbox ≢ 0)
    → (e.running && e.worker.is_parked && e.worker.inbox == 0) ≡ false
test_fails e h = ground arith

other_reason :
    (e : Wake)
    → Ends e
    → e.timed_out ≡ false
    → (e.running ≡ false) ⊎ (e.worker.is_parked ≡ false) ⊎ (e.worker.inbox ≢ 0)
other_reason e (inl timed) open_ended = cc
other_reason e (inr reason) open_ended = reason

-- From a worker that waits, the next wait that ends ends the loop.
park_loop-Ends :
    (e : Wake) (wakes : List Wake) (w : Worker)
    → w.is_parked ≡ true
    → w.inbox ≡ 0
    → Ends e
    → park_loop (e ∷ wakes) true w ≡ some (unparked e.worker)
unfolding park_loop
park_loop-Ends e wakes w p empty h =
    rw (p, empty)
      (if_ind (λ (o : Option Worker). o ≡ some (unparked e.worker)) e.timed_out (λ _. refl)
        (λ open_ended.
          tested wakes e.running e.worker (test_fails e (other_reason e h open_ended))))

-- Waits that end for no reason leave the worker waiting.
park_loop-append :
    (spurious : List Wake) (e : Wake) (wakes : List Wake) (w : Worker)
    → w.is_parked ≡ true
    → w.inbox ≡ 0
    → Spurious spurious
    → Ends e
    → park_loop (spurious ++ e ∷ wakes) true w ≡ some (unparked e.worker)
unfolding park_loop
park_loop-append [] e wakes w p empty h ends = park_loop-Ends e wakes w p empty ends
park_loop-append (d ∷ ds) e wakes w p empty (timed, running, parked, d_empty, h) ends =
    rw (p, empty, timed, running) (park_loop-append ds e wakes d.worker parked d_empty h ends)

park_loop-none :
    (spurious : List Wake) (w : Worker)
    → w.is_parked ≡ true
    → w.inbox ≡ 0
    → Spurious spurious
    → park_loop spurious true w ≡ none
unfolding park_loop
park_loop-none [] w p empty h = rw (p, empty) (refl)
park_loop-none (d ∷ ds) w p empty (timed, running, parked, d_empty, h) =
    rw (p, empty, timed, running) (park_loop-none ds d.worker parked d_empty h)

-- A worker with an empty inbox that parks while the executor runs waits through any waits that end
-- for no reason; it returns after the first wait of which one of these holds: it timed out, the
-- executor stopped, the worker was unparked, or a task lies in its inbox. It is then as that wait
-- found it, but not marked as parked.
pub park_and_wait-Ends :
    (spurious : List Wake) (e : Wake) (wakes : List Wake) (w : Worker)
    → w.inbox ≡ 0
    → Spurious spurious
    → Ends e
    → (park_and_wait spurious true w ≡ none)
      × (park_and_wait (spurious ++ e ∷ wakes) true w
          ≡ some (record e.worker { is_parked = false }))
unfolding park_and_wait
park_and_wait-Ends spurious e wakes w empty h ends = (
  park_loop-none spurious (record w { is_parked = true }) refl empty h,
  park_loop-append spurious e wakes (record w { is_parked = true }) refl empty h ends,
)

-- Each worker is started once, in order.
length-start_threads : (n i : ℕ) → length (start_threads n i) ≡ n
unfolding start_threads
length-start_threads zero i = refl
length-start_threads (suc n) i = ap suc (length-start_threads n (i + 1))

abbrev pub AllAwake : List Worker → Type 0
AllAwake [] = Unit {0}
AllAwake (w ∷ ws) = (w.is_parked ≡ false) × AllAwake ws

unpark-awake : (w : Worker) → (unpark w).is_parked ≡ false
unfolding unpark
unpark-awake w = if_ind (λ (u : Worker). u.is_parked ≡ false) w.is_parked (λ _. refl) (λ e. e)

pub unpark_all-AllAwake : (ws : List Worker) → AllAwake (unpark_all ws)
unfolding unpark_all
unpark_all-AllAwake [] = tt
unpark_all-AllAwake (w ∷ ws) = (unpark-awake w, unpark_all-AllAwake ws)

pub stop-start :
    (p : Pool)
    → p.threads ≡ []
    → (length (start p).threads ≡ p.nthreads)
      × ((stop (start p)).threads ≡ [])
      × ((stop (start p)).executor.running ≡ false)
      × AllAwake (stop (start p)).executor.workers
      × (stop (stop (start p)) ≡ stop (start p))
unfolding start stop
stop-start p e = (
  ap (λ ts. length (ts ++ start_threads p.nthreads 0)) e ∙ length-start_threads p.nthreads 0,
  refl,
  refl,
  unpark_all-AllAwake p.executor.workers,
  refl,
)
