-- ===== src/Scheduler/System.antt =====
-- `Scheduler` (scheduler.hpp) with all its parts: construction, `Start` and `Stop`. Both end with a join
-- of the IO threads; which of these leave `IOLoop` is a parameter of the join, since it takes a
-- completion of their ring, and a join of one that does not leave it never returns.
use my_async_lib.Base.{
  ℕ, zero, suc, ◌-◌, Option, none, some, ◌&&◌, Bool, true, false, List, [], ◌∷◌, ◌++◌, ltb,
  if◌then◌else◌, ℤ,
}
use my_async_lib.Constants.{default_server_uring_size}
use my_async_lib.Context
use my_async_lib.Context.{Context, new_context}
use my_async_lib.Executor.Pool
use my_async_lib.Executor.Pool.{Pool, new_pool, AllAwake}
use my_async_lib.Io.{Cqe, io_loop}
use my_async_lib.Task.{ThreadLocals}
use my_async_lib.Timer.Thread
use my_async_lib.Timer.Thread.{Thread}

-- The keeper itself is modelled beside its thread; `io_threads` are those not joined.
pub record System : Type 0 where
  pub pool : Pool
  pub timer : Thread
  pub contexts : List Context
  pub io_threads : List ℕ
  pub running : Bool
  pub n_workers : ℕ
  pub n_io_threads : ℕ
  pub uring_size : ℕ

-- The loop of the constructor; `self` and `executor` are addresses.
unfoldable pub make_contexts : ℕ → ℕ → ℕ → ℕ → List Context
make_contexts zero size self executor = []
make_contexts (suc n) size self executor =
    new_context size self executor ∷ make_contexts n size self executor

unfoldable pub new_system : ℕ → ℕ → ℕ → ℕ → ℕ → System
unfolding make_contexts
new_system n_workers n_io_threads uring_size self executor = record {
  pool = Pool.set_scheduler (new_pool n_workers) self;
  timer = Thread.new_thread;
  contexts = make_contexts n_io_threads uring_size self executor;
  io_threads = [];
  running = false;
  n_workers = n_workers;
  n_io_threads = n_io_threads;
  uring_size = uring_size;
}

-- The default constructor, by `hardware_concurrency()`.
unfoldable pub default_system : ℕ → ℕ → ℕ → System
default_system hardware self executor =
    new_system (if ltb 2 hardware then hardware - 2 else 1) (if ltb 2 hardware then 2 else 1)
      default_server_uring_size self executor

abbrev pub num_workers : System → ℕ
num_workers s = s.n_workers

abbrev pub num_io_threads : System → ℕ
num_io_threads s = s.n_io_threads

-- The variables of an IO thread, and its loop.
abbrev pub io_locals : ℕ → ℕ → ℕ → ℕ → ThreadLocals
io_locals io_id context executor self = record {
  executor = executor;
  scheduler = self;
  thread_id = io_id;
  local_context = context;
}

module _ {S : Type 0} (complete : ℕ → ℤ → ℕ → S → S) (is_running : S → Bool) where
  abbrev pub run_io : ℤ → List (ℤ × List Cqe) → S → S × Bool
  run_io = io_loop complete is_running

  -- `IOLoop`: the variables first, then the loop.
  abbrev pub io_thread : ℕ → ℕ → ℕ → ℕ → ℤ → List (ℤ × List Cqe) → S → ThreadLocals × (S × Bool)
  io_thread io_id context executor self eintr waits s =
      (io_locals io_id context executor self, run_io eintr waits s)

-- `Start` up to its join.
unfoldable pub launch : System → System
launch s = record s {
  running = true;
  timer = Thread.start s.timer;
  pool = Pool.start s.pool;
  io_threads = s.io_threads ++ Pool.start_threads s.n_io_threads 0;
}

-- Whether all threads leave `IOLoop`.
unfoldable pub all_leave : (ℕ → Bool) → List ℕ → Bool
all_leave leaves [] = true
all_leave leaves (i ∷ is) = leaves i && all_leave leaves is

-- The loop that joins the IO threads; `none` if it does not return.
unfoldable pub join_io : (ℕ → Bool) → System → Option System
unfolding all_leave
join_io leaves s =
    if all_leave leaves s.io_threads then some (record s { io_threads = [] }) else none

unfoldable pub start : (ℕ → Bool) → System → Option System
unfolding launch join_io
start leaves s = join_io leaves (launch s)

-- `GetTimerKeeper`
abbrev pub get_timer_keeper : System → Thread
get_timer_keeper s = s.timer

-- `free` says which rings have an entry for the wake-up; the contexts are counted from `i`.
unfoldable pub stop_contexts : (ℕ → Bool) → ℕ → List Context → List Context
stop_contexts free i [] = []
stop_contexts free i (c ∷ cs) = Context.stop (free i) c ∷ stop_contexts free (suc i) cs

-- `Stop` of a running scheduler up to its join.
unfoldable pub shut_down : (ℕ → Bool) → System → System
unfolding stop_contexts
shut_down free s = record s {
  running = false;
  contexts = stop_contexts free 0 s.contexts;
  timer = Thread.stop s.timer;
  pool = Pool.stop s.pool;
}

unfoldable pub stop : (ℕ → Bool) → (ℕ → Bool) → System → Option System
unfolding shut_down join_io
stop free leaves s = if s.running then join_io leaves (shut_down free s) else some s

-- `~Scheduler`
abbrev pub destroy_system : (ℕ → Bool) → (ℕ → Bool) → System → Option System
destroy_system free leaves s = stop free leaves s
