-- ===== src/Scheduler.antt =====
-- include/ant_server/scheduler/scheduler.hpp: the choice of an IO context. The contexts are known by
-- their index; `next_io_idx_` is a 64-bit counter. A task that is scheduled goes to the executor.
pub mod RoundRobin
pub mod IoThread
pub mod System
pub mod Stopping
use my_async_lib.Base.{ℕ, ◌+◌, ◌-◌, ◌%◌, ◌^◌, leb, if◌then◌else◌, ℤ, pos, negsuc}
use my_async_lib.Executor
use my_async_lib.Executor.{Executor, Caller}

pub record Scheduler : Type 0 where
  pub worker_executor : Executor
  pub n_io_threads : ℕ
  pub next_io_idx : ℕ

-- An index out of range stands for context 0.
unfoldable pub get_io_context : Scheduler → ℕ → ℕ
get_io_context s index = if leb s.n_io_threads index then 0 else index

-- `fetch_add` returns the counter before, and the counter wraps round.
unfoldable pub get_next_io_context : Scheduler → Scheduler × ℕ
get_next_io_context s =
    (record s { next_io_idx = (s.next_io_idx + 1) % 2 ^ 64 }, s.next_io_idx % s.n_io_threads)

-- `Scheduler::schedule(task)`
unfoldable pub delegate : Scheduler → Caller → ℕ → Scheduler × Caller
delegate s c task =
    let (e, c') = Executor.schedule s.worker_executor c task in
    (record s { worker_executor = e }, c')

-- `schedule` with a `size_t` and with an `int`, which is converted and wraps round.
unfoldable pub delegate_on : Scheduler → Caller → ℕ → ℕ → Scheduler
delegate_on s c task thread_id = record s {
  worker_executor = Executor.schedule_on s.worker_executor c task thread_id;
}

abbrev pub to_size : ℤ → ℕ
to_size (pos n) = n
to_size (negsuc n) = 2 ^ 64 - 1 - n

unfoldable pub delegate_int : Scheduler → Caller → ℕ → ℤ → Scheduler
unfolding delegate_on
delegate_int s c task thread_id = delegate_on s c task (to_size thread_id)

-- `GetExecutor` and `GetWorkerExecutor`
abbrev pub get_worker_executor : Scheduler → Executor
get_worker_executor s = s.worker_executor
