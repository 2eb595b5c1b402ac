-- ===== src/Awaiter/Hop.antt =====
-- include/ant_server/awaiter/resume_on.hpp: the awaiter that hops to an executor. `task_` is a task
-- node known by its address.
use my_async_lib.Base.{ℕ, ◌-◌, ◌^◌, Bool, false, ◌==◌, if◌then◌else◌}
use my_async_lib.Executor.{Executor, Caller, schedule, schedule_on}
use my_async_lib.Task.{TaskNode, coro_task, init}

abbrev pub any_worker_thread : ℕ
any_worker_thread = 2 ^ 64 - 1

-- `ResumeOnAwaiter`; the executor is an address.
pub record ResumeOn : Type 0 where
  pub executor : ℕ
  pub target_thread_id : ℕ
  pub task : TaskNode

abbrev pub resume_on_awaiter : ℕ → ℕ → ResumeOn
resume_on_awaiter executor target_thread_id = record {
  executor = executor;
  target_thread_id = target_thread_id;
  task = coro_task;
}

-- The helper `resume_on`, without and with a thread.
abbrev pub resume_on_any : ℕ → ResumeOn
resume_on_any executor = resume_on_awaiter executor any_worker_thread

abbrev pub hop_ready : Bool
hop_ready = false

-- `await_suspend` initialises the task, and schedules it.
abbrev pub hop_init : ResumeOn → ℕ → ResumeOn
hop_init r h = record r { task = init r.task h }

-- `ResumeOnAwaiter::await_suspend`
unfoldable pub resume_on : Executor → Caller → ℕ → ℕ → Executor × Caller
resume_on s c task target_thread_id =
    if target_thread_id == any_worker_thread
    then schedule s c task
    else (schedule_on s c task target_thread_id, c)
