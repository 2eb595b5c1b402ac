-- ===== src/Scheduler/Stopping.antt =====
-- `Stop` of a `Scheduler` (scheduler.hpp) after any steps of `Start` and `Stop`.
use my_async_lib.Base.{
  ℕ, ◌≡◌, refl, Option, none, some, Bool, true, false, List, [], ◌∷◌, if◌then◌else◌,
}
use my_async_lib.Context
use my_async_lib.Context.{Context, new_context}
use my_async_lib.Executor.Pool
use my_async_lib.Executor.Pool.{Pool, new_pool, AllAwake}
use my_async_lib.Timer.Thread
use my_async_lib.Timer.Thread.{Thread}
use my_async_lib.Scheduler.System.{System, new_system, launch, all_leave, join_io, shut_down, stop}

abbrev pub AllStopped : List Context → Type 0
AllStopped [] = Unit {0}
AllStopped (c ∷ cs) = (c.running ≡ false) × AllStopped cs

-- No thread is left, and no part runs.
pub record IsDown (s : System) : Type 0 where
  pub running : s.running ≡ false
  pub timer : s.timer.running ≡ false
  pub timer_joined : s.timer.joinable ≡ false
  pub pool : s.pool.executor.running ≡ false
  pub workers_joined : s.pool.threads ≡ []
  pub workers_awake : AllAwake s.pool.executor.workers
  pub contexts : AllStopped s.contexts
  pub io_joined : s.io_threads ≡ []

-- Between calls the timer has a thread exactly while it runs, and nothing runs that is not started.
pub record IsSystem (s : System) : Type 0 where
  pub timer : s.timer.joinable ≡ s.timer.running
  pub timer_up : s.timer.running ≡ s.running
  pub pool_up : s.pool.executor.running ≡ s.running

pub new_system-IsSystem :
    (n_workers n_io_threads size self executor : ℕ)
    → IsSystem (new_system n_workers n_io_threads size self executor)
unfolding new_system new_pool
new_system-IsSystem n_workers n_io_threads size self executor = record {
  timer = refl;
  timer_up = refl;
  pool_up = refl;
}

-- What `Stop` comes to: it waits for ever if some IO thread does not leave `IOLoop`, and otherwise
-- returns with all down, and another `Stop` returns at once.
abbrev pub Stops : (ℕ → Bool) → (ℕ → Bool) → List ℕ → Option System → Type 0
Stops free leaves threads none = all_leave leaves threads ≡ false
Stops free leaves threads (some s) =
    (all_leave leaves threads ≡ true) × IsDown s × (stop free leaves s ≡ some s)

-- The steps that calls of `Start` and `Stop` take, which may overlap: both join, each in its order.
pub data Step : Type 0 where
  launches : Step
  shuts_down : (ℕ → Bool) → Step
  joins : (ℕ → Bool) → Step

abbrev pub after_step : Step → System → Option System
after_step launches s = some (launch s)
after_step (shuts_down free) s = some (if s.running then shut_down free s else s)
after_step (joins leaves) s = join_io leaves s

abbrev pub then_more : (System → Option System) → Option System → Option System
then_more rest none = none
then_more rest (some s) = rest s

unfoldable pub after_steps : List Step → System → Option System
after_steps [] s = some s
after_steps (x ∷ xs) s = then_more (after_steps xs) (after_step x s)
