-- ===== src/WorkerLoop/Loop.antt =====
-- `WorkerLoop` of executor.hpp whole: the searches of a worker, the tasks that it runs, and its pauses,
-- yields and waits. What a task does when it runs is not modelled: that it runs is noted.
use my_async_lib.Base.{ℕ, Bool, List, [], ◌∷◌, ◌==◌, if◌then◌else◌, Option, none, some}
use my_async_lib.Executor.{Executor, Worker, worker, set_worker}
use my_async_lib.Executor.Pool.{Wake, park_and_wait}
use my_async_lib.WorkerLoop.{Found, next_task, Backoff, pause, yield, park, backoff}

-- A worker's state between two rounds: what it works on, its random numbers, `empty_spins`, and the
-- tasks that it has run, last one first.
pub record Loop : Type 0 where
  pub executor : Executor
  pub random : ℕ
  pub empty_spins : ℕ
  pub ran : List ℕ

-- What a round meets: `running_` at its head and if it parks, and then the waits of `park_cv`, which
-- depend on the worker that parks.
pub record Turn : Type 0 where
  pub running : Bool
  pub still_running : Bool
  pub wakes : Worker → List Wake

abbrev pub with_worker : Executor → ℕ → Option Worker → Option Executor
with_worker s i none = none
with_worker s i (some w) = some (set_worker s i w)

-- What an idle round leaves of the executor; `none` while the worker still waits.
unfoldable pub rest : Backoff → Turn → Executor → ℕ → Option Executor
rest pause t s i = some s
rest yield t s i = some s
rest park t s i =
    with_worker s i (park_and_wait (t.wakes (worker s i)) t.still_running (worker s i))

abbrev pub rested : Loop → ℕ → ℕ → Option Executor → Option Loop
rested l random spins none = none
rested l random spins (some s) =
    some (record l { executor = s; random = random; empty_spins = spins })

-- Step 7
unfoldable pub act : Turn → ℕ → Loop → Option (Found × ℕ) → Option Loop
unfolding rest
act t i l none = none
act t i l (some ((s, task), random)) =
    let (idle, spins) = backoff l.empty_spins in
    if task == 0
    then rested l random spins (rest idle t s i)
    else some (record { executor = s; random = random; empty_spins = 0; ran = task ∷ l.ran })

unfoldable pub round : ℕ → Turn → ℕ → Loop → Option Loop
unfolding act
round fuel t i l = act t i l (next_task fuel l.executor i l.random)

abbrev pub then_loop : Option Loop → (Loop → Option Loop) → Option Loop
then_loop none f = none
then_loop (some l) f = f l

-- The loop, for the turns of the list; `fuel` is for the tasks in an inbox.
unfoldable pub worker_loop : ℕ → ℕ → List Turn → Loop → Option Loop
unfolding round
worker_loop fuel i [] l = some l
worker_loop fuel i (t ∷ turns) l =
    let after = then_loop (round fuel t i l) (worker_loop fuel i turns) in
    if t.running then after else some l
