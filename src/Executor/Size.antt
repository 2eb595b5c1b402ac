-- ===== src/Executor/Size.antt =====
-- The number of workers under `schedule` (executor.hpp).
use my_async_lib.Base.{ℕ, ◌≡◌, refl, List, [], ◌∷◌, length, length-set, arith}
use my_async_lib.Constants.{default_spmc_capacity}
use my_async_lib.Random.{fast_random}
use my_async_lib.Spmc
use my_async_lib.Spmc.{Spmc}
use my_async_lib.Executor.{
  target, Worker, Executor, Caller, worker, set_worker, wake_first, wake_any_worker, post,
  push_global, offload, schedule_local, schedule_on, schedule,
}

length-wake_first : (ws : List Worker) → length (wake_first ws) ≡ length ws
unfolding wake_first
length-wake_first [] = refl
length-wake_first (w ∷ ws) = ground (arith, length-wake_first ws)

length-wake_any_worker : (s : Executor) → length (wake_any_worker s).workers ≡ length s.workers
unfolding wake_any_worker
length-wake_any_worker s = length-wake_first s.workers

length-offload :
    (s : Executor) (batch : List ℕ) (t : ℕ) → length (offload s batch t).workers ≡ length s.workers
unfolding offload push_global
length-offload s [] t = refl
length-offload s (x ∷ batch) t = refl

length-post : (s : Executor) (i t : ℕ) → length (post s i t).workers ≡ length s.workers
unfolding post
length-post s i t = length-set s.workers i _

length-schedule_local :
    (s : Executor) (t i : ℕ) → length (schedule_local s t i).workers ≡ length s.workers
unfolding schedule_local
length-schedule_local s t i = ground (
  arith,
  length-set s.workers i (record w { lifo_slot = t }),
  length-set s.workers i (record w { queue = pushed }),
  length-set s.workers i (record w { queue = halved.0 }),
  length-offload spilled halved.1 t,
  length-wake_any_worker (offload spilled halved.1 t),
)
  where
    w : Worker
    w = worker s i

    pushed : Spmc
    pushed = (Spmc.push default_spmc_capacity w.queue t).0

    halved : Spmc × List ℕ
    halved = Spmc.take_half default_spmc_capacity pushed

    spilled : Executor
    spilled = set_worker s i (record w { queue = halved.0 })

length-schedule_on :
    (s : Executor) (c : Caller) (t i : ℕ) → length (schedule_on s c t i).workers ≡ length s.workers
unfolding schedule_on push_global
length-schedule_on s c t i = ground (
  arith,
  length-wake_any_worker (push_global s t),
  length-schedule_local s t i,
  length-post s i t,
)

pub length-schedule :
    (s : Executor) (c : Caller) (t : ℕ) → length (schedule s c t).0.workers ≡ length s.workers
unfolding schedule
length-schedule s c t = ground (
  arith,
  length-schedule_on s c t c.thread_id,
  length-post s 0 t,
  length-post s (target s (fast_random c.random) (fast_random (fast_random c.random))) t,
)
