-- ===== src/WorkerLoop/Priority.antt =====
-- The first step of a round in `WorkerLoop` (executor.hpp): the look into the global queue every 61
-- ticks.
use my_async_lib.Base.{
  ℕ, ◌+◌, ◌%◌, ◌<◌, ◌≡◌, refl, List, ◌∷◌, length, get_or-set_self, ==_of_eq, ==_of_ne, some,
}
use my_async_lib.Constants.{global_check_interval}
use my_async_lib.Mpmc
use my_async_lib.Mpmc.Fifo.{IsQueue, pop-Popped, Popped}
use my_async_lib.Executor.{Executor, worker, new_worker}
use my_async_lib.WorkerLoop.{poll_global, ticked, poll_first, next_task}

module _ (s : Executor) {x : ℕ} {gs : List ℕ} (is : IsQueue s.next s.global_queue (x ∷ gs)) where
  abbrev popped : Popped s.next (x ∷ gs) (Mpmc.pop s.next s.global_queue)
  popped = pop-Popped s.next s.global_queue (x ∷ gs) is

  poll_first_due :
      (i : ℕ)
      → (worker s i).tick % global_check_interval ≡ 0
      → poll_first s i ≡ ((poll_global s).0, x)
  unfolding poll_first poll_global
  poll_first_due i due = rw (
    ==_of_eq ((worker s i).tick % global_check_interval) 0 due,
    popped.1,
    ==_of_ne x 0 is.chain.1,
  )

-- In a round whose tick is a multiple of 61 and in which the global queue is not empty, a worker
-- takes the oldest task of the global queue, for any fuel; the workers change by the tick alone,
-- and the queue keeps the other tasks.
pub next_task-global :
    (s : Executor) {x : ℕ} {gs : List ℕ} (fuel i random : ℕ)
    → i < length s.workers
    → IsQueue s.next s.global_queue (x ∷ gs)
    → ((worker s i).tick + 1) % global_check_interval ≡ 0
    → (s' : Executor) × (next_task fuel s i random ≡ some ((s', x), random))
      × (s'.workers ≡ (ticked s i).workers)
      × IsQueue s'.next s'.global_queue gs
unfolding next_task
next_task-global s {x} {gs} fuel i random inside is due = (
  (poll_global (ticked s i)).0,
  rw (poll_first_due (ticked s i) is i tick_due, ==_of_ne x 0 is.chain.1),
  workers_kept,
  queue_left,
)
  where
    tick_due : (worker (ticked s i) i).tick % global_check_interval ≡ 0
    tick_due = rw (get_or-set_self s.workers i _ new_worker inside) due

    workers_kept : (poll_global (ticked s i)).0.workers ≡ (ticked s i).workers
    workers_kept = unfold poll_global in refl

    queue_left :
        IsQueue (poll_global (ticked s i)).0.next (poll_global (ticked s i)).0.global_queue gs
    queue_left = unfold poll_global in (popped (ticked s i) is).0
