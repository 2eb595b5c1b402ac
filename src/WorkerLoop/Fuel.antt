-- ===== src/WorkerLoop/Fuel.antt =====
-- The inbox of a worker in the steps of `WorkerLoop` (executor.hpp) that come before it.
use my_async_lib.Base.{
  ℕ, ◌+◌, ◌%◌, ◌<◌, ◌≡◌, length-set, List, [], ◌∷◌, arith, ◌==◌, length, get_or, get_or-set_self,
  if_ind,
}
use my_async_lib.Base.Store.{Store, Chain, frame}
use my_async_lib.Constants.{global_check_interval}
use my_async_lib.Mpmc
use my_async_lib.Mpmc.Fifo.{pop-Popped, Popped}
use my_async_lib.Executor.{Executor, worker, new_worker}
use my_async_lib.Executor.Held.{View, no_tasks, load, Holds, AllWorkers-get, weight-le-load}
use my_async_lib.WorkerLoop.{Found, or_else, poll_global, poll_slot, poll_first, ticked}

-- Taking a task of the global queue writes no field of another task.
popped_spares :
    {s : Executor} {vs : List View} (gs : List ℕ) {hand : List ℕ} (r : Store × Mpmc.Queue × ℕ)
    → Holds s vs gs hand
    → Popped s.next gs r
    → (a : ℕ) → 0 < load a vs
    → r.0 a ≡ s.next a
popped_spares [] r h p a held = p.2 a
popped_spares (x ∷ gs) r h p a held = p.3 a (λ e. ground (arith, h.once a))

-- The inbox of worker `i` holds `xs`.
abbrev InboxHolds : ℕ → List ℕ → Executor → Type 0
InboxHolds i xs s = (i < length s.workers) × Chain s.next (worker s i).inbox xs

poll_slot-inbox :
    (i : ℕ) (xs : List ℕ) (s : Executor)
    → InboxHolds i xs s
    → Chain (poll_slot s i).0.next (worker (poll_slot s i).0 i).inbox xs
unfolding poll_slot
poll_slot-inbox i xs s c =
    rw (get_or-set_self s.workers i (record (worker s i) { lifo_slot = 0 }) new_worker c.0) c.1

slot_next-inbox :
    (i : ℕ) (xs : List ℕ) (r : Found)
    → InboxHolds i xs r.0
    → let s = (or_else r (λ s'. poll_slot s' i)).0 in Chain s.next (worker s i).inbox xs
slot_next-inbox i xs (s, task) c =
    if_ind (λ (r : Found). Chain r.0.next (worker r.0 i).inbox xs) (task == 0)
      (λ _. poll_slot-inbox i xs s c) (λ _. c.1)

module _ {s : Executor} {vs : List View} {gs hand : List ℕ} (h : Holds s vs gs hand) (i : ℕ)
    (inside : i < length s.workers) where
  abbrev own : List ℕ
  own = (get_or vs i no_tasks).inbox

  own-Chain : Chain s.next (worker s i).inbox own
  own-Chain = (AllWorkers-get s.next s.workers vs i h.workers).inbox

  ticked-inbox : InboxHolds i own (ticked s i)
  ticked-inbox = (
    omega (arith, length-set s.workers i (record (worker s i) { tick = (worker s i).tick + 1 })),
    rw
        (get_or-set_self s.workers i (record (worker s i) { tick = (worker s i).tick + 1 })
          new_worker inside)
        own-Chain,
  )

  popped-inbox : InboxHolds i own (poll_global (ticked s i)).0
  unfolding poll_global
  popped-inbox = (
    ticked-inbox.0,
    frame s.next _ 0 _ own ticked-inbox.1 (λ a l.
        popped_spares gs _ h (pop-Popped s.next s.global_queue gs h.global) a
          (omega (arith, weight-le-load a vs i))),
  )

  pub poll_first-inbox :
      let s' = (poll_first (ticked s i) i).0 in Chain s'.next (worker s' i).inbox own
  unfolding poll_first
  poll_first-inbox = slot_next-inbox i own _ (
      if_ind (λ (r : Found). InboxHolds i own r.0)
        ((worker (ticked s i) i).tick % global_check_interval == 0) (λ _. popped-inbox)
        (λ _. ticked-inbox))
