-- ===== src/WorkerLoop.antt =====
-- include/ant_server/scheduler/executor.hpp: `WorkerLoop`, how a worker finds its next task, and
-- `steal_task`. One round of the loop runs alone here. The walk over the inbox runs on fuel, and
-- `none` means that the fuel ran out.
pub mod Loop
pub mod Whole
pub mod Poll
pub mod Steal
pub mod Inbox
pub mod Fuel
pub mod Round
pub mod Priority
pub mod Missed
pub mod Deques
pub mod Idle
use my_async_lib.Base.{
  ℕ, zero, suc, ◌+◌, ◌-◌, ◌%◌, Bool, true, false, not, ◌&&◌, List, [], ◌∷◌, ◌==◌, ltb, leb,
  if◌then◌else◌, length, get_or, set, Option, none, some,
}
use my_async_lib.Base.Store.{Store, write}
use my_async_lib.Constants.{default_spmc_capacity, global_check_interval}
use my_async_lib.Random.{fast_random}
use my_async_lib.Mpmc
use my_async_lib.Spmc
use my_async_lib.Executor.{
  Worker, Executor, new_worker, worker, set_worker, pop_all_inbox, push_global,
}

-- What a step of the search leaves: the executor, and the task found (0 if none).
abbrev pub Found : Type 0
Found = Executor × ℕ

-- `if (!task) { ... }`
abbrev pub or_else : Found → (Executor → Found) → Found
or_else (s, task) next = if task == 0 then next s else (s, task)

unfoldable pub poll_global : Executor → Found
poll_global s =
    let (m, g, task) = Mpmc.pop s.next s.global_queue in
    (record s { next = m; global_queue = g }, task)

unfoldable pub poll_slot : Executor → ℕ → Found
poll_slot s i = let w = worker s i in (set_worker s i (record w { lifo_slot = 0 }), w.lifo_slot)

unfoldable pub poll_local : Executor → ℕ → Found
poll_local s i =
    let w = worker s i in
    let (q, task) = Spmc.try_pop default_spmc_capacity w.queue in
    (set_worker s i (record w { queue = q }), task)

-- A task goes to the worker's deque, or to the global queue if that is full.
unfoldable pub push_or_spill : Executor → ℕ → ℕ → Executor
push_or_spill s i task =
    let (q, pushed) = Spmc.push default_spmc_capacity (worker s i).queue task in
    if pushed then set_worker s i (record (worker s i) { queue = q }) else push_global s task

-- `while (curr) { ... }`
unfoldable pub drain : ℕ → Executor → ℕ → ℕ → Option Executor
drain zero s i curr = none
drain (suc fuel) s i curr =
    let rest =
      drain fuel (push_or_spill (record s { next = write s.next curr 0 }) i curr) i (s.next curr) in
    if curr == 0 then some s else rest

abbrev pub after_drain : Option Executor → ℕ → Option Found
after_drain none first = none
after_drain (some s) first = some (s, first)

-- The newest task of the inbox is taken, the others go to the deque.
unfoldable pub poll_inbox : ℕ → Executor → ℕ → Option Found
poll_inbox fuel s i =
    let (w, first) = pop_all_inbox (worker s i) in
    let s' = set_worker s i w in
    if first == 0
    then some (s', 0)
    else after_drain (drain fuel (record s' { next = write s'.next first 0 }) i (s'.next first))
        first

unfoldable pub push_all : Executor → ℕ → List ℕ → Executor
push_all s i [] = s
push_all s i (task ∷ batch) = push_all (push_or_spill s i task) i batch

-- The batch taken from a victim whose deque is left as `q`: the first task to run, the others to the
-- thief's deque; without a batch, a single steal.
unfoldable pub take_loot : Executor → ℕ → ℕ → Spmc.Spmc → List ℕ → Found
take_loot s thief victim q [] =
    let (q', task) = Spmc.steal default_spmc_capacity false q in
    (set_worker s victim (record (worker s victim) { queue = q' }), task)
take_loot s thief victim q (task ∷ batch) =
    (push_all (set_worker s victim (record (worker s victim) { queue = q })) thief batch, task)

-- One victim loses half of its deque.
unfoldable pub rob : Executor → ℕ → ℕ → Found
rob s thief victim =
    let (q, batch) = Spmc.take_half default_spmc_capacity (worker s victim).queue in
    take_loot s thief victim q batch

-- The rounds left of `for (i = 0; i < nthreads_; ++i)`.
unfoldable pub steal_from : ℕ → Executor → ℕ → ℕ → ℕ → Found
steal_from zero s thief start i = (s, 0)
steal_from (suc rounds) s thief start i =
    let n = length s.workers in
    let victim = (start + i) % n in
    or_else (if victim == thief then (s, 0) else rob s thief victim)
      (λ s'. steal_from rounds s' thief start (i + 1))

-- Also the new state of the thief's random numbers.
unfoldable pub steal_task : Executor → ℕ → ℕ → Found × ℕ
steal_task s thief random =
    if leb (length s.workers) 1
    then ((s, 0), random)
    else (let r = fast_random random in
        (steal_from (length s.workers) s thief (r % length s.workers) 0, r))

abbrev pub ticked : Executor → ℕ → Executor
ticked s i = set_worker s i (record (worker s i) { tick = (worker s i).tick + 1 })

-- Steps 1 and 2, in front of the inbox.
unfoldable pub poll_first : Executor → ℕ → Found
poll_first s i =
    or_else (if (worker s i).tick % global_check_interval == 0 then poll_global s else (s, 0))
      (λ s'. poll_slot s' i)

-- Steps 4 to 6, behind it.
unfoldable pub poll_last : Executor → ℕ → ℕ → Found × ℕ
poll_last s i random =
    let (s1, task) = poll_local s i in
    if task == 0
    then (let (found, random') = steal_task s1 i random in (or_else found poll_global, random'))
    else ((s1, task), random)

-- Steps 4 to 6 behind step 3, which may have run out of fuel.
abbrev pub after_inbox : ℕ → ℕ → Option Found → Option (Found × ℕ)
after_inbox i random none = none
after_inbox i random (some (s, task)) =
    some (if task == 0 then poll_last s i random else ((s, task), random))

-- Steps 1 to 6 of a round.
unfoldable pub next_task : ℕ → Executor → ℕ → ℕ → Option (Found × ℕ)
next_task fuel s i random =
    let (s1, task) = poll_first (ticked s i) i in
    if task == 0 then after_inbox i random (poll_inbox fuel s1 i) else some ((s1, task), random)

-- Step 7, without the task: what an idle round does, and the new `empty_spins`.
pub data Backoff : Type 0 where
  pause yield park : Backoff

unfoldable pub backoff : ℕ → Backoff × ℕ
backoff spins =
    if ltb (spins + 1) 16
    then (pause, spins + 1)
    else (if ltb (spins + 1) 32 then (yield, spins + 1) else (park, 0))
