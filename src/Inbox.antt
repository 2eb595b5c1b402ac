-- ===== src/Inbox.antt =====
-- A worker's inbox and its parking in include/ant_server/scheduler/executor.hpp under interleavings:
-- any number of calls of `push_inbox` and of `unpark` by other threads, and the worker in
-- `pop_all_inbox` with the loop that empties the list, or in `park_and_wait`; one access at a time to
-- `inbox`, a `next` field, `is_parked`, `running_` or the lock `park_mu`. Accesses are taken to be
-- sequentially consistent. A call of `push_inbox` is known by its task, one of `unpark` by its thread.
pub mod Steps
pub mod Chains
pub mod Moves
pub mod Walks
pub mod Exact
pub mod Parking
pub mod Guard
pub mod Rounds
pub mod Wakeup
use my_async_lib.Base.{ℕ, Bool, true, false, List, [], ◌==◌, if◌then◌else◌}
use my_async_lib.Base.Store.{Store}

-- Where a call of `push_inbox` stands: not begun, or with `old_head` to load, to write to
-- `task->next`, or written there.
pub data Push : Type 0 where
  absent : Push
  started : Push
  seen : ℕ → Push
  linked : ℕ → Push

-- Where a thread stands in `unpark`: about to load `is_parked`, to lock, to store, to signal, to unlock.
pub data Unpark : Type 0 where
  away : Unpark
  testing : Unpark
  locking : Unpark
  storing : Unpark
  signaling : Unpark
  unlocking : Unpark

-- Where the worker stands. In `pop_all_inbox`: about to exchange; behind it with the first task, with
-- the first task and `curr`, or also with `next`. In `park_and_wait`: about to lock; with the lock; in
-- the three tests of its loop; about to wait, waiting, woken or timed out; about to clear `is_parked`,
-- and to unlock.
pub data Stance : Type 0 where
  looking : Stance
  exchanging : Stance
  opened : ℕ → Stance
  draining : ℕ → ℕ → Stance
  moving : ℕ → ℕ → ℕ → Stance
  parking : Stance
  entering : Stance
  test_running : Stance
  test_parked : Stance
  test_inbox : Stance
  committed : Stance
  waiting : Stance
  woken : Stance
  timed_out : Stance
  leaving : Stance
  parted : Stance

-- Who holds `park_mu`.
pub data Holder : Type 0 where
  free : Holder
  by_worker : Holder
  by_thread : ℕ → Holder

-- `pushed` lists the tasks of all calls of `push_inbox`, `delivered` those that the worker has passed
-- on: to its deque, or to be run.
pub record State : Type 0 where
  pub next : Store
  pub inbox : ℕ
  pub pushes : ℕ → Push
  pub unparks : ℕ → Unpark
  pub is_parked : Bool
  pub running : Bool
  pub lock : Holder
  pub worker : Stance
  pub pushed : List ℕ
  pub delivered : List ℕ

-- One entry is changed.
abbrev pub at : {A : Type 0} → (ℕ → A) → ℕ → A → ℕ → A
at f i x j = if i == j then x else f j

-- A worker that looks for tasks, with an empty inbox, and no call in progress.
abbrev pub idle_worker : Store → State
idle_worker next = record {
  next = next;
  inbox = 0;
  pushes = λ task. absent;
  unparks = λ i. away;
  is_parked = false;
  running = true;
  lock = free;
  worker = looking;
  pushed = [];
  delivered = [];
}
