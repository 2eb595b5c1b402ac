-- ===== src/Mpmc.antt =====
-- include/ant_server/scheduler/mpmc_queue.hpp: the intrusive queue behind a spin lock. Each
-- operation holds the lock from its first read of `head_` or `tail_` to its end, so it is one step
-- here. The lock itself is a library's.
pub mod Fifo
use my_async_lib.Base.{ℕ, ◌==◌, if◌then◌else◌, Bool, ◌||◌}
use my_async_lib.Base.Store.{Store, write}

-- `IntrusiveSpinLockQueue`
pub record Queue : Type 0 where
  pub head : ℕ
  pub tail : ℕ

abbrev pub empty_queue : Queue
empty_queue = record { head = 0; tail = 0 }

-- The part of `Push` and `PushBatch` under the lock: `first` to `last` go behind the tail.
unfoldable pub attach : Store → Queue → ℕ → ℕ → Store × Queue
attach m q first last =
    if q.tail == 0
    then (m, record { head = first; tail = last })
    else (write m q.tail first, record q { tail = last })

unfoldable pub push : Store → Queue → ℕ → Store × Queue
unfolding attach
push m q node = if node == 0 then (m, q) else attach (write m node 0) q node node

unfoldable pub push_batch : Store → Queue → ℕ → ℕ → Store × Queue
unfolding attach
push_batch m q batch_head batch_tail =
    if (batch_head == 0) || (batch_tail == 0)
    then (m, q)
    else attach (write m batch_tail 0) q batch_head batch_tail

-- The node is `nullptr` when the queue is empty.
unfoldable pub pop : Store → Queue → Store × Queue × ℕ
pop m q = if q.head == 0 then (m, q, 0) else (
  write m q.head 0,
  record { head = m q.head; tail = if m q.head == 0 then 0 else q.tail },
  q.head,
)

unfoldable pub empty : Queue → Bool
empty q = q.head == 0
