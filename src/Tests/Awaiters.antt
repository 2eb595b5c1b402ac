-- ===== src/Tests/Awaiters.antt =====
-- Awaiters at concrete inputs.
use my_async_lib.Base.{
  ℕ, ◌≢◌, length, ◌++◌, ◌+◌, ◌≤◌, ◌≡◌, refl, true, false, List, [], ◌∷◌, arith, pos, some, none,
  ◌==◌, if◌then◌else◌, drop, length-replicate,
}
use my_async_lib.Mpmc.{empty_queue}
use my_async_lib.Mpmc.Fifo.{empty_queue-IsQueue}
use my_async_lib.Executor.{Executor, Caller, new_worker, schedule, worker}
use my_async_lib.Executor.Held.{no_tasks, new_worker-IsWorker, Holds}
use my_async_lib.Io.{Iovec}
use my_async_lib.Timer.{Entry, new_keeper, expiry}
use my_async_lib.Timer.Ticks.{IsWheel}
use my_async_lib.Awaiter.{pending, Job, close, Awaiter, init_iov}
use my_async_lib.Awaiter.Timeouts.{timeout_suspend, goes_on, expected, timeout-goes_on}
use my_async_lib.Awaiter.Blocks.{
  Acquire, HandsOver, inc_ref, dec_ref, Block, Blocks, event, resume_read, suspends, resumes,
  events, Accounted, events-Accounted,
}
use my_async_lib.Awaiter.Canceling.{total_len, init_iov-append}
use my_async_lib.Awaiter.Once.{await, stop, acts, is_canceled, cancels, cancels-once}
use my_async_lib.Scheduler.IoThread.{io_caller, inboxes, io_schedule-slot}

abbrev one_worker : Executor
one_worker = record {
  next = λ a. 0;
  workers = new_worker ∷ [];
  global_queue = empty_queue;
  running = true;
}

one_worker-Holds : Holds one_worker (no_tasks ∷ []) [] (5 ∷ [])
one_worker-Holds = record {
  workers = (new_worker-IsWorker _, tt);
  global = empty_queue-IsQueue _;
  once = λ a. ground arith;
  nonnull = refl;
}

abbrev external : Caller
external = record { same_executor = false; thread_id = 0; random = 1 }

io_schedule-slot_example :
    let s' = (schedule one_worker (io_caller 0 1) 5).0 in
    (inboxes s'.workers ≡ inboxes one_worker.workers) × ((worker s' 0).lifo_slot ≡ 5)
unfolding new_worker
io_schedule-slot_example = io_schedule-slot one_worker 0 1 5 (omega arith) (omega arith)

new_keeper-IsWheel : IsWheel new_keeper
unfolding new_keeper
new_keeper-IsWheel = length-replicate {A = List Entry} 4096 []

in_time : expiry 0 (pos 25) ≤ 25000000
unfolding expiry
in_time = omega arith

abbrev reading : Awaiter
reading = record {
  address = 9;
  handle = 50;
  fd = 4;
  is_fixed = true;
  job = Job.read 1000 100;
  stop_possible = true;
  state = pending;
  bound = true;
}

-- A stop, a second wait after it, and another stop.
cancels-once_example :
    let (a', rs') = acts (await true false 61 ∷ stop ∷ await true true 61 ∷ stop ∷ []) reading [] in
    (is_canceled a'.state ≡ 1) × (cancels 9 rs' + 0 ≡ 1)
cancels-once_example = cancels-once false 61 (await true true 61 ∷ stop ∷ []) reading [] is_read
  where
    is_read : Job.read 1000 100 ≢ close
    is_read = λ e. cc e

abbrev first_read : Awaiter
first_read = record reading { stop_possible = false; bound = false }

timeout-goes_on_example :
    let s = timeout_suspend new_keeper 0 (pos 5000) 77 60 61 none [] in
    goes_on s.child s.child.ended ≡ expected 60 none
timeout-goes_on_example =
    timeout-goes_on new_keeper 0 (pos 5000) 77 60 61 none [] (omega arith) (omega arith)

abbrev tls_block : Block
tls_block = record { address = 3; bytes = 1000; size = 0; cap = 8160 }

-- The head of the list, or a block that is made.
abbrev first_or_new : Acquire
first_or_new refs [] = (3, inc_ref refs 3, [])
first_or_new refs (b ∷ own) = (b, refs, own)

first_or_new-HandsOver : HandsOver first_or_new
first_or_new-HandsOver refs [] h a = omega arith
first_or_new-HandsOver refs (b ∷ own) h a = ground arith

-- The thread's list has one block, which another holder counts as well.
abbrev two_refs : ℕ → ℕ
two_refs a = if 3 == a then 2 else 0

abbrev one_listed : Blocks
one_listed = record { refs = two_refs; own = 3 ∷ []; waiting = []; slices = [] }

abbrev one_slice : Blocks
one_slice = record {
  refs = dec_ref (inc_ref two_refs 3) 3;
  own = [];
  waiting = [];
  slices = record { block = 3; bytes = 1000; len = 20 } ∷ [];
}

abbrev one_holder : ℕ → ℕ
one_holder a = if 3 == a then 1 else 0

one_listed-Accounted : Accounted one_holder one_listed
unfolding Accounted
one_listed-Accounted a = ground arith

one_read :
    events first_or_new (suspends ∷ resumes tls_block (pos 20) ∷ []) one_listed ≡ some one_slice
unfolding events event resume_read
one_read = refl

events-Accounted_example : Accounted one_holder one_slice
events-Accounted_example =
    events-Accounted first_or_new one_holder first_or_new-HandsOver
      (suspends ∷ resumes tls_block (pos 20) ∷ []) one_listed one_slice one_read
      one_listed-Accounted

abbrev blocks : List Iovec
blocks = record { iov_base = 1; iov_len = 10 } ∷ record { iov_base = 2; iov_len = 20 } ∷ []

init_iov-append_example :
    let (iovs, len) = init_iov blocks in
    (iovs ++ drop 64 blocks ≡ blocks)
    × (length iovs ≡ 2)
    × (len ≡ total_len iovs)
    × (len + total_len (drop 64 blocks) ≡ 30)
init_iov-append_example = init_iov-append blocks
