-- ===== src/Lib.antt =====
-- ant_server is a coroutine library over io_uring: a pool of workers that steal tasks from each other,
-- a timing wheel, and an HTTP parser on top of llhttp. A task is a `TaskNode`, known by its address;
-- address 0 is `nullptr`. External threads, the timer thread and the workers hand tasks to the executor
-- (`schedule`); a worker looks for one task at a time and runs it. IO threads wait for completions and
-- call their handlers, which hand the waiting coroutines to the executor; the timer's thread hands over
-- the tasks of timers that are due; the server starts a coroutine for each connection, under a timeout.
--
-- The files and what they model, paths from the repository's root:
--   Base: the names of the library that all files use, Boolean tests, lists and integers over the
--   native numbers, counting, text (Base/Text), and (Base/Store) the `next` fields of all tasks with
--   the chains in them.
--   Task: include/ant_server/type.hpp, the kinds of task nodes, promises, and the variables of a
--   thread. Task/Life is about nodes that are created, run and deleted.
--   Constants and Random: include/ant_server/constants.hpp, include/ant_server/utils/random.hpp.
--   Mpmc: include/ant_server/scheduler/mpmc_queue.hpp, the global queue, with `Push` (push),
--   `PushBatch` (push_batch), `Pop` (pop). Mpmc/Fifo relates it to a list.
--   Spmc: include/ant_server/scheduler/spmc_queue.hpp, a worker's deque, with `Push`, `TryPop`
--   (try_pop), `Steal`, `TakeHalf` (take_half) and `Size`. Spmc/Window is about its window of slots,
--   Spmc/Refine relates it to a list. Spmc/Race has its operations access by access; Spmc/Items,
--   Spmc/Knows, Spmc/Standing, Spmc/Accesses and Spmc/Exclusion say who gets a node, Spmc/Double and
--   Spmc/Overwrite what goes wrong when a thief calls `TakeHalf`.
--   Executor: include/ant_server/scheduler/executor.hpp, the state and both forms of `schedule`
--   (schedule, and schedule_on for the one with an index). Executor/Held says which tasks an
--   executor holds, Executor/Contract what a client of the class `Executor` may rely on (as bags of
--   tasks, Base/Bag), Executor/Pool has the threads with `Start`, `Stop` and `park_and_wait`, the
--   other modules are about the global queue, the choice of a worker, and scheduling.
--   Inbox: the inbox and the parking of a worker in the same file of the repository, access by
--   access (`push_inbox`, `pop_all_inbox` and the walk behind it, `unpark`, `park_and_wait`), with
--   the accesses in Inbox/Steps; Inbox/Chains, Inbox/Moves, Inbox/Walks and Inbox/Exact say where
--   tasks are, Inbox/Parking, Inbox/Guard, Inbox/Rounds and Inbox/Wakeup who wakes the worker.
--   WorkerLoop: the search for a task in `WorkerLoop` (next_task) and `steal_task` in the same file
--   of the repository. Its modules follow the order of the search; WorkerLoop/Missed,
--   WorkerLoop/Deques and WorkerLoop/Idle are about a search that finds nothing, WorkerLoop/Loop has
--   the whole loop.
--   Timer: include/ant_server/scheduler/timer_keeper.hpp, with `AddTimer`, `CancelTimer` and what
--   `Run` does under its lock (run_pass) and after it (Timer/Handoff, dispatch). Timer/Thread has
--   the thread with `Start`, `Stop` and the rounds of `Run`; Timer/Ids and Timer/Map are about the
--   map of ids, Timer/Conserve and Timer/Whole count tasks.
--   Http: include/ant_server/http/parser.hpp. llhttp is a parameter: its state, its functions, and
--   the events that a call reports through the callbacks.
--   Io: include/ant_server/context/context.hpp (`ProcessEvents`, the loop of `Start`),
--   context/service.hpp and handler/acceptor.hpp in the same directory, with the requests to
--   io_uring as a list.
--   Context: the rest of include/ant_server/context/context.hpp, with `UseService` (use_service).
--   Scheduler: include/ant_server/scheduler/scheduler.hpp, the choice of an IO context and
--   `schedule`, (Scheduler/IoThread) what `schedule` does in the thread of one, and
--   (Scheduler/System, Scheduler/Stopping) the construction of all parts, `Start`, `Stop` and
--   `IOLoop`.
--   Server: include/ant_server/server.hpp, the coroutine of a connection (`handle_http_client`) as a
--   machine between its waits; the buffer is a parameter. Server/Response is the text of a response
--   and Server/Framing a reader of it, Server/Setup the class `Server`, with Server/Lifetime about
--   it, and Server/Client the start of a connection under its timeout.
--   Awaiter: include/ant_server/awaiter/socket_awaiter.hpp, what suspending submits and
--   cancellation (Awaiter/Canceling, Awaiter/Once). Awaiter/Make has members and constructors,
--   Awaiter/Blocks the reads into a buffer, Awaiter/Hop awaiter/resume_on.hpp, Awaiter/Timeouts
--   awaiter/timeput_awaiter.hpp, Awaiter/Keepers utils/sleep.hpp.
--   Tests: runs at concrete inputs.
--
-- How the code is read. Each place of the executor (slot, deque, inbox, global queue) is a part of
-- one record, and an operation is a function from the state before to the state after, with the `next`
-- fields as an explicit store. Each operation runs alone: the global queue and the timer hold a lock for
-- all of it, and for the lock-free parts (deque, inbox) this is the behaviour without interference; the
-- accesses of the deque also interleave in Spmc/Race, those of an inbox and of parking in Inbox/Steps.
-- int64_t indices of the deque are integers that do not overflow, `& kMask` is the remainder by the
-- capacity, a power of two, and 64-bit ids are numbers. Times are nanoseconds since the start of the
-- timer. The walk over an inbox runs on fuel; the length of the inbox is enough, and for a whole run of a
-- worker the number of all tasks. The loops of threads run over a list of what each round meets. All
-- other loops are structural recursion. A join of threads is one step, and so is each call of `Start`
-- and `Stop` of the timer and the executor; those of the scheduler may overlap, each cut at its join.
--
-- Not modelled: interleavings within an operation of other parts than the deque, the inbox and
-- parking, of these three with each other, and memory order; the code of coroutines and callables
-- beyond the fact that it runs, except for the server's; io_uring and the system's calls, whose
-- results are parameters; the vendored libraries butil and llhttp; the text that the code logs.
pub mod Awaiter
pub mod Base
pub mod Constants
pub mod Context
pub mod Executor
pub mod Http
pub mod Inbox
pub mod Io
pub mod Mpmc
pub mod Random
pub mod Scheduler
pub mod Server
pub mod Spmc
pub mod Task
pub mod Tests
pub mod Timer
pub mod WorkerLoop
