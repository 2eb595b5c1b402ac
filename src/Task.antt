-- ===== src/Task.antt =====
-- include/ant_server/type.hpp: the kinds of task nodes and their life, the promises of the coroutines,
-- handlers of completions, the executor's interface and the variables of a thread. What a coroutine or
-- a callable does when it runs is not modelled: the fact that it runs is noted in a log.
pub mod Life
use my_async_lib.Base.{
  ℕ, ◌+◌, Bool, true, false, not, List, [], ◌∷◌, ◌==◌, if◌then◌else◌, leb, Option, none, some, ℤ,
}
use my_async_lib.Constants.{task_sbo_size}

-- `EventType`
pub data EventType : Type 0 where
  event_accept event_read event_write event_close event_timer : EventType

-- `IOHandler`
pub record IoHandler : Type 0 where
  pub res : ℤ
  pub flags : ℕ

abbrev pub prepare_complete : IoHandler → ℤ → ℕ → IoHandler
prepare_complete h res flags = record h { res = res; flags = flags }

-- `Executor`: the second `schedule` of the interface leaves the index out, unless it is overridden.
pub record Interface (S : Type 0) : Type 0 where
  pub schedule : ℕ → S → S

unfoldable pub default_schedule_on : {S : Type 0} → Interface S → ℕ → ℕ → S → S
default_schedule_on e task thread_id s = e.schedule task s

-- The variables of a thread; pointers are addresses, `nullptr` is 0.
pub record ThreadLocals : Type 0 where
  pub executor : ℕ
  pub scheduler : ℕ
  pub thread_id : ℕ
  pub local_context : ℕ

abbrev pub new_thread : ThreadLocals
new_thread = record { executor = 0; scheduler = 0; thread_id = 0; local_context = 0 }

-- `GetCurrentContext`: `none` stands for a null pointer that is followed.
unfoldable pub get_current_context : ThreadLocals → Option ℕ
get_current_context g = if g.local_context == 0 then none else some g.local_context

-- `HttpTask::promise_type`
pub record Promise : Type 0 where
  pub token : Bool
  pub continuation : ℕ

abbrev pub new_promise : Promise
new_promise = record { token = false; continuation = 0 }

abbrev pub set_continuation : Promise → ℕ → Promise
set_continuation p h = record p { continuation = h }

abbrev pub set_stop_token : Promise → Bool → Promise
set_stop_token p t = record p { token = t }

abbrev pub get_stop_token : Promise → Bool
get_stop_token p = p.token

-- `HttpTask`, and what `get_return_object` makes of a promise by its address.
pub record HttpTask : Type 0 where
  pub handle : ℕ

abbrev pub no_task : HttpTask
no_task = record { handle = 0 }

abbrev pub get_return_object : ℕ → HttpTask
get_return_object promise = record { handle = promise }

-- What the end of a coroutine's body leads to: another coroutine goes on, nothing goes on, the frame
-- is destroyed, or the program ends.
pub data Ending : Type 0 where
  transfer : ℕ → Ending
  noop : Ending
  frame_destroyed : Ending
  terminated : Ending

pub data Outcome : Type 0 where
  returned unhandled : Outcome

-- `FinalAwaiter::await_suspend`
unfoldable pub final_suspend : Promise → Ending
final_suspend p = if p.continuation == 0 then noop else transfer p.continuation

-- The end of an `HttpTask` and of a `DetachedTask`.
unfoldable pub end_http : Promise → Outcome → Ending
unfolding final_suspend
end_http p returned = final_suspend p
end_http p unhandled = terminated

unfoldable pub end_detached : Outcome → Ending
end_detached returned = frame_destroyed
end_detached unhandled = terminated

-- The function that `execute` points to.
pub data Execute : Type 0 where
  null coro lambda type_erased sender : Execute

-- A task node: `payload` is the coroutine's handle, the callable or the operation state. The last two
-- fields are those of `TypeErasedTask`.
pub record TaskNode : Type 0 where
  pub next : ℕ
  pub execute : Execute
  pub payload : ℕ
  pub destroy_fn : Bool
  pub auto_delete : Bool

-- `CoroTask()`, `CoroTask(h)` and `init`
abbrev pub coro_task : TaskNode
coro_task = record {
  next = 0;
  execute = coro;
  payload = 0;
  destroy_fn = false;
  auto_delete = false;
}

abbrev pub init : TaskNode → ℕ → TaskNode
init t h = record t { payload = h }

abbrev pub coro_task_of : ℕ → TaskNode
coro_task_of h = init coro_task h

-- `LambdaTask`
abbrev pub lambda_task : ℕ → TaskNode
lambda_task f = record {
  next = 0;
  execute = lambda;
  payload = f;
  destroy_fn = false;
  auto_delete = false;
}

-- `TypeErasedTask`, of a callable that fits into its buffer; one that does not is refused by the
-- compiler.
abbrev pub type_erased_task : ℕ → ℕ → Bool → Option TaskNode
type_erased_task size f auto_delete =
    if leb size task_sbo_size
    then some (record {
      next = 0;
      execute = type_erased;
      payload = f;
      destroy_fn = true;
      auto_delete = auto_delete;
    })
    else none

-- `SenderTask`
abbrev pub sender_task : ℕ → TaskNode
sender_task op = record {
  next = 0;
  execute = sender;
  payload = op;
  destroy_fn = false;
  auto_delete = false;
}

-- What the code does to callables, coroutines and memory, last one first.
pub data Effect : Type 0 where
  resumed : ℕ → Effect
  called : ℕ → Effect
  destroyed : ℕ → Effect
  freed : ℕ → Effect

-- The task nodes that are allocated, by address, and the log.
pub record Memory : Type 0 where
  pub nodes : List (ℕ × TaskNode)
  pub log : List Effect

abbrev pub node_at : List (ℕ × TaskNode) → ℕ → Option TaskNode
node_at [] p = none
node_at ((q, t) ∷ ns) p = if q == p then some t else node_at ns p

abbrev pub without : List (ℕ × TaskNode) → ℕ → List (ℕ × TaskNode)
without [] p = []
without ((q, t) ∷ ns) p = let rest = without ns p in if q == p then ns else (q, t) ∷ rest

-- `delete` of a pointer to `TypeErasedTask`: `~TypeErasedTask`, then the memory.
unfoldable pub delete_typed : Memory → ℕ → TaskNode → Memory
delete_typed m p t = record m {
  nodes = without m.nodes p;
  log = freed p ∷ (if t.destroy_fn then destroyed t.payload ∷ m.log else m.log);
}

-- `delete` of a pointer to `TaskNode`, which has no destructor of its own.
unfoldable pub delete_node : Memory → ℕ → Memory
delete_node m p = record m { nodes = without m.nodes p; log = freed p ∷ m.log }

-- The function that `execute` points to, called on the node itself.
unfoldable pub execute_node : Execute → Memory → ℕ → TaskNode → Memory
unfolding delete_typed
execute_node null m p t = m
execute_node coro m p t = if t.payload == 0 then m else record m { log = resumed t.payload ∷ m.log }
execute_node lambda m p t = record m { log = called t.payload ∷ m.log }
execute_node type_erased m p t =
    let m' = record m { log = called t.payload ∷ m.log } in
    if t.auto_delete then delete_typed m' p t else m'
execute_node sender m p t = m

abbrev pub run_at : Memory → ℕ → Option TaskNode → Option Memory
run_at m p none = none
run_at m p (some t) = some (execute_node t.execute m p t)

-- `run`; `none` is a use of memory that is not allocated.
unfoldable pub run : Memory → ℕ → Option Memory
unfolding execute_node
run m p = run_at m p (node_at m.nodes p)
