-- ===== src/Awaiter/Timeouts.antt =====
-- include/ant_server/awaiter/timeput_awaiter.hpp: `TimeoutAwaiter`. The coroutine's own code is not
-- modelled; what it waits for first is a parameter, where `none` is a coroutine that returns without
-- a wait.
use my_async_lib.Base.{
  not, ℕ, ◌==◌, if◌then◌else◌, Bool, true, false, ℤ, Option, none, some, ◌≡◌, ◌≢◌, arith,
}
use my_async_lib.Awaiter.{Awaiter, await_suspend}
use my_async_lib.Awaiter.Keepers.{effective_keeper}
use my_async_lib.Context.{Context, get_scheduler}
use my_async_lib.Io.{Requests}
use my_async_lib.Task.{
  ThreadLocals, Promise, new_promise, set_stop_token, set_continuation, get_stop_token, Ending,
  noop, transfer, returned, final_suspend, end_http,
}
use my_async_lib.Timer.{Keeper, add_callback, cancel_timer}

-- `TimeoutAwaiter` before it suspends: the keeper by its address, the delay in milliseconds.
pub record TimeoutAwaiter : Type 0 where
  pub timer_keeper : ℕ
  pub delay : ℤ
  pub timer_id : ℕ

abbrev pub timeout_awaiter : ℕ → ℤ → TimeoutAwaiter
timeout_awaiter tk delay = record { timer_keeper = tk; delay = delay; timer_id = 0 }

abbrev pub on_keeper : ℤ → Option ℕ → Option TimeoutAwaiter
on_keeper delay none = none
on_keeper delay (some tk) = some (timeout_awaiter tk delay)

-- The constructor without a keeper; `none` is the exception.
unfoldable pub default_timeout_awaiter : (ℕ → ℕ) → ThreadLocals → ℤ → Option TimeoutAwaiter
default_timeout_awaiter timer_of g delay = on_keeper delay (effective_keeper timer_of g 0)

-- `with_timeout` of a keeper, of none and of a context
abbrev pub with_timeout : ℕ → ℤ → TimeoutAwaiter
with_timeout tk delay = timeout_awaiter tk delay

abbrev pub with_default_timeout : (ℕ → ℕ) → ThreadLocals → ℤ → Option TimeoutAwaiter
with_default_timeout timer_of g delay = default_timeout_awaiter timer_of g delay

unfoldable pub with_context_timeout : (ℕ → ℕ) → ThreadLocals → Context → ℤ → Option TimeoutAwaiter
unfolding default_timeout_awaiter
with_context_timeout timer_of g c delay =
    if not (get_scheduler c == 0)
    then some (with_timeout (timer_of (get_scheduler c)) delay)
    else with_default_timeout timer_of g delay

-- The child coroutine: its promise, what it waits for, and what its end led to.
pub record Child : Type 0 where
  pub promise : Promise
  pub waits_for : Option Awaiter
  pub ended : Option Ending

-- `task_func_()`: the child starts at once, with the promise as it is made.
unfoldable pub launch : ℕ → Option Awaiter → Requests → Child × Requests
unfolding await_suspend end_http
launch handle none rs = (
  record { promise = new_promise; waits_for = none; ended = some (end_http new_promise returned) },
  rs,
)
launch handle (some first) rs =
    let (a, rs') = await_suspend (get_stop_token new_promise) false handle first rs in
    (record { promise = new_promise; waits_for = some a; ended = none }, rs')

-- What `await_suspend` leaves behind; `resumed` says whether it resumes the parent itself.
pub record Suspended : Type 0 where
  pub child : Child
  pub requests : Requests
  pub keeper : Keeper
  pub timer_id : ℕ
  pub resumed : Bool

-- `TimeoutAwaiter::await_suspend`; `handle` is that of the child's task, `fresh` the address of the
-- timer's callback.
unfoldable pub timeout_suspend : Keeper → ℕ → ℤ → ℕ → ℕ → ℕ → Option Awaiter → Requests → Suspended
unfolding launch
timeout_suspend k now delay fresh parent handle first rs =
    let (child, rs') = launch handle first rs in
    if handle == 0
    then record { child = child; requests = rs'; keeper = k; timer_id = 0; resumed = true }
    else (let (k', id) = add_callback k now delay fresh in
        record {
          child = record child {
            promise = set_continuation (set_stop_token child.promise true) parent;
          };
          requests = rs';
          keeper = k';
          timer_id = id;
          resumed = false;
        })

-- `TimeoutAwaiter::await_resume`
unfoldable pub timeout_resume : Keeper → ℕ → Keeper
timeout_resume k timer_id = if timer_id == 0 then k else cancel_timer k timer_id

-- What the child's end has led to, or will lead to when it returns.
unfoldable pub goes_on : Child → Option Ending → Ending
unfolding end_http
goes_on child (some e) = e
goes_on child none = end_http child.promise returned

unfoldable pub expected : ℕ → Option Awaiter → Ending
expected parent none = noop
expected parent (some first) = transfer parent

-- Under a timeout, with a parent and a task that has a handle, the child's return resumes the
-- parent if the child has waited once; if it returns without a wait, its end resumes nothing.
pub timeout-goes_on :
    (k : Keeper) (now : ℕ) (delay : ℤ) (fresh parent handle : ℕ) (first : Option Awaiter)
    (rs : Requests)
    → handle ≢ 0
    → parent ≢ 0
    → let s = timeout_suspend k now delay fresh parent handle first rs in
      goes_on s.child s.child.ended ≡ expected parent first
unfolding timeout_suspend launch goes_on expected end_http final_suspend
timeout-goes_on k now delay fresh parent handle none rs h p = ground arith
timeout-goes_on k now delay fresh parent handle (some first) rs h p = ground arith

abbrev pub timeout_ready : TimeoutAwaiter → Bool
timeout_ready t = false
