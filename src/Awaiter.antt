-- ===== src/Awaiter.antt =====
-- include/ant_server/awaiter/socket_awaiter.hpp: the awaiters on a socket. `std::stop_source` and its callbacks behave as documented: a
-- callback runs once, at the request, or at its registration if the request came before.
pub mod Canceling
pub mod Once
pub mod Resuming
pub mod Blocks
pub mod Keepers
pub mod Timeouts
pub mod Hop
pub mod Make
use my_async_lib.Base.{
  not, ℕ, ◌+◌, ◌-◌, ◌^◌, zero, suc, Bool, true, false, List, [], ◌∷◌, ◌==◌, if◌then◌else◌, leb,
  length, ℤ, pos, leb_ℤ, Option, none, some,
}
use my_async_lib.Executor.{Executor, Caller, schedule, schedule_on}
use my_async_lib.Io.{
  Requests, Iovec, submit_read, submit_write, submit_writev, submit_close, submit_cancel,
}
use my_async_lib.Task.{IoHandler, ThreadLocals}

pub data CancelState : Type 0 where
  pending canceled : CancelState

-- The awaiters on a socket, with what each of them submits.
pub data Job : Type 0 where
  read : ℕ → ℕ → Job
  write : ℕ → ℕ → Job
  write_iov : List Iovec → Job
  close : Job

-- `BaseAwaiter`: `stop_possible` is that of `token_`, `bound` says whether `cb_` holds a callback that
-- has not run.
pub record Awaiter : Type 0 where
  pub address : ℕ
  pub handle : ℕ
  pub fd : ℕ
  pub is_fixed : Bool
  pub job : Job
  pub stop_possible : Bool
  pub state : CancelState
  pub bound : Bool

abbrev pub max_iov_count : ℕ
max_iov_count = 64

-- The rounds left of the loop in `init_iov`, with the entries and `total_len_`.
unfoldable pub fill_iov : ℕ → List Iovec → List Iovec × ℕ
fill_iov zero blocks = ([], 0)
fill_iov (suc n) [] = ([], 0)
fill_iov (suc n) (b ∷ blocks) =
    let (iovs, total_len) = fill_iov n blocks in (b ∷ iovs, b.iov_len + total_len)

unfoldable pub init_iov : List Iovec → List Iovec × ℕ
unfolding fill_iov
init_iov blocks =
    fill_iov (if leb (length blocks) max_iov_count then length blocks else max_iov_count) blocks

-- `on_cancel` of each kind of awaiter; that of the base does nothing.
abbrev pub base_cancel : Requests → Awaiter → Requests
base_cancel rs a = rs

abbrev pub read_cancel : Requests → Awaiter → Requests
read_cancel rs a = submit_cancel rs a.address

abbrev pub write_cancel : Requests → Awaiter → Requests
write_cancel rs a = submit_cancel rs a.address

abbrev pub iobuf_write_cancel : Requests → Awaiter → Requests
iobuf_write_cancel rs a = submit_cancel rs a.address

unfoldable pub on_cancel : Requests → Awaiter → Job → Requests
on_cancel rs a close = base_cancel rs a
on_cancel rs a (read buffer len) = read_cancel rs a
on_cancel rs a (write buffer len) = write_cancel rs a
on_cancel rs a (write_iov vs) = iobuf_write_cancel rs a

-- The callback in `bind_stop_callback`, by the state that the exchange finds.
unfoldable pub stop_callback : CancelState → Awaiter → Requests → Awaiter × Requests
unfolding on_cancel
stop_callback pending a rs = (record a { state = canceled; bound = false }, on_cancel rs a a.job)
stop_callback canceled a rs = (record a { bound = false }, rs)

-- `stopped` says whether the stop was requested before.
unfoldable pub bind_stop_callback : Bool → Awaiter → Requests → Awaiter × Requests
unfolding stop_callback
bind_stop_callback stopped a rs =
    if a.stop_possible
    then (if stopped then stop_callback a.state a rs else (record a { bound = true }, rs))
    else (a, rs)

-- `await_suspend` of each kind of awaiter; `h` is the coroutine that waits, `token` says whether the promise has a token. Closing
-- leaves `token_` as it is made, and binds no callback.
unfoldable pub suspend_read : Bool → Bool → ℕ → Awaiter → ℕ → ℕ → Requests → Awaiter × Requests
unfolding bind_stop_callback
suspend_read token stopped h a buffer len rs =
    bind_stop_callback stopped (record a { handle = h; stop_possible = token })
      (submit_read rs a.fd buffer len a.address a.is_fixed)

unfoldable pub suspend_write : Bool → Bool → ℕ → Awaiter → ℕ → ℕ → Requests → Awaiter × Requests
unfolding bind_stop_callback
suspend_write token stopped h a buffer len rs =
    bind_stop_callback stopped (record a { handle = h; stop_possible = token })
      (submit_write rs a.fd buffer len a.address a.is_fixed)

-- One entry is sent as a plain write.
unfoldable pub submit_iov : Awaiter → List Iovec → Requests → Requests
submit_iov a (v ∷ []) rs = submit_write rs a.fd v.iov_base v.iov_len a.address a.is_fixed
submit_iov a vs rs = submit_writev rs a.fd vs a.address a.is_fixed

unfoldable pub suspend_iov : Bool → Bool → ℕ → Awaiter → List Iovec → Requests → Awaiter × Requests
unfolding submit_iov bind_stop_callback
suspend_iov token stopped h a vs rs =
    bind_stop_callback stopped (record a { handle = h; stop_possible = token }) (submit_iov a vs rs)

unfoldable pub suspend_close : ℕ → Awaiter → Requests → Awaiter × Requests
suspend_close h a rs =
    (record a { handle = h; stop_possible = false }, submit_close rs a.fd a.address a.is_fixed)

unfoldable pub suspend_job : Job → Bool → Bool → ℕ → Awaiter → Requests → Awaiter × Requests
unfolding suspend_read suspend_write suspend_iov suspend_close
suspend_job (read buffer len) token stopped h a rs = suspend_read token stopped h a buffer len rs
suspend_job (write buffer len) token stopped h a rs = suspend_write token stopped h a buffer len rs
suspend_job (write_iov vs) token stopped h a rs = suspend_iov token stopped h a vs rs
suspend_job close token stopped h a rs = suspend_close h a rs

unfoldable pub await_suspend : Bool → Bool → ℕ → Awaiter → Requests → Awaiter × Requests
unfolding suspend_job
await_suspend token stopped h a rs = suspend_job a.job token stopped h a rs

-- `request_stop` of the source, for one awaiter.
unfoldable pub request_stop : Awaiter → Requests → Awaiter × Requests
unfolding stop_callback
request_stop a rs = if a.bound then stop_callback a.state a rs else (a, rs)

-- What the end of the awaited operation leads to.
pub data Handoff : Type 0 where
  none_waits : Handoff
  to_executor : ℕ → ℕ → Handoff
  to_scheduler : ℕ → ℕ → ℕ → Handoff
  resume_here : ℕ → Handoff

-- `BaseAwaiter::on_complete`; the task handed over is the awaiter itself.
unfoldable pub complete : ThreadLocals → Awaiter → Handoff
complete g a =
    if a.handle == 0
    then none_waits
    else if not (g.executor == 0)
    then to_executor g.executor a.address
    else if not (g.scheduler == 0)
    then to_scheduler g.scheduler a.address g.thread_id
    else resume_here a.handle
