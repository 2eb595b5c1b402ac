-- ===== src/Server/Client.antt =====
-- What `Server` (server.hpp) starts for an accepted connection: `handle_http_client` under
-- `with_timeout` with five seconds, up to its first wait.
use my_async_lib.Base.{ℕ, ◌+◌, ◌≡◌, ◌≢◌, refl, true, List, [], Option, none, some, pos}
use my_async_lib.Awaiter.{Awaiter}
use my_async_lib.Awaiter.Make.{
  raw_read, read_awaiter, iobuf_write, iobuf_write_awaiter, close_of, close_awaiter,
}
use my_async_lib.Awaiter.Canceling.{request_stops, timeout_first_wait}
use my_async_lib.Awaiter.Timeouts.{Suspended, timeout_suspend}
use my_async_lib.Awaiter.Blocks.{Block, left_space}
use my_async_lib.Http.{Bytes, Llhttp, scan_blocks, finish, parse}
use my_async_lib.Io.{Requests, Iovec}
use my_async_lib.Server.{
  read, write, close, Connection, suspended, finished, IoBuf, run_loop, react,
}
use my_async_lib.Server.Response.{response_buf}
use my_async_lib.Timer.{Keeper}

abbrev pub client_timeout_ms : ℕ
client_timeout_ms = 5000

-- The awaiter of a wait, with the block that a read takes and the blocks that hold a response.
abbrev pub waits_for : (Bytes → List Iovec) → ℕ → ℕ → Block → Connection → Option Awaiter
waits_for blocks_of address fd b finished = none
waits_for blocks_of address fd b (suspended buf read) =
    some (read_awaiter address (raw_read fd (b.bytes + b.size) (left_space b) true))
waits_for blocks_of address fd b (suspended buf (write keep_alive)) =
    some (iobuf_write_awaiter address (iobuf_write fd (blocks_of (response_buf keep_alive)) true))
waits_for blocks_of address fd b (suspended buf close) =
    some (close_awaiter address (close_of fd true))

module _ (l : Llhttp) (io : IoBuf) (blocks_of : Bytes → List Iovec) where
  -- The callback of the acceptor; `address` is that of the awaiter, `fresh` that of the timer's task.
  unfoldable pub connect : Keeper → ℕ → ℕ → ℕ → ℕ → ℕ → ℕ → Block → Requests → Suspended
  unfolding timeout_suspend run_loop
  connect k now fresh parent handle address fd b rs =
      timeout_suspend k now (pos client_timeout_ms) fresh parent handle
        (waits_for blocks_of address fd b (run_loop l io [])) rs

  first_wait-read : run_loop l io [] ≡ suspended [] read
  unfolding run_loop react parse scan_blocks finish
  first_wait-read = refl

  -- A connection that the server accepts, for any parser and buffer, and if the coroutine's task
  -- has a handle: its first wait is not canceled by any number of stop requests of the five-second
  -- timeout, which leave the wait and the submitted requests as they are, although the promise has
  -- the token by then.
  pub connect-no_cancel :
      (k : Keeper) (now fresh parent handle address fd : ℕ) (b : Block) (rs : Requests) (n : ℕ)
      → handle ≢ 0
      → let s = connect k now fresh parent handle address fd b rs in
        (a : Awaiter) × (s.child.waits_for ≡ some a)
        × (s.child.promise.token ≡ true)
        × (request_stops n a s.requests ≡ (a, s.requests))
  unfolding connect run_loop react parse scan_blocks finish
  connect-no_cancel k now fresh parent handle address fd b rs n ne =
      timeout_first_wait k now (pos client_timeout_ms) fresh parent handle n
        (read_awaiter address (raw_read fd (b.bytes + b.size) (left_space b) true)) rs ne refl
