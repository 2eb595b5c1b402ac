-- ===== src/Server.antt =====
-- include/ant_server/server.hpp: the coroutine `handle_http_client` as a machine between one
-- `co_await` and the next. llhttp and the buffer `butil::IOBuf` are parameters; a buffer is the list of
-- its blocks.
pub mod Response
pub mod Framing
pub mod Setup
pub mod Lifetime
pub mod Client
pub mod Closing
pub mod Buffered
use my_async_lib.Base.{ℕ, Bool, true, false, List, [], ◌∷◌, if◌then◌else◌, ℤ, pos, leb_ℤ}
use my_async_lib.Http.{
  Bytes, Llhttp, ParseStatus, parse_success, parse_need_more_data, parse_error, ParseResult,
  HttpRequest, parse,
}

-- `append` adds received bytes at the end, `pop_front` takes a number of bytes from the front.
pub record IoBuf : Type 0 where
  pub append : List Bytes → Bytes → List Bytes
  pub pop_front : List Bytes → ℕ → List Bytes

-- What the coroutine waits for. A response says whether the connection is kept alive.
pub data Await : Type 0 where
  read : Await
  write : Bool → Await
  close : Await

pub data Connection : Type 0 where
  suspended : List Bytes → Await → Connection
  finished : Connection

module _ (l : Llhttp) (io : IoBuf) where
  -- The branches on the status of the parse.
  unfoldable pub react : List Bytes → HttpRequest → ParseStatus → ℕ → Connection
  react read_buf req parse_need_more_data consumed = suspended read_buf read
  react read_buf req parse_success consumed =
      suspended (io.pop_front read_buf consumed) (write req.keep_alive)
  react read_buf req parse_error consumed = suspended read_buf close

  -- From the head of the loop to the next `co_await`.
  unfoldable pub run_loop : List Bytes → Connection
  unfolding react
  run_loop read_buf =
      let (req, result) = parse l read_buf in react read_buf req result.status result.consumed_bytes

  -- The coroutine goes on with the result of what it waited for, and for a read the bytes received.
  unfoldable pub resume : Connection → ℤ → Bytes → Connection
  unfolding run_loop
  resume (suspended read_buf read) res received =
      let next = run_loop (io.append read_buf received) in
      if leb_ℤ res (pos 0) then suspended read_buf close else next
  resume (suspended read_buf (write keep_alive)) res received =
      let next = run_loop read_buf in if keep_alive then next else suspended read_buf close
  resume (suspended read_buf close) res received = finished
  resume finished res received = finished

  -- The states of a run, the one at hand first.
  unfoldable pub states : Connection → List (ℤ × Bytes) → List Connection
  unfolding resume
  states c [] = c ∷ []
  states c ((res, received) ∷ results) = c ∷ states (resume c res received) results
