-- ===== src/Server/Buffered.antt =====
-- The buffer of a connection in `handle_http_client` (server.hpp).
use my_async_lib.Base.{ℕ, ◌+◌, ◌-◌, ◌≤◌, ◌≡◌, List, arith}
use my_async_lib.Http.{
  Bytes, Llhttp, ParseStatus, HttpRequest, parse_success, parse_need_more_data, parse_error, parse,
}
use my_async_lib.Http.Consumed.{Reported, total_size, parse-Reported}
use my_async_lib.Server.{IoBuf, Connection, suspended, finished, react, run_loop}

abbrev pub buffered : Connection → ℕ
buffered (suspended buf w) = total_size buf
buffered finished = 0

-- What a loop consumes of its buffer.
abbrev pub consumed : ParseStatus → ℕ → ℕ
consumed parse_success n = n
consumed parse_need_more_data n = 0
consumed parse_error n = 0

module _ (l : Llhttp) (io : IoBuf)
    (pop_front-size : (blocks : List Bytes) (n : ℕ)
      → total_size (io.pop_front blocks n) ≡ total_size blocks - n) where
  react-size :
      (blocks : List Bytes) (req : HttpRequest) (status : ParseStatus) (n : ℕ)
      → n ≤ total_size blocks
      → buffered (react l io blocks req status n) + consumed status n ≡ total_size blocks
  unfolding react
  react-size blocks req parse_success n h = omega (arith, pop_front-size blocks n)
  react-size blocks req parse_need_more_data n h = omega arith
  react-size blocks req parse_error n h = omega arith

  -- If `pop_front` of `n` bytes leaves a buffer `n` bytes shorter, or empty, then from the head of
  -- the loop to the next wait the buffer loses as many bytes as `parse` reports as consumed if it
  -- reports a complete request, and none otherwise.
  pub run_loop-size :
      (blocks : List Bytes)
      → let result = (parse l blocks).1 in
        buffered (run_loop l io blocks) + consumed result.status result.consumed_bytes
        ≡ total_size blocks
  unfolding run_loop Reported
  run_loop-size blocks = react-size blocks (parse l blocks).0 _ _ (parse-Reported l blocks).0
