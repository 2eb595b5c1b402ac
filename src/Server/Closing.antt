-- ===== src/Server/Closing.antt =====
-- The close of a connection in `handle_http_client` (server.hpp).
use my_async_lib.Base.{ℕ, ◌+◌, ◌≤◌, ◌≡◌, refl, List, [], ◌∷◌, ℤ, arith}
use my_async_lib.Http.{Bytes, Llhttp}
use my_async_lib.Server.{IoBuf, read, write, close, Connection, suspended, finished, resume, states}

-- How many states wait for the connection to be closed.
abbrev pub closes : List Connection → ℕ
closes [] = 0
closes (suspended buf close ∷ cs) = 1 + closes cs
closes (suspended buf read ∷ cs) = closes cs
closes (suspended buf (write keep_alive) ∷ cs) = closes cs
closes (finished ∷ cs) = closes cs

module _ (l : Llhttp) (io : IoBuf) where
  finished-closes : (results : List (ℤ × Bytes)) → closes (states l io finished results) ≡ 0
  unfolding states resume
  finished-closes [] = refl
  finished-closes ((res, received) ∷ results) = finished-closes results

  -- A run of the coroutine of a connection, from any state and for any results of what it waits
  -- for, comes at most once to the point where it closes the descriptor, for any parser and buffer.
  pub closes_once :
      (results : List (ℤ × Bytes)) (c : Connection) → closes (states l io c results) ≤ 1
  unfolding states resume
  closes_once [] (suspended buf read) = omega arith
  closes_once [] (suspended buf (write keep_alive)) = omega arith
  closes_once [] (suspended buf close) = omega arith
  closes_once [] finished = omega arith
  closes_once ((res, received) ∷ results) (suspended buf read) = closes_once results _
  closes_once ((res, received) ∷ results) (suspended buf (write keep_alive)) = closes_once results _
  closes_once ((res, received) ∷ results) (suspended buf close) =
      omega (arith, finished-closes results)
  closes_once ((res, received) ∷ results) finished = closes_once results _
