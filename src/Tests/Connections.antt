-- ===== src/Tests/Connections.antt =====
-- Completions, IO contexts and connections.
use my_async_lib.Base.{
  ℕ, ◌+◌, ◌≤◌, ◌≡◌, true, Bool, List, [], ◌∷◌, ◌++◌, arith, pos, negsuc, ℤ, ◌==◌, zero, suc, ◌-◌,
  none,
}
use my_async_lib.Io.{Acceptor}
use my_async_lib.Io.Accepting.{Served, completions, completions-Served}
use my_async_lib.Http.{Bytes, hpe_ok, Llhttp, url, message_complete, parse}
use my_async_lib.Http.Consumed.{total_size}
use my_async_lib.Server.{IoBuf, suspended, Await, states, run_loop}
use my_async_lib.Server.Closing.{closes, closes_once}
use my_async_lib.Server.Buffered.{buffered, consumed, run_loop-size}

-- Bit 1 of the flags.
abbrev has_more : ℕ → Bool
has_more flags = flags == 2

abbrev listening : Acceptor
listening = record { server_socket = 3; address = 100; accepted = []; requests = [] }

-- Two connections, then an error that ends the request.
completions-Served_example :
    Served has_more listening
      ((pos 4, 2) ∷ (pos 5, 2) ∷ (negsuc 0, 0) ∷ [])
      (completions has_more listening ((pos 4, 2) ∷ (pos 5, 2) ∷ (negsuc 0, 0) ∷ []))
completions-Served_example =
    completions-Served has_more ((pos 4, 2) ∷ (pos 5, 2) ∷ (negsuc 0, 0) ∷ []) listening

-- A parser for which each block is a message, kept alive.
abbrev whole_message : Llhttp
whole_message = record {
  State = Unit {0};
  reset = tt;
  execute = λ s blk. (s, hpe_ok, url blk ∷ message_complete ∷ []);
  error_pos = λ s. none;
  resume = λ s. s;
  method_name = λ s. 71 ∷ 69 ∷ 84 ∷ [];
  should_keep_alive = λ s. true;
}

abbrev pop_bytes : List Bytes → ℕ → List Bytes
pop_bytes blocks zero = blocks
pop_bytes [] (suc n) = []
pop_bytes ([] ∷ blocks) (suc n) = pop_bytes blocks (suc n)
pop_bytes ((b ∷ bs) ∷ blocks) (suc n) = pop_bytes (bs ∷ blocks) n

abbrev buffers : IoBuf
buffers = record { append = λ blocks received. blocks ++ (received ∷ []); pop_front = pop_bytes }

pop_bytes-size :
    (blocks : List Bytes) (n : ℕ) → total_size (pop_bytes blocks n) ≡ total_size blocks - n
pop_bytes-size blocks zero = omega arith
pop_bytes-size [] (suc n) = omega arith
pop_bytes-size ([] ∷ blocks) (suc n) = omega (arith, pop_bytes-size blocks (suc n))
pop_bytes-size ((b ∷ bs) ∷ blocks) (suc n) = omega (arith, pop_bytes-size (bs ∷ blocks) n)

-- Received, answered, and then the peer hangs up.
abbrev results : List (ℤ × Bytes)
results = (pos 1, 47 ∷ []) ∷ (pos 9, []) ∷ (pos 0, []) ∷ (pos 0, []) ∷ []

closes_once_example : closes (states whole_message buffers (suspended [] Await.read) results) ≤ 1
closes_once_example = closes_once whole_message buffers results (suspended [] Await.read)

run_loop-size_example :
    let result = (parse whole_message ((47 ∷ []) ∷ [])).1 in
    buffered (run_loop whole_message buffers ((47 ∷ []) ∷ []))
      + consumed result.status result.consumed_bytes
    ≡ 1
run_loop-size_example = run_loop-size whole_message buffers pop_bytes-size ((47 ∷ []) ∷ [])
