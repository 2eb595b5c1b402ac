-- ===== src/Awaiter/Canceling.antt =====
-- Stop requests and the cancel requests that they cause.
use my_async_lib.Base.{
  if_ind, sym, ℕ, zero, suc, ◌+◌, ◌≤◌, ◌≡◌, refl, ap, ◌∙◌, true, List, [], ◌∷◌, arith, length, ℤ,
  ◌++◌, take, drop, leb, if◌then◌else◌, some, ◌≢◌, ◌==◌, false,
}
use my_async_lib.Io.{Requests, Iovec}
use my_async_lib.Timer.{Keeper}
use my_async_lib.Awaiter.{
  Job, read, write, write_iov, close, Awaiter, max_iov_count, fill_iov, init_iov, stop_callback,
  bind_stop_callback, await_suspend, suspend_job, suspend_read, suspend_write, suspend_iov,
  suspend_close, request_stop,
}
use my_async_lib.Awaiter.Timeouts.{launch, Suspended, timeout_suspend}

-- A number of stop requests, one after another.
abbrev pub request_stops : ℕ → Awaiter → Requests → Awaiter × Requests
request_stops zero a rs = (a, rs)
request_stops (suc n) a rs = let (a', rs') = request_stop a rs in request_stops n a' rs'

abbrev pub total_len : List Iovec → ℕ
total_len [] = 0
total_len (v ∷ vs) = v.iov_len + total_len vs

fill_iov-take :
    (n : ℕ) (blocks : List Iovec)
    → ((fill_iov n blocks).0 ≡ take n blocks) × ((fill_iov n blocks).1 ≡ total_len (take n blocks))
unfolding fill_iov
fill_iov-take zero blocks = (refl, refl)
fill_iov-take (suc n) [] = (refl, refl)
fill_iov-take (suc n) (b ∷ blocks) =
    let (vs, len) = fill_iov-take n blocks in (ap (λ ws. b ∷ ws) vs, ap (λ l. b.iov_len + l) len)

take-append-drop : (n : ℕ) (blocks : List Iovec) → take n blocks ++ drop n blocks ≡ blocks
take-append-drop zero blocks = refl
take-append-drop (suc n) [] = refl
take-append-drop (suc n) (b ∷ blocks) = ap (λ vs. b ∷ vs) (take-append-drop n blocks)

length-take_min :
    (n : ℕ) (blocks : List Iovec)
    → length (take n blocks) ≡ (if leb (length blocks) n then length blocks else n)
length-take_min zero [] = refl
length-take_min zero (b ∷ blocks) = ground arith
length-take_min (suc n) [] = ground arith
length-take_min (suc n) (b ∷ blocks) = ground (arith, length-take_min n blocks)

take-drop-len :
    (n : ℕ) (blocks : List Iovec)
    → total_len (take n blocks) + total_len (drop n blocks) ≡ total_len blocks
take-drop-len zero blocks = omega arith
take-drop-len (suc n) [] = omega arith
take-drop-len (suc n) (b ∷ blocks) = omega (arith, take-drop-len n blocks)

take-beyond : (n : ℕ) (blocks : List Iovec) → length blocks ≤ n → take n blocks ≡ blocks
take-beyond zero [] h = refl
take-beyond zero (b ∷ blocks) h = absurd (omega arith)
take-beyond (suc n) [] h = refl
take-beyond (suc n) (b ∷ blocks) h = ap (λ vs. b ∷ vs) (take-beyond n blocks (omega arith))

init_iov-take :
    (blocks : List Iovec)
    → ((init_iov blocks).0 ≡ take max_iov_count blocks)
      × ((init_iov blocks).1 ≡ total_len (take max_iov_count blocks))
unfolding init_iov
init_iov-take blocks =
    if_ind
      (λ n.
        ((fill_iov n blocks).0 ≡ take max_iov_count blocks)
        × ((fill_iov n blocks).1 ≡ total_len (take max_iov_count blocks)))
      (leb (length blocks) max_iov_count)
      (λ few.
        let (vs, len) = fill_iov-take (length blocks) blocks in
        let all : take (length blocks) blocks ≡ take max_iov_count blocks =
          take-beyond (length blocks) blocks (omega arith)
          ∙ sym (take-beyond max_iov_count blocks (ground arith)) in
        (vs ∙ all, len ∙ ap total_len all))
      (λ _. fill_iov-take max_iov_count blocks)

-- The entries that an IOBuf write makes, with the blocks behind the 64th, are the blocks of the
-- buffer in order, each with its address and length; the entries are as many as the blocks, or 64
-- if there are more; and the length that the write counts is theirs, so that with the length of the
-- blocks behind the 64th it is that of the buffer.
pub init_iov-append :
    (blocks : List Iovec)
    → let (iovs, len) = init_iov blocks in
      (iovs ++ drop 64 blocks ≡ blocks)
      × (length iovs ≡ (if leb (length blocks) 64 then length blocks else 64))
      × (len ≡ total_len iovs)
      × (len + total_len (drop 64 blocks) ≡ total_len blocks)
init_iov-append blocks =
    let (vs, len) = init_iov-take blocks in
    (
      ap (λ ws. ws ++ drop 64 blocks) vs ∙ take-append-drop 64 blocks,
      ap length vs ∙ length-take_min 64 blocks,
      len ∙ ap total_len (sym vs),
      omega (arith, len, take-drop-len 64 blocks),
    )

request_stop-unbound : (a : Awaiter) (rs : Requests) → a.bound ≡ false → request_stop a rs ≡ (a, rs)
unfolding request_stop
request_stop-unbound a rs e = ap (λ b. if b then stop_callback a.state a rs else (a, rs)) e

unbound : (n : ℕ) (a : Awaiter) (rs : Requests) → a.bound ≡ false → request_stops n a rs ≡ (a, rs)
unbound zero a rs e = refl
unbound (suc n) a rs e =
    ap (λ (r : Awaiter × Requests). request_stops n r.0 r.1) (request_stop-unbound a rs e)
    ∙ unbound n a rs e

-- Without a token nothing is bound.
suspend_job-bound :
    (job : Job) (h : ℕ) (a : Awaiter) (rs : Requests)
    → (suspend_job job false false h a rs).0.bound ≡ a.bound
unfolding suspend_job suspend_read suspend_write suspend_iov suspend_close bind_stop_callback
suspend_job-bound (read buffer len) h a rs = refl
suspend_job-bound (write buffer len) h a rs = refl
suspend_job-bound (write_iov vs) h a rs = refl
suspend_job-bound close h a rs = refl

await_suspend-bound :
    (h : ℕ) (a : Awaiter) (rs : Requests) → (await_suspend false false h a rs).0.bound ≡ a.bound
unfolding await_suspend
await_suspend-bound h a rs = suspend_job-bound a.job h a rs

-- A child that waits first for what is not bound yet is not canceled by stop requests, although its
-- promise has the token.
pub timeout_first_wait :
    (k : Keeper) (now : ℕ) (delay : ℤ) (fresh parent handle n : ℕ) (first : Awaiter) (rs : Requests)
    → handle ≢ 0
    → first.bound ≡ false
    → let s = timeout_suspend k now delay fresh parent handle (some first) rs in
      (a : Awaiter) × (s.child.waits_for ≡ some a)
      × (s.child.promise.token ≡ true)
      × (request_stops n a s.requests ≡ (a, s.requests))
unfolding timeout_suspend launch
timeout_first_wait k now delay fresh parent handle n first rs ne e =
    if_ind
      (λ (s : Suspended).
        (a : Awaiter) × (s.child.waits_for ≡ some a)
        × (s.child.promise.token ≡ true)
        × (request_stops n a s.requests ≡ (a, s.requests)))
      (handle == 0) (λ z. absurd (ground arith))
      (λ _. (_, refl, refl, unbound n _ _ (await_suspend-bound handle first rs ∙ e)))
