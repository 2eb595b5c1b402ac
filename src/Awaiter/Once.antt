-- ===== src/Awaiter/Once.antt =====
-- The cancel requests of an awaiter over waits and stop requests in any order.
use my_async_lib.Base.{
  ℕ, ◌+◌, ◌≡◌, ◌≢◌, refl, ap, ◌∙◌, Bool, true, false, List, [], ◌∷◌, arith, ◌==◌, if◌then◌else◌,
  if_ind, sym, ==_of_eq,
}
use my_async_lib.Io.{
  Requests, Sqe, Operation, multishot_accept_direct, recv, send, writev, close_direct, cancel, nop,
  submit_read, submit_write, submit_writev, submit_close, submit_cancel,
}
use my_async_lib.Io
use my_async_lib.Awaiter.{
  Job, read, write, write_iov, close, CancelState, pending, canceled, Awaiter, on_cancel,
  stop_callback, bind_stop_callback, await_suspend, suspend_job, suspend_read, suspend_write,
  suspend_iov, submit_iov, request_stop,
}

-- What happens to an awaiter: a coroutine waits for it, with or without a token and a stop requested
-- before, or a stop is requested.
pub data Act : Type 0 where
  await : Bool → Bool → ℕ → Act
  stop : Act

unfoldable pub act : Act → Awaiter → Requests → Awaiter × Requests
act (await token stopped h) a rs = await_suspend token stopped h a rs
act stop a rs = request_stop a rs

unfoldable pub acts : List Act → Awaiter → Requests → Awaiter × Requests
acts [] a rs = (a, rs)
acts (x ∷ xs) a rs = let (a', rs') = act x a rs in acts xs a' rs'

abbrev pub cancels_of : ℕ → Operation → ℕ
cancels_of handler (cancel other) = if other == handler then 1 else 0
cancels_of handler (multishot_accept_direct socket) = 0
cancels_of handler (recv fd buffer len) = 0
cancels_of handler (send fd buffer len) = 0
cancels_of handler (writev fd iovs) = 0
cancels_of handler (close_direct fd) = 0
cancels_of handler (Io.close fd) = 0
cancels_of handler nop = 0

-- The requests to cancel what the handler waits for.
abbrev pub cancels : ℕ → Requests → ℕ
cancels handler [] = 0
cancels handler (r ∷ rs) = cancels_of handler r.operation + cancels handler rs

abbrev pub is_canceled : CancelState → ℕ
is_canceled pending = 0
is_canceled canceled = 1

-- What a part of the code may do to an awaiter that cancels: it submits a cancel request exactly if
-- the state turns, which it never turns back.
record IsOnce (a : Awaiter) (rs : Requests) (r : Awaiter × Requests) : Type 0 where
  address : r.0.address ≡ a.address
  job : r.0.job ≡ a.job
  submitted :
      cancels a.address r.1 + is_canceled a.state ≡ cancels a.address rs + is_canceled r.0.state
  forward : is_canceled a.state ≡ 1 → is_canceled r.0.state ≡ 1

on_cancel-cancels :
    (job : Job) (a : Awaiter) (rs : Requests)
    → job ≢ close
    → cancels a.address (on_cancel rs a job) ≡ 1 + cancels a.address rs
unfolding on_cancel submit_cancel
on_cancel-cancels (read buffer len) a rs ne = rw (==_of_eq a.address a.address refl) (refl)
on_cancel-cancels (write buffer len) a rs ne = rw (==_of_eq a.address a.address refl) (refl)
on_cancel-cancels (write_iov vs) a rs ne = rw (==_of_eq a.address a.address refl) (refl)
on_cancel-cancels close a rs ne = absurd (ne refl)

stop_callback-IsOnce :
    (state : CancelState) (a : Awaiter) (rs : Requests)
    → a.job ≢ close
    → a.state ≡ state
    → IsOnce a rs (stop_callback state a rs) × ((stop_callback state a rs).0.state ≡ canceled)
unfolding stop_callback
stop_callback-IsOnce pending a rs ne e = (
  record {
    address = refl;
    job = refl;
    submitted = omega (arith, on_cancel-cancels a.job a rs ne, ap is_canceled e);
    forward = λ _. refl;
  },
  refl,
)
stop_callback-IsOnce canceled a rs ne e =
    (record { address = refl; job = refl; submitted = refl; forward = λ done. done }, e)

request_stop-IsOnce :
    (a : Awaiter) (rs : Requests) → a.job ≢ close → IsOnce a rs (request_stop a rs)
unfolding request_stop
request_stop-IsOnce a rs ne =
    if_ind (IsOnce a rs) a.bound (λ _. (stop_callback-IsOnce a.state a rs ne refl).0)
      (λ _. record { address = refl; job = refl; submitted = refl; forward = λ done. done })

bind-IsOnce :
    (stopped : Bool) (a : Awaiter) (rs : Requests)
    → a.job ≢ close
    → IsOnce a rs (bind_stop_callback stopped a rs)
unfolding bind_stop_callback
bind-IsOnce stopped a rs ne =
    if_ind (IsOnce a rs) a.stop_possible
      (λ _.
        if_ind (IsOnce a rs) stopped (λ _. (stop_callback-IsOnce a.state a rs ne refl).0)
          (λ _. record { address = refl; job = refl; submitted = refl; forward = λ done. done }))
      (λ _. record { address = refl; job = refl; submitted = refl; forward = λ done. done })

submit_iov-cancels :
    (a : Awaiter) (vs : List Io.Iovec) (rs : Requests)
    → cancels a.address (submit_iov a vs rs) ≡ cancels a.address rs
unfolding submit_iov submit_write submit_writev
submit_iov-cancels a [] rs = omega arith
submit_iov-cancels a (v ∷ []) rs = omega arith
submit_iov-cancels a (v ∷ w ∷ vs) rs = omega arith

-- The coroutine and the token are noted, a request without a cancel goes out, and the callback is
-- bound.
module _ (token stopped : Bool) (h : ℕ) (a : Awaiter) where
  abbrev noted : Awaiter
  noted = record a { handle = h; stop_possible = token }

  bound-IsOnce :
      (rs rs' : Requests)
      → a.job ≢ close
      → cancels a.address rs' ≡ cancels a.address rs
      → IsOnce a rs (bind_stop_callback stopped noted rs')
  bound-IsOnce rs rs' ne e =
      let once = bind-IsOnce stopped noted rs' ne in
      record {
        address = once.address;
        job = once.job;
        submitted = omega (arith, once.submitted, e);
        forward = once.forward;
      }

  suspend_job-IsOnce :
      (job : Job) (rs : Requests)
      → a.job ≢ close
      → job ≢ close
      → IsOnce a rs (suspend_job job token stopped h a rs)
  unfolding suspend_job suspend_read suspend_write suspend_iov submit_read submit_write
  suspend_job-IsOnce (read buffer len) rs ne ne' = bound-IsOnce rs _ ne (omega arith)
  suspend_job-IsOnce (write buffer len) rs ne ne' = bound-IsOnce rs _ ne (omega arith)
  suspend_job-IsOnce (write_iov vs) rs ne ne' =
      bound-IsOnce rs _ ne (submit_iov-cancels noted vs rs)
  suspend_job-IsOnce close rs ne ne' = absurd (ne' refl)

act-IsOnce : (x : Act) (a : Awaiter) (rs : Requests) → a.job ≢ close → IsOnce a rs (act x a rs)
unfolding act await_suspend
act-IsOnce (await token stopped h) a rs ne = suspend_job-IsOnce token stopped h a a.job rs ne ne
act-IsOnce stop a rs ne = request_stop-IsOnce a rs ne

acts-IsOnce :
    (xs : List Act) (a : Awaiter) (rs : Requests) → a.job ≢ close → IsOnce a rs (acts xs a rs)
unfolding acts
acts-IsOnce [] a rs ne = record {
  address = refl;
  job = refl;
  submitted = refl;
  forward = λ done. done;
}
acts-IsOnce (x ∷ xs) a rs ne =
    let first = act-IsOnce x a rs ne in
    let (a', rs') = act x a rs in
    let rest = acts-IsOnce xs a' rs' (λ e. ne (sym first.job ∙ e)) in
    let shift = ap (λ ad. cancels ad (acts xs a' rs').1) first.address in
    let start = ap (λ ad. cancels ad rs') first.address in
    record {
      address = rest.address ∙ first.address;
      job = rest.job ∙ first.job;
      submitted = omega (arith, first.submitted, rest.submitted, shift, start);
      forward = λ done. rest.forward (first.forward done);
    }

-- A stop request of an awaiter that is bound under a token, or whose stop came before, leaves it
-- canceled.
bind-stop :
    (stopped : Bool) (a : Awaiter) (rs : Requests)
    → a.job ≢ close
    → a.stop_possible ≡ true
    → let (a', rs') = bind_stop_callback stopped a rs in
      is_canceled (request_stop a' rs').0.state ≡ 1
unfolding bind_stop_callback
bind-stop true a rs ne e =
    let b = record a { stop_possible = true } in
    let (c, ss) = stop_callback a.state b rs in
    let (once, off) = stop_callback-IsOnce a.state b rs ne refl in
    rw e ((request_stop-IsOnce c ss (λ j. ne (sym once.job ∙ j))).forward (ap is_canceled off))
bind-stop false a rs ne e = rw e (
    unfold request_stop in
    ap is_canceled
      (stop_callback-IsOnce a.state (record a { stop_possible = true; bound = true }) rs ne refl).1)

await-stop :
    (job : Job) (stopped : Bool) (h : ℕ) (a : Awaiter) (rs : Requests)
    → a.job ≢ close
    → job ≢ close
    → let (a', rs') = suspend_job job true stopped h a rs in
      is_canceled (request_stop a' rs').0.state ≡ 1
unfolding suspend_job suspend_read suspend_write suspend_iov
await-stop (read buffer len) stopped h a rs ne ne' =
    bind-stop stopped (noted true stopped h a) (submit_read rs a.fd buffer len a.address a.is_fixed)
      ne refl
await-stop (write buffer len) stopped h a rs ne ne' =
    bind-stop stopped (noted true stopped h a)
      (submit_write rs a.fd buffer len a.address a.is_fixed) ne refl
await-stop (write_iov vs) stopped h a rs ne ne' =
    bind-stop stopped (noted true stopped h a) (submit_iov (noted true stopped h a) vs rs) ne refl
await-stop close stopped h a rs ne ne' = absurd (ne' refl)

-- For an awaiter of a read or a write, whatever its state: after a wait under a token (its stop
-- requested before or not), a stop request, and then any waits (with a token or without) and stop
-- requests in any order, it is canceled, and the requests to cancel its operation that were
-- submitted are exactly one if it was pending at first, and none otherwise.
pub cancels-once :
    (stopped : Bool) (h : ℕ) (xs : List Act) (a : Awaiter) (rs : Requests)
    → a.job ≢ close
    → let (a', rs') = acts (await true stopped h ∷ stop ∷ xs) a rs in
      (is_canceled a'.state ≡ 1)
      × (cancels a.address rs' + is_canceled a.state ≡ cancels a.address rs + 1)
unfolding acts act await_suspend
cancels-once stopped h xs a rs ne =
    let (b, ss) = suspend_job a.job true stopped h a rs in
    let waits = suspend_job-IsOnce true stopped h a a.job rs ne ne in
    let keeps : b.job ≢ close = λ e. ne (sym waits.job ∙ e) in
    let asked = request_stop-IsOnce b ss keeps in
    let rest =
      acts-IsOnce xs (request_stop b ss).0 (request_stop b ss).1 (λ e. keeps (sym asked.job ∙ e)) in
    let done = rest.forward (await-stop a.job stopped h a rs ne ne) in
    let all = acts-IsOnce (await true stopped h ∷ stop ∷ xs) a rs ne in
    (done, omega (arith, all.submitted, done))
