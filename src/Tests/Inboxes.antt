-- ===== src/Tests/Inboxes.antt =====
-- Interleavings at a worker's inbox at concrete inputs.
use my_async_lib.Base.{ℕ, ◌≡◌, refl, List, [], ◌∷◌, inl, arith}
use my_async_lib.Base.Store.{write}
use my_async_lib.Inbox.{State, idle_worker, waiting, moving}
use my_async_lib.Inbox.Steps.{
  Reach, here, step, by_call, by_drain, by_park, push_call, push_load, push_link, push_wins,
  push_loses, pop_sees, pop_exchanges, drain_first, drain_next, park_call, park_locks, park_stores,
  park_running, park_parked, park_empty, park_waits,
}
use my_async_lib.Inbox.Exact.{IsAccounted, inbox-IsAccounted}
use my_async_lib.Inbox.Wakeup.{WokenFrom, waiting-WokenFrom}

abbrev nothing_linked : ℕ → ℕ
nothing_linked task = 0

-- Two calls push tasks 5 and 7; the exchange of 5 fails, as 7 came first, and goes well then. The
-- worker has taken both, and is about to move 7 behind 5.
two_pushes :
    (s : State) × Reach (idle_worker nothing_linked) s
    × (s.worker ≡ moving 5 7 0)
    × (s.pushed ≡ 7 ∷ 5 ∷ [])
unfolding write
two_pushes =
    let five = step here (by_call (push_call _ 5 (omega arith) refl refl)) in
    let both = step five (by_call (push_call _ 7 (omega arith) refl refl)) in
    let loaded = step (step both (by_call (push_load _ 5 refl))) (by_call (push_load _ 7 refl)) in
    let written =
      step (step loaded (by_call (push_link _ 5 0 refl))) (by_call (push_link _ 7 0 refl)) in
    let one_won = step written (by_call (push_wins _ 7 0 0 refl refl refl)) in
    let again =
      step (step one_won (by_call (push_loses _ 5 0 refl))) (by_call (push_link _ 5 7 refl)) in
    let all_won = step again (by_call (push_wins _ 5 7 1 refl refl refl)) in
    let taken =
      step (step all_won (by_drain (pop_sees _ refl (omega arith))))
        (by_drain (pop_exchanges _ refl)) in
    let opened = step taken (by_drain (drain_first _ 5 refl)) in
    (_, step opened (by_drain (drain_next _ 5 7 refl (omega arith))), refl, refl)

inbox-IsAccounted_example : (xs : List ℕ) × (ys : List ℕ) × IsAccounted xs ys (two_pushes.0)
inbox-IsAccounted_example = inbox-IsAccounted nothing_linked (two_pushes.1)

-- The worker has found its inbox empty and is about to wait; then task 5 is pushed.
late_push :
    (s : State) × Reach (idle_worker nothing_linked) s × (s.worker ≡ waiting) × (s.inbox ≡ 5)
late_push =
    let entered =
      step (step here (by_park (park_call _ refl))) (by_park (park_locks _ refl refl)) in
    let marked =
      step (step entered (by_park (park_stores _ refl refl)))
        (by_park (park_running _ refl refl)) in
    let tested =
      step (step marked (by_park (park_parked _ refl refl))) (by_park (park_empty _ refl refl)) in
    let called =
      step (step tested (by_call (push_call _ 5 (omega arith) refl refl)))
        (by_call (push_load _ 5 refl)) in
    let pushed =
      step (step called (by_call (push_link _ 5 0 refl)))
        (by_call (push_wins _ 5 0 0 refl refl refl)) in
    (_, step pushed (by_park (park_waits _ refl)), refl, refl)

waiting-WokenFrom_example : WokenFrom (late_push.0)
waiting-WokenFrom_example =
    waiting-WokenFrom nothing_linked (late_push.1) (late_push.2) (inl (omega (arith, late_push.3)))
