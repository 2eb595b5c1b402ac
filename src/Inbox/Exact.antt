-- ===== src/Inbox/Exact.antt =====
-- Each task that is pushed to a worker's inbox (executor.hpp) reaches the worker once, whatever the
-- pushes, the worker's parking and its walk over the list do in between.
use my_async_lib.Base.{ℕ, suc, ◌+◌, ◌≤◌, ◌≡◌, refl, List, [], ◌∷◌, count, arith, Bool, true, false}
use my_async_lib.Base.Store.{Store, Chain}
use my_async_lib.Inbox.{
  State, Unpark, Holder, started, seen, linked, away, testing, locking, storing, signaling,
  unlocking, at, looking, exchanging, parking, entering, test_running, test_parked, test_inbox,
  committed, waiting, woken, timed_out, leaving, parted, free, by_worker, by_thread, idle_worker,
}
use my_async_lib.Inbox.Steps.{
  CallStep, UnparkStep, DrainStep, ParkStep, Step, by_call, by_unpark, by_drain, by_park, Reach,
  here, step, push_call, push_load, push_link, push_wins, push_loses, unpark_call, stop_call,
  unpark_awake, unpark_parked, unpark_locks, unpark_stores, unpark_signals, unpark_unheard,
  unpark_unlocks, pop_sees, pop_exchanges, drain_first, drain_next, drain_moves, drain_ends,
  park_call, park_locks, park_stopped, park_stores, park_running, park_not_running, park_parked,
  park_unparked, park_empty, park_filled, park_waits, park_wakes, park_times_out, park_again,
  park_breaks, park_clears, park_returns,
}
use my_async_lib.Inbox.Chains.{in_flight, Inv, rest_of, hands, keeps, worker_moves, push_moves}
use my_async_lib.Inbox.Moves.{Holding, started-Inv, linked-Inv, won-Inv}
use my_async_lib.Inbox.Walks.{first-Inv, moved-Inv, exchanged-Inv, read-Inv, ended-Inv}

-- An access of `unpark`.
thread_moves :
    {xs ys : List ℕ} {s : State} (i : ℕ) (unpark : Unpark) (is_parked running : Bool)
    (lock : Holder)
    → Inv xs ys s
    → Holding (record s {
      unparks = at s.unparks i unpark;
      is_parked = is_parked;
      running = running;
      lock = lock;
    })
thread_moves {xs} {ys} {s} i unpark is_parked running lock h =
    (xs, ys, keeps (at s.unparks i unpark) is_parked running lock s.worker h refl refl h.sees)

CallStep-Inv : {s t : State} (xs ys : List ℕ) → CallStep s t → Inv xs ys s → Holding t
CallStep-Inv xs ys (push_call s task ne e new) h = (xs, ys, started-Inv task h ne e new)
CallStep-Inv xs ys (push_load s task e) h =
    (xs, ys, push_moves task (seen s.inbox) started h e refl tt)
CallStep-Inv xs ys (push_link s task old e) h = (xs, ys, linked-Inv task old h e)
CallStep-Inv xs ys (push_wins s task old i e top free_thread) h =
    (task ∷ xs, ys, won-Inv task old (at s.unparks i testing) h e top)
CallStep-Inv xs ys (push_loses s task old e) h =
    (xs, ys, push_moves task (seen s.inbox) (linked old) h e refl tt)
CallStep-Inv xs ys (unpark_call s i e) h = thread_moves i testing s.is_parked s.running s.lock h
CallStep-Inv xs ys (stop_call s i e) h = thread_moves i testing s.is_parked false s.lock h

UnparkStep-Inv : {s t : State} (xs ys : List ℕ) → UnparkStep s t → Inv xs ys s → Holding t
UnparkStep-Inv xs ys (unpark_awake s i e p) h = thread_moves i away s.is_parked s.running s.lock h
UnparkStep-Inv xs ys (unpark_parked s i e p) h =
    thread_moves i locking s.is_parked s.running s.lock h
UnparkStep-Inv xs ys (unpark_locks s i e l) h =
    thread_moves i storing s.is_parked s.running (by_thread i) h
UnparkStep-Inv xs ys (unpark_stores s i e) h = thread_moves i signaling false s.running s.lock h
UnparkStep-Inv xs ys (unpark_signals s i e w) h =
    let (xs', ys', h') = thread_moves i unlocking s.is_parked s.running s.lock h in
    (xs', ys', worker_moves s.is_parked s.lock waiting woken h' w refl refl tt)
UnparkStep-Inv xs ys (unpark_unheard s i e w) h =
    thread_moves i unlocking s.is_parked s.running s.lock h
UnparkStep-Inv xs ys (unpark_unlocks s i e) h = thread_moves i away s.is_parked s.running free h

DrainStep-Inv : {s t : State} (xs ys : List ℕ) → DrainStep s t → Inv xs ys s → Holding t
DrainStep-Inv xs ys (pop_sees s e some_task) h =
    (xs, ys, worker_moves s.is_parked s.lock looking exchanging h e refl refl some_task)
DrainStep-Inv xs ys (pop_exchanges s e) h = ([], xs, exchanged-Inv h e)
DrainStep-Inv xs ys (drain_first s first e) h = first-Inv xs ys first h e
DrainStep-Inv xs ys (drain_next s first curr e some_task) h =
    read-Inv xs ys first curr h e some_task
DrainStep-Inv xs ys (drain_moves s first curr rest e) h = (xs, ys, moved-Inv first curr rest h e)
DrainStep-Inv xs ys (drain_ends s first e) h = (xs, ys, ended-Inv first h e)

ParkStep-Inv : {s t : State} (xs ys : List ℕ) → ParkStep s t → Inv xs ys s → Holding t
ParkStep-Inv xs ys (park_call s e) h =
    (xs, ys, worker_moves s.is_parked s.lock looking parking h e refl refl tt)
ParkStep-Inv xs ys (park_locks s e l) h =
    (xs, ys, worker_moves s.is_parked by_worker parking entering h e refl refl tt)
ParkStep-Inv xs ys (park_stopped s e r) h =
    (xs, ys, worker_moves s.is_parked s.lock entering parted h e refl refl tt)
ParkStep-Inv xs ys (park_stores s e r) h =
    (xs, ys, worker_moves true s.lock entering test_running h e refl refl tt)
ParkStep-Inv xs ys (park_running s e r) h =
    (xs, ys, worker_moves s.is_parked s.lock test_running test_parked h e refl refl tt)
ParkStep-Inv xs ys (park_not_running s e r) h =
    (xs, ys, worker_moves s.is_parked s.lock test_running leaving h e refl refl tt)
ParkStep-Inv xs ys (park_parked s e p) h =
    (xs, ys, worker_moves s.is_parked s.lock test_parked test_inbox h e refl refl tt)
ParkStep-Inv xs ys (park_unparked s e p) h =
    (xs, ys, worker_moves s.is_parked s.lock test_parked leaving h e refl refl tt)
ParkStep-Inv xs ys (park_empty s e z) h =
    (xs, ys, worker_moves s.is_parked s.lock test_inbox committed h e refl refl tt)
ParkStep-Inv xs ys (park_filled s e z) h =
    (xs, ys, worker_moves s.is_parked s.lock test_inbox leaving h e refl refl tt)
ParkStep-Inv xs ys (park_waits s e) h =
    (xs, ys, worker_moves s.is_parked free committed waiting h e refl refl tt)
ParkStep-Inv xs ys (park_wakes s e) h =
    (xs, ys, worker_moves s.is_parked s.lock waiting woken h e refl refl tt)
ParkStep-Inv xs ys (park_times_out s e) h =
    (xs, ys, worker_moves s.is_parked s.lock waiting timed_out h e refl refl tt)
ParkStep-Inv xs ys (park_again s e l) h =
    (xs, ys, worker_moves s.is_parked by_worker woken test_running h e refl refl tt)
ParkStep-Inv xs ys (park_breaks s e l) h =
    (xs, ys, worker_moves s.is_parked by_worker timed_out leaving h e refl refl tt)
ParkStep-Inv xs ys (park_clears s e) h =
    (xs, ys, worker_moves false s.lock leaving parted h e refl refl tt)
ParkStep-Inv xs ys (park_returns s e) h =
    (xs, ys, worker_moves s.is_parked free parted looking h e refl refl tt)

Step-Inv : {s t : State} (xs ys : List ℕ) → Step s t → Inv xs ys s → Holding t
Step-Inv xs ys (by_call st) h = CallStep-Inv xs ys st h
Step-Inv xs ys (by_unpark st) h = UnparkStep-Inv xs ys st h
Step-Inv xs ys (by_drain st) h = DrainStep-Inv xs ys st h
Step-Inv xs ys (by_park st) h = ParkStep-Inv xs ys st h

Reach-Inv : {s t : State} → Reach s t → Holding s → Holding t
Reach-Inv here h = h
Reach-Inv (step r st) h = let (xs, ys, i) = Reach-Inv r h in Step-Inv xs ys st i

idle_worker-Inv : (next : Store) → Inv [] [] (idle_worker next)
idle_worker-Inv next = record {
  chain = refl;
  rest = refl;
  sees = tt;
  linked = λ v. tt;
  null = refl;
  balance = λ v. refl;
  once = λ v. omega arith;
}

-- Where the tasks are that were pushed: `xs` in the inbox, `ys` in the list that the worker walks.
pub record IsAccounted (xs ys : List ℕ) (s : State) : Type 0 where
  pub listed : Chain s.next s.inbox xs
  pub walked : Chain s.next (rest_of s.worker) ys
  pub once :
      (v : ℕ)
      → count v s.delivered
          + (count v xs + (count v ys + (count v (hands s.worker) + in_flight (s.pushes v))))
        ≡ count v s.pushed
  pub at_most : (v : ℕ) → count v s.pushed ≤ suc (count v s.delivered)

-- However calls of `push_inbox` by any number of threads interleave with each other, with the
-- worker's walk over the list that it took, and with its parking, access by access (sequentially
-- consistent): the inbox and the rest of the list are chains that end in `nullptr`, and each task
-- was passed on or is in one of the places (inbox, list, the worker's hands, a call that has yet to
-- exchange), as often together as it was pushed, at most once at a time, although tasks that were
-- passed on may be pushed again during the walk.
pub inbox-IsAccounted :
    (next : Store) {s : State}
    → Reach (idle_worker next) s
    → (xs : List ℕ) × (ys : List ℕ) × IsAccounted xs ys s
inbox-IsAccounted next r =
    let (xs, ys, h) = Reach-Inv r ([], [], idle_worker-Inv next) in
    (xs, ys, record { listed = h.chain; walked = h.rest; once = h.balance; at_most = h.once })
