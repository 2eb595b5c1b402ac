-- ===== src/Inbox/Steps.antt =====
-- The accesses to a worker's inbox and its parking in include/ant_server/scheduler/executor.hpp.
use my_async_lib.Base.{ℕ, ◌≡◌, ◌≢◌, true, false, ◌∷◌, count}
use my_async_lib.Base.Store.{write}
use my_async_lib.Inbox.{
  absent, started, seen, linked, away, testing, locking, storing, signaling, unlocking, looking,
  exchanging, opened, draining, moving, parking, entering, test_running, test_parked, test_inbox,
  committed, waiting, woken, timed_out, leaving, parted, free, by_worker, by_thread, State, at,
}

-- The accesses of `push_inbox`, and the calls of `unpark`. A task is pushed only while nobody else has
-- it: it was passed on as often as it was pushed. `Stop` clears `running_` before it calls `unpark`.
pub data CallStep : State → State → Type 0 where
  push_call :
      (s : State) (task : ℕ)
      → task ≢ 0
      → s.pushes task ≡ absent
      → count task s.pushed ≡ count task s.delivered
      → CallStep s (record s { pushes = at s.pushes task started; pushed = task ∷ s.pushed })
  push_load :
      (s : State) (task : ℕ)
      → s.pushes task ≡ started
      → CallStep s (record s { pushes = at s.pushes task (seen s.inbox) })
  push_link :
      (s : State) (task old : ℕ)
      → s.pushes task ≡ seen old
      → CallStep s
          (record s { next = write s.next task old; pushes = at s.pushes task (linked old) })
  push_wins :
      (s : State) (task old i : ℕ)
      → s.pushes task ≡ linked old
      → s.inbox ≡ old
      → s.unparks i ≡ away
      → CallStep s (record s {
        inbox = task;
        pushes = at s.pushes task absent;
        unparks = at s.unparks i testing;
      })
  -- also where the weak exchange fails for no reason
  push_loses :
      (s : State) (task old : ℕ)
      → s.pushes task ≡ linked old
      → CallStep s (record s { pushes = at s.pushes task (seen s.inbox) })
  unpark_call :
      (s : State) (i : ℕ)
      → s.unparks i ≡ away
      → CallStep s (record s { unparks = at s.unparks i testing })
  stop_call :
      (s : State) (i : ℕ)
      → s.unparks i ≡ away
      → CallStep s (record s { running = false; unparks = at s.unparks i testing })

-- The accesses of `unpark`. The worker alone waits at `park_cv`.
pub data UnparkStep : State → State → Type 0 where
  unpark_awake :
      (s : State) (i : ℕ)
      → s.unparks i ≡ testing
      → s.is_parked ≡ false
      → UnparkStep s (record s { unparks = at s.unparks i away })
  unpark_parked :
      (s : State) (i : ℕ)
      → s.unparks i ≡ testing
      → s.is_parked ≡ true
      → UnparkStep s (record s { unparks = at s.unparks i locking })
  unpark_locks :
      (s : State) (i : ℕ)
      → s.unparks i ≡ locking
      → s.lock ≡ free
      → UnparkStep s (record s { lock = by_thread i; unparks = at s.unparks i storing })
  unpark_stores :
      (s : State) (i : ℕ)
      → s.unparks i ≡ storing
      → UnparkStep s (record s { is_parked = false; unparks = at s.unparks i signaling })
  unpark_signals :
      (s : State) (i : ℕ)
      → s.unparks i ≡ signaling
      → s.worker ≡ waiting
      → UnparkStep s (record s { worker = woken; unparks = at s.unparks i unlocking })
  unpark_unheard :
      (s : State) (i : ℕ)
      → s.unparks i ≡ signaling
      → s.worker ≢ waiting
      → UnparkStep s (record s { unparks = at s.unparks i unlocking })
  unpark_unlocks :
      (s : State) (i : ℕ)
      → s.unparks i ≡ unlocking
      → UnparkStep s (record s { lock = free; unparks = at s.unparks i away })

-- The worker takes the list in its inbox and walks it.
pub data DrainStep : State → State → Type 0 where
  pop_sees :
      (s : State)
      → s.worker ≡ looking
      → s.inbox ≢ 0
      → DrainStep s (record s { worker = exchanging })
  pop_exchanges :
      (s : State)
      → s.worker ≡ exchanging
      → DrainStep s (record s { inbox = 0; worker = opened s.inbox })
  -- `curr = inbox_list->next`, and the field is cleared
  drain_first :
      (s : State) (first : ℕ)
      → s.worker ≡ opened first
      → DrainStep s
          (record s { next = write s.next first 0; worker = draining first (s.next first) })
  drain_next :
      (s : State) (first curr : ℕ)
      → s.worker ≡ draining first curr
      → curr ≢ 0
      → DrainStep s (record s { worker = moving first curr (s.next curr) })
  -- the field is cleared, and the task goes to the deque or the global queue
  drain_moves :
      (s : State) (first curr rest : ℕ)
      → s.worker ≡ moving first curr rest
      → DrainStep s (record s {
        next = write s.next curr 0;
        worker = draining first rest;
        delivered = curr ∷ s.delivered;
      })
  drain_ends :
      (s : State) (first : ℕ)
      → s.worker ≡ draining first 0
      → DrainStep s (record s { worker = looking; delivered = first ∷ s.delivered })

-- The worker's accesses in `park_and_wait`.
pub data ParkStep : State → State → Type 0 where
  park_call : (s : State) → s.worker ≡ looking → ParkStep s (record s { worker = parking })
  park_locks :
      (s : State)
      → s.worker ≡ parking
      → s.lock ≡ free
      → ParkStep s (record s { lock = by_worker; worker = entering })
  park_stopped :
      (s : State)
      → s.worker ≡ entering
      → s.running ≡ false
      → ParkStep s (record s { worker = parted })
  park_stores :
      (s : State)
      → s.worker ≡ entering
      → s.running ≡ true
      → ParkStep s (record s { is_parked = true; worker = test_running })
  park_running :
      (s : State)
      → s.worker ≡ test_running
      → s.running ≡ true
      → ParkStep s (record s { worker = test_parked })
  park_not_running :
      (s : State)
      → s.worker ≡ test_running
      → s.running ≡ false
      → ParkStep s (record s { worker = leaving })
  park_parked :
      (s : State)
      → s.worker ≡ test_parked
      → s.is_parked ≡ true
      → ParkStep s (record s { worker = test_inbox })
  park_unparked :
      (s : State)
      → s.worker ≡ test_parked
      → s.is_parked ≡ false
      → ParkStep s (record s { worker = leaving })
  park_empty :
      (s : State)
      → s.worker ≡ test_inbox
      → s.inbox ≡ 0
      → ParkStep s (record s { worker = committed })
  park_filled :
      (s : State) → s.worker ≡ test_inbox → s.inbox ≢ 0 → ParkStep s (record s { worker = leaving })
  -- waiting gives the lock back at once
  park_waits :
      (s : State) → s.worker ≡ committed → ParkStep s (record s { lock = free; worker = waiting })
  -- a condition variable may wake for no reason
  park_wakes : (s : State) → s.worker ≡ waiting → ParkStep s (record s { worker = woken })
  park_times_out : (s : State) → s.worker ≡ waiting → ParkStep s (record s { worker = timed_out })
  park_again :
      (s : State)
      → s.worker ≡ woken
      → s.lock ≡ free
      → ParkStep s (record s { lock = by_worker; worker = test_running })
  park_breaks :
      (s : State)
      → s.worker ≡ timed_out
      → s.lock ≡ free
      → ParkStep s (record s { lock = by_worker; worker = leaving })
  park_clears :
      (s : State)
      → s.worker ≡ leaving
      → ParkStep s (record s { is_parked = false; worker = parted })
  park_returns :
      (s : State) → s.worker ≡ parted → ParkStep s (record s { lock = free; worker = looking })

pub data Step : State → State → Type 0 where
  by_call : {s t : State} → CallStep s t → Step s t
  by_unpark : {s t : State} → UnparkStep s t → Step s t
  by_drain : {s t : State} → DrainStep s t → Step s t
  by_park : {s t : State} → ParkStep s t → Step s t

-- Any number of accesses.
pub data Reach (s : State) : State → Type 0 where
  here : Reach s s
  step : {t u : State} → Reach s t → Step t u → Reach s u

-- Any number of accesses of threads that are in `unpark` already.
pub data Helps (s : State) : State → Type 0 where
  enough : Helps s s
  help : {t u : State} → Helps s t → UnparkStep t u → Helps s u
