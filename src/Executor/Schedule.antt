-- ===== src/Executor/Schedule.antt =====
-- `schedule`, with and without an index (executor.hpp), on the tasks held.
use my_async_lib.Base.{
  ℕ, ◌<◌, ◌≡◌, ◌≢◌, refl, ◌∙◌, List, [], ◌∷◌, ◌++◌, arith, ◌==◌, length, get_or, set, count,
  count-append, count-take-drop, take, drop, ap, dec_lt, if_ind, leb_of_le, leb_of_lt, ltb, ◌&&◌,
  ==_of_ne, ==_of_eq, eq_of_==,
}
use my_async_lib.Base.Store.{Store, write, write_ne, write_self}
use my_async_lib.Constants.{default_spmc_capacity}
use my_async_lib.Mpmc.Fifo.{IsQueue-frame}
use my_async_lib.Spmc
use my_async_lib.Spmc.Refine.{IsDeque, half_count}
use my_async_lib.Spmc.Refine as Deque
use my_async_lib.Executor.{
  Worker, Executor, Caller, worker, set_worker, push_inbox, unpark, wake_first, wake_any_worker,
  post, offload, schedule_local, schedule_on, schedule,
}
use my_async_lib.Executor.Choice.{target_least}
use my_async_lib.Executor.Spill.{push_global-Keeps, offload-Keeps}
use my_async_lib.Executor.Held.{
  View, no_tasks, IsWorker, load, AllWorkers, total, Holds, Keeps, AllWorkers-get, AllWorkers-set,
  AllWorkers-frame, length-AllWorkers, load-set, keep, Keeps-trans, set_worker-Keeps,
}

IsWorker-unpark : (m : Store) (w : Worker) (v : View) → IsWorker m w v → IsWorker m (unpark w) v
unfolding unpark
IsWorker-unpark m w v h =
    if_ind (λ u. IsWorker m u v) w.is_parked
      (λ _. record { slot = h.slot; local = h.local; inbox = h.inbox }) (λ _. h)

AllWorkers-wake_first :
    (m : Store) (ws : List Worker) (vs : List View)
    → AllWorkers m ws vs
    → AllWorkers m (wake_first ws) vs
unfolding wake_first
AllWorkers-wake_first m [] [] h = h
AllWorkers-wake_first m [] (v ∷ vs) h = h
AllWorkers-wake_first m (w ∷ ws) [] h = absurd h
AllWorkers-wake_first m (w ∷ ws) (v ∷ vs) h =
    if_ind (λ us. AllWorkers m us (v ∷ vs)) w.is_parked (λ _. (IsWorker-unpark m w v h.0, h.1))
      (λ _. (h.0, AllWorkers-wake_first m ws vs h.1))

wake_any_worker-Keeps :
    {s : Executor} {hand : List ℕ} {before : ℕ → ℕ}
    → Keeps s hand before
    → Keeps (wake_any_worker s) hand before
unfolding wake_any_worker
wake_any_worker-Keeps {s} k = record {
  vs = k.vs;
  gs = k.gs;
  holds = record {
    workers = AllWorkers-wake_first s.next s.workers k.vs k.holds.workers;
    global = k.holds.global;
    once = k.holds.once;
    nonnull = k.holds.nonnull;
  };
  balance = k.balance;
}

push_inbox-eq :
    (m : Store) (w : Worker) (t : ℕ)
    → t ≢ 0
    → push_inbox m w t ≡ (write m t w.inbox, record w { inbox = t })
unfolding push_inbox
push_inbox-eq m w t ne = rw (==_of_ne t 0 ne)

module _ {s : Executor} {vs : List View} {gs : List ℕ} (t : ℕ) {hand : List ℕ}
    (h : Holds s vs gs (t ∷ hand)) where
  held_ne_null : t ≢ 0
  held_ne_null e = ground (arith, h.nonnull)

  not_in_global : count t gs ≡ 0
  not_in_global = ground (arith, h.once t)

  -- Writing the `next` field of a task in hand keeps what the executor holds.
  write_hand : (v a : ℕ) → 0 < load a vs → write s.next t v a ≡ s.next a
  write_hand v a p = write_ne s.next t v a (λ e. ground (arith, h.once t))

  spared : (v : ℕ) → AllWorkers (write s.next t v) s.workers vs
  spared v = AllWorkers-frame s.next _ s.workers vs h.workers (write_hand v)

  pub post-Keeps :
      (i : ℕ) → i < length s.workers → Keeps (post s i t) hand (λ a. total a vs gs (t ∷ hand))
  unfolding post
  post-Keeps i inside = rw (push_inbox-eq s.next (worker s i) t held_ne_null) (
      keep (set vs i new) gs hand h
        (AllWorkers-set _ s.workers vs i (spared _) (IsWorker-unpark _ _ new posted))
        (IsQueue-frame s.next t _ gs h.global not_in_global) balance)
    where
      v : View
      v = get_or vs i no_tasks

      new : View
      new = record v { inbox = t ∷ v.inbox }

      old : IsWorker (write s.next t (worker s i).inbox) (worker s i) v
      old = AllWorkers-get _ s.workers vs i (spared _)

      posted : IsWorker (write s.next t (worker s i).inbox) (record (worker s i) { inbox = t }) new
      posted = record {
        slot = old.slot;
        local = old.local;
        inbox = (refl, held_ne_null, rw (write_self s.next t (worker s i).inbox) old.inbox);
      }

      balance : (a : ℕ) → total a (set vs i new) gs hand ≡ total a vs gs (t ∷ hand)
      balance a =
          omega
            (arith, load-set a vs i new (omega (arith, length-AllWorkers _ s.workers vs h.workers)))

  module _ (i : ℕ) (inside : i < length s.workers) where
    abbrev own : View
    own = get_or vs i no_tasks

    abbrev cap : ℕ
    cap = default_spmc_capacity

    abbrev Delivered : Executor → Type 0
    Delivered s' = Keeps s' hand (λ a. total a vs gs (t ∷ hand))

    own-IsWorker : IsWorker s.next (worker s i) own
    own-IsWorker = AllWorkers-get s.next s.workers vs i h.workers

    to_slot :
        (worker s i).lifo_slot ≡ 0
        → Delivered (set_worker s i (record (worker s i) { lifo_slot = t }))
    to_slot free =
        set_worker-Keeps i _ (record own { slot = t ∷ [] }) hand h inside
          (record {
            slot = rw (==_of_ne t 0 held_ne_null);
            local = own-IsWorker.local;
            inbox = own-IsWorker.inbox;
          })
          (λ a. omega (arith, ap (count a) was_free))
      where
        was_free : own.slot ≡ []
        was_free = own-IsWorker.slot ∙ rw (==_of_eq (worker s i).lifo_slot 0 free)

    to_deque :
        length own.local < cap
        → Delivered (
            set_worker s i (record (worker s i) { queue = (Spmc.push cap (worker s i).queue t).0 }))
    to_deque room =
        set_worker-Keeps i _ (record own { local = own.local ++ (t ∷ []) }) hand h inside
          (record {
            slot = own-IsWorker.slot;
            local = (Deque.push-append cap own-IsWorker.local t room).1;
            inbox = own-IsWorker.inbox;
          })
          (λ a. omega (arith, count-append a own.local (t ∷ [])))

    -- The deque loses its first half, which with the task goes to the global queue.
    spill :
        let (q, batch) = Spmc.take_half cap (worker s i).queue in
        Delivered
          (wake_any_worker (offload (set_worker s i (record (worker s i) { queue = q })) batch t))
    spill =
        rw halves.0
          (wake_any_worker-Keeps (Keeps-trans emptied (offload-Keeps first t hand emptied.holds)))
      where
        k : ℕ
        k = half_count own.local

        first : List ℕ
        first = take k own.local

        halves :
            ((Spmc.take_half cap (worker s i).queue).1 ≡ first)
            × IsDeque cap (Spmc.take_half cap (worker s i).queue).0 (drop k own.local)
        halves = Deque.take_half-take cap own.local own-IsWorker.local

        emptied :
            Keeps
              (set_worker s i
                (record (worker s i) { queue = (Spmc.take_half cap (worker s i).queue).0 }))
              (first ++ (t ∷ hand))
              (λ a. total a vs gs (t ∷ hand))
        emptied =
            set_worker-Keeps i _ (record own { local = drop k own.local }) (first ++ (t ∷ hand)) h
              inside
              (record { slot = own-IsWorker.slot; local = halves.1; inbox = own-IsWorker.inbox })
              (λ a. omega (arith, count-append a first (t ∷ hand), count-take-drop a k own.local))

    -- The owner's way: the slot, else the deque, else half of it to the global queue.
    pub schedule_local-Keeps : Delivered (schedule_local s t i)
    unfolding schedule_local
    schedule_local-Keeps =
        if_ind Delivered ((worker s i).lifo_slot == 0) (λ e. to_slot (eq_of_== _ 0 e))
          λ _. elim (dec_lt (length own.local) cap) [
            | yes room ↦ rw (Deque.push-append cap own-IsWorker.local t room).0 (to_deque room)
            | no full ↦
                rw
                  (Deque.push-full cap own-IsWorker.local t
                    (omega (arith, own-IsWorker.local.fits)))
                  spill
          ]

-- `schedule(task, thread_id)` from any thread and for any index, in range or not: the executor then
-- holds the task in hand, and every task is held in as many places as before, at most one.
pub schedule_on-Keeps :
    {s : Executor} {vs : List View} {gs hand : List ℕ} (c : Caller) (t i : ℕ)
    → Holds s vs gs (t ∷ hand)
    → Keeps (schedule_on s c t i) hand (λ a. total a vs gs (t ∷ hand))
unfolding schedule_on
schedule_on-Keeps {s} {vs} {gs} {hand} c t i h =
    rw (==_of_ne t 0 (held_ne_null t h)) (elim (dec_lt i (length s.workers)) [
      | yes inside ↦ rw (leb_of_lt (length s.workers) i inside) (
          if_ind Delivered' (c.same_executor && (c.thread_id == i))
            (λ _. schedule_local-Keeps t h i inside) (λ _. post-Keeps t h i inside))
      | no outside ↦
          rw (leb_of_le (length s.workers) i (omega arith))
            (wake_any_worker-Keeps (push_global-Keeps t hand h))
    ])
  where
    Delivered' : Executor → Type 0
    Delivered' s' = Keeps s' hand (λ a. total a vs gs (t ∷ hand))

-- `schedule(task)` of a task in hand, on an executor with a worker: afterwards the executor holds
-- the task, the other tasks in hand are as they were, and the number of places in which each task
-- is held is what it was before, at most one. This is so on every way that the task takes (own
-- slot, own deque, half of the deque to the global queue, another worker's inbox).
pub schedule-Keeps :
    {s : Executor} {vs : List View} {gs hand : List ℕ} (c : Caller) (t : ℕ)
    → 0 < length s.workers
    → Holds s vs gs (t ∷ hand)
    → Keeps (schedule s c t).0 hand (λ a. total a vs gs (t ∷ hand))
unfolding schedule
schedule-Keeps {s} {vs} {gs} {hand} c t some_worker h = rw (==_of_ne t 0 (held_ne_null t h)) (
    if_ind Goal (c.same_executor && ltb c.thread_id (length s.workers))
      (λ _. schedule_on-Keeps c t c.thread_id h)
      λ _.
        if_ind Goal (length s.workers == 1) (λ _. post-Keeps t h 0 some_worker)
          λ many. post-Keeps t h _ (target_least s _ _ (ground arith)).0)
  where
    Goal : Executor × Caller → Type 0
    Goal r = Keeps r.0 hand (λ a. total a vs gs (t ∷ hand))
