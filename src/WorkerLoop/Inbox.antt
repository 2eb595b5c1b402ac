-- ===== src/WorkerLoop/Inbox.antt =====
-- The inbox step of `WorkerLoop` (executor.hpp) on the tasks held.
use my_async_lib.Base.{
  ℕ, zero, suc, ◌≤◌, ◌<◌, ◌≡◌, ◌≢◌, refl, sym, ap, ◌∙◌, subst, List, [], ◌∷◌, ◌++◌, arith, length,
  get_or, count, count-append, length-set, ==_of_ne, ==_of_eq, Option, some,
}
use my_async_lib.Base.Store.{write, write_ne, Chain, Seg-write, frame}
use my_async_lib.Executor.{Executor, worker, set_worker, pop_all_inbox}
use my_async_lib.Executor.Held.{
  write_hand-Keeps, View, no_tasks, IsWorker, total, Holds, Keeps, AllWorkers-get, weight-le-load,
  set_worker-Keeps, Keeps-trans,
}
use my_async_lib.WorkerLoop.{Found, push_or_spill, drain, poll_inbox}
use my_async_lib.WorkerLoop.Poll.{
  Polled, Polled-none, push_or_spill-Keeps, push_or_spill-spares, length-push_or_spill,
}

-- The walk over the rest of the inbox ends, and hands every task on.
drain-Keeps :
    {n : ℕ} {hand : List ℕ} {before : ℕ → ℕ} (xs : List ℕ) (fuel : ℕ) {s : Executor} (i curr : ℕ)
    → i < n
    → length s.workers ≡ n
    → length xs < fuel
    → Chain s.next curr xs
    → Keeps s (xs ++ hand) before
    → (s' : Executor) × (drain fuel s i curr ≡ some s')
      × (length s'.workers ≡ n)
      × Keeps s' hand before
unfolding drain
drain-Keeps [] zero i curr inside size short c k = absurd (omega arith)
drain-Keeps (x ∷ xs) zero i curr inside size short c k = absurd (omega arith)
drain-Keeps [] (suc fuel) {s} i curr inside size short c k = (s, rw (==_of_eq curr 0 c), size, k)
drain-Keeps {n} {hand} {before} (x ∷ xs) (suc fuel) {s} i curr inside size short c k =
    rw (c.0, ==_of_ne x 0 c.1)
      (drain-Keeps xs fuel i (s.next x) inside (length-push_or_spill s1 i x ∙ size) (omega arith)
        chain
        (Keeps-trans unlinked (push_or_spill-Keeps x (xs ++ hand) unlinked.holds i (omega arith))))
  where
    s1 : Executor
    s1 = record s { next = write s.next x 0 }

    unlinked : Keeps s1 (x ∷ (xs ++ hand)) before
    unlinked = write_hand-Keeps x 0 k (ground arith)

    same : (a : ℕ) → 0 < count a xs → (push_or_spill s1 i x).next a ≡ s.next a
    same a p =
        push_or_spill-spares x (xs ++ hand) unlinked.holds i a
          (omega (arith, count-append a xs hand))
        ∙ write_ne s.next x 0 a (λ e. ground (arith, k.holds.once x, count-append x xs hand))

    chain : Chain (push_or_spill s1 i x).next (s.next x) xs
    chain = frame s.next _ 0 (s.next x) xs c.2 same

module _ {s : Executor} {vs : List View} {gs hand : List ℕ} (i : ℕ) (h : Holds s vs gs hand)
    (inside : i < length s.workers) where
  abbrev own : View
  own = get_or vs i no_tasks

  abbrev first : ℕ
  first = (worker s i).inbox

  abbrev Taken : Option Found → Type 0
  Taken o = (r : Found) × (o ≡ some r) × Polled (length s.workers) r hand (λ a. total a vs gs hand)

  own-IsWorker : IsWorker s.next (worker s i) own
  own-IsWorker = AllWorkers-get s.next s.workers vs i h.workers

  inbox_empty : first ≡ 0 → (fuel : ℕ) → Taken (poll_inbox fuel s i)
  unfolding poll_inbox pop_all_inbox
  inbox_empty e fuel = rw (==_of_eq first 0 e) (
    (set_worker s i (worker s i), 0),
    refl,
    Polled-none (length-set s.workers i _)
        (set_worker-Keeps i (worker s i) own hand h inside own-IsWorker (λ a. refl)),
  )

  -- The executor that the walk over the rest of the inbox starts from.
  abbrev opened : Executor
  opened = record (set_worker s i (record (worker s i) { inbox = 0 })) {
    next = write s.next first 0;
  }

  drained_inbox :
      (fuel : ℕ) (s' : Executor)
      → first ≢ 0
      → drain fuel opened i (s.next first) ≡ some s'
      → length s'.workers ≡ length s.workers
      → Keeps s' (first ∷ hand) (λ a. total a vs gs hand)
      → Taken (poll_inbox fuel s i)
  unfolding poll_inbox pop_all_inbox
  drained_inbox fuel s' ne drained size k =
      rw (==_of_ne first 0 ne, ==_of_ne first 0 ne, drained)
        ((s', first), refl, record { size = size; keeps = rw (==_of_ne first 0 ne) k })

  inbox_full :
      (xs : List ℕ) (fuel : ℕ)
      → own.inbox ≡ first ∷ xs
      → Chain s.next first (first ∷ xs)
      → length xs < fuel
      → Taken (poll_inbox fuel s i)
  inbox_full xs fuel e c enough =
      let (s', drained, size, k) =
        drain-Keeps xs fuel i (s.next first) inside (length-set s.workers i _) enough chain
          unlinked in
      drained_inbox fuel s' c.1 drained size k
    where
      s1 : Executor
      s1 = set_worker s i (record (worker s i) { inbox = 0 })

      emptied : Keeps s1 (xs ++ (first ∷ hand)) (λ a. total a vs gs hand)
      emptied =
          set_worker-Keeps i _ (record own { inbox = [] }) _ h inside
            (record { slot = own-IsWorker.slot; local = own-IsWorker.local; inbox = refl })
            (λ a. omega (arith, ap (count a) e, count-append a xs (first ∷ hand)))

      unlinked : Keeps opened (xs ++ (first ∷ hand)) (λ a. total a vs gs hand)
      unlinked =
          write_hand-Keeps first 0 emptied (ground (arith, count-append first xs (first ∷ hand)))

      chain : Chain (write s.next first 0) (s.next first) xs
      chain =
          Seg-write s.next 0 (s.next first) first 0 xs c.2
            (ground (arith, h.once first, weight-le-load first vs i, ap (count first) e))

  inbox_cases :
      (xs : List ℕ) (fuel : ℕ)
      → own.inbox ≡ xs
      → Chain s.next first xs
      → length xs < suc fuel
      → Taken (poll_inbox fuel s i)
  inbox_cases [] fuel e c enough = inbox_empty c fuel
  inbox_cases (x ∷ xs) fuel e c enough =
      let head : x ≡ first = sym c.0 in
      inbox_full xs fuel (e ∙ ap (λ y. y ∷ xs) head)
        (subst (λ y. Chain s.next first (y ∷ xs)) head c) (omega arith)

  -- Step 3 of `WorkerLoop`, which empties the worker's inbox, ends with fuel for the tasks in it;
  -- the task found, if any, is in hand, the number of workers is kept, and every task is held in as
  -- many places as before, at most one.
  pub poll_inbox-Polled : (fuel : ℕ) → length own.inbox ≤ fuel → Taken (poll_inbox fuel s i)
  poll_inbox-Polled fuel enough = inbox_cases own.inbox fuel refl own-IsWorker.inbox (omega arith)
