-- ===== src/WorkerLoop/Round.antt =====
-- A whole search of `WorkerLoop` (executor.hpp), steps 1 to 6, on the tasks held.
use my_async_lib.Base.Store.{Chain, Chain-unique}
use my_async_lib.WorkerLoop.Fuel.{poll_first-inbox}
use my_async_lib.Base.{
  ap, ℕ, ◌%◌, ◌≤◌, ◌<◌, ◌≡◌, refl, subst, List, ◌++◌, arith, ◌==◌, if◌then◌else◌, length, get_or,
  length-set, eq_of_==, if_ind, Option, some, Bool-cases, inl, inr,
}
use my_async_lib.Constants.{global_check_interval}
use my_async_lib.Executor.{Executor, worker}
use my_async_lib.Executor.Held.{
  Holds, View, no_tasks, slot_items, IsWorker, total, Keeps, AllWorkers-get, set_worker-Keeps,
  Keeps-trans,
}
use my_async_lib.WorkerLoop.{
  Found, or_else, poll_global, poll_slot, poll_local, poll_inbox, ticked, poll_first, poll_last,
  after_inbox, next_task,
}
use my_async_lib.WorkerLoop.Poll.{
  Polled, Polled-none, Polled-trans, or_else-Polled, poll_global-Polled, poll_slot-Polled,
  poll_local-Polled,
}
use my_async_lib.WorkerLoop.Inbox.{poll_inbox-Polled}
use my_async_lib.WorkerLoop.Steal.{steal_task-Polled}

pub nothing_taken :
    {n : ℕ} {hand : List ℕ} {before : ℕ → ℕ} (r : Found)
    → Polled n r hand before
    → r.1 ≡ 0
    → Keeps r.0 hand before
nothing_taken {hand} {before} (s, task) p e =
    subst (λ t. Keeps s (slot_items t ++ hand) before) e p.keeps

Taken_at :
    {n : ℕ} {s : Executor} {hand : List ℕ} {before : ℕ → ℕ} {o : Option Found}
    → length s.workers ≡ n
    → (k : Keeps s hand before)
    → ((r : Found) × (o ≡ some r) × Polled (length s.workers) r hand (λ a. total a k.vs k.gs hand))
    → (r : Found) × (o ≡ some r) × Polled n r hand before
Taken_at {hand} size k (r, e, p) =
    (r, e, Polled-trans k (subst (λ m. Polled m r hand (λ a. total a k.vs k.gs hand)) size p))

-- The round ends, and what it found is in hand.
abbrev pub Ends : ℕ → List ℕ → (ℕ → ℕ) → Option (Found × ℕ) → Type 0
Ends n hand before o = (r : Found × ℕ) × (o ≡ some r) × Polled n r.0 hand before

module _ {n : ℕ} {hand : List ℕ} {before : ℕ → ℕ} (i : ℕ) (inside : i < n) where
  -- One more poll at an executor of `n` workers.
  then_global :
      {s : Executor}
      → length s.workers ≡ n
      → Keeps s hand before
      → Polled n (poll_global s) hand before
  then_global {s} size k = Polled-trans k (
      subst (λ m. Polled m (poll_global s) hand (λ a. total a k.vs k.gs hand)) size
        (poll_global-Polled k.holds))

  then_slot :
      {s : Executor}
      → length s.workers ≡ n
      → Keeps s hand before
      → Polled n (poll_slot s i) hand before
  then_slot {s} size k = Polled-trans k (
      subst (λ m. Polled m (poll_slot s i) hand (λ a. total a k.vs k.gs hand)) size
        (poll_slot-Polled k.holds i (omega (arith, size))))

  then_local :
      {s : Executor}
      → length s.workers ≡ n
      → Keeps s hand before
      → Polled n (poll_local s i) hand before
  then_local {s} size k = Polled-trans k (
      subst (λ m. Polled m (poll_local s i) hand (λ a. total a k.vs k.gs hand)) size
        (poll_local-Polled k.holds i (omega (arith, size))))

  poll_first-Polled :
      {s : Executor}
      → length s.workers ≡ n
      → Keeps s hand before
      → Polled n (poll_first s i) hand before
  unfolding poll_first
  poll_first-Polled {s} size k =
      or_else-Polled _ (λ s'. poll_slot s' i)
        (if_ind (λ r. Polled n r hand before) ((worker s i).tick % global_check_interval == 0)
          (λ _. then_global size k) (λ _. Polled-none size k))
        then_slot

  then_global_or :
      (r : Found) → Polled n r hand before → Polled n (or_else r poll_global) hand before
  then_global_or r p = or_else-Polled r poll_global p then_global

  poll_last-Polled :
      {s : Executor} (random : ℕ)
      → length s.workers ≡ n
      → Keeps s hand before
      → Polled n (poll_last s i random).0 hand before
  unfolding poll_last
  poll_last-Polled {s} random size k =
      if_ind (λ (r : Found × ℕ). Polled n r.0 hand before) ((poll_local s i).1 == 0)
        (λ e.
          let left = then_local size k in
          then_global_or _ (
            steal_task-Polled i random inside left.size
              (nothing_taken (poll_local s i) left (eq_of_== _ 0 e))))
        (λ _. then_local size k)

  after_inbox-Ends :
      (random : ℕ) {o : Option Found}
      → ((r : Found) × (o ≡ some r) × Polled n r hand before)
      → Ends n hand before (after_inbox i random o)
  after_inbox-Ends random ((s, task), e, p) = rw e (
    _,
    refl,
    if_ind (λ (r : Found × ℕ). Polled n r.0 hand before) (task == 0)
        (λ z. poll_last-Polled random p.size (nothing_taken (s, task) p (eq_of_== task 0 z)))
        (λ _. p),
  )

  ticked-Keeps :
      {s : Executor} → length s.workers ≡ n → Keeps s hand before → Keeps (ticked s i) hand before
  ticked-Keeps {s} size k = Keeps-trans k (
      set_worker-Keeps i _ (get_or k.vs i no_tasks) hand k.holds (omega (arith, size))
        (record { slot = own.slot; local = own.local; inbox = own.inbox }) (λ a. refl))
    where
      own : IsWorker s.next (worker s i) (get_or k.vs i no_tasks)
      own = AllWorkers-get s.next s.workers k.vs i k.holds.workers

  -- Behind steps 1 and 2, with `xs` in the inbox.
  inbox_next :
      (xs : List ℕ) (fuel : ℕ) (r : Found) (random : ℕ)
      → Polled n r hand before
      → Chain r.0.next (worker r.0 i).inbox xs
      → length xs ≤ fuel
      → Ends n hand before
          (if r.1 == 0 then after_inbox i random (poll_inbox fuel r.0 i) else some (r, random))
  inbox_next xs fuel (s, task) random p c enough = elim (Bool-cases (task == 0)) [
    | inl z ↦
        let k = nothing_taken (s, task) p (eq_of_== task 0 z) in
        let same =
          Chain-unique s.next (worker s i).inbox (get_or k.vs i no_tasks).inbox xs
            (AllWorkers-get s.next s.workers k.vs i k.holds.workers).inbox c in
        rw z (
          after_inbox-Ends random (
            Taken_at p.size k (
              poll_inbox-Polled i k.holds (omega (arith, p.size)) fuel
                (omega (arith, ap length same)))))
    | inr z ↦ rw z (((s, task), random), refl, p)
  ]

-- One search of worker `i` for a task, steps 1 to 6 of `WorkerLoop`: with fuel for the tasks in the
-- worker's inbox it ends; the task found, if any, is in hand afterwards; the number of workers is
-- kept, and every task is held in as many places as before, at most one.
pub next_task-Polled :
    {s : Executor} {vs : List View} {gs hand : List ℕ} (i fuel random : ℕ)
    → i < length s.workers
    → Holds s vs gs hand
    → length (get_or vs i no_tasks).inbox ≤ fuel
    → Ends (length s.workers) hand (λ a. total a vs gs hand) (next_task fuel s i random)
unfolding next_task
next_task-Polled {s} {vs} {gs} {hand} i fuel random inside h enough =
    inbox_next i inside (get_or vs i no_tasks).inbox fuel (poll_first (ticked s i) i) random
      (poll_first-Polled i inside (length-set s.workers i _) (ticked-Keeps i inside refl start))
      (poll_first-inbox h i inside) enough
  where
    start : Keeps s hand (λ a. total a vs gs hand)
    start = record { vs = vs; gs = gs; holds = h; balance = λ a. refl }
