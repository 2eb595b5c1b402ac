-- ===== src/WorkerLoop/Idle.antt =====
-- A search of `WorkerLoop` (executor.hpp) that finds no task.
use my_async_lib.Base.{
  ℕ, ◌+◌, ◌%◌, ◌≤◌, ◌<◌, ◌≡◌, ◌≢◌, refl, sym, subst, List, [], ◌==◌, length, get_or, arith,
  ==_of_ne, ==_of_eq, ◌⊎◌, inl, inr, Bool-cases, Option, none, some,
}
use mathlib.Core.Option.{some-injective}
use my_async_lib.Constants.{global_check_interval}
use my_async_lib.Executor.{Executor, worker}
use my_async_lib.Executor.Held.{View, no_tasks, IsWorker, Holds, AllWorkers-get, length-AllWorkers}
use my_async_lib.WorkerLoop.{
  Found, or_else, poll_global, poll_slot, poll_local, poll_inbox, ticked, poll_first, poll_last,
  steal_task, after_inbox, next_task,
}
use my_async_lib.WorkerLoop.Missed.{
  Has, Outcome, Outcome-map, or_else-Outcome, same_tasks, poll_global-Outcome, poll_slot-Outcome,
  poll_inbox-Outcome,
}
use my_async_lib.WorkerLoop.Deques.{poll_local-Outcome, steal_task-Outcome, OthersEmpty}
use my_async_lib.WorkerLoop.Round.{next_task-Polled}

-- Worker `i` has nothing, no worker's deque has a task, and neither has the global queue.
pub record IsIdle (i : ℕ) (vs : List View) (gs : List ℕ) : Type 0 where
  pub slot : (get_or vs i no_tasks).slot ≡ []
  pub inbox : (get_or vs i no_tasks).inbox ≡ []
  pub local : (j : ℕ) → j < length vs → (get_or vs j no_tasks).local ≡ []
  pub global : gs ≡ []

module _ (n : ℕ) (vs : List View) (gs hand : List ℕ) (i : ℕ) (inside : i < n) where
  abbrev own : View
  own = get_or vs i no_tasks

  ticked-Has : (s : Executor) → Has n vs gs hand s → Has n vs gs hand (ticked s i)
  ticked-Has s has =
      let is : IsWorker s.next (worker s i) own =
        AllWorkers-get s.next s.workers vs i (has.1).workers in
      same_tasks n vs gs hand i (record (worker s i) { tick = (worker s i).tick + 1 }) has
        (record { slot = is.slot; local = is.local; inbox = is.inbox })

  poll_first-Outcome :
      (s : Executor) → Has n vs gs hand s → Outcome n vs gs hand (own.slot ≡ []) (poll_first s i)
  unfolding poll_first
  poll_first-Outcome s has =
      let due : (r : Found)
          → Outcome n vs gs hand (Unit {0}) r
          → Outcome n vs gs hand (own.slot ≡ []) (or_else r (λ s'. poll_slot s' i)) =
        λ r first.
          Outcome-map n vs gs hand (λ (_, empty). empty)
            (or_else-Outcome n vs gs hand r (λ s'. poll_slot s' i) first
              (poll_slot-Outcome n vs gs hand i)) in
      elim (Bool-cases ((worker s i).tick % global_check_interval == 0)) [
        | inl yes_due ↦ rw yes_due (
            due (poll_global s)
              (Outcome-map n vs gs hand (λ _. tt) (poll_global-Outcome n vs gs hand s has)))
        | inr not_due ↦ rw not_due (due (s, 0) (inr (refl, has, tt)))
      ]

  -- No deque has a task, and neither has the global queue.
  abbrev NoneLeft : Type 0
  NoneLeft = (local_empty : own.local ≡ []) × OthersEmpty n vs gs hand i × (gs ≡ [])

  poll_last-Outcome :
      (random : ℕ) (s : Executor)
      → Has n vs gs hand s
      → Outcome n vs gs hand NoneLeft ((poll_last s i random).0)
  unfolding poll_last
  poll_last-Outcome random s has = elim (poll_local-Outcome n vs gs hand i s has) [
    | inl ne ↦ rw (==_of_ne (poll_local s i).1 0 ne) (inl ne)
    | inr (e, has', empty) ↦ rw (==_of_eq (poll_local s i).1 0 e) (
        Outcome-map n vs gs hand (λ (others, none_global). (empty, others, none_global))
          (or_else-Outcome n vs gs hand ((steal_task (poll_local s i).0 i random).0) poll_global
            (steal_task-Outcome n vs gs hand i random (poll_local s i).0 inside has')
            (poll_global-Outcome n vs gs hand)))
  ]

  after_inbox-Outcome :
      (random fuel : ℕ) (s : Executor) (o : Option Found) (r : Found × ℕ)
      → poll_inbox fuel s i ≡ o
      → Has n vs gs hand s
      → after_inbox i random o ≡ some r
      → Outcome n vs gs hand ((own.inbox ≡ []) × NoneLeft) (r.0)
  after_inbox-Outcome random fuel s none r polled has e = absurd (cc e)
  after_inbox-Outcome random fuel s (some (s', task)) r polled has e =
      elim (poll_inbox-Outcome n vs gs hand i fuel s (s', task) has polled) [
        | inl ne ↦
            let same : some ((s', task), random) ≡ some r = simp (==_of_ne task 0 ne) at e in
            subst (λ (x : Found × ℕ). Outcome n vs gs hand ((own.inbox ≡ []) × NoneLeft) (x.0))
              (some-injective _ _ same) (inl ne)
        | inr (z, has', empty) ↦
            let same : some (poll_last s' i random) ≡ some r = simp (==_of_eq task 0 z) at e in
            subst (λ (x : Found × ℕ). Outcome n vs gs hand ((own.inbox ≡ []) × NoneLeft) (x.0))
              (some-injective _ _ same)
              (Outcome-map n vs gs hand (λ left. (empty, left)) (poll_last-Outcome random s' has'))
      ]

  next_task-Outcome :
      (random fuel : ℕ) (s : Executor) (r : Found × ℕ)
      → Has n vs gs hand s
      → next_task fuel s i random ≡ some r
      → Outcome n vs gs hand ((own.slot ≡ []) × (own.inbox ≡ []) × NoneLeft) (r.0)
  unfolding next_task
  next_task-Outcome random fuel s r has e =
      let first = poll_first (ticked s i) i in
      elim (poll_first-Outcome (ticked s i) (ticked-Has s has)) [
        | inl ne ↦
            let same : some (first, random) ≡ some r = simp (==_of_ne first.1 0 ne) at e in
            subst
              (λ (x : Found × ℕ).
                Outcome n vs gs hand ((own.slot ≡ []) × (own.inbox ≡ []) × NoneLeft) (x.0))
              (some-injective _ _ same) (inl ne)
        | inr (z, has', no_slot) ↦
            let same : after_inbox i random (poll_inbox fuel first.0 i) ≡ some r =
              simp (==_of_eq first.1 0 z) at e in
            Outcome-map n vs gs hand (λ (inbox, left). (no_slot, inbox, left))
              (after_inbox-Outcome random fuel first.0 (poll_inbox fuel first.0 i) r refl has' same)
      ]

-- One search of `WorkerLoop` of a worker, on an executor whose workers' and global tasks are given,
-- with fuel for as many tasks as lie in its inbox: it ends, and if it finds no task, then the
-- worker's slot and inbox are empty, no worker has a task in its deque, and the global queue is
-- empty.
pub next_task-IsIdle :
    {s : Executor} {vs : List View} {gs hand : List ℕ} (i fuel random : ℕ)
    → i < length s.workers
    → Holds s vs gs hand
    → length (get_or vs i no_tasks).inbox ≤ fuel
    → (r : Found × ℕ) × (next_task fuel s i random ≡ some r) × ((r.0.1 ≢ 0) ⊎ IsIdle i vs gs)
next_task-IsIdle {s} {vs} {gs} {hand} i fuel random inside h enough =
    let (r, e, polled) = next_task-Polled i fuel random inside h enough in
    (
      r,
      e,
      elim (next_task-Outcome (length s.workers) vs gs hand i inside random fuel s r (refl, h) e) [
        | inl found ↦ inl found
        | inr (none_found, has, (no_slot, no_inbox, (own_empty, others, no_global))) ↦ inr (record {
          slot = no_slot;
          inbox = no_inbox;
          local = λ j j_in.
              elim (others j
                (omega (arith, j_in, length-AllWorkers s.next s.workers vs h.workers))) [
                  | inl e ↦ subst (λ k. (get_or vs k no_tasks).local ≡ []) (sym e) own_empty
                  | inr empty ↦ empty
                ];
          global = no_global;
        })
      ],
    )
