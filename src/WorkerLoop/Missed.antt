-- ===== src/WorkerLoop/Missed.antt =====
-- Steps of the search of `WorkerLoop` (executor.hpp) that find no task.
use my_async_lib.Base.{
  ℕ, zero, suc, ◌≡◌, ◌≢◌, refl, sym, subst, ap, ◌∙◌, List, [], ◌∷◌, arith, ◌==◌, length, get_or,
  set, count, length-set, ==_of_ne, ==_of_eq, eq_of_==, ne_of_==, ◌⊎◌, inl, inr, Bool-cases, Option,
  none, some,
}
use mathlib.Core.Option.{some-injective}
use my_async_lib.Base.Store.{Store, Chain-null}
use my_async_lib.Constants.{default_spmc_capacity}
use my_async_lib.Mpmc
use my_async_lib.Mpmc.Fifo.{pop-Popped, Popped}
use my_async_lib.Executor.{Worker, Executor, worker, set_worker, pop_all_inbox}
use my_async_lib.Executor.Held.{
  View, no_tasks, slot_items, IsWorker, Holds, AllWorkers, AllWorkers-get, AllWorkers-set,
  AllWorkers-frame, weight-le-load,
}
use my_async_lib.WorkerLoop.{Found, or_else, poll_global, poll_slot, poll_inbox, after_drain}

module _ (n : ℕ) (vs : List View) (gs hand : List ℕ) where
  -- An executor of `n` workers with these tasks.
  abbrev pub Has : Executor → Type 0
  Has s = (length s.workers ≡ n) × Holds s vs gs hand

  -- A task was found, or none was, all are where they were, and `Empty` holds.
  abbrev pub Outcome : Type 0 → Found → Type 0
  Outcome Empty r = (r.1 ≢ 0) ⊎ ((r.1 ≡ 0) × Has (r.0) × Empty)

  pub or_else-Outcome :
      {Empty Empty' : Type 0} (r : Found) (next : Executor → Found)
      → Outcome Empty r
      → ((s : Executor) → Has s → Outcome Empty' (next s))
      → Outcome (Empty × Empty') (or_else r next)
  or_else-Outcome (s, task) next (inl ne) continue = rw (==_of_ne task 0 ne) (inl ne)
  or_else-Outcome (s, task) next (inr (e, has, empty)) continue =
      rw (==_of_eq task 0 e) (elim (continue s has) [
        | inl ne ↦ inl ne
        | inr (e', has', empty') ↦ inr (e', has', (empty, empty'))
      ])

  set-get : (us : List View) (i : ℕ) → set us i (get_or us i no_tasks) ≡ us
  set-get [] i = refl
  set-get (u ∷ us) zero = refl
  set-get (u ∷ us) (suc i) = ap (λ ws. u ∷ ws) (set-get us i)

  -- A worker changes, and its tasks do not.
  pub same_tasks :
      {s : Executor} (i : ℕ) (w : Worker)
      → Has s
      → IsWorker s.next w (get_or vs i no_tasks)
      → Has (set_worker s i w)
  same_tasks {s} i w (size, h) is = (
    length-set s.workers i w ∙ size,
    record {
      workers =
          subst (AllWorkers s.next (set s.workers i w)) (set-get vs i)
            (AllWorkers-set s.next s.workers vs i h.workers is);
      global = h.global;
      once = h.once;
      nonnull = h.nonnull;
    },
  )

  abbrev own : ℕ → View
  own i = get_or vs i no_tasks

  abbrev cap : ℕ
  cap = default_spmc_capacity

  own-IsWorker : {s : Executor} (i : ℕ) → Has s → IsWorker s.next (worker s i) (own i)
  own-IsWorker {s} i (size, h) = AllWorkers-get s.next s.workers vs i h.workers

  -- No task of a worker's deque is `nullptr`.
  local_null : {s : Executor} (i : ℕ) → Has s → count 0 (own i).local ≡ 0
  local_null i (size, h) = omega (arith, h.nonnull, weight-le-load 0 vs i)

  popped_global :
      {s : Executor} (r : Store × Mpmc.Queue × ℕ) (xs : List ℕ)
      → gs ≡ xs
      → Has s
      → Popped s.next xs r
      → Outcome (gs ≡ []) (record s { next = r.0; global_queue = r.1 }, r.2)
  popped_global {s} (m, q, task) [] e (size, h) (is, null, same) = inr (
    null,
    (
      size,
      record {
        workers = AllWorkers-frame s.next m s.workers vs h.workers (λ a _. same a);
        global = rw e is;
        once = h.once;
        nonnull = h.nonnull;
      },
    ),
    e,
  )
  popped_global (m, q, task) (x ∷ xs) e (size, h) p =
      inl (λ z. ground (arith, h.nonnull, ap (count 0) e, z, p.1))

  pub poll_global-Outcome : (s : Executor) → Has s → Outcome (gs ≡ []) (poll_global s)
  unfolding poll_global
  poll_global-Outcome s has =
      popped_global (Mpmc.pop s.next s.global_queue) gs refl has
        (pop-Popped s.next s.global_queue gs (has.1).global)

  pub poll_slot-Outcome :
      (i : ℕ) (s : Executor) → Has s → Outcome ((own i).slot ≡ []) (poll_slot s i)
  unfolding poll_slot
  poll_slot-Outcome i s has =
      let is = own-IsWorker i has in
      elim (Bool-cases ((worker s i).lifo_slot == 0)) [
        | inl z ↦
            let e = eq_of_== (worker s i).lifo_slot 0 z in
            let no_slot : (own i).slot ≡ [] = is.slot ∙ ap slot_items e in
            inr (
              e,
              same_tasks i (record (worker s i) { lifo_slot = 0 }) has
                  (record { slot = no_slot; local = is.local; inbox = is.inbox }),
              no_slot,
            )
        | inr z ↦ inl (ne_of_== (worker s i).lifo_slot 0 z)
      ]

  drained_task :
      (o : Option Executor) (first : ℕ) (r : Found) → after_drain o first ≡ some r → r.1 ≡ first
  drained_task none first r e = absurd (cc e)
  drained_task (some s) first r e = ap (λ (x : Found). x.1) (sym (some-injective _ _ e))

  pub poll_inbox-Outcome :
      (i fuel : ℕ) (s : Executor) (r : Found)
      → Has s
      → poll_inbox fuel s i ≡ some r
      → Outcome ((own i).inbox ≡ []) r
  unfolding poll_inbox pop_all_inbox
  poll_inbox-Outcome i fuel s r has e = elim (Bool-cases ((worker s i).inbox == 0)) [
    | inl z ↦
        let no_first = eq_of_== (worker s i).inbox 0 z in
        let is = own-IsWorker i has in
        let none_in = Chain-null s.next (worker s i).inbox (own i).inbox is.inbox no_first in
        let same : some (set_worker s i (worker s i), 0) ≡ some r = simp (z) at e in
        subst (Outcome ((own i).inbox ≡ [])) (some-injective _ _ same)
          (inr (refl, same_tasks i (worker s i) has is, none_in))
    | inr z ↦
        let found : r.1 ≡ (worker s i).inbox = drained_task _ _ r (simp (z) at e) in
        inl (λ none_yet. ne_of_== (worker s i).inbox 0 z (sym found ∙ none_yet))
  ]

  pub Outcome-map :
      {Empty Empty' : Type 0} {r : Found} → (Empty → Empty') → Outcome Empty r → Outcome Empty' r
  Outcome-map f (inl ne) = inl ne
  Outcome-map f (inr (e, has, empty)) = inr (e, has, f empty)
