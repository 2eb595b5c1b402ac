-- ===== src/WorkerLoop/Whole.antt =====
-- `WorkerLoop` (executor.hpp) on the tasks held and run.
use my_async_lib.Base.{
  ℕ, zero, suc, ◌<◌, ◌≤◌, ◌≡◌, refl, sym, subst, ap, ◌∙◌, List, [], ◌∷◌, ◌++◌, length, get_or,
  count, count-append, count-length, length-append, length-set, arith, Option, some, ◌==◌,
  if◌then◌else◌, if_ind, eq_of_==, Bool-cases, inl, inr,
}
use my_async_lib.Base.Store.{Store, Chain}
use my_async_lib.Constants.{default_spmc_capacity}
use my_async_lib.Spmc.Refine.{IsDeque}
use my_async_lib.Executor.{Executor, Worker, worker, set_worker}
use my_async_lib.Executor.Held.{
  View, no_tasks, slot_items, IsWorker, load, total, Holds, Keeps, Keeps-trans, AllWorkers-get,
  set_worker-Keeps,
}
use my_async_lib.Executor.Pool.{park_and_wait}
use my_async_lib.WorkerLoop.{Found, Backoff, pause, yield, park, backoff}
use my_async_lib.WorkerLoop.Poll.{Polled}
use my_async_lib.WorkerLoop.Round.{nothing_taken, next_task-Polled}
use my_async_lib.WorkerLoop.Loop.{Loop, Turn, rest, rested, act, round, then_loop, worker_loop}

-- All tasks of the workers.
abbrev items : View → List ℕ
items v = v.slot ++ (v.local ++ v.inbox)

abbrev pub all_items : List View → List ℕ
all_items [] = []
all_items (v ∷ vs) = items v ++ all_items vs

abbrev pub all_tasks : List View → List ℕ → List ℕ → List ℕ
all_tasks vs gs hand = all_items vs ++ (gs ++ hand)

count-all_items : (a : ℕ) (vs : List View) → count a (all_items vs) ≡ load a vs
count-all_items a [] = refl
count-all_items a (v ∷ vs) = omega (
  arith,
  count-append a (items v) (all_items vs),
  count-append a v.slot (v.local ++ v.inbox),
  count-append a v.local v.inbox,
  count-all_items a vs,
)

count-all_tasks :
    (a : ℕ) (vs : List View) (gs hand : List ℕ)
    → count a (all_tasks vs gs hand) ≡ total a vs gs hand
count-all_tasks a vs gs hand = omega (
  arith,
  count-append a (all_items vs) (gs ++ hand),
  count-append a gs hand,
  count-all_items a vs,
)

inbox-all_items :
    (vs : List View) (i : ℕ) → length (get_or vs i no_tasks).inbox ≤ length (all_items vs)
inbox-all_items [] i = omega arith
inbox-all_items (v ∷ vs) zero = omega (
  arith,
  length-append (items v) (all_items vs),
  length-append v.slot (v.local ++ v.inbox),
  length-append v.local v.inbox,
)
inbox-all_items (v ∷ vs) (suc i) =
    omega (arith, length-append (items v) (all_items vs), inbox-all_items vs i)

-- The tasks of a worker are where they were.
pub record Same (w w' : Worker) : Type 0 where
  pub slot : w'.lifo_slot ≡ w.lifo_slot
  pub queue : w'.queue ≡ w.queue
  pub inbox : w'.inbox ≡ w.inbox

-- Whenever the worker parks, its wait ends, and it finds its tasks where they were.
abbrev pub Quiet : Turn → Type 0
Quiet t =
    (w : Worker)
    → (w' : Worker) × (park_and_wait (t.wakes w) t.still_running w ≡ some w') × Same w w'

abbrev pub AllQuiet : List Turn → Type 0
AllQuiet [] = Unit {0}
AllQuiet (t ∷ ts) = Quiet t × AllQuiet ts

-- The state after a number of turns: the tasks run count as in hand.
pub record Runs (n : ℕ) (before : ℕ → ℕ) (l : Loop) : Type 0 where
  pub size : length l.executor.workers ≡ n
  pub keeps : Keeps l.executor l.ran before

Same-IsWorker :
    {m : Store} {w w' : Worker} {v : View} → Same w w' → IsWorker m w v → IsWorker m w' v
Same-IsWorker {m} {v} same h = record {
  slot = h.slot ∙ ap slot_items (sym same.slot);
  local = subst (λ q. IsDeque default_spmc_capacity q v.local) (sym same.queue) h.local;
  inbox = subst (λ p. Chain m p v.inbox) (sym same.inbox) h.inbox;
}

-- The loop goes on after a turn.
abbrev pub Goes : ℕ → (ℕ → ℕ) → Option Loop → Type 0
Goes n before o = (l : Loop) × (o ≡ some l) × Runs n before l

module _ {n : ℕ} {before : ℕ → ℕ} (i : ℕ) (inside : i < n) where
  Same-Runs :
      (l : Loop) (s : Executor) (random spins : ℕ) (w : Worker)
      → length s.workers ≡ n
      → Same (worker s i) w
      → Keeps s l.ran before
      → Runs n before
          (record l { executor = set_worker s i w; random = random; empty_spins = spins })
  Same-Runs l s random spins w size same k = record {
    size = length-set s.workers i w ∙ size;
    keeps = Keeps-trans k (
        set_worker-Keeps i w (get_or k.vs i no_tasks) l.ran k.holds (omega (arith, size))
          (Same-IsWorker same (AllWorkers-get s.next s.workers k.vs i k.holds.workers))
          (λ a. refl));
  }

  rest-Goes :
      (b : Backoff) (t : Turn) (l : Loop) (s : Executor) (random spins : ℕ)
      → Quiet t
      → length s.workers ≡ n
      → Keeps s l.ran before
      → Goes n before (rested l random spins (rest b t s i))
  unfolding rest
  rest-Goes pause t l s random spins quiet size k = (_, refl, record { size = size; keeps = k })
  rest-Goes yield t l s random spins quiet size k = (_, refl, record { size = size; keeps = k })
  rest-Goes park t l s random spins quiet size k =
      let (w, e, same) = quiet (worker s i) in
      rw e (_, refl, Same-Runs l s random spins w size same k)

  act-Goes :
      (t : Turn) (l : Loop) (r : Found × ℕ)
      → Quiet t
      → Polled n r.0 l.ran before
      → Goes n before (act t i l (some r))
  unfolding act
  act-Goes t l ((s, task), random) quiet p = elim (Bool-cases (task == 0)) [
    | inl e ↦ rw e (
        rest-Goes (backoff l.empty_spins).0 t l s random (backoff l.empty_spins).1 quiet p.size
          (nothing_taken (s, task) p (eq_of_== task 0 e)))
    | inr e ↦ rw e (
      _,
      refl,
      record {
        size = p.size;
        keeps =
            subst (λ ts. Keeps s (ts ++ l.ran) before) (ap (λ b. if b then [] else task ∷ []) e)
              p.keeps;
      },
    )
  ]

  -- One turn, with fuel for all tasks.
  round-Goes :
      (fuel : ℕ) (t : Turn) (l : Loop) (k : Keeps l.executor l.ran before)
      → Quiet t
      → length l.executor.workers ≡ n
      → length (all_tasks k.vs k.gs l.ran) ≤ fuel
      → Goes n before (round fuel t i l)
  unfolding round
  round-Goes fuel t l k quiet size enough =
      let (r, e, p) = next_task-Polled i fuel l.random (omega (arith, size)) k.holds (
        omega (
          arith,
          enough,
          inbox-all_items k.vs i,
          length-append (all_items k.vs) (k.gs ++ l.ran),
        )) in
      subst (λ o. Goes n before (act t i l o)) (sym e)
        (act-Goes t l r quiet (record { size = p.size ∙ size; keeps = Keeps-trans k p.keeps }))

  -- Fuel for all tasks at the start is fuel for all tasks later.
  worker_loop-Goes :
      (fuel : ℕ) (xs : List ℕ) (turns : List Turn) (l : Loop)
      → ((a : ℕ) → count a xs ≡ before a)
      → length xs ≤ fuel
      → AllQuiet turns
      → Runs n before l
      → Goes n before (worker_loop fuel i turns l)
  unfolding worker_loop
  worker_loop-Goes fuel xs [] l same enough quiet runs = (l, refl, runs)
  worker_loop-Goes fuel xs (t ∷ turns) l same enough (now, later) runs =
      if_ind (Goes n before) t.running
        (λ _.
          let k = runs.keeps in
          let (l', e, runs') = round-Goes fuel t l k now runs.size (
            omega (
              arith,
              enough,
              count-length (all_tasks k.vs k.gs l.ran) xs
                  (λ a. count-all_tasks a k.vs k.gs l.ran ∙ k.balance a ∙ sym (same a)),
            )) in
          subst (λ o. Goes n before (then_loop o (worker_loop fuel i turns))) (sym e)
            (worker_loop-Goes fuel xs turns l' same enough later runs'))
        (λ _. (l, refl, runs))

-- `WorkerLoop` of a worker, for any number of rounds, on an executor whose workers' and global
-- tasks are given, with fuel for as many tasks, and if each wait of a parked worker ends with its
-- tasks where they were: no round gets stuck, the number of workers is kept, and each task is held
-- by the executor or was run, as many times together as it was held at the start, at most once.
pub worker_loop-Keeps :
    {s : Executor} {vs : List View} {gs : List ℕ} (i fuel random : ℕ) (turns : List Turn)
    → i < length s.workers
    → Holds s vs gs []
    → length (all_tasks vs gs []) ≤ fuel
    → AllQuiet turns
    → Goes
        (length s.workers)
        (λ a. total a vs gs [])
        (worker_loop fuel i turns
          (record { executor = s; random = random; empty_spins = 0; ran = [] }))
worker_loop-Keeps {s} {vs} {gs} i fuel random turns inside h enough quiet =
    worker_loop-Goes i inside fuel (all_tasks vs gs []) turns _ (λ a. count-all_tasks a vs gs [])
      enough quiet
      (record { size = refl; keeps = record { vs = vs; gs = gs; holds = h; balance = λ a. refl } })
