-- ===== src/WorkerLoop/Poll.antt =====
-- `poll_global`, `poll_slot`, `poll_local` and `push_or_spill` (executor.hpp, `WorkerLoop`) on the
-- tasks held.
use my_async_lib.Base.{
  ℕ, ◌+◌, ◌<◌, ◌≡◌, refl, ap, subst, List, [], ◌∷◌, ◌++◌, arith, ◌==◌, length, get_or, count,
  count-append, length-set, ==_of_ne, ==_of_eq, eq_of_==, if_ind, Bool-cases, append_last, ◌⊎◌, inl,
  inr, dec_lt,
}
use my_async_lib.Base.Store.{Store}
use my_async_lib.Constants.{default_spmc_capacity}
use my_async_lib.Mpmc
use my_async_lib.Mpmc.Fifo.{pop-Popped, Popped}
use my_async_lib.Spmc
use my_async_lib.Spmc.Refine.{IsDeque}
use my_async_lib.Spmc.Refine as Deque
use my_async_lib.Executor.{Executor, worker, set_worker, push_global}
use my_async_lib.Executor.Spill.{push_global-Keeps, push_global-spares}
use my_async_lib.Executor.Held.{
  View, no_tasks, slot_items, IsWorker, total, Holds, Keeps, AllWorkers-get, AllWorkers-frame,
  set_worker-Keeps, keep, Keeps-trans, weight-le-load,
}
use my_async_lib.WorkerLoop.{Found, or_else, poll_global, poll_slot, poll_local, push_or_spill}

-- The search has left `n` workers, and the task found, if any, is in hand.
pub record Polled (n : ℕ) (r : Found) (hand : List ℕ) (before : ℕ → ℕ) : Type 0 where
  pub size : length r.0.workers ≡ n
  pub keeps : Keeps r.0 (slot_items r.1 ++ hand) before

pub Polled-trans :
    {n : ℕ} {s : Executor} {r : Found} {hand : List ℕ} {before : ℕ → ℕ}
    → (k : Keeps s hand before) → Polled n r hand (λ a. total a k.vs k.gs hand)
    → Polled n r hand before
Polled-trans k p = record { size = p.size; keeps = Keeps-trans k p.keeps }

-- Nothing found.
pub Polled-none :
    {n : ℕ} {s : Executor} {hand : List ℕ} {before : ℕ → ℕ}
    → length s.workers ≡ n
    → Keeps s hand before
    → Polled n (s, 0) hand before
Polled-none size k = record { size = size; keeps = k }

pub or_else-Polled :
    {n : ℕ} {hand : List ℕ} {before : ℕ → ℕ} (r : Found) (next : Executor → Found)
    → Polled n r hand before
    → (length r.0.workers ≡ n → Keeps r.0 hand before → Polled n (next r.0) hand before)
    → Polled n (or_else r next) hand before
or_else-Polled {n} {hand} {before} (s, task) next p continue =
    if_ind (λ r. Polled n r hand before) (task == 0)
      (λ e.
        continue p.size
          (subst (λ t. Keeps s (slot_items t ++ hand) before) (eq_of_== task 0 e) p.keeps))
      (λ _. p)

popped-Keeps :
    {s : Executor} {vs : List View} (gs : List ℕ) {hand : List ℕ} (r : Store × Mpmc.Queue × ℕ)
    → Holds s vs gs hand
    → Popped s.next gs r
    → Keeps
        (record s { next = r.0; global_queue = r.1 })
        (slot_items r.2 ++ hand)
        (λ a. total a vs gs hand)
popped-Keeps {s} {vs} [] {hand} (n, q, task) h p =
    keep vs [] _ h (AllWorkers-frame s.next n s.workers vs h.workers (λ a _. p.2 a)) p.0
      (λ a. rw (==_of_eq task 0 p.1) refl)
popped-Keeps {s} {vs} (x ∷ gs) {hand} (n, q, task) h p =
    keep vs gs _ h
      (AllWorkers-frame s.next n s.workers vs h.workers
        (λ a l. p.3 a (λ e. ground (arith, h.once a))))
      p.0 (λ a. rw (p.1, ==_of_ne x 0 (λ e. ground (arith, h.nonnull))) (omega arith))

module _ {s : Executor} {vs : List View} {gs hand : List ℕ} (h : Holds s vs gs hand) where
  pub poll_global-Polled : Polled (length s.workers) (poll_global s) hand (λ a. total a vs gs hand)
  unfolding poll_global
  poll_global-Polled = record {
    size = refl;
    keeps = popped-Keeps gs _ h (pop-Popped s.next s.global_queue gs h.global);
  }

  module _ (i : ℕ) (inside : i < length s.workers) where
    abbrev own : View
    own = get_or vs i no_tasks

    abbrev cap : ℕ
    cap = default_spmc_capacity

    own-IsWorker : IsWorker s.next (worker s i) own
    own-IsWorker = AllWorkers-get s.next s.workers vs i h.workers

    pub poll_slot-Polled : Polled (length s.workers) (poll_slot s i) hand (λ a. total a vs gs hand)
    unfolding poll_slot
    poll_slot-Polled = record {
      size = length-set s.workers i _;
      keeps =
          set_worker-Keeps i _ (record own { slot = [] }) _ h inside
            (record { slot = refl; local = own-IsWorker.local; inbox = own-IsWorker.inbox })
            (λ a. omega (
              arith,
              ap (count a) own-IsWorker.slot,
              count-append a (slot_items (worker s i).lifo_slot) hand,
            ));
    }

    -- The worker's deque gives up a task, or none.
    pub taken-Polled :
        (q : Spmc.Spmc) (task : ℕ) (ys : List ℕ)
        → IsDeque cap q ys
        → ((a : ℕ) → count a ys + count a (slot_items task) ≡ count a own.local)
        → Polled
            (length s.workers)
            (set_worker s i (record (worker s i) { queue = q }), task)
            hand
            (λ a. total a vs gs hand)
    taken-Polled q task ys is balance = record {
      size = length-set s.workers i _;
      keeps =
          set_worker-Keeps i _ (record own { local = ys }) _ h inside
            (record { slot = own-IsWorker.slot; local = is; inbox = own-IsWorker.inbox })
            (λ a. omega (arith, balance a, count-append a (slot_items task) hand));
    }

    popped_last :
        ((own.local ≡ []) ⊎ ((ys : List ℕ) × (y : ℕ) × (own.local ≡ ys ++ (y ∷ []))))
        → Polled (length s.workers) (poll_local s i) hand (λ a. total a vs gs hand)
    unfolding poll_local
    popped_last (inl e) =
        let (none_left, is) =
          Deque.try_pop-nil cap (subst (IsDeque cap (worker s i).queue) e own-IsWorker.local) in
        taken-Polled _ _ [] is (λ a. rw (none_left, e) refl)
    popped_last (inr (ys, y, e)) =
        let (last, is) =
          Deque.try_pop-append cap ys y
            (subst (IsDeque cap (worker s i).queue) e own-IsWorker.local) in
        taken-Polled _ _ ys is (λ a.
          rw
            (
              last,
              e,
              ==_of_ne y 0 (λ z. ground (
                arith,
                h.nonnull,
                weight-le-load 0 vs i,
                ap (count 0) e,
                count-append 0 ys (y ∷ []),
              )),
            )
            (omega (arith, count-append a ys (y ∷ []))))

    pub poll_local-Polled :
        Polled (length s.workers) (poll_local s i) hand (λ a. total a vs gs hand)
    poll_local-Polled = popped_last (append_last own.local)

-- A task in hand goes to the worker's deque or to the global queue.
pub push_or_spill-Keeps :
    {s : Executor} {vs : List View} {gs : List ℕ} (t : ℕ) (hand : List ℕ)
    → Holds s vs gs (t ∷ hand)
    → (i : ℕ) → i < length s.workers
    → Keeps (push_or_spill s i t) hand (λ a. total a vs gs (t ∷ hand))
unfolding push_or_spill
push_or_spill-Keeps {s} {vs} {gs} t hand h i inside = elim (dec_lt (length v.local) cap') [
  | yes room ↦
      let (pushed, is) = Deque.push-append cap' w.local t room in
      rw pushed (
        set_worker-Keeps i _ (record v { local = v.local ++ (t ∷ []) }) hand h inside
          (record { slot = w.slot; local = is; inbox = w.inbox })
          (λ a. omega (arith, count-append a v.local (t ∷ []))))
  | no full ↦
      rw (Deque.push-full cap' w.local t (omega (arith, w.local.fits))) (push_global-Keeps t hand h)
]
  where
    cap' : ℕ
    cap' = default_spmc_capacity

    v : View
    v = get_or vs i no_tasks

    w : IsWorker s.next (worker s i) v
    w = AllWorkers-get s.next s.workers vs i h.workers

pub length-push_or_spill :
    (s : Executor) (i t : ℕ) → length (push_or_spill s i t).workers ≡ length s.workers
unfolding push_or_spill push_global
length-push_or_spill s i t =
    elim (Bool-cases (Spmc.push default_spmc_capacity (worker s i).queue t).1) [
      | inl e ↦ rw e (length-set s.workers i _)
      | inr e ↦ rw e refl
    ]

pub push_or_spill-spares :
    {s : Executor} {vs : List View} {gs : List ℕ} (t : ℕ) (hand : List ℕ)
    → Holds s vs gs (t ∷ hand)
    → (i a : ℕ) → 0 < count a hand
    → (push_or_spill s i t).next a ≡ s.next a
unfolding push_or_spill
push_or_spill-spares {s} t hand h i a held =
    elim (Bool-cases (Spmc.push default_spmc_capacity (worker s i).queue t).1) [
      | inl e ↦ rw e refl
      | inr e ↦ rw e (push_global-spares t hand h a held)
    ]
