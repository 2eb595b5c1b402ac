-- ===== src/Executor/Contract.antt =====
-- What a client of the class `Executor` (include/ant_server/type.hpp) may rely on, and that
-- `WorkStealingExecutor` (executor.hpp) gives it.
use my_async_lib.Base.{
  ℕ, ◌+◌, ◌<◌, ◌≡◌, refl, sym, subst, ◌∙◌, List, [], ◌∷◌, ◌++◌, arith, length, count, count-append,
}
use my_async_lib.Base.Bag.{Bag, bag, bag_of_count, add, add-bag, add-nil}
use my_async_lib.Base.Store.{write}
use my_async_lib.Task.{Interface}
use my_async_lib.Executor.{Executor, Caller, schedule}
use my_async_lib.Executor.Held.{View, load, total, Holds, Keeps, write_hand-Keeps}
use my_async_lib.Executor.Schedule.{schedule-Keeps}
use my_async_lib.Executor.Size.{length-schedule}

-- An executor in state `s` contains the tasks of a bag, apart from those in the caller's hand.
-- `task->next = nullptr` of a task in hand does no harm, and `schedule` of one adds it.
pub record Contract {S : Type 0} (e : Interface S) : Type 1 where
  pub Contains : S → Bag → List ℕ → Type 0
  pub clear : ℕ → S → S
  pub clear_kept :
      (s : S) (b : Bag) (t : ℕ) (hand : List ℕ)
      → Contains s b (t ∷ hand)
      → Contains (clear t s) b (t ∷ hand)
  pub schedule_adds :
      (s : S) (b : Bag) (t : ℕ) (hand : List ℕ)
      → Contains s b (t ∷ hand)
      → Contains (e.schedule t s) (add (t ∷ []) b) hand

-- The tasks that the workers and the global queue hold.
abbrev pub tasks_of : List View → List ℕ
tasks_of [] = []
tasks_of (v ∷ vs) = v.slot ++ (v.local ++ (v.inbox ++ tasks_of vs))

count-tasks_of : (a : ℕ) (vs : List View) → count a (tasks_of vs) ≡ load a vs
count-tasks_of a [] = refl
count-tasks_of a (v ∷ vs) = omega (
  arith,
  count-append a v.slot (v.local ++ (v.inbox ++ tasks_of vs)),
  count-append a v.local (v.inbox ++ tasks_of vs),
  count-append a v.inbox (tasks_of vs),
  count-tasks_of a vs,
)

-- `WorkStealingExecutor` with the thread that calls it.
abbrev pub work_stealing : Interface (Executor × Caller)
work_stealing = record { schedule = λ task (s, c). schedule s c task }

abbrev pub clear_next : ℕ → Executor × Caller → Executor × Caller
clear_next task (s, c) = (record s { next = write s.next task 0 }, c)

-- It has a worker, every task is in one place at most, and the tasks are those of the bag.
abbrev pub HasBag : Executor × Caller → Bag → List ℕ → Type 0
HasBag (s, c) b hand =
    (0 < length s.workers)
    × ((vs : List View) × (gs : List ℕ) × Holds s vs gs hand × (bag (tasks_of vs ++ gs) ≡ b))

-- What keeps the count of each task, in the hand or not, keeps or adds to the bag.
kept-HasBag :
    {s' : Executor} (c : Caller) (vs : List View) (gs hand hand' given : List ℕ)
    → 0 < length s'.workers
    → Keeps s' hand' (λ a. total a vs gs hand)
    → ((a : ℕ) → count a hand ≡ count a given + count a hand')
    → HasBag (s', c) (add given (bag (tasks_of vs ++ gs))) hand'
kept-HasBag c vs gs hand hand' given some_worker k same = (
  some_worker,
  (
    k.vs,
    k.gs,
    k.holds,
    bag_of_count (tasks_of k.vs ++ k.gs) (given ++ (tasks_of vs ++ gs)) (λ a. omega (
      arith,
      k.balance a,
      same a,
      count-append a (tasks_of k.vs) k.gs,
      count-append a given (tasks_of vs ++ gs),
      count-append a (tasks_of vs) gs,
      count-tasks_of a k.vs,
      count-tasks_of a vs,
    ))
        ∙ sym (add-bag given (tasks_of vs ++ gs)),
  ),
)

-- A task in hand may be unlinked: each task stays where it is.
pub clear_next-HasBag :
    (r : Executor × Caller) (b : Bag) (t : ℕ) (hand : List ℕ)
    → HasBag r b (t ∷ hand)
    → HasBag (clear_next t r) b (t ∷ hand)
clear_next-HasBag (s, c) b t hand (some_worker, (vs, gs, h, e)) =
    let start : Keeps s (t ∷ hand) (λ a. total a vs gs (t ∷ hand)) = record {
      vs = vs;
      gs = gs;
      holds = h;
      balance = λ a. refl;
    } in
    let unlinked = write_hand-Keeps t 0 start (ground arith) in
    subst (λ x. HasBag (clear_next t (s, c)) x (t ∷ hand)) (add-nil (bag (tasks_of vs ++ gs)) ∙ e)
      (kept-HasBag c vs gs (t ∷ hand) (t ∷ hand) [] some_worker unlinked (λ a. omega arith))

-- `schedule(task)` of a task in hand, from any thread, on an executor with a worker that holds the
-- tasks of a bag: afterwards it holds that bag with the task added, and the others are in hand.
pub schedule-HasBag :
    (r : Executor × Caller) (b : Bag) (t : ℕ) (hand : List ℕ)
    → HasBag r b (t ∷ hand)
    → HasBag (schedule (r.0) (r.1) t) (add (t ∷ []) b) hand
schedule-HasBag (s, c) b t hand (some_worker, (vs, gs, h, e)) =
    let kept = schedule-Keeps c t some_worker h in
    let some_worker' : 0 < length (schedule s c t).0.workers =
      omega (arith, length-schedule s c t, some_worker) in
    subst (λ x. HasBag (schedule s c t) (add (t ∷ []) x) hand) e
      (kept-HasBag (schedule s c t).1 vs gs (t ∷ hand) hand (t ∷ []) some_worker' kept
        (λ a. omega arith))

abbrev pub work_stealing-Contract : Contract work_stealing
work_stealing-Contract = record {
  Contains = HasBag;
  clear = clear_next;
  clear_kept = clear_next-HasBag;
  schedule_adds = schedule-HasBag;
}
