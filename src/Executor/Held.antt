-- ===== src/Executor/Held.antt =====
-- Where the tasks of an executor (executor.hpp) are: in a worker's slot, deque or inbox, in the
-- global queue, or in the hands of the running thread.
use my_async_lib.Base.{
  ℕ, zero, suc, ◌+◌, ◌≤◌, ◌<◌, ◌≡◌, refl, ◌∙◌, List, [], ◌∷◌, arith, ◌==◌, if◌then◌else◌, length,
  get_or, set, count,
}
use my_async_lib.Base.Store.{write, write_ne, Store, Chain, frame}
use my_async_lib.Constants.{default_spmc_capacity}
use my_async_lib.Mpmc.Fifo.{IsQueue, IsQueue-frame}
use my_async_lib.Spmc.Refine.{IsDeque, new-IsDeque}
use my_async_lib.Executor.{Worker, Executor, new_worker, set_worker}

-- The tasks of one worker.
pub record View : Type 0 where
  pub slot : List ℕ
  pub local : List ℕ
  pub inbox : List ℕ

abbrev pub no_tasks : View
no_tasks = record { slot = []; local = []; inbox = [] }

abbrev pub slot_items : ℕ → List ℕ
slot_items p = if p == 0 then [] else p ∷ []

pub record IsWorker (m : Store) (w : Worker) (v : View) : Type 0 where
  pub slot : v.slot ≡ slot_items w.lifo_slot
  pub local : IsDeque default_spmc_capacity w.queue v.local
  pub inbox : Chain m w.inbox v.inbox

abbrev pub weight : ℕ → View → ℕ
weight a v = count a v.slot + count a v.local + count a v.inbox

abbrev pub load : ℕ → List View → ℕ
load a [] = 0
load a (v ∷ vs) = weight a v + load a vs

abbrev pub AllWorkers : Store → List Worker → List View → Type 0
AllWorkers m [] [] = Unit {0}
AllWorkers m [] (v ∷ vs) = ⊥
AllWorkers m (w ∷ ws) [] = ⊥
AllWorkers m (w ∷ ws) (v ∷ vs) = IsWorker m w v × AllWorkers m ws vs

-- How often a task is held: by the workers, in the global queue, and in hand.
abbrev pub total : ℕ → List View → List ℕ → List ℕ → ℕ
total a vs gs hand = load a vs + count a gs + count a hand

pub record Holds (s : Executor) (vs : List View) (gs : List ℕ) (hand : List ℕ) : Type 0 where
  pub workers : AllWorkers s.next s.workers vs
  pub global : IsQueue s.next s.global_queue gs
  pub once : (a : ℕ) → total a vs gs hand ≤ 1
  pub nonnull : total 0 vs gs hand ≡ 0

-- The executor holds its tasks, apart from those in hand, and the number of times that a task is
-- held is given.
pub record Keeps (s : Executor) (hand : List ℕ) (before : ℕ → ℕ) : Type 0 where
  pub vs : List View
  pub gs : List ℕ
  pub holds : Holds s vs gs hand
  pub balance : (a : ℕ) → total a vs gs hand ≡ before a

pub new_worker-IsWorker : (m : Store) → IsWorker m new_worker no_tasks
unfolding new_worker
new_worker-IsWorker m = record {
  slot = refl;
  local = new-IsDeque default_spmc_capacity;
  inbox = refl;
}

pub AllWorkers-get :
    (m : Store) (ws : List Worker) (vs : List View) (i : ℕ)
    → AllWorkers m ws vs
    → IsWorker m (get_or ws i new_worker) (get_or vs i no_tasks)
AllWorkers-get m [] [] i h = new_worker-IsWorker m
AllWorkers-get m [] (v ∷ vs) i h = absurd h
AllWorkers-get m (w ∷ ws) [] i h = absurd h
AllWorkers-get m (w ∷ ws) (v ∷ vs) zero h = h.0
AllWorkers-get m (w ∷ ws) (v ∷ vs) (suc i) h = AllWorkers-get m ws vs i h.1

pub AllWorkers-set :
    (m : Store) (ws : List Worker) (vs : List View) (i : ℕ) {w : Worker} {v : View}
    → AllWorkers m ws vs
    → IsWorker m w v
    → AllWorkers m (set ws i w) (set vs i v)
AllWorkers-set m [] [] i h new = h
AllWorkers-set m [] (v ∷ vs) i h new = absurd h
AllWorkers-set m (w ∷ ws) [] i h new = absurd h
AllWorkers-set m (w ∷ ws) (v ∷ vs) zero h new = (new, h.1)
AllWorkers-set m (w ∷ ws) (v ∷ vs) (suc i) h new = (h.0, AllWorkers-set m ws vs i h.1 new)

pub length-AllWorkers :
    (m : Store) (ws : List Worker) (vs : List View) → AllWorkers m ws vs → length vs ≡ length ws
length-AllWorkers m [] [] h = refl
length-AllWorkers m [] (v ∷ vs) h = absurd h
length-AllWorkers m (w ∷ ws) [] h = absurd h
length-AllWorkers m (w ∷ ws) (v ∷ vs) h = omega (arith, length-AllWorkers m ws vs h.1)

pub load-set :
    (a : ℕ) (vs : List View) (i : ℕ) (v : View)
    → i < length vs
    → load a (set vs i v) + weight a (get_or vs i no_tasks) ≡ load a vs + weight a v
load-set a [] i v h = absurd (omega arith)
load-set a (u ∷ vs) zero v h = omega arith
load-set a (u ∷ vs) (suc i) v h = omega (arith, load-set a vs i v (omega arith))

pub weight-le-load : (a : ℕ) (vs : List View) (i : ℕ) → weight a (get_or vs i no_tasks) ≤ load a vs
weight-le-load a [] i = omega arith
weight-le-load a (v ∷ vs) zero = omega arith
weight-le-load a (v ∷ vs) (suc i) = omega (arith, weight-le-load a vs i)

-- A store that agrees on the tasks held keeps the workers.
pub AllWorkers-frame :
    (m n : Store) (ws : List Worker) (vs : List View)
    → AllWorkers m ws vs
    → ((a : ℕ) → 0 < load a vs → n a ≡ m a)
    → AllWorkers n ws vs
AllWorkers-frame m n [] [] h same = h
AllWorkers-frame m n [] (v ∷ vs) h same = h
AllWorkers-frame m n (w ∷ ws) [] h same = h
AllWorkers-frame m n (w ∷ ws) (v ∷ vs) h same = (
  record {
    slot = h.0.slot;
    local = h.0.local;
    inbox = frame m n 0 w.inbox v.inbox h.0.inbox (λ a p. same a (omega arith));
  },
  AllWorkers-frame m n ws vs h.1 (λ a p. same a (omega arith)),
)

-- A new arrangement of the same tasks holds them too.
pub keep :
    {s s' : Executor} {vs : List View} {gs hand : List ℕ} (vs' : List View) (gs' hand' : List ℕ)
    → Holds s vs gs hand
    → AllWorkers s'.next s'.workers vs'
    → IsQueue s'.next s'.global_queue gs'
    → ((a : ℕ) → total a vs' gs' hand' ≡ total a vs gs hand)
    → Keeps s' hand' (λ a. total a vs gs hand)
keep vs' gs' hand' h workers global balance = record {
  vs = vs';
  gs = gs';
  holds = record {
    workers = workers;
    global = global;
    once = λ a. omega (arith, balance a, h.once a);
    nonnull = omega (arith, balance 0, h.nonnull);
  };
  balance = balance;
}

-- One step after another.
pub Keeps-trans :
    {s s' : Executor} {hand hand' : List ℕ} {before : ℕ → ℕ}
    → (k : Keeps s hand before) → Keeps s' hand' (λ a. total a k.vs k.gs hand)
    → Keeps s' hand' before
Keeps-trans k l = record {
  vs = l.vs;
  gs = l.gs;
  holds = l.holds;
  balance = λ a. l.balance a ∙ k.balance a;
}

-- A worker changes, and takes or gives tasks of the hand.
pub set_worker-Keeps :
    {s : Executor} {vs : List View} {gs hand : List ℕ} (i : ℕ) (w : Worker) (v : View)
    (hand' : List ℕ)
    → Holds s vs gs hand
    → i < length s.workers
    → IsWorker s.next w v
    → ((a : ℕ) → weight a v + count a hand' ≡ weight a (get_or vs i no_tasks) + count a hand)
    → Keeps (set_worker s i w) hand' (λ a. total a vs gs hand)
set_worker-Keeps {s} {vs} {gs} i w v hand' h inside new balance =
    keep (set vs i v) gs hand' h (AllWorkers-set s.next s.workers vs i h.workers new) h.global (λ a.
      omega (
        arith,
        balance a,
        load-set a vs i v (omega (arith, length-AllWorkers s.next s.workers vs h.workers)),
      ))

-- Writing the `next` field of a task in hand.
pub write_hand-Keeps :
    {s : Executor} {hand : List ℕ} {before : ℕ → ℕ} (t v : ℕ)
    → Keeps s hand before
    → 0 < count t hand
    → Keeps (record s { next = write s.next t v }) hand before
write_hand-Keeps {s} {hand} t v k held = record {
  vs = k.vs;
  gs = k.gs;
  holds = record {
    workers =
        AllWorkers-frame s.next _ s.workers k.vs k.holds.workers
          (λ a p. write_ne s.next t v a (λ e. ground (arith, k.holds.once t)));
    global = IsQueue-frame s.next t v k.gs k.holds.global (omega (arith, k.holds.once t));
    once = k.holds.once;
    nonnull = k.holds.nonnull;
  };
  balance = k.balance;
}
