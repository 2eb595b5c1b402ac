-- ===== src/WorkerLoop/Steal.antt =====
-- `steal_task` (executor.hpp) on the tasks held.
use my_async_lib.Base.{
  ℕ, zero, suc, ◌+◌, ◌-◌, ◌%◌, ◌<◌, ◌≡◌, ◌≢◌, refl, ap, ◌∙◌, subst, List, [], ◌∷◌, ◌++◌, arith,
  ◌==◌, length, get_or, count, count-append, count-take-drop, take, drop, length-set, ==_of_ne,
  if_ind, leb, false,
}
use my_async_lib.Constants.{default_spmc_capacity}
use my_async_lib.Spmc
use my_async_lib.Spmc.Refine.{IsDeque, half_count}
use my_async_lib.Spmc.Refine as Deque
use my_async_lib.Executor.{Executor, worker, set_worker}
use my_async_lib.Executor.Held.{
  View, no_tasks, IsWorker, total, Holds, Keeps, AllWorkers-get, set_worker-Keeps, Keeps-trans,
  weight-le-load,
}
use my_async_lib.WorkerLoop.{Found, push_all, take_loot, rob, steal_from, steal_task}
use my_async_lib.WorkerLoop.Poll.{
  Polled, Polled-none, Polled-trans, or_else-Polled, push_or_spill-Keeps, length-push_or_spill,
  taken-Polled,
}

pub push_all-Keeps :
    (batch hand : List ℕ) {before : ℕ → ℕ} {s : Executor}
    → Keeps s (batch ++ hand) before
    → (i : ℕ) → i < length s.workers
    → Keeps (push_all s i batch) hand before
      × (length (push_all s i batch).workers ≡ length s.workers)
unfolding push_all
push_all-Keeps [] hand k i inside = (k, refl)
push_all-Keeps (t ∷ batch) hand {s} k i inside =
    let one = push_or_spill-Keeps t (batch ++ hand) k.holds i inside in
    let same = length-push_or_spill s i t in
    let (rest, size) = push_all-Keeps batch hand (Keeps-trans k one) i (omega (arith, same)) in
    (rest, size ∙ same)

module _ {s : Executor} {vs : List View} {gs hand : List ℕ} (h : Holds s vs gs hand)
    (thief victim : ℕ) (thief_in : thief < length s.workers)
    (victim_in : victim < length s.workers) where
  abbrev cap : ℕ
  cap = default_spmc_capacity

  abbrev theirs : View
  theirs = get_or vs victim no_tasks

  abbrev Robbed : Found → Type 0
  Robbed r = Polled (length s.workers) r hand (λ a. total a vs gs hand)

  own-IsWorker : IsWorker s.next (worker s victim) theirs
  own-IsWorker = AllWorkers-get s.next s.workers vs victim h.workers

  -- What half of the victim's deque leaves: nothing, or the first task and others.
  robbed : (local : List ℕ) → theirs.local ≡ local → Robbed (rob s thief victim)
  unfolding rob take_loot
  robbed [] e =
      let (batch, is) =
        Deque.take_half-take cap []
          (subst (IsDeque cap (worker s victim).queue) e own-IsWorker.local) in
      rw (batch, Deque.steal-nil cap false is)
        (taken-Polled h victim victim_in _ 0 [] is (λ a. omega (arith, ap (count a) e)))
  robbed (x ∷ xs) e =
      rw (half.0, split)
        (record {
          size = shared.1 ∙ length-set s.workers victim _;
          keeps = rw (==_of_ne x 0 not_null) shared.0;
        })
    where
      k : ℕ
      k = half_count (x ∷ xs)

      rest : List ℕ
      rest = take (k - 1) xs

      split : take k (x ∷ xs) ≡ x ∷ rest
      split = let d : k ≡ suc (k - 1) = ground arith in ap (λ j. take j (x ∷ xs)) d

      half :
          ((Spmc.take_half cap (worker s victim).queue).1 ≡ take k (x ∷ xs))
          × IsDeque cap (Spmc.take_half cap (worker s victim).queue).0 (drop k (x ∷ xs))
      half =
          Deque.take_half-take cap (x ∷ xs)
            (subst (IsDeque cap (worker s victim).queue) e own-IsWorker.local)

      s1 : Executor
      s1 =
          set_worker s victim
            (record (worker s victim) { queue = (Spmc.take_half cap (worker s victim).queue).0 })

      not_null : x ≢ 0
      not_null z = ground (arith, h.nonnull, weight-le-load 0 vs victim, ap (count 0) e)

      balance :
          (a : ℕ)
          → count a (drop k (x ∷ xs)) + count a (rest ++ (x ∷ hand))
            ≡ count a theirs.local + count a hand
      balance a = omega (
        arith,
        ap (count a) e,
        ap (count a) split,
        count-take-drop a k (x ∷ xs),
        count-append a rest (x ∷ hand),
      )

      emptied : Keeps s1 (rest ++ (x ∷ hand)) (λ a. total a vs gs hand)
      emptied =
          set_worker-Keeps victim _ (record theirs { local = drop k (x ∷ xs) }) _ h victim_in
            (record { slot = own-IsWorker.slot; local = half.1; inbox = own-IsWorker.inbox })
            (λ a. omega (arith, balance a))

      shared :
          Keeps (push_all s1 thief rest) (x ∷ hand) (λ a. total a vs gs hand)
          × (length (push_all s1 thief rest).workers ≡ length s1.workers)
      shared =
          push_all-Keeps rest (x ∷ hand) emptied thief (rw (length-set s.workers victim) thief_in)

  pub rob-Polled : Robbed (rob s thief victim)
  rob-Polled = robbed theirs.local refl

steal_from-Polled :
    {n : ℕ} {hand : List ℕ} {before : ℕ → ℕ} (rounds : ℕ) {s : Executor} (thief start i : ℕ)
    → thief < n
    → length s.workers ≡ n
    → Keeps s hand before
    → Polled n (steal_from rounds s thief start i) hand before
unfolding steal_from
steal_from-Polled zero thief start i inside size k = Polled-none size k
steal_from-Polled {n} {hand} {before} (suc rounds) {s} thief start i inside size k =
    or_else-Polled _ (λ s'. steal_from rounds s' thief start (i + 1))
      (if_ind (λ r. Polled n r hand before) (victim == thief) (λ _. Polled-none size k)
        λ _. Polled-trans k (
          subst (λ m. Polled m (rob s thief victim) hand (λ a. total a k.vs k.gs hand)) size
            (rob-Polled k.holds thief victim (omega (arith, size)) (omega (arith, size)))))
      (λ size' k'. steal_from-Polled rounds thief start (i + 1) inside size' k')
  where
    victim : ℕ
    victim = (start + i) % length s.workers

-- `steal_task` of a thief that is a worker: the task returned, if any, is in hand, the number of
-- workers is kept, and every task is held in as many places as before, at most one.
pub steal_task-Polled :
    {n : ℕ} {hand : List ℕ} {before : ℕ → ℕ} {s : Executor} (thief random : ℕ)
    → thief < n
    → length s.workers ≡ n
    → Keeps s hand before
    → Polled n (steal_task s thief random).0 hand before
unfolding steal_task
steal_task-Polled {n} {hand} {before} {s} thief random inside size k =
    if_ind (λ (r : Found × ℕ). Polled n r.0 hand before) (leb (length s.workers) 1)
      (λ _. Polled-none size k) (λ _. steal_from-Polled (length s.workers) thief _ 0 inside size k)
