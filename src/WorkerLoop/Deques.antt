-- ===== src/WorkerLoop/Deques.antt =====
-- The steps of `WorkerLoop` and `steal_task` (executor.hpp) that look into deques and find no task.
use my_async_lib.Base.{
  ℕ, zero, suc, ◌+◌, ◌-◌, ◌%◌, ◌<◌, ◌≡◌, refl, sym, subst, ap, ◌∙◌, List, [], ◌∷◌, ◌++◌, arith,
  ◌==◌, length, get_or, count, count-append, eq_of_==, append_last, ◌⊎◌, inl, inr, Bool-cases,
  if◌then◌else◌, take, false, leb,
}
use native.Mathlib.Nat.{mod-eq_of_lt, add-mod_right, mod-lt}
use my_async_lib.Constants.{default_spmc_capacity}
use my_async_lib.Random.{fast_random}
use my_async_lib.Spmc
use my_async_lib.Spmc.Refine.{IsDeque, half_count}
use my_async_lib.Spmc.Refine as Deque
use my_async_lib.Executor.{Executor, worker, set_worker}
use my_async_lib.Executor.Held.{View, no_tasks, IsWorker, AllWorkers-get, weight-le-load}
use my_async_lib.WorkerLoop.{poll_local, take_loot, rob, steal_from, steal_task}
use my_async_lib.WorkerLoop.Missed.{Has, Outcome, Outcome-map, or_else-Outcome, same_tasks}

module _ (n : ℕ) (vs : List View) (gs hand : List ℕ) where
  abbrev pub local : ℕ → List ℕ
  local i = (get_or vs i no_tasks).local

  abbrev cap : ℕ
  cap = default_spmc_capacity

  own-IsWorker :
      {s : Executor} (i : ℕ)
      → Has n vs gs hand s
      → IsWorker s.next (worker s i) (get_or vs i no_tasks)
  own-IsWorker {s} i (size, h) = AllWorkers-get s.next s.workers vs i h.workers

  -- No task of a worker's deque is `nullptr`.
  local_null : {s : Executor} (i : ℕ) → Has n vs gs hand s → count 0 (local i) ≡ 0
  local_null i (size, h) = omega (arith, h.nonnull, weight-le-load 0 vs i)

  -- A deque without tasks is left as one.
  still_empty :
      {s : Executor} (i : ℕ) (q : Spmc.Spmc)
      → Has n vs gs hand s
      → local i ≡ []
      → IsDeque cap q []
      → Has n vs gs hand (set_worker s i (record (worker s i) { queue = q }))
  still_empty {s} i q has e is =
      let old = own-IsWorker i has in
      same_tasks n vs gs hand i (record (worker s i) { queue = q }) has
        (record { slot = old.slot; local = subst (IsDeque cap q) (sym e) is; inbox = old.inbox })

  popped_local :
      {s : Executor} (i : ℕ)
      → Has n vs gs hand s
      → (local i ≡ []) ⊎ ((ys : List ℕ) × (y : ℕ) × (local i ≡ ys ++ (y ∷ [])))
      → Outcome n vs gs hand (local i ≡ []) (poll_local s i)
  unfolding poll_local
  popped_local {s} i has (inl e) =
      let (none_left, is) =
        Deque.try_pop-nil cap
          (subst (IsDeque cap (worker s i).queue) e (own-IsWorker i has).local) in
      inr (none_left, still_empty i _ has e is, e)
  popped_local {s} i has (inr (ys, y, e)) =
      let (last, is) =
        Deque.try_pop-append cap ys y
          (subst (IsDeque cap (worker s i).queue) e (own-IsWorker i has).local) in
      inl
        (λ z. ground (arith, local_null i has, ap (count 0) e, count-append 0 ys (y ∷ []), last, z))

  pub poll_local-Outcome :
      (i : ℕ) (s : Executor)
      → Has n vs gs hand s
      → Outcome n vs gs hand (local i ≡ []) (poll_local s i)
  poll_local-Outcome i s has = popped_local i has (append_last (local i))

  robbed :
      {s : Executor} (thief victim : ℕ) (xs : List ℕ)
      → Has n vs gs hand s
      → local victim ≡ xs
      → Outcome n vs gs hand (local victim ≡ []) (rob s thief victim)
  unfolding rob take_loot
  robbed {s} thief victim [] has e =
      let (batch, is) =
        Deque.take_half-take cap []
          (subst (IsDeque cap (worker s victim).queue) e (own-IsWorker victim has).local) in
      rw (batch, Deque.steal-nil cap false is) (inr (refl, still_empty victim _ has e is, e))
  robbed {s} thief victim (x ∷ xs) has e =
      let k = half_count (x ∷ xs) in
      let d : k ≡ suc (k - 1) = ground arith in
      let (batch, is) =
        Deque.take_half-take cap (x ∷ xs)
          (subst (IsDeque cap (worker s victim).queue) e (own-IsWorker victim has).local) in
      let split : take k (x ∷ xs) ≡ x ∷ take (k - 1) xs = ap (λ j. take j (x ∷ xs)) d in
      rw (batch, split) (inl (λ z. ground (arith, local_null victim has, ap (count 0) e, z)))

  -- The victims of the rounds left have nothing, or are the thief.
  abbrev Spared : ℕ → ℕ → ℕ → ℕ → Type 0
  Spared thief start i rounds =
      (k : ℕ) → k < rounds → ((start + (i + k)) % n ≡ thief) ⊎ (local ((start + (i + k)) % n) ≡ [])

  spared :
      (thief start i rounds : ℕ)
      → ((start + i) % n ≡ thief) ⊎ (local ((start + i) % n) ≡ [])
      → Spared thief start (i + 1) rounds
      → Spared thief start i (suc rounds)
  spared thief start i rounds first others zero small =
      let e : i + 0 ≡ i = omega arith in rw e first
  spared thief start i rounds first others (suc k) small =
      let e : i + suc k ≡ i + 1 + k = omega arith in rw e (others k (omega (arith, small)))

  victim-Outcome :
      (s : Executor) (thief victim : ℕ)
      → Has n vs gs hand s
      → Outcome n vs gs hand
          ((victim ≡ thief) ⊎ (local victim ≡ []))
          (if victim == thief then (s, 0) else rob s thief victim)
  victim-Outcome s thief victim has = elim (Bool-cases (victim == thief)) [
    | inl same ↦ rw same (inr (refl, has, inl (eq_of_== victim thief same)))
    | inr other ↦ rw other (elim (robbed thief victim (local victim) has refl) [
      | inl found ↦ inl found
      | inr (e, has', empty) ↦ inr (e, has', inr empty)
    ])
  ]

  steal_from-Outcome :
      (rounds thief start i : ℕ) (s : Executor)
      → Has n vs gs hand s
      → Outcome n vs gs hand (Spared thief start i rounds) (steal_from rounds s thief start i)
  unfolding steal_from
  steal_from-Outcome zero thief start i s has =
      inr (refl, has, λ k small. absurd (omega (arith, small)))
  steal_from-Outcome (suc rounds) thief start i s has =
      Outcome-map n vs gs hand (λ (first, others). spared thief start i rounds first others)
        (or_else-Outcome n vs gs hand
          (if (start + i) % length s.workers == thief
            then (s, 0)
            else rob s thief ((start + i) % length s.workers))
          (λ s'. steal_from rounds s' thief start (i + 1))
          (rw (has.0) (victim-Outcome s thief ((start + i) % n) has))
          (λ s' has'. steal_from-Outcome rounds thief start (i + 1) s' has'))

  -- From any start, each worker is among the victims.
  pub meets : (start j : ℕ) → start < n → j < n → (k : ℕ) × (k < n) × ((start + k) % n ≡ j)
  meets start j start_in inside = elim (Bool-cases (leb start j)) [
    | inl le ↦
        let e : start + (j - start) ≡ j = ground (arith, le) in
        (j - start, omega (arith, inside), rw e (mod-eq_of_lt inside))
    | inr gt ↦
        let e : start + (j + n - start) ≡ j + n = ground (arith, gt, start_in) in
        (
          j + n - start,
          ground (arith, gt, start_in),
          rw e (add-mod_right j n ∙ mod-eq_of_lt inside),
        )
  ]

  -- No worker but the thief has a task in its deque.
  abbrev pub OthersEmpty : ℕ → Type 0
  OthersEmpty thief = (j : ℕ) → j < n → (j ≡ thief) ⊎ (local j ≡ [])

  others_empty : (thief start : ℕ) → start < n → Spared thief start 0 n → OthersEmpty thief
  others_empty thief start start_in all j inside =
      let (k, small, e) = meets start j start_in inside in
      let at : 0 + k ≡ k = omega arith in
      subst (λ i. (i ≡ thief) ⊎ (local i ≡ [])) (rw at e) (all k small)

  pub steal_task-Outcome :
      (thief random : ℕ) (s : Executor)
      → thief < n
      → Has n vs gs hand s
      → Outcome n vs gs hand (OthersEmpty thief) ((steal_task s thief random).0)
  unfolding steal_task
  steal_task-Outcome thief random s inside has = elim (Bool-cases (leb (length s.workers) 1)) [
    | inl one ↦ rw one (inr (refl, has, λ j j_in. inl (ground (arith, one, has.0, inside, j_in))))
    | inr many ↦
        let start = fast_random random % n in
        rw (many, has.0)
          (Outcome-map n vs gs hand
            (others_empty thief start (mod-lt (fast_random random) (omega (arith, inside))))
            (steal_from-Outcome n thief start 0 s has))
  ]
