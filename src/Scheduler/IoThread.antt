-- ===== src/Scheduler/IoThread.antt =====
-- What `schedule` does in the thread of an IO context.
use my_async_lib.Base.{
  ℕ, zero, suc, ◌<◌, ◌≡◌, ◌≢◌, refl, ap, ◌∙◌, true, List, [], ◌∷◌, length, ltb_of_lt, leb_of_lt,
  Bool-cases, inl, inr, ==_of_ne, ==_of_eq, ◌==◌, if_ind, set, get_or, get_or-set_self,
  if◌then◌else◌,
}
use my_async_lib.Constants.{default_spmc_capacity}
use my_async_lib.Spmc
use my_async_lib.Executor.{
  Worker, Executor, Caller, new_worker, worker, wake_first, wake_any_worker, unpark, offload,
  push_global, schedule, schedule_on, schedule_local,
}

-- The thread of `IOLoop(io_id)`, with `g_thread_id` and `g_executor` as it sets them.
unfoldable pub io_caller : ℕ → ℕ → Caller
io_caller io_id random = record { same_executor = true; thread_id = io_id; random = random }

abbrev pub inboxes : List Worker → List ℕ
inboxes [] = []
inboxes (w ∷ ws) = w.inbox ∷ inboxes ws

inboxes-set :
    (ws : List Worker) (i : ℕ) (w : Worker)
    → w.inbox ≡ (get_or ws i new_worker).inbox
    → inboxes (set ws i w) ≡ inboxes ws
inboxes-set [] i w e = refl
inboxes-set (x ∷ ws) zero w e = ap (λ a. a ∷ inboxes ws) e
inboxes-set (x ∷ ws) (suc i) w e = ap (λ rest. x.inbox ∷ rest) (inboxes-set ws i w e)

inboxes-wake_first : (ws : List Worker) → inboxes (wake_first ws) ≡ inboxes ws
unfolding wake_first unpark
inboxes-wake_first [] = refl
inboxes-wake_first (w ∷ ws) =
    if_ind (λ vs. inboxes vs ≡ w.inbox ∷ inboxes ws) w.is_parked (λ p. rw p (refl))
      (λ _. ap (λ rest. w.inbox ∷ rest) (inboxes-wake_first ws))

offload-workers :
    (s : Executor) (batch : List ℕ) (task : ℕ) → (offload s batch task).workers ≡ s.workers
unfolding offload push_global
offload-workers s [] task = refl
offload-workers s (first ∷ batch) task = refl

schedule_local-inboxes :
    (s : Executor) (task i : ℕ) → inboxes (schedule_local s task i).workers ≡ inboxes s.workers
unfolding schedule_local wake_any_worker
schedule_local-inboxes s task i =
    if_ind (λ (r : Executor). inboxes r.workers ≡ inboxes s.workers) ((worker s i).lifo_slot == 0)
      (λ _. inboxes-set s.workers i _ refl)
      (λ _.
        if_ind (λ (r : Executor). inboxes r.workers ≡ inboxes s.workers)
          (Spmc.push default_spmc_capacity (worker s i).queue task).1
          (λ _. inboxes-set s.workers i _ refl)
          (λ _.
            inboxes-wake_first _
            ∙ ap inboxes (
                offload-workers _
                  (Spmc.take_half default_spmc_capacity
                    (Spmc.push default_spmc_capacity (worker s i).queue task).0).1
                  task)
            ∙ inboxes-set s.workers i _ refl))

wake_first-slot :
    (ws : List Worker) (i : ℕ)
    → (get_or (wake_first ws) i new_worker).lifo_slot ≡ (get_or ws i new_worker).lifo_slot
unfolding wake_first unpark
wake_first-slot [] i = refl
wake_first-slot (w ∷ ws) zero =
    if_ind (λ vs. (get_or vs 0 new_worker).lifo_slot ≡ w.lifo_slot) w.is_parked (λ p. rw p (refl))
      (λ _. refl)
wake_first-slot (w ∷ ws) (suc i) =
    if_ind (λ vs. (get_or vs (suc i) new_worker).lifo_slot ≡ (get_or ws i new_worker).lifo_slot)
      w.is_parked (λ _. refl) (λ _. wake_first-slot ws i)

-- The slot after a task was put to a worker whose slot is `slot`.
abbrev pub slot_after : ℕ → ℕ → ℕ
slot_after slot task = if slot == 0 then task else slot

schedule_local-slot :
    (s : Executor) (task i : ℕ)
    → i < length s.workers
    → (worker (schedule_local s task i) i).lifo_slot ≡ slot_after (worker s i).lifo_slot task
unfolding schedule_local wake_any_worker
schedule_local-slot s task i inside = elim (Bool-cases ((worker s i).lifo_slot == 0)) [
  | inl t ↦
      rw t (ap (λ (w : Worker). w.lifo_slot) (get_or-set_self s.workers i _ new_worker inside))
  | inr f ↦ rw f (
      if_ind (λ (r : Executor). (worker r i).lifo_slot ≡ (worker s i).lifo_slot)
        (Spmc.push default_spmc_capacity (worker s i).queue task).1
        (λ _. ap (λ (w : Worker). w.lifo_slot) (get_or-set_self s.workers i _ new_worker inside))
        (λ _.
          wake_first-slot _ i
          ∙ ap (λ ws. (get_or ws i new_worker).lifo_slot)
              (offload-workers _
                (Spmc.take_half default_spmc_capacity
                  (Spmc.push default_spmc_capacity (worker s i).queue task).0).1
                task)
          ∙ ap (λ (w : Worker). w.lifo_slot) (get_or-set_self s.workers i _ new_worker inside)))
]

io_schedule-local :
    (s : Executor) (io_id random task : ℕ)
    → task ≢ 0
    → io_id < length s.workers
    → (schedule s (io_caller io_id random) task).0 ≡ schedule_local s task io_id
unfolding io_caller schedule schedule_on
io_schedule-local s io_id random task ne inside = rw (
  ==_of_ne task 0 ne,
  ltb_of_lt io_id (length s.workers) inside,
  leb_of_lt (length s.workers) io_id inside,
  ==_of_eq io_id io_id refl,
)

-- In the thread of an IO context whose number is that of a worker, `schedule` of a task that is not
-- null changes no worker's inbox; if the slot of that worker is empty, the task lies in it
-- afterwards, although the thread is not the worker's, and otherwise the slot keeps its task.
pub io_schedule-slot :
    (s : Executor) (io_id random task : ℕ)
    → task ≢ 0
    → io_id < length s.workers
    → let s' = (schedule s (io_caller io_id random) task).0 in
      (inboxes s'.workers ≡ inboxes s.workers)
      × ((worker s' io_id).lifo_slot
          ≡ (if (worker s io_id).lifo_slot == 0 then task else (worker s io_id).lifo_slot))
io_schedule-slot s io_id random task ne inside =
    rw (io_schedule-local s io_id random task ne inside)
      (schedule_local-inboxes s task io_id, schedule_local-slot s task io_id inside)
