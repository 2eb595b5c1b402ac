-- ===== src/Inbox/Chains.antt =====
-- The chains of tasks that a worker's inbox (executor.hpp) consists of, between two accesses.
use my_async_lib.Base.{
  ℕ, suc, ◌+◌, ◌≤◌, ◌≡◌, ◌≢◌, refl, sym, subst, ap, ◌∙◌, Bool, List, [], ◌∷◌, ◌==◌, count, arith,
  Bool-cases, inl, inr, eq_of_==,
}
use my_async_lib.Base.Store.{Store, Chain}
use my_async_lib.Inbox.{
  State, Push, absent, started, seen, linked, Unpark, Stance, Holder, at, looking, exchanging,
  opened, draining, moving, parking, entering, test_running, test_parked, test_inbox, committed,
  waiting, woken, timed_out, leaving, parted,
}

-- A task that a call has and that is not in the inbox yet.
abbrev pub in_flight : Push → ℕ
in_flight absent = 0
in_flight started = 1
in_flight (seen old) = 1
in_flight (linked old) = 1

-- A call that has written `task->next` finds there what it wrote.
abbrev pub Linked : Store → ℕ → Push → Type 0
Linked next task absent = Unit {0}
Linked next task started = Unit {0}
Linked next task (seen old) = Unit {0}
Linked next task (linked old) = next task ≡ old

-- The start of the list that the worker has yet to walk.
abbrev pub rest_of : Stance → ℕ
rest_of (opened first) = first
rest_of (draining first curr) = curr
rest_of (moving first curr rest) = rest
rest_of looking = 0
rest_of exchanging = 0
rest_of parking = 0
rest_of entering = 0
rest_of test_running = 0
rest_of test_parked = 0
rest_of test_inbox = 0
rest_of committed = 0
rest_of waiting = 0
rest_of woken = 0
rest_of timed_out = 0
rest_of leaving = 0
rest_of parted = 0

-- The tasks that the worker has taken from the list and not passed on.
abbrev pub hands : Stance → List ℕ
hands (draining first curr) = first ∷ []
hands (moving first curr rest) = first ∷ curr ∷ []
hands (opened first) = []
hands looking = []
hands exchanging = []
hands parking = []
hands entering = []
hands test_running = []
hands test_parked = []
hands test_inbox = []
hands committed = []
hands waiting = []
hands woken = []
hands timed_out = []
hands leaving = []
hands parted = []

-- What the worker has found not to be `nullptr`.
abbrev pub Sees : ℕ → Stance → Type 0
Sees inbox exchanging = inbox ≢ 0
Sees inbox (opened first) = first ≢ 0
Sees inbox (draining first curr) = Unit {0}
Sees inbox (moving first curr rest) = Unit {0}
Sees inbox looking = Unit {0}
Sees inbox parking = Unit {0}
Sees inbox entering = Unit {0}
Sees inbox test_running = Unit {0}
Sees inbox test_parked = Unit {0}
Sees inbox test_inbox = Unit {0}
Sees inbox committed = Unit {0}
Sees inbox waiting = Unit {0}
Sees inbox woken = Unit {0}
Sees inbox timed_out = Unit {0}
Sees inbox leaving = Unit {0}
Sees inbox parted = Unit {0}

pub Sees-filled :
    (inbox inbox' : ℕ) (stance : Stance) → inbox' ≢ 0 → Sees inbox stance → Sees inbox' stance
Sees-filled inbox inbox' exchanging ne h = ne
Sees-filled inbox inbox' (opened first) ne h = h
Sees-filled inbox inbox' (draining first curr) ne h = tt
Sees-filled inbox inbox' (moving first curr rest) ne h = tt
Sees-filled inbox inbox' looking ne h = tt
Sees-filled inbox inbox' parking ne h = tt
Sees-filled inbox inbox' entering ne h = tt
Sees-filled inbox inbox' test_running ne h = tt
Sees-filled inbox inbox' test_parked ne h = tt
Sees-filled inbox inbox' test_inbox ne h = tt
Sees-filled inbox inbox' committed ne h = tt
Sees-filled inbox inbox' waiting ne h = tt
Sees-filled inbox inbox' woken ne h = tt
Sees-filled inbox inbox' timed_out ne h = tt
Sees-filled inbox inbox' leaving ne h = tt
Sees-filled inbox inbox' parted ne h = tt

-- The inbox is the chain `xs`, the list that the worker walks is `ys`, and each task that was pushed is
-- in one of the places or was passed on.
pub record Inv (xs ys : List ℕ) (s : State) : Type 0 where
  pub chain : Chain s.next s.inbox xs
  pub rest : Chain s.next (rest_of s.worker) ys
  pub sees : Sees s.inbox s.worker
  pub linked : (task : ℕ) → Linked s.next task (s.pushes task)
  pub null : in_flight (s.pushes 0) ≡ 0
  pub balance :
      (v : ℕ)
      → count v s.delivered
          + (count v xs + (count v ys + (count v (hands s.worker) + in_flight (s.pushes v))))
        ≡ count v s.pushed
  pub once : (v : ℕ) → count v s.pushed ≤ suc (count v s.delivered)

-- What parks or unparks the worker does not touch its tasks.
pub keeps :
    {xs ys : List ℕ} {s : State} (unparks : ℕ → Unpark) (is_parked running : Bool) (lock : Holder)
    (stance : Stance)
    → Inv xs ys s
    → rest_of stance ≡ rest_of s.worker
    → hands stance ≡ hands s.worker
    → Sees s.inbox stance
    → Inv xs ys (record s {
      unparks = unparks;
      is_parked = is_parked;
      running = running;
      lock = lock;
      worker = stance;
    })
keeps {ys} {s} unparks is_parked running lock stance h e same sees = record {
  chain = h.chain;
  rest = subst (λ p. Chain s.next p ys) (sym e) h.rest;
  sees = sees;
  linked = h.linked;
  null = h.null;
  balance = λ v. rw same (h.balance v);
  once = h.once;
}

-- The worker moves from one place without tasks to another.
pub worker_moves :
    {xs ys : List ℕ} {s : State} (is_parked : Bool) (lock : Holder) (before after : Stance)
    → Inv xs ys s
    → s.worker ≡ before
    → rest_of after ≡ rest_of before
    → hands after ≡ hands before
    → Sees s.inbox after
    → Inv xs ys (record s { is_parked = is_parked; lock = lock; worker = after })
worker_moves {s} is_parked lock before after h e rest same sees =
    keeps s.unparks is_parked s.running lock after h (rest ∙ ap rest_of (sym e))
      (same ∙ ap hands (sym e)) sees

-- A call goes on with its task.
pub push_moves :
    {xs ys : List ℕ} {s : State} (task : ℕ) (push before : Push)
    → Inv xs ys s
    → s.pushes task ≡ before
    → in_flight push ≡ in_flight before
    → Linked s.next task push
    → Inv xs ys (record s { pushes = at s.pushes task push })
push_moves {xs} {ys} {s} task push before h e same is_linked =
    let flight : (v : ℕ) → in_flight (at s.pushes task push v) ≡ in_flight (s.pushes v) = λ v.
      elim (Bool-cases (task == v)) [
        | inl here ↦
            rw here (
              same ∙ ap in_flight (sym e) ∙ ap (λ j. in_flight (s.pushes j)) (eq_of_== task v here))
        | inr there ↦ rw there refl
      ] in
    record {
      chain = h.chain;
      rest = h.rest;
      sees = h.sees;
      linked = λ v. elim (Bool-cases (task == v)) [
        | inl here ↦ rw here (subst (λ j. Linked s.next j push) (eq_of_== task v here) is_linked)
        | inr there ↦ rw there (h.linked v)
      ];
      null = flight 0 ∙ h.null;
      balance = λ v. omega (arith, h.balance v, flight v);
      once = h.once;
    }
