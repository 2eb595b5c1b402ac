-- ===== src/Inbox/Rounds.antt =====
-- The worker's accesses in executor.hpp keep the lock and what it relies on while it parks.
use my_async_lib.Base.{ℕ, ◌≡◌, refl, sym, subst, ap, ◌∙◌, Bool, true, false, inl, inr, arith}
use my_async_lib.Base.Store.{Store}
use my_async_lib.Inbox.{
  State, Unpark, Stance, looking, exchanging, opened, draining, moving, parking, entering,
  test_running, test_parked, test_inbox, committed, waiting, woken, timed_out, leaving, parted,
  Holder, free, by_worker, idle_worker,
}
use my_async_lib.Inbox.Steps.{
  DrainStep, ParkStep, Step, by_call, by_unpark, by_drain, by_park, Reach, here, step, pop_sees,
  pop_exchanges, drain_first, drain_next, drain_moves, drain_ends, park_call, park_locks,
  park_stopped, park_stores, park_running, park_not_running, park_parked, park_unparked, park_empty,
  park_filled, park_waits, park_wakes, park_times_out, park_again, park_breaks, park_clears,
  park_returns,
}
use my_async_lib.Inbox.Parking.{thread_has, owns, phase, Watch}
use my_async_lib.Inbox.Guard.{Inv, Guarded, CallStep-Guarded, UnparkStep-Guarded, worker_alone}

-- The worker goes on, and the lock stays as it is.
stays :
    {p p' r : Bool} {n n' : ℕ} {lock : Holder} {unparks : ℕ → Unpark} {stance : Stance}
    (before after : Stance)
    → Inv p r n lock unparks stance
    → stance ≡ before
    → owns after ≡ owns before
    → Watch p' r n' unparks (phase after)
    → Inv p' r n' lock unparks after
stays before after h e same watch = record {
  threads = h.threads;
  owner = same ∙ ap owns (sym e) ∙ h.owner;
  watch = watch;
}

-- The worker takes the lock, and gives it back.
takes :
    {p r : Bool} {n : ℕ} {lock : Holder} {unparks : ℕ → Unpark} {stance : Stance} (after : Stance)
    → Inv p r n lock unparks stance
    → lock ≡ free
    → owns after ≡ 1
    → Watch p r n unparks (phase after)
    → Inv p r n by_worker unparks after
takes after h unlocked one watch = record {
  threads = λ i. h.threads i ∙ ap (λ l. thread_has l i) unlocked;
  owner = one;
  watch = watch;
}

gives :
    {p r : Bool} {n : ℕ} {lock : Holder} {unparks : ℕ → Unpark} {stance : Stance}
    (before after : Stance)
    → Inv p r n lock unparks stance
    → stance ≡ before
    → owns before ≡ 1
    → owns after ≡ 0
    → Watch p r n unparks (phase after)
    → Inv p r n free unparks after
gives {lock} before after h e one none_after watch = record {
  threads = λ i. h.threads i ∙ worker_alone lock i (sym h.owner ∙ ap owns e ∙ one);
  owner = none_after;
  watch = watch;
}

-- What the worker may rely on where it stands.
pub stance-Watch :
    (s : State) (stance : Stance)
    → Guarded s
    → s.worker ≡ stance
    → Watch s.is_parked s.running s.inbox s.unparks (phase stance)
stance-Watch s stance h e =
    subst (λ w. Watch s.is_parked s.running s.inbox s.unparks (phase w)) e h.watch

clash : {A : Type 0} (b : Bool) → b ≡ true → b ≡ false → A
clash b t f = absurd (ground (arith, t, f))

DrainStep-Guarded : {s t : State} → DrainStep s t → Guarded s → Guarded t
DrainStep-Guarded (pop_sees s e some_task) h = stays looking exchanging h e refl tt
DrainStep-Guarded (pop_exchanges s e) h = stays exchanging (opened s.inbox) h e refl tt
DrainStep-Guarded (drain_first s first e) h =
    stays (opened first) (draining first (s.next first)) h e refl tt
DrainStep-Guarded (drain_next s first curr e ne) h =
    stays (draining first curr) (moving first curr (s.next curr)) h e refl tt
DrainStep-Guarded (drain_moves s first curr rest e) h =
    stays (moving first curr rest) (draining first rest) h e refl tt
DrainStep-Guarded (drain_ends s first e) h = stays (draining first 0) looking h e refl tt

ParkStep-Guarded : {s t : State} → ParkStep s t → Guarded s → Guarded t
ParkStep-Guarded (park_call s e) h = stays looking parking h e refl tt
ParkStep-Guarded (park_locks s e unlocked) h = takes entering h unlocked refl tt
ParkStep-Guarded (park_stopped s e r) h = stays entering parted h e refl tt
ParkStep-Guarded (park_stores s e r) h = stays entering test_running h e refl tt
ParkStep-Guarded (park_running s e r) h =
    stays test_running test_parked h e refl (λ stopped. clash s.running r stopped)
ParkStep-Guarded (park_not_running s e r) h = stays test_running leaving h e refl tt
ParkStep-Guarded (park_parked s e on) h = stays test_parked test_inbox h e refl (
  on,
  λ stopped. elim (stance-Watch s test_parked h e stopped) [
    | inl off ↦ clash s.is_parked on off
    | inr coming ↦ coming
  ],
)
ParkStep-Guarded (park_unparked s e off) h = stays test_parked leaving h e refl tt
ParkStep-Guarded (park_empty s e none_yet) h =
    let (on, stop) = stance-Watch s test_inbox h e in
    stays test_inbox committed h e refl (on, stop, λ filled. absurd (filled none_yet))
ParkStep-Guarded (park_filled s e some_task) h = stays test_inbox leaving h e refl tt
ParkStep-Guarded (park_waits s e) h =
    let (on, stop, fill) = stance-Watch s committed h e in
    gives committed waiting h e refl refl (inl on, stop, fill)
ParkStep-Guarded (park_wakes s e) h = stays waiting woken h e refl tt
ParkStep-Guarded (park_times_out s e) h = stays waiting timed_out h e refl tt
ParkStep-Guarded (park_again s e unlocked) h = takes test_running h unlocked refl tt
ParkStep-Guarded (park_breaks s e unlocked) h = takes leaving h unlocked refl tt
ParkStep-Guarded (park_clears s e) h = stays leaving parted h e refl tt
ParkStep-Guarded (park_returns s e) h = gives parted looking h e refl refl tt

Step-Guarded : {s t : State} → Step s t → Guarded s → Guarded t
Step-Guarded (by_call st) h = CallStep-Guarded st h
Step-Guarded (by_unpark st) h = UnparkStep-Guarded st h
Step-Guarded (by_drain st) h = DrainStep-Guarded st h
Step-Guarded (by_park st) h = ParkStep-Guarded st h

pub Reach-Guarded : {s t : State} → Reach s t → Guarded s → Guarded t
Reach-Guarded here h = h
Reach-Guarded (step r st) h = Step-Guarded st (Reach-Guarded r h)

pub idle_worker-Guarded : (next : Store) → Guarded (idle_worker next)
idle_worker-Guarded next = record { threads = λ i. refl; owner = refl; watch = tt }
