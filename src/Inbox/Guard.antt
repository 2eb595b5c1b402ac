-- ===== src/Inbox/Guard.antt =====
-- The accesses of executor.hpp keep the lock and what a parked worker relies on.
use my_async_lib.Base.{
  ℕ, ◌≡◌, ◌≢◌, refl, sym, subst, ap, ◌∙◌, Bool, false, ◌==◌, ◌⊎◌, inl, inr, Bool-cases, eq_of_==,
  arith,
}
use my_async_lib.Inbox.{
  State, Unpark, away, testing, locking, storing, signaling, unlocking, Stance, looking, exchanging,
  opened, draining, moving, parking, entering, test_running, test_parked, test_inbox, committed,
  waiting, woken, timed_out, leaving, parted, Holder, free, by_worker, by_thread, at,
}
use my_async_lib.Inbox.Steps.{
  CallStep, UnparkStep, push_call, push_load, push_link, push_wins, push_loses, unpark_call,
  stop_call, unpark_awake, unpark_parked, unpark_locks, unpark_stores, unpark_signals,
  unpark_unheard, unpark_unlocks,
}
use my_async_lib.Inbox.Parking.{
  has, thread_has, owns, worker_has, comes, signals, SomeComes, SomeSignals, elsewhere, phase,
  Watch, Watch-threads, Watch-alert, Watch-leave, SomeComes-at, SomeSignals-at, at_self,
  comes_of_signals,
}

-- The lock is held by who stands where it is held, and the worker may sleep.
pub record Inv (is_parked running : Bool) (inbox : ℕ) (lock : Holder) (unparks : ℕ → Unpark)
    (stance : Stance) : Type 0 where
  pub threads : (i : ℕ) → has (unparks i) ≡ thread_has lock i
  pub owner : owns stance ≡ worker_has lock
  pub watch : Watch is_parked running inbox unparks (phase stance)

abbrev pub Guarded : State → Type 0
Guarded s = Inv s.is_parked s.running s.inbox s.lock s.unparks s.worker

-- Who does not hold the lock is asleep, or has tested nothing.
free_cases : (stance : Stance) → owns stance ≡ 0 → (phase stance ≡ elsewhere) ⊎ (stance ≡ waiting)
free_cases looking h = inl refl
free_cases exchanging h = inl refl
free_cases (opened first) h = inl refl
free_cases (draining first curr) h = inl refl
free_cases (moving first curr rest) h = inl refl
free_cases parking h = inl refl
free_cases entering h = absurd (omega (arith, h))
free_cases test_running h = absurd (omega (arith, h))
free_cases test_parked h = absurd (omega (arith, h))
free_cases test_inbox h = absurd (omega (arith, h))
free_cases committed h = absurd (omega (arith, h))
free_cases waiting h = inr refl
free_cases woken h = inl refl
free_cases timed_out h = inl refl
free_cases leaving h = absurd (omega (arith, h))
free_cases parted h = absurd (omega (arith, h))

pub worker_alone : (lock : Holder) (i : ℕ) → worker_has lock ≡ 1 → thread_has lock i ≡ 0
worker_alone free i h = refl
worker_alone by_worker i h = refl
worker_alone (by_thread j) i h = absurd (omega (arith, h))

thread_alone : (lock : Holder) (i : ℕ) → thread_has lock i ≡ 1 → worker_has lock ≡ 0
thread_alone free i h = refl
thread_alone by_worker i h = absurd (omega (arith, h))
thread_alone (by_thread j) i h = refl

threads_alone : (lock : Holder) (i j : ℕ) → thread_has lock i ≡ 1 → i ≢ j → thread_has lock j ≡ 0
threads_alone free i j h ne = refl
threads_alone by_worker i j h ne = refl
threads_alone (by_thread k) i j h ne = ground (arith, h, ne)

-- A thread goes on, without the lock or with it.
thread_goes :
    {p p' r r' : Bool} {n n' : ℕ} {lock : Holder} {unparks : ℕ → Unpark} {stance : Stance} (i : ℕ)
    (before after : Unpark)
    → Inv p r n lock unparks stance
    → unparks i ≡ before
    → has after ≡ has before
    → Watch p' r' n' (at unparks i after) (phase stance)
    → Inv p' r' n' lock (at unparks i after) stance
thread_goes {lock} {unparks} i before after h e same watch = record {
  threads = λ j. elim (Bool-cases (i == j)) [
    | inl same_i ↦
        rw same_i (same ∙ ap has (sym e) ∙ h.threads i ∙ ap (thread_has lock) (eq_of_== i j same_i))
    | inr other ↦ rw other (h.threads j)
  ];
  owner = h.owner;
  watch = watch;
}

-- A thread that neither comes nor goes away.
comes_on :
    {p r : Bool} {n : ℕ} {lock : Holder} {unparks : ℕ → Unpark} {stance : Stance} (i : ℕ)
    (before after : Unpark)
    → Inv p r n lock unparks stance
    → unparks i ≡ before
    → signals before ≡ 0
    → comes after ≡ comes before
    → Watch p r n (at unparks i after) (phase stance)
comes_on {p} {r} {n} {unparks} {stance} i before after h e quiet same =
    Watch-threads p r n unparks (at unparks i after) (phase stance)
      (SomeComes-at unparks i after (λ c. same ∙ ap comes (sym e) ∙ c))
      (SomeSignals-at unparks i after (λ c. absurd (omega (arith, c, quiet, ap signals e)))) h.watch

-- A call of `unpark` begins.
call_begins :
    {p r r' : Bool} {n n' : ℕ} {lock : Holder} {unparks : ℕ → Unpark} {stance : Stance} (i : ℕ)
    → Inv p r n lock unparks stance
    → unparks i ≡ away
    → Inv p r' n' lock (at unparks i testing) stance
call_begins {p} {r} {r'} {n} {n'} {unparks} {stance} i h e = thread_goes i away testing h e refl (
    Watch-alert p r r' n n' unparks (at unparks i testing) (phase stance)
      (i, ap comes (at_self unparks i testing))
      (SomeSignals-at unparks i testing (λ c. absurd (omega (arith, c, ap signals e)))) h.watch)

pub CallStep-Guarded : {s t : State} → CallStep s t → Guarded s → Guarded t
CallStep-Guarded (push_call s task ne e new) h = h
CallStep-Guarded (push_load s task e) h = h
CallStep-Guarded (push_link s task old e) h = h
CallStep-Guarded (push_wins s task old i e top free_thread) h = call_begins i h free_thread
CallStep-Guarded (push_loses s task old e) h = h
CallStep-Guarded (unpark_call s i e) h = call_begins i h e
CallStep-Guarded (stop_call s i e) h = call_begins i h e

-- While a thread holds the lock, the worker is asleep or has tested nothing.
with_lock :
    (s : State) (i : ℕ) (before : Unpark)
    → Guarded s
    → s.unparks i ≡ before
    → has before ≡ 1
    → (phase s.worker ≡ elsewhere) ⊎ (s.worker ≡ waiting)
with_lock s i before h e one =
    let held : thread_has s.lock i ≡ 1 = sym (h.threads i) ∙ ap has e ∙ one in
    free_cases s.worker (h.owner ∙ thread_alone s.lock i held)

-- `is_parked` is cleared, and the signal is to come.
stored-Watch :
    (s : State) (i : ℕ)
    → (phase s.worker ≡ elsewhere) ⊎ (s.worker ≡ waiting)
    → Watch false s.running s.inbox (at s.unparks i signaling) (phase s.worker)
stored-Watch s i (inl e) = rw e tt
stored-Watch s i (inr e) =
    let sig : SomeSignals (at s.unparks i signaling) =
      (i, ap signals (at_self s.unparks i signaling)) in
    let coming : SomeComes (at s.unparks i signaling) =
      (i, ap comes (at_self s.unparks i signaling)) in
    rw e (inr sig, λ stopped. coming, λ filled. coming)

unheard-Watch :
    (s : State) (i : ℕ)
    → (phase s.worker ≡ elsewhere) ⊎ (s.worker ≡ waiting)
    → s.worker ≢ waiting
    → Watch s.is_parked s.running s.inbox (at s.unparks i unlocking) (phase s.worker)
unheard-Watch s i (inl e) ne = rw e tt
unheard-Watch s i (inr e) ne = absurd (ne e)

pub UnparkStep-Guarded : {s t : State} → UnparkStep s t → Guarded s → Guarded t
UnparkStep-Guarded (unpark_awake s i e off) h = thread_goes i testing away h e refl (
    subst (λ p. Watch p s.running s.inbox (at s.unparks i away) (phase s.worker)) (sym off)
      (Watch-leave s.running s.inbox s.unparks (at s.unparks i away) (phase s.worker)
        (SomeSignals-at s.unparks i away (λ c. absurd (omega (arith, c, ap signals e))))
        (λ (j, c). (j, comes_of_signals (at s.unparks i away j) c))
        (subst (λ p. Watch p s.running s.inbox s.unparks (phase s.worker)) off h.watch)))
UnparkStep-Guarded (unpark_parked s i e on) h =
    thread_goes i testing locking h e refl (comes_on i testing locking h e refl refl)
UnparkStep-Guarded (unpark_locks s i e unlocked) h = record {
  threads = λ j. elim (Bool-cases (i == j)) [
    | inl same_i ↦ rw same_i refl
    | inr other ↦ rw other (h.threads j ∙ ap (λ l. thread_has l j) unlocked)
  ];
  owner = h.owner ∙ ap worker_has unlocked;
  watch = comes_on i locking storing h e refl refl;
}
UnparkStep-Guarded (unpark_stores s i e) h =
    thread_goes i storing signaling h e refl (stored-Watch s i (with_lock s i storing h e refl))
UnparkStep-Guarded (unpark_signals s i e w) h =
    let h' : Inv s.is_parked s.running s.inbox s.lock s.unparks woken = record {
      threads = h.threads;
      owner = ap owns (sym w) ∙ h.owner;
      watch = tt;
    } in
    thread_goes i signaling unlocking h' e refl tt
UnparkStep-Guarded (unpark_unheard s i e w) h =
    thread_goes i signaling unlocking h e refl
      (unheard-Watch s i (with_lock s i signaling h e refl) w)
UnparkStep-Guarded (unpark_unlocks s i e) h =
    let held : thread_has s.lock i ≡ 1 = sym (h.threads i) ∙ ap has e in
    record {
      threads = λ j. elim (Bool-cases (i == j)) [
        | inl same_i ↦ rw same_i refl
        | inr other ↦ rw other (h.threads j ∙ threads_alone s.lock i j held (ground (arith, other)))
      ];
      owner = h.owner ∙ thread_alone s.lock i held;
      watch =
          Watch-threads s.is_parked s.running s.inbox s.unparks (at s.unparks i away)
            (phase s.worker)
            (SomeComes-at s.unparks i away (λ c. absurd (omega (arith, c, ap comes e))))
            (SomeSignals-at s.unparks i away (λ c. absurd (omega (arith, c, ap signals e))))
            h.watch;
    }
