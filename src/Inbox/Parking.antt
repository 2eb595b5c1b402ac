-- ===== src/Inbox/Parking.antt =====
-- Who holds `park_mu`, and what a worker that parks (executor.hpp) may rely on.
use my_async_lib.Base.{
  ℕ, ◌≡◌, ◌≢◌, refl, sym, subst, Bool, true, false, ◌==◌, ◌⊎◌, inl, inr, if◌then◌else◌, Bool-cases,
  eq_of_==, arith,
}
use my_async_lib.Inbox.{
  Unpark, away, testing, locking, storing, signaling, unlocking, Stance, looking, exchanging,
  opened, draining, moving, parking, entering, test_running, test_parked, test_inbox, committed,
  waiting, woken, timed_out, leaving, parted, Holder, free, by_worker, by_thread, at,
}

-- Whether a thread holds the lock, by where it stands and by the lock.
abbrev pub has : Unpark → ℕ
has away = 0
has testing = 0
has locking = 0
has storing = 1
has signaling = 1
has unlocking = 1

abbrev pub thread_has : Holder → ℕ → ℕ
thread_has free i = 0
thread_has by_worker i = 0
thread_has (by_thread j) i = if j == i then 1 else 0

-- The same for the worker.
abbrev pub owns : Stance → ℕ
owns looking = 0
owns exchanging = 0
owns (opened first) = 0
owns (draining first curr) = 0
owns (moving first curr rest) = 0
owns parking = 0
owns entering = 1
owns test_running = 1
owns test_parked = 1
owns test_inbox = 1
owns committed = 1
owns waiting = 0
owns woken = 0
owns timed_out = 0
owns leaving = 1
owns parted = 1

abbrev pub worker_has : Holder → ℕ
worker_has free = 0
worker_has by_worker = 1
worker_has (by_thread i) = 0

-- Whether a thread is on its way to wake the worker, and whether it is about to signal.
abbrev pub comes : Unpark → ℕ
comes away = 0
comes testing = 1
comes locking = 1
comes storing = 1
comes signaling = 1
comes unlocking = 0

abbrev pub signals : Unpark → ℕ
signals away = 0
signals testing = 0
signals locking = 0
signals storing = 0
signals signaling = 1
signals unlocking = 0

abbrev pub SomeComes : (ℕ → Unpark) → Type 0
SomeComes unparks = (i : ℕ) × (comes (unparks i) ≡ 1)

abbrev pub SomeSignals : (ℕ → Unpark) → Type 0
SomeSignals unparks = (i : ℕ) × (signals (unparks i) ≡ 1)

-- How much a parking worker has tested.
pub data Phase : Type 0 where
  elsewhere : Phase
  ran : Phase
  stayed : Phase
  found_none : Phase
  asleep : Phase

abbrev pub phase : Stance → Phase
phase looking = elsewhere
phase exchanging = elsewhere
phase (opened first) = elsewhere
phase (draining first curr) = elsewhere
phase (moving first curr rest) = elsewhere
phase parking = elsewhere
phase entering = elsewhere
phase test_running = elsewhere
phase test_parked = ran
phase test_inbox = stayed
phase committed = found_none
phase waiting = asleep
phase woken = elsewhere
phase timed_out = elsewhere
phase leaving = elsewhere
phase parted = elsewhere

-- Of what the worker has tested and found to be no reason to wake, a change has sent somebody.
abbrev pub Watch : Bool → Bool → ℕ → (ℕ → Unpark) → Phase → Type 0
Watch is_parked running inbox unparks elsewhere = Unit {0}
Watch is_parked running inbox unparks ran =
    running ≡ false → (is_parked ≡ false) ⊎ SomeComes unparks
Watch is_parked running inbox unparks stayed =
    (is_parked ≡ true) × (running ≡ false → SomeComes unparks)
Watch is_parked running inbox unparks found_none =
    (is_parked ≡ true) × (running ≡ false → SomeComes unparks) × (inbox ≢ 0 → SomeComes unparks)
Watch is_parked running inbox unparks asleep =
    ((is_parked ≡ true) ⊎ SomeSignals unparks)
    × (running ≡ false → SomeComes unparks)
    × (inbox ≢ 0 → SomeComes unparks)

-- The threads go on, and those that come or signal still do.
pub Watch-threads :
    (is_parked running : Bool) (inbox : ℕ) (unparks unparks' : ℕ → Unpark) (ph : Phase)
    → (SomeComes unparks → SomeComes unparks')
    → (SomeSignals unparks → SomeSignals unparks')
    → Watch is_parked running inbox unparks ph
    → Watch is_parked running inbox unparks' ph
Watch-threads p r n u u' elsewhere c s h = tt
Watch-threads p r n u u' ran c s h =
    λ stopped. elim (h stopped) [ inl off ↦ inl off | inr some_one ↦ inr (c some_one) ]
Watch-threads p r n u u' stayed c s (on, stop) = (on, λ stopped. c (stop stopped))
Watch-threads p r n u u' found_none c s (on, stop, fill) =
    (on, λ stopped. c (stop stopped), λ filled. c (fill filled))
Watch-threads p r n u u' asleep c s (inl on, stop, fill) =
    (inl on, λ stopped. c (stop stopped), λ filled. c (fill filled))
Watch-threads p r n u u' asleep c s (inr sig, stop, fill) =
    (inr (s sig), λ stopped. c (stop stopped), λ filled. c (fill filled))

-- Somebody comes, whatever else has changed.
pub Watch-alert :
    (is_parked running running' : Bool) (inbox inbox' : ℕ) (unparks unparks' : ℕ → Unpark)
    (ph : Phase)
    → SomeComes unparks'
    → (SomeSignals unparks → SomeSignals unparks')
    → Watch is_parked running inbox unparks ph
    → Watch is_parked running' inbox' unparks' ph
Watch-alert p r r' n n' u u' elsewhere c s h = tt
Watch-alert p r r' n n' u u' ran c s h = λ stopped. inr c
Watch-alert p r r' n n' u u' stayed c s (on, stop) = (on, λ stopped. c)
Watch-alert p r r' n n' u u' found_none c s (on, stop, fill) = (on, λ stopped. c, λ filled. c)
Watch-alert p r r' n n' u u' asleep c s (inl on, stop, fill) = (inl on, λ stopped. c, λ filled. c)
Watch-alert p r r' n n' u u' asleep c s (inr sig, stop, fill) =
    (inr (s sig), λ stopped. c, λ filled. c)

-- A thread that finds the worker awake goes away: somebody else signals, if the worker sleeps.
pub Watch-leave :
    (running : Bool) (inbox : ℕ) (unparks unparks' : ℕ → Unpark) (ph : Phase)
    → (SomeSignals unparks → SomeSignals unparks')
    → (SomeSignals unparks' → SomeComes unparks')
    → Watch false running inbox unparks ph
    → Watch false running inbox unparks' ph
Watch-leave r n u u' elsewhere s c h = tt
Watch-leave r n u u' ran s c h = λ stopped. inl refl
Watch-leave r n u u' stayed s c (on, stop) = absurd (ground (arith, on))
Watch-leave r n u u' found_none s c (on, stop, fill) = absurd (ground (arith, on))
Watch-leave r n u u' asleep s c (inl on, stop, fill) = absurd (ground (arith, on))
Watch-leave r n u u' asleep s c (inr sig, stop, fill) =
    (inr (s sig), λ stopped. c (s sig), λ filled. c (s sig))

-- Where one thread goes on, those that come still do.
pub SomeComes-at :
    (unparks : ℕ → Unpark) (i : ℕ) (unpark : Unpark)
    → (comes (unparks i) ≡ 1 → comes unpark ≡ 1)
    → SomeComes unparks
    → SomeComes (at unparks i unpark)
SomeComes-at unparks i unpark keep (j, c) = elim (Bool-cases (i == j)) [
  | inl here ↦ (j, rw here (keep (subst (λ k. comes (unparks k) ≡ 1) (sym (eq_of_== i j here)) c)))
  | inr there ↦ (j, rw there c)
]

pub SomeSignals-at :
    (unparks : ℕ → Unpark) (i : ℕ) (unpark : Unpark)
    → (signals (unparks i) ≡ 1 → signals unpark ≡ 1)
    → SomeSignals unparks
    → SomeSignals (at unparks i unpark)
SomeSignals-at unparks i unpark keep (j, c) = elim (Bool-cases (i == j)) [
  | inl here ↦
      (j, rw here (keep (subst (λ k. signals (unparks k) ≡ 1) (sym (eq_of_== i j here)) c)))
  | inr there ↦ (j, rw there c)
]

pub at_self : (unparks : ℕ → Unpark) (i : ℕ) (unpark : Unpark) → at unparks i unpark i ≡ unpark
at_self unparks i unpark = ground arith

pub comes_of_signals : (unpark : Unpark) → signals unpark ≡ 1 → comes unpark ≡ 1
comes_of_signals away h = h
comes_of_signals testing h = refl
comes_of_signals locking h = refl
comes_of_signals storing h = refl
comes_of_signals signaling h = refl
comes_of_signals unlocking h = h
