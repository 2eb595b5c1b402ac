-- ===== src/Inbox/Wakeup.antt =====
-- No wake-up of a parked worker (executor.hpp) is lost.
use my_async_lib.Base.{ℕ, ◌≡◌, ◌≢◌, refl, ap, ◌∙◌, true, false, ◌⊎◌, inl, inr, arith}
use my_async_lib.Base.Store.{Store}
use my_async_lib.Inbox.{
  State, Unpark, away, testing, locking, storing, signaling, unlocking, waiting, woken, Holder,
  free, by_worker, by_thread, idle_worker,
}
use my_async_lib.Inbox.Steps.{
  Reach, Helps, enough, help, unpark_parked, unpark_locks, unpark_stores, unpark_signals,
  unpark_unlocks,
}
use my_async_lib.Inbox.Parking.{
  has, thread_has, owns, worker_has, comes, signals, SomeComes, at_self,
}
use my_async_lib.Inbox.Rounds.{stance-Watch, Reach-Guarded, idle_worker-Guarded}
use my_async_lib.Inbox.Guard.{Guarded, UnparkStep-Guarded}

-- What threads that are in `unpark` do from `r` on ends with the worker woken.
abbrev pub WokenFrom : State → Type 0
WokenFrom r = (t : State) × Helps r t × (t.worker ≡ woken)

from_signaling :
    (r s : State) (i : ℕ) → Helps r s → s.worker ≡ waiting → s.unparks i ≡ signaling → WokenFrom r
from_signaling r s i reached w e = (_, help reached (unpark_signals s i e w), refl)

from_storing :
    (r s : State) (i : ℕ) → Helps r s → s.worker ≡ waiting → s.unparks i ≡ storing → WokenFrom r
from_storing r s i reached w e =
    from_signaling r _ i (help reached (unpark_stores s i e)) w (at_self s.unparks i signaling)

from_free :
    (r s : State) (i : ℕ)
    → Helps r s
    → s.worker ≡ waiting
    → s.unparks i ≡ locking
    → s.lock ≡ free
    → WokenFrom r
from_free r s i reached w e unlocked =
    from_storing r _ i (help reached (unpark_locks s i e unlocked)) w (at_self s.unparks i storing)

-- Another thread holds the lock.
from_held :
    (r s : State) (i j : ℕ) (x : Unpark)
    → Helps r s
    → s.worker ≡ waiting
    → s.unparks i ≡ locking
    → s.unparks j ≡ x
    → has x ≡ 1
    → WokenFrom r
from_held r s i j away reached w e f held = absurd (omega (arith, held))
from_held r s i j testing reached w e f held = absurd (omega (arith, held))
from_held r s i j locking reached w e f held = absurd (omega (arith, held))
from_held r s i j storing reached w e f held = from_storing r s j reached w f
from_held r s i j signaling reached w e f held = from_signaling r s j reached w f
from_held r s i j unlocking reached w e f held =
    let ne : j ≢ i =
      λ same. absurd (omega (arith, ap (λ k. has (s.unparks k)) same, ap has e, ap has f)) in
    from_free r _ i (help reached (unpark_unlocks s j f)) w (ground (arith, ne, e)) refl

from_locking :
    (r s : State) (i : ℕ) (lock : Holder)
    → Helps r s
    → Guarded s
    → s.worker ≡ waiting
    → s.unparks i ≡ locking
    → s.lock ≡ lock
    → WokenFrom r
from_locking r s i free reached h w e l = from_free r s i reached w e l
from_locking r s i by_worker reached h w e l =
    absurd (omega (arith, h.owner, ap owns w, ap worker_has l))
from_locking r s i (by_thread j) reached h w e l =
    from_held r s i j (s.unparks j) reached w e refl
      (h.threads j ∙ ap (λ k. thread_has k j) l ∙ ground arith)

-- A thread that comes, wherever it stands; `is_parked` is set.
from_coming :
    (s : State) (i : ℕ) (x : Unpark)
    → Guarded s
    → s.worker ≡ waiting
    → s.is_parked ≡ true
    → s.unparks i ≡ x
    → comes x ≡ 1
    → WokenFrom s
from_coming s i away h w on e c = absurd (omega (arith, c))
from_coming s i testing h w on e c =
    let st = unpark_parked s i e on in
    from_locking s _ i s.lock (help enough st) (UnparkStep-Guarded st h) w
      (at_self s.unparks i locking) refl
from_coming s i locking h w on e c = from_locking s s i s.lock enough h w e refl
from_coming s i storing h w on e c = from_storing s s i enough w e
from_coming s i signaling h w on e c = from_signaling s s i enough w e
from_coming s i unlocking h w on e c = absurd (omega (arith, c))

signaling_of : (x : Unpark) → signals x ≡ 1 → x ≡ signaling
signaling_of away h = absurd (omega (arith, h))
signaling_of testing h = absurd (omega (arith, h))
signaling_of locking h = absurd (omega (arith, h))
signaling_of storing h = absurd (omega (arith, h))
signaling_of signaling h = refl
signaling_of unlocking h = absurd (omega (arith, h))

-- A worker that waits in `park_and_wait` with a task in its inbox, or with the executor stopped,
-- however calls of `push_inbox`, `unpark` and `Stop` by any number of threads interleaved with the
-- worker, access by access (sequentially consistent): threads that are in `unpark` already wake it
-- by going on, without a time-out and without a further call.
pub waiting-WokenFrom :
    (next : Store) {s : State}
    → Reach (idle_worker next) s
    → s.worker ≡ waiting
    → (s.inbox ≢ 0) ⊎ (s.running ≡ false)
    → WokenFrom s
waiting-WokenFrom next {s} r w news =
    let h = Reach-Guarded r (idle_worker-Guarded next) in
    let (asleep, stop, fill) = stance-Watch s waiting h w in
    let coming : SomeComes s.unparks = elim news [
      | inl filled ↦ fill filled
      | inr stopped ↦ stop stopped
    ] in
    elim asleep [
      | inl on ↦ from_coming s (coming.0) (s.unparks (coming.0)) h w on refl (coming.1)
      | inr (i, sig) ↦ from_signaling s s i enough w (signaling_of (s.unparks i) sig)
    ]
