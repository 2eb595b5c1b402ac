-- ===== src/Awaiter/Keepers.antt =====
-- include/ant_server/utils/sleep.hpp, and the choice of the timer keeper in
-- awaiter/timeput_awaiter.hpp. `timer_of` gives the keeper of a scheduler, both by address; a duration
-- is in nanoseconds, and the template's cast of it to milliseconds rounds toward zero.
use my_async_lib.Base.{
  Bool, ℕ, zero, suc, ◌+◌, ◌/◌, ◌<◌, ◌≤◌, ◌≡◌, refl, ◌==◌, if◌then◌else◌, arith, true, not, leb_ℤ,
  ℤ, pos, negsuc, pos_part, Option, none, some,
}
use my_async_lib.Task.{TaskNode, coro_task, ThreadLocals}
use my_async_lib.Timer.{Keeper, add_timer, ns_per_ms, expiry}

-- `GetEffectiveTimerKeeper`: `none` is the exception.
unfoldable pub effective_keeper : (ℕ → ℕ) → ThreadLocals → ℕ → Option ℕ
effective_keeper timer_of g explicit_tk =
    if not (explicit_tk == 0)
    then some explicit_tk
    else if not (g.scheduler == 0)
    then some (timer_of g.scheduler)
    else none

-- `SleepAwaiter` before it suspends, the delay in milliseconds, and its constructors.
pub record SleepAwaiter : Type 0 where
  pub timer_keeper : ℕ
  pub delay : ℤ
  pub timer_id : ℕ
  pub task : TaskNode

abbrev pub sleep_awaiter : ℕ → ℤ → SleepAwaiter
sleep_awaiter tk delay = record { timer_keeper = tk; delay = delay; timer_id = 0; task = coro_task }

abbrev pub on_keeper : ℤ → Option ℕ → Option SleepAwaiter
on_keeper delay none = none
on_keeper delay (some tk) = some (sleep_awaiter tk delay)

unfoldable pub default_sleep_awaiter : (ℕ → ℕ) → ThreadLocals → ℤ → Option SleepAwaiter
default_sleep_awaiter timer_of g delay = on_keeper delay (effective_keeper timer_of g 0)

abbrev pub sleep_ready : SleepAwaiter → Bool
sleep_ready s = leb_ℤ s.delay (pos 0)

-- `SleepAwaiter`: nothing to wait for is `none`, otherwise the timer is set.
unfoldable pub sleep : Keeper → ℕ → ℤ → ℕ → Option (Keeper × ℕ)
sleep k now delay task = if leb_ℤ delay (pos 0) then none else some (add_timer k now delay task)

-- `duration_cast<milliseconds>`
abbrev pub neg : ℕ → ℤ
neg zero = pos 0
neg (suc n) = negsuc n

unfoldable pub to_ms : ℤ → ℤ
to_ms (pos ns) = pos (ns / ns_per_ms)
to_ms (negsuc n) = neg ((n + 1) / ns_per_ms)

-- `sleep_for`
unfoldable pub sleep_for : Keeper → ℕ → ℤ → ℕ → Option (Keeper × ℕ)
unfolding sleep to_ms
sleep_for k now duration task = sleep k now (to_ms duration) task

-- The timer of a sleep is due at the time asked or before it, by less than one millisecond.
pub expiry-to_ms :
    (now ns : ℕ)
    → (expiry now (to_ms (pos ns)) ≤ now + ns)
      × (now + ns < expiry now (to_ms (pos ns)) + ns_per_ms)
unfolding to_ms expiry
expiry-to_ms now ns = (omega arith, omega arith)

neg-none : (n : ℕ) → leb_ℤ (neg n) (pos 0) ≡ true
neg-none zero = refl
neg-none (suc n) = ground arith

-- A sleep of no time, of less than a millisecond or of a negative time does not suspend: `sleep_for`
-- then sets no timer.
pub sleep_for-short :
    (k : Keeper) (now : ℕ) (duration : ℤ) (task : ℕ)
    → pos_part duration < ns_per_ms
    → sleep_for k now duration task ≡ none
unfolding sleep_for sleep to_ms
sleep_for-short k now (pos ns) task short = ground arith
sleep_for-short k now (negsuc n) task short = rw (neg-none ((n + 1) / ns_per_ms)) refl
