-- ===== src/Timer/Late.antt =====
-- Timers to whose tick a pass of `Run` (timer_keeper.hpp) comes before their time.
use my_async_lib.Base.{ℕ, ◌+◌, ◌-◌, ◌%◌, ◌≤◌, ◌<◌, ◌≡◌, ◌≢◌, subst, sym, ◌∙◌, arith, []}
use my_async_lib.Timer.{Entry, Keeper, Pass, bucket, wheel_slots, tick_of, process_ticks, run_pass}
use my_async_lib.Timer.Sweep.{In, IsWaiting}
use my_async_lib.Timer.Ticks.{
  IsWheel, process_ticks-waiting, process_ticks-untouched, process_ticks-last_tick,
}

-- An entry that is not canceled, and to whose tick a pass comes in the 10 ms of that tick but
-- before the entry's time, is still in its bucket after a second pass less than a turn of the wheel
-- (4096 ticks) later, also when its time has long passed.
pub run_pass_late :
    (k : Keeper) (e : Entry) (now later : ℕ)
    → IsWheel k
    → In e (bucket k (tick_of e.expire_at % wheel_slots))
    → IsWaiting now e
    → tick_of now ≡ tick_of e.expire_at
    → k.last_tick ≤ tick_of now
    → tick_of later < tick_of now + wheel_slots
    → In e
        (bucket (run_pass later (run_pass now k).keeper).keeper (tick_of e.expire_at % wheel_slots))
unfolding run_pass
run_pass_late k e now later w at waits same ahead soon = subst (In e) (sym kept) first_kept
  where
    slot : ℕ
    slot = tick_of e.expire_at % wheel_slots

    p0 : Pass
    p0 = record { keeper = k; expired = []; deleted = [] }

    rounds : ℕ
    rounds = tick_of now + 1 - k.last_tick

    k1 : Keeper
    k1 = (process_ticks rounds now p0).keeper

    first_kept : In e (bucket k1 slot)
    first_kept = process_ticks-waiting now rounds e p0 slot w at waits

    at_next : k1.last_tick ≡ tick_of now + 1
    at_next = process_ticks-last_tick now rounds p0 ∙ omega arith

    away :
        (j : ℕ)
        → k1.last_tick ≤ j
        → j < k1.last_tick + (tick_of later + 1 - k1.last_tick)
        → j % wheel_slots ≢ slot
    away j low high q = omega (arith, at_next)

    kept :
        bucket
          (process_ticks
            (tick_of later + 1 - k1.last_tick)
            later
            (record { keeper = k1; expired = []; deleted = [] })).keeper
          slot
        ≡ bucket k1 slot
    kept = process_ticks-untouched later _ _ slot away
