-- ===== src/Timer/Thread.antt =====
-- The thread of a `TimerKeeper` (timer_keeper.hpp): `Start`, `Stop`, and the rounds of `Run`, with the
-- hand-over to the executor at the end of each.
use my_async_lib.Base.{ℕ, Bool, true, false, ◌&&◌, List, [], ◌∷◌, if◌then◌else◌}
use my_async_lib.Executor.{Executor, Caller}
use my_async_lib.Timer.{Keeper, Pass, run_pass}
use my_async_lib.Timer.Handoff.{dispatch}

-- `running_` and whether `thread_` is joinable.
pub record Thread : Type 0 where
  pub running : Bool
  pub joinable : Bool

abbrev pub new_thread : Thread
new_thread = record { running = false; joinable = false }

unfoldable pub start : Thread → Thread
start t = if t.running then t else record { running = true; joinable = true }

-- The join waits for the end of `Run`, which comes with the next test of `running_`.
unfoldable pub stop : Thread → Thread
stop t = if t.running then record { running = false; joinable = false } else t

-- `~TimerKeeper`
abbrev pub destroy_thread : Thread → Thread
destroy_thread t = stop t

-- What the timer thread works on.
pub record Run : Type 0 where
  pub keeper : Keeper
  pub executor : Executor
  pub caller : Caller

-- What a round finds: the two loads of `running_`, and the time.
pub record Round : Type 0 where
  pub running : Bool
  pub still_running : Bool
  pub now : ℕ

-- The pass under the lock, then a wait, or the expired tasks go to the executor.
abbrev pub hand_over : Run → Pass → Run
hand_over r p =
    let (s, c) = dispatch r.executor r.caller p.expired in
    record { keeper = p.keeper; executor = s; caller = c }

-- `Run`, for the rounds of the list.
unfoldable pub run : List Round → Run → Run
run [] r = r
run (d ∷ rounds) r =
    let rest = run rounds (hand_over r (run_pass d.now r.keeper)) in
    if d.running && d.still_running then rest else r
