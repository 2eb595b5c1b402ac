-- ===== src/Timer/Whole.antt =====
-- A run of the timer thread (timer_keeper.hpp) with the executor that it feeds.
use my_async_lib.Base.{
  ℕ, ◌<◌, ◌≡◌, refl, ◌∙◌, ◌&&◌, List, [], ◌∷◌, ◌++◌, arith, count, count-append, length, if_ind,
}
use my_async_lib.Base.Store.{write}
use my_async_lib.Executor.{Executor, Caller}
use my_async_lib.Executor.Held.{Keeps}
use my_async_lib.Executor.Size.{length-schedule}
use my_async_lib.Timer.{Keeper, Pass, run_pass}
use my_async_lib.Timer.Conserve.{pending, run_pass-count}
use my_async_lib.Timer.Handoff.{dispatch, dispatch-Keeps}
use my_async_lib.Timer.Thread.{Run, Round, hand_over, run}
use my_async_lib.Timer.Ticks.{IsWheel, process_ticks-IsWheel}

-- The hand may be put in another order.
Keeps-reorder :
    {s : Executor} {hand : List ℕ} {before : ℕ → ℕ} (hand' : List ℕ)
    → Keeps s hand before
    → ((a : ℕ) → count a hand' ≡ count a hand)
    → Keeps s hand' before
Keeps-reorder {s} {hand} hand' k same = record {
  vs = k.vs;
  gs = k.gs;
  holds = record {
    workers = k.holds.workers;
    global = k.holds.global;
    once = λ a. omega (arith, k.holds.once a, same a);
    nonnull = omega (arith, k.holds.nonnull, same 0);
  };
  balance = λ a. omega (arith, k.balance a, same a);
}

length-dispatch :
    (expired : List ℕ) (s : Executor) (c : Caller)
    → length (dispatch s c expired).0.workers ≡ length s.workers
unfolding dispatch
length-dispatch [] s c = refl
length-dispatch (t ∷ expired) s c =
    length-dispatch expired _ _ ∙ length-schedule (record s { next = write s.next t 0 }) c t

run_pass-IsWheel : (now : ℕ) (k : Keeper) → IsWheel k → IsWheel (run_pass now k).keeper
unfolding run_pass
run_pass-IsWheel now k w = process_ticks-IsWheel now _ _ w

-- Every task is in one place: the executor, a timer that is not canceled, or in hand.
pub record IsWhole (r : Run) (hand : List ℕ) (before : ℕ → ℕ) : Type 0 where
  pub wheel : IsWheel r.keeper
  pub some_worker : 0 < length r.executor.workers
  pub keeps : Keeps r.executor (pending r.keeper.buckets ++ hand) before

hand_over-IsWhole :
    (r : Run) {hand : List ℕ} {before : ℕ → ℕ} (now : ℕ)
    → IsWhole r hand before
    → IsWhole (hand_over r (run_pass now r.keeper)) hand before
hand_over-IsWhole r {hand} {before} now h = record {
  wheel = run_pass-IsWheel now r.keeper h.wheel;
  some_worker = omega (arith, length-dispatch p.expired r.executor r.caller, h.some_worker);
  keeps = dispatch-Keeps p.expired (pending p.keeper.buckets ++ hand) r.caller h.some_worker (
      Keeps-reorder _ h.keeps λ a. omega (
        arith,
        run_pass-count now a r.keeper h.wheel,
        count-append a p.expired (pending p.keeper.buckets ++ hand),
        count-append a (pending p.keeper.buckets) hand,
        count-append a (pending r.keeper.buckets) hand,
      ));
}
  where
    p : Pass
    p = run_pass now r.keeper

-- The thread of the timer together with the executor, for any rounds of `Run`: if every task is in
-- one place (held by the executor, pending in the wheel with an entry that is not canceled, or in
-- hand), then it is so after the rounds, with the same number of places for each task.
pub run-IsWhole :
    (rounds : List Round) (r : Run) {hand : List ℕ} {before : ℕ → ℕ}
    → IsWhole r hand before
    → IsWhole (run rounds r) hand before
unfolding run
run-IsWhole [] r h = h
run-IsWhole (d ∷ rounds) r {hand} {before} h =
    if_ind (λ q. IsWhole q hand before) (d.running && d.still_running)
      (λ _. run-IsWhole rounds _ (hand_over-IsWhole r d.now h)) (λ _. h)
