-- ===== src/Timer/Conserve.antt =====
-- The tasks that wait in the wheel (timer_keeper.hpp), and what a pass of `Run` makes of them.
use my_async_lib.Base.{
  ℕ, zero, suc, ◌+◌, ◌%◌, ◌<◌, ◌≡◌, refl, ◌∙◌, not, ◌&&◌, List, [], ◌∷◌, ◌++◌, arith, ◌==◌,
  if◌then◌else◌, count, count-append, get_or, set, length,
}
use my_async_lib.Timer.{
  Entry, Keeper, Walk, Pass, bucket, wheel_slots, visit, sweep, process_tick, process_ticks,
  run_pass,
}
use my_async_lib.Timer.Ticks.{IsWheel, process_tick-IsWheel}

-- The tasks of a bucket that are not canceled.
abbrev pub tasks : List Entry → List ℕ
tasks [] = []
tasks (e ∷ es) =
    let rest = tasks es in
    if not e.canceled && not (e.task_node == 0) then e.task_node ∷ rest else rest

abbrev pub pending : List (List Entry) → List ℕ
pending [] = []
pending (es ∷ bs) = tasks es ++ pending bs

module _ (now a : ℕ) where
  visit-count :
      (w : Walk) (e : Entry)
      → count a (visit now w e).expired + count a (tasks (visit now w e).remaining)
        ≡ count a w.expired + count a (tasks w.remaining) + count a (tasks (e ∷ []))
  unfolding visit
  visit-count w e = ground arith

  tasks-cons :
      (e : Entry) (es : List Entry)
      → count a (tasks (e ∷ es)) ≡ count a (tasks (e ∷ [])) + count a (tasks es)
  tasks-cons e es = ground arith

  sweep-count :
      (w : Walk) (es : List Entry)
      → count a (sweep now w es).expired + count a (tasks (sweep now w es).remaining)
        ≡ count a w.expired + count a (tasks w.remaining) + count a (tasks es)
  unfolding sweep
  sweep-count w [] = omega arith
  sweep-count w (e ∷ es) =
      omega (arith, visit-count w e, tasks-cons e es, sweep-count (visit now w e) es)

  pending-set :
      (bs : List (List Entry)) (i : ℕ) (es : List Entry)
      → i < length bs
      → count a (pending (set bs i es)) + count a (tasks (get_or bs i []))
        ≡ count a (pending bs) + count a (tasks es)
  pending-set [] i es h = absurd (omega arith)
  pending-set (b ∷ bs) zero es h =
      omega (arith, count-append a (tasks b) (pending bs), count-append a (tasks es) (pending bs))
  pending-set (b ∷ bs) (suc i) es h = omega (
    arith,
    pending-set bs i es (omega arith),
    count-append a (tasks b) (pending bs),
    count-append a (tasks b) (pending (set bs i es)),
  )

  process_tick-count :
      (p : Pass)
      → IsWheel p.keeper
      → count a (process_tick now p).expired + count a (pending (process_tick now p).keeper.buckets)
        ≡ count a p.expired + count a (pending p.keeper.buckets)
  unfolding process_tick
  process_tick-count p w = omega (
    arith,
    w,
    sweep-count start (bucket p.keeper slot),
    pending-set p.keeper.buckets slot (sweep now start (bucket p.keeper slot)).remaining
        (omega (arith, w)),
  )
    where
      slot : ℕ
      slot = p.keeper.last_tick % wheel_slots

      start : Walk
      start = record {
        task_map = p.keeper.task_map;
        expired = p.expired;
        remaining = [];
        deleted = p.deleted;
      }

  process_ticks-count :
      (rounds : ℕ) (p : Pass)
      → IsWheel p.keeper
      → count a (process_ticks rounds now p).expired
          + count a (pending (process_ticks rounds now p).keeper.buckets)
        ≡ count a p.expired + count a (pending p.keeper.buckets)
  unfolding process_ticks
  process_ticks-count zero p w = refl
  process_ticks-count (suc rounds) p w =
      process_ticks-count rounds (process_tick now p) (process_tick-IsWheel now p w)
      ∙ process_tick-count p w

  -- A pass of `Run` on a wheel: each task that is pending in an entry that is not canceled is
  -- afterwards handed over or still pending, as often as before.
  pub run_pass-count :
      (k : Keeper)
      → IsWheel k
      → count a (run_pass now k).expired + count a (pending (run_pass now k).keeper.buckets)
        ≡ count a (pending k.buckets)
  unfolding run_pass
  run_pass-count k w = process_ticks-count _ _ w ∙ omega arith
