-- ===== src/Timer/Map.antt =====
-- `task_map_` of timer_keeper.hpp, which holds pointers to entries of the wheel: the ids in it and the
-- entries that are alive.
use my_async_lib.Base.{
  ℕ, zero, suc, ◌%◌, ◌≤◌, ◌<◌, ◌≡◌, refl, ◌∙◌, true, false, List, [], ◌∷◌, arith, ◌==◌, count,
  length, length-set, ℤ, ◌-◌, Bool, if_ind, length-replicate, replicate,
}
use my_async_lib.Timer.{
  Entry, Keeper, Walk, Pass, bucket, wheel_slots, new_keeper, tick_of, expiry, add_internal,
  add_timer, add_callback, has, erase, cancel_all, cancel_timer, sweep, process_tick, process_ticks,
  run_pass,
}
use my_async_lib.Timer.Cancel.{length-cancel_all}
use my_async_lib.Timer.Ticks.{IsWheel, process_tick-IsWheel}
use my_async_lib.Timer.Ids.{
  ids, all_ids, count-erase, count-cancel_all, all_ids-set, Mapped, sweep-Mapped,
}

-- The map holds exactly the ids of the entries in the wheel that are not canceled, each once; all
-- were given out, and 0 was not.
pub record IsMapped (k : Keeper) : Type 0 where
  pub wheel : IsWheel k
  pub exact : (j : ℕ) → count j k.task_map ≡ count j (all_ids k.buckets)
  pub once : (j : ℕ) → count j k.task_map ≤ 1
  pub given : (j : ℕ) → k.next_id ≤ j → count j k.task_map ≡ 0
  pub zero_free : (count 0 k.task_map ≡ 0) × (0 < k.next_id)

process_tick-IsMapped :
    (now : ℕ) (p : Pass) → IsMapped p.keeper → IsMapped (process_tick now p).keeper
unfolding process_tick
process_tick-IsMapped now p h =
    let k = p.keeper in
    let slot = k.last_tick % wheel_slots in
    let inside : slot < length k.buckets = omega (arith, h.wheel) in
    let start : Walk = record {
      task_map = k.task_map;
      expired = p.expired;
      remaining = [];
      deleted = p.deleted;
    } in
    let others : ℕ → ℕ = λ j. count j (all_ids k.buckets) - count j (ids (bucket k slot)) in
    let split = λ (j : ℕ). all_ids-set j k.buckets slot [] inside in
    let swept : Mapped others (λ j. count j k.task_map) (sweep now start (bucket k slot)) [] =
      sweep-Mapped now others (λ j. count j k.task_map) h.once start (bucket k slot)
        (λ j. (omega (arith, h.exact j, split j), omega arith)) in
    let left = (sweep now start (bucket k slot)).remaining in
    record {
      wheel = process_tick-IsWheel now p h.wheel;
      exact = λ j.
          omega (arith, (swept j).0, split j, all_ids-set j k.buckets slot left inside, h.exact j);
      once = λ j. omega (arith, (swept j).1, h.once j);
      given = λ j le. omega (arith, (swept j).1, h.given j le);
      zero_free = (omega (arith, (swept 0).1, h.zero_free.0), h.zero_free.1);
    }

process_ticks-IsMapped :
    (rounds now : ℕ) (p : Pass) → IsMapped p.keeper → IsMapped (process_ticks rounds now p).keeper
unfolding process_ticks
process_ticks-IsMapped zero now p h = h
process_ticks-IsMapped (suc rounds) now p h =
    process_ticks-IsMapped rounds now (process_tick now p) (process_tick-IsMapped now p h)

run_pass-IsMapped : (now : ℕ) (k : Keeper) → IsMapped k → IsMapped (run_pass now k).keeper
unfolding run_pass
run_pass-IsMapped now k h = process_ticks-IsMapped _ now _ h

add_internal-IsMapped :
    (k : Keeper) (now : ℕ) (delay : ℤ) (task_node : ℕ) (owns : Bool)
    → IsMapped k
    → IsMapped (add_internal k now delay task_node owns).0
unfolding add_internal
add_internal-IsMapped k now delay task_node owns h =
    let slot = tick_of (expiry now delay) % wheel_slots in
    let inside : slot < length k.buckets = omega (arith, h.wheel) in
    let entry : Entry = record {
      id = k.next_id;
      expire_at = expiry now delay;
      task_node = task_node;
      owns_task_node = owns;
      canceled = false;
    } in
    record {
      wheel = length-set k.buckets slot (entry ∷ bucket k slot) ∙ h.wheel;
      exact = λ j.
          omega (arith, all_ids-set j k.buckets slot (entry ∷ bucket k slot) inside, h.exact j);
      once = λ j. ground (arith, h.once j, h.given k.next_id);
      given = λ j le. ground (arith, h.given j, le);
      zero_free = (ground (arith, h.zero_free), omega arith);
    }

cancel_timer-IsMapped : (k : Keeper) (id : ℕ) → IsMapped k → IsMapped (cancel_timer k id)
unfolding cancel_timer
cancel_timer-IsMapped k id h =
    if_ind IsMapped (id == 0) (λ _. h)
      (λ _. if_ind IsMapped (has id k.task_map) (λ _. canceled) (λ _. h))
  where
    canceled :
        IsMapped (record k { buckets = cancel_all id k.buckets; task_map = erase id k.task_map })
    canceled = record {
      wheel = length-cancel_all id k.buckets ∙ h.wheel;
      exact = λ j.
          ground (arith, h.exact j, count-erase j id k.task_map, count-cancel_all j id k.buckets);
      once = λ j. ground (arith, h.once j, count-erase j id k.task_map);
      given = λ j le. ground (arith, h.given j, le, count-erase j id k.task_map);
      zero_free = (ground (arith, h.zero_free, count-erase 0 id k.task_map), h.zero_free.1);
    }

new_keeper-IsMapped : IsMapped new_keeper
unfolding new_keeper
new_keeper-IsMapped = record {
  wheel = length-replicate {A = List Entry} wheel_slots [];
  exact = λ j. no_ids j wheel_slots;
  once = λ j. omega arith;
  given = λ j le. refl;
  zero_free = (refl, omega arith);
}
  where
    no_ids : (j n : ℕ) → 0 ≡ count j (all_ids (replicate n []))
    no_ids j zero = refl
    no_ids j (suc n) = no_ids j n

-- A call of the interface, or a pass of `Run`, with the time of the clock.
pub data Op : Type 0 where
  add_task : ℕ → ℤ → ℕ → Op
  add_call : ℕ → ℤ → ℕ → Op
  cancel : ℕ → Op
  pass : ℕ → Op

abbrev pub perform : Op → Keeper → Keeper
perform (add_task now delay task_node) k = (add_timer k now delay task_node).0
perform (add_call now delay fresh) k = (add_callback k now delay fresh).0
perform (cancel id) k = cancel_timer k id
perform (pass now) k = (run_pass now k).keeper

abbrev pub perform_all : List Op → Keeper → Keeper
perform_all [] k = k
perform_all (op ∷ ops) k = perform_all ops (perform op k)

perform-IsMapped : (op : Op) (k : Keeper) → IsMapped k → IsMapped (perform op k)
unfolding add_timer add_callback
perform-IsMapped (add_task now delay task_node) k h =
    if_ind (λ (r : Keeper × ℕ). IsMapped (r.0)) (task_node == 0) (λ _. h)
      (λ _. add_internal-IsMapped k now delay task_node false h)
perform-IsMapped (add_call now delay fresh) k h = add_internal-IsMapped k now delay fresh true h
perform-IsMapped (cancel id) k h = cancel_timer-IsMapped k id h
perform-IsMapped (pass now) k h = run_pass-IsMapped now k h

perform_all-kept : (ops : List Op) (k : Keeper) → IsMapped k → IsMapped (perform_all ops k)
perform_all-kept [] k h = h
perform_all-kept (op ∷ ops) k h = perform_all-kept ops (perform op k) (perform-IsMapped op k h)

-- A keeper that is made and then gets any calls of `AddTimer` (both forms) and `CancelTimer` and
-- any passes of `Run`, in any order and at any times: the map holds exactly the ids of the entries
-- in the wheel that are not canceled, each once, so it points to no entry that was deleted; every
-- id in it was given out before, and none is 0.
pub perform_all-IsMapped : (ops : List Op) → IsMapped (perform_all ops new_keeper)
perform_all-IsMapped ops = perform_all-kept ops new_keeper new_keeper-IsMapped
