-- ===== src/Timer.antt =====
-- include/ant_server/scheduler/timer_keeper.hpp: the timing wheel. Times are nanoseconds since
-- `start_time_`; a time before it is taken as 0, which no test of the code tells apart. A bucket is
-- the list of its entries, and the entry that `task_map_` points to is the one with that id in the
-- buckets. Each operation holds the mutex, so it is one step.
pub mod Sweep
pub mod Late
pub mod Ticks
pub mod Dispatch
pub mod Cancel
pub mod Ids
pub mod Map
pub mod Handoff
pub mod Thread
pub mod Conserve
pub mod Whole
use my_async_lib.Base.{
  ℕ, zero, suc, ◌+◌, ◌-◌, ◌*◌, ◌/◌, ◌%◌, Bool, true, false, not, ◌&&◌, List, [], ◌∷◌, ◌==◌, ltb,
  leb, if◌then◌else◌, get_or, set, replicate, ℤ, pos_part, neg_part,
}
use my_async_lib.Constants.{default_timing_wheel_slots, default_timing_wheel_tick_ms}

abbrev pub wheel_slots : ℕ
wheel_slots = default_timing_wheel_slots

abbrev pub ns_per_ms : ℕ
ns_per_ms = 1000000

-- `TimerEntry`; `next` is the order of the bucket.
pub record Entry : Type 0 where
  pub id : ℕ
  pub expire_at : ℕ
  pub task_node : ℕ
  pub owns_task_node : Bool
  pub canceled : Bool

-- `TimerKeeper`; `task_map` lists the ids that the map holds.
pub record Keeper : Type 0 where
  pub buckets : List (List Entry)
  pub task_map : List ℕ
  pub next_id : ℕ
  pub last_tick : ℕ

unfoldable pub new_keeper : Keeper
new_keeper = record {
  buckets = replicate wheel_slots [];
  task_map = [];
  next_id = 1;
  last_tick = 0;
}

abbrev pub bucket : Keeper → ℕ → List Entry
bucket k slot = get_or k.buckets slot []

-- `elapsed_ms > 0 ? elapsed_ms / kTickMs : 0`
unfoldable pub tick_of : ℕ → ℕ
tick_of time =
    let elapsed_ms = time / ns_per_ms in
    if ltb 0 elapsed_ms then elapsed_ms / default_timing_wheel_tick_ms else 0

-- `now() + delay`, the delay in milliseconds
unfoldable pub expiry : ℕ → ℤ → ℕ
expiry now delay = now + pos_part delay * ns_per_ms - neg_part delay * ns_per_ms

unfoldable pub add_internal : Keeper → ℕ → ℤ → ℕ → Bool → Keeper × ℕ
add_internal k now delay task_node owns =
    let expire_at = expiry now delay in
    let slot = tick_of expire_at % wheel_slots in
    let entry : Entry = record {
      id = k.next_id;
      expire_at = expire_at;
      task_node = task_node;
      owns_task_node = owns;
      canceled = false;
    } in
    (
      record k {
        buckets = set k.buckets slot (entry ∷ bucket k slot);
        task_map = k.next_id ∷ k.task_map;
        next_id = k.next_id + 1;
      },
      k.next_id,
    )

-- `AddTimer` of a task node
unfoldable pub add_timer : Keeper → ℕ → ℤ → ℕ → Keeper × ℕ
add_timer k now delay task_node =
    if task_node == 0 then (k, 0) else add_internal k now delay task_node false

-- `AddTimer` of a callback; `fresh` is the task that `new` returns.
unfoldable pub add_callback : Keeper → ℕ → ℤ → ℕ → Keeper × ℕ
add_callback k now delay fresh = add_internal k now delay fresh true

abbrev pub has : ℕ → List ℕ → Bool
has id [] = false
has id (x ∷ xs) = let rest = has id xs in if id == x then true else rest

abbrev pub erase : ℕ → List ℕ → List ℕ
erase id [] = []
erase id (x ∷ xs) = let rest = erase id xs in if id == x then rest else x ∷ rest

abbrev pub cancel_entry : ℕ → Entry → Entry
cancel_entry id e = if e.id == id then record e { canceled = true } else e

abbrev pub cancel_in : ℕ → List Entry → List Entry
cancel_in id [] = []
cancel_in id (e ∷ es) = cancel_entry id e ∷ cancel_in id es

abbrev pub cancel_all : ℕ → List (List Entry) → List (List Entry)
cancel_all id [] = []
cancel_all id (es ∷ bs) = cancel_in id es ∷ cancel_all id bs

unfoldable pub cancel_timer : Keeper → ℕ → Keeper
cancel_timer k id =
    if id == 0
    then k
    else (if has id k.task_map
        then record k { buckets = cancel_all id k.buckets; task_map = erase id k.task_map }
        else k)

-- What a walk over buckets has done: the map, the expired tasks (last one first), the entries that
-- stay in the bucket at hand, and the owned tasks that were deleted.
pub record Walk : Type 0 where
  pub task_map : List ℕ
  pub expired : List ℕ
  pub remaining : List Entry
  pub deleted : List ℕ

unfoldable pub visit : ℕ → Walk → Entry → Walk
visit now w e =
    if e.canceled
    then (if e.owns_task_node && not (e.task_node == 0)
        then record w { deleted = e.task_node ∷ w.deleted }
        else w)
    else (if leb e.expire_at now
        then record w {
          task_map = erase e.id w.task_map;
          expired = if e.task_node == 0 then w.expired else e.task_node ∷ w.expired;
        }
        else record w { remaining = e ∷ w.remaining })

-- `while (curr) { ... }`
unfoldable pub sweep : ℕ → Walk → List Entry → Walk
sweep now w [] = w
sweep now w (e ∷ es) = sweep now (visit now w e) es

-- The keeper, the expired tasks and the deleted ones, in the course of a pass.
pub record Pass : Type 0 where
  pub keeper : Keeper
  pub expired : List ℕ
  pub deleted : List ℕ

-- One round of `while (last_tick_ <= current_tick)`.
unfoldable pub process_tick : ℕ → Pass → Pass
process_tick now p =
    let k = p.keeper in
    let slot = k.last_tick % wheel_slots in
    let w =
      sweep now
        (record { task_map = k.task_map; expired = p.expired; remaining = []; deleted = p.deleted })
        (bucket k slot) in
    record {
      keeper = record k {
        buckets = set k.buckets slot w.remaining;
        task_map = w.task_map;
        last_tick = k.last_tick + 1;
      };
      expired = w.expired;
      deleted = w.deleted;
    }

-- The rounds that are left; each one adds 1 to `last_tick_`.
unfoldable pub process_ticks : ℕ → ℕ → Pass → Pass
process_ticks zero now p = p
process_ticks (suc rounds) now p = process_ticks rounds now (process_tick now p)

-- What `Run` does under the lock at time `now`.
unfoldable pub run_pass : ℕ → Keeper → Pass
run_pass now k =
    process_ticks (tick_of now + 1 - k.last_tick) now
      (record { keeper = k; expired = []; deleted = [] })
