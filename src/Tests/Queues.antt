-- ===== src/Tests/Queues.antt =====
-- Queues with a few items.
use my_async_lib.Base.{ℕ, ◌≡◌, refl, true, false, List, [], ◌∷◌, arith, ◌==◌, if◌then◌else◌, pos}
use my_async_lib.Base.Store.{Store}
use my_async_lib.Mpmc.{Queue, pop, push_batch}
use my_async_lib.Mpmc.Fifo.{IsQueue, Outcome, Popped, push_batch-append, pop-Popped}
use my_async_lib.Spmc
use my_async_lib.Constants.{default_spmc_capacity}
use my_async_lib.Spmc.{Spmc, is_power_of_2}
use my_async_lib.Spmc.Refine.{IsDeque, try_pop-append, steal-cons, take_half-take}

-- A queue with 7 and 8, and a batch of 5 and 6 outside it.
abbrev links : Store
links a = if a == 7 then 8 else (if a == 5 then 6 else 0)

abbrev queue : Queue
queue = record { head = 7; tail = 8 }

abbrev items : List ℕ
items = 7 ∷ 8 ∷ []

queue-IsQueue : IsQueue links queue (7 ∷ 8 ∷ [])
queue-IsQueue = record {
  chain = (refl, ground arith, (refl, ground arith, refl));
  tail = refl;
  distinct = λ a. ground arith;
}

push_batch-append_example :
    Outcome links (7 ∷ 8 ∷ 5 ∷ 6 ∷ []) (push_batch links queue 5 6) (7 ∷ 8 ∷ 5 ∷ 6 ∷ [])
push_batch-append_example =
    push_batch-append queue-IsQueue 0 5 5 (6 ∷ []) (refl, ground arith, (refl, ground arith, refl))
      (λ a. ground arith)

pop-Popped_example : Popped links (7 ∷ 8 ∷ []) (pop links queue)
pop-Popped_example = pop-Popped links queue (7 ∷ 8 ∷ []) queue-IsQueue

-- A deque of 4 slots whose window wraps round: 6 in slot 3, 7 in slot 0, 8 in slot 1.
abbrev wrapped : Spmc
wrapped = record { buffer = 7 ∷ 8 ∷ 0 ∷ 6 ∷ []; bottom = pos 6; top = pos 3 }

wrapped-IsDeque : IsDeque 4 wrapped (6 ∷ 7 ∷ 8 ∷ [])
wrapped-IsDeque = record {
  buf = 7 ∷ 8 ∷ 0 ∷ 6 ∷ [];
  at = 3;
  shape = refl;
  storage = refl;
  fits = omega arith;
  holds = refl;
}

abbrev full : Spmc
full = record { buffer = 7 ∷ 8 ∷ 9 ∷ 6 ∷ []; bottom = pos 7; top = pos 3 }

full-IsDeque : IsDeque 4 full (6 ∷ 7 ∷ 8 ∷ 9 ∷ [])
full-IsDeque = record {
  buf = 7 ∷ 8 ∷ 9 ∷ 6 ∷ [];
  at = 3;
  shape = refl;
  storage = refl;
  fits = omega arith;
  holds = refl;
}

try_pop-append_example :
    ((Spmc.try_pop 4 wrapped).1 ≡ 8) × IsDeque 4 (Spmc.try_pop 4 wrapped).0 (6 ∷ 7 ∷ [])
try_pop-append_example = try_pop-append 4 (6 ∷ 7 ∷ []) 8 wrapped-IsDeque

steal-cons_example :
    ((Spmc.steal 4 false wrapped).1 ≡ 6)
    × IsDeque 4 (Spmc.steal 4 false wrapped).0 (7 ∷ 8 ∷ [])
    × (Spmc.steal 4 true wrapped ≡ (wrapped, 0))
steal-cons_example = steal-cons 4 6 (7 ∷ 8 ∷ []) wrapped-IsDeque

take_half-take_example :
    ((Spmc.take_half 4 full).1 ≡ 6 ∷ 7 ∷ []) × IsDeque 4 (Spmc.take_half 4 full).0 (8 ∷ 9 ∷ [])
take_half-take_example = take_half-take 4 (6 ∷ 7 ∷ 8 ∷ 9 ∷ []) full-IsDeque

-- The capacity passes the compiler's test.
capacity_passes : is_power_of_2 default_spmc_capacity ≡ true
capacity_passes = refl
