-- ===== src/Executor/Choice.antt =====
-- Power of two choices: which two workers are compared, and which one gets the task.
use my_async_lib.Base.{
  ℕ, ◌+◌, ◌-◌, ◌%◌, ◌≤◌, ◌<◌, ◌≡◌, ◌≢◌, arith, ap, ◌∙◌, mod_add_ne, leb, length, if_ind,
}
use native.Mathlib.Nat.{mod-eq_of_lt}
use my_async_lib.Executor.{Executor, worker, approximate_load, choices, target}

-- With at least two workers the two candidates are indices of two different workers, for any two
-- random numbers.
pub choices_distinct :
    (n r r' : ℕ)
    → 1 < n
    → ((choices n r r').0 < n)
      × ((choices n r r').1 < n)
      × ((choices n r r').0 ≢ (choices n r r').1)
unfolding choices
choices_distinct n r r' h = (
  omega arith,
  omega arith,
  λ e.
      mod_add_ne n (r % n) (1 + r' % (n - 1)) (omega arith) (omega arith)
        (mod-eq_of_lt (omega arith) ∙ e ∙ ap (λ k. k % n) (regroup (r % n) (r' % (n - 1)))),
)
  where
    regroup : (a b : ℕ) → a + 1 + b ≡ a + (1 + b)
    regroup a b = omega arith

-- With at least two workers the worker chosen by power of two choices exists, and its approximate
-- load is at most that of either candidate.
pub target_least :
    (s : Executor) (r r' : ℕ)
    → 1 < length s.workers
    → let (w1, w2) = choices (length s.workers) r r' in
      (target s r r' < length s.workers)
      × (approximate_load (worker s (target s r r')) ≤ approximate_load (worker s w1))
      × (approximate_load (worker s (target s r r')) ≤ approximate_load (worker s w2))
unfolding target
target_least s r r' h =
    let (w1, w2) = choices (length s.workers) r r' in
    let in_range = choices_distinct (length s.workers) r r' h in
    if_ind
      (λ k.
        (k < length s.workers)
        × (approximate_load (worker s k) ≤ approximate_load (worker s w1))
        × (approximate_load (worker s k) ≤ approximate_load (worker s w2)))
      (leb (approximate_load (worker s w1)) (approximate_load (worker s w2)))
      (λ e. (in_range.0, ground arith, ground arith))
      (λ e. (in_range.1, ground arith, ground arith))
