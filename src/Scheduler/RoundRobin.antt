-- ===== src/Scheduler/RoundRobin.antt =====
-- `GetNextIOContext` (scheduler.hpp) called repeatedly.
use my_async_lib.Base.{
  ℕ, zero, suc, ◌+◌, ◌%◌, ◌^◌, ◌<◌, ◌≡◌, ◌≢◌, refl, sym, ap, ◌∙◌, arith, mod_add_ne,
}
use my_async_lib.Scheduler.{Scheduler, get_next_io_context}

-- The scheduler after a number of calls.
abbrev pub calls : ℕ → Scheduler → Scheduler
calls zero s = s
calls (suc k) s = calls k (get_next_io_context s).0

calls-idx :
    (k : ℕ) (s : Scheduler)
    → s.next_io_idx + k < 2 ^ 64
    → (calls k s).next_io_idx ≡ s.next_io_idx + k
unfolding get_next_io_context
calls-idx zero s room = omega arith
calls-idx (suc k) s room =
    let e : (s.next_io_idx + 1) % 2 ^ 64 ≡ s.next_io_idx + 1 = omega arith in
    omega (arith, e, calls-idx k (get_next_io_context s).0 (omega (arith, e)))

calls-n : (k : ℕ) (s : Scheduler) → (calls k s).n_io_threads ≡ s.n_io_threads
unfolding get_next_io_context
calls-n zero s = refl
calls-n (suc k) s = calls-n k (get_next_io_context s).0

-- Two calls of `GetNextIOContext` that are fewer calls apart than there are IO contexts give
-- different contexts that exist, if the counter does not wrap round in between.
pub get_next_io_context-distinct :
    (s : Scheduler) (k : ℕ)
    → 0 < k
    → k < s.n_io_threads
    → s.next_io_idx + k < 2 ^ 64
    → ((get_next_io_context s).1 < s.n_io_threads)
      × ((get_next_io_context (calls k s)).1 ≢ (get_next_io_context s).1)
unfolding get_next_io_context
get_next_io_context-distinct s k some few room = (
  omega arith,
  λ e. mod_add_ne s.n_io_threads s.next_io_idx k some few (
      sym e
      ∙ ap (λ n. (calls k s).next_io_idx % n) (calls-n k s)
      ∙ ap (λ i. i % s.n_io_threads) (calls-idx k s room)),
)
