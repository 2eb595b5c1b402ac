-- ===== src/Spmc/Double.antt =====
-- `TakeHalf` of spmc_queue.hpp, called by a thief while the owner pops.
use my_async_lib.Base.{ℕ, suc, ◌+◌, ◌%◌, ◌≡◌, refl, ap, List, count, unit_at, arith}
use my_async_lib.Spmc.Race.{
  State, num_to_take, ReachHalf, start, one, half, at_rest, pop_store, pop_many, half_load,
  half_top, half_wins, half_copy, half_returns, items, half_copying,
}

half_of_four : (lo : ℕ) → num_to_take (suc (suc (suc (suc lo)))) lo ≡ 2
half_of_four lo = ground arith

module _ (max_size : ℕ) where
  -- After accesses that push nothing, more nodes were handed out than there were: `node` once more.
  abbrev pub Twice : List ℕ → ℕ → State → State → Type 0
  Twice initial node s t =
      ReachHalf max_size s t
      × (t.pushed ≡ s.pushed)
      × ((v : ℕ) → count v t.taken ≡ count v initial + unit_at v node)

  -- With `TakeHalf` called by a thief, on any deque of four items, there is an interleaving with
  -- the owner's `TryPop` after which, without a push, all four nodes were handed out and the second
  -- one once more.
  pub half-Twice :
      (buffer : ℕ → ℕ) (lo : ℕ)
      → (s : State) × Twice
          (items max_size buffer lo 4)
          (buffer (suc lo % max_size))
          (at_rest buffer lo (suc (suc (suc (suc lo)))))
          s
  half-Twice buffer lo =
      let b = suc (suc (suc lo)) in
      let seen =
        half (half start (half_load (at_rest buffer lo (suc b)) 0 refl))
          (half_top _ 0 (suc b) refl (omega arith)) in
      let first = one (one seen (pop_store _ b refl refl)) (pop_many _ b refl (omega arith)) in
      let second =
        one (one first (pop_store _ (suc (suc lo)) refl refl))
          (pop_many _ (suc (suc lo)) refl (omega arith)) in
      let third =
        one (one second (pop_store _ (suc lo) refl refl))
          (pop_many _ (suc lo) refl (omega arith)) in
      let won = half third (half_wins _ 0 (suc b) lo refl refl) in
      let copied =
        half (half won (half_copy _ 0 lo 1 (ap (half_copying lo) (half_of_four lo))))
          (half_copy _ 0 (suc lo) 0 refl) in
      (_, (half copied (half_returns _ 0 (suc (suc lo)) refl), refl, λ v. omega arith))
