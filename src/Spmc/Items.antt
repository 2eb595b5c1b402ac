-- ===== src/Spmc/Items.antt =====
-- The nodes in a window of the deque's slots (spmc_queue.hpp) when a slot outside it is written.
use my_async_lib.Base.{
  ℕ, zero, suc, ◌+◌, ◌-◌, ◌<◌, ◌≤◌, ◌≡◌, ◌%◌, refl, sym, ap, ◌∙◌, ◌∷◌, count, unit_at, arith,
  mod_add_ne,
}
use my_async_lib.Spmc.Race.{items, write, num_to_take}

pub num_to_take_le : (b t : ℕ) → t < b → num_to_take b t ≤ b - t
num_to_take_le b t lt = ground arith

pub num_to_take_pos : (b t : ℕ) → 0 < num_to_take b t
num_to_take_pos b t = ground arith

module _ (max_size : ℕ) where
  pub count-items-+ :
      (buffer : ℕ → ℕ) (v t n m : ℕ)
      → count v (items max_size buffer t (n + m))
        ≡ count v (items max_size buffer t n) + count v (items max_size buffer (t + n) m)
  count-items-+ buffer v t zero m =
      let e : 0 + m ≡ m = omega arith in
      let f : t + 0 ≡ t = omega arith in rw e (rw f (omega arith))
  count-items-+ buffer v t (suc n) m =
      let rest = count-items-+ buffer v (suc t) n m in
      let e : suc n + m ≡ suc (n + m) = omega arith in
      let f : t + suc n ≡ suc t + n = omega arith in rw e (rw f (omega (arith, rest)))

  pub write-same : (buffer : ℕ → ℕ) (i node : ℕ) → write buffer i node i ≡ node
  write-same buffer i node = ground arith

  write-other : (buffer : ℕ → ℕ) (i node j : ℕ) → (i ≡ j → ⊥) → write buffer i node j ≡ buffer j
  write-other buffer i node j ne = ground (arith, ne)

  pub first-write :
      (buffer : ℕ → ℕ) (node t k : ℕ)
      → 0 < k
      → k < max_size
      → write buffer ((t + k) % max_size) node (t % max_size) ≡ buffer (t % max_size)
  first-write buffer node t k some_way small =
      write-other buffer ((t + k) % max_size) node (t % max_size)
        (λ e. mod_add_ne max_size t k some_way small (sym e))

  -- A write behind the window, less than the size of the buffer from its start.
  pub items-write :
      (buffer : ℕ → ℕ) (node t n k : ℕ)
      → n ≤ k
      → k < max_size
      → items max_size (write buffer ((t + k) % max_size) node) t n ≡ items max_size buffer t n
  items-write buffer node t zero k le small = refl
  items-write buffer node t (suc n) k le small =
      let rest =
        items-write buffer node (suc t) n (k - 1) (omega (arith, le)) (omega (arith, le, small)) in
      let e : t + k ≡ suc t + (k - 1) = omega (arith, le) in
      let same = ap (λ j. items max_size (write buffer (j % max_size) node) (suc t) n) e in
      let first = first-write buffer node t k (omega (arith, le)) small in
      rw first (ap (λ xs. buffer (t % max_size) ∷ xs) (same ∙ rest))

  -- The first item, and the last one, of a window that is not empty.
  pub items-first :
      (buffer : ℕ → ℕ) (v t l : ℕ)
      → t < l
      → count v (items max_size buffer t (l - t))
        ≡ unit_at v (buffer (t % max_size)) + count v (items max_size buffer (suc t) (l - suc t))
  items-first buffer v t l lt =
      let e : l - t ≡ suc (l - suc t) = omega (arith, lt) in
      ap (λ n. count v (items max_size buffer t n)) e

  pub items-last :
      (buffer : ℕ → ℕ) (v t b : ℕ)
      → t ≤ b
      → count v (items max_size buffer t (suc b - t))
        ≡ count v (items max_size buffer t (b - t)) + unit_at v (buffer (b % max_size))
  items-last buffer v t b le =
      let split = count-items-+ buffer v t (b - t) 1 in
      let e : suc b - t ≡ b - t + 1 = omega (arith, le) in
      let at : t + (b - t) ≡ b = omega (arith, le) in
      ap (λ n. count v (items max_size buffer t n)) e ∙ split ∙ rw at (omega arith)

  -- The first `n` items of a window that holds as many.
  pub items-front :
      (buffer : ℕ → ℕ) (v t n l : ℕ)
      → t + n ≤ l
      → count v (items max_size buffer t (l - t))
        ≡ count v (items max_size buffer t n)
          + count v (items max_size buffer (t + n) (l - (t + n)))
  items-front buffer v t n l le =
      ap (λ k. count v (items max_size buffer t k)) (omega (arith, le))
      ∙ count-items-+ buffer v t n (l - (t + n))
