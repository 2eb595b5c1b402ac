-- ===== src/Spmc/Window.antt =====
-- What a deque holds, and the operations on a deque whose indices are natural numbers.
use my_async_lib.Base.{
  ℕ, zero, suc, ◌+◌, ◌-◌, ◌/◌, ◌%◌, ◌≤◌, ◌≡◌, refl, ◌∙◌, ap, ap₂, Bool, true, false, List, [], ◌∷◌,
  arith, ltb, ◌==◌, if◌then◌else◌, pos, get_or, set, length, take, drop,
}
use native.Mathlib.Nat.{add-zero, sub-zero}
use my_async_lib.Spmc.{Spmc, push, try_pop, steal, take_half, copy_from, size}

-- `n` items from index `t` on.
abbrev pub deque : List ℕ → ℕ → ℕ → Spmc
deque buf t n = record { buffer = buf; bottom = pos (t + n); top = pos t }

-- Half of a positive number of items, and at least one.
abbrev pub half_of : ℕ → ℕ
half_of n = if n / 2 == 0 then 1 else n / 2

pub half_of-le : (n : ℕ) → half_of (suc n) ≤ suc n
half_of-le n = ground arith

module _ (max_size : ℕ) where
  -- the `n` items from index `t` on
  abbrev pub window : List ℕ → ℕ → ℕ → List ℕ
  window buf t zero = []
  window buf t (suc n) = get_or buf (t % max_size) 0 ∷ window buf (suc t) n

  pub length-window : (buf : List ℕ) (t n : ℕ) → length (window buf t n) ≡ n
  length-window buf t zero = refl
  length-window buf t (suc n) = ap suc (length-window buf (suc t) n)

  pub take-window : (buf : List ℕ) (t k n : ℕ) → k ≤ n → take k (window buf t n) ≡ window buf t k
  take-window buf t zero n h = refl
  take-window buf t (suc k) zero h = absurd (omega arith)
  take-window buf t (suc k) (suc n) h =
      ap (λ w. get_or buf (t % max_size) 0 ∷ w) (take-window buf (suc t) k n (omega arith))

  pub drop-window :
      (buf : List ℕ) (t k n : ℕ) → k ≤ n → drop k (window buf t n) ≡ window buf (t + k) (n - k)
  drop-window buf t zero n h = rw (add-zero, sub-zero)
  drop-window buf t (suc k) zero h = absurd (omega arith)
  drop-window buf t (suc k) (suc n) h =
      let e : suc t + k ≡ t + suc k = omega arith in
      let f : n - k ≡ suc n - suc k = omega arith in
      drop-window buf (suc t) k n (omega arith) ∙ ap₂ (window buf) e f

  pub push-deque :
      (buf : List ℕ) (t n x : ℕ)
      → push max_size (deque buf t n) x ≡ (
          if ltb n max_size
          then (deque (set buf ((t + n) % max_size) x) t (suc n), true)
          else (deque buf t n, false))
  unfolding push
  push-deque buf t n x = ground arith

  pub steal-deque_zero :
      (spurious : Bool) (buf : List ℕ) (t : ℕ)
      → steal max_size spurious (deque buf t 0) ≡ (deque buf t 0, 0)
  unfolding steal
  steal-deque_zero spurious buf t = ground arith

  pub try_pop-deque_zero :
      (buf : List ℕ) (t : ℕ) → try_pop max_size (deque buf t 0) ≡ (deque buf t 0, 0)
  unfolding try_pop
  try_pop-deque_zero buf t = ground arith

  pub try_pop-deque-suc :
      (buf : List ℕ) (t n : ℕ)
      → try_pop max_size (deque buf t (suc n))
        ≡ (if n == 0 then deque buf (suc t) 0 else deque buf t n, get_or buf ((t + n) % max_size) 0)
  unfolding try_pop
  try_pop-deque-suc buf t n = ground arith

  pub copy_from-window :
      (buf : List ℕ) (t n : ℕ) → copy_from max_size buf (pos t) n ≡ window buf t n
  unfolding copy_from
  copy_from-window buf t zero = refl
  copy_from-window buf t (suc n) = ground (arith, copy_from-window buf (suc t) n)

  pub take_half-deque_zero :
      (buf : List ℕ) (t : ℕ) → take_half max_size (deque buf t 0) ≡ (deque buf t 0, [])
  unfolding take_half
  take_half-deque_zero buf t = ground arith

  pub take_half-deque-suc :
      (buf : List ℕ) (t n : ℕ)
      → take_half max_size (deque buf t (suc n))
        ≡ (let k = half_of (suc n) in (deque buf (t + k) (suc n - k), window buf t k))
  unfolding take_half
  take_half-deque-suc buf t n = ground (arith, copy_from-window buf t (half_of (suc n)))

  pub steal-deque :
      (spurious : Bool) (buf : List ℕ) (t n : ℕ)
      → steal max_size spurious (deque buf t (suc n)) ≡ (
          if spurious
          then (deque buf t (suc n), 0)
          else (deque buf (suc t) n, get_or buf (t % max_size) 0))
  unfolding steal
  steal-deque spurious buf t n = ground arith

pub size-deque : (buf : List ℕ) (t n : ℕ) → size (deque buf t n) ≡ n
unfolding size
size-deque buf t n = ground arith
