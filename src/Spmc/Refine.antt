-- ===== src/Spmc/Refine.antt =====
-- The deque of spmc_queue.hpp and the bounded list that it stands for, oldest item first.
use my_async_lib.Base.{
  ℕ, zero, suc, ◌+◌, ◌-◌, ◌%◌, ◌≤◌, ◌<◌, ◌≡◌, ◌≢◌, refl, sym, ap, subst, ◌∙◌, Bool, true, false,
  List, [], ◌∷◌, ◌++◌, arith, ltb_of_lt, ltb_of_le, ◌==◌, if◌then◌else◌, get_or, set, length,
  get_or-set_self, get_or-set_ne, take, drop, length-set, mod_add_ne, length-append_one,
  append_one_injective, length-eq-zero, Bool-cases, inl, inr, eq_of_==, length-replicate, replicate,
}
use native.Mathlib.Nat.{zero-add, add-zero, suc-add, add-suc}
use my_async_lib.Spmc.{Spmc, new, push, try_pop, steal, take_half, size}
use my_async_lib.Spmc.Window.{
  deque, window, push-deque, try_pop-deque_zero, try_pop-deque-suc, steal-deque, steal-deque_zero,
  take-window, drop-window, half_of-le, take_half-deque_zero, take_half-deque-suc, half_of,
  length-window, size-deque,
}

-- How many of its items `TakeHalf` takes.
abbrev pub half_count : List ℕ → ℕ
half_count [] = 0
half_count (x ∷ xs) = half_of (length (x ∷ xs))

module _ (max_size : ℕ) where
  -- The deque holds `xs`, oldest first, in a buffer of `max_size` slots.
  pub record IsDeque (q : Spmc) (xs : List ℕ) : Type 0 where
    pub buf : List ℕ
    pub at : ℕ
    pub shape : q ≡ deque buf at (length xs)
    pub storage : length buf ≡ max_size
    pub fits : length xs ≤ max_size
    pub holds : window max_size buf at (length xs) ≡ xs

  pub new-IsDeque : IsDeque (new max_size) []
  unfolding new
  new-IsDeque = record {
    buf = replicate max_size 0;
    at = 0;
    shape = refl;
    storage = length-replicate max_size 0;
    fits = omega arith;
    holds = refl;
  }

  apart : (t n k : ℕ) → t + suc n ≤ k → k < t + max_size → k % max_size ≢ t % max_size
  apart t n k low high =
      let d : k ≡ t + (k - t) = omega arith in
      λ e.
        mod_add_ne max_size t (k - t) (omega arith) (omega arith) (sym e ∙ ap (λ j. j % max_size) d)

  window-set :
      (buf : List ℕ) (t n k x : ℕ)
      → t + n ≤ k
      → k < t + max_size
      → window max_size (set buf (k % max_size) x) t n ≡ window max_size buf t n
  window-set buf t zero k x low high = refl
  window-set buf t (suc n) k x low high =
      rw (window-set buf (suc t) n k x (omega arith) (omega arith)) (
        ap (λ v. v ∷ window max_size buf (suc t) n)
          (get_or-set_ne buf (k % max_size) (t % max_size) x 0 (apart t n k low high)))

  window-append :
      (buf : List ℕ) (t k n : ℕ)
      → window max_size buf t (k + n) ≡ window max_size buf t k ++ window max_size buf (t + k) n
  window-append buf t zero n = rw (zero-add, add-zero)
  window-append buf t (suc k) n =
      rw (suc-add k n, add-suc t k)
        (ap (λ w. get_or buf (t % max_size) 0 ∷ w)
          (window-append buf (suc t) k n
            ∙ ap (λ j. window max_size buf (suc t) k ++ window max_size buf j n) (omega arith)))

  window-end :
      (buf : List ℕ) (t n : ℕ)
      → window max_size buf t (suc n)
        ≡ window max_size buf t n ++ (get_or buf ((t + n) % max_size) 0 ∷ [])
  window-end buf t n =
      let e : suc n ≡ n + 1 = omega arith in ap (window max_size buf t) e ∙ window-append buf t n 1

  -- A deque of known indices, by what its window holds.
  IsDeque-of :
      (buf : List ℕ) (t n : ℕ) {xs : List ℕ}
      → length buf ≡ max_size
      → n ≤ max_size
      → window max_size buf t n ≡ xs
      → IsDeque (deque buf t n) xs
  IsDeque-of buf t n {xs} storage fits holds = record {
    buf = buf;
    at = t;
    shape = ap (deque buf t) e;
    storage = storage;
    fits = omega (arith, e);
    holds = subst (λ k. window max_size buf t k ≡ xs) e holds;
  }
    where
      e : n ≡ length xs
      e = sym (length-window max_size buf t n) ∙ ap length holds

  module _ {q : Spmc} {xs : List ℕ} (d : IsDeque q xs) where
    -- `Push` on a deque that is not full succeeds and puts the item at the end, also when the
    -- window wraps round the buffer.
    pub push-append :
        (x : ℕ)
        → length xs < max_size
        → ((push max_size q x).1 ≡ true) × IsDeque (push max_size q x).0 (xs ++ (x ∷ []))
    push-append x room =
        subst Goal (sym d.shape)
          (rw (push-deque max_size buf at n x, ltb_of_lt n max_size room) (refl, pushed))
      where
        open d use {buf, at, storage, holds}

        n : ℕ
        n = length xs

        in_range : (at + n) % max_size < length buf
        in_range = omega arith

        Goal : Spmc → Type 0
        Goal r = ((push max_size r x).1 ≡ true) × IsDeque (push max_size r x).0 (xs ++ (x ∷ []))

        pushed : IsDeque (deque (set buf ((at + n) % max_size) x) at (suc n)) (xs ++ (x ∷ []))
        pushed = IsDeque-of _ at (suc n) (length-set buf _ x ∙ storage) room (
            rw
              (
                window-end _ at n,
                window-set buf at n (at + n) x (omega arith) (omega arith),
                get_or-set_self buf ((at + n) % max_size) x 0 in_range,
              )
              (ap (λ w. w ++ (x ∷ [])) holds))

    -- `Push` on a full deque fails and changes nothing.
    pub push-full : (x : ℕ) → length xs ≡ max_size → push max_size q x ≡ (q, false)
    push-full x full =
        subst (λ r. push max_size r x ≡ (r, false)) (sym d.shape)
          (rw (
            push-deque max_size d.buf d.at (length xs) x,
            ltb_of_le (length xs) max_size (omega arith),
          ))

    -- `Size` is the number of items that the deque holds.
    pub size-length : size q ≡ length xs
    size-length = subst (λ r. size r ≡ length xs) (sym d.shape) (size-deque d.buf d.at (length xs))

  -- `TryPop` on a deque that holds `xs` and then `x` returns `x` and leaves a deque that holds
  -- `xs`, also when `x` is the only item.
  pub try_pop-append :
      {q : Spmc} (xs : List ℕ) (x : ℕ)
      → IsDeque q (xs ++ (x ∷ []))
      → ((try_pop max_size q).1 ≡ x) × IsDeque (try_pop max_size q).0 xs
  try_pop-append {q} xs x d =
      subst Goal (sym shape') (rw (try_pop-deque-suc max_size buf at n) (split.1, left))
    where
      open d use {buf, at, shape, storage, fits, holds}

      n : ℕ
      n = length xs

      Goal : Spmc → Type 0
      Goal r = ((try_pop max_size r).1 ≡ x) × IsDeque (try_pop max_size r).0 xs

      shape' : q ≡ deque buf at (suc n)
      shape' = shape ∙ ap (deque buf at) (length-append_one xs x)

      split : (window max_size buf at n ≡ xs) × (get_or buf ((at + n) % max_size) 0 ≡ x)
      split = append_one_injective _ xs _ x (
          sym (window-end buf at n)
          ∙ ap (window max_size buf at) (sym (length-append_one xs x))
          ∙ holds)

      left : IsDeque (if n == 0 then deque buf (suc at) 0 else deque buf at n) xs
      left = elim (Bool-cases (n == 0)) [
        | inl e ↦ rw e (
            IsDeque-of buf (suc at) 0 storage (omega arith)
              (sym (length-eq-zero xs (eq_of_== n 0 e))))
        | inr e ↦
            rw e
              (IsDeque-of buf at n storage (omega (arith, length-append_one xs x, d.fits)) split.0)
      ]

  pub try_pop-nil :
      {q : Spmc} → IsDeque q [] → ((try_pop max_size q).1 ≡ 0) × IsDeque (try_pop max_size q).0 []
  try_pop-nil d =
      subst (λ r. ((try_pop max_size r).1 ≡ 0) × IsDeque (try_pop max_size r).0 []) (sym d.shape)
        (rw (try_pop-deque_zero max_size d.buf d.at)
          (refl, IsDeque-of d.buf d.at 0 d.storage (omega arith) refl))

  -- `Steal` on a deque that holds `x` and then `xs` returns `x` and leaves a deque that holds `xs`;
  -- if its weak exchange fails for no reason it returns `nullptr` and changes nothing.
  pub steal-cons :
      (x : ℕ) {q : Spmc} (xs : List ℕ)
      → IsDeque q (x ∷ xs)
      → ((steal max_size false q).1 ≡ x)
        × IsDeque (steal max_size false q).0 xs
        × (steal max_size true q ≡ (q, 0))
  steal-cons x {q} xs d = subst Goal (sym shape) (
      rw (steal-deque max_size true buf at n, steal-deque max_size false buf at n) (cc, left, refl))
    where
      open d use {buf, at, shape, storage, fits, holds}

      n : ℕ
      n = length xs

      Goal : Spmc → Type 0
      Goal r =
          ((steal max_size false r).1 ≡ x)
          × IsDeque (steal max_size false r).0 xs
          × (steal max_size true r ≡ (r, 0))

      left : IsDeque (deque buf (suc at) n) xs
      left = IsDeque-of buf (suc at) n storage (omega arith) (cc)

  pub steal-nil : (spurious : Bool) {q : Spmc} → IsDeque q [] → steal max_size spurious q ≡ (q, 0)
  steal-nil spurious d =
      subst (λ r. steal max_size spurious r ≡ (r, 0)) (sym d.shape)
        (steal-deque_zero max_size spurious d.buf d.at)

  -- `TakeHalf` on a deque that holds `xs`, oldest first, returns the first half of `xs`, rounded
  -- down but at least one item if there is one, and leaves a deque that holds the rest.
  pub take_half-take :
      {q : Spmc} (xs : List ℕ)
      → IsDeque q xs
      → ((take_half max_size q).1 ≡ take (half_count xs) xs)
        × IsDeque (take_half max_size q).0 (drop (half_count xs) xs)
  take_half-take [] d =
      subst (λ r. ((take_half max_size r).1 ≡ []) × IsDeque (take_half max_size r).0 [])
        (sym d.shape)
        (rw (take_half-deque_zero max_size d.buf d.at)
          (refl, IsDeque-of d.buf d.at 0 d.storage (omega arith) refl))
  take_half-take (x ∷ xs) d = subst Goal (sym shape) (
      rw (take_half-deque-suc max_size buf at n)
        (sym (take-window max_size buf at k (suc n) within) ∙ ap (take k) holds, left))
    where
      open d use {buf, at, shape, storage, holds}

      n : ℕ
      n = length xs

      k : ℕ
      k = half_of (suc n)

      within : k ≤ suc n
      within = half_of-le n

      Goal : Spmc → Type 0
      Goal r =
          ((take_half max_size r).1 ≡ take k (x ∷ xs))
          × IsDeque (take_half max_size r).0 (drop k (x ∷ xs))

      left : IsDeque (deque buf (at + k) (suc n - k)) (drop k (x ∷ xs))
      left =
          IsDeque-of buf (at + k) (suc n - k) storage (omega (arith, d.fits))
            (sym (drop-window max_size buf at k (suc n) within) ∙ ap (drop k) holds)
