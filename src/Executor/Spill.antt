-- ===== src/Executor/Spill.antt =====
-- The ways into the global queue: one task, or a batch linked through the `next` fields.
use my_async_lib.Base.{
  ℕ, ◌+◌, ◌<◌, ◌≡◌, refl, sym, ◌∙◌, subst, List, [], ◌∷◌, ◌++◌, arith, count, count-append,
  Distinct, last_or, last_or-append,
}
use my_async_lib.Base.Store.{Store, write, Seg, Chain, write_ne, write_self, Seg-write, Seg-append}
use my_async_lib.Mpmc.Fifo.{IsQueue, IsQueue-Agree, Outcome, push-append, push_batch-append}
use my_async_lib.Mpmc
use my_async_lib.Mpmc.{Queue}
use my_async_lib.Executor.{Executor, link, push_global, offload}
use my_async_lib.Executor.Held.{View, load, total, Holds, Keeps, AllWorkers-frame, keep}

link-outside : (m : Store) (xs : List ℕ) (t a : ℕ) → count a xs ≡ 0 → link m xs t a ≡ m a
unfolding link
link-outside m [] t a out = refl
link-outside m (x ∷ []) t a out = write_ne m x t a (λ e. ground arith)
link-outside m (x ∷ y ∷ ys) t a out =
    link-outside (write m x y) (y ∷ ys) t a (omega arith) ∙ write_ne m x y a (λ e. ground arith)

-- The linked batch leads from its first task to `t`.
link-Seg :
    (m : Store) (x : ℕ) (xs : List ℕ) (t : ℕ)
    → Distinct (x ∷ xs)
    → count 0 (x ∷ xs) ≡ 0
    → Seg (link m (x ∷ xs) t) t x (x ∷ xs)
unfolding link
link-Seg m x [] t once nonnull = (refl, λ e. ground arith, write_self m x t)
link-Seg m x (y ∷ ys) t once nonnull = (
  refl,
  λ e. ground arith,
  subst (λ p. Seg (link (write m x y) (y ∷ ys) t) t p (y ∷ ys)) (sym first)
      (link-Seg (write m x y) y ys t (λ a. omega (arith, once a)) (omega arith)),
)
  where
    first : link (write m x y) (y ∷ ys) t x ≡ y
    first = link-outside (write m x y) (y ∷ ys) t x (ground (arith, once x)) ∙ write_self m x y

-- A change of the global queue that touches tasks of the queue and of the hand only.
global-Keeps :
    {s : Executor} {vs : List View} {gs hand : List ℕ} (n : Store) (g : Queue) (gs' hand' : List ℕ)
    → Holds s vs gs hand
    → IsQueue n g gs'
    → ((a : ℕ) → count a gs' + count a hand' ≡ count a gs + count a hand)
    → ((a : ℕ) → 0 < load a vs → n a ≡ s.next a)
    → Keeps (record s { next = n; global_queue = g }) hand' (λ a. total a vs gs hand)
global-Keeps {s} {vs} n g gs' hand' h queue balance same =
    keep vs gs' hand' h (AllWorkers-frame s.next n s.workers vs h.workers same) queue
      (λ a. omega (arith, balance a))

pub push_global-Keeps :
    {s : Executor} {vs : List View} {gs : List ℕ} (t : ℕ) (hand : List ℕ)
    → Holds s vs gs (t ∷ hand)
    → Keeps (push_global s t) hand (λ a. total a vs gs (t ∷ hand))
unfolding push_global
push_global-Keeps {s} {vs} {gs} t hand h =
    global-Keeps _ _ (gs ++ (t ∷ [])) hand h pushed.0
      (λ a. omega (arith, count-append a gs (t ∷ [])))
      (λ a p. pushed.1 a (omega (arith, count-append a gs (t ∷ []), h.once a)))
  where
    pushed : Outcome s.next (gs ++ (t ∷ [])) (Mpmc.push s.next s.global_queue t) (gs ++ (t ∷ []))
    pushed = push-append h.global t (λ e. ground (arith, h.nonnull)) (ground (arith, h.once t))

-- The rest of the hand is not written.
pub push_global-spares :
    {s : Executor} {vs : List View} {gs : List ℕ} (t : ℕ) (hand : List ℕ)
    → Holds s vs gs (t ∷ hand)
    → (a : ℕ) → 0 < count a hand
    → (push_global s t).next a ≡ s.next a
unfolding push_global
push_global-spares {s} {vs} {gs} t hand h a held =
    (push-append h.global t (λ e. ground (arith, h.nonnull)) (ground (arith, h.once t))).1 a
      (omega (arith, count-append a gs (t ∷ []), h.once a))

pub offload-Keeps :
    {s : Executor} {vs : List View} {gs : List ℕ} (xs : List ℕ) (t : ℕ) (hand : List ℕ)
    → Holds s vs gs (xs ++ (t ∷ hand))
    → Keeps (offload s xs t) hand (λ a. total a vs gs (xs ++ (t ∷ hand)))
unfolding offload
offload-Keeps [] t hand h = push_global-Keeps t hand h
offload-Keeps {s} {vs} {gs} (x ∷ xs) t hand h =
    global-Keeps _ _ (gs ++ batch) hand h (rw last at pushed.0)
      (λ a. omega (arith, in_batch a, in_hand a, count-append a gs batch))
      (λ a p.
        (rw last at pushed.1) a
          (omega (arith, count-append a gs batch, in_batch a, in_hand a, h.once a))
        ∙ untouched a (omega (arith, in_batch a, in_hand a, h.once a)))
  where
    batch : List ℕ
    batch = x ∷ (xs ++ (t ∷ []))

    linked : Store
    linked = write (link s.next (x ∷ xs) t) t 0

    in_batch : (a : ℕ) → count a batch ≡ count a (x ∷ xs) + count a (t ∷ [])
    in_batch a = count-append a (x ∷ xs) (t ∷ [])

    in_hand : (a : ℕ) → count a ((x ∷ xs) ++ (t ∷ hand)) ≡ count a (x ∷ xs) + count a (t ∷ hand)
    in_hand a = count-append a (x ∷ xs) (t ∷ hand)

    untouched : (a : ℕ) → count a batch ≡ 0 → linked a ≡ s.next a
    untouched a out =
        write_ne (link s.next (x ∷ xs) t) t 0 a (λ e. ground (arith, in_batch a))
        ∙ link-outside s.next (x ∷ xs) t a (omega (arith, in_batch a))

    chain : Chain linked x batch
    chain =
        Seg-append linked t 0 x (x ∷ xs) (t ∷ [])
          (Seg-write (link s.next (x ∷ xs) t) t x t 0 (x ∷ xs)
            (link-Seg s.next x xs t (λ a. omega (arith, in_hand a, h.once a))
              (omega (arith, in_hand 0, h.nonnull)))
            (ground (arith, in_hand t, h.once t)))
          (
            refl,
            (λ e. ground (arith, in_hand 0, h.nonnull)),
            write_self (link s.next (x ∷ xs) t) t 0,
          )

    last : last_or (xs ++ (t ∷ [])) x ≡ t
    last = last_or-append xs (t ∷ []) x

    pushed :
        Outcome linked
          (gs ++ batch)
          (Mpmc.push_batch linked s.global_queue x (last_or (xs ++ (t ∷ [])) x))
          (gs ++ batch)
    pushed =
        push_batch-append
          (IsQueue-Agree s.next linked gs h.global
            (λ a p. untouched a (omega (arith, in_batch a, in_hand a, h.once a))))
          0 x x (xs ++ (t ∷ [])) chain
          (λ a. omega (arith, count-append a gs batch, in_batch a, in_hand a, h.once a))
