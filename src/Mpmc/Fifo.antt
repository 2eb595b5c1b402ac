-- ===== src/Mpmc/Fifo.antt =====
-- The intrusive queue of mpmc_queue.hpp and the list of nodes that it stands for, oldest first.
use my_async_lib.Base.{
  ℕ, ◌<◌, ◌≡◌, ◌≢◌, refl, ap, List, [], ◌∷◌, ◌++◌, arith, ◌==◌, if◌then◌else◌, count, Distinct,
  count-append, last_or, last_or-append, true, eq_of_==, ==_of_eq, ==_of_ne, sym, ◌∙◌, subst,
}
use my_async_lib.Base.Store.{
  Store, write, write_self, write_ne, Seg, Chain, Agree, frame, Agree-write, Seg-write, Seg-append,
  relink, count-last_or, count-null,
}
use my_async_lib.Mpmc.{Queue, empty_queue, attach, push, push_batch, pop, empty}

-- The nodes from `head_` on are `xs`, `tail_` is the last of them, and none is there twice.
pub record IsQueue (m : Store) (q : Queue) (xs : List ℕ) : Type 0 where
  pub chain : Chain m q.head xs
  pub tail : q.tail ≡ last_or xs 0
  pub distinct : Distinct xs

pub empty_queue-IsQueue : (m : Store) → IsQueue m empty_queue []
empty_queue-IsQueue m = record { chain = refl; tail = refl; distinct = λ a. omega arith }

-- A write outside the queue keeps it.
pub IsQueue-frame :
    (m : Store) (p v : ℕ) {q : Queue} (xs : List ℕ)
    → IsQueue m q xs
    → count p xs ≡ 0
    → IsQueue (write m p v) q xs
IsQueue-frame m p v {q} xs is out = record {
  chain = Seg-write m 0 q.head p v xs is.chain out;
  tail = is.tail;
  distinct = is.distinct;
}

-- So does any store that agrees on its nodes.
pub IsQueue-Agree :
    (m n : Store) {q : Queue} (xs : List ℕ) → IsQueue m q xs → Agree m n xs → IsQueue n q xs
IsQueue-Agree m n {q} xs is same = record {
  chain = frame m n 0 q.head xs is.chain same;
  tail = is.tail;
  distinct = is.distinct;
}

abbrev pub Outcome : Store → List ℕ → Store × Queue → List ℕ → Type 0
Outcome m old (n, q) xs = IsQueue n q xs × ((a : ℕ) → count a old ≡ 0 → n a ≡ m a)

attach-IsQueue :
    (m : Store) (q : Queue) (xs : List ℕ) (first b : ℕ) (bs : List ℕ)
    → IsQueue m q xs
    → Chain m first (b ∷ bs)
    → Distinct (xs ++ (b ∷ bs))
    → Outcome m (xs ++ (b ∷ bs)) (attach m q first (last_or bs b)) (xs ++ (b ∷ bs))
unfolding attach write
attach-IsQueue m q [] first b bs is batch once =
    rw (==_of_eq q.tail 0 is.tail)
      (record { chain = batch; tail = refl; distinct = once }, λ a _. refl)
attach-IsQueue m q (x ∷ xs) first b bs is batch once = rw (==_of_ne q.tail 0 filled) (
  record {
    chain =
        Seg-append _ first 0 q.head (x ∷ xs) (b ∷ bs)
          (subst (λ t. Seg (write m t first) first q.head (x ∷ xs)) (sym is.tail)
            (relink m 0 first q.head x xs is.chain (is.distinct _)))
          (Seg-write m 0 first q.tail first (b ∷ bs) batch apart);
    tail = sym (last_or-append xs (b ∷ bs) x);
    distinct = once;
  },
  λ a out. ground (arith, count-append a (x ∷ xs) (b ∷ bs), member),
)
  where
    member : 0 < count q.tail (x ∷ xs)
    member = subst (λ t. 0 < count t (x ∷ xs)) (sym is.tail) (count-last_or x xs)

    filled : q.tail ≢ 0
    filled e =
        omega (arith, member, ap (λ t. count t (x ∷ xs)) e, count-null m 0 q.head (x ∷ xs) is.chain)

    apart : count q.tail (b ∷ bs) ≡ 0
    apart = omega (arith, member, once q.tail, count-append q.tail (x ∷ xs) (b ∷ bs))

-- `Push` is the `PushBatch` of one node.
pub push-eq-push_batch :
    (m : Store) (q : Queue) (node : ℕ) → push m q node ≡ push_batch m q node node
unfolding push push_batch
push-eq-push_batch m q node = ground arith

module _ {m : Store} {q : Queue} {xs : List ℕ} (is : IsQueue m q xs) where
  -- `PushBatch` of a chain of nodes, whatever its last `next` is, on a queue that holds none of
  -- them: the queue then holds its old nodes and behind them the batch, in order, and no other node
  -- is written.
  pub push_batch-append :
      (stop first b : ℕ) (bs : List ℕ)
      → Seg m stop first (b ∷ bs)
      → Distinct (xs ++ (b ∷ bs))
      → Outcome m (xs ++ (b ∷ bs)) (push_batch m q first (last_or bs b)) (xs ++ (b ∷ bs))
  unfolding push_batch
  push_batch-append stop first b bs batch once =
      rw (==_of_ne first 0 (λ e. batch.1 (omega arith)), ==_of_ne last 0 last_ne)
        (done.0, λ a out. done.1 a out ∙ spared a out)
    where
      last : ℕ
      last = last_or bs b

      member : 0 < count last (b ∷ bs)
      member = count-last_or b bs

      last_ne : last ≢ 0
      last_ne e =
          omega
            (arith, member, ap (λ t. count t (b ∷ bs)) e, count-null m stop first (b ∷ bs) batch)

      apart : count last xs ≡ 0
      apart = omega (arith, member, once last, count-append last xs (b ∷ bs))

      closed : Chain (write m last 0) first (b ∷ bs)
      closed =
          relink m stop 0 first b bs batch (omega (arith, once last, count-append last xs (b ∷ bs)))

      done :
          Outcome
            (write m last 0)
            (xs ++ (b ∷ bs))
            (attach (write m last 0) q first last)
            (xs ++ (b ∷ bs))
      done = attach-IsQueue _ q xs first b bs (IsQueue-frame m last 0 xs is apart) closed once

      spared : (a : ℕ) → count a (xs ++ (b ∷ bs)) ≡ 0 → write m last 0 a ≡ m a
      spared a out =
          Agree-write m last 0 (a ∷ []) (ground (arith, member, count-append a xs (b ∷ bs))) a
            (ground arith)

  pub push-append :
      (node : ℕ)
      → node ≢ 0
      → count node xs ≡ 0
      → Outcome m (xs ++ (node ∷ [])) (push m q node) (xs ++ (node ∷ []))
  push-append node ne fresh = rw (push-eq-push_batch m q node) (
      push_batch-append (m node) node node [] (refl, ne, refl)
        λ a. ground (arith, is.distinct a, count-append a xs (node ∷ [])))

abbrev pub Popped : Store → List ℕ → Store × Queue × ℕ → Type 0
Popped m [] (n, q, p) = IsQueue n q [] × (p ≡ 0) × ((a : ℕ) → n a ≡ m a)
Popped m (x ∷ xs) (n, q, p) = IsQueue n q xs × (p ≡ x) × (n x ≡ 0) × ((a : ℕ) → a ≢ x → n a ≡ m a)

next_tail :
    (m : Store) (t x : ℕ) (xs : List ℕ)
    → Chain m (m x) xs
    → t ≡ last_or xs x
    → (if m x == 0 then 0 else t) ≡ last_or xs 0
next_tail m t x [] s e = rw (==_of_eq (m x) 0 s)
next_tail m t x (y ∷ ys) s e = rw (==_of_ne (m x) 0 (λ z. s.1 (omega arith))) e

-- `Pop` of a queue that holds `xs`: with no node it returns `nullptr` and writes nothing; otherwise
-- it returns the oldest node with its `next` cleared, leaves a queue of the others, and writes no
-- other node.
pub pop-Popped : (m : Store) (q : Queue) (xs : List ℕ) → IsQueue m q xs → Popped m xs (pop m q)
unfolding pop
pop-Popped m q [] is = rw (==_of_eq q.head 0 is.chain) (is, refl, λ a. refl)
pop-Popped m q (x ∷ xs) is =
    rw (==_of_ne q.head 0 (λ z. is.chain.1 (omega arith)), is.chain.0)
      (
        record {
          chain = Seg-write m 0 (m x) x 0 xs is.chain.2 (ground (arith, is.distinct x));
          tail = next_tail m q.tail x xs is.chain.2 is.tail;
          distinct = λ a. omega (arith, is.distinct a);
        },
        refl,
        write_self m x 0,
        λ a ne. write_ne m x 0 a ne,
      )

-- `empty` is true exactly when the queue holds no node.
pub empty_lem :
    (m : Store) (q : Queue) (xs : List ℕ)
    → IsQueue m q xs
    → ((empty q ≡ true) → xs ≡ []) × (xs ≡ [] → empty q ≡ true)
unfolding empty
empty_lem m q [] is = (λ _. refl, λ _. ==_of_eq q.head 0 is.chain)
empty_lem m q (x ∷ xs) is = (λ e. absurd (is.chain.1 (omega (arith, eq_of_== q.head 0 e))), λ e. cc)
