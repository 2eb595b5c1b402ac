-- ===== src/Inbox/Walks.antt =====
-- The accesses of executor.hpp by which the worker takes its inbox and walks along the list.
use my_async_lib.Base.{ℕ, ◌+◌, ◌≡◌, ◌≢◌, refl, sym, subst, ap, List, [], ◌∷◌, count, unit_at, arith}
use my_async_lib.Base.Store.{Chain, write, Seg-write, Chain-null}
use my_async_lib.Inbox.{State, looking, exchanging, opened, draining, moving}
use my_async_lib.Inbox.Chains.{in_flight, Sees, Inv, rest_of, hands}
use my_async_lib.Inbox.Moves.{Holding, Linked-apart}

-- The worker takes the first task from the list.
pub first-Inv :
    (xs ys : List ℕ) {s : State} (first : ℕ)
    → Inv xs ys s
    → s.worker ≡ opened first
    → Holding (record s { next = write s.next first 0; worker = draining first (s.next first) })
first-Inv xs [] {s} first h e =
    absurd (subst (Sees s.inbox) e h.sees (subst (λ w. Chain s.next (rest_of w) []) e h.rest))
first-Inv xs (y ∷ zs) {s} first h e =
    let (is_first, some_node, tail) = subst (λ w. Chain s.next (rest_of w) (y ∷ zs)) e h.rest in
    let b = h.balance first in
    let o = h.once first in
    let hd : (v : ℕ) → count v (hands s.worker) ≡ 0 = λ v. ap (λ w. count v (hands w)) e in
    let out : (0 ≡ count first xs) × (0 ≡ count first zs) × (in_flight (s.pushes first) ≡ 0) =
      ground (arith, b, o, hd first, is_first) in
    (
      xs,
      zs,
      record {
        chain = Seg-write s.next 0 s.inbox first 0 xs h.chain (sym (out.0));
        rest =
            Seg-write s.next 0 (s.next first) first 0 zs
              (subst (λ p. Chain s.next (s.next p) zs) (sym is_first) tail) (sym (out.1));
        sees = tt;
        linked = Linked-apart s.next first 0 s.pushes (out.2) h.linked;
        null = h.null;
        balance = λ v. ground (arith, h.balance v, hd v, is_first);
        once = h.once;
      },
    )

-- The worker passes a task on.
pub moved-Inv :
    {xs ys : List ℕ} {s : State} (first curr rest : ℕ)
    → Inv xs ys s
    → s.worker ≡ moving first curr rest
    → Inv xs ys (record s {
      next = write s.next curr 0;
      worker = draining first rest;
      delivered = curr ∷ s.delivered;
    })
moved-Inv {xs} {ys} {s} first curr rest h e =
    let b = h.balance curr in
    let o = h.once curr in
    let hd : (v : ℕ) → count v (hands s.worker) ≡ unit_at v first + (unit_at v curr + 0) =
      λ v. ap (λ w. count v (hands w)) e in
    let out : (count curr xs ≡ 0) × (count curr ys ≡ 0) × (in_flight (s.pushes curr) ≡ 0) =
      ground (arith, b, o, hd curr) in
    record {
      chain = Seg-write s.next 0 s.inbox curr 0 xs h.chain (out.0);
      rest =
          Seg-write s.next 0 rest curr 0 ys (subst (λ w. Chain s.next (rest_of w) ys) e h.rest)
            (out.1);
      sees = tt;
      linked = Linked-apart s.next curr 0 s.pushes (out.2) h.linked;
      null = h.null;
      balance = λ v. omega (arith, h.balance v, hd v);
      once = λ v. omega (arith, h.once v);
    }

-- The worker takes all that is in the inbox.
pub exchanged-Inv :
    {xs ys : List ℕ} {s : State}
    → Inv xs ys s
    → s.worker ≡ exchanging
    → Inv [] xs (record s { inbox = 0; worker = opened s.inbox })
exchanged-Inv {xs} {ys} {s} h e =
    let none_yet =
      Chain-null s.next 0 ys (subst (λ w. Chain s.next (rest_of w) ys) e h.rest) refl in
    let counted : (v : ℕ) → count v ys ≡ 0 = λ v. ap (count v) none_yet in
    record {
      chain = refl;
      rest = h.chain;
      sees = subst (Sees s.inbox) e h.sees;
      linked = h.linked;
      null = h.null;
      balance = λ v. omega (arith, h.balance v, counted v, ap (λ w. count v (hands w)) e);
      once = h.once;
    }

-- The worker reads `next` of a task that it is about to pass on.
pub read-Inv :
    (xs ys : List ℕ) {s : State} (first curr : ℕ)
    → Inv xs ys s
    → s.worker ≡ draining first curr
    → curr ≢ 0
    → Holding (record s { worker = moving first curr (s.next curr) })
read-Inv xs [] {s} first curr h e ne =
    absurd (ne (subst (λ w. Chain s.next (rest_of w) []) e h.rest))
read-Inv xs (y ∷ zs) {s} first curr h e ne =
    let (is_curr, some_node, tail) = subst (λ w. Chain s.next (rest_of w) (y ∷ zs)) e h.rest in
    let hd : (v : ℕ) → count v (hands s.worker) ≡ unit_at v first + 0 =
      λ v. ap (λ w. count v (hands w)) e in
    (
      xs,
      zs,
      record {
        chain = h.chain;
        rest = subst (λ p. Chain s.next (s.next p) zs) (sym is_curr) tail;
        sees = tt;
        linked = h.linked;
        null = h.null;
        balance = λ v. omega (arith, h.balance v, hd v, ap (unit_at v) is_curr);
        once = h.once;
      },
    )

-- The worker runs the first task.
pub ended-Inv :
    {xs ys : List ℕ} {s : State} (first : ℕ)
    → Inv xs ys s
    → s.worker ≡ draining first 0
    → Inv xs ys (record s { worker = looking; delivered = first ∷ s.delivered })
ended-Inv {xs} {ys} {s} first h e =
    let hd : (v : ℕ) → count v (hands s.worker) ≡ unit_at v first + 0 =
      λ v. ap (λ w. count v (hands w)) e in
    record {
      chain = h.chain;
      rest = subst (λ w. Chain s.next (rest_of w) ys) e h.rest;
      sees = tt;
      linked = h.linked;
      null = h.null;
      balance = λ v. omega (arith, h.balance v, hd v);
      once = λ v. omega (arith, h.once v);
    }
