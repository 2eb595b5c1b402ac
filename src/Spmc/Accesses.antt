-- ===== src/Spmc/Accesses.antt =====
-- What an access does to the nodes of the deque (spmc_queue.hpp).
use my_async_lib.Base.{
  ℕ, suc, ◌+◌, ◌-◌, ◌%◌, ◌<◌, ◌≤◌, ◌≡◌, refl, sym, subst, ap, ◌∙◌, List, ◌∷◌, count, unit_at, arith,
  inl, inr,
}
use my_async_lib.Spmc.Race.{Owner, idle, pushing, written, stored, Thief, State, write, items}
use my_async_lib.Spmc.Items.{items-write, first-write, items-last, write-same}
use my_async_lib.Spmc.Knows.{limit, spare, Sane, Stands, InSight, Sane-kept}
use my_async_lib.Spmc.Standing.{Inv, limit_at, owner-Stands, fits_at, later, top_moves}

module _ (max_size : ℕ) where
  -- The item that a thief has in sight is there if the top is.
  pub in_sight : {top l t : ℕ} {There : Type 0} → top ≡ t → InSight top l t There → (t < l) × There
  in_sight e (le, inl lt) = absurd (omega (arith, e, lt))
  in_sight e (le, inr there) = there

  -- The node is in its slot, which is none of the window's.
  pub write-Inv :
      {initial : List ℕ} {s : State} {l : ℕ} (node : ℕ)
      → Inv max_size initial s l
      → s.owner ≡ pushing node
      → Inv max_size initial
          (record s { buffer = write s.buffer (s.bottom % max_size) node; owner = written node })
          l
  write-Inv {s} {l} node h e =
      let at : s.top + (l - s.top) ≡ s.bottom =
        omega (arith, limit_at max_size (pushing node) h e, h.top_le) in
      let small : l - s.top < max_size =
        omega (arith, fits_at max_size (pushing node) h e, h.top_le) in
      let buffer' = write s.buffer (s.bottom % max_size) node in
      record {
        is_limit = limit_at max_size (pushing node) h e;
        bottom_le = h.bottom_le;
        stands = write-same max_size s.buffer (s.bottom % max_size) node;
        top_le = h.top_le;
        fits = fits_at max_size (pushing node) h e;
        thieves = λ j.
            Sane-kept max_size s.buffer buffer' s.top l l (s.thieves j) (λ lt. lt)
              (λ lt.
                subst
                  (λ n.
                    write s.buffer (n % max_size) node (s.top % max_size)
                    ≡ s.buffer (s.top % max_size))
                  at
                  (first-write max_size s.buffer node s.top (l - s.top) (omega (arith, lt)) small))
              (h.thieves j);
        balance = λ v.
            ap (λ xs. count v s.taken + count v xs)
              (subst
                (λ n.
                  items max_size (write s.buffer (n % max_size) node) s.top (l - s.top)
                  ≡ items max_size s.buffer s.top (l - s.top))
                at
                (items-write max_size s.buffer node s.top (l - s.top) (l - s.top) (omega arith)
                  small))
            ∙ h.balance v;
      }

  pub store-Inv :
      {initial : List ℕ} {s : State} {l : ℕ} (node : ℕ)
      → Inv max_size initial s l
      → s.owner ≡ written node
      → Inv max_size initial
          (record s { bottom = suc s.bottom; owner = idle; pushed = node ∷ s.pushed })
          (suc l)
  store-Inv {s} {l} node h e =
      let at = limit_at max_size (written node) h e in
      record {
        is_limit = ap suc at;
        bottom_le = omega (arith, at);
        stands = tt;
        top_le = omega (arith, h.top_le);
        fits = omega (arith, fits_at max_size (written node) h e);
        thieves = λ j.
            Sane-kept max_size s.buffer s.buffer s.top l (suc l) (s.thieves j)
              (λ lt. omega (arith, lt)) (λ lt. refl) (h.thieves j);
        balance = λ v.
            let slot =
              subst (λ n. s.buffer (n % max_size) ≡ node) at
                (owner-Stands max_size (written node) h e) in
            let last = items-last max_size s.buffer v s.top l h.top_le in
            omega (arith, h.balance v, last, ap (unit_at v) slot);
      }

  -- The owner takes the last of several items.
  pub many-Inv :
      {initial : List ℕ} {s : State} {l : ℕ} (b : ℕ)
      → Inv max_size initial s l
      → s.owner ≡ stored b
      → s.top < b
      → Inv max_size initial
          (record s { owner = idle; taken = s.buffer (b % max_size) ∷ s.taken })
          b
  many-Inv {s} {l} b h e lt =
      let stands = owner-Stands max_size (stored b) h e in
      let at = limit_at max_size (stored b) h e in
      record {
        is_limit = stands;
        bottom_le = omega (arith, stands);
        stands = tt;
        top_le = omega (arith, lt);
        fits = omega (arith, h.fits, at);
        thieves = λ j.
            Sane-kept max_size s.buffer s.buffer s.top l b (s.thieves j) (λ _. lt) (λ _. refl)
              (h.thieves j);
        balance = λ v.
            let last = items-last max_size s.buffer v s.top b (omega (arith, lt)) in
            let whole = ap (λ n. count v (items max_size s.buffer s.top (n - s.top))) at in
            omega (arith, h.balance v, last, whole);
      }

  -- A node is handed out by an exchange of the top.
  pub one_taken :
      {initial : List ℕ} {s : State} {l : ℕ} (t node : ℕ) (owner : Owner) (thieves : ℕ → Thief)
      → Inv max_size initial s l
      → s.top ≡ t
      → (t < l) × (node ≡ s.buffer (t % max_size))
      → limit owner s.bottom ≡ l
      → Stands max_size s.buffer owner s.bottom
      → l + spare owner ≤ s.top + max_size
      → ((j : ℕ) → Sane max_size s.buffer (suc t) l (thieves j))
      → Inv max_size initial
          (record s { top = suc t; owner = owner; taken = node ∷ s.taken; thieves = thieves })
          l
  one_taken {initial} {s} {l} t node owner thieves h te (lt, there) e stands room sane =
      let up : t + 1 ≡ suc t = omega arith in
      subst
        (λ n.
          Inv max_size initial
            (record s { top = n; owner = owner; taken = node ∷ s.taken; thieves = thieves }) l)
        up
        (top_moves max_size t 1 owner (node ∷ s.taken) h te (omega (arith, lt)) e stands room
          (λ v. omega (arith, ap (unit_at v) there)) thieves
          (λ j. subst (λ n. Sane max_size s.buffer n l (thieves j)) (sym up) (sane j)))

  -- What a thief reads in the slot of an item in sight.
  pub reads : {top l : ℕ} (node t : ℕ) → InSight top l t (Unit {0}) → InSight top l t (node ≡ node)
  reads node t (le, inl lt) = (le, inl lt)
  reads node t (le, inr (lt, there)) = (le, inr (lt, refl))

  pub later_at :
      {initial : List ℕ} {s : State} {l : ℕ} (t n : ℕ)
      → Inv max_size initial s l
      → s.top ≡ t
      → t < n
      → (j : ℕ) → Sane max_size s.buffer n l (s.thieves j)
  later_at t n h te lt = later max_size n h (omega (arith, te, lt))
