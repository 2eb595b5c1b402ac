-- ===== src/Spmc/Standing.antt =====
-- What holds of the deque (spmc_queue.hpp) between two accesses of its owner or a thief.
use my_async_lib.Base.{ℕ, ◌+◌, ◌-◌, ◌<◌, ◌≤◌, ◌≡◌, sym, subst, ap, ◌∙◌, List, count, arith}
use my_async_lib.Spmc.Race.{Owner, Thief, State, put, items}
use my_async_lib.Spmc.Items.{items-front}
use my_async_lib.Spmc.Knows.{limit, spare, Sane, Stands, Sane-later, Sane-put}

module _ (max_size : ℕ) where
  -- Each node that was there or was put in is in the window or was taken, as often; `l` is the limit.
  pub record Inv (initial : List ℕ) (s : State) (l : ℕ) : Type 0 where
    pub is_limit : limit s.owner s.bottom ≡ l
    pub bottom_le : s.bottom ≤ l
    pub stands : Stands max_size s.buffer s.owner s.bottom
    pub top_le : s.top ≤ l
    pub thieves : (i : ℕ) → Sane max_size s.buffer s.top l (s.thieves i)
    pub fits : l + spare s.owner ≤ s.top + max_size
    pub balance :
        (v : ℕ)
        → count v s.taken + count v (items max_size s.buffer s.top (l - s.top))
          ≡ count v initial + count v s.pushed

  pub limit_at :
      {initial : List ℕ} {l : ℕ} {s : State} (owner : Owner)
      → Inv initial s l
      → s.owner ≡ owner
      → limit owner s.bottom ≡ l
  limit_at {s} owner h e = ap (λ o. limit o s.bottom) (sym e) ∙ h.is_limit

  pub owner-Stands :
      {initial : List ℕ} {l : ℕ} {s : State} (owner : Owner)
      → Inv initial s l
      → s.owner ≡ owner
      → Stands max_size s.buffer owner s.bottom
  owner-Stands {s} owner h e = subst (λ o. Stands max_size s.buffer o s.bottom) e h.stands

  pub fits_at :
      {initial : List ℕ} {l : ℕ} {s : State} (owner : Owner)
      → Inv initial s l
      → s.owner ≡ owner
      → l + spare owner ≤ s.top + max_size
  fits_at {l} {s} owner h e = subst (λ o. l + spare o ≤ s.top + max_size) e h.fits

  pub thief-Sane :
      {initial : List ℕ} {l : ℕ} {s : State} (i : ℕ) (x : Thief)
      → Inv initial s l
      → s.thieves i ≡ x
      → Sane max_size s.buffer s.top l x
  thief-Sane {l} {s} i x h e = subst (Sane max_size s.buffer s.top l) e (h.thieves i)

  -- The room is there whatever the owner does next, unless it pushes.
  pub room_kept :
      {initial : List ℕ} {l : ℕ} {s : State} → Inv initial s l → l + 0 ≤ s.top + max_size
  room_kept h = omega (arith, h.fits)

  -- The owner moves on where the limit is `l`, and neither a thief nor an item is touched.
  pub moves :
      {initial : List ℕ} {l : ℕ} {s : State} (owner : Owner) (bottom : ℕ)
      → Inv initial s l
      → limit owner bottom ≡ l
      → bottom ≤ l
      → Stands max_size s.buffer owner bottom
      → l + spare owner ≤ s.top + max_size
      → Inv initial (record s { owner = owner; bottom = bottom }) l
  moves owner bottom h e le stands room = record {
    is_limit = e;
    bottom_le = le;
    stands = stands;
    top_le = h.top_le;
    fits = room;
    thieves = h.thieves;
    balance = h.balance;
  }

  -- A thief moves on.
  pub thief_moves :
      {initial : List ℕ} {l : ℕ} {s : State} (i : ℕ) (x : Thief)
      → Inv initial s l
      → Sane max_size s.buffer s.top l x
      → Inv initial (record s { thieves = put s.thieves i x }) l
  thief_moves {l} {s} i x h sane = record {
    is_limit = h.is_limit;
    bottom_le = h.bottom_le;
    stands = h.stands;
    top_le = h.top_le;
    fits = h.fits;
    thieves = Sane-put max_size s.buffer s.top l s.thieves i x h.thieves sane;
    balance = h.balance;
  }

  -- The thieves that are elsewhere when the top goes on.
  pub later :
      {initial : List ℕ} {l : ℕ} {s : State} (top : ℕ)
      → Inv initial s l
      → s.top < top
      → (j : ℕ) → Sane max_size s.buffer top l (s.thieves j)
  later {l} {s} top h lt j =
      Sane-later max_size s.buffer s.buffer s.top top l l (s.thieves j) lt (h.thieves j)

  -- The first `n` items are handed out.
  pub top_moves :
      {initial : List ℕ} {l : ℕ} {s : State} (t n : ℕ) (owner : Owner) (taken : List ℕ)
      → Inv initial s l
      → s.top ≡ t
      → t + n ≤ l
      → limit owner s.bottom ≡ l
      → Stands max_size s.buffer owner s.bottom
      → l + spare owner ≤ s.top + max_size
      → ((v : ℕ) → count v taken ≡ count v (items max_size s.buffer t n) + count v s.taken)
      → (thieves : ℕ → Thief) → ((j : ℕ) → Sane max_size s.buffer (t + n) l (thieves j))
      → Inv initial (record s { top = t + n; owner = owner; taken = taken; thieves = thieves }) l
  top_moves {l} {s} t n owner taken h te le e stands room same thieves sane = record {
    is_limit = e;
    bottom_le = h.bottom_le;
    stands = stands;
    top_le = le;
    fits = omega (arith, room, te);
    thieves = sane;
    balance = λ v. omega (
      arith,
      same v,
      h.balance v,
      items-front max_size s.buffer v t n l le,
      ap (λ k. count v (items max_size s.buffer k (l - k))) te,
    );
  }
