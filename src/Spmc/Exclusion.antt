-- ===== src/Spmc/Exclusion.antt =====
-- Who gets an item of the deque (spmc_queue.hpp) when the owner and thieves interleave.
use my_async_lib.Base.{
  ℕ, suc, ◌+◌, ◌-◌, ◌%◌, ◌<◌, ◌≤◌, ◌≡◌, refl, sym, ap, ◌∙◌, List, ◌++◌, count, count-append, arith,
  inr,
}
use my_async_lib.Spmc.Race.{
  idle, pushing, stored, racing, restoring, halving, outside, loaded, sighted, ready, State, put,
  items, num_to_take, Step, Reach, here, next, at_rest, push_room, push_write, push_store,
  pop_store, pop_many, pop_one, pop_none, pop_wins, pop_loses, pop_restore, own_half_load,
  own_half_wins, own_half_loses, steal_top, steal_bottom, steal_none, steal_read, steal_wins,
  steal_loses,
}
use my_async_lib.Spmc.Items.{num_to_take_le, num_to_take_pos}
use my_async_lib.Spmc.Knows.{limit, Sane-put}
use my_async_lib.Spmc.Standing.{
  Inv, limit_at, owner-Stands, thief-Sane, room_kept, moves, thief_moves, top_moves,
}
use my_async_lib.Spmc.Accesses.{
  in_sight, write-Inv, store-Inv, many-Inv, one_taken, reads, later_at,
}

module _ (max_size : ℕ) where
  abbrev Holding : List ℕ → State → Type 0
  Holding initial t = (l : ℕ) × Inv max_size initial t l

  Step-Inv :
      {initial : List ℕ} {s t : State} (l : ℕ)
      → Step max_size s t
      → Inv max_size initial s l
      → Holding initial t
  Step-Inv l (push_room s node e room) h =
      let at = limit_at max_size idle h e in
      (l, moves max_size (pushing node) s.bottom h at h.bottom_le tt (omega (arith, room, at)))
  Step-Inv l (push_write s node e) h = (l, write-Inv max_size node h e)
  Step-Inv l (push_store s node e) h = (suc l, store-Inv max_size node h e)
  Step-Inv l (pop_store s b e be) h = (
    l,
    moves max_size (stored b) b h (sym be ∙ limit_at max_size idle h e)
        (omega (arith, h.bottom_le, be)) refl (room_kept max_size h),
  )
  Step-Inv l (pop_many s b e lt) h = (b, many-Inv max_size b h e lt)
  Step-Inv l (pop_one s b e te) h = (
    l,
    moves max_size (racing b (s.buffer (b % max_size))) s.bottom h
        (limit_at max_size (stored b) h e) h.bottom_le refl (room_kept max_size h),
  )
  Step-Inv l (pop_none s b e lt) h = (
    l,
    moves max_size (restoring b) s.bottom h (limit_at max_size (stored b) h e) h.bottom_le tt
        (room_kept max_size h),
  )
  Step-Inv l (pop_wins s b node e te) h =
      let at = limit_at max_size (racing b node) h e in
      (
        l,
        one_taken max_size b node (restoring b) s.thieves h te
            (omega (arith, at), owner-Stands max_size (racing b node) h e) at tt
            (room_kept max_size h) (later_at max_size b (suc b) h te (omega arith)),
      )
  Step-Inv l (pop_loses s b node e te) h = (
    l,
    moves max_size (restoring b) s.bottom h (limit_at max_size (racing b node) h e) h.bottom_le tt
        (room_kept max_size h),
  )
  Step-Inv l (pop_restore s b e) h =
      let at = limit_at max_size (restoring b) h e in
      (l, moves max_size idle (suc b) h at (omega (arith, at)) tt (room_kept max_size h))
  Step-Inv l (own_half_load s e lt) h = (
    l,
    moves max_size (halving s.bottom s.top) s.bottom h (limit_at max_size idle h e) h.bottom_le
        (refl, lt) (room_kept max_size h),
  )
  Step-Inv l (own_half_wins s b t e te) h =
      let at = limit_at max_size (halving b t) h e in
      let (be, lt) = owner-Stands max_size (halving b t) h e in
      (
        l,
        top_moves max_size t (num_to_take b t) idle
            (items max_size s.buffer t (num_to_take b t) ++ s.taken) h te
            (omega (arith, num_to_take_le b t lt, at, be, lt)) at tt (room_kept max_size h)
            (λ v. count-append v (items max_size s.buffer t (num_to_take b t)) s.taken) s.thieves
            (later_at max_size t (t + num_to_take b t) h te (omega (arith, num_to_take_pos b t))),
      )
  Step-Inv l (own_half_loses s b t e ne) h = (
    l,
    moves max_size idle s.bottom h (limit_at max_size (halving b t) h e) h.bottom_le tt
        (room_kept max_size h),
  )
  Step-Inv l (steal_top s i e) h = (l, thief_moves max_size i (loaded s.top) h (omega arith))
  Step-Inv l (steal_bottom s i t e lt) h = (
    l,
    thief_moves max_size i (sighted t) h
        (thief-Sane max_size i (loaded t) h e, inr (omega (arith, lt, h.bottom_le), tt)),
  )
  Step-Inv l (steal_none s i t e le) h = (l, thief_moves max_size i outside h tt)
  Step-Inv l (steal_read s i t e) h = (
    l,
    thief_moves max_size i (ready t (s.buffer (t % max_size))) h
        (reads max_size (s.buffer (t % max_size)) t (thief-Sane max_size i (sighted t) h e)),
  )
  Step-Inv l (steal_wins s i t node e te) h =
      let up : t < suc t = omega arith in
      (
        l,
        one_taken max_size t node s.owner (put s.thieves i outside) h te
            (in_sight max_size te (thief-Sane max_size i (ready t node) h e)) h.is_limit h.stands
            h.fits
            (Sane-put max_size s.buffer (suc t) l s.thieves i outside
              (later_at max_size t (suc t) h te up) tt),
      )
  Step-Inv l (steal_loses s i t node e) h = (l, thief_moves max_size i outside h tt)

  Reach-Inv :
      {initial : List ℕ} {s t : State} {l : ℕ}
      → Reach max_size s t
      → Inv max_size initial s l
      → Holding initial t
  Reach-Inv {l} here h = (l, h)
  Reach-Inv (next r step) h = let (l, i) = Reach-Inv r h in Step-Inv l step i

  at_rest-Inv :
      (buffer : ℕ → ℕ) (lo hi : ℕ)
      → lo ≤ hi
      → hi ≤ lo + max_size
      → Inv max_size (items max_size buffer lo (hi - lo)) (at_rest buffer lo hi) hi
  at_rest-Inv buffer lo hi le small = record {
    is_limit = refl;
    bottom_le = omega arith;
    stands = tt;
    top_le = le;
    fits = omega (arith, small);
    thieves = λ i. tt;
    balance = λ v. omega arith;
  }

  -- The nodes that are still there.
  abbrev pub left : State → List ℕ
  left s = items max_size s.buffer s.top (limit s.owner s.bottom - s.top)

  -- What a deque holds and has handed out, after what was put into it.
  pub record IsExact (initial : List ℕ) (s : State) : Type 0 where
    pub once : (v : ℕ) → count v s.taken + count v (left s) ≡ count v initial + count v s.pushed
    pub fits : limit s.owner s.bottom ≤ s.top + max_size

  -- From a deque at rest that holds items at the indices `lo` to `hi`, at most as many as it has
  -- slots, after any interleaving of the owner's `Push`, `TryPop` and `TakeHalf` with any number of
  -- thieves' `Steal`, access by access (sequentially consistent): each node was handed out or is
  -- still there, together as often as it was there or was put in, so none is handed out twice or
  -- lost; and the items that are there fit into the buffer.
  pub Reach-IsExact :
      (buffer : ℕ → ℕ) (lo hi : ℕ) {s : State}
      → lo ≤ hi
      → hi ≤ lo + max_size
      → Reach max_size (at_rest buffer lo hi) s
      → IsExact (items max_size buffer lo (hi - lo)) s
  Reach-IsExact buffer lo hi {s} le small r =
      let (l, h) = Reach-Inv r (at_rest-Inv buffer lo hi le small) in
      record {
        once = λ v.
            ap (λ n. count v s.taken + count v (items max_size s.buffer s.top (n - s.top)))
              h.is_limit
            ∙ h.balance v;
        fits = omega (arith, h.is_limit, h.fits);
      }
