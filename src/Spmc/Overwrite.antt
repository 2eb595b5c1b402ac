-- ===== src/Spmc/Overwrite.antt =====
-- `TakeHalf` of spmc_queue.hpp, called by a thief while the owner pushes: the thief copies the items
-- when it has moved the top past them.
use my_async_lib.Base.{
  ℕ, zero, suc, ◌+◌, ◌-◌, ◌%◌, ◌<◌, ◌≡◌, refl, ap, List, ◌∷◌, count, unit_at, arith,
}
use native.Mathlib.Nat.{add-mod_right}
use my_async_lib.Spmc.Race.{
  State, Thief, num_to_take, ReachHalf, start, one, half, at_rest, push_room, push_write,
  push_store, half_load, half_top, half_wins, half_copy, half_returns, half_copying, outside, idle,
  items, put, write,
}
use my_async_lib.Spmc.Items.{
  items-front, items-first, items-last, items-write, write-same, num_to_take_le, num_to_take_pos,
}
use my_async_lib.Spmc.Exclusion.{left}

module _ (max_size : ℕ) where
  -- A thief copies `n` items and returns: with the nodes that are in their slots now.
  abbrev Copied : State → ℕ → ℕ → State → List ℕ × (ℕ → Thief) → Type 0
  Copied s t n r (taken, thieves) =
      ReachHalf max_size r (record s { taken = taken; thieves = thieves })
      × (thieves 0 ≡ outside)
      × ((v : ℕ) → count v taken ≡ count v (items max_size s.buffer t n) + count v s.taken)

  copies :
      (r s : State) (t n : ℕ)
      → ReachHalf max_size r s
      → s.thieves 0 ≡ half_copying t n
      → (out : List ℕ × (ℕ → Thief)) × Copied s t n r out
  copies r s t zero reached e = (
    (s.taken, put s.thieves 0 outside),
    (half reached (half_returns s 0 t e), refl, λ v. omega arith),
  )
  copies r s t (suc n) reached e =
      let (out, (reached', back, same)) =
        copies r
          (record s {
            thieves = put s.thieves 0 (half_copying (suc t) n);
            taken = s.buffer (t % max_size) ∷ s.taken;
          })
          (suc t) n (half reached (half_copy s 0 t n e)) refl in
      (out, (reached', back, λ v. omega (arith, same v)))

  turned : (lo : ℕ) → (lo + max_size) % max_size ≡ lo % max_size
  turned lo = add-mod_right lo max_size

  -- The window of a full deque and one slot more, of which the oldest slot is written.
  count-overwritten :
      (buffer : ℕ → ℕ) (lo node v : ℕ)
      → 0 < max_size
      → count v (
            items max_size
              (write buffer ((lo + max_size) % max_size) node)
              lo
              (suc (lo + max_size) - lo))
          + unit_at v (buffer (lo % max_size))
        ≡ count v (items max_size buffer lo (lo + max_size - lo))
          + (unit_at v node + unit_at v node)
  count-overwritten buffer lo node v some_size =
      let slot = (lo + max_size) % max_size in
      let f = write buffer slot node in
      let last = items-last max_size f v lo (lo + max_size) (omega arith) in
      let first = items-first max_size f v lo (lo + max_size) (omega (arith, some_size)) in
      let before = items-first max_size buffer v lo (lo + max_size) (omega (arith, some_size)) in
      let written = ap (unit_at v) (write-same max_size buffer slot node) in
      let oldest = ap (λ i. unit_at v (f i)) (turned lo) in
      let e : suc lo + (max_size - 1) ≡ lo + max_size = omega (arith, some_size) in
      let m : max_size - 1 ≡ lo + max_size - suc lo = omega (arith, some_size) in
      let kept =
        items-write max_size buffer node (suc lo) (max_size - 1) (max_size - 1) (omega arith)
          (omega (arith, some_size)) in
      let rest =
        ap
          (λ j. count v (items max_size (write buffer (j % max_size) node) (suc lo) (max_size - 1)))
          e in
      let size = ap (λ j. count v (items max_size f (suc lo) j)) m in
      let size' = ap (λ j. count v (items max_size buffer (suc lo) j)) m in
      omega (arith, last, first, before, written, oldest, ap (count v) kept, rest, size, size')

  -- After accesses that push `node` alone, with the owner and the thief back from their calls: the nodes that were handed out and that are left are those
  -- that were there, but `lost`, and `node` twice.
  abbrev pub Overwritten : List ℕ → ℕ → ℕ → State → State → Type 0
  Overwritten initial lost node s t =
      ReachHalf max_size s t
      × (t.owner ≡ idle)
      × (t.thieves 0 ≡ outside)
      × (t.pushed ≡ node ∷ s.pushed)
      × ((v : ℕ)
          → count v t.taken + count v (left max_size t) + unit_at v lost
            ≡ count v initial + (unit_at v node + unit_at v node))

  -- With `TakeHalf` called by a thief, on any full deque that has a slot, there is an interleaving
  -- with one `Push` of the owner after which both are back, and the nodes that were handed out or
  -- are still there are those that were there at first, without the oldest, and the pushed one
  -- twice: the thief copies a slot that the owner has written again.
  pub half-Overwritten :
      (buffer : ℕ → ℕ) (lo node : ℕ)
      → 0 < max_size
      → (s : State) × Overwritten
          (items max_size buffer lo (lo + max_size - lo))
          (buffer (lo % max_size))
          node
          (at_rest buffer lo (lo + max_size))
          s
  half-Overwritten buffer lo node some_size =
      let b = lo + max_size in
      let n = num_to_take b lo in
      let f = write buffer (b % max_size) node in
      let full = at_rest buffer lo b in
      let some_taken = num_to_take_pos b lo in
      let fits = num_to_take_le b lo (omega (arith, some_size)) in
      let bottom_read = half start (half_load full 0 refl) in
      let chosen = half bottom_read (half_top _ 0 b refl (omega (arith, some_size))) in
      let won = half chosen (half_wins _ 0 b lo refl refl) in
      let room = one won (push_room _ node refl (omega (arith, some_taken))) in
      let pushed = one (one room (push_write _ node refl)) (push_store _ node refl) in
      let (out, (reached, back, same)) = copies full _ lo n pushed refl in
      (
        _,
        (
          reached,
          refl,
          back,
          refl,
          λ v. omega (
            arith,
            same v,
            count-overwritten buffer lo node v some_size,
            items-front max_size f v lo n (suc b) (omega (arith, fits)),
          ),
        ),
      )
