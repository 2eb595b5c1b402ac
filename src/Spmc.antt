-- ===== src/Spmc.antt =====
-- include/ant_server/scheduler/spmc_queue.hpp: the Chase-Lev deque, each operation run alone.
-- The elements are task pointers, `nullptr` is 0. `bottom_` and `top_` are int64_t, which 2 ^ 63
-- operations do not exhaust, so they are integers here. `& kMask` with `kMaxSize` a power of two is
-- `% max_size` on an index that is not negative.

pub mod Race
pub mod Items
pub mod Knows
pub mod Standing
pub mod Accesses
pub mod Exclusion
pub mod Double
pub mod Overwrite
pub mod Window
pub mod Refine
use Prim.Native.Nat.{bit_and}
use my_async_lib.Base.{
  ℕ, ◌+◌, ◌-◌, ◌/◌, ◌%◌, ◌^◌, ◌≡◌, Bool, true, false, not, ◌&&◌, List, [], ◌∷◌, ltb, leb, ◌==◌,
  if◌then◌else◌, ℤ, pos, negsuc, ◌+ℤ◌, ◌-ℤ◌, ltb_ℤ, leb_ℤ, eqb_ℤ, get_or, set, replicate, zero, suc,
  pos_part,
}

-- `SPMCQueue<TaskNode*, kMaxSize>`
pub record Spmc : Type 0 where
  pub buffer : List ℕ
  pub bottom : ℤ
  pub top : ℤ

-- The compiler's test of the capacity
abbrev pub is_power_of_2 : ℕ → Bool
is_power_of_2 max_size = bit_and max_size (max_size - 1) == 0

-- `b & kMask`, of a 64-bit pattern.
abbrev pub slot : ℕ → ℤ → ℕ
slot max_size (pos n) = n % max_size
slot max_size (negsuc n) = (2 ^ 64 - (n + 1)) % max_size

-- `compare_exchange_strong`: the new value of the cell, and whether it was exchanged.
abbrev pub compare_exchange : ℤ → ℤ → ℤ → ℤ × Bool
compare_exchange cell expected desired =
    if eqb_ℤ cell expected then (desired, true) else (cell, false)

-- `int64_t size / 2` rounds toward zero; it is taken of positive sizes only.
abbrev pub half : ℤ → ℕ
half size = pos_part size / 2

module _ (max_size : ℕ) where
  unfoldable pub new : Spmc
  new = record { buffer = replicate max_size 0; bottom = pos 0; top = pos 0 }

  unfoldable pub push : Spmc → ℕ → Spmc × Bool
  push q node =
      if ltb_ℤ (q.bottom -ℤ q.top) (pos max_size)
      then (
        record q {
          buffer = set q.buffer (slot max_size q.bottom) node;
          bottom = q.bottom +ℤ pos 1;
        },
        true,
      )
      else (q, false)

  -- The last item: the owner takes it by an exchange of `top_`.
  unfoldable pub pop_last : Spmc → ℤ → ℕ → Spmc × ℕ
  pop_last q b task =
      let (top, won) = compare_exchange q.top b (b +ℤ pos 1) in
      (record q { bottom = b +ℤ pos 1; top = top }, if won then task else 0)

  unfoldable pub try_pop : Spmc → Spmc × ℕ
  unfolding pop_last
  try_pop q =
      let b = q.bottom -ℤ pos 1 in
      if leb_ℤ q.top b
      then (if eqb_ℤ q.top b
          then pop_last q b (get_or q.buffer (slot max_size b) 0)
          else (record q { bottom = b }, get_or q.buffer (slot max_size b) 0))
      else (record q { bottom = b +ℤ pos 1 }, 0)

  -- The weak exchange may fail for no reason: `spurious`.
  unfoldable pub steal : Bool → Spmc → Spmc × ℕ
  steal spurious q =
      if ltb_ℤ q.top q.bottom
      then (let (top, won) = compare_exchange q.top q.top (q.top +ℤ pos 1) in
          if won && not spurious
          then (record q { top = top }, get_or q.buffer (slot max_size q.top) 0)
          else (q, 0))
      else (q, 0)

  -- `out_batch[i] = buffer_[(t + i) & kMask]` for `i` below the count.
  unfoldable pub copy_from : List ℕ → ℤ → ℕ → List ℕ
  copy_from buffer t zero = []
  copy_from buffer t (suc n) = get_or buffer (slot max_size t) 0 ∷ copy_from buffer (t +ℤ pos 1) n

  abbrev pub num_to_take : ℤ → ℕ
  num_to_take size = if half size == 0 then 1 else half size

  -- The filled part of `out_batch`; its length is the count returned.
  unfoldable pub take_half : Spmc → Spmc × List ℕ
  unfolding copy_from
  take_half q =
      let size = q.bottom -ℤ q.top in
      if leb_ℤ size (pos 0)
      then (q, [])
      else (let (top, won) = compare_exchange q.top q.top (q.top +ℤ pos (num_to_take size)) in
          if won
          then (record q { top = top }, copy_from q.buffer q.top (num_to_take size))
          else (q, []))

unfoldable pub size : Spmc → ℕ
size q = let sz = q.bottom -ℤ q.top in if ltb_ℤ (pos 0) sz then pos_part sz else 0

unfoldable pub empty : Spmc → Bool
unfolding size
empty q = size q == 0
