-- ===== src/Spmc/Race.antt =====
-- The deque of include/ant_server/scheduler/spmc_queue.hpp under interleavings: its owner in `Push`,
-- `TryPop` and `TakeHalf`, and thieves in `Steal` and `TakeHalf`, one access at a time to `top_`,
-- `bottom_` or a slot of `buffer_`. Accesses are taken to be sequentially consistent. The owner alone
-- writes slots, so its own reads of them stand with the access before. Indices are positive (the
-- owner's `b` is a number then), and `max_size` is `kMaxSize`.
use my_async_lib.Base.{
  ℕ, zero, suc, ◌+◌, ◌-◌, ◌/◌, ◌%◌, ◌<◌, ◌≤◌, ◌≡◌, ◌≢◌, List, [], ◌∷◌, ◌++◌, ◌==◌, if◌then◌else◌,
}

-- Where the owner stands: outside; in `Push` of a node with room found, or with the node in its slot;
-- in `TryPop` with its `b`, as it has `stored` it in `bottom_`, is about to exchange `top_` for the
-- node that it read, or is about to put `bottom_` back; or in `TakeHalf` with its `b` and `t`.
pub data Owner : Type 0 where
  idle : Owner
  pushing : ℕ → Owner
  written : ℕ → Owner
  stored : ℕ → Owner
  racing : ℕ → ℕ → Owner
  restoring : ℕ → Owner
  halving : ℕ → ℕ → Owner

-- Where a thief stands: outside; in `Steal` with `t`, with an item at `t`, or with the node that it
-- read there; in `TakeHalf` with `b`, with `b` and `t`, or with the index and the number of the
-- items that it has yet to copy.
pub data Thief : Type 0 where
  outside : Thief
  loaded : ℕ → Thief
  sighted : ℕ → Thief
  ready : ℕ → ℕ → Thief
  half_bottom : ℕ → Thief
  half_ready : ℕ → ℕ → Thief
  half_copying : ℕ → ℕ → Thief

-- `taken` lists the nodes that were handed out, `pushed` those that were put in.
pub record State : Type 0 where
  pub buffer : ℕ → ℕ
  pub top : ℕ
  pub bottom : ℕ
  pub owner : Owner
  pub thieves : ℕ → Thief
  pub taken : List ℕ
  pub pushed : List ℕ

abbrev pub put : (ℕ → Thief) → ℕ → Thief → ℕ → Thief
put thieves i t j = if i == j then t else thieves j

abbrev pub write : (ℕ → ℕ) → ℕ → ℕ → ℕ → ℕ
write buffer i node j = if i == j then node else buffer j

-- The nodes in the slots of the first indices from `t` on.
abbrev pub items : ℕ → (ℕ → ℕ) → ℕ → ℕ → List ℕ
items max_size buffer t zero = []
items max_size buffer t (suc n) = buffer (t % max_size) ∷ items max_size buffer (suc t) n

abbrev pub num_to_take : ℕ → ℕ → ℕ
num_to_take b t = if (b - t) / 2 == 0 then 1 else (b - t) / 2

-- The accesses of `Push`, `TryPop`, `Steal`, and of the owner's `TakeHalf`; what finds the deque full
-- or empty at once does nothing.
pub data Step (max_size : ℕ) : State → State → Type 0 where
  push_room :
      (s : State) (node : ℕ)
      → s.owner ≡ idle
      → s.bottom < s.top + max_size
      → Step max_size s (record s { owner = pushing node })
  push_write :
      (s : State) (node : ℕ)
      → s.owner ≡ pushing node
      → Step max_size s
          (record s { buffer = write s.buffer (s.bottom % max_size) node; owner = written node })
  push_store :
      (s : State) (node : ℕ)
      → s.owner ≡ written node
      → Step max_size s (record s { bottom = suc s.bottom; owner = idle; pushed = node ∷ s.pushed })
  pop_store :
      (s : State) (b : ℕ)
      → s.owner ≡ idle
      → s.bottom ≡ suc b
      → Step max_size s (record s { bottom = b; owner = stored b })
  pop_many :
      (s : State) (b : ℕ)
      → s.owner ≡ stored b
      → s.top < b
      → Step max_size s (record s { owner = idle; taken = s.buffer (b % max_size) ∷ s.taken })
  pop_one :
      (s : State) (b : ℕ)
      → s.owner ≡ stored b
      → s.top ≡ b
      → Step max_size s (record s { owner = racing b (s.buffer (b % max_size)) })
  pop_none :
      (s : State) (b : ℕ)
      → s.owner ≡ stored b
      → b < s.top
      → Step max_size s (record s { owner = restoring b })
  pop_wins :
      (s : State) (b node : ℕ)
      → s.owner ≡ racing b node
      → s.top ≡ b
      → Step max_size s (record s { top = suc b; owner = restoring b; taken = node ∷ s.taken })
  pop_loses :
      (s : State) (b node : ℕ)
      → s.owner ≡ racing b node
      → s.top ≢ b
      → Step max_size s (record s { owner = restoring b })
  pop_restore :
      (s : State) (b : ℕ)
      → s.owner ≡ restoring b
      → Step max_size s (record s { bottom = suc b; owner = idle })
  own_half_load :
      (s : State)
      → s.owner ≡ idle
      → s.top < s.bottom
      → Step max_size s (record s { owner = halving s.bottom s.top })
  own_half_wins :
      (s : State) (b t : ℕ)
      → s.owner ≡ halving b t
      → s.top ≡ t
      → Step max_size s (record s {
        top = t + num_to_take b t;
        owner = idle;
        taken = items max_size s.buffer t (num_to_take b t) ++ s.taken;
      })
  own_half_loses :
      (s : State) (b t : ℕ)
      → s.owner ≡ halving b t
      → s.top ≢ t
      → Step max_size s (record s { owner = idle })
  steal_top :
      (s : State) (i : ℕ)
      → s.thieves i ≡ outside
      → Step max_size s (record s { thieves = put s.thieves i (loaded s.top) })
  steal_bottom :
      (s : State) (i t : ℕ)
      → s.thieves i ≡ loaded t
      → t < s.bottom
      → Step max_size s (record s { thieves = put s.thieves i (sighted t) })
  steal_none :
      (s : State) (i t : ℕ)
      → s.thieves i ≡ loaded t
      → s.bottom ≤ t
      → Step max_size s (record s { thieves = put s.thieves i outside })
  steal_read :
      (s : State) (i t : ℕ)
      → s.thieves i ≡ sighted t
      → Step max_size s (record s { thieves = put s.thieves i (ready t (s.buffer (t % max_size))) })
  steal_wins :
      (s : State) (i t node : ℕ)
      → s.thieves i ≡ ready t node
      → s.top ≡ t
      → Step max_size s
          (record s { top = suc t; thieves = put s.thieves i outside; taken = node ∷ s.taken })
  -- also where the weak exchange fails for no reason
  steal_loses :
      (s : State) (i t node : ℕ)
      → s.thieves i ≡ ready t node
      → Step max_size s (record s { thieves = put s.thieves i outside })

-- The accesses of `TakeHalf`, called by a thief. The items are copied behind the exchange.
pub data HalfStep (max_size : ℕ) : State → State → Type 0 where
  half_load :
      (s : State) (i : ℕ)
      → s.thieves i ≡ outside
      → HalfStep max_size s (record s { thieves = put s.thieves i (half_bottom s.bottom) })
  half_top :
      (s : State) (i b : ℕ)
      → s.thieves i ≡ half_bottom b
      → s.top < b
      → HalfStep max_size s (record s { thieves = put s.thieves i (half_ready b s.top) })
  half_none :
      (s : State) (i b : ℕ)
      → s.thieves i ≡ half_bottom b
      → b ≤ s.top
      → HalfStep max_size s (record s { thieves = put s.thieves i outside })
  half_wins :
      (s : State) (i b t : ℕ)
      → s.thieves i ≡ half_ready b t
      → s.top ≡ t
      → HalfStep max_size s (record s {
        top = t + num_to_take b t;
        thieves = put s.thieves i (half_copying t (num_to_take b t));
      })
  half_loses :
      (s : State) (i b t : ℕ)
      → s.thieves i ≡ half_ready b t
      → s.top ≢ t
      → HalfStep max_size s (record s { thieves = put s.thieves i outside })
  half_copy :
      (s : State) (i t n : ℕ)
      → s.thieves i ≡ half_copying t (suc n)
      → HalfStep max_size s (record s {
        thieves = put s.thieves i (half_copying (suc t) n);
        taken = s.buffer (t % max_size) ∷ s.taken;
      })
  half_returns :
      (s : State) (i t : ℕ)
      → s.thieves i ≡ half_copying t 0
      → HalfStep max_size s (record s { thieves = put s.thieves i outside })

-- Any number of accesses, without and with those of a thief's `TakeHalf`.
pub data Reach (max_size : ℕ) (s : State) : State → Type 0 where
  here : Reach max_size s s
  next : {t u : State} → Reach max_size s t → Step max_size t u → Reach max_size s u

pub data ReachHalf (max_size : ℕ) (s : State) : State → Type 0 where
  start : ReachHalf max_size s s
  one : {t u : State} → ReachHalf max_size s t → Step max_size t u → ReachHalf max_size s u
  half : {t u : State} → ReachHalf max_size s t → HalfStep max_size t u → ReachHalf max_size s u

-- A deque with items at the indices from `lo` up to `hi`, and nobody in an operation.
abbrev pub at_rest : (ℕ → ℕ) → ℕ → ℕ → State
at_rest buffer lo hi = record {
  buffer = buffer;
  top = lo;
  bottom = hi;
  owner = idle;
  thieves = λ i. outside;
  taken = [];
  pushed = [];
}
