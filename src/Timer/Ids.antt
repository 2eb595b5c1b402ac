-- ===== src/Timer/Ids.antt =====
-- The ids of the entries in the wheel of timer_keeper.hpp that are alive, and the walk over a bucket.
use my_async_lib.Base.{
  ℕ, zero, suc, ◌+◌, ◌≤◌, ◌<◌, ◌≡◌, List, [], ◌∷◌, ◌++◌, arith, ◌==◌, if◌then◌else◌, count,
  count-append, get_or, set, length,
}
use my_async_lib.Timer.{Entry, Walk, erase, cancel_in, cancel_all, visit, sweep}

-- The ids of the entries that are not canceled.
abbrev pub ids : List Entry → List ℕ
ids [] = []
ids (e ∷ es) = let rest = ids es in if e.canceled then rest else e.id ∷ rest

abbrev pub all_ids : List (List Entry) → List ℕ
all_ids [] = []
all_ids (es ∷ bs) = ids es ++ all_ids bs

pub count-erase :
    (j id : ℕ) (xs : List ℕ) → count j (erase id xs) ≡ (if j == id then 0 else count j xs)
count-erase j id [] = ground arith
count-erase j id (x ∷ xs) = ground (arith, count-erase j id xs)

count-cancel_in :
    (j id : ℕ) (es : List Entry)
    → count j (ids (cancel_in id es)) ≡ (if j == id then 0 else count j (ids es))
count-cancel_in j id [] = ground arith
count-cancel_in j id (e ∷ es) = ground (arith, count-cancel_in j id es)

pub count-cancel_all :
    (j id : ℕ) (bs : List (List Entry))
    → count j (all_ids (cancel_all id bs)) ≡ (if j == id then 0 else count j (all_ids bs))
count-cancel_all j id [] = ground arith
count-cancel_all j id (es ∷ bs) = ground (
  arith,
  count-cancel_in j id es,
  count-cancel_all j id bs,
  count-append j (ids (cancel_in id es)) (all_ids (cancel_all id bs)),
  count-append j (ids es) (all_ids bs),
)

pub all_ids-set :
    (j : ℕ) (bs : List (List Entry)) (i : ℕ) (es : List Entry)
    → i < length bs
    → count j (all_ids (set bs i es)) + count j (ids (get_or bs i []))
      ≡ count j (all_ids bs) + count j (ids es)
all_ids-set j [] i es h = absurd (omega arith)
all_ids-set j (b ∷ bs) zero es h =
    omega (arith, count-append j (ids b) (all_ids bs), count-append j (ids es) (all_ids bs))
all_ids-set j (b ∷ bs) (suc i) es h = omega (
  arith,
  all_ids-set j bs i es (omega arith),
  count-append j (ids b) (all_ids bs),
  count-append j (ids b) (all_ids (set bs i es)),
)

-- In the course of a walk: the map holds the ids of what stays, of what is to be walked, and of
-- `others`, and no more of them than before.
abbrev pub Mapped : (ℕ → ℕ) → (ℕ → ℕ) → Walk → List Entry → Type 0
Mapped others before w es =
    (j : ℕ)
    → (count j w.task_map ≡ count j (ids w.remaining) + count j (ids es) + others j)
      × (count j w.task_map ≤ before j)

module _ (now : ℕ) (others before : ℕ → ℕ) (once : (j : ℕ) → before j ≤ 1) where
  visit-Mapped :
      (w : Walk) (e : Entry) (es : List Entry)
      → Mapped others before w (e ∷ es)
      → Mapped others before (visit now w e) es
  unfolding visit
  visit-Mapped w e es h j = ground (arith, h j, h e.id, once e.id, count-erase j e.id w.task_map)

  pub sweep-Mapped :
      (w : Walk) (es : List Entry)
      → Mapped others before w es
      → Mapped others before (sweep now w es) []
  unfolding sweep
  sweep-Mapped w [] h = h
  sweep-Mapped w (e ∷ es) h = sweep-Mapped (visit now w e) es (visit-Mapped w e es h)
