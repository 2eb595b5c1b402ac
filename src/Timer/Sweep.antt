-- ===== src/Timer/Sweep.antt =====
-- One walk over a bucket.
use my_async_lib.Base.{
  ℕ, ◌≤◌, ◌<◌, ◌≡◌, ◌≢◌, refl, subst, false, List, [], ◌∷◌, arith, ◌⊎◌, inl, inr, count,
}
use my_async_lib.Timer.{Entry, Walk, visit, sweep}

-- The entry stands in the list.
abbrev pub In : Entry → List Entry → Type 0
In e [] = ⊥
In e (x ∷ xs) = (e ≡ x) ⊎ In e xs

-- The entry is to be run at time `now`.
pub record IsDue (now : ℕ) (e : Entry) : Type 0 where
  pub live : e.canceled ≡ false
  pub passed : e.expire_at ≤ now

-- It is to wait.
pub record IsWaiting (now : ℕ) (e : Entry) : Type 0 where
  pub live : e.canceled ≡ false
  pub future : now < e.expire_at

module _ (now : ℕ) where
  visit-expired_mono :
      (a : ℕ) (w : Walk) (e : Entry) → count a w.expired ≤ count a (visit now w e).expired
  unfolding visit
  visit-expired_mono a w e = ground arith

  visit-remaining_mono :
      (e : Entry) (w : Walk) (x : Entry) → In e w.remaining → In e (visit now w x).remaining
  unfolding visit
  visit-remaining_mono e w x h = ground arith

  visit-due :
      (w : Walk) (e : Entry)
      → IsDue now e
      → e.task_node ≢ 0
      → 0 < count e.task_node (visit now w e).expired
  unfolding visit
  visit-due w e d ne = ground arith

  visit-waiting : (w : Walk) (e : Entry) → IsWaiting now e → In e (visit now w e).remaining
  unfolding visit
  visit-waiting w e d = ground arith

  -- What a visit adds to the expired tasks is the task of a due entry.
  visit_sound :
      (a : ℕ) (w : Walk) (e : Entry)
      → 0 < count a (visit now w e).expired
      → (0 < count a w.expired) ⊎ ((e.task_node ≡ a) × IsDue now e)
  unfolding visit
  visit_sound a w e h = ground arith

  pub sweep-expired_mono :
      (a : ℕ) (w : Walk) (es : List Entry) → count a w.expired ≤ count a (sweep now w es).expired
  unfolding sweep
  sweep-expired_mono a w [] = omega arith
  sweep-expired_mono a w (e ∷ es) =
      omega (arith, visit-expired_mono a w e, sweep-expired_mono a (visit now w e) es)

  sweep-remaining_mono :
      (e : Entry) (w : Walk) (es : List Entry) → In e w.remaining → In e (sweep now w es).remaining
  unfolding sweep
  sweep-remaining_mono e w [] h = h
  sweep-remaining_mono e w (x ∷ es) h =
      sweep-remaining_mono e (visit now w x) es (visit-remaining_mono e w x h)

  -- Every due entry of the bucket hands its task over.
  pub sweep-due :
      (e : Entry) (w : Walk) (es : List Entry)
      → In e es
      → IsDue now e
      → e.task_node ≢ 0
      → 0 < count e.task_node (sweep now w es).expired
  unfolding sweep
  sweep-due e w [] h d ne = absurd h
  sweep-due e w (x ∷ es) (inl here) d ne = omega (
    arith,
    sweep-expired_mono e.task_node (visit now w x) es,
    subst (λ y. 0 < count e.task_node (visit now w y).expired) here (visit-due w e d ne),
  )
  sweep-due e w (x ∷ es) (inr there) d ne = sweep-due e (visit now w x) es there d ne

  -- Every waiting entry stays in the bucket.
  pub sweep-waiting :
      (e : Entry) (w : Walk) (es : List Entry)
      → In e es
      → IsWaiting now e
      → In e (sweep now w es).remaining
  unfolding sweep
  sweep-waiting e w [] h d = absurd h
  sweep-waiting e w (x ∷ es) (inl here) d =
      sweep-remaining_mono e (visit now w x) es
        (subst (λ y. In e (visit now w y).remaining) here (visit-waiting w e d))
  sweep-waiting e w (x ∷ es) (inr there) d = sweep-waiting e (visit now w x) es there d

  -- A task that a walk hands over belongs to a due entry of the bucket, or was handed over before.
  pub sweep_sound :
      (a : ℕ) (w : Walk) (es : List Entry)
      → 0 < count a (sweep now w es).expired
      → (0 < count a w.expired) ⊎ ((e : Entry) × In e es × (e.task_node ≡ a) × IsDue now e)
  unfolding sweep
  sweep_sound a w [] h = inl h
  sweep_sound a w (x ∷ es) h = elim (sweep_sound a (visit now w x) es h) [
    | inl before ↦ elim (visit_sound a w x before) [
      | inl old ↦ inl old
      | inr (t, d) ↦ inr (x, inl refl, t, d)
    ]
    | inr (e, at, t, d) ↦ inr (e, inr at, t, d)
  ]

  visit-remaining_sound :
      (e : Entry) (w : Walk) (x : Entry)
      → In e (visit now w x).remaining
      → In e w.remaining ⊎ (e ≡ x)
  unfolding visit
  visit-remaining_sound e w x h = ground arith

  -- What stays was in the bucket.
  pub sweep-remaining_sound :
      (e : Entry) (w : Walk) (es : List Entry)
      → In e (sweep now w es).remaining
      → In e w.remaining ⊎ In e es
  unfolding sweep
  sweep-remaining_sound e w [] h = inl h
  sweep-remaining_sound e w (x ∷ es) h = elim (sweep-remaining_sound e (visit now w x) es h) [
    | inl kept ↦ elim (visit-remaining_sound e w x kept) [
      | inl old ↦ inl old
      | inr here ↦ inr (inl here)
    ]
    | inr there ↦ inr (inr there)
  ]
