-- ===== src/Timer/Cancel.antt =====
-- `CancelTimer` (timer_keeper.hpp) and the passes after it.
use my_async_lib.Base.{
  ℕ, zero, suc, ◌<◌, ◌≡◌, ◌≢◌, refl, true, List, [], ◌∷◌, arith, inl, inr, count, get_or, length,
  ap, ◌∙◌, ==_of_ne, false, ◌==◌, if◌then◌else◌, Bool-cases,
}
use my_async_lib.Timer.{
  Entry, Keeper, bucket, has, cancel_entry, cancel_in, cancel_all, cancel_timer, run_pass,
}
use my_async_lib.Timer.Sweep.{In, IsDue}
use my_async_lib.Timer.Ticks.{IsWheel}
use my_async_lib.Timer.Dispatch.{run_pass_sound}

-- What a cancellation marks is canceled, so a live entry stood there before and has another id.
cancel_entry-live :
    (id : ℕ) (e x : Entry) → e ≡ cancel_entry id x → e.canceled ≡ false → (e ≡ x) × (e.id ≢ id)
cancel_entry-live id e x same live = elim (Bool-cases (x.id == id)) [
  | inl t ↦ absurd (ground (arith, same, t, live))
  | inr f ↦
      let kept : e ≡ x = same ∙ ap (λ b. if b then record x { canceled = true } else x) f in
      (kept, λ i. ground (arith, f, i, ap (λ (y : Entry). y.id) kept))
]

cancel_in-live :
    (id : ℕ) (e : Entry) (es : List Entry)
    → In e (cancel_in id es)
    → e.canceled ≡ false
    → In e es × (e.id ≢ id)
cancel_in-live id e [] h live = absurd h
cancel_in-live id e (x ∷ es) (inl same) live =
    let (kept, other) = cancel_entry-live id e x same live in (inl kept, other)
cancel_in-live id e (x ∷ es) (inr there) live =
    let (kept, other) = cancel_in-live id e es there live in (inr kept, other)

cancel_all-live :
    (id slot : ℕ) (e : Entry) (bs : List (List Entry))
    → In e (get_or (cancel_all id bs) slot [])
    → e.canceled ≡ false
    → In e (get_or bs slot []) × (e.id ≢ id)
cancel_all-live id slot e [] h live = absurd h
cancel_all-live id zero e (es ∷ bs) h live = cancel_in-live id e es h live
cancel_all-live id (suc slot) e (es ∷ bs) h live = cancel_all-live id slot e bs h live

pub length-cancel_all : (id : ℕ) (bs : List (List Entry)) → length (cancel_all id bs) ≡ length bs
length-cancel_all id [] = refl
length-cancel_all id (es ∷ bs) = ap suc (length-cancel_all id bs)

-- After `CancelTimer` of an id that is not 0 and that the map holds, each task that a pass of `Run`
-- hands over belongs to an entry that stood in the wheel before the cancellation, that is due, and
-- that has another id.
pub cancel_timer-silent :
    (k : Keeper) (id now a : ℕ)
    → IsWheel k
    → id ≢ 0
    → has id k.task_map ≡ true
    → 0 < count a (run_pass now (cancel_timer k id)).expired
    → (slot : ℕ) × (e : Entry) × In e (bucket k slot)
      × (e.task_node ≡ a)
      × IsDue now e
      × (e.id ≢ id)
unfolding cancel_timer
cancel_timer-silent k id now a w ne held h = other (rw (==_of_ne id 0 ne, held) at h)
  where
    k' : Keeper
    k' = record k {
      buckets = cancel_all id k.buckets;
      task_map = my_async_lib.Timer.erase id k.task_map;
    }

    other :
        0 < count a (run_pass now k').expired
        → (slot : ℕ) × (e : Entry) × In e (bucket k slot)
          × (e.task_node ≡ a)
          × IsDue now e
          × (e.id ≢ id)
    other p =
        let (slot, e, at, t, d) = run_pass_sound now a k' (length-cancel_all id k.buckets ∙ w) p in
        let (kept, ne') = cancel_all-live id slot e k.buckets at d.live in
        (slot, e, kept, t, d, ne')
