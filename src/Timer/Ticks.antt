-- ===== src/Timer/Ticks.antt =====
-- The ticks of a pass of `Run`, one bucket each.
use my_async_lib.Base.{
  ℕ, zero, suc, ◌+◌, ◌%◌, ◌≤◌, ◌<◌, ◌≡◌, ◌≢◌, refl, sym, ap, ◌∙◌, subst, [], arith, ◌⊎◌, inl, inr,
  count, length, get_or-set_self, get_or-set_ne, ℕ_discrete, length-set,
}
use my_async_lib.Timer.{
  Entry, Keeper, Walk, Pass, bucket, wheel_slots, sweep, process_tick, process_ticks,
}
use my_async_lib.Timer.Sweep.{
  In, IsDue, IsWaiting, sweep-expired_mono, sweep-due, sweep-waiting, sweep_sound,
  sweep-remaining_sound,
}

-- The wheel has all its slots.
abbrev pub IsWheel : Keeper → Type 0
IsWheel k = length k.buckets ≡ wheel_slots

-- A tick whose bucket is walked over, for a wheel that has come to `last`.
abbrev slot_of : Pass → ℕ
slot_of p = p.keeper.last_tick % wheel_slots

abbrev start : Pass → Walk
start p = record {
  task_map = p.keeper.task_map;
  expired = p.expired;
  remaining = [];
  deleted = p.deleted;
}

module _ (now : ℕ) where
  abbrev walk : Pass → Walk
  walk p = sweep now (start p) (bucket p.keeper (slot_of p))

  pub process_tick-IsWheel : (p : Pass) → IsWheel p.keeper → IsWheel (process_tick now p).keeper
  unfolding process_tick
  process_tick-IsWheel p w = length-set p.keeper.buckets _ _ ∙ w

  process_tick-here :
      (p : Pass)
      → IsWheel p.keeper
      → bucket (process_tick now p).keeper (slot_of p) ≡ (walk p).remaining
  unfolding process_tick
  process_tick-here p w = get_or-set_self p.keeper.buckets (slot_of p) _ [] (omega (arith, w))

  process_tick-other :
      (p : Pass) (slot : ℕ)
      → slot_of p ≢ slot
      → bucket (process_tick now p).keeper slot ≡ bucket p.keeper slot
  unfolding process_tick
  process_tick-other p slot ne = get_or-set_ne p.keeper.buckets _ slot _ [] ne

  process_tick-expired : (p : Pass) → (process_tick now p).expired ≡ (walk p).expired
  unfolding process_tick
  process_tick-expired p = refl

  -- An entry that waits is still there after any tick.
  process_tick-waiting :
      (e : Entry) (p : Pass) (slot : ℕ)
      → IsWheel p.keeper
      → In e (bucket p.keeper slot)
      → IsWaiting now e
      → In e (bucket (process_tick now p).keeper slot)
  process_tick-waiting e p slot w h d = elim (ℕ_discrete (slot_of p) slot) [
    | yes same ↦
        subst (λ j. In e (bucket (process_tick now p).keeper j)) same
          (subst (In e) (sym (process_tick-here p w)) (
            sweep-waiting now e _ (bucket p.keeper (slot_of p))
              (subst (λ j. In e (bucket p.keeper j)) (sym same) h) d))
    | no other ↦ subst (In e) (sym (process_tick-other p slot other)) h
  ]

  pub process_ticks-IsWheel :
      (rounds : ℕ) (p : Pass) → IsWheel p.keeper → IsWheel (process_ticks rounds now p).keeper
  unfolding process_ticks
  process_ticks-IsWheel zero p w = w
  process_ticks-IsWheel (suc rounds) p w =
      process_ticks-IsWheel rounds (process_tick now p) (process_tick-IsWheel p w)

  pub process_ticks-waiting :
      (rounds : ℕ) (e : Entry) (p : Pass) (slot : ℕ)
      → IsWheel p.keeper
      → In e (bucket p.keeper slot)
      → IsWaiting now e
      → In e (bucket (process_ticks rounds now p).keeper slot)
  unfolding process_ticks
  process_ticks-waiting zero e p slot w h d = h
  process_ticks-waiting (suc rounds) e p slot w h d =
      process_ticks-waiting rounds e (process_tick now p) slot (process_tick-IsWheel p w)
        (process_tick-waiting e p slot w h d) d

  pub process_ticks-last_tick :
      (rounds : ℕ) (p : Pass)
      → (process_ticks rounds now p).keeper.last_tick ≡ p.keeper.last_tick + rounds
  unfolding process_ticks process_tick
  process_ticks-last_tick zero p = omega arith
  process_ticks-last_tick (suc rounds) p =
      omega (arith, process_ticks-last_tick rounds (process_tick now p))

  process_tick-last_tick :
      (p : Pass) → (process_tick now p).keeper.last_tick ≡ suc p.keeper.last_tick
  unfolding process_tick
  process_tick-last_tick p = omega arith

  -- A bucket that no tick of the pass comes to is left alone.
  pub process_ticks-untouched :
      (rounds : ℕ) (p : Pass) (slot : ℕ)
      → ((j : ℕ)
          → p.keeper.last_tick ≤ j
          → j < p.keeper.last_tick + rounds
          → j % wheel_slots ≢ slot)
      → bucket (process_ticks rounds now p).keeper slot ≡ bucket p.keeper slot
  unfolding process_ticks
  process_ticks-untouched zero p slot away = refl
  process_ticks-untouched (suc rounds) p slot away =
      process_ticks-untouched rounds (process_tick now p) slot (λ j low high.
        away j (omega (arith, process_tick-last_tick p)) (omega (arith, process_tick-last_tick p)))
      ∙ process_tick-other p slot (away p.keeper.last_tick (omega arith) (omega arith))

  process_ticks-expired_mono :
      (rounds a : ℕ) (p : Pass) → count a p.expired ≤ count a (process_ticks rounds now p).expired
  unfolding process_ticks
  process_ticks-expired_mono zero a p = omega arith
  process_ticks-expired_mono (suc rounds) a p = omega (
    arith,
    sweep-expired_mono now a (start p) (bucket p.keeper (slot_of p)),
    ap (count a) (process_tick-expired p),
    process_ticks-expired_mono rounds a (process_tick now p),
  )

  -- A due entry whose slot the pass comes to is dispatched.
  pub process_ticks-due :
      (rounds : ℕ) (e : Entry) (p : Pass) (j : ℕ)
      → p.keeper.last_tick ≤ j
      → j < p.keeper.last_tick + rounds
      → In e (bucket p.keeper (j % wheel_slots))
      → IsDue now e
      → e.task_node ≢ 0
      → 0 < count e.task_node (process_ticks rounds now p).expired
  unfolding process_ticks
  process_ticks-due zero e p j low high h d ne = absurd (omega arith)
  process_ticks-due (suc rounds) e p j low high h d ne =
      elim (ℕ_discrete (slot_of p) (j % wheel_slots)) [
        | yes same ↦
            let found =
              sweep-due now e (start p) (bucket p.keeper (slot_of p))
                (subst (λ i. In e (bucket p.keeper i)) (sym same) h) d ne in
            omega (
              arith,
              found,
              ap (count e.task_node) (process_tick-expired p),
              process_ticks-expired_mono rounds e.task_node (process_tick now p),
            )
        | no other ↦
            process_ticks-due rounds e (process_tick now p) j
              (omega (
                arith,
                process_tick-last_tick p,
                λ (q : p.keeper.last_tick ≡ j). other (ap (λ i. i % wheel_slots) q),
              ))
              (omega (arith, process_tick-last_tick p))
              (subst (In e) (sym (process_tick-other p (j % wheel_slots) other)) h) d ne
      ]

  process_tick-back :
      (e : Entry) (p : Pass) (slot : ℕ)
      → IsWheel p.keeper
      → In e (bucket (process_tick now p).keeper slot)
      → In e (bucket p.keeper slot)
  process_tick-back e p slot w h = elim (ℕ_discrete (slot_of p) slot) [
    | yes same ↦
        subst (λ j. In e (bucket p.keeper j)) same
          (from_bucket (
            sweep-remaining_sound now e (start p) (bucket p.keeper (slot_of p)) (
              subst (In e) (process_tick-here p w)
                (subst (λ j. In e (bucket (process_tick now p).keeper j)) (sym same) h))))
    | no other ↦ subst (In e) (process_tick-other p slot other) h
  ]
    where
      from_bucket : (⊥ ⊎ In e (bucket p.keeper (slot_of p))) → In e (bucket p.keeper (slot_of p))
      from_bucket (inl nothing) = absurd nothing
      from_bucket (inr old) = old

  -- What the ticks dispatch belongs to due entries of the wheel.
  pub process_ticks_sound :
      (rounds a : ℕ) (p : Pass)
      → IsWheel p.keeper
      → 0 < count a (process_ticks rounds now p).expired
      → (0 < count a p.expired)
        ⊎ ((slot : ℕ) × (e : Entry) × In e (bucket p.keeper slot) × (e.task_node ≡ a) × IsDue now e)
  unfolding process_ticks
  process_ticks_sound zero a p w h = inl h
  process_ticks_sound (suc rounds) a p w h =
      elim (process_ticks_sound rounds a (process_tick now p) (process_tick-IsWheel p w) h) [
        | inl before ↦
            elim (sweep_sound now a (start p) (bucket p.keeper (slot_of p))
              (subst (λ xs. 0 < count a xs) (process_tick-expired p) before)) [
                | inl old ↦ inl old
                | inr (e, at, t, d) ↦ inr (slot_of p, e, at, t, d)
              ]
        | inr (slot, e, at, t, d) ↦ inr (slot, e, process_tick-back e p slot w at, t, d)
      ]
