-- ===== src/Spmc/Knows.antt =====
-- Where the owner and the thieves of the deque (spmc_queue.hpp) stand, and what they know.
use my_async_lib.Base.{
  ℕ, suc, ◌%◌, ◌<◌, ◌≤◌, ◌≡◌, sym, subst, ◌∙◌, ◌==◌, arith, if_ind, ◌⊎◌, inl, inr, Bool-cases, ltb,
}
use my_async_lib.Spmc.Race.{
  Owner, idle, pushing, written, stored, racing, restoring, halving, Thief, outside, loaded,
  sighted, ready, half_bottom, half_ready, half_copying, put,
}

-- The index behind the last item that the owner has not taken.
abbrev pub limit : Owner → ℕ → ℕ
limit idle bottom = bottom
limit (pushing node) bottom = bottom
limit (written node) bottom = bottom
limit (stored b) bottom = suc b
limit (racing b node) bottom = suc b
limit (restoring b) bottom = suc b
limit (halving b t) bottom = bottom

-- Room that the owner has found.
abbrev pub spare : Owner → ℕ
spare idle = 0
spare (pushing node) = 1
spare (written node) = 1
spare (stored b) = 0
spare (racing b node) = 0
spare (restoring b) = 0
spare (halving b t) = 0

-- A thief at `t` has seen a top that was there, and the item is there, or the top is past it.
abbrev pub InSight : ℕ → ℕ → ℕ → Type 0 → Type 0
InSight top l t There = (t ≤ top) × ((t < top) ⊎ ((t < l) × There))

InSight-kept :
    (top l l' t : ℕ) {There There' : Type 0}
    → (top < l → top < l')
    → (top < l → top ≡ t → There → There')
    → InSight top l t There
    → InSight top l' t There'
InSight-kept top l l' t in_window same (le, inl lt) = (le, inl lt)
InSight-kept top l l' t in_window same (le, inr (lt, there)) = elim (Bool-cases (ltb t top)) [
  | inl past ↦ (le, inl (ground (arith, past)))
  | inr there_yet ↦
      let e : top ≡ t = ground (arith, le, there_yet) in
      let at : top < l = omega (arith, lt, e) in
      (le, inr (omega (arith, in_window at, e), same at e there))
]

module _ (max_size : ℕ) where
  -- A thief that has read a node holds the one of its slot, unless the top is past it.
  abbrev pub Sane : (ℕ → ℕ) → ℕ → ℕ → Thief → Type 0
  Sane buffer top l outside = Unit {0}
  Sane buffer top l (loaded t) = t ≤ top
  Sane buffer top l (sighted t) = InSight top l t (Unit {0})
  Sane buffer top l (ready t node) = InSight top l t (node ≡ buffer (t % max_size))
  Sane buffer top l (half_bottom b) = ⊥
  Sane buffer top l (half_ready b t) = ⊥
  Sane buffer top l (half_copying t n) = ⊥

  -- What the owner knows of `bottom_` and the slots.
  abbrev pub Stands : (ℕ → ℕ) → Owner → ℕ → Type 0
  Stands buffer idle bottom = Unit {0}
  Stands buffer (pushing node) bottom = Unit {0}
  Stands buffer (written node) bottom = buffer (bottom % max_size) ≡ node
  Stands buffer (stored b) bottom = bottom ≡ b
  Stands buffer (racing b node) bottom = node ≡ buffer (b % max_size)
  Stands buffer (restoring b) bottom = Unit {0}
  Stands buffer (halving b t) bottom = (bottom ≡ b) × (t < b)

  pub Sane-later :
      (buffer buffer' : ℕ → ℕ) (top top' l l' : ℕ) (x : Thief)
      → top < top'
      → Sane buffer top l x
      → Sane buffer' top' l' x
  Sane-later buffer buffer' top top' l l' outside lt h = tt
  Sane-later buffer buffer' top top' l l' (loaded t) lt h = omega arith
  Sane-later buffer buffer' top top' l l' (sighted t) lt (le, h) =
      (omega arith, inl (omega (arith, le, lt)))
  Sane-later buffer buffer' top top' l l' (ready t node) lt (le, h) =
      (omega arith, inl (omega (arith, le, lt)))
  Sane-later buffer buffer' top top' l l' (half_bottom b) lt h = h
  Sane-later buffer buffer' top top' l l' (half_ready b t) lt h = h
  Sane-later buffer buffer' top top' l l' (half_copying t n) lt h = h

  -- The top stays, and so does its slot if there is an item.
  pub Sane-kept :
      (buffer buffer' : ℕ → ℕ) (top l l' : ℕ) (x : Thief)
      → (top < l → top < l')
      → (top < l → buffer' (top % max_size) ≡ buffer (top % max_size))
      → Sane buffer top l x
      → Sane buffer' top l' x
  Sane-kept buffer buffer' top l l' outside in_window same h = tt
  Sane-kept buffer buffer' top l l' (loaded t) in_window same h = h
  Sane-kept buffer buffer' top l l' (sighted t) in_window same h =
      InSight-kept top l l' t in_window (λ lt e there. tt) h
  Sane-kept buffer buffer' top l l' (ready t node) in_window same h =
      InSight-kept top l l' t in_window
        (λ lt e there.
          there ∙ sym (subst (λ n. buffer' (n % max_size) ≡ buffer (n % max_size)) e (same lt)))
        h
  Sane-kept buffer buffer' top l l' (half_bottom b) in_window same h = h
  Sane-kept buffer buffer' top l l' (half_ready b t) in_window same h = h
  Sane-kept buffer buffer' top l l' (half_copying t n) in_window same h = h

  pub Sane-put :
      (buffer : ℕ → ℕ) (top l : ℕ) (thieves : ℕ → Thief) (i : ℕ) (x : Thief)
      → ((j : ℕ) → Sane buffer top l (thieves j))
      → Sane buffer top l x
      → (j : ℕ) → Sane buffer top l (put thieves i x j)
  Sane-put buffer top l thieves i x all h j =
      if_ind (Sane buffer top l) (i == j) (λ _. h) (λ _. all j)
