-- ===== src/Base/Count.antt =====
-- How often a pointer stands in a list.
use Prim.Native.Nat.{ℕ, zero, suc, ◌+◌, ◌≤◌, ◌<◌}
use mathlib.Core.Path.{◌≡◌, refl}
use mathlib.Core.Logic.{inl, inr}
use mathlib.Core.List.{List, [], ◌∷◌, ◌++◌}
use native.Mathlib.Omega.{arith}
use my_async_lib.Base.Tests.{Bool-cases, eq_of_==, ◌==◌, if◌then◌else◌}
use my_async_lib.Base.Lists.{take, drop, length}

abbrev pub unit_at : ℕ → ℕ → ℕ
unit_at a x = if a == x then 1 else 0

abbrev pub count : ℕ → List ℕ → ℕ
count a [] = 0
count a (x ∷ xs) = unit_at a x + count a xs

-- The list has no item twice.
abbrev pub Distinct : List ℕ → Type 0
Distinct xs = (a : ℕ) → count a xs ≤ 1

pub count-append :
    (p : ℕ) (front back : List ℕ) → count p (front ++ back) ≡ count p front + count p back
count-append p [] back = omega arith
count-append p (q ∷ front) back = omega (count-append p front back, arith)

pub count-take-drop :
    (a n : ℕ) (xs : List ℕ) → count a (take n xs) + count a (drop n xs) ≡ count a xs
count-take-drop a zero xs = omega arith
count-take-drop a (suc n) [] = omega arith
count-take-drop a (suc n) (x ∷ xs) = omega (arith, count-take-drop a n xs)

-- A list without one of its items.
abbrev Without : ℕ → List ℕ → Type 0
Without a ys =
    (zs : List ℕ) × (length ys ≡ suc (length zs))
    × ((b : ℕ) → count b ys ≡ unit_at b a + count b zs)

take_out : (a : ℕ) (ys : List ℕ) → 0 < count a ys → Without a ys
take_out a [] h = absurd (omega arith)
take_out a (y ∷ ys) h = elim (Bool-cases (a == y)) [
  | inl e ↦ (ys, refl, λ b. rw (eq_of_== a y e) refl)
  | inr e ↦
      let (zs, len, same) = take_out a ys (ground (arith, e)) in
      (y ∷ zs, omega (arith, len), λ b. omega (arith, same b))
]

-- Lists with the same items are of the same length.
pub count-length : (xs ys : List ℕ) → ((a : ℕ) → count a xs ≡ count a ys) → length xs ≡ length ys
count-length [] [] same = refl
count-length [] (y ∷ ys) same = absurd (ground (arith, same y))
count-length (x ∷ xs) ys same =
    let (zs, len, rest) = take_out x ys (ground (arith, same x)) in
    omega (arith, len, count-length xs zs (λ a. omega (arith, same a, rest a)))
