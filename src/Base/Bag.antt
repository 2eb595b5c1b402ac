-- ===== src/Base/Bag.antt =====
-- Bags of pointers: lists of which the order is forgotten.
use Prim.Native.Nat.{ℕ, ◌+◌}
use mathlib.Core.Path.{◌≡◌, refl}
use mathlib.Core.List.{List, [], ◌∷◌, ◌++◌}
use mathlib.Core.Quot
use mathlib.Core.Quot.{Quot, Quot-set}
use native.Mathlib.Nat.{ℕ_set}
use native.Mathlib.Omega.{arith}
use my_async_lib.Base.Count.{count, count-append}

-- The lists hold the same pointers, as often.
abbrev pub Alike : List ℕ → List ℕ → Type 0
Alike xs ys = (a : ℕ) → count a xs ≡ count a ys

abbrev pub Bag : Type 0
Bag = Quot Alike

abbrev pub bag : List ℕ → Bag
bag xs = Quot.mk xs

pub bag_of_count : (xs ys : List ℕ) → Alike xs ys → bag xs ≡ bag ys
bag_of_count xs ys h = Quot.sound h

-- A bag with the pointers of a list besides.
unfoldable pub add : List ℕ → Bag → Bag
add xs =
    Quot.lift Quot-set (λ ys. bag (xs ++ ys))
      (λ ys zs h. Quot.sound (λ a. omega (arith, h a, count-append a xs ys, count-append a xs zs)))

pub add-bag : (xs ys : List ℕ) → add xs (bag ys) ≡ bag (xs ++ ys)
unfolding add
add-bag xs ys = refl

-- One after the other, in any order.
pub add-cons : (x : ℕ) (xs : List ℕ) (b : Bag) → add xs (add (x ∷ []) b) ≡ add (x ∷ xs) b
unfolding add
add-cons x xs =
    Quot.ind (λ b. Quot-set _ _)
      (λ ys. Quot.sound (λ a. omega (arith, count-append a xs (x ∷ ys), count-append a xs ys)))

pub add-nil : (b : Bag) → add [] b ≡ b
unfolding add
add-nil = Quot.ind (λ b. Quot-set _ _) (λ ys. refl)

-- How often a pointer is in a bag.
unfoldable pub times : ℕ → Bag → ℕ
times a = Quot.lift ℕ_set (count a) (λ xs ys h. h a)

pub times-add : (a : ℕ) (xs : List ℕ) (b : Bag) → times a (add xs b) ≡ count a xs + times a b
unfolding times add
times-add a xs = Quot.ind (λ b. ℕ_set _ _) (λ ys. count-append a xs ys)
