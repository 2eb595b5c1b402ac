-- ===== src/Base/Lists.antt =====
-- Lists measured and indexed by native numbers, under the library's names.
use Prim.Native.Nat.{ℕ, zero, suc, ◌+◌, ◌-◌, ◌<◌, min}
use mathlib.Core.Path.{◌≡◌, refl, ap}
use mathlib.Core.Logic.{◌≢◌, ◌⊎◌, inl, inr}
use mathlib.Core.List.{List, [], ◌∷◌, ◌++◌}
use mathlib.Core.Option.{Option, none, some}
use native.Mathlib.Omega.{arith}

module _ {ℓ} {A : Type ℓ} where
  abbrev pub length : List A → ℕ
  length [] = 0
  length (x ∷ xs) = suc (length xs)

  abbrev pub get_elem? : List A → ℕ → Option A
  get_elem? [] i = none
  get_elem? (x ∷ xs) zero = some x
  get_elem? (x ∷ xs) (suc i) = get_elem? xs i

  abbrev pub get_or : List A → ℕ → A → A
  get_or [] i d = d
  get_or (x ∷ xs) zero d = x
  get_or (x ∷ xs) (suc i) d = get_or xs i d

  -- A write out of bounds changes nothing.
  abbrev pub set : List A → ℕ → A → List A
  set [] i v = []
  set (x ∷ xs) zero v = v ∷ xs
  set (x ∷ xs) (suc i) v = x ∷ set xs i v

  abbrev pub take : ℕ → List A → List A
  take zero xs = []
  take (suc n) [] = []
  take (suc n) (x ∷ xs) = x ∷ take n xs

  abbrev pub drop : ℕ → List A → List A
  drop zero xs = xs
  drop (suc n) [] = []
  drop (suc n) (x ∷ xs) = drop n xs

  abbrev pub replicate : ℕ → A → List A
  replicate zero a = []
  replicate (suc n) a = a ∷ replicate n a

  -- The last element, `d` of an empty list.
  abbrev pub last_or : List A → A → A
  last_or [] d = d
  last_or (x ∷ xs) d = last_or xs x

module _ {ℓ} {A : Type ℓ} where
  pub length-append : (xs ys : List A) → length (xs ++ ys) ≡ length xs + length ys
  length-append [] ys = omega arith
  length-append (x ∷ xs) ys = omega (arith, length-append xs ys)

  pub length-set : (xs : List A) (i : ℕ) (v : A) → length (set xs i v) ≡ length xs
  length-set [] i v = refl
  length-set (x ∷ xs) zero v = refl
  length-set (x ∷ xs) (suc i) v = ap suc (length-set xs i v)

  pub length-replicate : (n : ℕ) (a : A) → length (replicate n a) ≡ n
  length-replicate zero a = refl
  length-replicate (suc n) a = ap suc (length-replicate n a)

  pub get_or-set_self :
      (xs : List A) (i : ℕ) (v d : A) → i < length xs → get_or (set xs i v) i d ≡ v
  get_or-set_self [] i v d h = elim h [ ]
  get_or-set_self (x ∷ xs) zero v d h = refl
  get_or-set_self (x ∷ xs) (suc i) v d h = get_or-set_self xs i v d (omega arith)

  pub get_or-set_ne :
      (xs : List A) (i j : ℕ) (v d : A) → i ≢ j → get_or (set xs i v) j d ≡ get_or xs j d
  get_or-set_ne [] i j v d h = refl
  get_or-set_ne (x ∷ xs) zero zero v d h = absurd (h refl)
  get_or-set_ne (x ∷ xs) zero (suc j) v d h = refl
  get_or-set_ne (x ∷ xs) (suc i) zero v d h = refl
  get_or-set_ne (x ∷ xs) (suc i) (suc j) v d h = get_or-set_ne xs i j v d (λ e. h (ap suc e))

  pub last_or-append : (xs ys : List A) (d : A) → last_or (xs ++ ys) d ≡ last_or ys (last_or xs d)
  last_or-append [] ys d = refl
  last_or-append (x ∷ xs) ys d = last_or-append xs ys x

  pub take-append_length : (xs ys : List A) (n : ℕ) → n ≡ length xs → take n (xs ++ ys) ≡ xs
  take-append_length [] ys n e = ap (λ k. take k ys) e
  take-append_length (x ∷ xs) ys zero e = absurd (omega arith)
  take-append_length (x ∷ xs) ys (suc n) e =
      ap (λ t. x ∷ t) (take-append_length xs ys n (omega arith))

  pub append_one_injective :
      (xs ys : List A) (x y : A) → xs ++ (x ∷ []) ≡ ys ++ (y ∷ []) → (xs ≡ ys) × (x ≡ y)
  append_one_injective [] [] x y e = (refl, cc)
  append_one_injective [] (b ∷ []) x y e = cc
  append_one_injective [] (b ∷ c ∷ ys) x y e = cc
  append_one_injective (a ∷ []) [] x y e = cc
  append_one_injective (a ∷ c ∷ xs) [] x y e = cc
  append_one_injective (a ∷ xs) (b ∷ ys) x y e =
      let rest : xs ++ (x ∷ []) ≡ ys ++ (y ∷ []) = cc in
      let head : a ≡ b = cc in let (p, q) = append_one_injective xs ys x y rest in (cc, q)

  pub length-append_one : (xs : List A) (x : A) → length (xs ++ (x ∷ [])) ≡ suc (length xs)
  length-append_one [] x = refl
  length-append_one (y ∷ xs) x = ap suc (length-append_one xs x)

  pub take-append-drop : (n : ℕ) (xs : List A) → take n xs ++ drop n xs ≡ xs
  take-append-drop zero xs = refl
  take-append-drop (suc n) [] = refl
  take-append-drop (suc n) (x ∷ xs) = ap (λ t. x ∷ t) (take-append-drop n xs)

  pub length-drop : (n : ℕ) (xs : List A) → length (drop n xs) ≡ length xs - n
  length-drop zero xs = omega arith
  length-drop (suc n) [] = omega arith
  length-drop (suc n) (x ∷ xs) = omega (arith, length-drop n xs)

  pub length-take : (n : ℕ) (xs : List A) → length (take n xs) ≡ min n (length xs)
  length-take zero xs = omega arith
  length-take (suc n) [] = omega arith
  length-take (suc n) (x ∷ xs) = omega (arith, length-take n xs)

  pub length-eq-zero : (xs : List A) → length xs ≡ 0 → xs ≡ []
  length-eq-zero [] e = refl
  length-eq-zero (x ∷ xs) e = absurd (omega arith)

  -- A list is empty, or has a last element.
  pub append_last : (xs : List A) → (xs ≡ []) ⊎ ((ys : List A) × (y : A) × (xs ≡ ys ++ (y ∷ [])))
  append_last [] = inl refl
  append_last (x ∷ xs) = inr (last_split x xs)
    where
      last_split : (x : A) (xs : List A) → (ys : List A) × (y : A) × (x ∷ xs ≡ ys ++ (y ∷ []))
      last_split x [] = ([], x, refl)
      last_split x (z ∷ zs) = let (ys, y, e) = last_split z zs in (x ∷ ys, y, ap (λ t. x ∷ t) e)
