-- ===== src/Base/Store.antt =====
-- The `next` fields of all task nodes, by address, and chains of nodes through them.
-- Address 0 is `nullptr`.
use Prim.Native.Nat.{ℕ, ◌≤◌, ◌<◌}
use mathlib.Core.Path.{◌≡◌, refl, ap₂, subst, sym}
use mathlib.Core.Logic.{◌≢◌}
use mathlib.Core.List.{List, [], ◌∷◌, ◌++◌}
use native.Mathlib.Omega.{arith}
use my_async_lib.Base.Tests.{◌==◌, if◌then◌else◌}
use my_async_lib.Base.Lists.{last_or}
use my_async_lib.Base.Count.{count}

abbrev pub Store : Type 0
Store = ℕ → ℕ

-- `p->next = v`
unfoldable pub write : Store → ℕ → ℕ → Store
write m p v a = if a == p then v else m a

pub write_self : (m : Store) (p v : ℕ) → write m p v p ≡ v
unfolding write
write_self m p v = ground arith

pub write_ne : (m : Store) (p v a : ℕ) → a ≢ p → write m p v a ≡ m a
unfolding write
write_ne m p v a ne = ground arith

-- From `p` the `next` pointers lead through the nodes `xs` to `stop`.
abbrev pub Seg : Store → ℕ → ℕ → List ℕ → Type 0
Seg m stop p [] = p ≡ stop
Seg m stop p (x ∷ xs) = (p ≡ x) × (x ≢ 0) × Seg m stop (m x) xs

-- A chain that ends in `nullptr`.
abbrev pub Chain : Store → ℕ → List ℕ → Type 0
Chain m p xs = Seg m 0 p xs

-- Two stores agree on the nodes of `xs`.
abbrev pub Agree : Store → Store → List ℕ → Type 0
Agree m n xs = (a : ℕ) → 0 < count a xs → n a ≡ m a

pub frame :
    (m n : Store) (stop p : ℕ) (xs : List ℕ) → Seg m stop p xs → Agree m n xs → Seg n stop p xs
frame m n stop p [] s same = s
frame m n stop p (x ∷ xs) s same = (
  s.0,
  s.1,
  rw (same x (ground arith)) (frame m n stop (m x) xs s.2 (λ a h. same a (omega arith))),
)

pub Agree-write : (m : Store) (p v : ℕ) (xs : List ℕ) → count p xs ≡ 0 → Agree m (write m p v) xs
unfolding write
Agree-write m p v xs out a h = ground arith

pub Seg-write :
    (m : Store) (stop p q v : ℕ) (xs : List ℕ)
    → Seg m stop p xs
    → count q xs ≡ 0
    → Seg (write m q v) stop p xs
Seg-write m stop p q v xs s out = frame m _ stop p xs s (Agree-write m q v xs out)

pub Seg-append :
    (m : Store) (mid stop p : ℕ) (xs ys : List ℕ)
    → Seg m mid p xs
    → Seg m stop mid ys
    → Seg m stop p (xs ++ ys)
Seg-append m mid stop p [] ys s t = rw s t
Seg-append m mid stop p (x ∷ xs) ys s t = (s.0, s.1, Seg-append m mid stop (m x) xs ys s.2 t)

pub count-last_or : (x : ℕ) (xs : List ℕ) → 0 < count (last_or xs x) (x ∷ xs)
count-last_or x [] = ground arith
count-last_or x (y ∷ ys) = omega (arith, count-last_or y ys)

-- Writing the `next` field of its last node makes a segment end somewhere else.
pub relink :
    (m : Store) (stop q p x : ℕ) (xs : List ℕ)
    → Seg m stop p (x ∷ xs)
    → count (last_or xs x) (x ∷ xs) ≤ 1
    → Seg (write m (last_or xs x) q) q p (x ∷ xs)
unfolding write
relink m stop q p x [] s once = (s.0, s.1, ground arith)
relink m stop q p x (y ∷ ys) s once =
    (s.0, s.1, rw kept (relink m stop q (m x) y ys s.2 (omega arith)))
  where
    kept : write m (last_or ys y) q x ≡ m x
    kept = ground (arith, count-last_or y ys)

-- A chain from a node is not empty, and one from `nullptr` is.
pub Chain-null : (m : Store) (p : ℕ) (xs : List ℕ) → Chain m p xs → p ≡ 0 → xs ≡ []
Chain-null m p [] s e = refl
Chain-null m p (x ∷ xs) s e = absurd (s.1 (omega arith))

-- A chain is determined by its store and its start.
pub Chain-unique : (m : Store) (p : ℕ) (xs ys : List ℕ) → Chain m p xs → Chain m p ys → xs ≡ ys
Chain-unique m p [] [] c d = refl
Chain-unique m p [] (y ∷ ys) c d = absurd (d.1 (omega arith))
Chain-unique m p (x ∷ xs) [] c d = absurd (c.1 (omega arith))
Chain-unique m p (x ∷ xs) (y ∷ ys) c d =
    let same : x ≡ y = omega arith in
    ap₂ ◌∷◌ same (Chain-unique m (m x) xs ys c.2 (subst (λ z. Chain m (m z) ys) (sym same) d.2))

pub count-null : (m : Store) (stop p : ℕ) (xs : List ℕ) → Seg m stop p xs → count 0 xs ≡ 0
count-null m stop p [] s = refl
count-null m stop p (x ∷ xs) s = ground (arith, count-null m stop (m x) xs s.2)
