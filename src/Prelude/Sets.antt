-- ===== src/Prelude/Sets.antt =====
-- A Python set of numbers: a list without repetition, read through the test `elem`.
use Prim.Native.Nat.{ℕ}
use mathlib.Core.Path.{◌≡◌, refl, ◌∙◌}
use mathlib.Core.Bool.{Bool, false, ◌||◌, ◌&&◌, not}
use mathlib.Core.List.{List, [], ◌∷◌, ◌++◌}
use native.Mathlib.Omega.{arith}
use chen_db.Prelude.Tests.{leb, ◌==◌, if◌then◌else◌}

unfoldable pub elem : ℕ → List ℕ → Bool
elem x [] = false
elem x (y ∷ ys) = (y == x) || elem x ys

unfoldable pub add : ℕ → List ℕ → List ℕ
unfolding elem
add x xs = if elem x xs then xs else x ∷ xs

unfoldable pub discard : ℕ → List ℕ → List ℕ
discard x [] = []
discard x (y ∷ ys) = let rest = discard x ys in if y == x then rest else y ∷ rest

pub elem-add : (x y : ℕ) (xs : List ℕ) → elem y (add x xs) ≡ ((x == y) || elem y xs)
unfolding elem add
elem-add x y xs = ground arith

pub elem-discard : (x y : ℕ) (xs : List ℕ) → elem y (discard x xs) ≡ (not (x == y) && elem y xs)
unfolding elem discard
elem-discard x y [] = ground arith
elem-discard x y (z ∷ zs) = ground (arith, elem-discard x y zs)

-- `sorted`: insertion keeps the order.
unfoldable pub insert_sorted : ℕ → List ℕ → List ℕ
insert_sorted x [] = x ∷ []
insert_sorted x (y ∷ ys) = if leb x y then x ∷ y ∷ ys else y ∷ insert_sorted x ys

unfoldable pub sorted : List ℕ → List ℕ
unfolding insert_sorted
sorted [] = []
sorted (x ∷ xs) = insert_sorted x (sorted xs)

elem-insert_sorted : (x y : ℕ) (xs : List ℕ) → elem y (insert_sorted x xs) ≡ ((x == y) || elem y xs)
unfolding elem insert_sorted
elem-insert_sorted x y [] = refl
elem-insert_sorted x y (z ∷ zs) = ground (arith, elem-insert_sorted x y zs)

pub elem-sorted : (y : ℕ) (xs : List ℕ) → elem y (sorted xs) ≡ elem y xs
unfolding elem sorted
elem-sorted y [] = refl
elem-sorted y (x ∷ xs) = elem-insert_sorted x y (sorted xs) ∙ ground (arith, elem-sorted y xs)

-- The union of two sets.
unfoldable pub union : List ℕ → List ℕ → List ℕ
unfolding add
union xs [] = xs
union xs (y ∷ ys) = union (add y xs) ys

pub elem-union : (x : ℕ) (xs ys : List ℕ) → elem x (union xs ys) ≡ (elem x xs || elem x ys)
unfolding elem union
elem-union x xs [] = ground arith
elem-union x xs (y ∷ ys) = elem-union x (add y xs) ys ∙ ground (arith, elem-add y x xs)

pub elem-append_one : (x y : ℕ) (xs : List ℕ) → elem x (xs ++ y ∷ []) ≡ (elem x xs || (y == x))
unfolding elem
elem-append_one x y [] = ground arith
elem-append_one x y (z ∷ zs) = ground (arith, elem-append_one x y zs)
