-- ===== src/Common/Counting.antt =====
-- Occurrences in the lists of block ids, under each change that the code makes to them.
use Prim.Native.Nat.{ℕ, zero, suc, ◌+◌, ◌-◌}
use mathlib.Core.Path.{◌≡◌, refl}
use mathlib.Core.List.{List, [], ◌∷◌, ◌++◌}
use native.Mathlib.Omega.{arith}
use nano_vllm_online_serving.Common.Tests.{ltb, leb, ◌==◌, if◌then◌else◌, Bool-cases}
use nano_vllm_online_serving.Common.Lists.{
  length, elem, count, discard, add_elem, range_from, select,
}
use mathlib.Core.Bool.{Bool}
use mathlib.Core.Logic.{inl, inr}

pub count-append : (x : ℕ) (xs ys : List ℕ) → count x (xs ++ ys) ≡ count x xs + count x ys
count-append x [] ys = omega arith
count-append x (y ∷ xs) ys = ground (arith, count-append x xs ys)

-- One occurrence of the removed element goes, the others stay.
pub count-discard :
    (x y : ℕ) (xs : List ℕ)
    → count y (discard x xs) ≡ (if x == y then count y xs - 1 else count y xs)
count-discard x y [] = ground arith
count-discard x y (z ∷ xs) = ground (arith, count-discard x y xs)

pub elem-count : (x : ℕ) (xs : List ℕ) → elem x xs ≡ ltb 0 (count x xs)
elem-count x [] = refl
elem-count x (y ∷ xs) = ground (arith, elem-count x xs)

pub count-add_elem :
    (x y : ℕ) (xs : List ℕ)
    → count y (add_elem x xs)
      ≡ (if x == y then (if ltb 0 (count y xs) then count y xs else 1) else count y xs)
count-add_elem x y xs = ground (arith, elem-count x xs, count-append y xs (x ∷ []))

pub length-discard :
    (x : ℕ) (xs : List ℕ) → length (discard x xs) + (if elem x xs then 1 else 0) ≡ length xs
length-discard x [] = refl
length-discard x (y ∷ xs) = ground (arith, length-discard x xs)

pub count-range_from :
    (x i n : ℕ)
    → count x (range_from i n) ≡ (if leb i x then (if ltb x (i + n) then 1 else 0) else 0)
count-range_from x i zero = ground arith
count-range_from x i (suc n) = ground (arith, count-range_from x (i + 1) n)

-- The number of entries below a bound, counted by value.
abbrev pub sum_counts : ℕ → List ℕ → ℕ
sum_counts zero xs = 0
sum_counts (suc n) xs = count n xs + sum_counts n xs

pub count-select :
    (p : ℕ → Bool) (x : ℕ) (xs : List ℕ) → count x (select p xs) ≡ (if p x then count x xs else 0)
count-select p x [] = ground arith
count-select p x (y ∷ xs) = elim (Bool-cases (p y)) [
  | inl keep ↦ rw keep (ground (arith, keep, count-select p x xs))
  | inr skip ↦ rw skip (ground (arith, skip, count-select p x xs))
]

-- Two lists that hold the same numbers as often are equally long.
pub length_of_counts :
    (xs ys : List ℕ) → ((j : ℕ) → count j xs ≡ count j ys) → length xs ≡ length ys
length_of_counts [] [] h = refl
length_of_counts [] (y ∷ ys) h = absurd (ground (arith, h y))
length_of_counts (x ∷ xs) ys h = omega (
  arith,
  length_of_counts xs (discard x ys) (λ j. ground (arith, h j, count-discard x j ys)),
  removed,
)
  where
    removed : length (discard x ys) + 1 ≡ length ys
    removed = ground (arith, h x, elem-count x ys, length-discard x ys)
