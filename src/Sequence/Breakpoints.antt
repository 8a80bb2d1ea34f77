-- ===== src/Sequence/Breakpoints.antt =====
-- Cache breakpoints (nanovllm/engine/sequence.py): `_normalize_cache_breakpoints` and
-- `max_cacheable_tokens`.
use mathlib.Core.Path.{subst}
use nano_vllm_online_serving.Common.{
  sym, ℕ, ◌≤◌, ◌<◌, ◌≡◌, refl, ap, Bool, true, false, Option, none, some, List, [], ◌∷◌, ◌++◌,
  arith, ltb, leb, ◌==◌, if◌then◌else◌, count-append, count-select, ◌&&◌, ◌||◌, last?, select, elem,
  elem-count, Bool-cases, Option-cases, inl, inr, ◌⊎◌,
}
use nano_vllm_online_serving.Sequence.{
  Sequence, insert_sorted, sorted_positive, normalize_cache_breakpoints, max_cacheable_tokens,
}

-- Strictly ascending, all above a bound.
abbrev pub IsAscending : ℕ → List ℕ → Type 0
IsAscending low [] = Unit {0}
IsAscending low (x ∷ xs) = (low < x) × IsAscending x xs

insert_sorted-IsAscending :
    (low x : ℕ) (ys : List ℕ) → low < x → IsAscending low ys → IsAscending low (insert_sorted x ys)
unfolding insert_sorted
insert_sorted-IsAscending low x [] h a = (h, tt)
insert_sorted-IsAscending low x (y ∷ ys) h a = elim (Bool-cases (ltb x y)) [
  | inl less ↦ rw less (h, (ground (arith, less), a.1))
  | inr over ↦ elim (Bool-cases (ltb y x)) [
    | inl more ↦ rw (over, more) (a.0, insert_sorted-IsAscending y x ys (ground (arith, more)) a.1)
    | inr same ↦ rw (over, same) a
  ]
]

sorted_positive-IsAscending : (xs : List ℕ) → IsAscending 0 (sorted_positive xs)
unfolding sorted_positive
sorted_positive-IsAscending [] = tt
sorted_positive-IsAscending (x ∷ xs) = elim (Bool-cases (ltb 0 x)) [
  | inl positive ↦ rw positive (
      insert_sorted-IsAscending 0 x (sorted_positive xs) (ground (arith, positive))
        (sorted_positive-IsAscending xs))
  | inr zeroth ↦ rw zeroth (sorted_positive-IsAscending xs)
]

elem-insert_sorted :
    (z x : ℕ) (ys : List ℕ) → elem z (insert_sorted x ys) ≡ (if z == x then true else elem z ys)
unfolding insert_sorted
elem-insert_sorted z x [] = refl
elem-insert_sorted z x (y ∷ ys) = ground (arith, elem-insert_sorted z x ys)

elem-sorted_positive :
    (z : ℕ) (xs : List ℕ) → elem z (sorted_positive xs) ≡ (if ltb 0 z then elem z xs else false)
unfolding sorted_positive
elem-sorted_positive z [] = ground arith
elem-sorted_positive z (x ∷ xs) =
    ground (arith, elem-sorted_positive z xs, elem-insert_sorted z x (sorted_positive xs))

-- The breakpoints that the caller named in one way or the other.
abbrev pub is_named : Option ℕ → List ℕ → ℕ → Bool
is_named none breakpoints z = elem z breakpoints
is_named (some n) breakpoints z = elem z breakpoints || (z == n)

elem-snoc : (z n : ℕ) (xs : List ℕ) → elem z (xs ++ n ∷ []) ≡ (elem z xs || (z == n))
elem-snoc z n xs =
    ground (arith, elem-count z (xs ++ n ∷ []), elem-count z xs, count-append z xs (n ∷ []))

-- The normalised breakpoints are strictly ascending and positive, and are exactly the positive
-- ones among those that the caller named.
pub normalize_cache_breakpoints-IsAscending :
    (prefix : Option ℕ) (breakpoints : List ℕ)
    → IsAscending 0 (normalize_cache_breakpoints prefix breakpoints)
      × ((z : ℕ)
          → elem z (normalize_cache_breakpoints prefix breakpoints)
            ≡ (ltb 0 z && is_named prefix breakpoints z))
unfolding normalize_cache_breakpoints
normalize_cache_breakpoints-IsAscending none breakpoints = (
  sorted_positive-IsAscending breakpoints,
  λ z. ground (arith, elem-sorted_positive z breakpoints),
)
normalize_cache_breakpoints-IsAscending (some n) breakpoints = (
  sorted_positive-IsAscending (breakpoints ++ n ∷ []),
  λ z. ground (arith, elem-sorted_positive z (breakpoints ++ n ∷ []), elem-snoc z n breakpoints),
)

IsAscending-lower : (a b : ℕ) (xs : List ℕ) → a ≤ b → IsAscending b xs → IsAscending a xs
IsAscending-lower a b [] h k = tt
IsAscending-lower a b (x ∷ xs) h k = (omega (arith, h, k.0), k.1)

select-IsAscending :
    (p : ℕ → Bool) (low : ℕ) (xs : List ℕ) → IsAscending low xs → IsAscending low (select p xs)
select-IsAscending p low [] a = tt
select-IsAscending p low (x ∷ xs) a = elim (Bool-cases (p x)) [
  | inl keep ↦ rw keep (a.0, select-IsAscending p x xs a.1)
  | inr skip ↦
      rw skip
        (IsAscending-lower low x (select p xs) (omega (arith, a.0)) (select-IsAscending p x xs a.1))
]

-- The last of an ascending list is a member, and the greatest.
last-greatest :
    (low : ℕ) (xs : List ℕ) (m : ℕ)
    → IsAscending low xs
    → last? xs ≡ some m
    → (low < m) × (elem m xs ≡ true) × ((z : ℕ) → elem z xs ≡ true → z ≤ m)
last-greatest low [] m a e = absurd cc
last-greatest low (x ∷ []) m a e =
    (ground (arith, a.0, e), ground (arith, e), λ z h. ground (arith, e, h))
last-greatest low (x ∷ y ∷ ys) m a e =
    let r = last-greatest x (y ∷ ys) m a.1 e in
    (
      omega (arith, a.0, r.0),
      ground (arith, r.1),
      λ z h. elim (Bool-cases (z == x)) [
        | inl me ↦ ground (arith, me, r.0)
        | inr other ↦ r.2 z (rw other at h)
      ],
    )

last-none : (xs : List ℕ) → last? xs ≡ none → xs ≡ []
last-none [] e = refl
last-none (x ∷ []) e = cc
last-none (x ∷ y ∷ ys) e = absurd (ground (arith, last-none (y ∷ ys) e))

-- `m` is the greatest breakpoint up to a token, or 0 without one.
abbrev pub IsLimit : List ℕ → ℕ → ℕ → Type 0
IsLimit breakpoints up_to m =
    (m ≤ up_to)
    × ((z : ℕ) → elem z breakpoints ≡ true → z ≤ up_to → z ≤ m)
    × ((m ≡ 0) ⊎ (elem m breakpoints ≡ true))

elem-select : (z : ℕ) (p : ℕ → Bool) (xs : List ℕ) → elem z (select p xs) ≡ (p z && elem z xs)
elem-select z p xs =
    ground (arith, elem-count z (select p xs), elem-count z xs, count-select p z xs)

IsLimit-of :
    (breakpoints : List ℕ) (up_to : ℕ)
    → IsAscending 0 breakpoints
    → IsLimit breakpoints up_to
        (elim (last? (select (λ t. leb t up_to) breakpoints)) [ none ↦ 0 | some t ↦ t ])
IsLimit-of breakpoints up_to a =
    let p = λ (t : ℕ). leb t up_to in
    elim (Option-cases (last? (select p breakpoints))) [
      | inl absent ↦
          let empty = last-none (select p breakpoints) absent in
          rw absent (
            omega arith,
            λ z h le.
                absurd (ground (arith, h, le, elem-select z p breakpoints, ap (elem z) empty)),
            inl refl,
          )
      | inr (m, e) ↦
          let r =
            last-greatest 0 (select p breakpoints) m (select-IsAscending p 0 breakpoints a) e in
          rw e (
            ground (arith, r.1, elem-select m p breakpoints),
            λ z h le. r.2 z (ground (arith, h, le, elem-select z p breakpoints)),
            inr (ground (arith, r.1, elem-select m p breakpoints)),
          )
    ]

max_cacheable_listed :
    (seq : Sequence) (up_to b : ℕ) (bs : List ℕ)
    → seq.cache_breakpoint_tokens ≡ b ∷ bs
    → max_cacheable_tokens seq up_to
      ≡ elim (last? (select (λ t. leb t up_to) (b ∷ bs))) [ none ↦ 0 | some t ↦ t ]
unfolding max_cacheable_tokens
max_cacheable_listed seq up_to b bs e = rw (e, max_cacheable_tokens) refl

-- With ascending breakpoints, `max_cacheable_tokens` is the greatest breakpoint up to the token, or
-- 0 where there is none.
pub max_cacheable_tokens-IsLimit :
    (seq : Sequence) (up_to b : ℕ) (bs : List ℕ)
    → seq.cache_breakpoint_tokens ≡ b ∷ bs
    → IsAscending 0 (b ∷ bs)
    → IsLimit (b ∷ bs) up_to (max_cacheable_tokens seq up_to)
max_cacheable_tokens-IsLimit seq up_to b bs e a =
    subst (IsLimit (b ∷ bs) up_to) (sym (max_cacheable_listed seq up_to b bs e))
      (IsLimit-of (b ∷ bs) up_to a)
