-- ===== src/Scheduler/Invariant/Focus.antt =====
-- One sequence apart from all others: how the references of the queues change when it changes
-- (nanovllm/engine/scheduler.py).
use nano_vllm_online_serving.Common.{
  ℕ, ◌+◌, ◌≤◌, ◌<◌, ◌≡◌, refl, ap, true, false, List, [], ◌∷◌, ◌++◌, arith, ◌==◌, count,
  count-append, count-discard, discard, Bool-cases, inl, inr,
}
use nano_vllm_online_serving.Sequence.{Sequence}
use nano_vllm_online_serving.BlockManager.State.{BlockManager}
use nano_vllm_online_serving.BlockManager.Invariant.{IsValid}
use nano_vllm_online_serving.BlockManager.Invariant.Tables.{IsValid-counts}
use nano_vllm_online_serving.Scheduler.State.{write_seq}
use nano_vllm_online_serving.Scheduler.Invariant.{held}

-- A sequence that occurs, and the rest.
pub count-held-discard :
    (j r : ℕ) (store : ℕ → Sequence) (rs : List ℕ)
    → 0 < count r rs
    → count j (held store rs) ≡ count j (store r).block_table + count j (held store (discard r rs))
count-held-discard j r store [] h = absurd (omega (arith, h))
count-held-discard j r store (x ∷ xs) h = elim (Bool-cases (r == x)) [
  | inl same ↦
      let e : r ≡ x = ground (arith, same) in
      let self : (r == r) ≡ true = ground arith in
      rw (← e) (rw self (count-append j (store r).block_table (held store xs)))
  | inr other ↦ rw other (
      ground (
        arith,
        other,
        h,
        count-held-discard j r store xs,
        count-append j (store x).block_table (held store xs),
        count-append j (store x).block_table (held store (discard r xs)),
      ))
]

-- Only how often a sequence occurs matters.
pub count-held-counts :
    (j : ℕ) (store : ℕ → Sequence) (xs ys : List ℕ)
    → ((r : ℕ) → count r xs ≡ count r ys)
    → count j (held store xs) ≡ count j (held store ys)
count-held-counts j store [] [] h = refl
count-held-counts j store [] (y ∷ ys) h = absurd (ground (arith, h y))
count-held-counts j store (x ∷ xs) ys h = omega (
  arith,
  count-append j (store x).block_table (held store xs),
  count-held-discard j x store ys (ground (arith, h x)),
  count-held-counts j store xs (discard x ys) (λ r. ground (arith, h r, count-discard x r ys)),
)

-- A change to a sequence that does not occur.
pub held-write :
    (r : ℕ) (seq : Sequence) (store : ℕ → Sequence) (xs : List ℕ)
    → count r xs ≡ 0
    → held (write_seq r seq store) xs ≡ held store xs
held-write r seq store [] h = refl
held-write r seq store (x ∷ xs) h =
    let other : (r == x) ≡ false = ground (arith, h) in
    rw other (ap (λ t. (store x).block_table ++ t) (held-write r seq store xs (ground (arith, h))))

-- The references of one sequence in front of those of all others.
pub IsValid-focus :
    (bm : BlockManager) (r : ℕ) (store : ℕ → Sequence) (rs : List ℕ)
    → 0 < count r rs
    → IsValid bm (held store rs)
    → IsValid bm ((store r).block_table ++ held store (discard r rs))
IsValid-focus bm r store rs h v =
    IsValid-counts bm (held store rs) _
      (λ j. omega (
        arith,
        count-held-discard j r store rs h,
        count-append j (store r).block_table (held store (discard r rs)),
      ))
      v

-- The sequence has changed and leaves the queues.
pub IsValid-drop :
    (bm : BlockManager) (r : ℕ) (seq : Sequence) (store : ℕ → Sequence) (rs rs' : List ℕ)
    → count r rs ≤ 1
    → ((x : ℕ) → count x rs' ≡ count x (discard r rs))
    → IsValid bm (held store (discard r rs))
    → IsValid bm (held (write_seq r seq store) rs')
IsValid-drop bm r seq store rs rs' once same v =
    rw (held-write r seq store rs' (ground (arith, same r, count-discard r r rs, once))) (
      IsValid-counts bm (held store (discard r rs)) (held store rs')
        (λ j. omega (arith, count-held-counts j store rs' (discard r rs) same)) v)

-- The sequence has changed and stays in the queues.
pub IsValid-keep :
    (bm : BlockManager) (r : ℕ) (seq : Sequence) (store : ℕ → Sequence) (rs rs' : List ℕ)
    → 0 < count r rs
    → count r rs ≤ 1
    → ((x : ℕ) → count x rs' ≡ count x rs)
    → IsValid bm (seq.block_table ++ held store (discard r rs))
    → IsValid bm (held (write_seq r seq store) rs')
IsValid-keep bm r seq store rs rs' here once same v =
    let self : (r == r) ≡ true = ground arith in
    let rest : held (write_seq r seq store) (discard r rs) ≡ held store (discard r rs) =
      held-write r seq store (discard r rs) (ground (arith, count-discard r r rs, once)) in
    IsValid-counts bm (seq.block_table ++ held store (discard r rs))
      (held (write_seq r seq store) rs')
      (λ j. omega (
        arith,
        count-append j seq.block_table (held store (discard r rs)),
        count-held-counts j (write_seq r seq store) rs' rs same,
        (rw (rest, self) at (count-held-discard j r (write_seq r seq store) rs here)),
      ))
      v
