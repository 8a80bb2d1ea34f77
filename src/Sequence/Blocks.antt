-- ===== src/Sequence/Blocks.antt =====
-- The blocks of a sequence (nanovllm/engine/sequence.py): every token stands in the block that the
-- division names, and the last block is never empty.
use native.Mathlib.Nat.{le-div_iff_mul-le, div-lt_iff_lt-mul, div-mul-le_self}
use nano_vllm_online_serving.Common.{
  ℕ, zero, suc, ◌+◌, ◌-◌, ◌*◌, ◌/◌, ◌≤◌, ◌<◌, ◌≡◌, refl, ap, ◌∙◌, List, [], ◌∷◌, arith, lt→ltb,
  get_elem?, take, drop, Ensures,
}
use nano_vllm_online_serving.Sequence.{
  Sequence, num_blocks, num_blocks_for_tokens, last_block_num_tokens, block,
}

get_elem?-drop {ℓ} :
    {A : Type ℓ} (n i : ℕ) (xs : List A) → get_elem? (drop n xs) i ≡ get_elem? xs (n + i)
get_elem?-drop zero i xs = ap (get_elem? xs) (omega arith)
get_elem?-drop (suc n) i [] = refl
get_elem?-drop (suc n) i (x ∷ xs) =
    let e : suc n + i ≡ suc (n + i) = omega arith in get_elem?-drop n i xs ∙ rw e refl

get_elem?-take {ℓ} :
    {A : Type ℓ} (n i : ℕ) (xs : List A) → i < n → get_elem? (take n xs) i ≡ get_elem? xs i
get_elem?-take zero i xs h = absurd (omega (arith, h))
get_elem?-take (suc n) i [] h = refl
get_elem?-take (suc n) zero (x ∷ xs) h = refl
get_elem?-take (suc n) (suc i) (x ∷ xs) h = get_elem?-take n i xs (omega (arith, h))

-- Token `t` stands in block `t // block_size`, at the place that is left.
pub block-get_elem? :
    (block_size : ℕ) (s : Sequence) (t : ℕ)
    → 0 < block_size
    → t < s.num_tokens
    → Ensures
        (block block_size s (t / block_size))
        (λ ts. get_elem? ts (t - t / block_size * block_size) ≡ get_elem? s.token_ids t)
unfolding block num_blocks num_blocks_for_tokens
block-get_elem? bs s t positive h =
    let i = t / bs in
    let below = div-mul-le_self t bs in
    let above : t < (t / bs + 1) * bs = (div-lt_iff_lt-mul positive).0 (omega arith) in
    let inside : suc (t / bs) ≤ (s.num_tokens + bs - 1) / bs =
      (le-div_iff_mul-le positive).1 (omega (arith, below, h, positive)) in
    let place : i * bs + (t - i * bs) ≡ t = omega (arith, below) in
    rw (lt→ltb i _ inside) (
      get_elem?-take ((i + 1) * bs - i * bs) (t - i * bs) (drop (i * bs) s.token_ids)
        (omega (arith, above, below))
      ∙ get_elem?-drop (i * bs) (t - i * bs) s.token_ids
      ∙ ap (get_elem? s.token_ids) place)

last_bounds :
    (q bs n : ℕ)
    → 0 < n
    → q * bs ≤ n + bs - 1
    → n + bs - 1 < (q + 1) * bs
    → (0 < n - (q - 1) * bs) × (n - (q - 1) * bs ≤ bs)
last_bounds zero bs n some_tokens low high = absurd (omega (arith, some_tokens, low, high))
last_bounds (suc p) bs n some_tokens low high =
    let e : suc p - 1 ≡ p = omega arith in
    rw e (omega (arith, some_tokens, low, high), omega (arith, some_tokens, low, high))

-- The last block of a sequence with tokens holds at least one and at most `block_size` of them.
pub last_block_num_tokens-bounds :
    (block_size : ℕ) (s : Sequence)
    → 0 < block_size
    → 0 < s.num_tokens
    → (0 < last_block_num_tokens block_size s) × (last_block_num_tokens block_size s ≤ block_size)
unfolding last_block_num_tokens num_blocks num_blocks_for_tokens
last_block_num_tokens-bounds bs s positive some_tokens =
    let n = s.num_tokens + bs - 1 in
    last_bounds (n / bs) bs s.num_tokens some_tokens (div-mul-le_self n bs)
      ((div-lt_iff_lt-mul positive).0 (omega arith))
