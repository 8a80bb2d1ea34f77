-- ===== src/BlockManager/Invariant/Estimating.antt =====
-- `estimate_cached_prefix_tokens` of nanovllm/engine/block_manager.py.
use native.Mathlib.Nat.{div-mul-le_self, mul-le-mul_right}
use nano_vllm_online_serving.Common.{
  ℕ, zero, suc, ◌+◌, ◌-◌, ◌*◌, ◌/◌, ◌≤◌, ◌<◌, ◌≡◌, true, false, Option, none, some, List, arith,
  ltb, ◌==◌, ◌&&◌, length, get_elem?, lookup, min, slice, Bool-cases, Option-cases, inl, inr,
  Ensures, Ensures-mono, Ensures->>=,
}
use nano_vllm_online_serving.Sequence.{Sequence, block_for_tokens}
use nano_vllm_online_serving.BlockManager.Hashing.{compute_hash}
use nano_vllm_online_serving.BlockManager.State.{Block, BlockManager, initial_prefix_hash}
use nano_vllm_online_serving.BlockManager.Prefix.{
  holds_tokens, max_cache_tokens, estimate_loop, estimate_cached_prefix_tokens,
}
use nano_vllm_online_serving.BlockManager.Invariant.{IsValid}
use nano_vllm_online_serving.BlockManager.Invariant.Rounds.{block_for_tokens-returns, mapped_block}

-- The four ways a round can go.
module _ (bm : BlockManager) (seq : Sequence) (rounds i : ℕ) (p : Option ℕ) (m : ℕ) (ts : List ℕ)
    (read : block_for_tokens bm.block_size seq i seq.prefill_target_tokens ≡ some ts) where
  estimate_loop_partial :
      (length ts == bm.block_size) ≡ false → estimate_loop bm seq (suc rounds) i p m ≡ some m
  unfolding estimate_loop
  estimate_loop_partial partial = ground (arith, read, partial)

  estimate_loop_miss :
      (length ts == bm.block_size) ≡ true
      → lookup (compute_hash bm.host ts p) bm.hash_to_block_id ≡ none
      → estimate_loop bm seq (suc rounds) i p m ≡ some m
  unfolding estimate_loop
  estimate_loop_miss full miss = ground (arith, read, full, miss)

  estimate_loop_guard :
      (j : ℕ) (b : Block)
      → (length ts == bm.block_size) ≡ true
      → lookup (compute_hash bm.host ts p) bm.hash_to_block_id ≡ some j
      → get_elem? bm.blocks j ≡ some b
      → holds_tokens b ts ≡ false
      → estimate_loop bm seq (suc rounds) i p m ≡ some m
  unfolding estimate_loop
  estimate_loop_guard j b full found e differs = ground (arith, read, full, found, e, differs)

  estimate_loop_hit :
      (j : ℕ) (b : Block)
      → (length ts == bm.block_size) ≡ true
      → lookup (compute_hash bm.host ts p) bm.hash_to_block_id ≡ some j
      → get_elem? bm.blocks j ≡ some b
      → holds_tokens b ts ≡ true
      → estimate_loop bm seq (suc rounds) i p m
        ≡ estimate_loop bm seq rounds (i + 1) (some (compute_hash bm.host ts p)) (m + 1)
  unfolding estimate_loop
  estimate_loop_hit j b full found e same = ground (arith, read, full, found, e, same)

pub estimate_loop-bound :
    (bm : BlockManager) (seq : Sequence) (held : List ℕ) (rounds i : ℕ) (p : Option ℕ) (m : ℕ)
    → IsValid bm held
    → 0 < bm.block_size
    → (i + rounds) * bm.block_size ≤ seq.prefill_target_tokens
    → Ensures (estimate_loop bm seq rounds i p m) (λ n. n ≤ m + rounds)
unfolding estimate_loop
estimate_loop-bound bm seq held zero i p m v positive h = omega arith
estimate_loop-bound bm seq held (suc rounds) i p m v positive h =
    let target = seq.prefill_target_tokens in
    let ts = slice (i * bm.block_size) (min ((i + 1) * bm.block_size) target) seq.token_ids in
    let read = block_for_tokens-returns bm.block_size seq i target positive (omega (arith, h)) in
    elim (Bool-cases (length ts == bm.block_size)) [
      | inr partial ↦ rw (estimate_loop_partial bm seq rounds i p m ts read partial) (omega arith)
      | inl full ↦ elim (Option-cases (lookup (compute_hash bm.host ts p) bm.hash_to_block_id)) [
        | inl miss ↦ rw (estimate_loop_miss bm seq rounds i p m ts read full miss) (omega arith)
        | inr (j, found) ↦
            let (b, e, hashed) = mapped_block bm held (compute_hash bm.host ts p) j v found in
            elim (Bool-cases (holds_tokens b ts)) [
              | inr differs ↦
                  rw (estimate_loop_guard bm seq rounds i p m ts read j b full found e differs)
                    (omega arith)
              | inl same ↦
                  rw (estimate_loop_hit bm seq rounds i p m ts read j b full found e same) (
                    Ensures-mono
                      (estimate_loop bm seq rounds (i + 1) (some (compute_hash bm.host ts p))
                        (m + 1))
                      _ _
                      (estimate_loop-bound bm seq held rounds (i + 1)
                        (some (compute_hash bm.host ts p)) (m + 1) v positive (omega (arith, h)))
                      (λ n le. omega (arith, le)))
            ]
      ]
    ]

-- The estimate raises nothing and leaves at least one token of a non-empty target to compute.
pub estimate_cached_prefix_tokens-bound :
    (bm : BlockManager) (seq : Sequence) (held : List ℕ)
    → IsValid bm held
    → 0 < bm.block_size
    → Ensures (estimate_cached_prefix_tokens bm seq) (λ n. n ≤ seq.prefill_target_tokens - 1)
unfolding estimate_cached_prefix_tokens max_cache_tokens
estimate_cached_prefix_tokens-bound bm seq held v positive =
    let tokens = max_cache_tokens seq in
    let whole = div-mul-le_self tokens bm.block_size in
    let le : max_cache_tokens seq ≤ seq.prefill_target_tokens - 1 = omega arith in
    elim (Bool-cases (bm.enable_prefix_cache && seq.cache_enabled)) [
      | inr off ↦ rw off (omega arith)
      | inl on ↦ rw on (elim (Bool-cases (ltb (max_cache_tokens seq) bm.prefix_cache_min_tokens)) [
        | inl short ↦ rw short (omega arith)
        | inr long ↦ rw long (
            Ensures->>=
              (estimate_loop bm seq (tokens / bm.block_size) 0 (initial_prefix_hash bm seq) 0) _ _ _
              (estimate_loop-bound bm seq held (tokens / bm.block_size) 0
                (initial_prefix_hash bm seq) 0 v positive (omega (arith, whole, le)))
              (λ n few. omega (arith, whole, le, mul-le-mul_right bm.block_size few)))
      ])
    ]
