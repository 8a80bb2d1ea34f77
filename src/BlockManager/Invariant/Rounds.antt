-- ===== src/BlockManager/Invariant/Rounds.antt =====
-- One round of the loop of `match_cached_prefix` (nanovllm/engine/block_manager.py): what it reads,
-- and the ways it can go.
use native.Mathlib.Nat.{le-div_iff_mul-le}
use nano_vllm_online_serving.Common.{
  ℕ, suc, ◌+◌, ◌-◌, ◌*◌, ◌/◌, ◌≤◌, ◌<◌, ◌≡◌, refl, Bool, true, false, not, ◌&&◌, String, Option,
  none, some, List, [], ◌∷◌, arith, lt→ltb, ◌==◌, if◌then◌else◌, length, get_elem?, lookup, min,
  slice, Bool-cases, Option-cases, inl, inr, str_eq,
}
use nano_vllm_online_serving.Sequence.{Sequence, block_for_tokens, num_blocks_for_tokens}
use nano_vllm_online_serving.BlockManager.Hashing.{compute_hash}
use nano_vllm_online_serving.BlockManager.State.{
  Block, BlockManager, no_hash, prompt_tokens_in_block,
}
use nano_vllm_online_serving.BlockManager.Allocation.{attach_cached_block}
use nano_vllm_online_serving.BlockManager.Prefix.{
  same_tokens, holds_tokens, cached_elsewhere, match_loop, count_hit, count_miss, take_hit,
}
use nano_vllm_online_serving.BlockManager.Invariant.{IsValid}
use nano_vllm_online_serving.BlockManager.Invariant.Oldest.{Resolves}

pub same_tokens-eq : (xs ys : List ℕ) → same_tokens xs ys ≡ true → xs ≡ ys
unfolding same_tokens
same_tokens-eq [] [] h = refl
same_tokens-eq [] (y ∷ ys) h = cc
same_tokens-eq (x ∷ xs) [] h = cc
same_tokens-eq (x ∷ xs) (y ∷ ys) h = ground (arith, h, same_tokens-eq xs ys)

pub holds_tokens-eq : (b : Block) (ts : List ℕ) → holds_tokens b ts ≡ true → b.token_ids ≡ some ts
unfolding holds_tokens
holds_tokens-eq b ts h = elim (Option-cases b.token_ids) [
  | inl bare ↦ ground (arith, bare, h)
  | inr (us, e) ↦ ground (arith, e, h, same_tokens-eq us ts)
]

pub cached_elsewhere-returns :
    (blocks : List Block) (ts : List ℕ) (ns : String) (ids : List ℕ)
    → Resolves blocks ids
    → (b : Bool) × (cached_elsewhere blocks ts ns ids ≡ some b)
unfolding cached_elsewhere
cached_elsewhere-returns blocks ts ns [] known = (false, refl)
cached_elsewhere-returns blocks ts ns (i ∷ ids) known = elim (Option-cases (get_elem? blocks i)) [
  | inl absent ↦ absurd (ground (arith, absent, known i))
  | inr (b, e) ↦ elim (Bool-cases (holds_tokens b ts && not (str_eq b.namespace ns))) [
    | inl hit ↦ (true, simp (e, hit))
    | inr miss ↦
        let (r, rest) =
          cached_elsewhere-returns blocks ts ns ids (λ j h. ground (arith, known j)) in
        (r, simp (e, miss, rest))
  ]
]

pub block_for_tokens-returns :
    (bs : ℕ) (seq : Sequence) (i target : ℕ)
    → 0 < bs
    → i * bs + bs ≤ target
    → block_for_tokens bs seq i target
      ≡ some (slice (i * bs) (min ((i + 1) * bs) target) seq.token_ids)
unfolding block_for_tokens num_blocks_for_tokens
block_for_tokens-returns bs seq i target positive h =
    let inside : suc i ≤ (target + bs - 1) / bs = (le-div_iff_mul-le positive).1 (omega arith) in
    rw (lt→ltb i _ inside)

-- What a hit needs: the entry of the dictionary leads to a hashed block.
pub mapped_block :
    (bm : BlockManager) (held : List ℕ) (h i : ℕ)
    → IsValid bm held
    → lookup h bm.hash_to_block_id ≡ some i
    → (b : Block) × (get_elem? bm.blocks i ≡ some b) × (no_hash b.hash ≡ false)
mapped_block bm held h i v found = elim (Option-cases (get_elem? bm.blocks i)) [
  | inl absent ↦ absurd (ground (arith, absent, v.1 h i found))
  | inr (b, e) ↦ (b, e, ground (arith, e, v.1 h i found))
]

-- The four ways a round can go.
module _ (rounds i : ℕ) (p : Option ℕ) (bm : BlockManager) (seq : Sequence) (ts : List ℕ)
    (read : block_for_tokens bm.block_size seq i seq.prefill_target_tokens ≡ some ts) where
  pub match_loop_partial :
      (length ts == bm.block_size) ≡ false → match_loop (suc rounds) i p bm seq ≡ some (bm, seq)
  unfolding match_loop
  match_loop_partial partial = ground (arith, read, partial)

  pub match_loop_miss :
      (elsewhere : Bool)
      → (length ts == bm.block_size) ≡ true
      → lookup (compute_hash bm.host ts p) bm.hash_to_block_id ≡ none
      → cached_elsewhere bm.blocks ts seq.cache_namespace bm.cached_block_ids ≡ some elsewhere
      → match_loop (suc rounds) i p bm seq
        ≡ some (count_miss seq (if elsewhere then "namespace_mismatch" else "hash_miss") bm, seq)
  unfolding match_loop
  match_loop_miss elsewhere full miss searched = ground (arith, read, full, miss, searched)

  pub match_loop_guard :
      (j : ℕ) (b : Block)
      → (length ts == bm.block_size) ≡ true
      → lookup (compute_hash bm.host ts p) bm.hash_to_block_id ≡ some j
      → get_elem? bm.blocks j ≡ some b
      → holds_tokens b ts ≡ false
      → match_loop (suc rounds) i p bm seq ≡ some (count_miss seq "token_guard_mismatch" bm, seq)
  unfolding match_loop
  match_loop_guard j b full found e differs = ground (arith, read, full, found, e, differs)

  pub match_loop_hit :
      (j : ℕ) (b : Block) (bm1 : BlockManager)
      → (length ts == bm.block_size) ≡ true
      → lookup (compute_hash bm.host ts p) bm.hash_to_block_id ≡ some j
      → get_elem? bm.blocks j ≡ some b
      → holds_tokens b ts ≡ true
      → attach_cached_block j seq.cache_ttl_seconds bm ≡ some bm1
      → match_loop (suc rounds) i p bm seq
        ≡ match_loop rounds
            (i + 1)
            (some (compute_hash bm.host ts p))
            (count_hit seq (prompt_tokens_in_block bm seq i) bm1)
            (take_hit bm.block_size j (prompt_tokens_in_block bm seq i) seq)
  unfolding match_loop
  match_loop_hit j b bm1 full found e holds a = ground (arith, read, full, found, e, holds, a)
