-- ===== src/BlockManager/Prefix.antt =====
-- Prefix caching: matching a sequence's leading blocks against the cache, and entering computed
-- blocks into it (nanovllm/engine/block_manager.py). A `for` over `range(n)` recurs on the rounds
-- that are left.
use nano_vllm_online_serving.Common.{
  ℕ, zero, suc, ◌+◌, ◌-◌, ◌*◌, ◌/◌, Bool, true, false, String, Option, none, some, List, [], ◌∷◌,
  ◌++◌, ltb, ◌==◌, ◌&&◌, not, min, if◌then◌else◌, length, get_elem?, require, ◌>>=◌, ◌>>◌, lookup,
  add_to, str_eq,
}
use nano_vllm_online_serving.Sequence.{
  Sequence, max_cacheable_tokens, block_for_tokens, reset_cache_usage,
}
use nano_vllm_online_serving.BlockManager.Hashing.{compute_hash}
use nano_vllm_online_serving.BlockManager.State.{
  Block, BlockManager, add_miss_reason, prompt_tokens_in_block, initial_prefix_hash,
}
use nano_vllm_online_serving.BlockManager.Eviction.{purge_expired}
use nano_vllm_online_serving.BlockManager.Allocation.{attach_cached_block, ensure_blocks}

-- `==` of two token lists.
unfoldable pub same_tokens : List ℕ → List ℕ → Bool
same_tokens [] [] = true
same_tokens [] (y ∷ ys) = false
same_tokens (x ∷ xs) [] = false
same_tokens (x ∷ xs) (y ∷ ys) = if x == y then same_tokens xs ys else false

-- `block.token_ids == token_ids`
unfoldable pub holds_tokens : Block → List ℕ → Bool
holds_tokens b token_ids = elim b.token_ids [ none ↦ false | some ts ↦ same_tokens ts token_ids ]

-- `_has_cached_tokens_in_other_namespace`, over the cached ids.
unfoldable pub cached_elsewhere : List Block → List ℕ → String → List ℕ → Option Bool
cached_elsewhere blocks token_ids namespace [] = some false
cached_elsewhere blocks token_ids namespace (i ∷ ids) = do
  block ← get_elem? blocks i
  if holds_tokens block token_ids && not (str_eq block.namespace namespace)
      then some true
      else cached_elsewhere blocks token_ids namespace ids

-- `max(0, min(cacheable_tokens, seq.prefill_target_tokens - 1))`
unfoldable pub max_cache_tokens : Sequence → ℕ
max_cache_tokens seq =
    min (max_cacheable_tokens seq seq.prefill_target_tokens) (seq.prefill_target_tokens - 1)

-- The loop of `estimate_cached_prefix_tokens`.
unfoldable pub estimate_loop : BlockManager → Sequence → ℕ → ℕ → Option ℕ → ℕ → Option ℕ
estimate_loop bm seq zero i prefix_hash matched = some matched
estimate_loop bm seq (suc rounds) i prefix_hash matched = do
  token_ids ← block_for_tokens bm.block_size seq i seq.prefill_target_tokens
  let h = compute_hash bm.host token_ids prefix_hash
  elim (length token_ids == bm.block_size) [
    | false ↦ some matched
    | true ↦ elim (lookup h bm.hash_to_block_id) [
      | none ↦ some matched
      | some block_id ↦ do
        block ← get_elem? bm.blocks block_id
        elim (holds_tokens block token_ids) [
          | false ↦ some matched
          | true ↦ estimate_loop bm seq rounds (i + 1) (some h) (matched + 1)
        ]
    ]
  ]

-- `estimate_cached_prefix_tokens(seq)`
unfoldable pub estimate_cached_prefix_tokens : BlockManager → Sequence → Option ℕ
estimate_cached_prefix_tokens bm seq =
    if not (bm.enable_prefix_cache && seq.cache_enabled)
    then some 0
    else if ltb (max_cache_tokens seq) bm.prefix_cache_min_tokens
    then some 0
    else (estimate_loop bm seq (max_cache_tokens seq / bm.block_size) 0 (initial_prefix_hash bm seq)
          0
        >>= λ matched. some (matched * bm.block_size))

-- The counters after a miss.
abbrev pub count_miss : Sequence → String → BlockManager → BlockManager
count_miss seq reason bm = record bm {
  counters =
      let c = bm.counters in
      record c {
        prefix_cache_misses = c.prefix_cache_misses + 1;
        prefix_cache_misses_by_namespace =
            add_to seq.cache_namespace 1 c.prefix_cache_misses_by_namespace;
        prefix_cache_miss_reasons = add_to reason 1 c.prefix_cache_miss_reasons;
      };
}

-- The counters after a hit on a block that holds so many prompt tokens.
abbrev pub count_hit : Sequence → ℕ → BlockManager → BlockManager
count_hit seq input_tokens bm = record bm {
  counters =
      let c = bm.counters in
      record c {
        prefix_cache_hits = c.prefix_cache_hits + 1;
        prefix_cache_hits_by_namespace =
            add_to seq.cache_namespace 1 c.prefix_cache_hits_by_namespace;
        cache_read_input_tokens_by_namespace =
            if ltb 0 input_tokens
            then add_to seq.cache_namespace input_tokens c.cache_read_input_tokens_by_namespace
            else c.cache_read_input_tokens_by_namespace;
      };
}

-- The sequence after a hit.
abbrev pub take_hit : ℕ → ℕ → ℕ → Sequence → Sequence
take_hit block_size block_id input_tokens seq = record seq {
  block_table = seq.block_table ++ block_id ∷ [];
  num_cached_tokens = seq.num_cached_tokens + block_size;
  num_computed_tokens = seq.num_computed_tokens + block_size;
  cache_read_input_tokens = seq.cache_read_input_tokens + input_tokens;
}

-- The loop of `match_cached_prefix`.
unfoldable pub match_loop :
    ℕ → ℕ → Option ℕ → BlockManager → Sequence → Option (BlockManager × Sequence)
match_loop zero i prefix_hash bm seq = some (bm, seq)
match_loop (suc rounds) i prefix_hash bm seq = do
  token_ids ← block_for_tokens bm.block_size seq i seq.prefill_target_tokens
  let h = compute_hash bm.host token_ids prefix_hash
  let input_tokens = prompt_tokens_in_block bm seq i
  elim (length token_ids == bm.block_size) [
    | false ↦ some (bm, seq)
    | true ↦ elim (lookup h bm.hash_to_block_id) [
      | none ↦ do
        elsewhere ← cached_elsewhere bm.blocks token_ids seq.cache_namespace bm.cached_block_ids
        some (count_miss seq (if elsewhere then "namespace_mismatch" else "hash_miss") bm, seq)
      | some block_id ↦ do
        block ← get_elem? bm.blocks block_id
        elim (holds_tokens block token_ids) [
          | false ↦ some (count_miss seq "token_guard_mismatch" bm, seq)
          | true ↦ do
            bm' ← attach_cached_block block_id seq.cache_ttl_seconds bm
            match_loop rounds (i + 1) (some h) (count_hit seq input_tokens bm')
                (take_hit bm.block_size block_id input_tokens seq)
        ]
    ]
  ]

-- `match_cached_prefix` for an empty table and an enabled cache.
unfoldable pub match_enabled : BlockManager → Sequence → Option (BlockManager × Sequence)
match_enabled bm seq0 = do
  let seq = reset_cache_usage seq0
  (bm', purged) ← purge_expired bm
  let tokens = max_cache_tokens seq
  if ltb tokens bm.prefix_cache_min_tokens
      then some (add_miss_reason "prefix_shorter_than_min" 1 bm', seq)
      else if ltb 0 tokens && tokens / bm.block_size == 0
      then some (add_miss_reason "no_full_block_at_breakpoint" 1 bm', seq)
      else match_loop (tokens / bm.block_size) 0 (initial_prefix_hash bm' seq) bm' seq

-- `match_cached_prefix(seq)`
unfoldable pub match_cached_prefix : BlockManager → Sequence → Option (BlockManager × Sequence)
match_cached_prefix bm seq = elim seq.block_table [
  | b ∷ bs ↦ some (bm, seq)
  | [] ↦
      if not (bm.enable_prefix_cache && seq.cache_enabled)
      then some (add_miss_reason "cache_disabled" 1 bm, seq)
      else match_enabled bm seq
]

-- `prepare_prefill(seq, target_num_tokens)`
unfoldable pub prepare_prefill : BlockManager → Sequence → ℕ → Option (BlockManager × Sequence)
prepare_prefill bm seq target_num_tokens = do
  (bm', seq') ← match_cached_prefix bm seq
  require (ltb seq'.num_computed_tokens target_num_tokens)
  ensure_blocks bm' seq' target_num_tokens
