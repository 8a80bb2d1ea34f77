-- ===== src/BlockManager/Commit.antt =====
-- `commit_computed_tokens` of nanovllm/engine/block_manager.py: full blocks enter the cache under
-- the hash of all tokens up to their end.
use nano_vllm_online_serving.Common.{
  ℕ, zero, suc, ◌+◌, ◌/◌, Bool, true, false, Option, none, some, ltb, ◌==◌, ◌&&◌, not, min,
  if◌then◌else◌, length, get_elem?, ◌>>=◌, lookup, insert, add_to, List,
}
use nano_vllm_online_serving.Sequence.{Sequence, max_cacheable_tokens, block_for_tokens}
use nano_vllm_online_serving.BlockManager.Hashing.{compute_hash}
use nano_vllm_online_serving.BlockManager.State.{
  Block, BlockManager, update_hash, write_block, tick, prompt_tokens_in_block, initial_prefix_hash,
}
use nano_vllm_online_serving.BlockManager.Allocation.{refreshed_expiry, after_refresh}
use nano_vllm_online_serving.BlockManager.Prefix.{holds_tokens}

-- Whether another block holds these tokens under this hash already. `other` is
-- `self.hash_to_block_id.get(h, -1)`.
unfoldable pub is_duplicate : BlockManager → ℕ → List ℕ → Option ℕ → Option Bool
is_duplicate bm block_id token_ids none = some false
is_duplicate bm block_id token_ids (some other) =
    if other == block_id
    then some false
    else do block ← get_elem? bm.blocks other; some (holds_tokens block token_ids)

abbrev pub count_duplicate : BlockManager → BlockManager
count_duplicate bm = record bm {
  counters =
      let c = bm.counters in
      record c { duplicate_cache_blocks_skipped = c.duplicate_cache_blocks_skipped + 1 };
}

abbrev pub count_creation : Sequence → ℕ → BlockManager → BlockManager
count_creation seq input_tokens bm = record bm {
  counters =
      let c = bm.counters in
      record c {
        cache_creation_input_tokens_by_namespace =
            if ltb 0 input_tokens
            then add_to seq.cache_namespace input_tokens c.cache_creation_input_tokens_by_namespace
            else c.cache_creation_input_tokens_by_namespace;
      };
}

-- Block `block_id` enters the cache as the i-th block of the sequence.
unfoldable pub register_block :
    ℕ → ℕ → List ℕ → ℕ → Block → BlockManager → Sequence → BlockManager × Sequence
register_block i h token_ids block_id block bm seq =
    let input_tokens = prompt_tokens_in_block bm seq i in
    let hashed = update_hash block h token_ids (bm.clock + 1) seq.cache_namespace in
    let entered = record hashed { expires_at = refreshed_expiry bm seq.cache_ttl_seconds } in
    (
      count_creation seq input_tokens (
          after_refresh seq.cache_ttl_seconds (
            write_block block_id entered
              (record (tick bm) { hash_to_block_id = insert h block_id bm.hash_to_block_id }))),
      record seq { cache_creation_input_tokens = seq.cache_creation_input_tokens + input_tokens },
    )

-- The loop of `commit_computed_tokens`.
unfoldable pub commit_loop :
    ℕ → ℕ → ℕ → Option ℕ → BlockManager → Sequence → Option (BlockManager × Sequence)
commit_loop up_to zero i prefix_hash bm seq = some (bm, seq)
commit_loop up_to (suc rounds) i prefix_hash bm seq = do
  block_id ← get_elem? seq.block_table i
  block ← get_elem? bm.blocks block_id
  token_ids ← block_for_tokens bm.block_size seq i up_to
  elim block.hash [
    | some h ↦ commit_loop up_to rounds (i + 1) (some h) bm seq
    | none ↦ elim (length token_ids == bm.block_size) [
      | false ↦ commit_loop up_to rounds (i + 1) prefix_hash bm seq
      | true ↦ do
        let h = compute_hash bm.host token_ids prefix_hash
        duplicate ← is_duplicate bm block_id token_ids (lookup h bm.hash_to_block_id)
        elim duplicate [
          | true ↦ commit_loop up_to rounds (i + 1) (some h) (count_duplicate bm) seq
          | false ↦
              let (bm', seq') = register_block i h token_ids block_id block bm seq in
              commit_loop up_to rounds (i + 1) (some h) bm' seq'
        ]
    ]
  ]

-- `commit_computed_tokens(seq, up_to_token)`
unfoldable pub commit_computed_tokens :
    BlockManager → Sequence → ℕ → Option (BlockManager × Sequence)
commit_computed_tokens bm seq up_to =
    if not (bm.enable_prefix_cache && seq.cache_enabled)
    then some (bm, seq)
    else if ltb (max_cacheable_tokens seq up_to) bm.prefix_cache_min_tokens
    then some (bm, seq)
    else commit_loop up_to (min up_to (max_cacheable_tokens seq up_to) / bm.block_size) 0
        (initial_prefix_hash bm seq) bm seq
