-- ===== src/BlockManager/Allocation.antt =====
-- Taking and releasing blocks (nanovllm/engine/block_manager.py).
use nano_vllm_online_serving.Common.{
  ℕ, zero, suc, ◌+◌, ◌-◌, Bool, Option, none, some, List, [], ◌∷◌, ◌++◌, ltb, leb, ◌==◌, ◌&&◌, not,
  if◌then◌else◌, length, get_elem?, discard, add_elem, require, reverse, ◌>>=◌, ◌>>◌,
}
use nano_vllm_online_serving.Sequence.{Sequence, num_blocks_for_tokens, reset_cache_usage}
use nano_vllm_online_serving.BlockManager.State.{
  Block, BlockManager, no_hash, reset_live, current_time, after_reading, write_block, tick,
}
use nano_vllm_online_serving.BlockManager.Eviction.{
  free_block, purge_expired, pop_free, evict_cached_block, enforce_namespace_quota,
  enforce_global_quota,
}

-- `_take_free_block_id`
unfoldable pub take_free_block_id : BlockManager → Option (BlockManager × ℕ)
take_free_block_id bm = do
  (bm', purged) ← purge_expired bm
  elim bm'.free_block_ids [ [] ↦ evict_cached_block bm' | i ∷ rest ↦ pop_free bm' ]

-- The block gets its first reference and enters the used set.
unfoldable pub make_live : ℕ → Block → BlockManager → BlockManager
make_live block_id block bm =
    let live = record (reset_live block) { last_accessed = bm.clock + 1 } in
    write_block block_id live (record (tick bm) {
      used_block_ids = add_elem block_id bm.used_block_ids;
      cached_block_ids = discard block_id bm.cached_block_ids;
    })

-- `_allocate_new_block`, with the id of the block that it returns.
unfoldable pub allocate_new_block : BlockManager → Option (BlockManager × ℕ)
allocate_new_block bm = do
  (bm', block_id) ← take_free_block_id bm
  block ← get_elem? bm'.blocks block_id
  require (block.ref_count == 0)
  some (make_live block_id block bm', block_id)

-- The value of `expires_at` after `_refresh_expiry`, and whether it read the time.
unfoldable pub refreshed_expiry : BlockManager → Option ℕ → Option ℕ
refreshed_expiry bm ttl = elim ttl [ none ↦ none | some t ↦ some (current_time bm + t) ]

unfoldable pub after_refresh : Option ℕ → BlockManager → BlockManager
after_refresh ttl bm = elim ttl [ none ↦ bm | some t ↦ after_reading bm ]

-- `_attach_cached_block(block_id, seq)`
unfoldable pub attach_cached_block : ℕ → Option ℕ → BlockManager → Option BlockManager
attach_cached_block block_id ttl bm = do
  block ← get_elem? bm.blocks block_id
  let unused = block.ref_count == 0
  let attached = record block {
    ref_count = block.ref_count + 1;
    last_accessed = bm.clock + 1;
    expires_at = refreshed_expiry bm ttl;
  }
  some (
      after_refresh ttl (
        write_block block_id attached (record (tick bm) {
          cached_block_ids =
              if unused then discard block_id bm.cached_block_ids else bm.cached_block_ids;
          used_block_ids =
              if unused then add_elem block_id bm.used_block_ids else bm.used_block_ids;
        })))

-- The part of `_release_block` that keeps the block in the cache.
unfoldable pub cache_block : ℕ → Block → BlockManager → Option BlockManager
cache_block block_id block bm = do
  (bm', _) ←
      enforce_namespace_quota block.namespace
        (record bm { cached_block_ids = add_elem block_id bm.cached_block_ids })
  (bm'', _) ← enforce_global_quota bm'
  some bm''

-- The end of `_release_block`, for a block whose last reference is gone. `bm` is the state with
-- the count at 0, the id out of the used set and the clock ticked.
unfoldable pub retire_block : ℕ → Block → BlockManager → Option BlockManager
retire_block block_id block bm =
    if bm.enable_prefix_cache && not (no_hash block.hash)
    then cache_block block_id block bm
    else some (free_block block_id block bm)

-- `_release_block(block_id)`
unfoldable pub release_block : ℕ → BlockManager → Option BlockManager
release_block block_id bm = do
  block ← get_elem? bm.blocks block_id
  require (ltb 0 block.ref_count)
  let idle = record block { ref_count = 0; last_accessed = bm.clock + 1 }
  if ltb 1 block.ref_count
      then some (write_block block_id (record block { ref_count = block.ref_count - 1 }) bm)
      else retire_block block_id idle (
          write_block block_id idle
            (record (tick bm) { used_block_ids = discard block_id bm.used_block_ids }))

-- `available_blocks()`
unfoldable pub available_blocks : BlockManager → Option (BlockManager × ℕ)
available_blocks bm = do
  (bm', purged) ← purge_expired bm
  some (bm', length bm'.free_block_ids + length bm'.cached_block_ids)

-- `can_allocate(seq, target_num_tokens, reserve_blocks)`
unfoldable pub can_allocate : BlockManager → Sequence → ℕ → ℕ → Option (BlockManager × Bool)
can_allocate bm seq target_num_tokens reserve_blocks = do
  let needed_blocks = num_blocks_for_tokens bm.block_size target_num_tokens
  (bm', available) ← available_blocks bm
  some (bm', leb (needed_blocks - length seq.block_table) (available - reserve_blocks))

-- The `while` of `ensure_blocks`, with the rounds that it still makes.
unfoldable pub grow_table : ℕ → BlockManager → Sequence → Option (BlockManager × Sequence)
grow_table zero bm seq = some (bm, seq)
grow_table (suc missing) bm seq = do
  (bm', block_id) ← allocate_new_block bm
  grow_table missing bm' (record seq { block_table = seq.block_table ++ block_id ∷ [] })

-- `ensure_blocks(seq, target_num_tokens)`: each round adds one block, so there are as many rounds
-- as blocks are missing.
unfoldable pub ensure_blocks : BlockManager → Sequence → ℕ → Option (BlockManager × Sequence)
ensure_blocks bm seq target_num_tokens = do
  require (ltb 0 target_num_tokens)
  let needed_blocks = num_blocks_for_tokens bm.block_size target_num_tokens
  grow_table (needed_blocks - length seq.block_table) bm seq

-- `can_append(seq)` and `may_append(seq)`
unfoldable pub can_append : BlockManager → Sequence → Option (BlockManager × Bool)
can_append bm seq = can_allocate bm seq seq.num_tokens 0

unfoldable pub may_append : BlockManager → Sequence → Option (BlockManager × Sequence)
may_append bm seq = ensure_blocks bm seq seq.num_tokens

unfoldable pub release_all : List ℕ → BlockManager → Option BlockManager
release_all [] bm = some bm
release_all (i ∷ ids) bm = do bm' ← release_block i bm; release_all ids bm'

-- `deallocate(seq)`
unfoldable pub deallocate : BlockManager → Sequence → Option (BlockManager × Sequence)
deallocate bm seq = do
  bm' ← release_all (reverse seq.block_table) bm
  let emptied = record seq { num_cached_tokens = 0; num_computed_tokens = 0; block_table = [] }
  some (bm', reset_cache_usage emptied)
