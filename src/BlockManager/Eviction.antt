-- ===== src/BlockManager/Eviction.antt =====
-- Giving cached blocks back: purges, the quota loops and the eviction of the least recently used
-- block (nanovllm/engine/block_manager.py). Each loop over a snapshot of the cached set recurs on
-- that list; the quota loops take the length of the list as fuel, and run out of it never.
use nano_vllm_online_serving.Common.{
  ℕ, zero, suc, ◌+◌, Bool, true, false, String, Option, none, some, List, [], ◌∷◌, ◌++◌, ltb, leb,
  ◌==◌, if◌then◌else◌, length, get_elem?, remove?, require, ◌>>=◌, ◌>>◌, str_eq,
}
use nano_vllm_online_serving.BlockManager.State.{
  Block, BlockManager, clear, without_mapping, current_time, after_reading, write_block,
  add_miss_reason,
}

-- `_remove_hash_mapping(block); block.clear(); self.free_block_ids.append(block_id)`
unfoldable pub free_block : ℕ → Block → BlockManager → BlockManager
free_block block_id block bm = write_block block_id (clear block) (record bm {
  hash_to_block_id = without_mapping block bm.hash_to_block_id;
  free_block_ids = bm.free_block_ids ++ block_id ∷ [];
})

-- `_purge_cached_block(block_id)`
unfoldable pub purge_cached_block : ℕ → BlockManager → Option BlockManager
purge_cached_block block_id bm = do
  block ← get_elem? bm.blocks block_id
  require (block.ref_count == 0)
  cached ← remove? block_id bm.cached_block_ids
  some (free_block block_id block (record bm { cached_block_ids = cached }))

-- `for block_id in ids: if test(block): purge`, with the number of purges.
unfoldable pub purge_loop : (Block → Bool) → List ℕ → ℕ → BlockManager → Option (BlockManager × ℕ)
purge_loop test [] purged bm = some (bm, purged)
purge_loop test (i ∷ ids) purged bm = do
  block ← get_elem? bm.blocks i
  bm' ← if test block then purge_cached_block i bm else some bm
  purge_loop test ids (if test block then purged + 1 else purged) bm'

-- `block.expires_at is not None and block.expires_at <= now`
unfoldable pub has_expired : ℕ → Block → Bool
has_expired now b = elim b.expires_at [ none ↦ false | some t ↦ leb t now ]

abbrev pub add_expired_purges : ℕ → BlockManager → BlockManager
add_expired_purges n bm = record bm {
  counters = let c = bm.counters in record c { expired_purges = c.expired_purges + n };
}

-- `_purge_expired_cached_blocks`
unfoldable pub purge_expired : BlockManager → Option (BlockManager × ℕ)
purge_expired bm = do
  let now = current_time bm
  (bm', purged) ← purge_loop (has_expired now) bm.cached_block_ids 0 (after_reading bm)
  let counted = add_expired_purges purged bm'
  some (if ltb 0 purged then add_miss_reason "ttl_expired" purged counted else counted, purged)

-- `namespace is None or block.namespace == namespace`
unfoldable pub in_namespace : Option String → Block → Bool
in_namespace namespace b = elim namespace [ none ↦ true | some ns ↦ str_eq b.namespace ns ]

-- `purge_cached_blocks(namespace)`
unfoldable pub purge_cached_blocks : Option String → BlockManager → Option (BlockManager × ℕ)
purge_cached_blocks namespace bm = purge_loop (in_namespace namespace) bm.cached_block_ids 0 bm

-- `purge_expired_cached_blocks(namespace)`
unfoldable pub purge_expired_cached_blocks :
    Option String → BlockManager → Option (BlockManager × ℕ)
purge_expired_cached_blocks namespace bm = do
  let now = current_time bm
  (bm', purged) ←
      purge_loop (λ b. if in_namespace namespace b then has_expired now b else false)
        bm.cached_block_ids 0 (after_reading bm)
  some (add_expired_purges purged bm', purged)

-- `min(ids, key=lambda i: self.blocks[i].last_accessed)`: the first with the least key.
unfoldable pub oldest_from : List Block → ℕ → ℕ → List ℕ → Option ℕ
oldest_from blocks best key [] = some best
oldest_from blocks best key (i ∷ ids) = do
  block ← get_elem? blocks i
  let better = ltb block.last_accessed key
  oldest_from blocks (if better then i else best) (if better then block.last_accessed else key) ids

unfoldable pub oldest : List Block → List ℕ → Option ℕ
oldest blocks [] = none
oldest blocks (i ∷ ids) = do
  block ← get_elem? blocks i
  oldest_from blocks i block.last_accessed ids

abbrev pub add_eviction : BlockManager → BlockManager
add_eviction bm = record bm {
  counters = let c = bm.counters in record c { evictions = c.evictions + 1 };
}

-- `self.free_block_ids.popleft()`
unfoldable pub pop_free : BlockManager → Option (BlockManager × ℕ)
pop_free bm = elim bm.free_block_ids [
  | [] ↦ none
  | i ∷ rest ↦ some (record bm { free_block_ids = rest }, i)
]

-- `_evict_cached_block`: the id that it returns is taken from the free list again.
unfoldable pub evict_cached_block : BlockManager → Option (BlockManager × ℕ)
evict_cached_block bm = do
  block_id ← oldest bm.blocks bm.cached_block_ids
  block ← get_elem? bm.blocks block_id
  cached ← remove? block_id bm.cached_block_ids
  pop_free (add_eviction (free_block block_id block (record bm { cached_block_ids = cached })))

abbrev pub add_namespace_eviction : BlockManager → BlockManager
add_namespace_eviction bm = record bm {
  counters =
      let c = bm.counters in
      record c {
        evictions = c.evictions + 1;
        namespace_quota_evictions = c.namespace_quota_evictions + 1;
      };
}

-- `[i for i in cached_block_ids if self.blocks[i].namespace == namespace]`
unfoldable pub ids_in_namespace : List Block → String → List ℕ → Option (List ℕ)
ids_in_namespace blocks namespace [] = some []
ids_in_namespace blocks namespace (i ∷ ids) = do
  block ← get_elem? blocks i
  rest ← ids_in_namespace blocks namespace ids
  some (if str_eq block.namespace namespace then i ∷ rest else rest)

-- The `while` of `_enforce_namespace_quota`, over its list `block_ids`.
unfoldable pub namespace_quota_loop : ℕ → List ℕ → ℕ → BlockManager → Option (BlockManager × ℕ)
namespace_quota_loop zero block_ids evicted bm = none
namespace_quota_loop (suc fuel) block_ids evicted bm =
    elim (ltb bm.max_cached_blocks_per_namespace (length block_ids)) [
      | false ↦ some (bm, evicted)
      | true ↦ do
        victim ← oldest bm.blocks block_ids
        bm' ← purge_cached_block victim bm
        rest ← remove? victim block_ids
        namespace_quota_loop fuel rest (evicted + 1) (add_namespace_eviction bm')
    ]

-- `_enforce_namespace_quota(namespace)`
unfoldable pub enforce_namespace_quota : String → BlockManager → Option (BlockManager × ℕ)
enforce_namespace_quota namespace bm =
    if bm.max_cached_blocks_per_namespace == 0 then some (bm, 0) else do
      block_ids ← ids_in_namespace bm.blocks namespace bm.cached_block_ids
      namespace_quota_loop (suc (length block_ids)) block_ids 0 bm

abbrev pub add_global_eviction : BlockManager → BlockManager
add_global_eviction bm = record bm {
  counters =
      let c = bm.counters in
      record c {
        evictions = c.evictions + 1;
        global_quota_evictions = c.global_quota_evictions + 1;
      };
}

-- The `while` of `_enforce_global_quota`.
unfoldable pub global_quota_loop : ℕ → ℕ → BlockManager → Option (BlockManager × ℕ)
global_quota_loop zero evicted bm = none
global_quota_loop (suc fuel) evicted bm =
    elim (ltb bm.max_cached_blocks (length bm.cached_block_ids)) [
      | false ↦ some (bm, evicted)
      | true ↦ do
        victim ← oldest bm.blocks bm.cached_block_ids
        bm' ← purge_cached_block victim bm
        global_quota_loop fuel (evicted + 1) (add_global_eviction bm')
    ]

-- `_enforce_global_quota()`
unfoldable pub enforce_global_quota : BlockManager → Option (BlockManager × ℕ)
enforce_global_quota bm =
    if bm.max_cached_blocks == 0
    then some (bm, 0)
    else global_quota_loop (suc (length bm.cached_block_ids)) 0 bm
