-- ===== src/BlockManager/Reports.antt =====
-- The reports of `BlockManager` (nanovllm/engine/block_manager.py): `stats`, which purges first,
-- and `inspect`. The hit rate is the fraction of two counts, not rounded.
use nano_vllm_online_serving.Common.{
  ℕ, ◌+◌, Option, none, some, List, [], ◌∷◌, TextDict, ◌==◌, if◌then◌else◌, length, get_elem?,
  add_to, ◌>>=◌,
}
use nano_vllm_online_serving.BlockManager.State.{Block, Counters, BlockManager}
use nano_vllm_online_serving.BlockManager.Eviction.{purge_expired}

-- `cached_blocks_by_namespace()`, over the cached ids.
unfoldable pub count_namespaces : List Block → List ℕ → TextDict ℕ → Option (TextDict ℕ)
count_namespaces blocks [] result = some result
count_namespaces blocks (i ∷ ids) result = do
  block ← get_elem? blocks i
  count_namespaces blocks ids (add_to block.namespace 1 result)

unfoldable pub cached_blocks_by_namespace : BlockManager → Option (TextDict ℕ)
cached_blocks_by_namespace bm = count_namespaces bm.blocks bm.cached_block_ids []

-- `cache_hit_rate`: `none` is 0.0, `some (a, b)` is a / b.
unfoldable pub cache_hit_rate : BlockManager → Option (ℕ × ℕ)
cache_hit_rate bm =
    let total = bm.counters.prefix_cache_hits + bm.counters.prefix_cache_misses in
    if total == 0 then none else some (bm.counters.prefix_cache_hits, total)

-- The dictionary of `stats`; `counters` stands for the twelve entries that are copies of a
-- counter.
pub record Stats : Type 0 where
  pub num_blocks : ℕ
  pub free_blocks : ℕ
  pub cached_blocks : ℕ
  pub used_blocks : ℕ
  pub by_namespace : TextDict ℕ
  pub hit_rate : Option (ℕ × ℕ)
  pub counters : Counters
  pub max_cached_blocks : ℕ
  pub max_cached_blocks_per_namespace : ℕ

-- `stats()`
unfoldable pub stats : BlockManager → Option (BlockManager × Stats)
stats bm = do
  (bm', purged) ← purge_expired bm
  by_namespace ← cached_blocks_by_namespace bm'
  some (
    bm',
    record {
      num_blocks = length bm'.blocks;
      free_blocks = length bm'.free_block_ids;
      cached_blocks = length bm'.cached_block_ids;
      used_blocks = length bm'.used_block_ids;
      by_namespace = by_namespace;
      hit_rate = cache_hit_rate bm';
      counters = bm'.counters;
      max_cached_blocks = bm'.max_cached_blocks;
      max_cached_blocks_per_namespace = bm'.max_cached_blocks_per_namespace;
    },
  )

-- The dictionary of `inspect`.
pub record Inspection : Type 0 where
  pub block_size : ℕ
  pub num_blocks : ℕ
  pub free_blocks : ℕ
  pub used_blocks : ℕ
  pub cached_blocks : ℕ
  pub by_namespace : TextDict ℕ
  pub hits : ℕ
  pub misses : ℕ
  pub hit_rate : Option (ℕ × ℕ)
  pub miss_reasons : TextDict ℕ
  pub evictions : ℕ
  pub expired_purges : ℕ
  pub max_cached_blocks : ℕ
  pub max_cached_blocks_per_namespace : ℕ

-- `inspect()`
unfoldable pub inspect : BlockManager → Option Inspection
inspect bm = do
  by_namespace ← cached_blocks_by_namespace bm
  some (record {
    block_size = bm.block_size;
    num_blocks = length bm.blocks;
    free_blocks = length bm.free_block_ids;
    used_blocks = length bm.used_block_ids;
    cached_blocks = length bm.cached_block_ids;
    by_namespace = by_namespace;
    hits = bm.counters.prefix_cache_hits;
    misses = bm.counters.prefix_cache_misses;
    hit_rate = cache_hit_rate bm;
    miss_reasons = bm.counters.prefix_cache_miss_reasons;
    evictions = bm.counters.evictions;
    expired_purges = bm.counters.expired_purges;
    max_cached_blocks = bm.max_cached_blocks;
    max_cached_blocks_per_namespace = bm.max_cached_blocks_per_namespace;
  })
