-- ===== src/Scheduler/Purging.antt =====
-- `purge_prefix_cache` of nanovllm/engine/scheduler.py.
use nano_vllm_online_serving.Common.{ℕ, Bool, true, false, String, Option, some, ◌>>=◌}
use nano_vllm_online_serving.BlockManager.Eviction.{
  purge_cached_blocks, purge_expired_cached_blocks,
}
use nano_vllm_online_serving.Scheduler.State.{Scheduler}

-- `purge_prefix_cache(namespace, expired_only)`
unfoldable pub purge_prefix_cache : Option String → Bool → Scheduler → Option (Scheduler × ℕ)
purge_prefix_cache namespace expired_only s = do
  (bm, purged) ← elim expired_only [
    | true ↦ purge_expired_cached_blocks namespace s.block_manager
    | false ↦ purge_cached_blocks namespace s.block_manager
  ]
  some (record s { block_manager = bm }, purged)
