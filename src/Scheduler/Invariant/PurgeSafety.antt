-- ===== src/Scheduler/Invariant/PurgeSafety.antt =====
-- A purge of the prefix cache from the scheduler (nanovllm/engine/scheduler.py).
use nano_vllm_online_serving.Common.{
  ◌+◌, ◌≡◌, Bool, true, false, String, Option, length, Ensures, Ensures->>=,
}
use nano_vllm_online_serving.BlockManager.Eviction.{
  purge_cached_blocks, purge_expired_cached_blocks,
}
use nano_vllm_online_serving.BlockManager.Invariant.Expiry.{
  purge_cached_blocks-PurgesExactly, purge_expired_cached_blocks-PurgesExactly,
}
use nano_vllm_online_serving.Scheduler.State.{Scheduler}
use nano_vllm_online_serving.Scheduler.Purging.{purge_prefix_cache}
use nano_vllm_online_serving.Scheduler.Invariant.{IsSound, refs, held}
use nano_vllm_online_serving.Scheduler.Invariant.Victims.{purged-IsSound}

-- Purging the prefix cache raises nothing and keeps the scheduler sound; the number that it returns
-- is by how much the cached set shrinks.
pub purge_prefix_cache-IsSound :
    (namespace : Option String) (expired_only : Bool) (s : Scheduler)
    → IsSound s
    → Ensures (purge_prefix_cache namespace expired_only s) (λ r.
      IsSound r.0
      × (r.1 + length r.0.block_manager.cached_block_ids ≡ length s.block_manager.cached_block_ids))
unfolding purge_prefix_cache
purge_prefix_cache-IsSound namespace true s sound =
    Ensures->>= (purge_expired_cached_blocks namespace s.block_manager) _ _ _
      (purge_expired_cached_blocks-PurgesExactly namespace s.block_manager (held s.store (refs s))
        sound.valid)
      (λ p d. (purged-IsSound s p.0 sound d.valid d.kept.same, d.number))
purge_prefix_cache-IsSound namespace false s sound =
    Ensures->>= (purge_cached_blocks namespace s.block_manager) _ _ _
      (purge_cached_blocks-PurgesExactly namespace s.block_manager (held s.store (refs s))
        sound.valid)
      (λ p d. (purged-IsSound s p.0 sound d.valid d.kept.same, d.number))
