-- ===== src/Scheduler/Invariant/Starting.antt =====
-- `Scheduler.__init__` of nanovllm/engine/scheduler.py.
use nano_vllm_online_serving.Common.{
  ℕ, true, ◌<◌, ◌≡◌, refl, some, arith, Ensures, Ensures-value, ◌>>=◌, lt→ltb,
}
use nano_vllm_online_serving.Sequence.{Sequence}
use nano_vllm_online_serving.BlockManager.Hashing.{Host}
use nano_vllm_online_serving.BlockManager.State.{BlockManager, CacheConfig, new_block_manager}
use nano_vllm_online_serving.BlockManager.Invariant.Conservation.{new_block_manager-IsValid}
use nano_vllm_online_serving.Scheduler.State.{SchedulerConfig, new_scheduler, is_idle}
use nano_vllm_online_serving.Scheduler.Invariant.{IsSound}

new_block_manager-config :
    (host : Host) (c : CacheConfig) (bm : BlockManager)
    → 0 < c.num_blocks
    → new_block_manager host c ≡ some bm
    → bm.block_size ≡ c.block_size
unfolding new_block_manager
new_block_manager-config host c bm h e = ground (arith, lt→ltb 0 c.num_blocks h, e)

-- With at least one block of a positive size, a new scheduler is sound and has nothing to do.
pub new_scheduler-IsSound :
    (host : Host) (c : SchedulerConfig) (store : ℕ → Sequence)
    → 0 < c.cache.num_blocks
    → 0 < c.cache.block_size
    → Ensures (new_scheduler host c store) (λ s. IsSound s × (is_idle s ≡ true))
unfolding new_scheduler is_idle
new_scheduler-IsSound host c store some_blocks positive =
    let (bm, e, start) =
      Ensures-value (new_block_manager host c.cache) _
        (new_block_manager-IsValid host c.cache some_blocks) in
    let size = new_block_manager-config host c.cache bm some_blocks e in
    rw (e, ◌>>=◌)
      (
        record {
          valid = start.0;
          once = λ r. omega arith;
          positive = rw size positive;
          bounded = omega arith;
          waits = λ r h. absurd (omega (arith, h));
          runs = λ r h. absurd (omega (arith, h));
          sized = λ r h. absurd (omega (arith, h));
        },
        refl,
      )
