-- ===== src/Tests/Overtaken.antt =====
-- A sound state in which `schedule` of nanovllm/engine/scheduler.py raises: sequence 0 runs with an
-- empty table, its first two tokens were cached since it was admitted, and a chunk has two tokens.
use nano_vllm_online_serving.Common.{false, ℕ, zero, suc, ◌≡◌, refl, none, some, [], ◌∷◌, arith}
use nano_vllm_online_serving.Sequence.{Sequence, is_running}
use nano_vllm_online_serving.BlockManager.State.{BlockManager, new_block}
use nano_vllm_online_serving.BlockManager.Invariant.{CellOf, IsValid}
use nano_vllm_online_serving.Scheduler.State.{Scheduler}
use nano_vllm_online_serving.Scheduler.Invariant.{IsSound}
use nano_vllm_online_serving.Scheduler.Invariant.Overtaking.{ScheduleRaises}
use nano_vllm_online_serving.Scheduler.Invariant.Raising.{schedule-ScheduleRaises}
use nano_vllm_online_serving.Tests.Fixtures.{toy_config, warm, running_seq, waiting_seq}
use nano_vllm_online_serving.Scheduler.Decode.{schedule, try_prefill}
use nano_vllm_online_serving.Scheduler.Policy.{
  age_waiting, prefers_prefill, reorder_waiting, prefill_chunk_budget, prefill_reserve_blocks,
}
use nano_vllm_online_serving.Scheduler.State.{has_decode_work, has_prefill_work}
use nano_vllm_online_serving.Sequence.{
  is_prompt_ready, num_blocks_for_tokens, max_cacheable_tokens, block_for_tokens, reset_cache_usage,
}
use nano_vllm_online_serving.Scheduler.Prefill.{
  schedule_prefill, prefill_loop, is_full, remaining_budget, prefill_target, schedule_chunk,
}
use nano_vllm_online_serving.Scheduler.Queues.{admit_waiting, admit_loop}
use nano_vllm_online_serving.BlockManager.Allocation.{
  can_allocate, available_blocks, attach_cached_block, make_live, refreshed_expiry, after_refresh,
}
use nano_vllm_online_serving.BlockManager.Eviction.{purge_expired, purge_loop, has_expired}
use nano_vllm_online_serving.BlockManager.Prefix.{
  prepare_prefill, match_cached_prefix, match_enabled, max_cache_tokens, match_loop, holds_tokens,
  same_tokens,
}
use nano_vllm_online_serving.BlockManager.Hashing.{
  compute_hash, digest, pack_tokens, to_bytes, compute_namespace_hash,
}
use nano_vllm_online_serving.BlockManager.State.{prompt_tokens_in_block, initial_prefix_hash}

-- Block 1 is cached with the tokens 1 and 2, and the others are free.
abbrev shared : BlockManager
shared = record warm {
  blocks =
      new_block 0
      ∷ record (new_block 1) {
        hash = some 3;
        token_ids = some (1 ∷ 2 ∷ []);
        expires_at = some 1000;
      }
      ∷ new_block 2
      ∷ [];
  free_block_ids = 0 ∷ 2 ∷ [];
  used_block_ids = [];
}

shared-CellOf : (i : ℕ) → CellOf shared [] i
shared-CellOf zero = (refl, refl, refl, refl, refl)
shared-CellOf (suc zero) = (refl, refl, refl, refl, refl)
shared-CellOf (suc (suc zero)) = (refl, refl, refl, refl, refl)
shared-CellOf (suc (suc (suc i))) = ground arith

shared-IsValid : IsValid shared []
shared-IsValid = (shared-CellOf, λ h i e. ground (arith, e))

abbrev admitted_seq : Sequence
admitted_seq = record waiting_seq { status = running_seq.status }

abbrev overtaken : Scheduler
overtaken = record {
  config = record toy_config { max_prefill_chunk_tokens = 2 };
  block_manager = shared;
  store = λ r. admitted_seq;
  waiting = [];
  running = 0 ∷ [];
  last_step_was_prefill = false;
  preemptions = 0;
  prefill_watermark_delays = 0;
  prefill_steps = 0;
  decode_steps = 0;
  waiting_ages = [];
}

overtaken-IsSound : IsSound overtaken
unfolding is_running
overtaken-IsSound = record {
  valid = shared-IsValid;
  once = λ r. ground arith;
  positive = omega arith;
  bounded = omega arith;
  waits = λ r h. absurd (ground (arith, h));
  runs = λ r h. refl;
  sized = λ r h. omega arith;
}

-- The run of the code on it.
raises : schedule overtaken ≡ none
unfolding schedule try_prefill age_waiting prefers_prefill reorder_waiting prefill_chunk_budget
    prefill_reserve_blocks has_decode_work has_prefill_work is_prompt_ready num_blocks_for_tokens
    max_cacheable_tokens block_for_tokens reset_cache_usage schedule_prefill prefill_loop is_full
    remaining_budget prefill_target schedule_chunk admit_waiting admit_loop can_allocate
    available_blocks attach_cached_block make_live refreshed_expiry after_refresh purge_expired
    purge_loop has_expired prepare_prefill match_cached_prefix match_enabled max_cache_tokens
    match_loop holds_tokens same_tokens compute_hash digest pack_tokens to_bytes
    compute_namespace_hash prompt_tokens_in_block initial_prefix_hash
raises = refl

overtaken_found : ScheduleRaises overtaken
overtaken_found = (schedule-ScheduleRaises overtaken overtaken-IsSound).0 raises
