-- ===== src/Tests/Batches.antt =====
-- States of the scheduler with a batch that is being run (nanovllm/engine/scheduler.py).
use nano_vllm_online_serving.Common.{
  ℕ, zero, suc, refl, false, [], ◌∷◌, arith, ◌==◌, Bool-cases, inl, inr,
}
use nano_vllm_online_serving.Sequence.{Sequence, is_running, is_prompt_ready, num_blocks_for_tokens}
use nano_vllm_online_serving.BlockManager.State.{BlockManager, new_block}
use nano_vllm_online_serving.BlockManager.Invariant.{CellOf}
use nano_vllm_online_serving.Scheduler.State.{Scheduler}
use nano_vllm_online_serving.Scheduler.Invariant.{IsSound}
use nano_vllm_online_serving.Scheduler.Invariant.Batches.{IsDecodeBatch}
use nano_vllm_online_serving.Scheduler.Invariant.PrefillBatches.{IsPrefillBatch}
use nano_vllm_online_serving.Tests.Fixtures.{
  toy_cache, warm, running_seq, two_queues, two_queues-IsSound, busy, busy-IsSound,
}

-- Sequence 0 has the second of its two prompt tokens in a chunk.
abbrev pub chunked_seq : Sequence
chunked_seq = record running_seq {
  num_prompt_tokens = 2;
  prefill_target_tokens = 2;
  scheduled_prefill_start = 1;
  scheduled_prefill_end = 2;
}

abbrev pub chunked : Scheduler
chunked = two_queues chunked_seq

pub chunked-IsSound : IsSound chunked
unfolding is_running
chunked-IsSound = two_queues-IsSound chunked_seq refl refl (omega arith)

pub chunked-IsPrefillBatch : IsPrefillBatch chunked (0 ∷ [])
unfolding num_blocks_for_tokens
chunked-IsPrefillBatch = record {
  small = omega arith;
  budget = omega arith;
  distinct = λ x. ground arith;
  runs = λ x h. ground (arith, h);
  chunks = λ x h. elim (Bool-cases (x == 0)) [
    | inl zeroth ↦ rw zeroth (record {
      start = refl;
      nonempty = omega arith;
      within = omega arith;
      covered = omega arith;
    })
    | inr other ↦ absurd (ground (arith, other, h))
  ];
}

pub busy-IsDecodeBatch : IsDecodeBatch busy (0 ∷ [])
unfolding is_prompt_ready num_blocks_for_tokens
busy-IsDecodeBatch = record {
  small = omega arith;
  distinct = λ x. ground arith;
  runs = λ x h. ground (arith, h);
  ready = λ x h. elim (Bool-cases (x == 0)) [
    | inl zeroth ↦ rw zeroth refl
    | inr other ↦ absurd (ground (arith, other, h))
  ];
  covered = λ x h. elim (Bool-cases (x == 0)) [
    | inl zeroth ↦ rw zeroth (omega arith)
    | inr other ↦ absurd (ground (arith, other, h))
  ];
}

-- The same two sequences without a prefix cache, and nothing cached.
abbrev pub cold : BlockManager
cold = record warm {
  config = record toy_cache { enable_prefix_cache = false };
  blocks = record (new_block 0) { ref_count = 1 } ∷ new_block 1 ∷ new_block 2 ∷ [];
  hash_to_block_id = [];
  free_block_ids = 1 ∷ 2 ∷ [];
  cached_block_ids = [];
}

cold-CellOf : (i : ℕ) → CellOf cold (0 ∷ []) i
cold-CellOf zero = (refl, refl, refl, refl, refl)
cold-CellOf (suc zero) = (refl, refl, refl, refl, refl)
cold-CellOf (suc (suc zero)) = (refl, refl, refl, refl, refl)
cold-CellOf (suc (suc (suc i))) = ground arith

abbrev pub uncached : Scheduler
uncached = record busy { block_manager = cold }

pub uncached-IsSound : IsSound uncached
uncached-IsSound = record {
  valid = (cold-CellOf, λ h i e. cc);
  once = busy-IsSound.once;
  positive = omega arith;
  bounded = busy-IsSound.bounded;
  waits = busy-IsSound.waits;
  runs = busy-IsSound.runs;
  sized = busy-IsSound.sized;
}
