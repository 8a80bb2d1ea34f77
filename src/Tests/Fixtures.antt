-- ===== src/Tests/Fixtures.antt =====
-- A block manager with one block in use, one cached and one free, and a scheduler with one running
-- and one waiting sequence (nanovllm/engine/block_manager.py and scheduler.py).
use nano_vllm_online_serving.Common.{
  ℕ, zero, suc, ◌+◌, ◌≡◌, ◌<◌, refl, true, false, none, some, List, [], ◌∷◌, arith, ◌==◌,
  if◌then◌else◌, Bool-cases, inl, inr,
}
use nano_vllm_online_serving.Sequence.{Sequence, SequenceStatus, is_running}
use nano_vllm_online_serving.BlockManager.Hashing.{Host}
use nano_vllm_online_serving.BlockManager.State.{CacheConfig, BlockManager, new_block, new_counters}
use nano_vllm_online_serving.BlockManager.Invariant.{CellOf, IsValid}
use nano_vllm_online_serving.Scheduler.State.{SchedulerConfig, Scheduler, cache_aware_lpm}
use nano_vllm_online_serving.Scheduler.Invariant.{IsSound}

abbrev pub sum_bytes : List ℕ → ℕ
sum_bytes [] = 0
sum_bytes (b ∷ bs) = b + sum_bytes bs

abbrev pub toy_host : Host
toy_host = record { xxhash = some sum_bytes; blake2b = sum_bytes; time = λ n. 100 + n }

abbrev pub toy_cache : CacheConfig
toy_cache = record {
  num_blocks = 3;
  block_size = 2;
  enable_prefix_cache = true;
  prefix_cache_min_tokens = 0;
  max_cached_blocks = 1;
  max_cached_blocks_per_namespace = 1;
}

-- Block 1 is cached with the tokens 1 and 2, whose bytes add up to 3; it expires at time 1000.
abbrev pub warm : BlockManager
warm = record {
  host = toy_host;
  config = toy_cache;
  blocks =
      record (new_block 0) { ref_count = 1 }
      ∷ record (new_block 1) {
        hash = some 3;
        token_ids = some (1 ∷ 2 ∷ []);
        expires_at = some 1000;
      }
      ∷ new_block 2
      ∷ [];
  hash_to_block_id = (3, 1) ∷ [];
  free_block_ids = 2 ∷ [];
  cached_block_ids = 1 ∷ [];
  used_block_ids = 0 ∷ [];
  clock = 5;
  time_reads = 0;
  counters = new_counters;
}

warm-CellOf : (i : ℕ) → CellOf warm (0 ∷ []) i
warm-CellOf zero = (refl, refl, refl, refl, refl)
warm-CellOf (suc zero) = (refl, refl, refl, refl, refl)
warm-CellOf (suc (suc zero)) = (refl, refl, refl, refl, refl)
warm-CellOf (suc (suc (suc i))) = ground arith

pub warm-IsValid : IsValid warm (0 ∷ [])
warm-IsValid = (warm-CellOf, λ h i e. ground (arith, e))

-- A running sequence that is about to decode its third token.
abbrev pub running_seq : Sequence
running_seq = record {
  seq_id = 0;
  request_id = "a";
  status = SequenceStatus.running;
  token_ids = 7 ∷ 8 ∷ [];
  last_token = 8;
  num_tokens = 2;
  num_prompt_tokens = 1;
  prefill_target_tokens = 1;
  num_cached_tokens = 0;
  num_computed_tokens = 1;
  block_table = 0 ∷ [];
  temperature = 0;
  max_tokens = 4;
  ignore_eos = false;
  cache_breakpoint_tokens = [];
  cacheable_prefix_tokens = none;
  cache_ttl_seconds = none;
  cache_namespace = "";
  cache_enabled = true;
  cache_read_input_tokens = 0;
  cache_creation_input_tokens = 0;
  scheduled_prefill_start = 0;
  scheduled_prefill_end = 0;
  finish_reason = none;
}

-- A waiting sequence whose first block is in the cache.
abbrev pub waiting_seq : Sequence
waiting_seq = record running_seq {
  seq_id = 1;
  request_id = "b";
  status = SequenceStatus.waiting;
  token_ids = 1 ∷ 2 ∷ 4 ∷ [];
  last_token = 4;
  num_tokens = 3;
  num_prompt_tokens = 3;
  prefill_target_tokens = 3;
  num_computed_tokens = 0;
  block_table = [];
}

abbrev pub toy_config : SchedulerConfig
toy_config = record {
  max_num_seqs = 2;
  max_num_batched_tokens = 8;
  max_prefill_chunk_tokens = 4;
  min_prefill_chunk_tokens = 1;
  kvcache_watermark_blocks = 0;
  scheduler_fairness = cache_aware_lpm;
  eos = some 2;
  cache = toy_cache;
}

abbrev pub toy_store : Sequence → ℕ → Sequence
toy_store seq r = if r == 0 then seq else waiting_seq

abbrev pub two_queues : Sequence → Scheduler
two_queues seq = record {
  config = toy_config;
  block_manager = warm;
  store = toy_store seq;
  waiting = 1 ∷ [];
  running = 0 ∷ [];
  last_step_was_prefill = false;
  preemptions = 0;
  prefill_watermark_delays = 0;
  prefill_steps = 0;
  decode_steps = 0;
  waiting_ages = ("b", 0) ∷ [];
}

pub two_queues-IsSound :
    (seq : Sequence)
    → seq.block_table ≡ 0 ∷ []
    → is_running seq ≡ true
    → 0 < seq.num_tokens
    → IsSound (two_queues seq)
unfolding is_running
two_queues-IsSound seq table going some_tokens = record {
  valid = rw table warm-IsValid;
  once = λ r. ground arith;
  positive = omega arith;
  bounded = omega arith;
  waits = λ r h. elim (Bool-cases (r == 0)) [
    | inl zeroth ↦ absurd (ground (arith, zeroth, h))
    | inr other ↦ rw other refl
  ];
  runs = λ r h. elim (Bool-cases (r == 0)) [
    | inl zeroth ↦ rw zeroth going
    | inr other ↦ absurd (ground (arith, other, h))
  ];
  sized = λ r h. elim (Bool-cases (r == 0)) [
    | inl zeroth ↦ rw zeroth some_tokens
    | inr other ↦ rw other (omega arith)
  ];
}

-- Sequence 0 decodes, sequence 1 waits.
abbrev pub busy : Scheduler
busy = two_queues running_seq

pub busy-IsSound : IsSound busy
unfolding is_running
busy-IsSound = two_queues-IsSound running_seq refl refl (omega arith)
