-- ===== src/Scheduler/State.antt =====
-- The state of `Scheduler` in nanovllm/engine/scheduler.py. Sequences are shared, mutable objects:
-- `store` maps an object reference to its present attributes, and the queues hold references.
use nano_vllm_online_serving.Common.{
  ℕ, Bool, true, false, Option, some, List, [], ◌∷◌, TextDict, ◌==◌, not, if◌then◌else◌, any_of,
  ◌>>=◌,
}
use nano_vllm_online_serving.Sequence.{Sequence, is_prompt_ready}
use nano_vllm_online_serving.BlockManager.Hashing.{Host}
use nano_vllm_online_serving.BlockManager.State.{BlockManager, CacheConfig, new_block_manager}

-- The values of `scheduler_fairness` that `Config` admits.
pub data Fairness : Type 0 where
  alternate fcfs prefill_first decode_first cache_aware_lpm : Fairness

-- The attributes of `Config` that the scheduler reads. `eos` is `none` for -1.
pub record SchedulerConfig : Type 0 where
  pub max_num_seqs : ℕ
  pub max_num_batched_tokens : ℕ
  pub max_prefill_chunk_tokens : ℕ
  pub min_prefill_chunk_tokens : ℕ
  pub kvcache_watermark_blocks : ℕ
  pub scheduler_fairness : Fairness
  pub eos : Option ℕ
  pub cache : CacheConfig

pub record Scheduler : Type 0 where
  pub config : SchedulerConfig
  pub open config use {
    max_num_seqs, max_num_batched_tokens, max_prefill_chunk_tokens, min_prefill_chunk_tokens,
    kvcache_watermark_blocks, scheduler_fairness, eos,
  }
  pub block_manager : BlockManager
  pub store : ℕ → Sequence
  pub waiting : List ℕ
  pub running : List ℕ
  pub last_step_was_prefill : Bool
  pub preemptions : ℕ
  pub prefill_watermark_delays : ℕ
  pub prefill_steps : ℕ
  pub decode_steps : ℕ
  pub waiting_ages : TextDict ℕ

-- `self.cache_aware_starvation_limit`
abbrev pub cache_aware_starvation_limit : ℕ
cache_aware_starvation_limit = 8

-- `Scheduler.__init__`. `policy_decisions` counts the same events as `prefill_steps` and
-- `decode_steps`, and is left out.
unfoldable pub new_scheduler : Host → SchedulerConfig → (ℕ → Sequence) → Option Scheduler
new_scheduler host c store = do
  bm ← new_block_manager host c.cache
  some (record {
    config = c;
    block_manager = bm;
    store = store;
    waiting = [];
    running = [];
    last_step_was_prefill = false;
    preemptions = 0;
    prefill_watermark_delays = 0;
    prefill_steps = 0;
    decode_steps = 0;
    waiting_ages = [];
  })

-- The object behind `r` takes the attributes `seq`.
abbrev pub write_seq : ℕ → Sequence → (ℕ → Sequence) → ℕ → Sequence
write_seq r seq store k = if r == k then seq else store k

-- The block manager and one sequence after a call that works on both.
abbrev pub with_result : ℕ → BlockManager × Sequence → Scheduler → Scheduler
with_result r (bm, seq) s = record s { block_manager = bm; store = write_seq r seq s.store }

unfoldable pub is_idle : Scheduler → Bool
is_idle s = elim s.waiting [ [] ↦ elim s.running [ [] ↦ true | r ∷ rs ↦ false ] | r ∷ rs ↦ false ]

-- `_has_prefill_work()` and `_has_decode_work()`
unfoldable pub has_prefill_work : Scheduler → Bool
has_prefill_work s = elim s.waiting [
  | r ∷ rs ↦ true
  | [] ↦ any_of (λ r. not (is_prompt_ready (s.store r))) s.running
]

unfoldable pub has_decode_work : Scheduler → Bool
has_decode_work s = any_of (λ r. is_prompt_ready (s.store r)) s.running
