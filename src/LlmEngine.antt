-- ===== src/LlmEngine.antt =====
-- `LLMEngine` of nanovllm/engine/llm_engine.py: the limits, the scheduler and the model behind one
-- interface. The tokenizer and the model runner are parameters: functions that the engine calls.
pub mod Soundness
use nano_vllm_online_serving.Common.{
  ℕ, zero, suc, ◌+◌, ◌-◌, Bool, true, false, String, Option, none, some, List, [], ◌∷◌, map, length,
  ◌>>=◌,
}
use nano_vllm_online_serving.Sequence.{
  SamplingParams, Sequence, SequenceOptions, new_sequence, completion_token_ids, CacheUsage,
}
use nano_vllm_online_serving.Validation.{
  ℤ, pos, negsuc, LimitError, accepted, refused, validate_request_limits,
}
use nano_vllm_online_serving.Scheduler.State.{Scheduler, write_seq, is_idle}
use nano_vllm_online_serving.Scheduler.Queues as Queues
use nano_vllm_online_serving.Scheduler.Queues.{add}
use nano_vllm_online_serving.Scheduler.Purging as Purging
use nano_vllm_online_serving.Scheduler.Decode.{prefill, decode, no_schedulable, schedule}
use nano_vllm_online_serving.Scheduler.Postprocess.{Event, postprocess}

-- The tokenizer's `encode` and `decode`, and `model_runner.call("run", seqs, is_prefill)`. The
-- model's answer depends on what it computed before, so it is given the number of the call; it may
-- raise.
pub record Backend : Type 0 where
  pub encode : String → List ℕ
  pub decode_tokens : List ℕ → String
  pub run : ℕ → List Sequence → Bool → Option (List ℕ)

-- The attributes of `LLMEngine` and of its `Config` that its methods read. `next_seq` is the next
-- value of `Sequence.counter`, which also names the object in the scheduler's store.
pub record LlmEngine : Type 0 where
  pub backend : Backend
  pub scheduler : Scheduler
  pub max_model_len : ℕ
  pub kvcache_block_size : ℕ
  pub num_kvcache_blocks : ℤ
  pub next_seq : ℕ
  pub model_runs : ℕ

-- `prompt: str | list[int]`
pub data Prompt : Type 0 where
  text : String → Prompt
  token_list : List ℕ → Prompt

-- The keyword arguments about the prefix cache.
pub record CacheOptions : Type 0 where
  pub cacheable_prefix_tokens : Option ℕ
  pub cache_breakpoint_tokens : List ℕ
  pub cache_ttl_seconds : Option ℕ
  pub cache_namespace : String
  pub cache_enabled : Bool

-- The exceptions that come out of the engine: a `ValueError` of the limits, or any other.
pub data Failure : Type 0 where
  over_limit : LimitError → Failure
  raised : Failure

pub data Added : Type 0 where
  added : LlmEngine → Added
  not_added : Failure → Added

unfoldable pub encode_prompt : Backend → Prompt → List ℕ
encode_prompt backend (text t) = backend.encode t
encode_prompt backend (token_list ids) = ids

-- The object that `add_request` makes enters the store and the scheduler's queue.
unfoldable pub enter : LlmEngine → Sequence → LlmEngine
enter e seq =
    let stored = record e.scheduler { store = write_seq e.next_seq seq e.scheduler.store } in
    record e { scheduler = add e.next_seq stored; next_seq = e.next_seq + 1 }

-- `add_request(...)`, always called with a request id. `max_tokens` is never negative here.
unfoldable pub add_request : Prompt → SamplingParams → String → CacheOptions → LlmEngine → Added
add_request prompt sampling request_id o e =
    let ids = encode_prompt e.backend prompt in
    let verdict =
      validate_request_limits (pos (length ids)) (pos sampling.max_tokens) e.max_model_len
        e.kvcache_block_size e.num_kvcache_blocks in
    elim verdict [
      | refused error ↦ not_added (over_limit error)
      | accepted ↦
          elim (new_sequence ids (record {
            seq_id = e.next_seq;
            request_id = request_id;
            sampling_params = sampling;
            cacheable_prefix_tokens = o.cacheable_prefix_tokens;
            cache_breakpoint_tokens = o.cache_breakpoint_tokens;
            cache_ttl_seconds = o.cache_ttl_seconds;
            cache_namespace = o.cache_namespace;
            cache_enabled = o.cache_enabled;
          })) [ none ↦ not_added raised | some seq ↦ added (enter e seq) ]
    ]

-- `abort_request(request_id)`; `none` where the scheduler raises.
unfoldable pub abort_request : String → LlmEngine → Option (LlmEngine × Bool)
abort_request request_id e = do
  (s, found) ← Queues.abort request_id e.scheduler
  some (record e { scheduler = s }, found)

-- The dictionary that `step` returns for an event.
pub record Output : Type 0 where
  pub request_id : String
  pub seq_id : ℕ
  pub token_id : Option ℕ
  pub text : String
  pub completion_tokens : List ℕ
  pub finished : Bool
  pub finish_reason : Option String
  pub usage : Option CacheUsage

unfoldable pub output_of : Backend → (ℕ → Sequence) → Event → Output
output_of backend store event =
    let seq = store event.seq in
    record {
      request_id = seq.request_id;
      seq_id = seq.seq_id;
      token_id = event.token_id;
      text = elim event.token_id [ none ↦ "" | some t ↦ backend.decode_tokens (t ∷ []) ];
      completion_tokens = completion_token_ids seq;
      finished = event.finished;
      finish_reason = event.finish_reason;
      usage = event.usage;
    }

-- `sum(seq.scheduled_prefill_end - seq.scheduled_prefill_start for seq in seqs)`; a chunk never
-- ends before it starts.
unfoldable pub scheduled_tokens : (ℕ → Sequence) → List ℕ → ℕ
scheduled_tokens store [] = 0
scheduled_tokens store (r ∷ rs) =
    (store r).scheduled_prefill_end - (store r).scheduled_prefill_start + scheduled_tokens store rs

-- `-n`
unfoldable pub negated : ℕ → ℤ
negated zero = pos 0
negated (suc n) = negsuc n

-- `step()` after `schedule()`, which left the scheduler `s`: the model runs on the batch, and the
-- scheduler takes its tokens.
unfoldable pub finish_step :
    List ℕ → Bool → ℤ → Scheduler → LlmEngine → Option (LlmEngine × List Output × ℤ)
finish_step seqs is_prefill num_tokens s e = do
  token_ids ← e.backend.run e.model_runs (map s.store seqs) is_prefill
  (s1, events) ← postprocess seqs token_ids is_prefill s
  some (
    record e { scheduler = s1; model_runs = e.model_runs + 1 },
    map (output_of e.backend s1.store) events,
    num_tokens,
  )

-- `step()`; `none` where a call raises, as `schedule` does when nothing can be scheduled.
unfoldable pub step : LlmEngine → Option (LlmEngine × List Output × ℤ)
step e = do
  (s, decision) ← schedule e.scheduler
  elim decision [
    | prefill seqs ↦ finish_step seqs true (pos (scheduled_tokens s.store seqs)) s e
    | decode seqs ↦ finish_step seqs false (negated (length seqs)) s e
    | no_schedulable ↦ none
  ]

unfoldable pub is_finished : LlmEngine → Bool
is_finished e = is_idle e.scheduler

-- `purge_prefix_cache(namespace, expired_only)`
unfoldable pub purge_prefix_cache : Option String → Bool → LlmEngine → Option (LlmEngine × ℕ)
purge_prefix_cache namespace expired_only e = do
  (s, purged) ← Purging.purge_prefix_cache namespace expired_only e.scheduler
  some (record e { scheduler = s }, purged)
