-- ===== src/Tests/Requests.antt =====
-- Runs of the sequence (nanovllm/engine/sequence.py), of the checks on a request
-- (nanovllm/engine/request_validation.py) and of the pending queue
-- (nanovllm/engine/async_engine.py).
use nano_vllm_online_serving.Common.{
  true, false, ℕ, ◌-◌, ◌*◌, ◌/◌, ◌≡◌, refl, ltb, ◌&&◌, none, some, [], ◌∷◌, ◌++◌, arith, elem,
  get_elem?, Ensures,
}
use nano_vllm_online_serving.Sequence.{
  Sequence, SequenceStatus, normalize_cache_breakpoints, max_cacheable_tokens, block,
}
use nano_vllm_online_serving.Sequence.Breakpoints.{
  IsAscending, is_named, normalize_cache_breakpoints-IsAscending, IsLimit,
  max_cacheable_tokens-IsLimit,
}
use nano_vllm_online_serving.Sequence.Blocks.{block-get_elem?}
use nano_vllm_online_serving.Sequence.Pickle.{get_state, set_state, set_state-get_state}
use nano_vllm_online_serving.Validation.{
  pos, accepted, validate_request_limits, IsWithin, validate_request_limits-IsWithin,
}
use nano_vllm_online_serving.LlmEngine.{token_list}
use nano_vllm_online_serving.Pending.{
  AsyncRequest, ActiveLimits, enqueue_pending, pop_next_admissible,
}
use nano_vllm_online_serving.Pending.Order.{ahead, behind, IsOrdered, enqueue_pending-IsOrdered}
use nano_vllm_online_serving.Pending.Limits.{PopAnswers, pop_next_admissible-PopAnswers}
use nano_vllm_online_serving.Tests.Fixtures.{waiting_seq}

-- A sequence with two breakpoints.
abbrev marked_seq : Sequence
marked_seq = record waiting_seq {
  cache_breakpoint_tokens = 1 ∷ 2 ∷ [];
  cacheable_prefix_tokens = some 2;
}

normalize_cache_breakpoints-IsAscending_example :
    IsAscending 0 (normalize_cache_breakpoints (some 2) (5 ∷ 0 ∷ 2 ∷ []))
    × ((z : ℕ)
        → elem z (normalize_cache_breakpoints (some 2) (5 ∷ 0 ∷ 2 ∷ []))
          ≡ (ltb 0 z && is_named (some 2) (5 ∷ 0 ∷ 2 ∷ []) z))
normalize_cache_breakpoints-IsAscending_example =
    normalize_cache_breakpoints-IsAscending (some 2) (5 ∷ 0 ∷ 2 ∷ [])

max_cacheable_tokens-IsLimit_example : IsLimit (1 ∷ 2 ∷ []) 3 (max_cacheable_tokens marked_seq 3)
max_cacheable_tokens-IsLimit_example =
    max_cacheable_tokens-IsLimit marked_seq 3 1 (2 ∷ []) refl (omega arith, (omega arith, tt))

block-get_elem?_example :
    Ensures
      (block 2 waiting_seq (2 / 2))
      (λ ts. get_elem? ts (2 - 2 / 2 * 2) ≡ get_elem? waiting_seq.token_ids 2)
block-get_elem?_example = block-get_elem? 2 waiting_seq 2 (omega arith) (omega arith)

set_state-get_state_example :
    set_state (get_state marked_seq)
    ≡ some (record marked_seq { status = SequenceStatus.running; finish_reason = none })
set_state-get_state_example = set_state-get_state marked_seq refl tt

validate_request_limits-IsWithin_example :
    (validate_request_limits (pos 3) (pos 4) 8 2 (pos 4) ≡ accepted
      → IsWithin (pos 3) (pos 4) 8 2 (pos 4))
    × (IsWithin (pos 3) (pos 4) 8 2 (pos 4)
        → validate_request_limits (pos 3) (pos 4) 8 2 (pos 4) ≡ accepted)
validate_request_limits-IsWithin_example =
    validate_request_limits-IsWithin (pos 3) (pos 4) 8 2 (pos 4) (omega arith)

-- A request of this priority.
abbrev request : ℕ → AsyncRequest
request priority = record {
  request_id = "r";
  trace_id = "r";
  prompt = token_list (1 ∷ 2 ∷ []);
  sampling_params = record { temperature = 0; max_tokens = 8; ignore_eos = false };
  cache_options = record {
    cacheable_prefix_tokens = none;
    cache_breakpoint_tokens = [];
    cache_ttl_seconds = some 300;
    cache_namespace = "";
    cache_enabled = true;
  };
  output_queue = 0;
  created_at = 0;
  request_timeout_s = none;
  queue_timeout_s = none;
  priority = priority;
  namespace = "";
  prompt_token_count = 2;
  estimated_token_count = 10;
  cancelled = false;
}

enqueue_pending-IsOrdered_example :
    (enqueue_pending (request 1) (request 2 ∷ request 0 ∷ [])
      ≡ ahead (request 1) (request 2 ∷ request 0 ∷ [])
        ++ request 1 ∷ behind (request 1) (request 2 ∷ request 0 ∷ []))
    × IsOrdered 2 (enqueue_pending (request 1) (request 2 ∷ request 0 ∷ []))
enqueue_pending-IsOrdered_example =
    enqueue_pending-IsOrdered (request 1) 2 (request 2 ∷ request 0 ∷ []) (omega arith)
      (omega arith, (omega arith, tt))

abbrev one_at_a_time : ActiveLimits
one_at_a_time = record {
  max_active_requests = some 1;
  max_active_requests_per_namespace = none;
  max_active_tokens = some 16;
  max_active_tokens_per_namespace = none;
}

pop_next_admissible-PopAnswers_example :
    PopAnswers one_at_a_time []
      (request 2 ∷ request 0 ∷ [])
      (pop_next_admissible one_at_a_time [] (request 2 ∷ request 0 ∷ []))
pop_next_admissible-PopAnswers_example =
    pop_next_admissible-PopAnswers one_at_a_time [] (request 2 ∷ request 0 ∷ [])
