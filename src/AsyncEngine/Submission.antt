-- ===== src/AsyncEngine/Submission.antt =====
-- `add_request` of `AsyncLLMEngine` with its tests, in their order, and `start`
-- (nanovllm/engine/async_engine.py). The log of requests is not modelled.
use nano_vllm_online_serving.Common.{
  ℕ, ◌+◌, Bool, true, false, String, Option, none, some, List, [], ◌∷◌, leb, not, ◌||◌, length,
  any_of, str_eq,
}
use nano_vllm_online_serving.Sequence.{SamplingParams}
use nano_vllm_online_serving.LlmEngine.{
  LlmEngine, Prompt, text, token_list, CacheOptions, encode_prompt,
}
use nano_vllm_online_serving.Pending.{AsyncRequest, enqueue_pending, of_namespace, within}
use nano_vllm_online_serving.AsyncEngine.State.{AsyncState, new_channel, set_request, write_channel}
use nano_vllm_online_serving.AsyncEngine.Admission.{expire_pending}
use nano_vllm_online_serving.AsyncEngine.Validating.{
  Number, RawSampling, RawPrompt, Refusal, engine_fatal_error, engine_draining, queue_full,
  duplicate_request_id, pending_request_namespace_budget, pending_prompt_token_budget,
  single_request_active_token_budget, single_request_namespace_active_token_budget,
  request_validation, Checked, refused, passed, ◌>>=◌, ◌>>◌, refuse_if, validate_timeout,
  validate_sampling_params, validate_priority, check_prompt,
}

-- The arguments of `add_request`, with the ids and the namespace resolved. A missing timeout is
-- `none`; `none` is a priority on which `int` raises.
pub record Submission : Type 0 where
  pub request_id : String
  pub trace_id : String
  pub prompt : RawPrompt
  pub sampling_params : RawSampling
  pub cache_options : CacheOptions
  pub request_timeout_s : Option Number
  pub queue_timeout_s : Option Number
  pub priority : Option ℕ
  pub namespace : String

-- `start()`; `make` is the engine that `engine_cls(...)` gives.
unfoldable pub start : LlmEngine → AsyncState → AsyncState
start make s = elim s.fatal_error [
  | some e ↦ s
  | none ↦ record s {
    engine = elim s.engine [ none ↦ some make | some e ↦ some e ];
    task_running = true;
  }
]

-- Its result. There is an engine after `start`, unless the engine has failed before.
unfoldable pub prompt_token_count : Option LlmEngine → Prompt → ℕ
prompt_token_count none (text t) = 0
prompt_token_count none (token_list ids) = length ids
prompt_token_count (some e) prompt = length (encode_prompt e.backend prompt)

-- `_pending_prompt_tokens()`
unfoldable pub pending_prompt_tokens : List AsyncRequest → ℕ
pending_prompt_tokens [] = 0
pending_prompt_tokens (r ∷ rs) = r.prompt_token_count + pending_prompt_tokens rs

-- `request_id in d`
unfoldable pub has_request : String → List AsyncRequest → Bool
has_request id rs = any_of (λ r. str_eq r.request_id id) rs

-- The tests on the state of the engine.
unfoldable pub check_open : AsyncState → Checked (Unit {0})
check_open s = elim s.fatal_error [
  | some e ↦ refused (engine_fatal_error e)
  | none ↦ refuse_if s.draining engine_draining
]

-- The tests on the queue: its length, the id and the number of requests of the namespace.
unfoldable pub check_queue : Submission → AsyncState → Checked (Unit {0})
check_queue a s = do
  refuse_if (leb s.config.max_pending_requests (length s.pending_by_id)) queue_full
  refuse_if (has_request a.request_id s.pending_by_id || has_request a.request_id s.active)
      duplicate_request_id
  refuse_if
      (not (
        within s.config.max_pending_requests_per_namespace
          (length (of_namespace a.namespace s.pending_by_id) + 1)))
      pending_request_namespace_budget

-- The tests on the number of tokens of the prompt, and of the prompt and the completion.
unfoldable pub check_tokens : ℕ → ℕ → AsyncState → Checked (Unit {0})
check_tokens prompt_tokens estimated s = do
  refuse_if (leb prompt_tokens 0) (request_validation "prompt must contain at least one token")
  refuse_if
      (not (
        within s.config.max_pending_prompt_tokens
          (pending_prompt_tokens s.pending_by_id + prompt_tokens)))
      pending_prompt_token_budget
  refuse_if (not (within s.config.limits.max_active_tokens estimated))
      single_request_active_token_budget
  refuse_if (not (within s.config.limits.max_active_tokens_per_namespace estimated))
      single_request_namespace_active_token_budget

-- The arguments once they are validated.
pub record Parameters : Type 0 where
  pub sampling_params : SamplingParams
  pub request_timeout_s : Option ℕ
  pub queue_timeout_s : Option ℕ
  pub priority : ℕ

-- The tests on the arguments. A default timeout stands in for a missing one before.
unfoldable pub check_parameters : Submission → Checked Parameters
check_parameters a = do
  sampling_params ← validate_sampling_params a.sampling_params
  request_timeout ← validate_timeout a.request_timeout_s
  queue_timeout ← validate_timeout a.queue_timeout_s
  priority ← validate_priority a.priority
  passed (record {
    sampling_params = sampling_params;
    request_timeout_s = request_timeout;
    queue_timeout_s = queue_timeout;
    priority = priority;
  })

-- The request that `add_request` makes, a new object.
unfoldable pub make_request : ℕ → Submission → Parameters → Prompt → AsyncState → AsyncRequest
make_request now a p prompt s =
    let prompt_tokens = prompt_token_count s.engine prompt in
    record {
      request_id = a.request_id;
      trace_id = a.trace_id;
      prompt = prompt;
      sampling_params = p.sampling_params;
      cache_options = a.cache_options;
      output_queue = s.next_channel;
      created_at = now;
      request_timeout_s = p.request_timeout_s;
      queue_timeout_s = p.queue_timeout_s;
      priority = p.priority;
      namespace = a.namespace;
      prompt_token_count = prompt_tokens;
      estimated_token_count = prompt_tokens + p.sampling_params.max_tokens;
      cancelled = false;
    }

-- The last tests, on a request that is made at their end in the source.
unfoldable pub check_made : AsyncRequest → AsyncState → Checked AsyncRequest
check_made r s = do check_tokens r.prompt_token_count r.estimated_token_count s; passed r

-- The tests of `add_request` in their order, and the request.
unfoldable pub check_request : ℕ → Submission → AsyncState → Checked AsyncRequest
check_request now a s = do
  check_open s
  p ← check_parameters a
  check_queue a s
  prompt ← check_prompt a.prompt
  check_made (make_request now a p prompt s) s

-- The counter of the branches that count their refusal: all but the validation of arguments.
unfoldable pub count_refusal : Refusal → AsyncState → AsyncState
count_refusal (request_validation message) s = s
count_refusal _ s = record s {
  counters = record s.counters { rejected_requests = s.counters.rejected_requests + 1 };
}

-- The end of `add_request`: a new object with an empty queue, known by id and put in its place.
unfoldable pub submit : AsyncRequest → AsyncState → AsyncState
submit r s =
    let s1 = write_channel r.output_queue new_channel s in
    record s1 {
      next_channel = s1.next_channel + 1;
      counters = record s1.counters { submitted_requests = s1.counters.submitted_requests + 1 };
      pending_by_id = set_request r s1.pending_by_id;
      pending = enqueue_pending r s1.pending;
    }

-- `add_request(...)` after `start()`.
unfoldable pub add_request : ℕ → Submission → AsyncState → AsyncState × Checked AsyncRequest
add_request now a s =
    let s1 = expire_pending now s in
    elim (check_request now a s1) [
      | refused e ↦ (count_refusal e s1, refused e)
      | passed r ↦ (submit r s1, passed r)
    ]
