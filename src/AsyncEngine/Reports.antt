-- ===== src/AsyncEngine/Reports.antt =====
-- `metrics` of `AsyncLLMEngine` and what it computes (nanovllm/engine/async_engine.py), without the
-- entries of `engine.metrics()`. A quotient of floats is kept as its two numbers, rounded nowhere.
use nano_vllm_online_serving.Common.{
  ℕ, ◌+◌, ◌-◌, ◌*◌, ◌/◌, ◌%◌, Bool, Option, none, some, List, [], ◌∷◌, TextDict, ltb, leb, ◌==◌,
  min, if◌then◌else◌, length, get_elem?, add_to,
}
use nano_vllm_online_serving.LlmEngine.{Failure}
use nano_vllm_online_serving.Pending.{AsyncRequest, estimated_tokens}
use nano_vllm_online_serving.AsyncEngine.State.{AsyncState, AsyncConfig, RequestCounters}
use nano_vllm_online_serving.AsyncEngine.Submission.{pending_prompt_tokens}

-- `_estimated_tokens_by_namespace(requests)`, from the entries of the requests before.
unfoldable pub add_tokens_by_namespace : List AsyncRequest → TextDict ℕ → TextDict ℕ
add_tokens_by_namespace [] d = d
add_tokens_by_namespace (r ∷ rs) d =
    add_tokens_by_namespace rs (add_to r.namespace r.estimated_token_count d)

unfoldable pub estimated_tokens_by_namespace : List AsyncRequest → TextDict ℕ
estimated_tokens_by_namespace rs = add_tokens_by_namespace rs []

-- `_request_count_by_namespace(requests)`
unfoldable pub add_counts_by_namespace : List AsyncRequest → TextDict ℕ → TextDict ℕ
add_counts_by_namespace [] d = d
add_counts_by_namespace (r ∷ rs) d = add_counts_by_namespace rs (add_to r.namespace 1 d)

unfoldable pub request_count_by_namespace : List AsyncRequest → TextDict ℕ
request_count_by_namespace rs = add_counts_by_namespace rs []

-- `sorted(values)`
unfoldable pub insert_value : ℕ → List ℕ → List ℕ
insert_value x [] = x ∷ []
insert_value x (y ∷ ys) = if leb x y then x ∷ y ∷ ys else y ∷ insert_value x ys

unfoldable pub sort_values : List ℕ → List ℕ
sort_values [] = []
sort_values (x ∷ xs) = insert_value x (sort_values xs)

-- `int(round(n * percent / 100))`: to the nearest, to the even one of two.
unfoldable pub round_percent : ℕ → ℕ → ℕ
round_percent n percent =
    let whole = n * percent / 100 in
    let rest = n * percent % 100 in
    if ltb rest 50 then whole else if ltb 50 rest then whole + 1 else whole + whole % 2

-- `_percentile(values, p)` with p in hundredths.
unfoldable pub percentile : List ℕ → ℕ → ℕ
percentile values percent =
    let top = length values - 1 in
    elim (get_elem? (sort_values values) (min top (round_percent top percent))) [
      | none ↦ 0
      | some v ↦ v
    ]

-- `a / b if b else 0.0`
pub record Ratio : Type 0 where
  pub over : ℕ
  pub under : ℕ

unfoldable pub ratio : ℕ → ℕ → Ratio
ratio a b = if b == 0 then record { over = 0; under = 1 } else record { over = a; under = b }

unfoldable pub sum_tokens : List (ℕ × ℕ) → ℕ
sum_tokens [] = 0
sum_tokens ((tokens, elapsed) ∷ steps) = tokens + sum_tokens steps

unfoldable pub sum_elapsed : List (ℕ × ℕ) → ℕ
sum_elapsed [] = 0
sum_elapsed ((tokens, elapsed) ∷ steps) = elapsed + sum_elapsed steps

-- `_recent_tok_s(steps)`
unfoldable pub recent_tok_s : List (ℕ × ℕ) → Ratio
recent_tok_s steps = ratio (sum_tokens steps) (sum_elapsed steps)

-- The dictionary that `metrics` returns.
pub record Metrics : Type 0 where
  pub draining : Bool
  pub active_requests : ℕ
  pub active_requests_by_namespace : TextDict ℕ
  pub active_estimated_tokens : ℕ
  pub active_estimated_tokens_by_namespace : TextDict ℕ
  pub pending_requests : ℕ
  pub pending_requests_by_namespace : TextDict ℕ
  pub pending_prompt_tokens : ℕ
  pub pending_estimated_tokens : ℕ
  pub pending_estimated_tokens_by_namespace : TextDict ℕ
  pub counters : RequestCounters
  pub completed_requests : ℕ
  pub prefill_tokens : ℕ
  pub decode_tokens : ℕ
  pub avg_prefill_tok_s : Ratio
  pub avg_decode_tok_s : Ratio
  pub recent_prefill_tok_s : Ratio
  pub recent_decode_tok_s : Ratio
  pub avg_ttft_s : Ratio
  pub max_ttft_s : ℕ
  pub recent_ttft_p50_s : ℕ
  pub recent_ttft_p95_s : ℕ
  pub recent_ttft_p99_s : ℕ
  pub avg_queue_wait_s : Ratio
  pub max_queue_wait_s : ℕ
  pub recent_queue_wait_p50_s : ℕ
  pub recent_queue_wait_p95_s : ℕ
  pub avg_latency_s : Ratio
  pub max_latency_s : ℕ
  pub recent_latency_p50_s : ℕ
  pub recent_latency_p95_s : ℕ
  pub recent_latency_p99_s : ℕ
  pub engine_loop_running : Bool
  pub last_engine_error : Option Failure
  pub fatal_error : Option Failure
  pub config : AsyncConfig

-- `metrics()` where there is an engine. The counters of requests are passed on as they are, and the
-- limits with `config`.
unfoldable pub metrics : AsyncState → Metrics
metrics s =
    let c = s.counters in
    let completed = c.finished_requests + c.failed_requests + c.timed_out_requests in
    record {
      draining = s.draining;
      active_requests = length s.active;
      active_requests_by_namespace = request_count_by_namespace s.active;
      active_estimated_tokens = estimated_tokens s.active;
      active_estimated_tokens_by_namespace = estimated_tokens_by_namespace s.active;
      pending_requests = length s.pending_by_id;
      pending_requests_by_namespace = request_count_by_namespace s.pending_by_id;
      pending_prompt_tokens = pending_prompt_tokens s.pending_by_id;
      pending_estimated_tokens = estimated_tokens s.pending_by_id;
      pending_estimated_tokens_by_namespace = estimated_tokens_by_namespace s.pending_by_id;
      counters = c;
      completed_requests = completed;
      prefill_tokens = s.prefill_steps.tokens;
      decode_tokens = s.decode_steps.tokens;
      avg_prefill_tok_s = ratio s.prefill_steps.tokens s.prefill_steps.elapsed;
      avg_decode_tok_s = ratio s.decode_steps.tokens s.decode_steps.elapsed;
      recent_prefill_tok_s = recent_tok_s s.prefill_steps.recent;
      recent_decode_tok_s = recent_tok_s s.decode_steps.recent;
      avg_ttft_s = ratio s.ttft.total c.ttft_count;
      max_ttft_s = s.ttft.maximum;
      recent_ttft_p50_s = percentile s.ttft.recent 50;
      recent_ttft_p95_s = percentile s.ttft.recent 95;
      recent_ttft_p99_s = percentile s.ttft.recent 99;
      avg_queue_wait_s = ratio s.queue_wait.total c.dequeued_requests;
      max_queue_wait_s = s.queue_wait.maximum;
      recent_queue_wait_p50_s = percentile s.queue_wait.recent 50;
      recent_queue_wait_p95_s = percentile s.queue_wait.recent 95;
      avg_latency_s = ratio s.latency.total completed;
      max_latency_s = s.latency.maximum;
      recent_latency_p50_s = percentile s.latency.recent 50;
      recent_latency_p95_s = percentile s.latency.recent 95;
      recent_latency_p99_s = percentile s.latency.recent 99;
      engine_loop_running = s.task_running;
      last_engine_error = s.last_engine_error;
      fatal_error = s.fatal_error;
      config = s.config;
    }
