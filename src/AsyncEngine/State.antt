-- ===== src/AsyncEngine/State.antt =====
-- The state of `AsyncLLMEngine` in nanovllm/engine/async_engine.py. The clock gives whole ticks, and
-- one reading serves a call.
use nano_vllm_online_serving.Common.{
  ℕ, ◌+◌, ◌-◌, Bool, false, String, Option, none, some, List, [], ◌∷◌, ◌++◌, ltb, ◌==◌, not, max,
  if◌then◌else◌, length, drop, select, str_eq,
}
use nano_vllm_online_serving.LlmEngine.{LlmEngine, Failure, Output}
use nano_vllm_online_serving.Pending.{AsyncRequest, ActiveLimits}

-- The arguments of `AsyncLLMEngine.__init__`. A number that must not be negative is a natural.
pub record AsyncOptions : Type 0 where
  pub max_pending_requests : ℕ
  pub max_active_requests : Option ℕ
  pub output_queue_size : ℕ
  pub max_pending_prompt_tokens : Option ℕ
  pub max_active_tokens : Option ℕ
  pub max_active_tokens_per_namespace : Option ℕ
  pub max_pending_requests_per_namespace : Option ℕ
  pub max_active_requests_per_namespace : Option ℕ
  pub metrics_window_size : ℕ

-- The limits among the attributes.
pub record AsyncConfig : Type 0 where
  pub max_pending_requests : ℕ
  pub output_queue_size : ℕ
  pub max_pending_prompt_tokens : Option ℕ
  pub max_pending_requests_per_namespace : Option ℕ
  pub metrics_window_size : ℕ
  pub limits : ActiveLimits

-- `x if x and x > 0 else None`
unfoldable pub positive_or_none : Option ℕ → Option ℕ
positive_or_none none = none
positive_or_none (some n) = if ltb 0 n then some n else none

-- The limits that `__init__` sets.
unfoldable pub new_config : AsyncOptions → AsyncConfig
new_config o = record {
  max_pending_requests = o.max_pending_requests;
  output_queue_size = o.output_queue_size;
  max_pending_prompt_tokens = o.max_pending_prompt_tokens;
  max_pending_requests_per_namespace = positive_or_none o.max_pending_requests_per_namespace;
  metrics_window_size = max 1 o.metrics_window_size;
  limits = record {
    max_active_requests = o.max_active_requests;
    max_active_requests_per_namespace = positive_or_none o.max_active_requests_per_namespace;
    max_active_tokens = o.max_active_tokens;
    max_active_tokens_per_namespace = positive_or_none o.max_active_tokens_per_namespace;
  };
}

-- The dictionaries that `_fail_request` and `_timeout_request` send.
pub data EndReason : Type 0 where
  failure : Failure → EndReason
  queue_timeout request_timeout : EndReason

pub record ErrorOutput : Type 0 where
  pub request_id : String
  pub trace_id : String
  pub error : EndReason
  pub error_type : String
  pub finish_reason : String

-- What stands in an output queue: an output of the engine, an error, or `_STOP`. An error counts as
-- finished.
pub data Item : Type 0 where
  token : Output → Item
  error : ErrorOutput → Item
  stop : Item

-- What the client shares of an `AsyncRequest`: its queue, its `finished` and `first_token_at`, and
-- whether the client's loop over the queue in `iter_request` has ended.
pub record Channel : Type 0 where
  pub queue : List Item
  pub finished : Bool
  pub first_token_at : Option ℕ
  pub ended : Bool

-- A sum, a maximum and the recent values of one measurement.
pub record Series : Type 0 where
  pub total : ℕ
  pub maximum : ℕ
  pub recent : List ℕ

-- Tokens and time of the steps of one kind.
pub record Throughput : Type 0 where
  pub tokens : ℕ
  pub elapsed : ℕ
  pub recent : List (ℕ × ℕ)

pub record RequestCounters : Type 0 where
  pub submitted_requests : ℕ
  pub dequeued_requests : ℕ
  pub finished_requests : ℕ
  pub cancelled_requests : ℕ
  pub failed_requests : ℕ
  pub timed_out_requests : ℕ
  pub rejected_requests : ℕ
  pub streamed_tokens : ℕ
  pub ttft_count : ℕ
  pub loop_errors : ℕ

-- `pending_by_id` and `active` are the values of the source's dictionaries in their order; the key
-- of a request is its `request_id` there. `task_running` says that `_task` exists and is not done.
pub record AsyncState : Type 0 where
  pub config : AsyncConfig
  pub engine : Option LlmEngine
  pub task_running : Bool
  pub pending : List AsyncRequest
  pub pending_by_id : List AsyncRequest
  pub active : List AsyncRequest
  pub channels : ℕ → Channel
  pub next_channel : ℕ
  pub draining : Bool
  pub fatal_error : Option Failure
  pub last_engine_error : Option Failure
  pub counters : RequestCounters
  pub ttft : Series
  pub latency : Series
  pub queue_wait : Series
  pub prefill_steps : Throughput
  pub decode_steps : Throughput

abbrev pub new_channel : Channel
new_channel = record { queue = []; finished = false; first_token_at = none; ended = false }

abbrev pub new_series : Series
new_series = record { total = 0; maximum = 0; recent = [] }

abbrev pub new_throughput : Throughput
new_throughput = record { tokens = 0; elapsed = 0; recent = [] }

abbrev pub new_request_counters : RequestCounters
new_request_counters = record {
  submitted_requests = 0;
  dequeued_requests = 0;
  finished_requests = 0;
  cancelled_requests = 0;
  failed_requests = 0;
  timed_out_requests = 0;
  rejected_requests = 0;
  streamed_tokens = 0;
  ttft_count = 0;
  loop_errors = 0;
}

-- `AsyncLLMEngine.__init__`
unfoldable pub new_async_engine : AsyncOptions → AsyncState
new_async_engine o = record {
  config = new_config o;
  engine = none;
  task_running = false;
  pending = [];
  pending_by_id = [];
  active = [];
  channels = λ q. new_channel;
  next_channel = 0;
  draining = false;
  fatal_error = none;
  last_engine_error = none;
  counters = new_request_counters;
  ttft = new_series;
  latency = new_series;
  queue_wait = new_series;
  prefill_steps = new_throughput;
  decode_steps = new_throughput;
}

-- `deque(maxlen=window).append(x)`: the oldest values go.
unfoldable pub append_recent {ℓ} : {A : Type ℓ} → ℕ → A → List A → List A
append_recent window x xs = let ys = xs ++ x ∷ [] in drop (length ys - window) ys

-- A total, a maximum and a list of recent values take a new one.
unfoldable pub observe : ℕ → ℕ → Series → Series
observe window x m = record {
  total = m.total + x;
  maximum = max m.maximum x;
  recent = append_recent window x m.recent;
}

unfoldable pub observe_step : ℕ → ℕ → ℕ → Throughput → Throughput
observe_step window tokens elapsed t = record {
  tokens = t.tokens + tokens;
  elapsed = t.elapsed + elapsed;
  recent = append_recent window (tokens, elapsed) t.recent;
}

-- `d.get(request_id)`, `d[request.request_id] = request` and `d.pop(request_id, None)`
unfoldable pub get_request : String → List AsyncRequest → Option AsyncRequest
get_request id [] = none
get_request id (r ∷ rs) = if str_eq r.request_id id then some r else get_request id rs

unfoldable pub set_request : AsyncRequest → List AsyncRequest → List AsyncRequest
set_request q [] = q ∷ []
set_request q (r ∷ rs) = if str_eq r.request_id q.request_id then q ∷ rs else r ∷ set_request q rs

unfoldable pub pop_request : String → List AsyncRequest → List AsyncRequest
pop_request id rs = select (λ r. not (str_eq r.request_id id)) rs

-- `self.pending.remove(request)` of an object that stands in the deque at most once.
unfoldable pub remove_request : AsyncRequest → List AsyncRequest → List AsyncRequest
remove_request q [] = []
remove_request q (r ∷ rs) = if r.output_queue == q.output_queue then rs else r ∷ remove_request q rs

-- The object behind a reference takes new attributes.
abbrev pub write_channel : ℕ → Channel → AsyncState → AsyncState
write_channel q c s = record s { channels = λ k. if q == k then c else s.channels k }
