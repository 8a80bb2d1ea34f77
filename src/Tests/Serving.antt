-- ===== src/Tests/Serving.antt =====
-- The theorems about the engines (nanovllm/engine/llm_engine.py and async_engine.py) at small states.
use nano_vllm_online_serving.Common.{
  ℕ, ◌≡◌, ◌<◌, refl, true, false, none, some, List, [], ◌∷◌, arith, length,
}
use nano_vllm_online_serving.Sequence.{is_running}
use nano_vllm_online_serving.Validation.{pos}
use nano_vllm_online_serving.LlmEngine.{
  encode_prompt, Backend, LlmEngine, Output, token_list, step, raised,
}
use nano_vllm_online_serving.LlmEngine.Soundness.{Steps, StepFails, step-Steps}
use nano_vllm_online_serving.Scheduler.Invariant.Chunking.{Settles}
use nano_vllm_online_serving.Pending.{AsyncRequest, of_namespace, within, enqueue_pending}
use nano_vllm_online_serving.AsyncEngine.State.{
  AsyncOptions, AsyncState, Item, token, stop, new_channel, new_async_engine, new_config,
  positive_or_none, get_request, set_request, pop_request, remove_request,
}
use nano_vllm_online_serving.AsyncEngine.Channels.{
  set_finished, count_cancelled, put_stop, has_room, put_nowait,
}
use nano_vllm_online_serving.AsyncEngine.Aborting.{abort, abort_pending, iter_request}
use nano_vllm_online_serving.AsyncEngine.Admission.{
  for_each, expire_pending, next_admissible, drain_pending,
}
use nano_vllm_online_serving.AsyncEngine.Submission.{
  Submission, add_request, submit, start, check_request, check_open, check_parameters, check_queue,
  has_request, make_request, prompt_token_count, check_made, check_tokens, pending_prompt_tokens,
}
use nano_vllm_online_serving.AsyncEngine.Validating.{
  raw_tokens, amount, passed, refuse_if, validate_sampling_params, validate_max_tokens,
  validate_temperature, validate_ignore_eos, validate_timeout, validate_priority, check_prompt,
  all_integers,
}
use nano_vllm_online_serving.AsyncEngine.Accepting.{Accepts, add_request-Accepts}
use nano_vllm_online_serving.AsyncEngine.Loop.{send_output, crash, at_top}
use nano_vllm_online_serving.AsyncEngine.Runs.{
  Machine, new_machine, Reach, here, next, starts, submits, aborts,
}
use nano_vllm_online_serving.AsyncEngine.Tally.{refers}
use nano_vllm_online_serving.AsyncEngine.Invariant.{held, IsOver, IsSound}
use nano_vllm_online_serving.AsyncEngine.Invariant.Running.{Reach-IsSound}
use nano_vllm_online_serving.AsyncEngine.Invariant.Quotas.{IsLimited}
use nano_vllm_online_serving.AsyncEngine.Invariant.Limits.{Reach-IsLimited}
use nano_vllm_online_serving.AsyncEngine.Invariant.Crashing.{crash-IsSound}
use nano_vllm_online_serving.AsyncEngine.Clients.{iter_request-returns, send_output_loses}
use nano_vllm_online_serving.AsyncEngine.Draining.{drain_pending-Exhausts}
use nano_vllm_online_serving.Tests.Fixtures.{two_queues, running_seq, two_queues-IsSound}

-- A tokenizer that makes one token of a text, and a model that answers 9 each time.
abbrev toy_backend : Backend
toy_backend = record {
  encode = λ t. 1 ∷ [];
  decode_tokens = λ ts. "x";
  run = λ n seqs is_prefill. some (9 ∷ 9 ∷ []);
}

abbrev toy_engine : LlmEngine
toy_engine = record {
  backend = toy_backend;
  scheduler = two_queues running_seq;
  max_model_len = 8;
  kvcache_block_size = 2;
  num_kvcache_blocks = pos 3;
  next_seq = 2;
  model_runs = 0;
}

runs : is_running running_seq ≡ true
unfolding is_running
runs = refl

step-Steps_example : Settles (step toy_engine) (Steps toy_engine) (StepFails toy_engine)
step-Steps_example = step-Steps toy_engine (two_queues-IsSound running_seq refl runs (omega arith))

abbrev small : AsyncOptions
small = record {
  max_pending_requests = 4;
  max_active_requests = some 1;
  output_queue_size = 2;
  max_pending_prompt_tokens = some 16;
  max_active_tokens = some 16;
  max_active_tokens_per_namespace = none;
  max_pending_requests_per_namespace = some 2;
  max_active_requests_per_namespace = none;
  metrics_window_size = 8;
}

abbrev chat : Submission
chat = record {
  request_id = "c";
  trace_id = "c";
  prompt = raw_tokens (some 5 ∷ some 6 ∷ []);
  sampling_params = record {
    max_tokens = some (pos 4);
    temperature = amount 0;
    ignore_eos = some false;
  };
  cache_options = record {
    cacheable_prefix_tokens = none;
    cache_breakpoint_tokens = [];
    cache_ttl_seconds = some 300;
    cache_namespace = "";
    cache_enabled = true;
  };
  request_timeout_s = none;
  queue_timeout_s = some (amount 10);
  priority = some 1;
  namespace = "n";
}

-- The request that `chat` becomes.
abbrev chat_request : AsyncRequest
chat_request = record {
  request_id = "c";
  trace_id = "c";
  prompt = token_list (5 ∷ 6 ∷ []);
  sampling_params = record { temperature = 0; max_tokens = 4; ignore_eos = false };
  cache_options = chat.cache_options;
  output_queue = 0;
  created_at = 3;
  request_timeout_s = none;
  queue_timeout_s = some 10;
  priority = 1;
  namespace = "n";
  prompt_token_count = 2;
  estimated_token_count = 6;
  cancelled = false;
}

abbrev fresh : AsyncState
fresh = new_async_engine small

-- An engine that is started, then one with a request, then one whose request was aborted.
abbrev opened : Machine
opened = record { state = start toy_engine fresh; position = at_top }

abbrev pub busy : Machine
busy = record opened { state = (add_request 3 chat opened.state).0 }

abbrev aborted : Machine
aborted = record busy { state = (abort "c" busy.state).0 }

busy_reached : Reach (new_machine small) busy
busy_reached = next (next here (starts toy_engine)) (submits 3 chat)

aborted_reached : Reach (new_machine small) aborted
aborted_reached = next busy_reached (aborts "c")

Reach-IsSound_example : IsSound busy.state
Reach-IsSound_example = Reach-IsSound small busy_reached

Reach-IsLimited_example : IsLimited busy.state
Reach-IsLimited_example = Reach-IsLimited small busy busy_reached

chat_passes : (add_request 3 chat opened.state).1 ≡ passed chat_request
unfolding new_async_engine new_config positive_or_none start add_request expire_pending for_each
    check_request check_open refuse_if check_parameters validate_sampling_params validate_max_tokens
    validate_temperature validate_ignore_eos validate_timeout validate_priority check_queue
    has_request of_namespace within check_prompt all_integers make_request prompt_token_count
    check_made check_tokens pending_prompt_tokens submit set_request enqueue_pending encode_prompt
chat_passes = refl

add_request-Accepts_example :
    Accepts 3 chat (expire_pending 3 opened.state) chat_request
    × ((add_request 3 chat opened.state).0 ≡ submit chat_request (expire_pending 3 opened.state))
add_request-Accepts_example = add_request-Accepts 3 chat opened.state chat_request chat_passes

aborted_state :
    (0 < aborted.state.next_channel)
    × (held (refers 0) aborted.state ≡ 0)
    × ((aborted.state.channels 0).ended ≡ false)
unfolding new_async_engine new_config positive_or_none start add_request expire_pending for_each
    check_request check_open refuse_if check_parameters validate_sampling_params validate_max_tokens
    validate_temperature validate_ignore_eos validate_timeout validate_priority check_queue
    has_request of_namespace within check_prompt all_integers make_request prompt_token_count
    check_made check_tokens pending_prompt_tokens submit set_request enqueue_pending encode_prompt
    abort get_request abort_pending set_finished count_cancelled put_stop has_room put_nowait
    pop_request remove_request
aborted_state = (ground arith, refl, refl)

iter_request-returns_example :
    (items : List Item) × (iter_request
        (length (aborted.state.channels 0).queue)
        chat_request
        aborted.state
      ≡ some items)
iter_request-returns_example =
    iter_request-returns small aborted chat_request aborted_reached aborted_state.0 aborted_state.1
      aborted_state.2

drain_pending-Exhausts_example : next_admissible (drain_pending 4 busy.state) ≡ none
drain_pending-Exhausts_example = drain_pending-Exhausts 4 busy.state

crash-IsSound_example :
    IsSound (crash 5 raised busy.state)
    × ((q : ℕ)
        → q < (crash 5 raised busy.state).next_channel
        → IsOver ((crash 5 raised busy.state).channels q))
    × ((crash 5 raised busy.state).active ≡ [])
    × ((crash 5 raised busy.state).pending ≡ [])
    × ((crash 5 raised busy.state).pending_by_id ≡ [])
crash-IsSound_example = crash-IsSound 5 raised busy.state (Reach-IsSound small busy_reached)

-- The last output, and a state in which one output is not taken yet.
abbrev last_output : Output
last_output = record {
  request_id = "c";
  seq_id = 2;
  token_id = some 9;
  text = "x";
  completion_tokens = 9 ∷ 9 ∷ [];
  finished = true;
  finish_reason = some "stop";
  usage = none;
}

abbrev slow : AsyncState
slow = record fresh {
  active = chat_request ∷ [];
  channels = λ q. record new_channel {
    queue = token (record last_output { finished = false; finish_reason = none }) ∷ [];
  };
  next_channel = 1;
}

send_output_loses_example :
    ((send_output 5 chat_request last_output slow).channels 0).queue ≡ stop ∷ []
unfolding new_async_engine new_config
send_output_loses_example =
    send_output_loses 5 chat_request last_output slow (omega arith) refl refl
