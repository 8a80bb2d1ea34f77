-- ===== src/AsyncEngine/Loop.antt =====
-- `_run_loop` of `AsyncLLMEngine` (nanovllm/engine/async_engine.py), cut where it suspends: at the
-- top of the loop, and after an output that is not a request's last.
use nano_vllm_online_serving.Common.{
  ℕ, zero, suc, ◌+◌, ◌-◌, Bool, true, false, Option, none, some, List, [], max,
}
use nano_vllm_online_serving.Validation.{ℤ, pos, negsuc}
use nano_vllm_online_serving.LlmEngine.{LlmEngine, Failure, raised, Output, is_finished, step}
use nano_vllm_online_serving.Pending.{AsyncRequest}
use nano_vllm_online_serving.AsyncEngine.State.{
  AsyncState, token, failure, observe, observe_step, get_request, pop_request, write_channel,
}
use nano_vllm_online_serving.AsyncEngine.Channels.{
  set_finished, put_stop, put_or_drop, fail_request, observe_latency,
}
use nano_vllm_online_serving.AsyncEngine.Admission.{
  for_each, expire_pending, expire_active, drain_pending,
}

-- Where the loop stands: at its top, or in the loop over the outputs of a step, with those that are
-- left, or at its end.
pub data Position : Type 0 where
  at_top : Position
  in_outputs : List Output → Position
  ended : Position

-- The four calls before `engine.is_finished()`.
unfoldable pub prepare_step : ℕ → AsyncState → AsyncState
prepare_step now s =
    expire_active now (drain_pending now (expire_active now (expire_pending now s)))

-- The counters of a step: a prefill step has a positive number of tokens, a decode step a negative.
unfoldable pub observe_tokens : ℤ → ℕ → AsyncState → AsyncState
observe_tokens (pos zero) elapsed s = s
observe_tokens (pos (suc n)) elapsed s = record s {
  prefill_steps = observe_step s.config.metrics_window_size (suc n) elapsed s.prefill_steps;
}
observe_tokens (negsuc n) elapsed s = record s {
  decode_steps = observe_step s.config.metrics_window_size (suc n) elapsed s.decode_steps;
}

-- The `except` branch: every request fails, the queues are emptied, and the loop ends.
unfoldable pub crash : ℕ → Failure → AsyncState → AsyncState
crash now e s =
    let s1 = record s {
      counters = record s.counters { loop_errors = s.counters.loop_errors + 1 };
      last_engine_error = some e;
      fatal_error = some e;
    } in
    let fail : AsyncRequest → AsyncState → AsyncState =
      λ r t. fail_request now r (failure e) "engine_error" t in
    let s2 = for_each fail s1.active s1 in
    let s3 = record s2 { active = [] } in
    let s4 = for_each fail s3.pending s3 in
    record s4 { pending = []; pending_by_id = []; task_running = false }

-- `self.engine.step()`; without an engine the call raises. The time of a step is at least one tick.
unfoldable pub step_engine : Option LlmEngine → Option (LlmEngine × List Output × ℤ)
step_engine none = none
step_engine (some e) = step e

unfoldable pub run_step : ℕ → ℕ → AsyncState → AsyncState × Position
run_step now elapsed s = elim (step_engine s.engine) [
  | none ↦ (crash now raised s, ended)
  | some (e, outputs, num_tokens) ↦
      (observe_tokens num_tokens (max elapsed 1) (record s { engine = some e }), in_outputs outputs)
]

-- `self.engine.is_finished()`
unfoldable pub has_no_work : Option LlmEngine → Bool
has_no_work none = false
has_no_work (some e) = is_finished e

-- From the top of the loop to the first output.
unfoldable pub begin_round : ℕ → ℕ → AsyncState → AsyncState × Position
begin_round now elapsed s =
    let s1 = prepare_step now s in
    elim (has_no_work s1.engine) [ true ↦ (s1, at_top) | false ↦ run_step now elapsed s1 ]

-- The time to the first token, once.
unfoldable pub observe_first_token : ℕ → AsyncRequest → AsyncState → AsyncState
observe_first_token now r s =
    let c = s.channels r.output_queue in
    let s1 = write_channel r.output_queue (record c { first_token_at = some now }) s in
    elim c.first_token_at [
      | some t ↦ s
      | none ↦ record s1 {
        ttft = observe s.config.metrics_window_size (now - r.created_at) s.ttft;
        counters = record s1.counters { ttft_count = s1.counters.ttft_count + 1 };
      }
    ]

-- The counters of an output with a token.
unfoldable pub observe_output : ℕ → AsyncRequest → Option ℕ → AsyncState → AsyncState
observe_output now r none s = s
observe_output now r (some t) s =
    let s1 = observe_first_token now r s in
    record s1 {
      counters = record s1.counters { streamed_tokens = s1.counters.streamed_tokens + 1 };
    }

-- The end of the body for the last output of a request.
unfoldable pub finish_request : ℕ → AsyncRequest → AsyncState → AsyncState
finish_request now r s =
    let s1 = observe_latency now r (set_finished r s) in
    let s2 = put_stop r (record s1 {
      counters = record s1.counters { finished_requests = s1.counters.finished_requests + 1 };
    }) in
    record s2 { active = pop_request r.request_id s2.active }

-- From `_put_or_drop(request, output)` on.
unfoldable pub send_output : ℕ → AsyncRequest → Output → AsyncState → AsyncState
send_output now r o s =
    let (s1, delivered) = put_or_drop r (token o) s in
    elim delivered [
      | false ↦ s1
      | true ↦ elim o.finished [ true ↦ finish_request now r s1 | false ↦ s1 ]
    ]

-- The body of the loop over the outputs. The trace id is in the request that the queue belongs to.
unfoldable pub deliver_output : ℕ → Output → AsyncState → AsyncState
deliver_output now o s = elim (get_request o.request_id s.active) [
  | none ↦ s
  | some r ↦ send_output now r o (observe_output now r o.token_id s)
]
