-- ===== src/AsyncEngine/Channels.antt =====
-- The output queues of `AsyncLLMEngine` (nanovllm/engine/async_engine.py): `_put_or_drop`,
-- `_fail_request`, `_timeout_request`, and the client's side in `iter_request`. None of these calls
-- suspends between a test and the change that it guards.
use nano_vllm_online_serving.Common.{
  ℕ, ◌+◌, ◌-◌, Bool, true, false, String, none, some, List, [], ◌∷◌, ◌++◌, ltb, ◌==◌, ◌||◌, length,
}
use nano_vllm_online_serving.LlmEngine.{abort_request}
use nano_vllm_online_serving.Pending.{AsyncRequest}
use nano_vllm_online_serving.AsyncEngine.State.{
  EndReason, ErrorOutput, Item, token, error, stop, AsyncState, observe, pop_request, write_channel,
}

-- `not output_queue.full()`; a size of 0 is no bound.
unfoldable pub has_room : ℕ → List Item → Bool
has_room size queue = size == 0 || ltb (length queue) size

-- `self.engine.abort_request(request_id)` where there is an engine. Where the scheduler raises, the
-- exception is not followed here: it keeps the engine as it is.
unfoldable pub abort_in_engine : String → AsyncState → AsyncState
abort_in_engine request_id s = elim s.engine [
  | none ↦ s
  | some e ↦ elim (abort_request request_id e) [
    | none ↦ s
    | some (e', found) ↦ record s { engine = some e' }
  ]
]

unfoldable pub put_nowait : AsyncRequest → Item → AsyncState → AsyncState
put_nowait r item s =
    let c = s.channels r.output_queue in
    write_channel r.output_queue (record c { queue = c.queue ++ item ∷ [] }) s

unfoldable pub set_finished : AsyncRequest → AsyncState → AsyncState
set_finished r s =
    let c = s.channels r.output_queue in
    write_channel r.output_queue (record c { finished = true }) s

-- `_put_or_drop(request, _STOP)`: a full queue is emptied first.
unfoldable pub put_stop : AsyncRequest → AsyncState → AsyncState
put_stop r s =
    let c = s.channels r.output_queue in
    elim (has_room s.config.output_queue_size c.queue) [
      | true ↦ put_nowait r stop s
      | false ↦ write_channel r.output_queue (record c { queue = stop ∷ [] }) s
    ]

-- The end of a request whose client is too slow, up to its `_STOP`.
unfoldable pub drop_request : AsyncRequest → AsyncState → AsyncState
drop_request r s =
    let s1 = abort_in_engine r.request_id (set_finished r s) in
    record s1 {
      active = pop_request r.request_id s1.active;
      pending_by_id = pop_request r.request_id s1.pending_by_id;
      counters = record s1.counters { cancelled_requests = s1.counters.cancelled_requests + 1 };
    }

-- `_put_or_drop(request, item)` of an item other than `_STOP`, and whether it was delivered.
unfoldable pub put_or_drop : AsyncRequest → Item → AsyncState → AsyncState × Bool
put_or_drop r item s =
    elim (has_room s.config.output_queue_size (s.channels r.output_queue).queue) [
      | true ↦ (put_nowait r item s, true)
      | false ↦ (put_stop r (drop_request r s), false)
    ]

-- What `_fail_request` and `_timeout_request` do with the latency, `now - created_at`.
unfoldable pub observe_latency : ℕ → AsyncRequest → AsyncState → AsyncState
observe_latency now r s = record s {
  latency = observe s.config.metrics_window_size (now - r.created_at) s.latency;
}

-- Their last two calls.
unfoldable pub send_error : AsyncRequest → ErrorOutput → AsyncState → AsyncState
send_error r e s = put_stop r (put_or_drop r (error e) s).0

-- `_fail_request(request, exc, error_type)`
unfoldable pub fail_request : ℕ → AsyncRequest → EndReason → String → AsyncState → AsyncState
fail_request now r reason error_type s =
    let s1 = observe_latency now r (set_finished r s) in
    let s2 = record s1 {
      counters = record s1.counters { failed_requests = s1.counters.failed_requests + 1 };
    } in
    send_error r
      (record {
        request_id = r.request_id;
        trace_id = r.trace_id;
        error = reason;
        error_type = error_type;
        finish_reason = "error";
      })
      s2

-- `_timeout_request(request, reason)`
unfoldable pub timeout_request : ℕ → AsyncRequest → EndReason → AsyncState → AsyncState
timeout_request now r reason s =
    let s1 = observe_latency now r (set_finished r s) in
    let s2 = record s1 {
      counters = record s1.counters { timed_out_requests = s1.counters.timed_out_requests + 1 };
    } in
    send_error r
      (record {
        request_id = r.request_id;
        trace_id = r.trace_id;
        error = reason;
        error_type = "timeout";
        finish_reason = "timeout";
      })
      s2

-- `item.get("finished")`
unfoldable pub is_last : Item → Bool
is_last (token o) = o.finished
is_last (error e) = true
is_last stop = false

-- `item is _STOP`
unfoldable pub is_stop : Item → Bool
is_stop stop = true
is_stop _ = false

-- `self.cancelled_requests += 1`
unfoldable pub count_cancelled : AsyncState → AsyncState
count_cancelled s = record s {
  counters = record s.counters { cancelled_requests = s.counters.cancelled_requests + 1 };
}
