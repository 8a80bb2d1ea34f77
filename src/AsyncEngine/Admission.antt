-- ===== src/AsyncEngine/Admission.antt =====
-- Timeouts and the move of requests from the pending queue into the engine
-- (nanovllm/engine/async_engine.py).
use nano_vllm_online_serving.Common.{
  ℕ, zero, suc, ◌+◌, ◌-◌, Bool, true, false, Option, none, some, List, [], ◌∷◌, leb, not, ◌&&◌,
  length,
}
use nano_vllm_online_serving.LlmEngine.{LlmEngine, Added, added, not_added, add_request, raised}
use nano_vllm_online_serving.Pending.{AsyncRequest, within, pop_next_admissible}
use nano_vllm_online_serving.AsyncEngine.State.{
  failure, queue_timeout, request_timeout, AsyncState, observe, pop_request, set_request,
  remove_request,
}
use nano_vllm_online_serving.AsyncEngine.Channels.{
  abort_in_engine, put_stop, fail_request, timeout_request,
}

-- `now - request.created_at >= timeout`, where there is a timeout and the request is not cancelled.
unfoldable pub is_overdue : ℕ → Option ℕ → AsyncRequest → Bool
is_overdue now none r = false
is_overdue now (some timeout) r = not r.cancelled && leb (r.created_at + timeout) now

-- The body of the loop of `_expire_pending`.
unfoldable pub expire_one_pending : ℕ → AsyncRequest → AsyncState → AsyncState
expire_one_pending now r s = elim (is_overdue now r.queue_timeout_s r) [
  | false ↦ s
  | true ↦ timeout_request now r queue_timeout (record s {
    pending = remove_request r s.pending;
    pending_by_id = pop_request r.request_id s.pending_by_id;
  })
]

-- The body of the loop of `_expire_active`.
unfoldable pub expire_one_active : ℕ → AsyncRequest → AsyncState → AsyncState
expire_one_active now r s = elim (is_overdue now r.request_timeout_s r) [
  | false ↦ s
  | true ↦
      let s1 = abort_in_engine r.request_id s in
      timeout_request now r request_timeout
        (record s1 { active = pop_request r.request_id s1.active })
]

-- `for request in list(...)`: the loop runs over the requests that were there when it began.
unfoldable pub for_each :
    (AsyncRequest → AsyncState → AsyncState) → List AsyncRequest → AsyncState → AsyncState
for_each f [] s = s
for_each f (r ∷ rs) s = for_each f rs (f r s)

unfoldable pub expire_pending : ℕ → AsyncState → AsyncState
expire_pending now s = for_each (expire_one_pending now) s.pending s

unfoldable pub expire_active : ℕ → AsyncState → AsyncState
expire_active now s = for_each (expire_one_active now) s.active s

-- `_record_queue_wait(request)`
unfoldable pub record_queue_wait : ℕ → AsyncRequest → AsyncState → AsyncState
record_queue_wait now r s = record s {
  queue_wait = observe s.config.metrics_window_size (now - r.created_at) s.queue_wait;
  counters = record s.counters { dequeued_requests = s.counters.dequeued_requests + 1 };
}

-- `self.engine.add_request(...)`; without an engine the call raises.
unfoldable pub call_engine : AsyncRequest → Option LlmEngine → Added
call_engine r none = not_added raised
call_engine r (some e) = add_request r.prompt r.sampling_params r.request_id r.cache_options e

-- The call, and the `except` after it.
unfoldable pub hand_over : ℕ → AsyncRequest → AsyncState → AsyncState
hand_over now r s = elim (call_engine r s.engine) [
  | not_added reason ↦ fail_request now r (failure reason) "request_validation" s
  | added e ↦ record s { engine = some e; active = set_request r s.active }
]

-- The loop's body for the request that was taken out of the queue.
unfoldable pub admit_request : ℕ → AsyncRequest → List AsyncRequest → AsyncState → AsyncState
admit_request now r rest s =
    let s1 = record s {
      pending = rest;
      pending_by_id = pop_request r.request_id s.pending_by_id;
    } in
    elim r.cancelled [ true ↦ put_stop r s1 | false ↦ hand_over now r (record_queue_wait now r s1) ]

-- The tests at the top of the loop, and `_pop_next_admissible_pending()`. An empty queue has no
-- admissible request.
unfoldable pub next_admissible : AsyncState → Option (AsyncRequest × List AsyncRequest)
next_admissible s = elim (within s.config.limits.max_active_requests (length s.active + 1)) [
  | false ↦ none
  | true ↦ pop_next_admissible s.config.limits s.active s.pending
]

-- `_drain_pending()` on fuel: every round takes a request out of the queue.
unfoldable pub drain_rounds : ℕ → ℕ → AsyncState → AsyncState
drain_rounds zero now s = s
drain_rounds (suc fuel) now s =
    let s1 = expire_pending now s in
    elim (next_admissible s1) [
      | none ↦ s1
      | some (r, rest) ↦ drain_rounds fuel now (admit_request now r rest s1)
    ]

unfoldable pub drain_pending : ℕ → AsyncState → AsyncState
drain_pending now s = drain_rounds (length s.pending + 1) now s
