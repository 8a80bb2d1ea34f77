-- ===== src/AsyncEngine/Aborting.antt =====
-- `abort` and `iter_request` of `AsyncLLMEngine` (nanovllm/engine/async_engine.py).
use nano_vllm_online_serving.Common.{
  ℕ, zero, suc, Bool, true, false, String, Option, none, some, List, [], ◌∷◌,
}
use nano_vllm_online_serving.Pending.{AsyncRequest}
use nano_vllm_online_serving.AsyncEngine.State.{
  Item, AsyncState, get_request, pop_request, remove_request, write_channel,
}
use nano_vllm_online_serving.AsyncEngine.Channels.{
  abort_in_engine, set_finished, put_stop, is_last, is_stop, count_cancelled,
}

-- The first branch of `abort`.
unfoldable pub abort_pending : AsyncRequest → AsyncState → AsyncState
abort_pending r s =
    let s1 = set_finished r s in
    put_stop r (
      count_cancelled (record s1 {
        pending_by_id = pop_request r.request_id s1.pending_by_id;
        pending = remove_request r s1.pending;
      }))

-- The second branch.
unfoldable pub abort_active : AsyncRequest → AsyncState → AsyncState
abort_active r s =
    let s1 = put_stop r (abort_in_engine r.request_id (set_finished r s)) in
    count_cancelled (record s1 { active = pop_request r.request_id s1.active })

-- `abort(request_id)`
unfoldable pub abort : String → AsyncState → AsyncState × Bool
abort request_id s = elim (get_request request_id s.pending_by_id) [
  | some r ↦ (abort_pending r s, true)
  | none ↦ elim (get_request request_id s.active) [
    | some r ↦ (abort_active r s, true)
    | none ↦ (s, false)
  ]
]

-- The `finally` of `iter_request`.
unfoldable pub close_client : AsyncRequest → AsyncState → AsyncState
close_client r s =
    let c = s.channels r.output_queue in
    let s1 = write_channel r.output_queue (record c { ended = true }) s in
    elim c.finished [ true ↦ s1 | false ↦ (abort r.request_id s1).0 ]

-- The client takes the first item of its queue: the body of the loop of `iter_request`, up to the
-- end of the loop. `none` is that the client waits, as its queue is empty.
unfoldable pub take_item : AsyncRequest → AsyncState → Option (Item × AsyncState)
take_item r s =
    let c = s.channels r.output_queue in
    elim c.queue [
      | [] ↦ none
      | item ∷ rest ↦
          let s1 = write_channel r.output_queue (record c { queue = rest }) s in
          elim (is_stop item) [
            | true ↦ some (item, close_client r s1)
            | false ↦ elim (is_last item) [
              | true ↦ some (item, close_client r (set_finished r s1))
              | false ↦ some (item, s1)
            ]
          ]
    ]

-- The loop of `iter_request` where nobody else acts between two items: the items that the client is
-- given, up to the end of the loop. `none` is that it waits, on fuel for the number of items.
unfoldable pub iter_request : ℕ → AsyncRequest → AsyncState → Option (List Item)
iter_request zero r s = none
iter_request (suc fuel) r s = elim (take_item r s) [
  | none ↦ none
  | some (item, s') ↦ elim (is_stop item) [
    | true ↦ some []
    | false ↦ elim (is_last item) [
      | true ↦ some (item ∷ [])
      | false ↦ elim (iter_request fuel r s') [ none ↦ none | some items ↦ some (item ∷ items) ]
    ]
  ]
]
