-- ===== src/AsyncEngine/Clients.antt =====
-- What the client of `AsyncLLMEngine` is given (nanovllm/engine/async_engine.py).
use nano_vllm_online_serving.Common.{
  ℕ, suc, ◌+◌, ◌<◌, ◌≡◌, refl, sym, ap, ◌∙◌, subst, Bool, true, false, some, List, [], ◌∷◌, ◌++◌,
  arith, ◌==◌, length, length-append, last?, Bool-cases, inl, inr,
}
use nano_vllm_online_serving.LlmEngine.{Output}
use nano_vllm_online_serving.Pending.{AsyncRequest}
use nano_vllm_online_serving.AsyncEngine.State.{AsyncOptions, AsyncState, Item, token, stop}
use nano_vllm_online_serving.AsyncEngine.Channels.{
  has_room, is_stop, is_last, put_nowait, put_stop, set_finished, observe_latency,
}
use nano_vllm_online_serving.AsyncEngine.Aborting.{take_item, iter_request}
use nano_vllm_online_serving.AsyncEngine.Loop.{finish_request, send_output}
use nano_vllm_online_serving.AsyncEngine.Runs.{Machine, new_machine, Reach}
use nano_vllm_online_serving.AsyncEngine.Tally.{refers}
use nano_vllm_online_serving.AsyncEngine.Invariant.{held, IsServed}
use nano_vllm_online_serving.AsyncEngine.Invariant.Taking.{
  taken, take_stop, take_last, take_more, rest_over, elim_true,
}
use nano_vllm_online_serving.AsyncEngine.Invariant.Touching.{put_stop_full}
use nano_vllm_online_serving.AsyncEngine.Invariant.Ending.{put_or_drop_room}
use nano_vllm_online_serving.AsyncEngine.Invariant.Running.{Reach-IsSound}

iter_stop :
    (fuel : ℕ) (r : AsyncRequest) (s s' : AsyncState) (item : Item)
    → take_item r s ≡ some (item, s')
    → is_stop item ≡ true
    → iter_request (suc fuel) r s ≡ some []
unfolding iter_request
iter_stop fuel r s s' item e stops = rw (e, iter_request) (rw stops refl)

iter_last :
    (fuel : ℕ) (r : AsyncRequest) (s s' : AsyncState) (item : Item)
    → take_item r s ≡ some (item, s')
    → is_stop item ≡ false
    → is_last item ≡ true
    → iter_request (suc fuel) r s ≡ some (item ∷ [])
unfolding iter_request
iter_last fuel r s s' item e more ends = rw (e, iter_request) (rw (more, ends) refl)

iter_more :
    (fuel : ℕ) (r : AsyncRequest) (s s' : AsyncState) (item : Item) (items : List Item)
    → take_item r s ≡ some (item, s')
    → is_stop item ≡ false
    → is_last item ≡ false
    → iter_request fuel r s' ≡ some items
    → iter_request (suc fuel) r s ≡ some (item ∷ items)
unfolding iter_request
iter_more fuel r s s' item items e more goes_on rest =
    rw (e, iter_request) (rw (more, goes_on) (rw rest refl))

-- With `_STOP` at its end a queue is read to an end.
reads_all :
    (queue : List Item) (r : AsyncRequest) (s : AsyncState)
    → (s.channels r.output_queue).queue ≡ queue
    → last? queue ≡ some stop
    → (items : List Item) × (iter_request (length queue) r s ≡ some items)
reads_all [] r s e last = absurd cc
reads_all (item ∷ rest) r s e last = elim (Bool-cases (is_stop item)) [
  | inl stops ↦ ([], iter_stop (length rest) r s _ item (take_stop r s item rest e stops) stops)
  | inr more ↦ elim (Bool-cases (is_last item)) [
    | inl ends ↦
        let it = take_last r s item rest e more ends in
        (item ∷ [], iter_last (length rest) r s _ item it more ends)
    | inr goes_on ↦
        let self : (r.output_queue == r.output_queue) ≡ true = ground arith in
        let s1 = taken r rest s in
        let e1 : (s1.channels r.output_queue).queue ≡ rest = rw self refl in
        let (items, all) = reads_all rest r s1 e1 (rest_over item rest more last) in
        let it = take_more r s item rest e more goes_on in
        (item ∷ items, iter_more (length rest) r s s1 item items it more goes_on all)
  ]
]

-- In every run, the client of a request that was made and that neither waits nor is served any more
-- reads its queue to an end without waiting, unless it has left before.
pub iter_request-returns :
    (o : AsyncOptions) (m : Machine) (r : AsyncRequest)
    → Reach (new_machine o) m
    → r.output_queue < m.state.next_channel
    → held (refers r.output_queue) m.state ≡ 0
    → (m.state.channels r.output_queue).ended ≡ false
    → (items : List Item) × (iter_request (length (m.state.channels r.output_queue).queue) r m.state
        ≡ some items)
iter_request-returns o m r reach made gone stays =
    over ((Reach-IsSound o reach).served r.output_queue made)
  where
    over :
        IsServed m.state r.output_queue
        → (items : List Item) × (iter_request
              (length (m.state.channels r.output_queue).queue)
              r
              m.state
            ≡ some items)
    over (inl held) = absurd (omega (arith, held, gone))
    over (inr (inl left)) = let wrong : false ≡ true = sym stays ∙ left in absurd cc
    over (inr (inr last)) = reads_all (m.state.channels r.output_queue).queue r m.state refl last

-- The queue when a last output has been put into it and `_STOP` follows.
put_stop_empties :
    (r : AsyncRequest) (s : AsyncState)
    → has_room s.config.output_queue_size (s.channels r.output_queue).queue ≡ false
    → ((put_stop r s).channels r.output_queue).queue ≡ stop ∷ []
put_stop_empties r s full =
    let self : (r.output_queue == r.output_queue) ≡ true = ground arith in
    ap (λ (t : AsyncState). (t.channels r.output_queue).queue) (put_stop_full r s full)
    ∙ rw self refl

no_room_left :
    (size : ℕ) (queue : List Item) (item : Item)
    → 0 < size
    → length queue + 1 ≡ size
    → has_room size (queue ++ item ∷ []) ≡ false
unfolding has_room
no_room_left size queue item positive e =
    ground (arith, positive, e, length-append queue (item ∷ []))

one_room_left :
    (size : ℕ) (queue : List Item) → length queue + 1 ≡ size → has_room size queue ≡ true
unfolding has_room
one_room_left size queue e = ground (arith, e)

send_output_last :
    (now : ℕ) (r : AsyncRequest) (o : Output) (s : AsyncState)
    → has_room s.config.output_queue_size (s.channels r.output_queue).queue ≡ true
    → o.finished ≡ true
    → send_output now r o s ≡ finish_request now r (put_nowait r (token o) s)
unfolding send_output
send_output_last now r o s room last =
    ap
      (λ (p : AsyncState × Bool). elim p.1 [
        | false ↦ p.0
        | true ↦ elim o.finished [ true ↦ finish_request now r p.0 | false ↦ p.0 ]
      ])
      (put_or_drop_room r (token o) s room)
    ∙ elim_true o.finished _ _ last

finish_request_full :
    (now : ℕ) (r : AsyncRequest) (s : AsyncState)
    → has_room s.config.output_queue_size (s.channels r.output_queue).queue ≡ false
    → ((finish_request now r s).channels r.output_queue).queue ≡ stop ∷ []
unfolding finish_request observe_latency set_finished
finish_request_full now r s full =
    let self : (r.output_queue == r.output_queue) ≡ true = ground arith in
    put_stop_empties r _ (rw self full)

put_nowait-queue :
    (r : AsyncRequest) (item : Item) (s : AsyncState)
    → ((put_nowait r item s).channels r.output_queue).queue
      ≡ (s.channels r.output_queue).queue ++ item ∷ []
unfolding put_nowait
put_nowait-queue r item s =
    let self : (r.output_queue == r.output_queue) ≡ true = ground arith in rw self refl

-- Where the last output of a request takes the last place in a bounded output queue, the client is
-- given neither it nor any of the outputs before it that it has not taken yet: the `_STOP` that
-- follows empties the queue.
pub send_output_loses :
    (now : ℕ) (r : AsyncRequest) (o : Output) (s : AsyncState)
    → 0 < s.config.output_queue_size
    → length (s.channels r.output_queue).queue + 1 ≡ s.config.output_queue_size
    → o.finished ≡ true
    → ((send_output now r o s).channels r.output_queue).queue ≡ stop ∷ []
unfolding put_nowait
send_output_loses now r o s positive e finished =
    let size = s.config.output_queue_size in
    let queue = (s.channels r.output_queue).queue in
    let s1 = put_nowait r (token o) s in
    let full : has_room size (s1.channels r.output_queue).queue ≡ false =
      subst (λ q. has_room size q ≡ false) (sym (put_nowait-queue r (token o) s))
        (no_room_left size queue (token o) positive e) in
    ap (λ (t : AsyncState). (t.channels r.output_queue).queue)
      (send_output_last now r o s (one_room_left size queue e) finished)
    ∙ finish_request_full now r s1 full
