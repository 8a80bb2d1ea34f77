-- ===== src/AsyncEngine/Invariant/Looping.antt =====
-- The loop of `AsyncLLMEngine` and the invariant (nanovllm/engine/async_engine.py).
use nano_vllm_online_serving.Common.{
  ℕ, ◌+◌, ◌<◌, ◌≡◌, refl, ap, ◌∙◌, Bool, true, false, Option, none, some, arith, Option-cases, inl,
  inr,
}
use nano_vllm_online_serving.LlmEngine.{Output}
use nano_vllm_online_serving.Pending.{AsyncRequest}
use nano_vllm_online_serving.AsyncEngine.State.{
  token, AsyncState, get_request, pop_request, write_channel,
}
use nano_vllm_online_serving.AsyncEngine.Channels.{
  set_finished, put_stop, put_or_drop, observe_latency,
}
use nano_vllm_online_serving.AsyncEngine.Loop.{
  observe_first_token, observe_output, finish_request, send_output, deliver_output,
}
use nano_vllm_online_serving.AsyncEngine.Tally.{tally, named, refers, is_request, get_request-named}
use nano_vllm_online_serving.AsyncEngine.Tally.Removal.{
  is_request_le-named, is_request_le-refers, pop_request-none,
}
use nano_vllm_online_serving.AsyncEngine.Invariant.{IsSound}
use nano_vllm_online_serving.AsyncEngine.Invariant.Touching.{
  Keeps, Keeps-trans, Keeps-refl, same_Keeps, same_Touches, set_finished-Keeps, put_stop-Keeps,
  write_channel-Keeps,
}
use nano_vllm_online_serving.AsyncEngine.Invariant.Ending.{
  Drops, PutAnswers, put_or_drop-PutAnswers,
}
use nano_vllm_online_serving.AsyncEngine.Invariant.Leaving.{
  Leaves-IsSoundBut, told_IsSound, Keeps-IsSound,
}
use nano_vllm_online_serving.AsyncEngine.Invariant.Expiry.{Leaves-active, told_active}

-- What is sent to a request that is served.
active_IsSound :
    (r : AsyncRequest) (s s' : AsyncState)
    → Keeps r.output_queue s s'
    → IsSound s
    → 0 < tally (is_request r) s.active
    → IsSound s'
active_IsSound r s s' k sound here = Keeps-IsSound r.output_queue s s' k sound (λ h.
    let p = ap (tally (refers r.output_queue)) k.touches.pending in
    let a = ap (tally (refers r.output_queue)) k.active in
    let less = is_request_le-refers r s.active in inl (omega (arith, here, p, a, less)))

observe_first_token-Keeps :
    (now : ℕ) (r : AsyncRequest) (s : AsyncState)
    → Keeps r.output_queue s (observe_first_token now r s)
unfolding observe_first_token
observe_first_token-Keeps now r s =
    let c = record (s.channels r.output_queue) { first_token_at = some now } in
    let s1 = write_channel r.output_queue c s in
    let k = write_channel-Keeps r.output_queue c s (λ f. f) in
    let k1 = Keeps-trans k (
      same_Keeps r.output_queue s1 _ (same_Touches r.output_queue s1 _ refl refl refl refl) refl
        refl) in
    first (s.channels r.output_queue).first_token_at _ (Keeps-refl r.output_queue s) k1
  where
    first :
        (o : Option ℕ) (s2 : AsyncState)
        → Keeps r.output_queue s s
        → Keeps r.output_queue s s2
        → Keeps r.output_queue s (elim o [ some t ↦ s | none ↦ s2 ])
    first (some t) s2 k k1 = k
    first none s2 k k1 = k1

pub observe_output-Keeps :
    (now : ℕ) (r : AsyncRequest) (t : Option ℕ) (s : AsyncState)
    → Keeps r.output_queue s (observe_output now r t s)
unfolding observe_output
observe_output-Keeps now r none s = Keeps-refl r.output_queue s
observe_output-Keeps now r (some t) s =
    Keeps-trans (observe_first_token-Keeps now r s) (
      same_Keeps r.output_queue _ _ (same_Touches r.output_queue _ _ refl refl refl refl) refl refl)

-- The last output has been put into the queue; the request leaves.
finish_request-IsSound :
    (now : ℕ) (r : AsyncRequest) (s : AsyncState)
    → IsSound s
    → 0 < tally (is_request r) s.active
    → IsSound (finish_request now r s)
unfolding finish_request observe_latency
finish_request-IsSound now r s sound here =
    let s1 = observe_latency now r (set_finished r s) in
    let s2 = record s1 {
      counters = record s1.counters { finished_requests = s1.counters.finished_requests + 1 };
    } in
    let k = Keeps-trans (set_finished-Keeps r s) (
      same_Keeps r.output_queue _ s2 (same_Touches r.output_queue _ s2 refl refl refl refl) refl
        refl) in
    let (k1, over) = put_stop-Keeps r s2 in
    told_active r s (put_stop r s2) (finish_request now r s) sound here (Keeps-trans k k1) over
      (Keeps-refl r.output_queue _) refl

-- A request whose client is too slow leaves.
Drops-IsSound :
    (r : AsyncRequest) (s s' : AsyncState)
    → IsSound s
    → 0 < tally (is_request r) s.active
    → Drops r s s'
    → IsSound s'
Drops-IsSound r s s' sound here d =
    let gone = record s { active = pop_request r.request_id s.active } in
    let but = Leaves-IsSoundBut r s gone (Leaves-active r s sound here) sound in
    let less = is_request_le-named r s.active in
    let alone : tally (named r.request_id) s.pending_by_id ≡ 0 =
      omega (
        arith,
        less,
        here,
        sound.booked.ids r.request_id,
        sound.booked.same (named r.request_id),
      ) in
    let t = d.touches in
    told_IsSound r gone s'
      (record {
        touches = record {
          config = t.config;
          next_channel = t.next_channel;
          pending = t.pending;
          others = t.others;
          fits = t.fits;
        };
        pending_by_id = d.pending_by_id ∙ pop_request-none r.request_id s.pending_by_id alone;
        active = d.active;
      })
      d.over but

send_output-IsSound :
    (now : ℕ) (r : AsyncRequest) (o : Output) (s : AsyncState)
    → IsSound s
    → 0 < tally (is_request r) s.active
    → IsSound (send_output now r o s)
unfolding send_output
send_output-IsSound now r o s sound here =
    sent (put_or_drop r (token o) s) o.finished (put_or_drop-PutAnswers r (token o) s)
  where
    sent :
        (p : AsyncState × Bool) (last : Bool)
        → PutAnswers r s p
        → IsSound (elim p.1 [
          | false ↦ p.0
          | true ↦ elim last [ true ↦ finish_request now r p.0 | false ↦ p.0 ]
        ])
    sent (s1, false) last d = Drops-IsSound r s s1 sound here d
    sent (s1, true) false k = active_IsSound r s s1 k sound here
    sent (s1, true) true k =
        let a = ap (tally (is_request r)) k.active in
        finish_request-IsSound now r s1 (active_IsSound r s s1 k sound here)
          (omega (arith, a, here))

-- An output of the engine keeps the invariant.
pub deliver_output-IsSound :
    (now : ℕ) (o : Output) (s : AsyncState) → IsSound s → IsSound (deliver_output now o s)
unfolding deliver_output
deliver_output-IsSound now o s sound = elim (Option-cases (get_request o.request_id s.active)) [
  | inl nobody ↦ simp (nobody, deliver_output) sound
  | inr (r, serves) ↦
      let here = (get_request-named o.request_id s.active r serves).1 in
      let s1 = observe_output now r o.token_id s in
      let k = observe_output-Keeps now r o.token_id s in
      let a = ap (tally (is_request r)) k.active in
      simp (serves, deliver_output)
        (send_output-IsSound now r o s1 (active_IsSound r s s1 k sound here)
          (omega (arith, a, here)))
]
