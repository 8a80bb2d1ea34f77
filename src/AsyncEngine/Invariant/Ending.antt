-- ===== src/AsyncEngine/Invariant/Ending.antt =====
-- A request that its client is too slow for, and the end of a request by an error (nanovllm/engine/async_engine.py).
use nano_vllm_online_serving.Common.{
  ℕ, ◌≡◌, refl, sym, ap, ◌∙◌, subst, Bool, true, false, String, [], arith, Bool-cases, inl, inr,
}
use nano_vllm_online_serving.Pending.{AsyncRequest}
use nano_vllm_online_serving.AsyncEngine.State.{
  EndReason, ErrorOutput, Item, error, AsyncState, pop_request,
}
use nano_vllm_online_serving.AsyncEngine.Channels.{
  has_room, put_nowait, set_finished, put_stop, drop_request, put_or_drop, observe_latency,
  send_error, fail_request, timeout_request,
}
use nano_vllm_online_serving.AsyncEngine.Tally.{tally, named}
use nano_vllm_online_serving.AsyncEngine.Tally.Removal.{pop_request-none}
use nano_vllm_online_serving.AsyncEngine.Invariant.{IsOver}
use nano_vllm_online_serving.AsyncEngine.Invariant.Shrinking.{
  weigh, weigh-pop_request, Shrinks, Shrinks-trans, Keeps-Shrinks,
}
use nano_vllm_online_serving.AsyncEngine.Invariant.Touching.{
  Touches, Keeps, Touches-trans, Keeps-trans, same_Touches, same_Keeps, abort_in_engine-Keeps,
  set_finished-Keeps, put_nowait-Keeps, put_stop-Keeps,
}

pub put_or_drop_room :
    (r : AsyncRequest) (item : Item) (s : AsyncState)
    → has_room s.config.output_queue_size (s.channels r.output_queue).queue ≡ true
    → put_or_drop r item s ≡ (put_nowait r item s, true)
unfolding put_or_drop
put_or_drop_room r item s room = rw (room, put_or_drop) refl

put_or_drop_full :
    (r : AsyncRequest) (item : Item) (s : AsyncState)
    → has_room s.config.output_queue_size (s.channels r.output_queue).queue ≡ false
    → put_or_drop r item s ≡ (put_stop r (drop_request r s), false)
unfolding put_or_drop
put_or_drop_full r item s full = rw (full, put_or_drop) refl

-- A slow client's request leaves the dictionaries.
pub record Drops (r : AsyncRequest) (s s' : AsyncState) : Type 0 where
  pub touches : Touches r.output_queue s s'
  pub pending_by_id : s'.pending_by_id ≡ pop_request r.request_id s.pending_by_id
  pub active : s'.active ≡ pop_request r.request_id s.active
  pub over : IsOver (s'.channels r.output_queue)

drop_request-Touches :
    (r : AsyncRequest) (s : AsyncState)
    → Touches r.output_queue s (drop_request r s)
      × ((drop_request r s).pending_by_id ≡ pop_request r.request_id s.pending_by_id)
      × ((drop_request r s).active ≡ pop_request r.request_id s.active)
unfolding drop_request
drop_request-Touches r s =
    let k =
      Keeps-trans (set_finished-Keeps r s)
        (abort_in_engine-Keeps r.output_queue r.request_id (set_finished r s)) in
    let t : Touches r.output_queue s (drop_request r s) =
      Touches-trans k.touches
        (same_Touches r.output_queue _ (drop_request r s) refl refl refl refl) in
    (t, ap (pop_request r.request_id) k.pending_by_id, ap (pop_request r.request_id) k.active)

-- `_put_or_drop` delivers an item, or drops the request and tells its client to stop.
abbrev pub PutAnswers : AsyncRequest → AsyncState → AsyncState × Bool → Type 0
PutAnswers r s (s', true) = Keeps r.output_queue s s'
PutAnswers r s (s', false) = Drops r s s'

pub put_or_drop-PutAnswers :
    (r : AsyncRequest) (item : Item) (s : AsyncState) → PutAnswers r s (put_or_drop r item s)
put_or_drop-PutAnswers r item s =
    elim (Bool-cases (has_room s.config.output_queue_size (s.channels r.output_queue).queue)) [
      | inl room ↦
          subst (PutAnswers r s) (sym (put_or_drop_room r item s room))
            (put_nowait-Keeps r item s room)
      | inr full ↦
          let (t, p, a) = drop_request-Touches r s in
          let (k, over) = put_stop-Keeps r (drop_request r s) in
          subst (PutAnswers r s) (sym (put_or_drop_full r item s full)) (record {
            touches = Touches-trans t k.touches;
            pending_by_id = k.pending_by_id ∙ p;
            active = k.active ∙ a;
            over = over;
          })
    ]

pub PutAnswers-Touches :
    (r : AsyncRequest) (s : AsyncState) (p : AsyncState × Bool)
    → PutAnswers r s p
    → Touches r.output_queue s p.0
PutAnswers-Touches r s (s', true) k = k.touches
PutAnswers-Touches r s (s', false) d = d.touches

pub Drops-Shrinks : (r : AsyncRequest) (s s' : AsyncState) → Drops r s s' → Shrinks s s'
Drops-Shrinks r s s' d = record {
  config = d.touches.config;
  pending = λ w. let p = ap (weigh w) d.touches.pending in omega (arith, p);
  pending_by_id = λ w.
      let p = ap (weigh w) d.pending_by_id in
      omega (arith, p, weigh-pop_request w r.request_id s.pending_by_id);
  active = λ w.
      let a = ap (weigh w) d.active in omega (arith, a, weigh-pop_request w r.request_id s.active);
}

pub PutAnswers-Shrinks :
    (r : AsyncRequest) (s : AsyncState) (p : AsyncState × Bool) → PutAnswers r s p → Shrinks s p.0
PutAnswers-Shrinks r s (s', true) k = Keeps-Shrinks k
PutAnswers-Shrinks r s (s', false) d = Drops-Shrinks r s s' d

PutAnswers-idle :
    (r : AsyncRequest) (s : AsyncState) (p : AsyncState × Bool)
    → s.active ≡ []
    → PutAnswers r s p
    → p.0.active ≡ []
unfolding pop_request
PutAnswers-idle r s (s', true) h k = k.active ∙ h
PutAnswers-idle r s (s', false) h d = d.active ∙ ap (pop_request r.request_id) h

-- Where no request of the id is left in the dictionaries, nothing leaves them.
PutAnswers-Keeps :
    (r : AsyncRequest) (s : AsyncState) (p : AsyncState × Bool)
    → tally (named r.request_id) s.pending_by_id ≡ 0
    → tally (named r.request_id) s.active ≡ 0
    → PutAnswers r s p
    → Keeps r.output_queue s p.0
PutAnswers-Keeps r s (s', true) p a k = k
PutAnswers-Keeps r s (s', false) p a d = record {
  touches = d.touches;
  pending_by_id = d.pending_by_id ∙ pop_request-none r.request_id s.pending_by_id p;
  active = d.active ∙ pop_request-none r.request_id s.active a;
}

-- `_fail_request` and `_timeout_request` end with the client told, and touch nobody else.
pub record Ends (r : AsyncRequest) (s s' : AsyncState) : Type 0 where
  pub touches : Touches r.output_queue s s'
  pub over : IsOver (s'.channels r.output_queue)
  pub shrinks : Shrinks s s'
  pub idle : s.active ≡ [] → s'.active ≡ []
  pub keeps :
      tally (named r.request_id) s.pending_by_id ≡ 0
      → tally (named r.request_id) s.active ≡ 0
      → Keeps r.output_queue s s'

send_error-Ends :
    (r : AsyncRequest) (e : ErrorOutput) (s : AsyncState) → Ends r s (send_error r e s)
unfolding send_error
send_error-Ends r e s =
    let put = put_or_drop-PutAnswers r (error e) s in
    let (k, over) = put_stop-Keeps r (put_or_drop r (error e) s).0 in
    record {
      touches = Touches-trans (PutAnswers-Touches r s (put_or_drop r (error e) s) put) k.touches;
      over = over;
      shrinks =
          Shrinks-trans (PutAnswers-Shrinks r s (put_or_drop r (error e) s) put) (Keeps-Shrinks k);
      idle = λ h. k.active ∙ PutAnswers-idle r s (put_or_drop r (error e) s) h put;
      keeps = λ p a. Keeps-trans (PutAnswers-Keeps r s (put_or_drop r (error e) s) p a put) k;
    }

-- With what they note before.
after_Keeps-Ends :
    (r : AsyncRequest) (s t u : AsyncState) → Keeps r.output_queue s t → Ends r t u → Ends r s u
after_Keeps-Ends r s t u k e = record {
  touches = Touches-trans k.touches e.touches;
  over = e.over;
  shrinks = Shrinks-trans (Keeps-Shrinks k) e.shrinks;
  idle = λ h. e.idle (k.active ∙ h);
  keeps = λ p a. Keeps-trans k (
      e.keeps (ap (tally (named r.request_id)) k.pending_by_id ∙ p)
        (ap (tally (named r.request_id)) k.active ∙ a));
}

pub fail_request-Ends :
    (now : ℕ) (r : AsyncRequest) (reason : EndReason) (error_type : String) (s : AsyncState)
    → Ends r s (fail_request now r reason error_type s)
unfolding fail_request observe_latency
fail_request-Ends now r reason error_type s =
    after_Keeps-Ends r s _ _
      (Keeps-trans (set_finished-Keeps r s) (
        same_Keeps r.output_queue (set_finished r s) _
          (same_Touches r.output_queue (set_finished r s) _ refl refl refl refl) refl refl))
      (send_error-Ends r _ _)

pub timeout_request-Ends :
    (now : ℕ) (r : AsyncRequest) (reason : EndReason) (s : AsyncState)
    → Ends r s (timeout_request now r reason s)
unfolding timeout_request observe_latency
timeout_request-Ends now r reason s =
    after_Keeps-Ends r s _ _
      (Keeps-trans (set_finished-Keeps r s) (
        same_Keeps r.output_queue (set_finished r s) _
          (same_Touches r.output_queue (set_finished r s) _ refl refl refl refl) refl refl))
      (send_error-Ends r _ _)
