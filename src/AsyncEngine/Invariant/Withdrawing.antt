-- ===== src/AsyncEngine/Invariant/Withdrawing.antt =====
-- The other calls that put nothing into the queues of `AsyncLLMEngine`
-- (nanovllm/engine/async_engine.py).
use nano_vllm_online_serving.Common.{
  ℕ, ◌+◌, ◌≡◌, refl, sym, ap, subst, Bool, true, false, String, Option, none, some, List, [], ◌∷◌,
  arith, max, Bool-cases, Option-cases, inl, inr,
}
use nano_vllm_online_serving.LlmEngine.{Failure, raised, Output}
use nano_vllm_online_serving.Pending.{AsyncRequest}
use nano_vllm_online_serving.AsyncEngine.State.{
  AsyncState, Item, token, failure, get_request, pop_request, remove_request,
}
use nano_vllm_online_serving.AsyncEngine.Channels.{
  abort_in_engine, set_finished, put_stop, put_or_drop, is_stop, is_last, observe_latency,
  count_cancelled,
}
use nano_vllm_online_serving.AsyncEngine.Aborting.{
  abort_pending, abort_active, abort, close_client, take_item,
}
use nano_vllm_online_serving.AsyncEngine.Admission.{for_each}
use nano_vllm_online_serving.AsyncEngine.Loop.{
  Position, observe_output, finish_request, send_output, deliver_output, crash, run_step,
  step_engine,
}
use nano_vllm_online_serving.AsyncEngine.Invariant.Shrinking.{
  weigh, weigh-remove_request, Shrinks, Shrinks-trans, Keeps-Shrinks,
}
use nano_vllm_online_serving.AsyncEngine.Invariant.Touching.{
  abort_in_engine-Keeps, set_finished-Keeps, put_stop-Keeps, write_channel-Keeps,
}
use nano_vllm_online_serving.AsyncEngine.Invariant.Ending.{
  PutAnswers, PutAnswers-Shrinks, put_or_drop-PutAnswers, fail_request-Ends,
}
use nano_vllm_online_serving.AsyncEngine.Invariant.Taking.{
  closed, close_client_done, close_client_early, taken, taken-Keeps, take_empty, take_stop,
  take_last, take_more,
}
use nano_vllm_online_serving.AsyncEngine.Invariant.Looping.{observe_output-Keeps}
use nano_vllm_online_serving.AsyncEngine.Invariant.Crashing.{
  fail, observe_tokens-Keeps, run_step_raises, run_step_returns,
}
use nano_vllm_online_serving.AsyncEngine.Invariant.Narrowing.{
  Shrinks-refl, pending_Shrinks, active_Shrinks, for_each-Shrinks,
}

-- What changes neither a queue nor the settings.
pub same_Shrinks :
    (s s' : AsyncState)
    → s'.config ≡ s.config
    → s'.pending ≡ s.pending
    → s'.pending_by_id ≡ s.pending_by_id
    → s'.active ≡ s.active
    → Shrinks s s'
same_Shrinks s s' c p d a = record {
  config = c;
  pending = λ w. let e = ap (weigh w) p in omega (arith, e);
  pending_by_id = λ w. let e = ap (weigh w) d in omega (arith, e);
  active = λ w. let e = ap (weigh w) a in omega (arith, e);
}

pub put_stop-Shrinks : (r : AsyncRequest) (s : AsyncState) → Shrinks s (put_stop r s)
put_stop-Shrinks r s = Keeps-Shrinks (put_stop-Keeps r s).0

set_finished-Shrinks : (r : AsyncRequest) (s : AsyncState) → Shrinks s (set_finished r s)
set_finished-Shrinks r s = Keeps-Shrinks (set_finished-Keeps r s)

abort_pending-Shrinks : (r : AsyncRequest) (s : AsyncState) → Shrinks s (abort_pending r s)
unfolding abort_pending count_cancelled
abort_pending-Shrinks r s =
    let s1 = set_finished r s in
    let s2 = record s1 {
      pending = remove_request r s1.pending;
      pending_by_id = pop_request r.request_id s1.pending_by_id;
    } in
    let left =
      pending_Shrinks r.request_id (remove_request r s1.pending) s1
        (λ w. weigh-remove_request w r s1.pending) in
    let counted = same_Shrinks s2 (count_cancelled s2) refl refl refl refl in
    Shrinks-trans (set_finished-Shrinks r s)
      (Shrinks-trans (Shrinks-trans left counted) (put_stop-Shrinks r (count_cancelled s2)))

abort_active-Shrinks : (r : AsyncRequest) (s : AsyncState) → Shrinks s (abort_active r s)
unfolding abort_active count_cancelled
abort_active-Shrinks r s =
    let s1 = set_finished r s in
    let s2 = abort_in_engine r.request_id s1 in
    let s3 = put_stop r s2 in
    let s4 = record s3 { active = pop_request r.request_id s3.active } in
    let aborted : Shrinks s1 s2 = Keeps-Shrinks (abort_in_engine-Keeps 0 r.request_id s1) in
    let before =
      Shrinks-trans (Shrinks-trans (set_finished-Shrinks r s) aborted) (put_stop-Shrinks r s2) in
    Shrinks-trans (Shrinks-trans before (active_Shrinks r.request_id s3))
      (same_Shrinks s4 (abort_active r s) refl refl refl refl)

pub abort-Shrinks : (id : String) (s : AsyncState) → Shrinks s (abort id s).0
unfolding abort
abort-Shrinks id s = elim (Option-cases (get_request id s.pending_by_id)) [
  | inr (r, waits) ↦ simp (waits, abort) (abort_pending-Shrinks r s)
  | inl no_pending ↦ elim (Option-cases (get_request id s.active)) [
    | inr (r, runs) ↦ simp (no_pending, runs, abort) (abort_active-Shrinks r s)
    | inl nobody ↦ simp (no_pending, nobody, abort) (Shrinks-refl s)
  ]
]

close_client-Shrinks : (r : AsyncRequest) (s : AsyncState) → Shrinks s (close_client r s)
close_client-Shrinks r s =
    let c = record (s.channels r.output_queue) { ended = true } in
    let k : Shrinks s (closed r s) =
      Keeps-Shrinks (write_channel-Keeps r.output_queue c s (λ f. f)) in
    elim (Bool-cases (s.channels r.output_queue).finished) [
      | inl done ↦ subst (Shrinks s) (sym (close_client_done r s done)) k
      | inr early ↦
          subst (Shrinks s) (sym (close_client_early r s early))
            (Shrinks-trans k (abort-Shrinks r.request_id (closed r s)))
    ]

abbrev TakeShrinks : AsyncState → Option (Item × AsyncState) → Type 0
TakeShrinks s none = Unit {0}
TakeShrinks s (some (item, s')) = Shrinks s s'

pub take_item-TakeShrinks :
    (r : AsyncRequest) (s : AsyncState) (queue : List Item)
    → (s.channels r.output_queue).queue ≡ queue
    → TakeShrinks s (take_item r s)
take_item-TakeShrinks r s [] e = subst (TakeShrinks s) (sym (take_empty r s e)) tt
take_item-TakeShrinks r s (item ∷ rest) e =
    let t = taken r rest s in
    let k : Shrinks s t = Keeps-Shrinks (taken-Keeps r s item rest e) in
    elim (Bool-cases (is_stop item)) [
      | inl stops ↦
          subst (TakeShrinks s) (sym (take_stop r s item rest e stops))
            (Shrinks-trans k (close_client-Shrinks r t))
      | inr more ↦ elim (Bool-cases (is_last item)) [
        | inl ends ↦ subst (TakeShrinks s) (sym (take_last r s item rest e more ends)) (
            Shrinks-trans k (
              Shrinks-trans (set_finished-Shrinks r t) (close_client-Shrinks r (set_finished r t))))
        | inr goes_on ↦ subst (TakeShrinks s) (sym (take_more r s item rest e more goes_on)) k
      ]
    ]

pub take_item-Shrinks :
    (r : AsyncRequest) (s s' : AsyncState) (item : Item)
    → take_item r s ≡ some (item, s')
    → Shrinks s s'
take_item-Shrinks r s s' item e =
    subst (TakeShrinks s) e (take_item-TakeShrinks r s (s.channels r.output_queue).queue refl)

finish_request-Shrinks :
    (now : ℕ) (r : AsyncRequest) (s : AsyncState) → Shrinks s (finish_request now r s)
unfolding finish_request observe_latency
finish_request-Shrinks now r s =
    let s1 = observe_latency now r (set_finished r s) in
    let s2 = record s1 {
      counters = record s1.counters { finished_requests = s1.counters.finished_requests + 1 };
    } in
    let noted = same_Shrinks (set_finished r s) s2 refl refl refl refl in
    Shrinks-trans
      (Shrinks-trans (Shrinks-trans (set_finished-Shrinks r s) noted) (put_stop-Shrinks r s2))
      (active_Shrinks r.request_id (put_stop r s2))

send_output-Shrinks :
    (now : ℕ) (r : AsyncRequest) (o : Output) (s : AsyncState) → Shrinks s (send_output now r o s)
unfolding send_output
send_output-Shrinks now r o s =
    sent (put_or_drop r (token o) s) o.finished (put_or_drop-PutAnswers r (token o) s)
  where
    sent :
        (p : AsyncState × Bool) (last : Bool)
        → PutAnswers r s p
        → Shrinks s (elim p.1 [
          | false ↦ p.0
          | true ↦ elim last [ true ↦ finish_request now r p.0 | false ↦ p.0 ]
        ])
    sent (s1, false) last d = PutAnswers-Shrinks r s (s1, false) d
    sent (s1, true) false k = PutAnswers-Shrinks r s (s1, true) k
    sent (s1, true) true k =
        Shrinks-trans (PutAnswers-Shrinks r s (s1, true) k) (finish_request-Shrinks now r s1)

pub deliver_output-Shrinks :
    (now : ℕ) (o : Output) (s : AsyncState) → Shrinks s (deliver_output now o s)
unfolding deliver_output
deliver_output-Shrinks now o s = elim (Option-cases (get_request o.request_id s.active)) [
  | inl nobody ↦ simp (nobody, deliver_output) (Shrinks-refl s)
  | inr (r, serves) ↦
      simp (serves, deliver_output)
        (Shrinks-trans (Keeps-Shrinks (observe_output-Keeps now r o.token_id s))
          (send_output-Shrinks now r o (observe_output now r o.token_id s)))
]

crash-Shrinks : (now : ℕ) (e : Failure) (s : AsyncState) → Shrinks s (crash now e s)
unfolding crash
crash-Shrinks now e s =
    let s1 = record s {
      counters = record s.counters { loop_errors = s.counters.loop_errors + 1 };
      last_engine_error = some e;
      fatal_error = some e;
    } in
    let fails : (r : AsyncRequest) (t : AsyncState) → Shrinks t (fail now e r t) =
      λ r t. (fail_request-Ends now r (failure e) "engine_error" t).shrinks in
    let s2 = for_each (fail now e) s.active s1 in
    let s3 = record s2 { active = [] } in
    let cleared : Shrinks s2 s3 = record {
      config = refl;
      pending = λ w. omega arith;
      pending_by_id = λ w. omega arith;
      active = λ w. omega arith;
    } in
    let s4 = for_each (fail now e) s3.pending s3 in
    let emptied : Shrinks s4 (crash now e s) = record {
      config = refl;
      pending = λ w. omega arith;
      pending_by_id = λ w. omega arith;
      active = λ w. omega arith;
    } in
    Shrinks-trans (same_Shrinks s s1 refl refl refl refl) (
      Shrinks-trans (for_each-Shrinks (fail now e) fails s.active s1) (
        Shrinks-trans cleared
          (Shrinks-trans (for_each-Shrinks (fail now e) fails s3.pending s3) emptied)))

pub run_step-Shrinks : (now elapsed : ℕ) (s : AsyncState) → Shrinks s (run_step now elapsed s).0
run_step-Shrinks now elapsed s = elim (Option-cases (step_engine s.engine)) [
  | inl raises ↦
      subst (λ (p : AsyncState × Position). Shrinks s p.0)
        (sym (run_step_raises now elapsed s raises)) (crash-Shrinks now raised s)
  | inr (p, returns) ↦
      let s1 = record s { engine = some p.0 } in
      subst (λ (p : AsyncState × Position). Shrinks s p.0)
        (sym (run_step_returns now elapsed s p returns))
        (Shrinks-trans (same_Shrinks s s1 refl refl refl refl)
          (Keeps-Shrinks (observe_tokens-Keeps p.2 (max elapsed 1) s1)))
]
