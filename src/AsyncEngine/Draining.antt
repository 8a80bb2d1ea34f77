-- ===== src/AsyncEngine/Draining.antt =====
-- Where `_drain_pending` of `AsyncLLMEngine` ends (nanovllm/engine/async_engine.py).
use nano_vllm_online_serving.Common.{
  ℕ, zero, suc, ◌+◌, ◌≤◌, ◌<◌, ◌≡◌, ap, ◌∙◌, true, none, List, arith, length, Bool-cases,
  Option-cases, inl, inr,
}
use nano_vllm_online_serving.Pending.{AsyncRequest}
use nano_vllm_online_serving.AsyncEngine.State.{AsyncState, failure, pop_request}
use nano_vllm_online_serving.AsyncEngine.Admission.{
  expire_pending, record_queue_wait, call_engine, hand_over, admit_request, next_admissible,
  drain_rounds, drain_pending,
}
use nano_vllm_online_serving.AsyncEngine.Tally.{tally-length, Cuts}
use nano_vllm_online_serving.AsyncEngine.Invariant.Quotas.{unit_weight, weigh-length}
use nano_vllm_online_serving.AsyncEngine.Invariant.Touching.{put_stop-Keeps}
use nano_vllm_online_serving.AsyncEngine.Invariant.Ending.{fail_request-Ends}
use nano_vllm_online_serving.AsyncEngine.Invariant.Entering.{
  Added-cases, hand_over_fails, hand_over_adds, next_admissible-Cuts,
}
use nano_vllm_online_serving.AsyncEngine.Invariant.Narrowing.{expire_pending-Shrinks}

hand_over-pending :
    (now : ℕ) (r : AsyncRequest) (s : AsyncState) → (hand_over now r s).pending ≡ s.pending
hand_over-pending now r s = elim (Added-cases (call_engine r s.engine)) [
  | inl (e, fails) ↦
      ap (λ (t : AsyncState). t.pending) (hand_over_fails now r s e fails)
      ∙ (fail_request-Ends now r (failure e) "request_validation" s).touches.pending
  | inr (e, adds) ↦ ap (λ (t : AsyncState). t.pending) (hand_over_adds now r s e adds)
]

-- Whatever becomes of the request, the others wait as before.
admit_request-pending :
    (now : ℕ) (r : AsyncRequest) (rest : List AsyncRequest) (s : AsyncState)
    → (admit_request now r rest s).pending ≡ rest
unfolding admit_request record_queue_wait
admit_request-pending now r rest s =
    let s1 = record s {
      pending = rest;
      pending_by_id = pop_request r.request_id s.pending_by_id;
    } in
    elim (Bool-cases r.cancelled) [
      | inl cancelled ↦ simp (cancelled, admit_request) ((put_stop-Keeps r s1).0.touches.pending)
      | inr wanted ↦
          simp (wanted, admit_request) (hand_over-pending now r (record_queue_wait now r s1))
    ]

shorter : (r : AsyncRequest) (xs ys : List AsyncRequest) → Cuts r xs ys → length xs ≡ 1 + length ys
shorter r xs ys cut =
    let all = cut (λ i q. true) in omega (arith, all, tally-length xs, tally-length ys)

expire_pending-length :
    (now : ℕ) (s : AsyncState) → length (expire_pending now s).pending ≤ length s.pending
expire_pending-length now s =
    let less = (expire_pending-Shrinks now s).pending unit_weight in
    omega (arith, less, weigh-length s.pending, weigh-length (expire_pending now s).pending)

drain_rounds-Exhausts :
    (fuel now : ℕ) (s : AsyncState)
    → length s.pending < fuel
    → next_admissible (drain_rounds fuel now s) ≡ none
unfolding drain_rounds
drain_rounds-Exhausts zero now s h = absurd (omega (arith, h))
drain_rounds-Exhausts (suc fuel) now s h =
    let s1 = expire_pending now s in
    let less = expire_pending-length now s in
    elim (Option-cases (next_admissible s1)) [
      | inl nobody ↦ rw (nobody, drain_rounds) nobody
      | inr ((r, rest), e) ↦
          let one_less = shorter r s1.pending rest (next_admissible-Cuts s1 r rest e) in
          let s2 = admit_request now r rest s1 in
          let left : length s2.pending ≡ length rest =
            ap length (admit_request-pending now r rest s1) in
          rw (e, drain_rounds)
            (drain_rounds-Exhausts fuel now s2 (omega (arith, h, less, one_less, left)))
    ]

-- `_drain_pending` ends, after at most one round more than there are pending requests, and then no
-- pending request may be admitted: the engine is full, or none of them fits its limits.
pub drain_pending-Exhausts :
    (now : ℕ) (s : AsyncState) → next_admissible (drain_pending now s) ≡ none
unfolding drain_pending
drain_pending-Exhausts now s = drain_rounds-Exhausts (length s.pending + 1) now s (omega arith)
