-- ===== src/AsyncEngine/Invariant/Limits.antt =====
-- The limits of `AsyncLLMEngine` along its runs (nanovllm/engine/async_engine.py).
use nano_vllm_online_serving.Common.{
  ℕ, ◌+◌, ◌≤◌, ◌≡◌, refl, sym, ◌∙◌, subst, true, Option, none, some, arith, Bool-cases, inl, inr,
}
use nano_vllm_online_serving.Pending.{AsyncRequest, within, of_namespace}
use nano_vllm_online_serving.AsyncEngine.State.{
  AsyncOptions, AsyncState, new_async_engine, set_request,
}
use nano_vllm_online_serving.AsyncEngine.Admission.{expire_pending, expire_active, drain_pending}
use nano_vllm_online_serving.AsyncEngine.Submission.{
  Submission, count_refusal, check_request, submit, add_request,
}
use nano_vllm_online_serving.AsyncEngine.Accepting.{Accepts, check_request-Accepts, Checked-cases}
use nano_vllm_online_serving.AsyncEngine.Control.{set_draining}
use nano_vllm_online_serving.AsyncEngine.Loop.{prepare_step, has_no_work, begin_round}
use nano_vllm_online_serving.AsyncEngine.Runs.{
  Machine, new_machine, Step, starts, submits, aborts, takes, drains, purges, stops, restarts,
  begins, delivers, ends, Reach, here, next,
}
use nano_vllm_online_serving.AsyncEngine.Invariant.Shrinking.{
  weigh, weigh-set_request, Shrinks-trans, Keeps-Shrinks,
}
use nano_vllm_online_serving.AsyncEngine.Invariant.Submitting.{count_refusal-Keeps}
use nano_vllm_online_serving.AsyncEngine.Invariant.Running.{
  start-Keeps, shutdown-Keeps, restart-Keeps, PurgeKeeps, purge_cache-PurgeKeeps,
}
use nano_vllm_online_serving.AsyncEngine.Invariant.Quotas.{
  IsLimited, unit_weight, prompt_size, in_namespace, weigh-length, weigh-of_namespace,
  weigh-pending_prompt_tokens, within_le, KeepsLimits, Shrinks-KeepsLimits, KeepsLimits-IsLimited,
}
use nano_vllm_online_serving.AsyncEngine.Invariant.Narrowing.{
  expire_pending-Shrinks, expire_active-Shrinks,
}
use nano_vllm_online_serving.AsyncEngine.Invariant.Withdrawing.{
  same_Shrinks, abort-Shrinks, take_item-Shrinks, deliver_output-Shrinks, run_step-Shrinks,
}
use nano_vllm_online_serving.AsyncEngine.Invariant.Admitting.{
  enters_namespace, drain_pending-KeepsLimits,
}

-- An accepted request fits into the queue.
submit-KeepsLimits :
    (now : ℕ) (a : Submission) (r : AsyncRequest) (s : AsyncState)
    → Accepts now a s r
    → KeepsLimits s
    → KeepsLimits (submit r s)
unfolding submit
submit-KeepsLimits now a r s ok l =
    let set : (w : AsyncRequest → ℕ)
        → weigh w (set_request r s.pending_by_id) ≤ w r + weigh w s.pending_by_id =
      λ w. weigh-set_request w r s.pending_by_id in
    let count = weigh-length s.pending_by_id in
    let prompts = weigh-pending_prompt_tokens s.pending_by_id in
    let namespace_room : within s.config.max_pending_requests_per_namespace
          (weigh (in_namespace r.namespace unit_weight) s.pending_by_id + 1)
        ≡ true =
      subst
        (λ ns.
          within s.config.max_pending_requests_per_namespace
            (weigh (in_namespace ns unit_weight) s.pending_by_id + 1)
          ≡ true)
        (sym ok.namespace)
        (subst (λ n. within s.config.max_pending_requests_per_namespace (n + 1) ≡ true)
          (sym (weigh-length (of_namespace a.namespace s.pending_by_id))
            ∙ weigh-of_namespace a.namespace unit_weight s.pending_by_id)
          ok.queue.namespace_room) in
    record {
      pending = omega (arith, set unit_weight, count, ok.queue.room);
      pending_tokens =
          within_le _ _ _ (omega (arith, set prompt_size, prompts)) ok.tokens.pending_room;
      pending_here = λ ns.
          enters_namespace _ unit_weight r s.pending_by_id _ ns (set (in_namespace ns unit_weight))
            (l.pending_here ns) namespace_room;
      requests = l.requests;
      tokens = l.tokens;
      requests_here = l.requests_here;
      tokens_here = l.tokens_here;
    }

add_request-KeepsLimits :
    (now : ℕ) (a : Submission) (s : AsyncState)
    → KeepsLimits s
    → KeepsLimits (add_request now a s).0
unfolding add_request
add_request-KeepsLimits now a s l =
    let s1 = expire_pending now s in
    let l1 = Shrinks-KeepsLimits s s1 (expire_pending-Shrinks now s) l in
    elim (Checked-cases (check_request now a s1)) [
      | inl (e, refuses) ↦
          rw (refuses, add_request)
            (Shrinks-KeepsLimits s1 (count_refusal e s1) (Keeps-Shrinks (count_refusal-Keeps e s1))
              l1)
      | inr (r, accepts) ↦
          rw (accepts, add_request)
            (submit-KeepsLimits now a r s1 (check_request-Accepts now a s1 r accepts) l1)
    ]

begin_round-KeepsLimits :
    (now elapsed : ℕ) (s : AsyncState) → KeepsLimits s → KeepsLimits (begin_round now elapsed s).0
unfolding begin_round prepare_step
begin_round-KeepsLimits now elapsed s l =
    let s1 = expire_active now (expire_pending now s) in
    let before = Shrinks-trans (expire_pending-Shrinks now s) (expire_active-Shrinks now _) in
    let l1 = drain_pending-KeepsLimits now s1 (Shrinks-KeepsLimits s s1 before l) in
    let s2 = drain_pending now s1 in
    let s3 = expire_active now s2 in
    let l3 = Shrinks-KeepsLimits s2 s3 (expire_active-Shrinks now s2) l1 in
    elim (Bool-cases (has_no_work s3.engine)) [
      | inl idle ↦ rw (idle, begin_round) l3
      | inr busy ↦
          rw (busy, begin_round) (Shrinks-KeepsLimits s3 _ (run_step-Shrinks now elapsed s3) l3)
    ]

zero_within : (limit : Option ℕ) → within limit 0 ≡ true
unfolding within
zero_within none = refl
zero_within (some n) = ground arith

new_async_engine-KeepsLimits : (o : AsyncOptions) → KeepsLimits (new_async_engine o)
unfolding new_async_engine
new_async_engine-KeepsLimits o = record {
  pending = omega arith;
  pending_tokens = zero_within _;
  pending_here = λ ns. zero_within _;
  requests = zero_within _;
  tokens = zero_within _;
  requests_here = λ ns. zero_within _;
  tokens_here = λ ns. zero_within _;
}

Step-KeepsLimits : {m n : Machine} → Step m n → KeepsLimits m.state → KeepsLimits n.state
unfolding set_draining
Step-KeepsLimits {m} (starts make) l =
    Shrinks-KeepsLimits m.state _ (Keeps-Shrinks (start-Keeps 0 make m.state)) l
Step-KeepsLimits {m} (submits now a) l = add_request-KeepsLimits now a m.state l
Step-KeepsLimits {m} (aborts id) l = Shrinks-KeepsLimits m.state _ (abort-Shrinks id m.state) l
Step-KeepsLimits {m} (takes r item s e) l =
    Shrinks-KeepsLimits m.state s (take_item-Shrinks r m.state s item e) l
Step-KeepsLimits {m} (drains enabled) l =
    let s1 = record m.state { draining = enabled } in
    Shrinks-KeepsLimits m.state s1 (same_Shrinks m.state s1 refl refl refl refl) l
Step-KeepsLimits {m} (purges namespace expired_only s n e) l =
    let k =
      subst (PurgeKeeps 0 m.state) e (purge_cache-PurgeKeeps 0 namespace expired_only m.state) in
    Shrinks-KeepsLimits m.state s (Keeps-Shrinks k) l
Step-KeepsLimits {m} (stops e) l =
    Shrinks-KeepsLimits m.state _ (Keeps-Shrinks (shutdown-Keeps 0 m.state)) l
Step-KeepsLimits {m} (restarts make e) l =
    Shrinks-KeepsLimits m.state _ (Keeps-Shrinks (restart-Keeps 0 make m.state)) l
Step-KeepsLimits {m} (begins now elapsed e running) l =
    begin_round-KeepsLimits now elapsed m.state l
Step-KeepsLimits {m} (delivers now o rest e) l =
    Shrinks-KeepsLimits m.state _ (deliver_output-Shrinks now o m.state) l
Step-KeepsLimits {m} (ends now e) l =
    Shrinks-KeepsLimits m.state _ (expire_active-Shrinks now m.state) l

Reach-KeepsLimits : (o : AsyncOptions) {m : Machine} → Reach (new_machine o) m → KeepsLimits m.state
Reach-KeepsLimits o here = new_async_engine-KeepsLimits o
Reach-KeepsLimits o (next r st) = Step-KeepsLimits st (Reach-KeepsLimits o r)

-- In every run of the engine its queues keep to the limits: the number of pending requests, the
-- tokens of their prompts, the number of requests that are served and their estimated tokens, and
-- for each namespace the numbers of requests and the tokens that are served.
pub Reach-IsLimited : (o : AsyncOptions) (m : Machine) → Reach (new_machine o) m → IsLimited m.state
Reach-IsLimited o m r = KeepsLimits-IsLimited m.state (Reach-KeepsLimits o r)
