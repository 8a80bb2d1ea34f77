-- ===== src/AsyncEngine/Invariant/Narrowing.antt =====
-- Timeouts put nothing into the queues of `AsyncLLMEngine` (nanovllm/engine/async_engine.py).
use nano_vllm_online_serving.Common.{
  ℕ, ◌≤◌, refl, String, List, [], ◌∷◌, arith, Bool-cases, inl, inr,
}
use nano_vllm_online_serving.Pending.{AsyncRequest}
use nano_vllm_online_serving.AsyncEngine.State.{
  AsyncState, queue_timeout, request_timeout, pop_request, remove_request,
}
use nano_vllm_online_serving.AsyncEngine.Channels.{abort_in_engine}
use nano_vllm_online_serving.AsyncEngine.Admission.{
  is_overdue, for_each, expire_one_pending, expire_one_active, expire_pending, expire_active,
}
use nano_vllm_online_serving.AsyncEngine.Invariant.Shrinking.{
  weigh, weigh-pop_request, weigh-remove_request, Shrinks, Shrinks-trans, Keeps-Shrinks,
}
use nano_vllm_online_serving.AsyncEngine.Invariant.Touching.{Keeps-refl, abort_in_engine-Keeps}
use nano_vllm_online_serving.AsyncEngine.Invariant.Ending.{timeout_request-Ends}

pub Shrinks-refl : (s : AsyncState) → Shrinks s s
Shrinks-refl s = Keeps-Shrinks (Keeps-refl s.next_channel s)

-- A request leaves the pending queue, or those that are served.
pub pending_Shrinks :
    (id : String) (rest : List AsyncRequest) (s : AsyncState)
    → ((w : AsyncRequest → ℕ) → weigh w rest ≤ weigh w s.pending)
    → Shrinks s (record s { pending = rest; pending_by_id = pop_request id s.pending_by_id })
pending_Shrinks id rest s h = record {
  config = refl;
  pending = h;
  pending_by_id = λ w. weigh-pop_request w id s.pending_by_id;
  active = λ w. omega arith;
}

pub active_Shrinks :
    (id : String) (s : AsyncState) → Shrinks s (record s { active = pop_request id s.active })
active_Shrinks id s = record {
  config = refl;
  pending = λ w. omega arith;
  pending_by_id = λ w. omega arith;
  active = λ w. weigh-pop_request w id s.active;
}

pub for_each-Shrinks :
    (step : AsyncRequest → AsyncState → AsyncState)
    → ((r : AsyncRequest) (s : AsyncState) → Shrinks s (step r s))
    → (rs : List AsyncRequest) (s : AsyncState) → Shrinks s (for_each step rs s)
unfolding for_each
for_each-Shrinks step h [] s = Shrinks-refl s
for_each-Shrinks step h (r ∷ rs) s = Shrinks-trans (h r s) (for_each-Shrinks step h rs (step r s))

expire_one_pending-Shrinks :
    (now : ℕ) (r : AsyncRequest) (s : AsyncState) → Shrinks s (expire_one_pending now r s)
unfolding expire_one_pending
expire_one_pending-Shrinks now r s = elim (Bool-cases (is_overdue now r.queue_timeout_s r)) [
  | inr waits ↦ simp (waits, expire_one_pending) (Shrinks-refl s)
  | inl overdue ↦
      let left =
        pending_Shrinks r.request_id (remove_request r s.pending) s
          (λ w. weigh-remove_request w r s.pending) in
      simp (overdue, expire_one_pending)
        (Shrinks-trans left (timeout_request-Ends now r queue_timeout _).shrinks)
]

expire_one_active-Shrinks :
    (now : ℕ) (r : AsyncRequest) (s : AsyncState) → Shrinks s (expire_one_active now r s)
unfolding expire_one_active
expire_one_active-Shrinks now r s = elim (Bool-cases (is_overdue now r.request_timeout_s r)) [
  | inr waits ↦ simp (waits, expire_one_active) (Shrinks-refl s)
  | inl overdue ↦
      let s1 = abort_in_engine r.request_id s in
      let aborted : Shrinks s s1 =
        Keeps-Shrinks (abort_in_engine-Keeps r.output_queue r.request_id s) in
      simp (overdue, expire_one_active)
        (Shrinks-trans (Shrinks-trans aborted (active_Shrinks r.request_id s1))
          (timeout_request-Ends now r request_timeout _).shrinks)
]

pub expire_pending-Shrinks : (now : ℕ) (s : AsyncState) → Shrinks s (expire_pending now s)
unfolding expire_pending
expire_pending-Shrinks now s =
    for_each-Shrinks (expire_one_pending now) (expire_one_pending-Shrinks now) s.pending s

pub expire_active-Shrinks : (now : ℕ) (s : AsyncState) → Shrinks s (expire_active now s)
unfolding expire_active
expire_active-Shrinks now s =
    for_each-Shrinks (expire_one_active now) (expire_one_active-Shrinks now) s.active s
