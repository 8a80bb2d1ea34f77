-- ===== src/AsyncEngine/Invariant/Shrinking.antt =====
-- Calls of `AsyncLLMEngine` that put nothing into its queues (nanovllm/engine/async_engine.py).
use nano_vllm_online_serving.Common.{
  ℕ, ◌+◌, ◌≤◌, ◌≡◌, ap, ◌∙◌, String, List, [], ◌∷◌, arith, ◌==◌, str_eq, Bool-cases, inl, inr,
}
use nano_vllm_online_serving.Pending.{AsyncRequest}
use nano_vllm_online_serving.AsyncEngine.State.{
  AsyncState, pop_request, set_request, remove_request,
}
use nano_vllm_online_serving.AsyncEngine.Invariant.Touching.{Keeps}

-- What the requests of a queue weigh together.
abbrev pub weigh : (AsyncRequest → ℕ) → List AsyncRequest → ℕ
weigh w [] = 0
weigh w (r ∷ rs) = w r + weigh w rs

pub weigh-pop_request :
    (w : AsyncRequest → ℕ) (id : String) (rs : List AsyncRequest)
    → weigh w (pop_request id rs) ≤ weigh w rs
unfolding pop_request
weigh-pop_request w id [] = omega arith
weigh-pop_request w id (r ∷ rs) =
    let rest = weigh-pop_request w id rs in
    elim (Bool-cases (str_eq r.request_id id)) [
      | inl same ↦ rw same (omega (arith, rest))
      | inr other ↦ rw other (omega (arith, rest))
    ]

pub weigh-remove_request :
    (w : AsyncRequest → ℕ) (q : AsyncRequest) (rs : List AsyncRequest)
    → weigh w (remove_request q rs) ≤ weigh w rs
unfolding remove_request
weigh-remove_request w q [] = omega arith
weigh-remove_request w q (r ∷ rs) =
    let rest = weigh-remove_request w q rs in
    elim (Bool-cases (r.output_queue == q.output_queue)) [
      | inl same ↦ rw same (omega arith)
      | inr other ↦ rw other (omega (arith, rest))
    ]

pub weigh-set_request :
    (w : AsyncRequest → ℕ) (q : AsyncRequest) (rs : List AsyncRequest)
    → weigh w (set_request q rs) ≤ w q + weigh w rs
unfolding set_request
weigh-set_request w q [] = omega arith
weigh-set_request w q (r ∷ rs) =
    let rest = weigh-set_request w q rs in
    elim (Bool-cases (str_eq r.request_id q.request_id)) [
      | inl same ↦ rw same (omega arith)
      | inr other ↦ rw other (omega (arith, rest))
    ]

-- No queue weighs more than before, however requests are weighed.
pub record Shrinks (s s' : AsyncState) : Type 0 where
  pub config : s'.config ≡ s.config
  pub pending : (w : AsyncRequest → ℕ) → weigh w s'.pending ≤ weigh w s.pending
  pub pending_by_id : (w : AsyncRequest → ℕ) → weigh w s'.pending_by_id ≤ weigh w s.pending_by_id
  pub active : (w : AsyncRequest → ℕ) → weigh w s'.active ≤ weigh w s.active

pub Shrinks-trans : {s t u : AsyncState} → Shrinks s t → Shrinks t u → Shrinks s u
Shrinks-trans a b = record {
  config = b.config ∙ a.config;
  pending = λ w. omega (arith, a.pending w, b.pending w);
  pending_by_id = λ w. omega (arith, a.pending_by_id w, b.pending_by_id w);
  active = λ w. omega (arith, a.active w, b.active w);
}

pub Keeps-Shrinks : {x : ℕ} {s s' : AsyncState} → Keeps x s s' → Shrinks s s'
Keeps-Shrinks k = record {
  config = k.touches.config;
  pending = λ w. let p = ap (weigh w) k.touches.pending in omega (arith, p);
  pending_by_id = λ w. let p = ap (weigh w) k.pending_by_id in omega (arith, p);
  active = λ w. let a = ap (weigh w) k.active in omega (arith, a);
}
