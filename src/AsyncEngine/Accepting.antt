-- ===== src/AsyncEngine/Accepting.antt =====
-- What `add_request` of `AsyncLLMEngine` has tested when it accepts a request
-- (nanovllm/engine/async_engine.py).
use nano_vllm_online_serving.Common.{
  ℕ, ◌+◌, ◌<◌, ◌≡◌, ◌⊎◌, refl, ap, subst, Bool, true, false, none, arith, not, ◌||◌, length,
  Option-cases, inl, inr,
}
use nano_vllm_online_serving.LlmEngine.{Prompt}
use nano_vllm_online_serving.Pending.{AsyncRequest, within, of_namespace}
use nano_vllm_online_serving.AsyncEngine.State.{AsyncState}
use nano_vllm_online_serving.AsyncEngine.Admission.{expire_pending}
use nano_vllm_online_serving.AsyncEngine.Submission.{
  Submission, pending_prompt_tokens, has_request, check_open, check_queue, check_tokens,
  check_request, Parameters, check_parameters, make_request, check_made, submit, add_request,
}
use nano_vllm_online_serving.AsyncEngine.Validating.{
  Refusal, Checked, refused, passed, ◌>>=◌, refuse_if, check_prompt,
}

-- A chain of tests that passes has passed the first, and the rest.
bind_passed {ℓ κ} :
    {A : Type ℓ} {B : Type κ} (m : Checked A) (f : A → Checked B) (b : B)
    → (m >>= f) ≡ passed b
    → (a : A) × (m ≡ passed a) × (f a ≡ passed b)
bind_passed (refused e) f b h = absurd cc
bind_passed (passed a) f b h = (a, refl, h)

refuse_if_passed : (b : Bool) (e : Refusal) (u : Unit {0}) → refuse_if b e ≡ passed u → b ≡ false
unfolding refuse_if
refuse_if_passed true e u h = absurd cc
refuse_if_passed false e u h = refl

not-false : (b : Bool) → not b ≡ false → b ≡ true
not-false true h = refl
not-false false h = cc

check_open_passed :
    (s : AsyncState) (u : Unit {0})
    → check_open s ≡ passed u
    → (s.fatal_error ≡ none) × (s.draining ≡ false)
unfolding check_open
check_open_passed s u h = elim (Option-cases s.fatal_error) [
  | inl fine ↦ (fine, refuse_if_passed s.draining _ u (rw (fine, check_open) at h))
  | inr (e, failed) ↦ let wrong : refused _ ≡ passed u = rw (failed, check_open) at h in absurd cc
]

-- The tests on the queue have passed.
pub record FitsQueue (a : Submission) (s : AsyncState) : Type 0 where
  pub room : length s.pending_by_id < s.config.max_pending_requests
  pub new_pending : has_request a.request_id s.pending_by_id ≡ false
  pub new_active : has_request a.request_id s.active ≡ false
  pub namespace_room :
      within s.config.max_pending_requests_per_namespace
        (length (of_namespace a.namespace s.pending_by_id) + 1)
      ≡ true

neither : (b c : Bool) → (b || c) ≡ false → (b ≡ false) × (c ≡ false)
neither true c h = absurd cc
neither false c h = (refl, h)

check_queue_passed :
    (a : Submission) (s : AsyncState) (u : Unit {0}) → check_queue a s ≡ passed u → FitsQueue a s
unfolding check_queue
check_queue_passed a s u h =
    let (u1, h1, k1) = bind_passed _ _ u h in
    let (u2, h2, k2) = bind_passed _ _ u k1 in
    let room = refuse_if_passed _ _ u1 h1 in
    let new = neither _ _ (refuse_if_passed _ _ u2 h2) in
    record {
      room = ground (arith, room);
      new_pending = new.0;
      new_active = new.1;
      namespace_room = not-false _ (refuse_if_passed _ _ u k2);
    }

-- The tests on the numbers of tokens have passed.
pub record FitsTokens (prompt_tokens estimated : ℕ) (s : AsyncState) : Type 0 where
  pub positive : 0 < prompt_tokens
  pub pending_room :
      within s.config.max_pending_prompt_tokens
        (pending_prompt_tokens s.pending_by_id + prompt_tokens)
      ≡ true
  pub active_fit : within s.config.limits.max_active_tokens estimated ≡ true
  pub namespace_fit : within s.config.limits.max_active_tokens_per_namespace estimated ≡ true

check_tokens_passed :
    (prompt_tokens estimated : ℕ) (s : AsyncState) (u : Unit {0})
    → check_tokens prompt_tokens estimated s ≡ passed u
    → FitsTokens prompt_tokens estimated s
unfolding check_tokens
check_tokens_passed p n s u h =
    let (u1, h1, k1) = bind_passed _ _ u h in
    let (u2, h2, k2) = bind_passed _ _ u k1 in
    let (u3, h3, k3) = bind_passed _ _ u k2 in
    let some_tokens = refuse_if_passed _ _ u1 h1 in
    record {
      positive = ground (arith, some_tokens);
      pending_room = not-false _ (refuse_if_passed _ _ u2 h2);
      active_fit = not-false _ (refuse_if_passed _ _ u3 h3);
      namespace_fit = not-false _ (refuse_if_passed _ _ u k3);
    }

-- What is known of an accepted request.
pub record Accepts (now : ℕ) (a : Submission) (s : AsyncState) (r : AsyncRequest) : Type 0 where
  pub healthy : s.fatal_error ≡ none
  pub open_to_all : s.draining ≡ false
  pub queue : FitsQueue a s
  pub tokens : FitsTokens r.prompt_token_count r.estimated_token_count s
  pub id : r.request_id ≡ a.request_id
  pub namespace : r.namespace ≡ a.namespace
  pub object : r.output_queue ≡ s.next_channel
  pub created : r.created_at ≡ now
  pub sum : r.estimated_token_count ≡ r.prompt_token_count + r.sampling_params.max_tokens
  pub wanted : r.cancelled ≡ false

-- The request that the tests let through is the one that was made.
check_made_passed :
    (r r' : AsyncRequest) (s : AsyncState)
    → check_made r s ≡ passed r'
    → FitsTokens r.prompt_token_count r.estimated_token_count s × (r ≡ r')
unfolding check_made
check_made_passed r r' s h =
    let (u, h1, k1) =
      bind_passed (check_tokens r.prompt_token_count r.estimated_token_count s) (λ _. passed r) r'
        h in
    (check_tokens_passed r.prompt_token_count r.estimated_token_count s u h1, passed_eq r r' k1)
  where
    passed_eq : (a b : AsyncRequest) → passed a ≡ passed b → a ≡ b
    passed_eq a b e = ap (λ c. elim c [ refused x ↦ a | passed b ↦ b ]) e

pub check_request-Accepts :
    (now : ℕ) (a : Submission) (s : AsyncState) (r : AsyncRequest)
    → check_request now a s ≡ passed r
    → Accepts now a s r
unfolding check_request make_request
check_request-Accepts now a s r h =
    let f4 : Parameters → Prompt → Checked AsyncRequest =
      λ p prompt. check_made (make_request now a p prompt s) s in
    let f3 : Parameters → Unit {0} → Checked AsyncRequest = λ p u. check_prompt a.prompt >>= f4 p in
    let f2 : Parameters → Checked AsyncRequest = λ p. check_queue a s >>= f3 p in
    let (u1, h1, k1) = bind_passed (check_open s) (λ u. check_parameters a >>= f2) r h in
    let (p, h2, k2) = bind_passed (check_parameters a) f2 r k1 in
    let (u3, h3, k3) = bind_passed (check_queue a s) (f3 p) r k2 in
    let (prompt, h4, k4) = bind_passed (check_prompt a.prompt) (f4 p) r k3 in
    let (tokens, made) = check_made_passed (make_request now a p prompt s) r s k4 in
    let (healthy, open_to_all) = check_open_passed s u1 h1 in
    subst (Accepts now a s) made (record {
      healthy = healthy;
      open_to_all = open_to_all;
      queue = check_queue_passed a s u3 h3;
      tokens = tokens;
      id = refl;
      namespace = refl;
      object = refl;
      created = refl;
      sum = refl;
      wanted = refl;
    })

pub Checked-cases {ℓ} :
    {A : Type ℓ} (c : Checked A) → ((e : Refusal) × (c ≡ refused e)) ⊎ ((a : A) × (c ≡ passed a))
Checked-cases (refused e) = inl (e, refl)
Checked-cases (passed a) = inr (a, refl)

-- `add_request` returns a request only when it is a new object, with its own id, where the engine has
-- not failed and is not draining, the queue, the namespace and the budgets of tokens have room for
-- it, and it fits the limits of the engine alone; and then it has put just this request into the
-- queue, after the requests whose time is over have left.
pub add_request-Accepts :
    (now : ℕ) (a : Submission) (s : AsyncState) (r : AsyncRequest)
    → (add_request now a s).1 ≡ passed r
    → Accepts now a (expire_pending now s) r
      × ((add_request now a s).0 ≡ submit r (expire_pending now s))
unfolding add_request
add_request-Accepts now a s r h =
    let s1 = expire_pending now s in
    elim (Checked-cases (check_request now a s1)) [
      | inl (e, refuses) ↦
          let wrong : refused e ≡ passed r = rw (refuses, add_request) at h in absurd cc
      | inr (r', accepts) ↦
          let same : passed r' ≡ passed r = rw (accepts, add_request) at h in
          let it : r' ≡ r = ap (λ c. elim c [ refused x ↦ r' | passed b ↦ b ]) same in
          let ok = check_request-Accepts now a s1 r' accepts in
          subst (λ x. Accepts now a s1 x × ((add_request now a s).0 ≡ submit x s1)) it
            (ok, rw (accepts, add_request) refl)
    ]
