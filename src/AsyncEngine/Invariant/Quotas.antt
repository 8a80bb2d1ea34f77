-- ===== src/AsyncEngine/Invariant/Quotas.antt =====
-- The limits of `AsyncLLMEngine` on its queues (nanovllm/engine/async_engine.py).
use nano_vllm_online_serving.Common.{
  ℕ, ◌≤◌, ◌≡◌, refl, sym, ◌∙◌, subst, true, String, Option, none, some, List, [], ◌∷◌, arith,
  if◌then◌else◌, length, str_eq, Bool-cases, inl, inr,
}
use nano_vllm_online_serving.Pending.{AsyncRequest, estimated_tokens, of_namespace, within}
use nano_vllm_online_serving.AsyncEngine.State.{AsyncConfig, AsyncState}
use nano_vllm_online_serving.AsyncEngine.Submission.{pending_prompt_tokens}
use nano_vllm_online_serving.AsyncEngine.Invariant.Shrinking.{weigh, Shrinks}

-- The queues keep to the limits, for the requests of all namespaces and of each one.
pub record IsLimited (s : AsyncState) : Type 0 where
  pub pending : length s.pending_by_id ≤ s.config.max_pending_requests
  pub pending_tokens :
      within s.config.max_pending_prompt_tokens (pending_prompt_tokens s.pending_by_id) ≡ true
  pub pending_here :
      (ns : String)
      → within s.config.max_pending_requests_per_namespace
          (length (of_namespace ns s.pending_by_id))
        ≡ true
  pub requests : within s.config.limits.max_active_requests (length s.active) ≡ true
  pub tokens : within s.config.limits.max_active_tokens (estimated_tokens s.active) ≡ true
  pub requests_here :
      (ns : String)
      → within s.config.limits.max_active_requests_per_namespace (length (of_namespace ns s.active))
        ≡ true
  pub tokens_here :
      (ns : String)
      → within s.config.limits.max_active_tokens_per_namespace
          (estimated_tokens (of_namespace ns s.active))
        ≡ true

-- The sizes that are limited, as weights.
abbrev pub in_namespace : String → (AsyncRequest → ℕ) → AsyncRequest → ℕ
in_namespace ns w r = if str_eq r.namespace ns then w r else 0

abbrev pub unit_weight : AsyncRequest → ℕ
unit_weight r = 1

abbrev pub estimate : AsyncRequest → ℕ
estimate r = r.estimated_token_count

abbrev pub prompt_size : AsyncRequest → ℕ
prompt_size r = r.prompt_token_count

pub weigh-length : (rs : List AsyncRequest) → weigh unit_weight rs ≡ length rs
weigh-length [] = refl
weigh-length (r ∷ rs) = omega (arith, weigh-length rs)

pub weigh-estimated_tokens : (rs : List AsyncRequest) → weigh estimate rs ≡ estimated_tokens rs
unfolding estimated_tokens
weigh-estimated_tokens [] = refl
weigh-estimated_tokens (r ∷ rs) = omega (arith, weigh-estimated_tokens rs)

pub weigh-pending_prompt_tokens :
    (rs : List AsyncRequest) → weigh prompt_size rs ≡ pending_prompt_tokens rs
unfolding pending_prompt_tokens
weigh-pending_prompt_tokens [] = refl
weigh-pending_prompt_tokens (r ∷ rs) = omega (arith, weigh-pending_prompt_tokens rs)

pub weigh-of_namespace :
    (ns : String) (w : AsyncRequest → ℕ) (rs : List AsyncRequest)
    → weigh w (of_namespace ns rs) ≡ weigh (in_namespace ns w) rs
unfolding of_namespace
weigh-of_namespace ns w [] = refl
weigh-of_namespace ns w (r ∷ rs) =
    let rest = weigh-of_namespace ns w rs in
    elim (Bool-cases (str_eq r.namespace ns)) [
      | inl same ↦ rw same (omega (arith, rest))
      | inr other ↦ rw other (omega (arith, rest))
    ]

pub within_le : (limit : Option ℕ) (n m : ℕ) → n ≤ m → within limit m ≡ true → within limit n ≡ true
unfolding within
within_le none n m h w = refl
within_le (some limit) n m h w = ground (arith, h, w)

-- The limits in terms of weights.
pub record WeighsLess (config : AsyncConfig) (xs ys : List AsyncRequest) : Type 0 where
  pub pending : weigh unit_weight xs ≤ config.max_pending_requests
  pub pending_tokens : within config.max_pending_prompt_tokens (weigh prompt_size xs) ≡ true
  pub pending_here :
      (ns : String)
      → within config.max_pending_requests_per_namespace (weigh (in_namespace ns unit_weight) xs)
        ≡ true
  pub requests : within config.limits.max_active_requests (weigh unit_weight ys) ≡ true
  pub tokens : within config.limits.max_active_tokens (weigh estimate ys) ≡ true
  pub requests_here :
      (ns : String)
      → within config.limits.max_active_requests_per_namespace
          (weigh (in_namespace ns unit_weight) ys)
        ≡ true
  pub tokens_here :
      (ns : String)
      → within config.limits.max_active_tokens_per_namespace (weigh (in_namespace ns estimate) ys)
        ≡ true

abbrev pub KeepsLimits : AsyncState → Type 0
KeepsLimits s = WeighsLess s.config s.pending_by_id s.active

pub Shrinks-KeepsLimits : (s s' : AsyncState) → Shrinks s s' → KeepsLimits s → KeepsLimits s'
Shrinks-KeepsLimits s s' h l =
    subst (λ c. WeighsLess c s'.pending_by_id s'.active) (sym h.config)
      (record {
        pending = omega (arith, h.pending_by_id unit_weight, l.pending);
        pending_tokens = within_le _ _ _ (h.pending_by_id prompt_size) l.pending_tokens;
        pending_here = λ ns.
            within_le _ _ _ (h.pending_by_id (in_namespace ns unit_weight)) (l.pending_here ns);
        requests = within_le _ _ _ (h.active unit_weight) l.requests;
        tokens = within_le _ _ _ (h.active estimate) l.tokens;
        requests_here =
            λ ns. within_le _ _ _ (h.active (in_namespace ns unit_weight)) (l.requests_here ns);
        tokens_here =
            λ ns. within_le _ _ _ (h.active (in_namespace ns estimate)) (l.tokens_here ns);
      })

pub KeepsLimits-IsLimited : (s : AsyncState) → KeepsLimits s → IsLimited s
KeepsLimits-IsLimited s l =
    let p = weigh-length s.pending_by_id in
    record {
      pending = omega (arith, p, l.pending);
      pending_tokens =
          subst (λ n. within s.config.max_pending_prompt_tokens n ≡ true)
            (weigh-pending_prompt_tokens s.pending_by_id) l.pending_tokens;
      pending_here = λ ns.
          subst (λ n. within s.config.max_pending_requests_per_namespace n ≡ true)
            (sym (weigh-of_namespace ns unit_weight s.pending_by_id) ∙ weigh-length _)
            (l.pending_here ns);
      requests =
          subst (λ n. within s.config.limits.max_active_requests n ≡ true) (weigh-length s.active)
            l.requests;
      tokens =
          subst (λ n. within s.config.limits.max_active_tokens n ≡ true)
            (weigh-estimated_tokens s.active) l.tokens;
      requests_here = λ ns.
          subst (λ n. within s.config.limits.max_active_requests_per_namespace n ≡ true)
            (sym (weigh-of_namespace ns unit_weight s.active) ∙ weigh-length _)
            (l.requests_here ns);
      tokens_here = λ ns.
          subst (λ n. within s.config.limits.max_active_tokens_per_namespace n ≡ true)
            (sym (weigh-of_namespace ns estimate s.active) ∙ weigh-estimated_tokens _)
            (l.tokens_here ns);
    }
