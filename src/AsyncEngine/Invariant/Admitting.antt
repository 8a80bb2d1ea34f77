-- ===== src/AsyncEngine/Invariant/Admitting.antt =====
-- A request enters the engine only within the limits (nanovllm/engine/async_engine.py).
use nano_vllm_online_serving.Common.{
  ℕ, zero, suc, ◌+◌, ◌≤◌, ◌≡◌, refl, sym, ap, ◌∙◌, subst, Bool, true, false, String, Option, none,
  some, List, [], ◌∷◌, ◌++◌, arith, ◌&&◌, length, str_eq, Bool-cases, Option-cases, inl, inr,
}
use nano_vllm_online_serving.LlmEngine.{LlmEngine}
use nano_vllm_online_serving.Pending.{
  AsyncRequest, ActiveLimits, estimated_tokens, of_namespace, within, can_admit_active,
}
use nano_vllm_online_serving.Pending.Limits.{IsNext, PopAnswers, pop_next_admissible-PopAnswers}
use nano_vllm_online_serving.AsyncEngine.State.{AsyncState, failure, pop_request, set_request}
use nano_vllm_online_serving.AsyncEngine.Channels.{put_stop}
use nano_vllm_online_serving.AsyncEngine.Admission.{
  record_queue_wait, call_engine, hand_over, admit_request, next_admissible, drain_rounds,
  drain_pending, expire_pending,
}
use nano_vllm_online_serving.AsyncEngine.Tally.{str_eq_sound}
use nano_vllm_online_serving.AsyncEngine.Invariant.Shrinking.{
  weigh, weigh-set_request, Keeps-Shrinks,
}
use nano_vllm_online_serving.AsyncEngine.Invariant.Ending.{fail_request-Ends}
use nano_vllm_online_serving.AsyncEngine.Invariant.Entering.{
  Added-cases, hand_over_fails, hand_over_adds, record_queue_wait-Keeps,
}
use nano_vllm_online_serving.AsyncEngine.Invariant.Quotas.{
  unit_weight, estimate, in_namespace, weigh-length, weigh-estimated_tokens, weigh-of_namespace,
  within_le, KeepsLimits, Shrinks-KeepsLimits,
}
use nano_vllm_online_serving.AsyncEngine.Invariant.Narrowing.{
  pending_Shrinks, expire_pending-Shrinks,
}
use nano_vllm_online_serving.AsyncEngine.Invariant.Withdrawing.{put_stop-Shrinks}

both : (b c : Bool) → (b && c) ≡ true → (b ≡ true) × (c ≡ true)
both true c h = (refl, h)
both false c h = absurd cc

-- What `_can_admit_active` has tested, in terms of weights.
pub record Admits (l : ActiveLimits) (active : List AsyncRequest) (r : AsyncRequest) : Type 0 where
  pub requests : within l.max_active_requests (weigh unit_weight active + 1) ≡ true
  pub requests_here :
      within l.max_active_requests_per_namespace
        (weigh (in_namespace r.namespace unit_weight) active + 1)
      ≡ true
  pub tokens : within l.max_active_tokens (weigh estimate active + r.estimated_token_count) ≡ true
  pub tokens_here :
      within l.max_active_tokens_per_namespace
        (weigh (in_namespace r.namespace estimate) active + r.estimated_token_count)
      ≡ true

can_admit_active-Admits :
    (l : ActiveLimits) (active : List AsyncRequest) (r : AsyncRequest)
    → r.cancelled ≡ false
    → can_admit_active l active r ≡ true
    → Admits l active r
unfolding can_admit_active
can_admit_active-Admits l active r wanted h =
    let ns = r.namespace in
    let here = of_namespace ns active in
    let t1 = within l.max_active_requests (length active + 1) in
    let t2 = within l.max_active_requests_per_namespace (length here + 1) in
    let t3 = within l.max_active_tokens (estimated_tokens active + r.estimated_token_count) in
    let t4 =
      within l.max_active_tokens_per_namespace (estimated_tokens here + r.estimated_token_count) in
    let h0 : (t1 && t2 && t3 && t4) ≡ true = rw (wanted, can_admit_active) at h in
    let (h1, d) = both (t1 && t2 && t3) t4 h0 in
    let (h2, c) = both (t1 && t2) t3 h1 in
    let (a, b) = both t1 t2 h2 in
    let count = weigh-of_namespace ns unit_weight active in
    let sum = weigh-of_namespace ns estimate active in
    record {
      requests =
          subst (λ n. within l.max_active_requests (n + 1) ≡ true) (sym (weigh-length active)) a;
      requests_here =
          subst (λ n. within l.max_active_requests_per_namespace (n + 1) ≡ true)
            (sym (weigh-length (of_namespace ns active)) ∙ count) b;
      tokens =
          subst (λ n. within l.max_active_tokens (n + r.estimated_token_count) ≡ true)
            (sym (weigh-estimated_tokens active)) c;
      tokens_here =
          subst (λ n. within l.max_active_tokens_per_namespace (n + r.estimated_token_count) ≡ true)
            (sym (weigh-estimated_tokens (of_namespace ns active)) ∙ sum) d;
    }

-- One more request of a namespace; the others keep what they have.
pub enters_namespace :
    (limit : Option ℕ) (w : AsyncRequest → ℕ) (r : AsyncRequest) (rs rs' : List AsyncRequest)
    (ns : String)
    → weigh (in_namespace ns w) rs' ≤ in_namespace ns w r + weigh (in_namespace ns w) rs
    → within limit (weigh (in_namespace ns w) rs) ≡ true
    → within limit (weigh (in_namespace r.namespace w) rs + w r) ≡ true
    → within limit (weigh (in_namespace ns w) rs') ≡ true
enters_namespace limit w r rs rs' ns more before after = elim (Bool-cases (str_eq r.namespace ns)) [
  | inl same ↦
      let e = str_eq_sound r.namespace ns same in
      let after1 : within limit (weigh (in_namespace ns w) rs + w r) ≡ true =
        subst (λ k. within limit (weigh (in_namespace k w) rs + w r) ≡ true) e after in
      let more1 : weigh (in_namespace ns w) rs' ≤ w r + weigh (in_namespace ns w) rs =
        rw same at more in
      within_le limit _ _ (omega (arith, more1)) after1
  | inr other ↦
      let more1 : weigh (in_namespace ns w) rs' ≤ 0 + weigh (in_namespace ns w) rs =
        rw other at more in
      within_le limit _ _ (omega (arith, more1)) before
]

enters_active :
    (r : AsyncRequest) (e : LlmEngine) (s : AsyncState)
    → KeepsLimits s
    → Admits s.config.limits s.active r
    → KeepsLimits (record s { engine = some e; active = set_request r s.active })
enters_active r e s l a =
    let set : (w : AsyncRequest → ℕ) → weigh w (set_request r s.active) ≤ w r + weigh w s.active =
      λ w. weigh-set_request w r s.active in
    record {
      pending = l.pending;
      pending_tokens = l.pending_tokens;
      pending_here = l.pending_here;
      requests = within_le _ _ _ (omega (arith, set unit_weight)) a.requests;
      tokens = within_le _ _ _ (omega (arith, set estimate)) a.tokens;
      requests_here = λ ns.
          enters_namespace _ unit_weight r s.active _ ns (set (in_namespace ns unit_weight))
            (l.requests_here ns) a.requests_here;
      tokens_here = λ ns.
          enters_namespace _ estimate r s.active _ ns (set (in_namespace ns estimate))
            (l.tokens_here ns) a.tokens_here;
    }

hand_over-KeepsLimits :
    (now : ℕ) (r : AsyncRequest) (s : AsyncState)
    → KeepsLimits s
    → Admits s.config.limits s.active r
    → KeepsLimits (hand_over now r s)
hand_over-KeepsLimits now r s l a = elim (Added-cases (call_engine r s.engine)) [
  | inl (e, fails) ↦ subst KeepsLimits (sym (hand_over_fails now r s e fails)) (
      Shrinks-KeepsLimits s _ (fail_request-Ends now r (failure e) "request_validation" s).shrinks
        l)
  | inr (e, adds) ↦
      subst KeepsLimits (sym (hand_over_adds now r s e adds)) (enters_active r e s l a)
]

-- The choice of the next request, as `_can_admit_active` has tested it.
next_admissible_tested :
    (s : AsyncState) (r : AsyncRequest) (rest : List AsyncRequest)
    → next_admissible s ≡ some (r, rest)
    → IsNext s.config.limits s.active s.pending (r, rest)
unfolding next_admissible
next_admissible_tested s r rest e =
    elim (Bool-cases (within s.config.limits.max_active_requests (length s.active + 1))) [
      | inl room ↦
          subst (PopAnswers s.config.limits s.active s.pending) (rw (room, next_admissible) at e)
            (pop_next_admissible-PopAnswers s.config.limits s.active s.pending)
      | inr full ↦ absurd (none_some (r, rest) (rw (full, next_admissible) at e))
    ]
  where
    none_some : (p : AsyncRequest × List AsyncRequest) → none ≡ some p → ⊥
    none_some p h = cc

admit_request-KeepsLimits :
    (now : ℕ) (r : AsyncRequest) (rest : List AsyncRequest) (s : AsyncState)
    → KeepsLimits s
    → IsNext s.config.limits s.active s.pending (r, rest)
    → KeepsLimits (admit_request now r rest s)
unfolding admit_request record_queue_wait
admit_request-KeepsLimits now r rest s l next =
    let s1 = record s {
      pending = rest;
      pending_by_id = pop_request r.request_id s.pending_by_id;
    } in
    let l1 =
      Shrinks-KeepsLimits s s1 (pending_Shrinks r.request_id rest s (next_less s r rest next)) l in
    elim (Bool-cases r.cancelled) [
      | inl cancelled ↦
          simp (cancelled, admit_request)
            (Shrinks-KeepsLimits s1 (put_stop r s1) (put_stop-Shrinks r s1) l1)
      | inr wanted ↦
          let s2 = record_queue_wait now r s1 in
          let l2 =
            Shrinks-KeepsLimits s1 s2 (Keeps-Shrinks (record_queue_wait-Keeps now r s1)) l1 in
          simp (wanted, admit_request)
            (hand_over-KeepsLimits now r s2 l2
              (can_admit_active-Admits s.config.limits s.active r wanted next.admits))
    ]
  where
    append_weighs :
        (w : AsyncRequest → ℕ) (xs ys : List AsyncRequest)
        → weigh w (xs ++ ys) ≡ weigh w xs + weigh w ys
    append_weighs w [] ys = omega arith
    append_weighs w (x ∷ xs) ys = omega (arith, append_weighs w xs ys)

    next_less :
        (s : AsyncState) (r : AsyncRequest) (rest : List AsyncRequest)
        → IsNext s.config.limits s.active s.pending (r, rest)
        → (w : AsyncRequest → ℕ) → weigh w rest ≤ weigh w s.pending
    next_less s r rest n w =
        let whole = ap (weigh w) n.before ∙ append_weighs w n.passed (r ∷ n.left) in
        let part = ap (weigh w) n.after ∙ append_weighs w n.passed n.left in
        omega (arith, whole, part)

drain_rounds-KeepsLimits :
    (fuel now : ℕ) (s : AsyncState) → KeepsLimits s → KeepsLimits (drain_rounds fuel now s)
unfolding drain_rounds
drain_rounds-KeepsLimits zero now s l = l
drain_rounds-KeepsLimits (suc fuel) now s l =
    let s1 = expire_pending now s in
    let l1 = Shrinks-KeepsLimits s s1 (expire_pending-Shrinks now s) l in
    elim (Option-cases (next_admissible s1)) [
      | inl nobody ↦ rw (nobody, drain_rounds) l1
      | inr ((r, rest), e) ↦
          rw (e, drain_rounds)
            (drain_rounds-KeepsLimits fuel now (admit_request now r rest s1)
              (admit_request-KeepsLimits now r rest s1 l1 (next_admissible_tested s1 r rest e)))
    ]

-- `_drain_pending` admits nobody beyond the limits.
pub drain_pending-KeepsLimits :
    (now : ℕ) (s : AsyncState) → KeepsLimits s → KeepsLimits (drain_pending now s)
unfolding drain_pending
drain_pending-KeepsLimits now s l = drain_rounds-KeepsLimits (length s.pending + 1) now s l
