-- ===== src/AsyncEngine/Tally/Removal.antt =====
-- The functions of nanovllm/engine/async_engine.py that take a request out of a queue.
use nano_vllm_online_serving.Common.{
  ℕ, ◌+◌, ◌≤◌, ◌<◌, ◌≡◌, refl, ap, ◌∙◌, subst, Bool, true, false, String, some, List, [], ◌∷◌,
  arith, ◌==◌, ◌&&◌, str_eq, Bool-cases, inl, inr,
}
use nano_vllm_online_serving.Pending.{AsyncRequest, ActiveLimits, pop_next_admissible}
use nano_vllm_online_serving.Pending.Limits.{IsNext, PopAnswers, pop_next_admissible-PopAnswers}
use nano_vllm_online_serving.AsyncEngine.State.{pop_request, remove_request}
use nano_vllm_online_serving.AsyncEngine.Tally.{
  tally, named, refers, is_request, Cuts, str_eq_sound, tally_mono, tally-append,
}

-- A request with the id and the queue of another counts like it.
pub is_request-same :
    (f : String → ℕ → Bool) (r q : AsyncRequest)
    → is_request r q.request_id q.output_queue ≡ true
    → f q.request_id q.output_queue ≡ f r.request_id r.output_queue
is_request-same f r q h = elim (Bool-cases (str_eq q.request_id r.request_id)) [
  | inl same ↦
      let id : q.request_id ≡ r.request_id = str_eq_sound q.request_id r.request_id same in
      let at_queue : (q.output_queue == r.output_queue) ≡ true = rw same at h in
      let queue : q.output_queue ≡ r.output_queue = ground (arith, at_queue) in
      ap (λ i. f i q.output_queue) id ∙ ap (f r.request_id) queue
  | inr other ↦ let wrong : false ≡ true = rw other at h in absurd cc
]

pub is_request_le-named :
    (r : AsyncRequest) (rs : List AsyncRequest)
    → tally (is_request r) rs ≤ tally (named r.request_id) rs
is_request_le-named r rs =
    tally_mono (is_request r) (named r.request_id) rs (λ i q h. fst_true i q h)
  where
    fst_true : (i : String) (q : ℕ) → is_request r i q ≡ true → str_eq i r.request_id ≡ true
    fst_true i q h = elim (Bool-cases (str_eq i r.request_id)) [
      | inl same ↦ same
      | inr other ↦ let wrong : false ≡ true = rw other at h in absurd cc
    ]

pub is_request_le-refers :
    (r : AsyncRequest) (rs : List AsyncRequest)
    → tally (is_request r) rs ≤ tally (refers r.output_queue) rs
is_request_le-refers r rs =
    tally_mono (is_request r) (refers r.output_queue) rs (λ i q h. snd_true i q h)
  where
    snd_true : (i : String) (q : ℕ) → is_request r i q ≡ true → (q == r.output_queue) ≡ true
    snd_true i q h = elim (Bool-cases (str_eq i r.request_id)) [
      | inl same ↦ rw same at h
      | inr other ↦ let wrong : false ≡ true = rw other at h in absurd cc
    ]

-- Where the rest has none, the head is the request.
pub first_of :
    (r q : AsyncRequest) (rs : List AsyncRequest)
    → 0 < tally (is_request r) (q ∷ rs)
    → tally (is_request r) rs ≡ 0
    → is_request r q.request_id q.output_queue ≡ true
first_of r q rs here less = elim (Bool-cases (is_request r q.request_id q.output_queue)) [
  | inl it ↦ it
  | inr other ↦
      let wrong : 0 < 0 + tally (is_request r) rs = rw other at here in
      absurd (omega (arith, wrong, less))
]

-- Without a request of the id it does nothing.
pub pop_request-none :
    (id : String) (rs : List AsyncRequest) → tally (named id) rs ≡ 0 → pop_request id rs ≡ rs
unfolding pop_request
pop_request-none id [] h = refl
pop_request-none id (r ∷ rs) h = elim (Bool-cases (str_eq r.request_id id)) [
  | inl same ↦ let more : 1 + tally (named id) rs ≡ 0 = rw same at h in absurd (omega (arith, more))
  | inr other ↦
      let less : 0 + tally (named id) rs ≡ 0 = rw other at h in
      rw other (ap (λ t. r ∷ t) (pop_request-none id rs (omega (arith, less))))
]

-- `d.pop(request_id)` takes out the one request with the id.
pub pop_request-Cuts :
    (r : AsyncRequest) (rs : List AsyncRequest)
    → 0 < tally (is_request r) rs
    → tally (named r.request_id) rs ≤ 1
    → Cuts r rs (pop_request r.request_id rs)
unfolding pop_request
pop_request-Cuts r [] here once f = absurd (omega (arith, here))
pop_request-Cuts r (q ∷ rs) here once f = elim (Bool-cases (str_eq q.request_id r.request_id)) [
  | inl same ↦
      let alone : 1 + tally (named r.request_id) rs ≤ 1 = rw same at once in
      let less = is_request_le-named r rs in
      let rest : pop_request r.request_id rs ≡ rs =
        pop_request-none r.request_id rs (omega (arith, alone)) in
      let it : is_request r q.request_id q.output_queue ≡ true =
        first_of r q rs here (omega (arith, less, alone)) in
      rw (same, is_request-same f r q it) (omega (arith, ap (tally f) rest))
  | inr other ↦
      let here1 : 0 < 0 + tally (is_request r) rs = rw other at here in
      let once1 : 0 + tally (named r.request_id) rs ≤ 1 = rw other at once in
      rw other
        (omega (arith, pop_request-Cuts r rs (omega (arith, here1)) (omega (arith, once1)) f))
]

-- `pending.remove(request)` takes out the one request with the output queue.
pub remove_request-Cuts :
    (r : AsyncRequest) (rs : List AsyncRequest)
    → 0 < tally (is_request r) rs
    → tally (refers r.output_queue) rs ≤ 1
    → Cuts r rs (remove_request r rs)
unfolding remove_request
remove_request-Cuts r [] here once f = absurd (omega (arith, here))
remove_request-Cuts r (q ∷ rs) here once f = elim (Bool-cases (q.output_queue == r.output_queue)) [
  | inl same ↦
      let alone : 1 + tally (refers r.output_queue) rs ≤ 1 = rw same at once in
      let less = is_request_le-refers r rs in
      let it : is_request r q.request_id q.output_queue ≡ true =
        first_of r q rs here (omega (arith, less, alone)) in
      rw (same, is_request-same f r q it) refl
  | inr other ↦
      let not_it : is_request r q.request_id q.output_queue ≡ false =
        rw other (both_false (str_eq q.request_id r.request_id)) in
      let here1 : 0 < 0 + tally (is_request r) rs = rw not_it at here in
      let once1 : 0 + tally (refers r.output_queue) rs ≤ 1 = rw other at once in
      rw other
        (omega (arith, remove_request-Cuts r rs (omega (arith, here1)) (omega (arith, once1)) f))
]
  where
    both_false : (b : Bool) → (b && false) ≡ false
    both_false true = refl
    both_false false = refl

-- The choice of the next request takes out that request.
pub pop_next_admissible-Cuts :
    (l : ActiveLimits) (active qs rest : List AsyncRequest) (r : AsyncRequest)
    → pop_next_admissible l active qs ≡ some (r, rest)
    → Cuts r qs rest
pop_next_admissible-Cuts l active qs rest r e f =
    let next : IsNext l active qs (r, rest) =
      subst (PopAnswers l active qs) e (pop_next_admissible-PopAnswers l active qs) in
    let all = ap (tally f) next.before ∙ tally-append f next.passed (r ∷ next.left) in
    let others = ap (tally f) next.after ∙ tally-append f next.passed next.left in
    omega (arith, all, others)
