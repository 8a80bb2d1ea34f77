-- ===== src/AsyncEngine/Tally.antt =====
-- The queues of requests as multisets of an id and an output queue, for the functions of
-- nanovllm/engine/async_engine.py that change them.
pub mod Removal
use nano_vllm_online_serving.Common.{
  ℕ, ◌+◌, ◌≤◌, ◌<◌, ◌≡◌, refl, ap, ◌∙◌, subst, Bool, true, false, String, none, some, List, [], ◌∷◌,
  ◌++◌, arith, ◌==◌, leb, ltb, ◌&&◌, last?, length, str_eq, eq_iff, Bool-cases, Option-cases, inl,
  inr,
}
use nano_vllm_online_serving.Pending.{
  AsyncRequest, ActiveLimits, insert_pending, enqueue_pending, pop_next_admissible,
}
use nano_vllm_online_serving.Pending.Limits.{IsNext, PopAnswers, pop_next_admissible-PopAnswers}
use nano_vllm_online_serving.AsyncEngine.State.{
  get_request, set_request, pop_request, remove_request,
}

abbrev pub one : Bool → ℕ
one true = 1
one false = 0

-- How many requests have an id and an output queue that pass a test.
abbrev pub tally : (String → ℕ → Bool) → List AsyncRequest → ℕ
tally f [] = 0
tally f (r ∷ rs) = one (f r.request_id r.output_queue) + tally f rs

-- The tests for an id, for an output queue and for both.
abbrev pub named : String → String → ℕ → Bool
named id i q = str_eq i id

abbrev pub refers : ℕ → String → ℕ → Bool
refers q i p = p == q

abbrev pub is_request : AsyncRequest → String → ℕ → Bool
is_request r i q = str_eq i r.request_id && q == r.output_queue

-- `xs` holds the request and what `ys` holds.
abbrev pub Cuts : AsyncRequest → List AsyncRequest → List AsyncRequest → Type 0
Cuts r xs ys =
    (f : String → ℕ → Bool) → tally f xs ≡ one (f r.request_id r.output_queue) + tally f ys

pub str_eq_refl : (s : String) → str_eq s s ≡ true
str_eq_refl s = (eq_iff s s).1 refl

pub str_eq_sound : (s t : String) → str_eq s t ≡ true → s ≡ t
str_eq_sound s t h = (eq_iff s t).0 h

pub is_request_self : (r : AsyncRequest) → is_request r r.request_id r.output_queue ≡ true
is_request_self r = rw (str_eq_refl r.request_id) (ground arith)

-- A test that implies another counts no more.
pub tally_mono :
    (f g : String → ℕ → Bool) (rs : List AsyncRequest)
    → ((i : String) (q : ℕ) → f i q ≡ true → g i q ≡ true)
    → tally f rs ≤ tally g rs
tally_mono f g [] h = omega arith
tally_mono f g (r ∷ rs) h =
    let rest = tally_mono f g rs h in
    elim (Bool-cases (f r.request_id r.output_queue)) [
      | inl yes1 ↦ rw (yes1, h r.request_id r.output_queue yes1) (omega (arith, rest))
      | inr no1 ↦ rw no1 (omega (arith, rest))
    ]

pub tally-append :
    (f : String → ℕ → Bool) (xs ys : List AsyncRequest)
    → tally f (xs ++ ys) ≡ tally f xs + tally f ys
tally-append f [] ys = omega arith
tally-append f (x ∷ xs) ys = omega (arith, tally-append f xs ys)

pub tally-length : (rs : List AsyncRequest) → tally (λ i q. true) rs ≡ length rs
tally-length [] = refl
tally-length (r ∷ rs) = omega (arith, tally-length rs)

pub insert_pending-Cuts :
    (r : AsyncRequest) (qs : List AsyncRequest) → Cuts r (insert_pending r qs) qs
unfolding insert_pending
insert_pending-Cuts r [] f = refl
insert_pending-Cuts r (q ∷ qs) f = elim (Bool-cases (ltb q.priority r.priority)) [
  | inl low ↦ rw low refl
  | inr more ↦ rw more (omega (arith, insert_pending-Cuts r qs f))
]

pub enqueue_pending-Cuts :
    (r : AsyncRequest) (qs : List AsyncRequest) → Cuts r (enqueue_pending r qs) qs
unfolding enqueue_pending
enqueue_pending-Cuts r qs f =
    let at_end : tally f (qs ++ r ∷ []) ≡ one (f r.request_id r.output_queue) + tally f qs =
      omega (arith, tally-append f qs (r ∷ [])) in
    elim (Option-cases (last? qs)) [
      | inl nobody ↦ rw (nobody, enqueue_pending) at_end
      | inr (z, e) ↦ elim (Bool-cases (leb r.priority z.priority)) [
        | inl short ↦ rw (e, enqueue_pending) (rw short at_end)
        | inr long ↦ rw (e, enqueue_pending) (rw long (insert_pending-Cuts r qs f))
      ]
    ]

pub set_request-Cuts :
    (r : AsyncRequest) (rs : List AsyncRequest)
    → tally (named r.request_id) rs ≡ 0
    → Cuts r (set_request r rs) rs
unfolding set_request
set_request-Cuts r [] h f = refl
set_request-Cuts r (q ∷ rs) h f = elim (Bool-cases (str_eq q.request_id r.request_id)) [
  | inl same ↦
      let more : 1 + tally (named r.request_id) rs ≡ 0 = rw same at h in
      absurd (omega (arith, more))
  | inr other ↦
      let less : 0 + tally (named r.request_id) rs ≡ 0 = rw other at h in
      rw other (omega (arith, set_request-Cuts r rs (omega (arith, less)) f))
]

-- What comes out of a dictionary has the key, and stands in it.
pub get_request-named :
    (id : String) (rs : List AsyncRequest) (r : AsyncRequest)
    → get_request id rs ≡ some r
    → (r.request_id ≡ id) × (0 < tally (is_request r) rs)
unfolding get_request
get_request-named id [] r e = absurd cc
get_request-named id (q ∷ rs) r e = elim (Bool-cases (str_eq q.request_id id)) [
  | inl same ↦ found q r (rw same at e) same
  | inr other ↦
      let (here, more) = get_request-named id rs r (rw other at e) in (here, omega (arith, more))
]
  where
    found :
        (q r : AsyncRequest)
        → some q ≡ some r
        → str_eq q.request_id id ≡ true
        → (r.request_id ≡ id) × (0 < tally (is_request r) (q ∷ rs))
    found q r e same =
        let it : q ≡ r = ap (λ o. elim o [ none ↦ q | some c ↦ c ]) e in
        let here : 0 < tally (is_request q) (q ∷ rs) = rw (is_request_self q) (omega arith) in
        let key : q.request_id ≡ id = str_eq_sound q.request_id id same in
        subst (λ x. (x.request_id ≡ id) × (0 < tally (is_request x) (q ∷ rs))) it (key, here)
