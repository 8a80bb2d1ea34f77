-- ===== src/Pending/Order.antt =====
-- The order of the pending queue (nanovllm/engine/async_engine.py).
use mathlib.Core.Path.{subst}
use nano_vllm_online_serving.Common.{
  ℕ, ◌≤◌, ◌≡◌, refl, ap, sym, ◌∙◌, true, false, Option, none, some, List, [], ◌∷◌, ◌++◌, arith, ltb,
  leb, last?, select, Bool-cases, inl, inr,
}
use nano_vllm_online_serving.Pending.{AsyncRequest, insert_pending, enqueue_pending}

-- The priorities never rise along the queue, and none is above `high`.
abbrev pub IsOrdered : ℕ → List AsyncRequest → Type 0
IsOrdered high [] = Unit {0}
IsOrdered high (q ∷ qs) = (q.priority ≤ high) × IsOrdered q.priority qs

-- Those that are served before a new request, and those that are served after it.
abbrev pub ahead : AsyncRequest → List AsyncRequest → List AsyncRequest
ahead r qs = select (λ q. leb r.priority q.priority) qs

abbrev pub behind : AsyncRequest → List AsyncRequest → List AsyncRequest
behind r qs = select (λ q. ltb q.priority r.priority) qs

all_behind :
    (r : AsyncRequest) (high : ℕ) (qs : List AsyncRequest)
    → ltb high r.priority ≡ true
    → IsOrdered high qs
    → (ahead r qs ≡ []) × (behind r qs ≡ qs)
all_behind r high [] h o = (refl, refl)
all_behind r high (q ∷ qs) h o =
    let low : ltb q.priority r.priority ≡ true = ground (arith, h, o.0) in
    let off : leb r.priority q.priority ≡ false = ground (arith, h, o.0) in
    let rest = all_behind r q.priority qs low o.1 in
    (rw off rest.0, rw low (ap (λ t. q ∷ t) rest.1))

insert_pending-splits :
    (r : AsyncRequest) (high : ℕ) (qs : List AsyncRequest)
    → IsOrdered high qs
    → insert_pending r qs ≡ ahead r qs ++ r ∷ behind r qs
unfolding insert_pending
insert_pending-splits r high [] o = refl
insert_pending-splits r high (q ∷ qs) o = elim (Bool-cases (ltb q.priority r.priority)) [
  | inl low ↦
      let off : leb r.priority q.priority ≡ false = ground (arith, low) in
      let rest = all_behind r q.priority qs low o.1 in rw (low, off) (rw (rest.0, rest.1) refl)
  | inr more ↦
      let on : leb r.priority q.priority ≡ true = ground (arith, more) in
      rw (more, on) (ap (λ t. q ∷ t) (insert_pending-splits r q.priority qs o.1))
]

last-IsOrdered :
    (high : ℕ) (qs : List AsyncRequest) (z : AsyncRequest)
    → IsOrdered high qs
    → last? qs ≡ some z
    → z.priority ≤ high
last-IsOrdered high [] z o e = absurd cc
last-IsOrdered high (q ∷ []) z o e = ground (arith, o.0, some_eq q z e)
  where
    some_eq : (a b : AsyncRequest) → some a ≡ some b → a.priority ≡ b.priority
    some_eq a b h = ap (λ (o : Option AsyncRequest). elim o [ none ↦ 0 | some c ↦ c.priority ]) h
last-IsOrdered high (p ∷ q ∷ qs) z o e =
    ground (arith, o.0, last-IsOrdered p.priority (q ∷ qs) z o.1 e)

insert_pending-IsOrdered :
    (r : AsyncRequest) (high : ℕ) (qs : List AsyncRequest)
    → r.priority ≤ high
    → IsOrdered high qs
    → IsOrdered high (insert_pending r qs)
unfolding insert_pending
insert_pending-IsOrdered r high [] h o = (h, tt)
insert_pending-IsOrdered r high (q ∷ qs) h o = elim (Bool-cases (ltb q.priority r.priority)) [
  | inl low ↦ rw low (h, (ground (arith, low), o.1))
  | inr more ↦ rw more (o.0, insert_pending-IsOrdered r q.priority qs (ground (arith, more)) o.1)
]

-- Behind everybody of an equal or a higher priority the insertion ends at the end of the queue.
insert_pending-last :
    (r : AsyncRequest) (high : ℕ) (qs : List AsyncRequest) (z : AsyncRequest)
    → IsOrdered high qs
    → last? qs ≡ some z
    → r.priority ≤ z.priority
    → insert_pending r qs ≡ qs ++ r ∷ []
unfolding insert_pending
insert_pending-last r high [] z o e h = refl
insert_pending-last r high (q ∷ []) z o e h =
    let most = last-IsOrdered q.priority (q ∷ []) z (omega arith, tt) e in
    let more : ltb q.priority r.priority ≡ false = ground (arith, h, most) in rw more refl
insert_pending-last r high (p ∷ q ∷ qs) z o e h =
    let most = last-IsOrdered p.priority (q ∷ qs) z o.1 e in
    let more : ltb p.priority r.priority ≡ false = ground (arith, h, most) in
    rw more (ap (λ t. p ∷ t) (insert_pending-last r p.priority (q ∷ qs) z o.1 e h))

last-some :
    (q : AsyncRequest) (qs : List AsyncRequest) → (z : AsyncRequest) × (last? (q ∷ qs) ≡ some z)
last-some q [] = (q, refl)
last-some q (p ∷ qs) = last-some p qs

enqueue_pending-insert :
    (r : AsyncRequest) (high : ℕ) (qs : List AsyncRequest)
    → IsOrdered high qs
    → enqueue_pending r qs ≡ insert_pending r qs
unfolding enqueue_pending insert_pending
enqueue_pending-insert r high [] o = refl
enqueue_pending-insert r high (q ∷ qs) o =
    let (z, e) = last-some q qs in
    elim (Bool-cases (leb r.priority z.priority)) [
      | inl short ↦
          rw (e, enqueue_pending)
            (rw short (sym (insert_pending-last r high (q ∷ qs) z o e (ground (arith, short)))))
      | inr long ↦ rw (e, enqueue_pending) (rw long refl)
    ]

-- In an ordered queue `_enqueue_pending` puts a request behind all of an equal or a higher priority
-- and in front of all of a lower one, changes no other order, and leaves the queue ordered.
pub enqueue_pending-IsOrdered :
    (r : AsyncRequest) (high : ℕ) (qs : List AsyncRequest)
    → r.priority ≤ high
    → IsOrdered high qs
    → (enqueue_pending r qs ≡ ahead r qs ++ r ∷ behind r qs) × IsOrdered high (enqueue_pending r qs)
enqueue_pending-IsOrdered r high qs h o =
    let same = enqueue_pending-insert r high qs o in
    (
      same ∙ insert_pending-splits r high qs o,
      subst (IsOrdered high) (sym same) (insert_pending-IsOrdered r high qs h o),
    )
