-- ===== src/Pending/Limits.antt =====
-- The choice of the next request to admit (nanovllm/engine/async_engine.py).
use mathlib.Core.Path.{subst}
use nano_vllm_online_serving.Common.{
  ◌≡◌, refl, ap, sym, true, false, Option, none, some, List, [], ◌∷◌, ◌++◌, select, Bool-cases,
  Option-cases, inl, inr,
}
use nano_vllm_online_serving.Pending.{
  AsyncRequest, ActiveLimits, can_admit_active, pop_next_admissible,
}

-- What `_pop_next_admissible_pending` returns: the first request in the queue that may be admitted,
-- and the others in their order.
pub record IsNext (l : ActiveLimits) (active pending : List AsyncRequest)
    (q : AsyncRequest × List AsyncRequest) : Type 0 where
  pub passed : List AsyncRequest
  pub left : List AsyncRequest
  pub before : pending ≡ passed ++ q.0 ∷ left
  pub after : q.1 ≡ passed ++ left
  pub blocked : select (can_admit_active l active) passed ≡ []
  pub admits : can_admit_active l active q.0 ≡ true

abbrev pub PopAnswers :
    ActiveLimits
    → List AsyncRequest
    → List AsyncRequest
    → Option (AsyncRequest × List AsyncRequest)
    → Type 0
PopAnswers l active pending none = select (can_admit_active l active) pending ≡ []
PopAnswers l active pending (some q) = IsNext l active pending q

module _ (l : ActiveLimits) (active : List AsyncRequest) (q : AsyncRequest)
    (qs : List AsyncRequest) where
  pop_free :
      can_admit_active l active q ≡ true → pop_next_admissible l active (q ∷ qs) ≡ some (q, qs)
  unfolding pop_next_admissible
  pop_free e = rw (e, pop_next_admissible) refl

  pop_nobody :
      can_admit_active l active q ≡ false
      → pop_next_admissible l active qs ≡ none
      → pop_next_admissible l active (q ∷ qs) ≡ none
  unfolding pop_next_admissible
  pop_nobody e e1 = rw (e, pop_next_admissible) (rw e1 refl)

  pop_later :
      (r : AsyncRequest) (rest : List AsyncRequest)
      → can_admit_active l active q ≡ false
      → pop_next_admissible l active qs ≡ some (r, rest)
      → pop_next_admissible l active (q ∷ qs) ≡ some (r, q ∷ rest)
  unfolding pop_next_admissible
  pop_later r rest e e1 = rw (e, pop_next_admissible) (rw e1 refl)

-- `_pop_next_admissible_pending` returns the first request in the queue that may be admitted and
-- leaves the others in their order; it returns none only where no request may be admitted.
pub pop_next_admissible-PopAnswers :
    (l : ActiveLimits) (active pending : List AsyncRequest)
    → PopAnswers l active pending (pop_next_admissible l active pending)
unfolding pop_next_admissible
pop_next_admissible-PopAnswers l active [] = refl
pop_next_admissible-PopAnswers l active (q ∷ qs) =
    let rest = pop_next_admissible-PopAnswers l active qs in
    elim (Bool-cases (can_admit_active l active q)) [
      | inl free ↦
          subst (PopAnswers l active (q ∷ qs)) (sym (pop_free l active q qs free)) (record {
            passed = [];
            left = qs;
            before = refl;
            after = refl;
            blocked = refl;
            admits = free;
          })
      | inr held ↦ elim (Option-cases (pop_next_admissible l active qs)) [
        | inl nobody ↦
            subst (PopAnswers l active (q ∷ qs)) (sym (pop_nobody l active q qs held nobody))
              (rw held (subst (PopAnswers l active qs) nobody rest))
        | inr (r, found) ↦
            subst (PopAnswers l active (q ∷ qs)) (sym (pop_later l active q qs r.0 r.1 held found))
              (later l active q qs r held (subst (PopAnswers l active qs) found rest))
      ]
    ]
  where
    later :
        (l : ActiveLimits) (active : List AsyncRequest) (q : AsyncRequest) (qs : List AsyncRequest)
        (r : AsyncRequest × List AsyncRequest)
        → can_admit_active l active q ≡ false
        → IsNext l active qs r
        → IsNext l active (q ∷ qs) (r.0, q ∷ r.1)
    later l active q qs r held n = record {
      passed = q ∷ n.passed;
      left = n.left;
      before = ap (λ t. q ∷ t) n.before;
      after = ap (λ t. q ∷ t) n.after;
      blocked = rw held n.blocked;
      admits = n.admits;
    }
