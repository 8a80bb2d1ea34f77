-- ===== src/Scheduler/Invariant/Aborting.antt =====
-- `abort` of nanovllm/engine/scheduler.py, for a waiting, a running and an unknown request.
use nano_vllm_online_serving.Common.{
  ℕ, ◌+◌, ◌≤◌, ◌<◌, ◌≡◌, refl, Bool, true, false, String, none, some, List, [], ◌∷◌, ◌++◌, arith,
  ◌==◌, ltb, length, count, count-append, count-discard, length-discard, discard, Bool-cases,
  Option-cases, inl, inr, Ensures, Ensures-value, str_eq,
}
use nano_vllm_online_serving.Sequence.{Sequence, is_finished, finish}
use nano_vllm_online_serving.BlockManager.State.{BlockManager}
use nano_vllm_online_serving.BlockManager.Allocation.{deallocate}
use nano_vllm_online_serving.BlockManager.Invariant.{IsValid}
use nano_vllm_online_serving.BlockManager.Invariant.Tables.{deallocate-Releases}
use nano_vllm_online_serving.BlockManager.Invariant.Releasing.{Releases}
use nano_vllm_online_serving.Scheduler.State.{Scheduler}
use nano_vllm_online_serving.Scheduler.Queues.{find_request, deallocate_if_held, cancel, abort}
use nano_vllm_online_serving.Scheduler.Invariant.{IsSound, refs}
use nano_vllm_online_serving.Scheduler.Invariant.Changes.{others, focus, leaves-IsSound}

-- A search that fails has looked at everybody; one that succeeds has found a member.
find_request-none :
    (store : ℕ → Sequence) (id : String) (rs : List ℕ) (x : ℕ)
    → find_request store id rs ≡ none
    → 0 < count x rs
    → str_eq (store x).request_id id ≡ false
unfolding find_request
find_request-none store id [] x e h = absurd (omega (arith, h))
find_request-none store id (r ∷ rs) x e h = elim (Bool-cases (str_eq (store r).request_id id)) [
  | inl named ↦ absurd (none-some (rw named at e))
  | inr unnamed ↦ elim (Bool-cases (x == r)) [
    | inl me ↦ let same : x ≡ r = ground (arith, me) in rw same unnamed
    | inr other ↦ find_request-none store id rs x (rw unnamed at e) (ground (arith, h, other))
  ]
]
  where
    none-some : some r ≡ none → ⊥
    none-some h = cc

find_request-some :
    (store : ℕ → Sequence) (id : String) (rs : List ℕ) (x : ℕ)
    → find_request store id rs ≡ some x
    → (0 < count x rs) × (str_eq (store x).request_id id ≡ true)
unfolding find_request
find_request-some store id [] x e = absurd cc
find_request-some store id (r ∷ rs) x e = elim (Bool-cases (str_eq (store r).request_id id)) [
  | inl named ↦
      let same : r ≡ x = some-injective (rw named at e) in (ground (arith, same), rw (← same) named)
  | inr unnamed ↦
      let found = find_request-some store id rs x (rw unnamed at e) in
      (ground (arith, found.0), found.1)
]
  where
    some-injective : {y z : ℕ} → some y ≡ some z → y ≡ z
    some-injective h = cc

deallocate_if_held_cons :
    (bm : BlockManager) (seq : Sequence) (b : ℕ) (bs : List ℕ)
    → seq.block_table ≡ b ∷ bs
    → deallocate_if_held bm seq ≡ deallocate bm seq
unfolding deallocate_if_held
deallocate_if_held_cons bm seq b bs e = ground (arith, e)

deallocate_if_held-Releases :
    (bm : BlockManager) (seq : Sequence) (held table : List ℕ)
    → seq.block_table ≡ table
    → IsValid bm (seq.block_table ++ held)
    → Ensures (deallocate_if_held bm seq) (λ p. Releases bm held p.0)
unfolding deallocate_if_held
deallocate_if_held-Releases bm seq held [] e v = rw e (record {
  valid = rw e at v;
  same = record { host = refl; config = refl; blocks = refl };
  room = omega arith;
  undisturbed = λ j h. (refl, refl);
})
deallocate_if_held-Releases bm seq held (b ∷ bs) e v =
    let (p, e1, done) = Ensures-value (deallocate bm seq) _ (deallocate-Releases bm seq held v) in
    rw (deallocate_if_held_cons bm seq b bs e) (rw e1 done.0)

-- Sequence `gone` has left the queues, finished as cancelled; nobody else is affected.
pub record Aborts (s : Scheduler) (id : String) (s' : Scheduler) : Type 0 where
  pub gone : ℕ
  pub here : 0 < count gone (refs s)
  pub named : str_eq (s.store gone).request_id id ≡ true
  pub sound : IsSound s'
  pub left : count gone (refs s') ≡ 0
  pub stay : (x : ℕ) → (gone == x) ≡ false → count x (refs s') ≡ count x (refs s)
  pub others : (x : ℕ) → (gone == x) ≡ false → s'.store x ≡ s.store x
  pub cancelled : (s'.store gone).finish_reason ≡ some "cancelled"
  pub finished : is_finished (s'.store gone) ≡ true

-- From the queues `w` and `run`, which lack `r` only.
cancel-Aborts :
    (s : Scheduler) (id : String) (r : ℕ) (w run : List ℕ)
    → IsSound s
    → 0 < count r (refs s)
    → str_eq (s.store r).request_id id ≡ true
    → ((x : ℕ) → count x w + count x run ≡ count x (discard r (refs s)))
    → ((x : ℕ) → count x w ≤ count x s.waiting)
    → ((x : ℕ) → count x run ≤ count x s.running)
    → length run ≤ s.max_num_seqs
    → Ensures (cancel r (record s { waiting = w; running = run })) (Aborts s id)
unfolding cancel is_finished finish
cancel-Aborts s id r w run sound here named total fewer_w fewer_run fits =
    let (p, e, released) = Ensures-value (deallocate_if_held s.block_manager (s.store r)) _ (
      deallocate_if_held-Releases s.block_manager (s.store r) (others s r) _ refl
        (focus s r sound here)) in
    let self : (r == r) ≡ true = ground arith in
    rw e (record {
      gone = r;
      here = here;
      named = named;
      sound =
          leaves-IsSound s sound r p.0 (finish p.1 "cancelled") released.same w run _ _ _
            released.valid total fewer_w fewer_run fits;
      left =
          ground (arith, count-append r w run, total r, count-discard r r (refs s), sound.once r);
      stay = λ x other.
          ground (arith, other, count-append x w run, total x, count-discard r x (refs s));
      others = λ x other. rw other;
      cancelled = rw self;
      finished = rw self;
    })

pub record IsUnknown (s : Scheduler) (id : String) (s' : Scheduler) : Type 0 where
  pub unchanged : s' ≡ s
  pub nobody : (x : ℕ) → 0 < count x (refs s) → str_eq (s.store x).request_id id ≡ false

-- What `abort` has done when it returns this answer.
abbrev pub AbortAnswers : Scheduler → String → Scheduler × Bool → Type 0
AbortAnswers s id (s', true) = Aborts s id s'
AbortAnswers s id (s', false) = IsUnknown s id s'

abort_waiting :
    (s : Scheduler) (id : String) (r : ℕ) (s' : Scheduler)
    → find_request s.store id s.waiting ≡ some r
    → cancel r (record s { waiting = discard r s.waiting }) ≡ some s'
    → abort id s ≡ some (s', true)
unfolding abort
abort_waiting s id r s' e e1 = rw (e, abort) (rw e1 refl)

abort_running :
    (s : Scheduler) (id : String) (r : ℕ) (s' : Scheduler)
    → find_request s.store id s.waiting ≡ none
    → find_request s.store id s.running ≡ some r
    → cancel r (record s { running = discard r s.running }) ≡ some s'
    → abort id s ≡ some (s', true)
unfolding abort
abort_running s id r s' e e1 e2 = rw (e, abort) (rw e1 (rw e2 refl))

abort_unknown :
    (s : Scheduler) (id : String)
    → find_request s.store id s.waiting ≡ none
    → find_request s.store id s.running ≡ none
    → abort id s ≡ some (s, false)
unfolding abort
abort_unknown s id e e1 = rw (e, abort) (rw e1 refl)

-- Aborting a request raises nothing. The answer is true where a queue holds a sequence with this
-- id: that one leaves its queue, its blocks are given back, and it is finished as cancelled. The
-- answer is false, and nothing has changed, only where no queue holds one.
pub abort-AbortAnswers :
    (s : Scheduler) (id : String) → IsSound s → Ensures (abort id s) (AbortAnswers s id)
abort-AbortAnswers s id sound = elim (Option-cases (find_request s.store id s.waiting)) [
  | inr (r, found) ↦
      let member = find_request-some s.store id s.waiting r found in
      let (s', e, done) =
        Ensures-value (cancel r (record s { waiting = discard r s.waiting })) (Aborts s id) (
          cancel-Aborts s id r (discard r s.waiting) s.running sound
            (omega (arith, member.0, count-append r s.waiting s.running)) member.1
            (λ x. ground (
              arith,
              count-append x s.waiting s.running,
              count-discard r x s.waiting,
              count-discard r x (refs s),
              member.0,
            ))
            (λ x. ground (arith, count-discard r x s.waiting)) (λ x. omega arith) sound.bounded) in
      rw (abort_waiting s id r s' found e) done
  | inl absent ↦ elim (Option-cases (find_request s.store id s.running)) [
    | inr (r, found) ↦
        let member = find_request-some s.store id s.running r found in
        let (s', e, done) =
          Ensures-value (cancel r (record s { running = discard r s.running })) (Aborts s id) (
            cancel-Aborts s id r s.waiting (discard r s.running) sound
              (omega (arith, member.0, count-append r s.waiting s.running)) member.1
              (λ x. ground (
                arith,
                count-append x s.waiting s.running,
                count-discard r x s.running,
                count-discard r x (refs s),
                member.0,
              ))
              (λ x. omega arith) (λ x. ground (arith, count-discard r x s.running))
              (omega (arith, sound.bounded, length-discard r s.running))) in
        rw (abort_running s id r s' absent found e) done
    | inl unknown ↦ rw (abort_unknown s id absent unknown) (record {
      unchanged = refl;
      nobody = λ x h. elim (Bool-cases (ltb 0 (count x s.waiting))) [
        | inl here ↦ find_request-none s.store id s.waiting x absent (ground (arith, here))
        | inr away ↦
            find_request-none s.store id s.running x unknown
              (ground (arith, away, h, count-append x s.waiting s.running))
      ];
    })
  ]
]
