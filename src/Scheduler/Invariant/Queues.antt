-- ===== src/Scheduler/Invariant/Queues.antt =====
-- `add`, `abort` and `preempt` of nanovllm/engine/scheduler.py keep the scheduler sound.
use nano_vllm_online_serving.Common.{
  ℕ, ◌+◌, ◌<◌, ◌≡◌, refl, ap, true, false, some, [], ◌∷◌, ◌++◌, arith, ◌==◌, count, count-append,
  count-discard, length-discard, discard, Bool-cases, inl, inr, Ensures, Ensures-value, put,
}
use nano_vllm_online_serving.Sequence.{Sequence, SequenceStatus, is_running, is_prompt_ready}
use nano_vllm_online_serving.BlockManager.State.{BlockManager}
use nano_vllm_online_serving.BlockManager.Allocation.{deallocate}
use nano_vllm_online_serving.BlockManager.Invariant.{Same}
use nano_vllm_online_serving.BlockManager.Invariant.Tables.{
  IsValid-counts, emptied, deallocate-Releases,
}
use nano_vllm_online_serving.BlockManager.Invariant.Releasing.{Releases}
use nano_vllm_online_serving.Scheduler.State.{Scheduler}
use nano_vllm_online_serving.Scheduler.Queues.{add, preempt}
use nano_vllm_online_serving.Scheduler.Invariant.{IsSound, refs, held}
use nano_vllm_online_serving.Scheduler.Invariant.Focus.{count-held-counts}
use nano_vllm_online_serving.Scheduler.Invariant.Changes.{changed, others, focus, stays-IsSound}

-- A sequence as it is before `add`.
pub record IsNew (s : Scheduler) (r : ℕ) : Type 0 where
  pub absent : count r (refs s) ≡ 0
  pub empty : (s.store r).block_table ≡ []
  pub idle : is_running (s.store r) ≡ false
  pub sized : 0 < (s.store r).num_tokens

-- Adding a sequence that is in no queue, does not run, has an empty table and at least one token
-- keeps the scheduler sound.
pub add-IsSound : (s : Scheduler) (r : ℕ) → IsSound s → IsNew s r → IsSound (add r s)
unfolding add
add-IsSound s r sound new = record {
  valid = IsValid-counts s.block_manager (held s.store (refs s)) _ (λ j. same_held j) sound.valid;
  once = λ x. ground (arith, sound.once x, total x, new.absent);
  positive = sound.positive;
  bounded = sound.bounded;
  waits = λ x h. elim (Bool-cases (r == x)) [
    | inl me ↦ rw (← same x me) new.idle
    | inr other ↦ sound.waits x (ground (arith, h, count-append x s.waiting (r ∷ []), other))
  ];
  runs = sound.runs;
  sized = λ x h. elim (Bool-cases (r == x)) [
    | inl me ↦ rw (← same x me) new.sized
    | inr other ↦ sound.sized x (ground (arith, h, total x, other))
  ];
}
  where
    same : (x : ℕ) → (r == x) ≡ true → r ≡ x
    same x me = ground (arith, me)

    total : (x : ℕ) → count x ((s.waiting ++ r ∷ []) ++ s.running) ≡ count x (r ∷ refs s)
    total x = ground (
      arith,
      count-append x (s.waiting ++ r ∷ []) s.running,
      count-append x s.waiting (r ∷ []),
      count-append x s.waiting s.running,
    )

    same_held :
        (j : ℕ)
        → count j (held s.store (refs s))
          ≡ count j (held s.store ((s.waiting ++ r ∷ []) ++ s.running))
    same_held j = omega (
      arith,
      count-held-counts j s.store ((s.waiting ++ r ∷ []) ++ s.running) (r ∷ refs s) total,
      (ap (λ t. count j (t ++ held s.store (refs s))) new.empty),
    )

-- It does not run, and has to compute its tokens again.
abbrev pub IsStopped : Sequence → Type 0
IsStopped seq = (is_running seq ≡ false) × (is_prompt_ready seq ≡ false)

-- It keeps its tokens, none of them is computed any more, and all of them are to be computed.
pub record StartsAgain (before after : Sequence) : Type 0 where
  pub token_ids : after.token_ids ≡ before.token_ids
  pub num_tokens : after.num_tokens ≡ before.num_tokens
  pub computed : after.num_computed_tokens ≡ 0
  pub target : after.prefill_target_tokens ≡ before.num_tokens

-- What `preempt` has done with `r`; the other sequences are as they were.
pub record Preempts (s : Scheduler) (r : ℕ) (s' : Scheduler) : Type 0 where
  pub sound : IsSound s'
  pub same : Same s.block_manager s'.block_manager
  pub config : s'.config ≡ s.config
  pub waiting : s'.waiting ≡ r ∷ s.waiting
  pub running : s'.running ≡ discard r s.running
  pub gone : count r s'.running ≡ 0
  pub stopped : IsStopped (s'.store r)
  pub again : StartsAgain (s.store r) (s'.store r)
  pub empty : (s'.store r).block_table ≡ []
  pub others : (x : ℕ) → (r == x) ≡ false → s'.store x ≡ s.store x
  pub counted : s'.preemptions ≡ s.preemptions + 1

-- The sequence that `preempt` hands to `deallocate`.
abbrev requeued : Sequence → Sequence
requeued seq = record seq {
  status = SequenceStatus.waiting;
  prefill_target_tokens = seq.num_tokens;
}

preempt_lem :
    (s : Scheduler) (r : ℕ) (bm : BlockManager) (seq : Sequence)
    → deallocate s.block_manager (requeued (s.store r)) ≡ some (bm, seq)
    → preempt r s
      ≡ some (
          changed s r bm seq
            (r ∷ s.waiting)
            (discard r s.running)
            (put (s.store r).request_id 0 s.waiting_ages)
            (s.preemptions + 1)
            s.prefill_watermark_delays)
unfolding preempt
preempt_lem s r bm seq e = rw e refl

preempted :
    (s : Scheduler) (r : ℕ) (p : BlockManager × Sequence)
    → IsSound s
    → 0 < count r s.running
    → Releases s.block_manager (others s r) p.0
    → p.1 ≡ emptied (requeued (s.store r))
    → Preempts s r (
        changed s r p.0 p.1
          (r ∷ s.waiting)
          (discard r s.running)
          (put (s.store r).request_id 0 s.waiting_ages)
          (s.preemptions + 1)
          s.prefill_watermark_delays)
unfolding is_running is_prompt_ready
preempted s r p sound runs released e =
    let here : 0 < count r (refs s) = omega (arith, runs, count-append r s.waiting s.running) in
    let self : (r == r) ≡ true = ground arith in
    let left : count r (discard r s.running) ≡ 0 =
      ground
        (arith, count-discard r r s.running, sound.once r, count-append r s.waiting s.running) in
    record {
      sound =
          stays-IsSound s sound r p.0 p.1 released.same (r ∷ s.waiting) (discard r s.running) _ _ _
            here (rw e released.valid)
            (λ x.
              ground (arith, count-append x s.waiting s.running, count-discard r x s.running, runs))
            (λ x other. ground (arith, other, count-discard r x s.running))
            (omega (arith, length-discard r s.running, sound.bounded)) (λ h. rw e)
            (λ h. absurd (omega (arith, h, left))) (rw e (sound.sized r here));
      same = released.same;
      config = refl;
      waiting = refl;
      running = refl;
      gone = left;
      stopped = rw self (rw e (refl, ground (arith, sound.sized r here)));
      again =
          rw self
            (rw e (record { token_ids = refl; num_tokens = refl; computed = refl; target = refl }));
      empty = rw self (rw e);
      others = λ x other. rw other;
      counted = refl;
    }

-- Preempting a running sequence raises nothing and keeps the scheduler sound. The sequence moves to
-- the front of the waiting queue with an empty table, and has to compute all its tokens again; the
-- other sequences are as they were.
pub preempt-Preempts :
    (s : Scheduler) (r : ℕ)
    → IsSound s
    → 0 < count r s.running
    → Ensures (preempt r s) (Preempts s r)
preempt-Preempts s r sound runs =
    let here : 0 < count r (refs s) = omega (arith, runs, count-append r s.waiting s.running) in
    let (p, e, done) = Ensures-value (deallocate s.block_manager (requeued (s.store r))) _ (
      deallocate-Releases s.block_manager (requeued (s.store r)) (others s r)
        (focus s r sound here)) in
    rw (preempt_lem s r p.0 p.1 e) (preempted s r p sound runs done.0 done.1)
