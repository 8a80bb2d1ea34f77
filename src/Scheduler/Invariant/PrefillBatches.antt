-- ===== src/Scheduler/Invariant/PrefillBatches.antt =====
-- What `_schedule_prefill` of nanovllm/engine/scheduler.py has put together at one moment.
use nano_vllm_online_serving.Common.{
  ℕ, ◌+◌, ◌-◌, ◌≤◌, ◌<◌, ◌≡◌, refl, ap, ◌∙◌, true, false, List, [], ◌∷◌, ◌++◌, arith, ◌==◌, length,
  length-append, count, count-append, elem, elem-count, Bool-cases, inl, inr,
}
use nano_vllm_online_serving.Sequence.{Sequence}
use nano_vllm_online_serving.BlockManager.Invariant.{Same}
use nano_vllm_online_serving.Scheduler.State.{Scheduler}
use nano_vllm_online_serving.Scheduler.Prefill.{Batch, is_full, remaining_budget, prefill_target}
use nano_vllm_online_serving.Scheduler.Invariant.{IsSound}
use nano_vllm_online_serving.Scheduler.Invariant.Batches.{size-Same}
use nano_vllm_online_serving.Scheduler.Invariant.Chunking.{IsChunk, Chunks}

-- The prompt tokens that a batch computes.
abbrev pub sum_chunks : (ℕ → Sequence) → List ℕ → ℕ
sum_chunks store [] = 0
sum_chunks store (r ∷ rs) =
    ((store r).scheduled_prefill_end - (store r).scheduled_prefill_start) + sum_chunks store rs

-- What `_schedule_prefill` may return: sequences that run, each once, at most `max_num_seqs`, each
-- with a chunk, and with at most `max_num_batched_tokens` tokens in all chunks together.
pub record IsPrefillBatch (s : Scheduler) (batch : List ℕ) : Type 0 where
  pub small : length batch ≤ s.max_num_seqs
  pub budget : sum_chunks s.store batch ≤ s.max_num_batched_tokens
  pub distinct : (x : ℕ) → count x batch ≤ 1
  pub runs : (x : ℕ) → elem x batch ≡ true → 0 < count x s.running
  pub chunks : (x : ℕ) → elem x batch ≡ true → IsChunk s.block_manager.block_size (s.store x)

pub record Prefills (s : Scheduler) (q : Scheduler × Batch) : Type 0 where
  pub sound : IsSound q.0
  pub config : q.0.config ≡ s.config
  pub same : Same s.block_manager q.0.block_manager
  pub batch : IsPrefillBatch q.0 q.1.scheduled_seqs

sum_chunks-append :
    (store : ℕ → Sequence) (xs ys : List ℕ)
    → sum_chunks store (xs ++ ys) ≡ sum_chunks store xs + sum_chunks store ys
sum_chunks-append store [] ys = omega arith
sum_chunks-append store (x ∷ xs) ys = omega (arith, sum_chunks-append store xs ys)

-- Two stores that agree on the batch.
sum_chunks-same :
    (store store' : ℕ → Sequence) (xs : List ℕ)
    → ((x : ℕ) → elem x xs ≡ true → store' x ≡ store x)
    → sum_chunks store' xs ≡ sum_chunks store xs
sum_chunks-same store store' [] h = refl
sum_chunks-same store store' (x ∷ xs) h =
    rw (h x (ground arith), sum_chunks-same store store' xs (λ y e. h y (ground (arith, e)))) refl

-- One more sequence with its chunk.
pub grows-IsPrefillBatch :
    (s : Scheduler) (chunk r : ℕ) (batch : Batch) (q : Scheduler × Batch)
    → IsPrefillBatch s batch.scheduled_seqs
    → sum_chunks s.store batch.scheduled_seqs ≡ batch.num_batched_tokens
    → is_full s chunk batch ≡ false
    → elem r batch.scheduled_seqs ≡ false
    → 0 < count r s.running
    → Chunks s r (prefill_target s chunk batch (s.store r)) batch q
    → IsPrefillBatch q.0 q.1.scheduled_seqs
      × (sum_chunks q.0.store q.1.scheduled_seqs ≡ q.1.num_batched_tokens)
unfolding is_full prefill_target remaining_budget
grows-IsPrefillBatch s chunk r batch q b total space fresh runs c =
    let seqs = batch.scheduled_seqs in
    let kept : (x : ℕ) → elem x seqs ≡ true → q.0.store x ≡ s.store x =
      λ x h. c.others x (different x h) in
    let sum : sum_chunks q.0.store q.1.scheduled_seqs ≡ q.1.num_batched_tokens =
      ap (sum_chunks q.0.store) c.seqs
      ∙ (omega (
        arith,
        sum_chunks-append q.0.store seqs (r ∷ []),
        sum_chunks-same s.store q.0.store seqs kept,
        total,
        c.tokens,
        c.end,
      )) in
    let most = ap (λ g. g.max_num_seqs) c.config in
    let budget = ap (λ g. g.max_num_batched_tokens) c.config in
    (
      record {
        small = ground (arith, ap length c.seqs, length-append seqs (r ∷ []), most, space);
        budget = ground (arith, sum, c.tokens, budget, c.later, space);
        distinct = λ x. ground (
          arith,
          ap (count x) c.seqs,
          b.distinct x,
          count-append x seqs (r ∷ []),
          elem-count r seqs,
          fresh,
        );
        runs = λ x h. rw (ap (count x) c.running) (elim (Bool-cases (r == x)) [
          | inl me ↦ let e : r ≡ x = ground (arith, me) in rw (← e) runs
          | inr other ↦ b.runs x (older x h other)
        ]);
        chunks = λ x h. rw (size-Same c.same) (elim (Bool-cases (r == x)) [
          | inl me ↦ let e : r ≡ x = ground (arith, me) in rw (← e) c.chunk
          | inr other ↦ rw (c.others x other) (b.chunks x (older x h other))
        ]);
      },
      sum,
    )
  where
    different : (x : ℕ) → elem x batch.scheduled_seqs ≡ true → (r == x) ≡ false
    different x h =
        ground
          (arith, h, fresh, elem-count x batch.scheduled_seqs, elem-count r batch.scheduled_seqs)

    older :
        (x : ℕ)
        → elem x q.1.scheduled_seqs ≡ true
        → (r == x) ≡ false
        → elem x batch.scheduled_seqs ≡ true
    older x h other = ground (
      arith,
      h,
      other,
      elem-count x q.1.scheduled_seqs,
      elem-count x batch.scheduled_seqs,
      ap (count x) c.seqs,
      count-append x batch.scheduled_seqs (r ∷ []),
    )

pub empty-IsPrefillBatch : (s : Scheduler) → IsPrefillBatch s []
empty-IsPrefillBatch s = record {
  small = omega arith;
  budget = omega arith;
  distinct = λ x. omega arith;
  runs = λ x h. absurd cc;
  chunks = λ x h. absurd cc;
}
