-- ===== src/Scheduler/Invariant/PrefillSteps.antt =====
-- `_schedule_prefill` of nanovllm/engine/scheduler.py as a whole.
use nano_vllm_online_serving.Common.{
  ℕ, ◌≤◌, ◌≡◌, refl, ap, ◌∙◌, false, not, some, List, [], ◌∷◌, arith, count, count-append,
  count-select, select, inl, inr, Ensures, Ensures-value, ◌>>=◌,
}
use nano_vllm_online_serving.Sequence.{Sequence, is_prompt_ready}
use nano_vllm_online_serving.BlockManager.State.{BlockManager, CacheConfig}
use nano_vllm_online_serving.BlockManager.Prefix.{match_cached_prefix}
use nano_vllm_online_serving.Scheduler.State.{Scheduler}
use nano_vllm_online_serving.Scheduler.Policy.{prefill_chunk_budget, prefill_reserve_blocks}
use nano_vllm_online_serving.Scheduler.Queues.{admit_waiting}
use nano_vllm_online_serving.Scheduler.Prefill.{empty_batch, prefill_loop, schedule_prefill}
use nano_vllm_online_serving.Scheduler.Invariant.{IsSound}
use nano_vllm_online_serving.Scheduler.Invariant.Admission.{admit_waiting-Admitted}
use nano_vllm_online_serving.Scheduler.Invariant.Chunking.{Settles}
use nano_vllm_online_serving.Scheduler.Invariant.Overtaking.{candidates, PrefillRaises}
use nano_vllm_online_serving.Scheduler.Invariant.PrefillBatches.{Prefills, empty-IsPrefillBatch}
use nano_vllm_online_serving.Scheduler.Invariant.PrefillRounds.{from_step, Settles-cases}
use nano_vllm_online_serving.Scheduler.Invariant.Prefilling.{prefill_loop-Prefills}

pub schedule_prefill_lem :
    (s s1 : Scheduler)
    → admit_waiting s ≡ some s1
    → schedule_prefill s
      ≡ prefill_loop
          (prefill_chunk_budget s1)
          (prefill_reserve_blocks s1)
          (candidates s1)
          empty_batch
          s1
unfolding schedule_prefill
schedule_prefill_lem s s1 e = rw (e, ◌>>=◌) refl

-- `_schedule_prefill` keeps the scheduler sound and returns a batch of chunks that keeps to the
-- limits on sequences and tokens; or it raises, which happens only where a match in the prefix
-- cache has overtaken the target that was computed before it.
pub schedule_prefill-Prefills :
    (s : Scheduler) → IsSound s → Settles (schedule_prefill s) (Prefills s) (PrefillRaises s)
schedule_prefill-Prefills s sound =
    let (s1, e, a) = Ensures-value (admit_waiting s) _ (admit_waiting-Admitted s sound) in
    let unready = λ (r : ℕ). not (is_prompt_ready (s1.store r)) in
    let rs = select unready s1.running in
    let few : (x : ℕ) → count x rs ≤ count x s1.running =
      λ x. ground (arith, count-select unready x s1.running) in
    rw (schedule_prefill_lem s s1 e) (
      from_step s s1
        (prefill_loop (prefill_chunk_budget s1) (prefill_reserve_blocks s1) rs empty_batch s1)
        a.config a.same _ _
        (λ o. record { admitted = s1; admission = e; overtaken = o; same = a.same })
        (prefill_loop-Prefills (prefill_chunk_budget s1) (prefill_reserve_blocks s1) rs empty_batch
          s1 a.sound (empty-IsPrefillBatch s1) refl
          (λ x. omega (arith, few x, a.sound.once x, count-append x s1.waiting s1.running))
          (λ x h. omega (arith, few x, h))))

match_uncached :
    (bm : BlockManager) (seq : Sequence) (table : List ℕ) (r : BlockManager × Sequence)
    → bm.enable_prefix_cache ≡ false
    → seq.block_table ≡ table
    → match_cached_prefix bm seq ≡ some r
    → r.1.num_computed_tokens ≡ seq.num_computed_tokens
unfolding match_cached_prefix
match_uncached bm seq [] r off e m = ground (arith, off, e, m)
match_uncached bm seq (b ∷ bs) r off e m = ground (arith, off, e, m)

-- Without a prefix cache `_schedule_prefill` raises nothing, keeps the scheduler sound, and returns
-- a batch of chunks that keeps to the limits on sequences and tokens.
pub schedule_prefill_uncached :
    (s : Scheduler)
    → IsSound s
    → s.block_manager.enable_prefix_cache ≡ false
    → Ensures (schedule_prefill s) (Prefills s)
schedule_prefill_uncached s sound off =
    elim (Settles-cases (schedule_prefill s) _ _ (schedule_prefill-Prefills s sound)) [
      | inr (q, e, p) ↦ rw e p
      | inl (raised, o) ↦
          let t = o.overtaken in
          let config = t.same.config ∙ t.config ∙ o.same.config in
          let off1 = ap (λ (c : CacheConfig). c.enable_prefix_cache) config ∙ off in
          absurd (
            omega (
              arith,
              t.before,
              t.past.after,
              match_uncached t.manager (t.at.store t.ref) _ t.past.result off1 refl t.past.matched,
            ))
    ]
