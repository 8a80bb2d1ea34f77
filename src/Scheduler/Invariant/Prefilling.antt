-- ===== src/Scheduler/Invariant/Prefilling.antt =====
-- The loop of `_schedule_prefill` (nanovllm/engine/scheduler.py).
use nano_vllm_online_serving.Common.{
  ℕ, ◌+◌, ◌≤◌, ◌<◌, ◌≡◌, refl, ap, ◌∙◌, false, some, List, [], ◌∷◌, arith, leb, count, count-append,
  elem, elem-count, Bool-cases, inl, inr, Ensures-value,
}
use nano_vllm_online_serving.Sequence.{Sequence}
use nano_vllm_online_serving.BlockManager.State.{BlockManager}
use nano_vllm_online_serving.BlockManager.Allocation.{can_allocate}
use nano_vllm_online_serving.BlockManager.Invariant.{Same}
use nano_vllm_online_serving.BlockManager.Invariant.Tables.{
  missing_blocks-Same, can_allocate-PurgesExactly,
}
use nano_vllm_online_serving.Scheduler.State.{Scheduler}
use nano_vllm_online_serving.Scheduler.Prefill.{
  Batch, is_full, remaining_budget, prefill_target, schedule_chunk, prefill_loop,
}
use nano_vllm_online_serving.Scheduler.Invariant.{IsSound, refs, held}
use nano_vllm_online_serving.Scheduler.Invariant.Batches.{size-Same}
use nano_vllm_online_serving.Scheduler.Invariant.Victims.{purged-IsSound}
use nano_vllm_online_serving.Scheduler.Invariant.Admitting.{Same-trans}
use nano_vllm_online_serving.Scheduler.Invariant.Chunking.{Settles, schedule_chunk-Chunks}
use nano_vllm_online_serving.Scheduler.Invariant.PrefillBatches.{
  sum_chunks, IsPrefillBatch, Prefills, grows-IsPrefillBatch,
}
use nano_vllm_online_serving.Scheduler.Invariant.Overtaking.{IsOvertaken, overtaken_later}
use nano_vllm_online_serving.Scheduler.Invariant.PrefillRounds.{
  Settles-cases, from_step, prefill_loop_full, prefill_loop_done, prefill_loop_short,
  prefill_loop_raises, prefill_loop_take,
}

-- A block manager in which a purge has run.
Same-batch :
    (s : Scheduler) (bm : BlockManager) (batch : List ℕ)
    → Same s.block_manager bm
    → IsPrefillBatch s batch
    → IsPrefillBatch (record s { block_manager = bm }) batch
Same-batch s bm batch same b = record {
  small = b.small;
  budget = b.budget;
  distinct = b.distinct;
  runs = b.runs;
  chunks = λ x h. rw (size-Same same) (b.chunks x h);
}

target_within :
    (s : Scheduler) (chunk : ℕ) (batch : Batch) (seq : Sequence)
    → prefill_target s chunk batch seq ≤ seq.prefill_target_tokens
unfolding prefill_target
target_within s chunk batch seq = omega arith

pub prefill_loop-Prefills :
    (chunk reserve : ℕ) (rs : List ℕ) (batch : Batch) (s : Scheduler)
    → IsSound s
    → IsPrefillBatch s batch.scheduled_seqs
    → sum_chunks s.store batch.scheduled_seqs ≡ batch.num_batched_tokens
    → ((x : ℕ) → count x rs + count x batch.scheduled_seqs ≤ 1)
    → ((x : ℕ) → 0 < count x rs → 0 < count x s.running)
    → Settles
        (prefill_loop chunk reserve rs batch s)
        (Prefills s)
        (IsOvertaken chunk reserve rs batch s)
unfolding prefill_loop is_full remaining_budget prefill_target
prefill_loop-Prefills chunk reserve [] batch s sound b total once runs = record {
  sound = sound;
  config = refl;
  same = record { host = refl; config = refl; blocks = refl };
  batch = b;
}
prefill_loop-Prefills chunk reserve (r ∷ rs) batch s sound b total once runs =
    let target = prefill_target s chunk batch (s.store r) in
    let later : (x : ℕ) → count x rs + count x batch.scheduled_seqs ≤ 1 =
      λ x. ground (arith, once x) in
    let runs1 : (x : ℕ) → 0 < count x rs → 0 < count x s.running =
      λ x h. runs x (ground (arith, h)) in
    elim (Bool-cases (is_full s chunk batch)) [
      | inl full ↦ rw (prefill_loop_full chunk reserve r rs batch s full) (record {
        sound = sound;
        config = refl;
        same = record { host = refl; config = refl; blocks = refl };
        batch = b;
      })
      | inr space ↦ elim (Bool-cases (leb target (s.store r).num_computed_tokens)) [
        | inl done ↦ rw (prefill_loop_done chunk reserve r rs batch s space done) (
            from_step s s (prefill_loop chunk reserve rs batch s) refl
              (record { host = refl; config = refl; blocks = refl }) _ _
              (overtaken_later chunk reserve r rs batch batch s s
                (record { host = refl; config = refl; blocks = refl })
                (λ rs1. prefill_loop_done chunk reserve r rs1 batch s space done))
              (prefill_loop-Prefills chunk reserve rs batch s sound b total later runs1))
        | inr more ↦
            let (d, e, answer) =
              Ensures-value (can_allocate s.block_manager (s.store r) target reserve) _ (
                can_allocate-PurgesExactly s.block_manager (s.store r) (held s.store (refs s))
                  target reserve sound.valid) in
            let s1 = record s { block_manager = d.0 } in
            let same = answer.0.1.same in
            let sound1 = purged-IsSound s d.0 sound answer.0.0 same in
            let b1 = Same-batch s d.0 batch.scheduled_seqs same b in
            elim (Bool-cases d.1) [
              | inr short ↦
                  rw
                    (prefill_loop_short chunk reserve r rs batch s d.0 space more
                      (e ∙ ap (λ a. some (d.0, a)) short))
                    (from_step s s1 (prefill_loop chunk reserve rs batch s1) refl same _ _
                      (overtaken_later chunk reserve r rs batch batch s s1 same (λ rs1.
                        prefill_loop_short chunk reserve r rs1 batch s d.0 space more
                          (e ∙ ap (λ a. some (d.0, a)) short)))
                      (prefill_loop-Prefills chunk reserve rs batch s1 sound1 b1 total later runs1))
              | inl fits ↦
                  let e1 = e ∙ ap (λ a. some (d.0, a)) fits in
                  let run = runs r (ground arith) in
                  elim (Settles-cases (schedule_chunk r target batch s1) _ _ (
                    schedule_chunk-Chunks s1 r target batch sound1 run
                      (target_within s chunk batch (s.store r))
                      (ground (
                        arith,
                        missing_blocks-Same (s.store r) target same,
                        answer.1,
                        fits,
                        answer.0.1.room,
                      )))) [
                        | inl (raised, why) ↦
                            rw
                              (prefill_loop_raises chunk reserve r rs batch s d.0 space more e1
                                raised)
                              (record {
                                passed = [];
                                ref = r;
                                rest = rs;
                                split = refl;
                                at = s;
                                sofar = batch;
                                reached = refl;
                                config = refl;
                                space = space;
                                before = ground (arith, more);
                                manager = d.0;
                                same = same;
                                fits = e1;
                                past = why;
                              })
                        | inr (q, taken, c) ↦
                            let fresh : elem r batch.scheduled_seqs ≡ false =
                              ground (arith, once r, elem-count r batch.scheduled_seqs) in
                            let b2 =
                              grows-IsPrefillBatch s1 chunk r batch q b1 total space fresh run c in
                            rw
                              (prefill_loop_take chunk reserve r rs batch s d.0 q space more e1
                                taken)
                              (from_step s q.0 (prefill_loop chunk reserve rs q.1 q.0) c.config
                                (Same-trans same c.same) _ _
                                (overtaken_later chunk reserve r rs batch q.1 s q.0
                                  (Same-trans same c.same)
                                  (λ rs1.
                                    prefill_loop_take chunk reserve r rs1 batch s d.0 q space more
                                      e1 taken))
                                (prefill_loop-Prefills chunk reserve rs q.1 q.0 c.sound b2.0 b2.1
                                  (λ x. ground (
                                    arith,
                                    once x,
                                    ap (count x) c.seqs,
                                    count-append x batch.scheduled_seqs (r ∷ []),
                                  ))
                                  (λ x h. rw (ap (count x) c.running) (runs1 x h))))
                      ]
            ]
      ]
    ]
