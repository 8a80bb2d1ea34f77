-- ===== src/Scheduler/Invariant/Chunking.antt =====
-- The calls at the end of the loop of `_schedule_prefill` (nanovllm/engine/scheduler.py): one
-- sequence gets its blocks and its chunk, or the assertion in `prepare_prefill` fails.
use nano_vllm_online_serving.Common.{
  ℕ, ◌+◌, ◌-◌, ◌≤◌, ◌<◌, ◌≡◌, refl, ap, ◌∙◌, true, false, Option, none, some, [], ◌∷◌, ◌++◌, arith,
  ◌==◌, ltb, leb, ◌&&◌, length, length-append, count, count-append, Bool-cases, inl, inr,
  Ensures-value, ◌>>=◌,
}
use nano_vllm_online_serving.Sequence.{Sequence, is_running, set_prefill_chunk}
use nano_vllm_online_serving.BlockManager.State.{BlockManager}
use nano_vllm_online_serving.BlockManager.Prefix.{prepare_prefill}
use nano_vllm_online_serving.BlockManager.Invariant.{Same}
use nano_vllm_online_serving.BlockManager.Invariant.Taking.{room}
use nano_vllm_online_serving.BlockManager.Invariant.Tables.{Grows, missing_blocks}
use nano_vllm_online_serving.BlockManager.Invariant.Prefill.{Matched}
use nano_vllm_online_serving.BlockManager.Invariant.Preparing.{prepare_prefill_decides}
use nano_vllm_online_serving.Scheduler.State.{Scheduler, with_result}
use nano_vllm_online_serving.Scheduler.Prefill.{Batch, schedule_chunk}
use nano_vllm_online_serving.Scheduler.Invariant.{IsSound, refs}
use nano_vllm_online_serving.Scheduler.Invariant.Changes.{others, focus, runs_on-IsSound}
use nano_vllm_online_serving.Scheduler.Invariant.Batches.{IsCovered, size-Same}
use nano_vllm_online_serving.Scheduler.Invariant.Overtaking.{IsPast}
use nano_vllm_online_serving.Scheduler.Invariant.Admitting.{Same-trans}

-- A call that returns a result with one property, or raises for a known reason.
abbrev pub Settles {ℓ} : {A : Type ℓ} → Option A → (A → Type 0) → Type 0 → Type 0
Settles none P E = E
Settles (some a) P E = P a

-- The chunk of a sequence starts where its computed tokens end, is not empty, stays within the
-- prefill target, and is covered by the table.
pub record IsChunk (block_size : ℕ) (seq : Sequence) : Type 0 where
  pub start : seq.scheduled_prefill_start ≡ seq.num_computed_tokens
  pub nonempty : seq.scheduled_prefill_start < seq.scheduled_prefill_end
  pub within : seq.scheduled_prefill_end ≤ seq.prefill_target_tokens
  pub covered : IsCovered block_size seq seq.scheduled_prefill_end

pub record Chunks (s : Scheduler) (r target : ℕ) (batch : Batch) (q : Scheduler × Batch)
    : Type 0 where
  pub sound : IsSound q.0
  pub config : q.0.config ≡ s.config
  pub same : Same s.block_manager q.0.block_manager
  pub running : q.0.running ≡ s.running
  pub others : (x : ℕ) → (r == x) ≡ false → q.0.store x ≡ s.store x
  pub chunk : IsChunk s.block_manager.block_size (q.0.store r)
  pub end : (q.0.store r).scheduled_prefill_end ≡ target
  pub later : (s.store r).num_computed_tokens ≤ (q.0.store r).scheduled_prefill_start
  pub seqs : q.1.scheduled_seqs ≡ batch.scheduled_seqs ++ r ∷ []
  pub tokens :
      q.1.num_batched_tokens
      ≡ batch.num_batched_tokens + (target - (q.0.store r).scheduled_prefill_start)

abbrev pub chunked : ℕ → Sequence → Sequence
chunked target seq = record seq {
  scheduled_prefill_start = seq.num_computed_tokens;
  scheduled_prefill_end = target;
}

schedule_chunk_lem :
    (s : Scheduler) (r target : ℕ) (batch : Batch) (p : BlockManager × Sequence)
    → prepare_prefill s.block_manager (s.store r) target ≡ some p
    → p.1.num_computed_tokens < target
    → target ≤ p.1.prefill_target_tokens
    → schedule_chunk r target batch s
      ≡ some (
        with_result r (p.0, chunked target p.1) s,
        record {
          scheduled_seqs = batch.scheduled_seqs ++ r ∷ [];
          num_batched_tokens = batch.num_batched_tokens + (target - p.1.num_computed_tokens);
        },
      )
unfolding schedule_chunk set_prefill_chunk
schedule_chunk_lem s r target batch p e less le =
    let go : (ltb p.1.num_computed_tokens target && leb target p.1.prefill_target_tokens) ≡ true =
      ground (arith, less, le) in
    rw (e, ◌>>=◌) (rw go refl)

pub schedule_chunk_raises :
    (s : Scheduler) (r target : ℕ) (batch : Batch)
    → prepare_prefill s.block_manager (s.store r) target ≡ none
    → schedule_chunk r target batch s ≡ none
unfolding schedule_chunk
schedule_chunk_raises s r target batch e = rw (e, ◌>>=◌) refl

-- From the match and the growth of the table.
chunk_done :
    (s : Scheduler) (r target n : ℕ) (batch : Batch) (m p : BlockManager × Sequence)
    → IsSound s
    → 0 < count r s.running
    → target ≤ (s.store r).prefill_target_tokens
    → m.1.num_computed_tokens < target
    → Matched s.block_manager (s.store r) (others s r) m
    → Grows m.0 m.1 (others s r) (missing_blocks m.0 m.1 target) p
    → n ≡ batch.num_batched_tokens + (target - p.1.num_computed_tokens)
    → Chunks s r target batch (
      with_result r (p.0, chunked target p.1) s,
      record { scheduled_seqs = batch.scheduled_seqs ++ r ∷ []; num_batched_tokens = n },
    )
unfolding is_running
chunk_done s r target n batch m p sound runs le less matched grown counted =
    let self : (r == r) ≡ true = ground arith in
    let here : 0 < count r (refs s) = omega (arith, runs, count-append r s.waiting s.running) in
    let same = Same-trans matched.same grown.same in
    let status =
      ap (λ (q : Sequence). q.status) grown.table ∙ ap (λ (q : Sequence). q.status) matched.only in
    let goal =
      ap (λ (q : Sequence). q.prefill_target_tokens) grown.table
      ∙ ap (λ (q : Sequence). q.prefill_target_tokens) matched.only in
    let size =
      ap (λ (q : Sequence). q.num_tokens) grown.table
      ∙ ap (λ (q : Sequence). q.num_tokens) matched.only in
    let computed = ap (λ (q : Sequence). q.num_computed_tokens) grown.table in
    let table = ap (λ (q : Sequence). length q.block_table) grown.table in
    let enough : IsCovered m.0.block_size p.1 target =
      omega (arith, table, grown.number, length-append m.1.block_table grown.new) in
    record {
      sound =
          runs_on-IsSound s r p.0 (chunked target p.1) sound same runs (rw grown.table grown.valid)
            (rw status (sound.runs r runs)) (rw size (sound.sized r here));
      config = refl;
      same = same;
      running = refl;
      others = λ x other. rw other;
      chunk = rw self (record {
        start = refl;
        nonempty = omega (arith, computed, less);
        within = omega (arith, goal, le);
        covered = rw (size-Same matched.same) at enough;
      });
      end = rw self refl;
      later = rw self (omega (arith, computed, matched.computed));
      seqs = refl;
      tokens = rw self counted;
    }

-- With room for the target's blocks, the calls give `r` its chunk up to the target, or raise since
-- the match has overtaken the target.
pub schedule_chunk-Chunks :
    (s : Scheduler) (r target : ℕ) (batch : Batch)
    → IsSound s
    → 0 < count r s.running
    → target ≤ (s.store r).prefill_target_tokens
    → missing_blocks s.block_manager (s.store r) target ≤ room s.block_manager
    → Settles
        (schedule_chunk r target batch s)
        (Chunks s r target batch)
        (IsPast s.block_manager (s.store r) target)
schedule_chunk-Chunks s r target batch sound runs le fits =
    let here : 0 < count r (refs s) = omega (arith, runs, count-append r s.waiting s.running) in
    let (m, e, matched, grows, raises) =
      prepare_prefill_decides s.block_manager (s.store r) (others s r) target (focus s r sound here)
        sound.positive fits in
    elim (Bool-cases (ltb m.1.num_computed_tokens target)) [
      | inl less ↦
          let less1 : m.1.num_computed_tokens < target = ground (arith, less) in
          let (p, e1, grown) =
            Ensures-value (prepare_prefill s.block_manager (s.store r) target) _ (grows less1) in
          let same = ap (λ (q : Sequence). q.num_computed_tokens) grown.table in
          let goal =
            ap (λ (q : Sequence). q.prefill_target_tokens) grown.table
            ∙ ap (λ (q : Sequence). q.prefill_target_tokens) matched.only in
          rw
            (schedule_chunk_lem s r target batch p e1 (omega (arith, same, less1))
              (omega (arith, goal, le)))
            (chunk_done s r target _ batch m p sound runs le less1 matched grown refl)
      | inr over ↦
          let over1 : target ≤ m.1.num_computed_tokens = ground (arith, over) in
          rw (schedule_chunk_raises s r target batch (raises over1))
            (record { result = m; matched = e; after = over1 })
    ]
