-- ===== src/Scheduler/Invariant/Batches.antt =====
-- What `_schedule_decode` of nanovllm/engine/scheduler.py has put together at one moment.
use nano_vllm_online_serving.Common.{
  ℕ, ◌≤◌, ◌<◌, ◌≡◌, ap, true, false, List, [], ◌∷◌, ◌++◌, arith, ◌==◌, length, length-append, count,
  count-append, elem-count, elem, Bool-cases, inl, inr,
}
use nano_vllm_online_serving.Sequence.{Sequence, is_running, is_prompt_ready, num_blocks_for_tokens}
use nano_vllm_online_serving.BlockManager.State.{BlockManager, CacheConfig}
use nano_vllm_online_serving.BlockManager.Invariant.{Same}
use nano_vllm_online_serving.BlockManager.Invariant.Tables.{Grows, missing_blocks}
use nano_vllm_online_serving.Scheduler.State.{Scheduler, with_result}
use nano_vllm_online_serving.Scheduler.Invariant.{IsSound, refs}
use nano_vllm_online_serving.Scheduler.Invariant.Changes.{others, runs_on-IsSound}
use nano_vllm_online_serving.Scheduler.Invariant.Room.{Rooms}

-- The table of a sequence covers so many tokens.
abbrev pub IsCovered : ℕ → Sequence → ℕ → Type 0
IsCovered block_size seq tokens = num_blocks_for_tokens block_size tokens ≤ length seq.block_table

-- What `_schedule_decode` may return: sequences that run, each once, at most `max_num_seqs`, past
-- their prompt, and with blocks for all their tokens.
pub record IsDecodeBatch (s : Scheduler) (batch : List ℕ) : Type 0 where
  pub small : length batch ≤ s.max_num_seqs
  pub distinct : (x : ℕ) → count x batch ≤ 1
  pub runs : (x : ℕ) → elem x batch ≡ true → 0 < count x s.running
  pub ready : (x : ℕ) → elem x batch ≡ true → is_prompt_ready (s.store x) ≡ true
  pub covered :
      (x : ℕ)
      → elem x batch ≡ true
      → IsCovered s.block_manager.block_size (s.store x) (s.store x).num_tokens

pub record Decodes (s : Scheduler) (r : Scheduler × List ℕ) : Type 0 where
  pub sound : IsSound r.0
  pub config : r.0.config ≡ s.config
  pub same : Same s.block_manager r.0.block_manager
  pub batch : IsDecodeBatch r.0 r.1

pub size-Same : {bm bm' : BlockManager} → Same bm bm' → bm'.block_size ≡ bm.block_size
size-Same s = ap (λ (c : CacheConfig). c.block_size) s.config

-- What is scheduled already survives the search for room.
pub keeps-IsDecodeBatch :
    (s : Scheduler) (r : ℕ) (scheduled : List ℕ) (s' : Scheduler)
    → IsDecodeBatch s scheduled
    → Rooms s r scheduled s'
    → IsDecodeBatch s' scheduled
keeps-IsDecodeBatch s r scheduled s' b m = record {
  small = ground (arith, b.small, ap (λ c. c.max_num_seqs) m.config);
  distinct = b.distinct;
  runs = λ x h. still x h;
  ready = λ x h. rw (m.untouched x (still x h)) (b.ready x h);
  covered = λ x h. rw (m.untouched x (still x h), size-Same m.same) (b.covered x h);
}
  where
    still : (x : ℕ) → elem x scheduled ≡ true → 0 < count x s'.running
    still x h = omega (arith, m.kept x h, b.runs x h)

-- One more sequence, whose table has grown.
pub appended :
    (s : Scheduler) (r : ℕ) (scheduled : List ℕ) (p : BlockManager × Sequence)
    → IsSound s
    → IsDecodeBatch s scheduled
    → length scheduled < s.max_num_seqs
    → elem r scheduled ≡ false
    → 0 < count r s.running
    → is_prompt_ready (s.store r) ≡ true
    → Grows s.block_manager
        (s.store r)
        (others s r)
        (missing_blocks s.block_manager (s.store r) (s.store r).num_tokens)
        p
    → IsSound (with_result r p s) × IsDecodeBatch (with_result r p s) (scheduled ++ r ∷ [])
unfolding is_running is_prompt_ready
appended s r scheduled p sound b less fresh runs ready g = (
  runs_on-IsSound s r p.0 p.1 sound g.same runs (rw g.table g.valid)
      (rw g.table (sound.runs r runs)) (rw g.table (sound.sized r here)),
  record {
    small = omega (arith, less, length-append scheduled (r ∷ []));
    distinct = λ x.
        ground
          (arith, b.distinct x, count-append x scheduled (r ∷ []), elem-count r scheduled, fresh);
    runs = λ x h. elim (Bool-cases (r == x)) [
      | inl me ↦ rw (← same_ref x me) runs
      | inr other ↦ b.runs x (older x h other)
    ];
    ready = λ x h. elim (Bool-cases (r == x)) [
      | inl me ↦ rw me (rw g.table ready)
      | inr other ↦ rw other (b.ready x (older x h other))
    ];
    covered = λ x h. elim (Bool-cases (r == x)) [
      | inl me ↦ rw me (
          rw (g.table, size-Same g.same)
            (ground (arith, g.number, length-append (s.store r).block_table g.new)))
      | inr other ↦ rw (other, size-Same g.same) (b.covered x (older x h other))
    ];
  },
)
  where
    here : 0 < count r (refs s)
    here = omega (arith, runs, count-append r s.waiting s.running)

    same_ref : (x : ℕ) → (r == x) ≡ true → r ≡ x
    same_ref x me = ground (arith, me)

    older :
        (x : ℕ) → elem x (scheduled ++ r ∷ []) ≡ true → (r == x) ≡ false → elem x scheduled ≡ true
    older x h other = ground (
      arith,
      h,
      other,
      elem-count x (scheduled ++ r ∷ []),
      elem-count x scheduled,
      count-append x scheduled (r ∷ []),
    )

pub empty-IsDecodeBatch : (s : Scheduler) → IsDecodeBatch s []
empty-IsDecodeBatch s = record {
  small = omega arith;
  distinct = λ x. omega arith;
  runs = λ x h. absurd cc;
  ready = λ x h. absurd cc;
  covered = λ x h. absurd cc;
}
