-- ===== src/Scheduler/Invariant/Postprocessing.antt =====
-- One round of `Scheduler.postprocess` (nanovllm/engine/scheduler.py) for a sequence of a batch that
-- `schedule` returned.
use native.Mathlib.Nat.{le_trans, div-mul-le_self, le-div_iff_mul-le}
use nano_vllm_online_serving.Common.{
  ℕ, ◌+◌, ◌-◌, ◌/◌, ◌≤◌, ◌<◌, ◌≡◌, refl, ap, ◌∙◌, true, false, Option, none, some, ◌++◌, arith,
  ◌==◌, min, max, count, count-append, Bool-cases, inl, inr, Ensures, Ensures-value, Ensures->>=,
  ◌>>=◌,
}
use nano_vllm_online_serving.Sequence.{
  Sequence, is_running, is_prompt_ready, max_cacheable_tokens, clear_prefill_chunk, finish,
  num_blocks_for_tokens,
}
use nano_vllm_online_serving.BlockManager.State.{BlockManager}
use nano_vllm_online_serving.BlockManager.Commit.{commit_computed_tokens}
use nano_vllm_online_serving.BlockManager.Invariant.{IsValid, Same}
use nano_vllm_online_serving.BlockManager.Invariant.Committing.{
  Covers, Commits, commit_computed_tokens-Commits,
}
use nano_vllm_online_serving.Scheduler.State.{Scheduler, with_result}
use nano_vllm_online_serving.Scheduler.Postprocess.{
  Event, finish_event, take_token, after_chunk, after_decode_token,
}
use nano_vllm_online_serving.Scheduler.Invariant.{IsSound, refs}
use nano_vllm_online_serving.Scheduler.Invariant.Changes.{others, focus, runs_on-IsSound}
use nano_vllm_online_serving.Scheduler.Invariant.Batches.{IsCovered}
use nano_vllm_online_serving.Scheduler.Invariant.Admitting.{Same-trans}
use nano_vllm_online_serving.Scheduler.Invariant.Finishing.{
  Processes, with_event, finish_event-Processes, take_token-Processes,
}

-- A table that covers the tokens holds every block that a commit of them looks at.
covered-Covers :
    (bm : BlockManager) (seq : Sequence) (tokens : ℕ)
    → 0 < bm.block_size
    → IsCovered bm.block_size seq tokens
    → Covers bm seq tokens
unfolding num_blocks_for_tokens
covered-Covers bm seq tokens positive h =
    let cacheable = min tokens (max_cacheable_tokens seq tokens) in
    let whole = div-mul-le_self cacheable bm.block_size in
    let fits : cacheable / bm.block_size ≤ (tokens + bm.block_size - 1) / bm.block_size =
      (le-div_iff_mul-le positive).1 (omega (arith, whole, positive)) in
    le_trans fits h

-- The sequence and its block manager after the commit.
committed :
    (s : Scheduler) (r up_to : ℕ) (seq : Sequence)
    → IsSound s
    → 0 < count r s.running
    → seq.block_table ≡ (s.store r).block_table
    → IsCovered s.block_manager.block_size seq up_to
    → Ensures
        (commit_computed_tokens s.block_manager seq up_to)
        (Commits s.block_manager seq (others s r) up_to)
committed s r up_to seq sound runs table h =
    let here : 0 < count r (refs s) = omega (arith, runs, count-append r s.waiting s.running) in
    commit_computed_tokens-Commits s.block_manager seq (others s r) up_to
      (rw table (focus s r sound here)) sound.positive
      (covered-Covers s.block_manager seq up_to sound.positive h)

-- The scheduler after the commit, in which the sequence runs on.
commit-IsSound :
    (s : Scheduler) (r : ℕ) (bm : BlockManager) (seq : Sequence)
    → IsSound s
    → 0 < count r s.running
    → Same s.block_manager bm
    → seq.block_table ≡ (s.store r).block_table
    → seq.num_tokens ≡ (s.store r).num_tokens
    → seq.status ≡ (s.store r).status
    → IsValid bm ((s.store r).block_table ++ others s r)
    → IsSound (with_result r (bm, seq) s) × (is_running seq ≡ true)
unfolding is_running
commit-IsSound s r bm seq sound runs same table size status v =
    let here : 0 < count r (refs s) = omega (arith, runs, count-append r s.waiting s.running) in
    let going : is_running seq ≡ true = rw status (sound.runs r runs) in
    (
      runs_on-IsSound s r bm seq sound same runs (rw table v) going (rw size (sound.sized r here)),
      going,
    )

-- A round from the state after the commit.
from_commit :
    (s : Scheduler) (r : ℕ) (bm : BlockManager) (seq : Sequence) (q : Scheduler × Option Event)
    → Same s.block_manager bm
    → Processes (with_result r (bm, seq) s) r q
    → Processes s r q
from_commit s r bm seq q same p = record {
  sound = p.sound;
  config = p.config;
  same = Same-trans same p.same;
  others = λ x other. p.others x other ∙ (rw other refl);
  running = p.running;
  event = p.event;
}

pub after_decode_token-Processes :
    (s : Scheduler) (r t : ℕ)
    → IsSound s
    → 0 < count r s.running
    → IsCovered s.block_manager.block_size (s.store r) (s.store r).num_tokens
    → Ensures (after_decode_token r t s) (Processes s r)
unfolding after_decode_token
after_decode_token-Processes s r t sound runs covered =
    let self : (r == r) ≡ true = ground arith in
    let seq = record (s.store r) {
      num_computed_tokens = max (s.store r).num_computed_tokens (s.store r).num_tokens;
    } in
    let (p, e, c) =
      Ensures-value (commit_computed_tokens s.block_manager seq seq.num_tokens) _
        (committed s r seq.num_tokens seq sound runs refl covered) in
    let table = ap (λ (q : Sequence). q.block_table) c.only in
    let after =
      commit-IsSound s r p.0 p.1 sound runs c.same table
        (ap (λ (q : Sequence). q.num_tokens) c.only) (ap (λ (q : Sequence). q.status) c.only)
        c.valid in
    rw (e, ◌>>=◌)
      (Ensures->>= (take_token r t p.1 (with_result r p s)) _ _ _
        (take_token-Processes (with_result r p s) r t p.1 after.0 runs (rw self refl) after.1)
        (λ q d. from_commit s r p.0 p.1 (with_event q) c.same d))

-- The sequence as its chunk is taken for computed.
abbrev computed_chunk : Sequence → Sequence
computed_chunk seq = record seq { num_computed_tokens = seq.scheduled_prefill_end }

after_chunk_unready :
    (s : Scheduler) (r t : ℕ) (p : BlockManager × Sequence)
    → commit_computed_tokens s.block_manager
        (computed_chunk (s.store r))
        (s.store r).scheduled_prefill_end
      ≡ some p
    → is_prompt_ready (clear_prefill_chunk p.1) ≡ false
    → after_chunk r t s ≡ some (with_result r (p.0, clear_prefill_chunk p.1) s, none)
unfolding after_chunk
after_chunk_unready s r t p e e1 = rw (e, ◌>>=◌) (rw e1 refl)

after_chunk_warm :
    (s : Scheduler) (r t : ℕ) (p : BlockManager × Sequence)
    → commit_computed_tokens s.block_manager
        (computed_chunk (s.store r))
        (s.store r).scheduled_prefill_end
      ≡ some p
    → is_prompt_ready (clear_prefill_chunk p.1) ≡ true
    → ((clear_prefill_chunk p.1).max_tokens == 0) ≡ true
    → after_chunk r t s ≡ (
        finish_event r none
          (finish (clear_prefill_chunk p.1) "cache_warmed")
          (with_result r (p.0, clear_prefill_chunk p.1) s)
        >>= λ e. some (with_event e))
unfolding after_chunk
after_chunk_warm s r t p e e1 e2 = rw (e, ◌>>=◌) (rw e1 (rw e2 refl))

after_chunk_token :
    (s : Scheduler) (r t : ℕ) (p : BlockManager × Sequence)
    → commit_computed_tokens s.block_manager
        (computed_chunk (s.store r))
        (s.store r).scheduled_prefill_end
      ≡ some p
    → is_prompt_ready (clear_prefill_chunk p.1) ≡ true
    → ((clear_prefill_chunk p.1).max_tokens == 0) ≡ false
    → after_chunk r t s ≡ (
        take_token r t (clear_prefill_chunk p.1) (with_result r (p.0, clear_prefill_chunk p.1) s)
        >>= λ e. some (with_event e))
unfolding after_chunk
after_chunk_token s r t p e e1 e2 = rw (e, ◌>>=◌) (rw e1 (rw e2 refl))

pub after_chunk-Processes :
    (s : Scheduler) (r t : ℕ)
    → IsSound s
    → 0 < count r s.running
    → IsCovered s.block_manager.block_size (s.store r) (s.store r).scheduled_prefill_end
    → Ensures (after_chunk r t s) (Processes s r)
unfolding clear_prefill_chunk finish
after_chunk-Processes s r t sound runs covered =
    let self : (r == r) ≡ true = ground arith in
    let seq = computed_chunk (s.store r) in
    let (p, e, c) =
      Ensures-value (commit_computed_tokens s.block_manager seq seq.num_computed_tokens) _
        (committed s r seq.num_computed_tokens seq sound runs refl covered) in
    let cleared = clear_prefill_chunk p.1 in
    let after =
      commit-IsSound s r p.0 cleared sound runs c.same (ap (λ (q : Sequence). q.block_table) c.only)
        (ap (λ (q : Sequence). q.num_tokens) c.only) (ap (λ (q : Sequence). q.status) c.only)
        c.valid in
    let s1 = with_result r (p.0, cleared) s in
    elim (Bool-cases (is_prompt_ready cleared)) [
      | inr unready ↦ rw (after_chunk_unready s r t p e unready) (record {
        sound = after.0;
        config = refl;
        same = c.same;
        others = λ x other. rw other refl;
        running = λ x other. refl;
        event = runs;
      })
      | inl ready ↦ elim (Bool-cases (cleared.max_tokens == 0)) [
        | inl warm ↦ rw (after_chunk_warm s r t p e ready warm) (
            Ensures->>= (finish_event r none (finish cleared "cache_warmed") s1) _ _ _
              (finish_event-Processes s1 r none (finish cleared "cache_warmed") after.0 runs
                (rw self refl))
              (λ q d. from_commit s r p.0 cleared (with_event q) c.same d))
        | inr more ↦ rw (after_chunk_token s r t p e ready more) (
            Ensures->>= (take_token r t cleared s1) _ _ _
              (take_token-Processes s1 r t cleared after.0 runs (rw self refl) after.1)
              (λ q d. from_commit s r p.0 cleared (with_event q) c.same d))
      ]
    ]
