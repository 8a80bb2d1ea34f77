-- ===== src/Scheduler/Invariant/Changes.antt =====
-- The scheduler's invariant when one sequence changes, whether it stays in the queues or leaves
-- them (nanovllm/engine/scheduler.py).
use nano_vllm_online_serving.Common.{
  ℕ, ◌+◌, ◌≤◌, ◌<◌, ◌≡◌, refl, ap, sym, true, false, TextDict, List, ◌++◌, arith, ◌==◌, length,
  count, count-append, count-discard, length_of_counts, discard, Bool-cases, inl, inr,
}
use nano_vllm_online_serving.Sequence.{Sequence, is_running}
use nano_vllm_online_serving.BlockManager.State.{BlockManager, CacheConfig}
use nano_vllm_online_serving.BlockManager.Invariant.{IsValid, Same}
use nano_vllm_online_serving.Scheduler.State.{Scheduler, write_seq, with_result}
use nano_vllm_online_serving.Scheduler.Invariant.{IsSound, refs, held}
use nano_vllm_online_serving.Scheduler.Invariant.Focus.{
  IsValid-focus, IsValid-drop, IsValid-keep, count-held-counts,
}
use nano_vllm_online_serving.BlockManager.Invariant.Tables.{IsValid-counts}

-- What the sequences other than `r` hold.
abbrev pub others : Scheduler → ℕ → List ℕ
others s r = held s.store (discard r (refs s))

pub focus :
    (s : Scheduler) (r : ℕ)
    → IsSound s
    → 0 < count r (refs s)
    → IsValid s.block_manager ((s.store r).block_table ++ others s r)
focus s r sound here = IsValid-focus s.block_manager r s.store (refs s) here sound.valid

-- Sequence `r`, the block manager, the queues and the books about them have changed.
abbrev pub changed :
    Scheduler → ℕ → BlockManager → Sequence → List ℕ → List ℕ → TextDict ℕ → ℕ → ℕ → Scheduler
changed s r bm seq w run ages preempted delays = record s {
  block_manager = bm;
  store = write_seq r seq s.store;
  waiting = w;
  running = run;
  waiting_ages = ages;
  preemptions = preempted;
  prefill_watermark_delays = delays;
}

module _ (s : Scheduler) (sound : IsSound s) (r : ℕ) (bm : BlockManager) (seq : Sequence)
    (same : Same s.block_manager bm) (w run : List ℕ) (ages : TextDict ℕ)
    (preempted delays : ℕ) where
  size-positive : 0 < bm.block_size
  size-positive =
      let size = ap (λ (c : CacheConfig). c.block_size) same.config in rw size sound.positive

  -- The sequence stays in one of the queues.
  pub stays-IsSound :
      0 < count r (refs s)
      → IsValid bm (seq.block_table ++ others s r)
      → ((x : ℕ) → count x w + count x run ≡ count x (refs s))
      → ((x : ℕ) → (r == x) ≡ false → count x run ≡ count x s.running)
      → length run ≤ s.max_num_seqs
      → (0 < count r w → is_running seq ≡ false)
      → (0 < count r run → is_running seq ≡ true)
      → 0 < seq.num_tokens
      → IsSound (changed s r bm seq w run ages preempted delays)
  stays-IsSound here v total elsewhere fits waits runs sized = record {
    valid =
        IsValid-keep bm r seq s.store (refs s) (w ++ run) here (sound.once r)
          (λ x. omega (arith, count-append x w run, total x)) v;
    once = λ x. omega (arith, count-append x w run, total x, sound.once x);
    positive = size-positive;
    bounded = fits;
    waits = λ x h. elim (Bool-cases (r == x)) [
      | inl me ↦ rw me (waits (ground (arith, me, h)))
      | inr other ↦ rw other (
          sound.waits x
            (omega (arith, h, total x, elsewhere x other, count-append x s.waiting s.running)))
    ];
    runs = λ x h. elim (Bool-cases (r == x)) [
      | inl me ↦ rw me (runs (ground (arith, me, h)))
      | inr other ↦ rw other (sound.runs x (omega (arith, h, elsewhere x other)))
    ];
    sized = λ x h. elim (Bool-cases (r == x)) [
      | inl me ↦ rw me sized
      | inr other ↦ rw other (sound.sized x (omega (arith, h, count-append x w run, total x)))
    ];
  }

  -- The sequence leaves the queues.
  pub leaves-IsSound :
      IsValid bm (others s r)
      → ((x : ℕ) → count x w + count x run ≡ count x (discard r (refs s)))
      → ((x : ℕ) → count x w ≤ count x s.waiting)
      → ((x : ℕ) → count x run ≤ count x s.running)
      → length run ≤ s.max_num_seqs
      → IsSound (changed s r bm seq w run ages preempted delays)
  leaves-IsSound v total fewer_w fewer_run fits = record {
    valid =
        IsValid-drop bm r seq s.store (refs s) (w ++ run) (sound.once r)
          (λ x. omega (arith, count-append x w run, total x)) v;
    once = λ x.
        ground (arith, count-append x w run, total x, sound.once x, count-discard r x (refs s));
    positive = size-positive;
    bounded = fits;
    waits = λ x h.
        let other = gone x (omega (arith, h)) in
        rw other (sound.waits x (omega (arith, h, fewer_w x)));
    runs = λ x h.
        let other = gone x (omega (arith, h)) in
        rw other (sound.runs x (omega (arith, h, fewer_run x)));
    sized = λ x h.
        let other = gone x (omega (arith, h, count-append x w run)) in
        rw other (
          sound.sized x (
            omega (
              arith,
              h,
              count-append x w run,
              fewer_w x,
              fewer_run x,
              count-append x s.waiting s.running,
            )));
  }
    where
      gone : (x : ℕ) → 0 < count x w + count x run → (r == x) ≡ false
      gone x h = ground (arith, h, total x, sound.once r, count-discard r x (refs s))

-- A running sequence changes and runs on.
pub runs_on-IsSound :
    (s : Scheduler) (r : ℕ) (bm : BlockManager) (seq : Sequence)
    → IsSound s
    → Same s.block_manager bm
    → 0 < count r s.running
    → IsValid bm (seq.block_table ++ others s r)
    → is_running seq ≡ true
    → 0 < seq.num_tokens
    → IsSound (with_result r (bm, seq) s)
runs_on-IsSound s r bm seq sound same runs v running sized =
    stays-IsSound s sound r bm seq same s.waiting s.running s.waiting_ages s.preemptions
      s.prefill_watermark_delays (omega (arith, runs, count-append r s.waiting s.running)) v
      (λ x. omega (arith, count-append x s.waiting s.running)) (λ x other. refl) sound.bounded
      (λ h. absurd (omega (arith, h, runs, sound.once r, count-append r s.waiting s.running)))
      (λ h. running) sized

-- The queues change their order only.
pub reordered-IsSound :
    (s : Scheduler) (w run : List ℕ)
    → IsSound s
    → ((x : ℕ) → count x w ≡ count x s.waiting)
    → ((x : ℕ) → count x run ≡ count x s.running)
    → IsSound (record s { waiting = w; running = run })
reordered-IsSound s w run sound same_w same_run =
    let total : (x : ℕ) → count x (w ++ run) ≡ count x (refs s) = λ x.
      omega
        (arith, count-append x w run, count-append x s.waiting s.running, same_w x, same_run x) in
    record {
      valid =
          IsValid-counts s.block_manager (held s.store (refs s)) (held s.store (w ++ run))
            (λ j. count-held-counts j s.store (refs s) (w ++ run) (λ x. sym (total x))) sound.valid;
      once = λ x. omega (arith, total x, sound.once x);
      positive = sound.positive;
      bounded = omega (arith, length_of_counts run s.running same_run, sound.bounded);
      waits = λ x h. sound.waits x (omega (arith, h, same_w x));
      runs = λ x h. sound.runs x (omega (arith, h, same_run x));
      sized = λ x h. sound.sized x (omega (arith, h, total x));
    }
