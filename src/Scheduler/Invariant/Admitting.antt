-- ===== src/Scheduler/Invariant/Admitting.antt =====
-- `_admit_waiting` of nanovllm/engine/scheduler.py.
use mathlib.Core.List.{append_assoc, append-nil}
use nano_vllm_online_serving.Common.{
  ℕ, ◌<◌, ◌≡◌, refl, ap, sym, ◌∙◌, true, false, some, List, [], ◌∷◌, ◌++◌, arith, ◌==◌, ltb, length,
  length-append, count-append, Bool-cases, inl, inr, Ensures, Ensures->>=, ◌>>=◌, pop,
}
use nano_vllm_online_serving.Sequence.{Sequence, SequenceStatus, is_running}
use nano_vllm_online_serving.BlockManager.State.{BlockManager}
use nano_vllm_online_serving.BlockManager.Allocation.{can_allocate}
use nano_vllm_online_serving.BlockManager.Prefix.{match_cached_prefix}
use nano_vllm_online_serving.BlockManager.Invariant.{Same}
use nano_vllm_online_serving.BlockManager.Invariant.Tables.{can_allocate-PurgesExactly}
use nano_vllm_online_serving.BlockManager.Invariant.Prefill.{Matched}
use nano_vllm_online_serving.Scheduler.State.{Scheduler, with_result}
use nano_vllm_online_serving.Scheduler.Queues.{admission_target, count_delay, admit, admit_loop}
use nano_vllm_online_serving.Scheduler.Invariant.{IsSound, refs, held}
use nano_vllm_online_serving.Scheduler.Invariant.Changes.{others, focus, stays-IsSound}
use nano_vllm_online_serving.Scheduler.Invariant.Victims.{purged-IsSound}

-- The scheduler with this queue in the place of `waiting`.
abbrev pub queued : Scheduler → List ℕ → Scheduler
queued s ws = record s { waiting = ws }

-- What the loop has done: a first part of the queue has moved to the end of `running`, in order.
pub record Admits (s : Scheduler) (ws : List ℕ) (s' : Scheduler) : Type 0 where
  pub sound : IsSound s'
  pub config : s'.config ≡ s.config
  pub same : Same s.block_manager s'.block_manager
  pub admitted : List ℕ
  pub running : s'.running ≡ s.running ++ admitted
  pub waiting : ws ≡ admitted ++ s'.waiting

-- The match of the first sequence in the queue.
pub Matched-IsSound :
    (s : Scheduler) (r : ℕ) (rest : List ℕ) (p : BlockManager × Sequence)
    → IsSound (queued s (r ∷ rest))
    → Matched s.block_manager (s.store r) (others (queued s (r ∷ rest)) r) p
    → IsSound (queued (with_result r p s) (r ∷ rest))
unfolding is_running
Matched-IsSound s r rest p sound m =
    stays-IsSound (queued s (r ∷ rest)) sound r p.0 p.1 m.same (r ∷ rest) s.running s.waiting_ages
      s.preemptions s.prefill_watermark_delays (ground arith) m.valid
      (λ x. omega (arith, count-append x (r ∷ rest) s.running)) (λ x other. refl) sound.bounded
      (λ h. rw m.only (sound.waits r (ground arith)))
      (λ h. absurd (ground (arith, h, sound.once r, count-append r (r ∷ rest) s.running)))
      (rw m.only (sound.sized r (ground arith)))

-- The first sequence in the queue starts to run.
pub admit-IsSound :
    (s : Scheduler) (r : ℕ) (rest : List ℕ)
    → IsSound (queued s (r ∷ rest))
    → length s.running < s.max_num_seqs
    → IsSound (queued (admit r s) rest)
unfolding admit is_running
admit-IsSound s r rest sound space =
    let q = queued s (r ∷ rest) in
    stays-IsSound q sound r s.block_manager (record (s.store r) { status = SequenceStatus.running })
      (record { host = refl; config = refl; blocks = refl }) rest (s.running ++ r ∷ [])
      (pop (s.store r).request_id s.waiting_ages) s.preemptions s.prefill_watermark_delays
      (ground arith) (focus q r sound (ground arith))
      (λ x. ground (arith, count-append x s.running (r ∷ []), count-append x rest s.running))
      (λ x other. ground (arith, other, count-append x s.running (r ∷ [])))
      (omega (arith, space, length-append s.running (r ∷ [])))
      (λ h. absurd (ground (arith, h, sound.once r, count-append r rest s.running))) (λ h. refl)
      (sound.sized r (ground arith))

pub stop-Admits :
    (s : Scheduler) (ws : List ℕ) (s' : Scheduler)
    → IsSound s'
    → s'.config ≡ s.config
    → Same s.block_manager s'.block_manager
    → s'.running ≡ s.running
    → s'.waiting ≡ ws
    → Admits s ws s'
stop-Admits s ws s' sound config same running waiting = record {
  sound = sound;
  config = config;
  same = same;
  admitted = [];
  running = running ∙ sym (append-nil s.running);
  waiting = sym waiting;
}

pub Same-refl : (bm : BlockManager) → Same bm bm
Same-refl bm = record { host = refl; config = refl; blocks = refl }

pub Same-trans : {a b c : BlockManager} → Same a b → Same b c → Same a c
Same-trans p q = record {
  host = q.host ∙ p.host;
  config = q.config ∙ p.config;
  blocks = q.blocks ∙ p.blocks;
}

pub count_delay-Admits :
    (s : Scheduler) (ws : List ℕ) (reserve : ℕ) (seq : Sequence) (target : ℕ) (s1 : Scheduler)
    → IsSound s1
    → s1.config ≡ s.config
    → Same s.block_manager s1.block_manager
    → s1.running ≡ s.running
    → s1.waiting ≡ ws
    → Ensures (count_delay reserve seq target s1) (Admits s ws)
unfolding count_delay
count_delay-Admits s ws reserve seq target s1 sound config same running waiting =
    elim (Bool-cases (reserve == 0)) [
      | inl none_kept ↦ rw none_kept (stop-Admits s ws s1 sound config same running waiting)
      | inr kept ↦ rw kept (
          Ensures->>= (can_allocate s1.block_manager seq target 0) _ _ _
            (can_allocate-PurgesExactly s1.block_manager seq (held s1.store (refs s1)) target 0
              sound.valid)
            (λ q done.
              let purged = purged-IsSound s1 q.0 sound done.0.0 done.0.1.same in
              stop-Admits s ws _
                (record {
                  valid = purged.valid;
                  once = purged.once;
                  positive = purged.positive;
                  bounded = purged.bounded;
                  waits = purged.waits;
                  runs = purged.runs;
                  sized = purged.sized;
                })
                config (Same-trans same done.0.1.same) running waiting))
    ]

-- What came before the rest of the loop.
pub from_first :
    (s : Scheduler) (r : ℕ) (rest : List ℕ) (s1 s' : Scheduler)
    → s1.config ≡ s.config
    → Same s.block_manager s1.block_manager
    → s1.running ≡ s.running ++ r ∷ []
    → Admits s1 rest s'
    → Admits s (r ∷ rest) s'
from_first s r rest s1 s' config same running m = record {
  sound = m.sound;
  config = m.config ∙ config;
  same = Same-trans same m.same;
  admitted = r ∷ m.admitted;
  running =
      m.running ∙ ap (λ t. t ++ m.admitted) running ∙ append_assoc s.running (r ∷ []) m.admitted;
  waiting = ap (λ t. r ∷ t) m.waiting;
}

module _ (reserve r : ℕ) (rest : List ℕ) (s : Scheduler) where
  pub admit_loop_full :
      ltb (length s.running) s.max_num_seqs ≡ false
      → admit_loop reserve (r ∷ rest) s ≡ some (queued s (r ∷ rest))
  unfolding admit_loop
  admit_loop_full e = rw (e, admit_loop) refl

  abbrev pub target_of : BlockManager × Sequence → ℕ
  target_of p = admission_target (with_result r p s) ((with_result r p s).store r)

  pub admit_loop_stuck :
      (p : BlockManager × Sequence) (bm : BlockManager)
      → ltb (length s.running) s.max_num_seqs ≡ true
      → match_cached_prefix s.block_manager (s.store r) ≡ some p
      → can_allocate p.0 ((with_result r p s).store r) (target_of p) reserve ≡ some (bm, false)
      → admit_loop reserve (r ∷ rest) s
        ≡ count_delay reserve
            ((with_result r p s).store r)
            (target_of p)
            (queued (with_result r (bm, p.1) s) (r ∷ rest))
  unfolding admit_loop
  admit_loop_stuck p bm e e1 e2 = rw (e, admit_loop) (rw (e1, ◌>>=◌) (rw (e2, ◌>>=◌) refl))

  pub admit_loop_next :
      (p : BlockManager × Sequence) (bm : BlockManager)
      → ltb (length s.running) s.max_num_seqs ≡ true
      → match_cached_prefix s.block_manager (s.store r) ≡ some p
      → can_allocate p.0 ((with_result r p s).store r) (target_of p) reserve ≡ some (bm, true)
      → admit_loop reserve (r ∷ rest) s
        ≡ admit_loop reserve rest (admit r (with_result r (bm, p.1) s))
  unfolding admit_loop
  admit_loop_next p bm e e1 e2 = rw (e, admit_loop) (rw (e1, ◌>>=◌) (rw (e2, ◌>>=◌) refl))
