-- ===== src/Scheduler/Invariant/Deciding.antt =====
-- What `schedule` of nanovllm/engine/scheduler.py decides.
use nano_vllm_online_serving.Common.{
  TextDict, ℕ, ◌+◌, ◌<◌, ◌≡◌, ◌∙◌, Bool, true, false, Option, List, ◌∷◌, arith, length,
}
use nano_vllm_online_serving.BlockManager.Invariant.{Same}
use nano_vllm_online_serving.Scheduler.State.{Scheduler}
use nano_vllm_online_serving.Scheduler.Decode.{
  Decision, prefill, decode, no_schedulable, after_prefill, after_decode,
}
use nano_vllm_online_serving.Scheduler.Invariant.{IsSound}
use nano_vllm_online_serving.Scheduler.Invariant.Admitting.{Same-trans}
use nano_vllm_online_serving.Scheduler.Invariant.Chunking.{Settles}
use nano_vllm_online_serving.Scheduler.Invariant.PrefillBatches.{IsPrefillBatch}
use nano_vllm_online_serving.Scheduler.Invariant.PrefillRounds.{Settles-mono}
use nano_vllm_online_serving.Scheduler.Invariant.Batches.{IsDecodeBatch, Decodes}

-- What `schedule` may decide.
abbrev pub IsDecision : Scheduler → Decision → Type 0
IsDecision s (prefill batch) = IsPrefillBatch s batch × (0 < length batch)
IsDecision s (decode batch) = IsDecodeBatch s batch × (0 < length batch)
IsDecision s no_schedulable = Unit {0}

pub record Schedules (s : Scheduler) (q : Scheduler × Decision) : Type 0 where
  pub sound : IsSound q.0
  pub config : q.0.config ≡ s.config
  pub same : Same s.block_manager q.0.block_manager
  pub decision : IsDecision q.0 q.1

-- The books about steps and ages play no part in the invariant.
pub marked-IsSound :
    (s : Scheduler) (last : Bool) (p d : ℕ) (ages : TextDict ℕ)
    → IsSound s
    → IsSound (record s {
      last_step_was_prefill = last;
      prefill_steps = p;
      decode_steps = d;
      waiting_ages = ages;
    })
marked-IsSound s last p d ages sound = record {
  valid = sound.valid;
  once = sound.once;
  positive = sound.positive;
  bounded = sound.bounded;
  waits = sound.waits;
  runs = sound.runs;
  sized = sound.sized;
}

pub later_Schedules :
    (s s1 : Scheduler) (q : Scheduler × Decision)
    → s1.config ≡ s.config
    → Same s.block_manager s1.block_manager
    → Schedules s1 q
    → Schedules s q
later_Schedules s s1 q config same d = record {
  sound = d.sound;
  config = d.config ∙ config;
  same = Same-trans same d.same;
  decision = d.decision;
}

pub later_Settles :
    (s s1 : Scheduler) (m : Option (Scheduler × Decision))
    → s1.config ≡ s.config
    → Same s.block_manager s1.block_manager
    → (E F : Type 0) → (E → F)
    → Settles m (Schedules s1) E
    → Settles m (Schedules s) F
later_Settles s s1 m config same E F why h =
    Settles-mono m _ _ _ _ (λ q d. later_Schedules s s1 q config same d) why h

pub prefilled :
    (s s1 : Scheduler) (r : ℕ) (rs : List ℕ)
    → IsSound s1
    → s1.config ≡ s.config
    → Same s.block_manager s1.block_manager
    → IsPrefillBatch s1 (r ∷ rs)
    → Schedules s (after_prefill s1, prefill (r ∷ rs))
prefilled s s1 r rs sound config same b = record {
  sound = marked-IsSound s1 true (s1.prefill_steps + 1) s1.decode_steps s1.waiting_ages sound;
  config = config;
  same = same;
  decision = (
    record {
      small = b.small;
      budget = b.budget;
      distinct = b.distinct;
      runs = b.runs;
      chunks = b.chunks;
    },
    omega arith,
  );
}

pub decoded :
    (s s1 : Scheduler) (r : ℕ) (rs : List ℕ)
    → Decodes s (s1, r ∷ rs)
    → Schedules s (after_decode s1, decode (r ∷ rs))
decoded s s1 r rs d = record {
  sound = marked-IsSound s1 false s1.prefill_steps (s1.decode_steps + 1) s1.waiting_ages d.sound;
  config = d.config;
  same = d.same;
  decision = (
    record {
      small = d.batch.small;
      distinct = d.batch.distinct;
      runs = d.batch.runs;
      ready = d.batch.ready;
      covered = d.batch.covered;
    },
    omega arith,
  );
}
