-- ===== src/Scheduler/Invariant.antt =====
-- The invariant of `Scheduler` (nanovllm/engine/scheduler.py): the block tables of the sequences in
-- its two queues are together exactly the references that its block manager counts.
pub mod Starting
pub mod Focus
pub mod Changes
pub mod Queues
pub mod Aborting
pub mod Victims
pub mod Room
pub mod Admitting
pub mod Admission
pub mod Batches
pub mod Overtaking
pub mod Chunking
pub mod PrefillBatches
pub mod PrefillRounds
pub mod Prefilling
pub mod PrefillSteps
pub mod Deciding
pub mod Scheduling
pub mod Raising
pub mod Finishing
pub mod Postprocessing
pub mod Events
pub mod PurgeSafety
pub mod Decoding
use nano_vllm_online_serving.Common.{
  ℕ, ◌≤◌, ◌<◌, ◌≡◌, true, false, List, [], ◌∷◌, ◌++◌, length, count,
}
use nano_vllm_online_serving.Sequence.{Sequence, is_running}
use nano_vllm_online_serving.BlockManager.Invariant.{IsValid}
use nano_vllm_online_serving.Scheduler.State.{Scheduler}

-- The block tables of these sequences, one after the other.
abbrev pub held : (ℕ → Sequence) → List ℕ → List ℕ
held store [] = []
held store (r ∷ rs) = (store r).block_table ++ held store rs

abbrev pub refs : Scheduler → List ℕ
refs s = s.waiting ++ s.running

pub record IsSound (s : Scheduler) : Type 0 where
  -- every block is counted as often as tables name it
  pub valid : IsValid s.block_manager (held s.store (refs s))
  -- a sequence stands in one queue, once
  pub once : (r : ℕ) → count r (refs s) ≤ 1
  pub positive : 0 < s.block_manager.block_size
  pub bounded : length s.running ≤ s.max_num_seqs
  -- the status says which queue
  pub waits : (r : ℕ) → 0 < count r s.waiting → is_running (s.store r) ≡ false
  pub runs : (r : ℕ) → 0 < count r s.running → is_running (s.store r) ≡ true
  pub sized : (r : ℕ) → 0 < count r (refs s) → 0 < (s.store r).num_tokens
