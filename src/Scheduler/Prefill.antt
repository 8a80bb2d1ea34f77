-- ===== src/Scheduler/Prefill.antt =====
-- `Scheduler._schedule_prefill` (nanovllm/engine/scheduler.py).
use nano_vllm_online_serving.Common.{
  ℕ, ◌+◌, ◌-◌, Bool, true, false, Option, some, List, [], ◌∷◌, ◌++◌, leb, not, min, ◌||◌, length,
  select, ◌>>=◌,
}
use nano_vllm_online_serving.Sequence.{Sequence, is_prompt_ready, set_prefill_chunk}
use nano_vllm_online_serving.BlockManager.Allocation.{can_allocate}
use nano_vllm_online_serving.BlockManager.Prefix.{prepare_prefill}
use nano_vllm_online_serving.Scheduler.State.{Scheduler, write_seq}
use nano_vllm_online_serving.Scheduler.Policy.{prefill_chunk_budget, prefill_reserve_blocks}
use nano_vllm_online_serving.Scheduler.Queues.{admit_waiting}

-- The batch that is being put together: `scheduled_seqs` and `num_batched_tokens`.
pub record Batch : Type 0 where
  pub scheduled_seqs : List ℕ
  pub num_batched_tokens : ℕ

unfoldable pub remaining_budget : Scheduler → ℕ → Batch → ℕ
remaining_budget s chunk batch = min chunk (s.max_num_batched_tokens - batch.num_batched_tokens)

-- The three tests of the loop that end in `break`.
unfoldable pub is_full : Scheduler → ℕ → Batch → Bool
is_full s chunk batch =
    leb s.max_num_seqs (length batch.scheduled_seqs)
    || leb s.max_num_batched_tokens batch.num_batched_tokens
    || leb (remaining_budget s chunk batch) 0

unfoldable pub prefill_target : Scheduler → ℕ → Batch → Sequence → ℕ
prefill_target s chunk batch seq =
    min seq.prefill_target_tokens (seq.num_computed_tokens + remaining_budget s chunk batch)

-- A candidate for which there is room: the calls at the end of the loop's body.
unfoldable pub schedule_chunk : ℕ → ℕ → Batch → Scheduler → Option (Scheduler × Batch)
schedule_chunk r target batch s = do
  (bm, prepared) ← prepare_prefill s.block_manager (s.store r) target
  seq ← set_prefill_chunk prepared prepared.num_computed_tokens target
  some (
    record s { block_manager = bm; store = write_seq r seq s.store },
    record {
      scheduled_seqs = batch.scheduled_seqs ++ r ∷ [];
      num_batched_tokens = batch.num_batched_tokens + (target - seq.num_computed_tokens);
    },
  )

-- The `for` over the candidates.
unfoldable pub prefill_loop : ℕ → ℕ → List ℕ → Batch → Scheduler → Option (Scheduler × Batch)
prefill_loop chunk reserve [] batch s = some (s, batch)
prefill_loop chunk reserve (r ∷ rs) batch s = elim (is_full s chunk batch) [
  | true ↦ some (s, batch)
  | false ↦
      let target = prefill_target s chunk batch (s.store r) in
      elim (leb target (s.store r).num_computed_tokens) [
        | true ↦ prefill_loop chunk reserve rs batch s
        | false ↦ do
          (bm, fits) ← can_allocate s.block_manager (s.store r) target reserve
          let s1 = record s { block_manager = bm }
          elim fits [
            | false ↦ prefill_loop chunk reserve rs batch s1
            | true ↦ do
              (s2, grown) ← schedule_chunk r target batch s1
              prefill_loop chunk reserve rs grown s2
          ]
      ]
]

abbrev pub empty_batch : Batch
empty_batch = record { scheduled_seqs = []; num_batched_tokens = 0 }

-- `_schedule_prefill()`
unfoldable pub schedule_prefill : Scheduler → Option (Scheduler × Batch)
schedule_prefill s = do
  s1 ← admit_waiting s
  let candidates = select (λ r. not (is_prompt_ready (s1.store r))) s1.running
  prefill_loop (prefill_chunk_budget s1) (prefill_reserve_blocks s1) candidates empty_batch s1
