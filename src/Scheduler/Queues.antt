-- ===== src/Scheduler/Queues.antt =====
-- The calls of `Scheduler` that move sequences between its queues: `add`, `abort`, `preempt` and
-- the admission of waiting sequences (nanovllm/engine/scheduler.py).
use nano_vllm_online_serving.Common.{
  ℕ, ◌+◌, Bool, true, false, String, Option, none, some, List, [], ◌∷◌, ◌++◌, ltb, ◌==◌, min, max,
  if◌then◌else◌, length, discard, put, pop, str_eq, ◌>>=◌,
}
use nano_vllm_online_serving.Sequence.{Sequence, SequenceStatus, finish}
use nano_vllm_online_serving.BlockManager.State.{BlockManager}
use nano_vllm_online_serving.BlockManager.Allocation.{can_allocate, deallocate}
use nano_vllm_online_serving.BlockManager.Prefix.{match_cached_prefix}
use nano_vllm_online_serving.Scheduler.State.{Scheduler, write_seq, with_result}
use nano_vllm_online_serving.Scheduler.Policy.{reorder_waiting, prefill_reserve_blocks}

-- `add(seq)`
unfoldable pub add : ℕ → Scheduler → Scheduler
add r s = record s {
  waiting = s.waiting ++ r ∷ [];
  waiting_ages = put (s.store r).request_id 0 s.waiting_ages;
}

-- The first sequence of a queue with this request id.
unfoldable pub find_request : (ℕ → Sequence) → String → List ℕ → Option ℕ
find_request store request_id [] = none
find_request store request_id (r ∷ rs) =
    if str_eq (store r).request_id request_id then some r else find_request store request_id rs

-- `if seq.block_table: self.block_manager.deallocate(seq)`
unfoldable pub deallocate_if_held : BlockManager → Sequence → Option (BlockManager × Sequence)
deallocate_if_held bm seq = elim seq.block_table [
  | [] ↦ some (bm, seq)
  | b ∷ bs ↦ deallocate bm seq
]

-- What `abort` does with the sequence that it found, once it is out of its queue.
unfoldable pub cancel : ℕ → Scheduler → Option Scheduler
cancel r s = do
  (bm, seq) ← deallocate_if_held s.block_manager (s.store r)
  some (record s {
    block_manager = bm;
    store = write_seq r (finish seq "cancelled") s.store;
    waiting_ages = pop (s.store r).request_id s.waiting_ages;
  })

-- `abort(request_id)`
unfoldable pub abort : String → Scheduler → Option (Scheduler × Bool)
abort request_id s = elim (find_request s.store request_id s.waiting) [
  | some r ↦ cancel r (record s { waiting = discard r s.waiting }) >>= λ s'. some (s', true)
  | none ↦ elim (find_request s.store request_id s.running) [
    | some r ↦ cancel r (record s { running = discard r s.running }) >>= λ s'. some (s', true)
    | none ↦ some (s, false)
  ]
]

-- `preempt(seq)`
unfoldable pub preempt : ℕ → Scheduler → Option Scheduler
preempt r s = do
  let seq = s.store r
  (bm, freed) ←
      deallocate s.block_manager
        (record seq { status = SequenceStatus.waiting; prefill_target_tokens = seq.num_tokens })
  some (record s {
    block_manager = bm;
    store = write_seq r freed s.store;
    running = discard r s.running;
    waiting = r ∷ s.waiting;
    waiting_ages = put seq.request_id 0 s.waiting_ages;
    preemptions = s.preemptions + 1;
  })

-- The first chunk of a sequence that is to be admitted.
unfoldable pub admission_target : Scheduler → Sequence → ℕ
admission_target s seq =
    min seq.prefill_target_tokens
      (max (seq.num_computed_tokens + 1) (min seq.prefill_target_tokens s.max_prefill_chunk_tokens))

-- `reserve_blocks and self.block_manager.can_allocate(seq, target)`, and the count that follows.
unfoldable pub count_delay : ℕ → Sequence → ℕ → Scheduler → Option Scheduler
count_delay reserve seq target s =
    if reserve == 0
    then some s
    else can_allocate s.block_manager seq target 0 >>= λ r. some (record s {
      block_manager = r.0;
      prefill_watermark_delays =
          if r.1 then s.prefill_watermark_delays + 1 else s.prefill_watermark_delays;
    })

-- The first waiting sequence starts to run.
unfoldable pub admit : ℕ → Scheduler → Scheduler
admit r s = record s {
  waiting_ages = pop (s.store r).request_id s.waiting_ages;
  store = write_seq r (record (s.store r) { status = SequenceStatus.running }) s.store;
  running = s.running ++ r ∷ [];
}

-- The `while` of `_admit_waiting`: `waiting` is what is left of the queue.
unfoldable pub admit_loop : ℕ → List ℕ → Scheduler → Option Scheduler
admit_loop reserve [] s = some (record s { waiting = [] })
admit_loop reserve (r ∷ rest) s = elim (ltb (length s.running) s.max_num_seqs) [
  | false ↦ some (record s { waiting = r ∷ rest })
  | true ↦ do
    matched ← match_cached_prefix s.block_manager (s.store r)
    let s1 = with_result r matched s
    let target = admission_target s1 (s1.store r)
    (bm, fits) ← can_allocate s1.block_manager (s1.store r) target reserve
    let s2 = record s1 { block_manager = bm }
    elim fits [
      | false ↦ count_delay reserve (s2.store r) target (record s2 { waiting = r ∷ rest })
      | true ↦ admit_loop reserve rest (admit r s2)
    ]
]

-- `_admit_waiting()`
unfoldable pub admit_waiting : Scheduler → Option Scheduler
admit_waiting s = do s1 ← reorder_waiting s; admit_loop (prefill_reserve_blocks s1) s1.waiting s1
