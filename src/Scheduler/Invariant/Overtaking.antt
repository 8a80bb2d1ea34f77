-- ===== src/Scheduler/Invariant/Overtaking.antt =====
-- Where `schedule` of nanovllm/engine/scheduler.py raises: a match in the prefix cache overtakes the
-- target of a prefill chunk, and the assertion of `prepare_prefill` fails.
use nano_vllm_online_serving.Common.{
  ℕ, ◌<◌, ◌≤◌, ◌≡◌, ap, ◌∙◌, true, false, not, some, List, [], ◌∷◌, ◌++◌, select,
}
use nano_vllm_online_serving.Sequence.{Sequence, is_prompt_ready}
use nano_vllm_online_serving.BlockManager.State.{BlockManager}
use nano_vllm_online_serving.BlockManager.Allocation.{can_allocate}
use nano_vllm_online_serving.BlockManager.Prefix.{match_cached_prefix}
use nano_vllm_online_serving.BlockManager.Invariant.{Same}
use nano_vllm_online_serving.Scheduler.State.{Scheduler}
use nano_vllm_online_serving.Scheduler.Policy.{
  prefill_chunk_budget, prefill_reserve_blocks, prefers_prefill, age_waiting,
}
use nano_vllm_online_serving.Scheduler.Queues.{admit_waiting}
use nano_vllm_online_serving.Scheduler.Prefill.{
  Batch, empty_batch, is_full, prefill_target, prefill_loop,
}
use nano_vllm_online_serving.Scheduler.Decode.{schedule_decode}

-- After the match in the prefix cache, a sequence has no token left before `target`.
pub record IsPast (bm : BlockManager) (seq : Sequence) (target : ℕ) : Type 0 where
  pub result : BlockManager × Sequence
  pub matched : match_cached_prefix bm seq ≡ some result
  pub after : target ≤ result.1.num_computed_tokens

-- The loop of `_schedule_prefill` over `rs` comes to a candidate `ref`, with `at` and `sofar` after
-- the candidates before it. Of `ref` fewer tokens than its target are computed, and there is room
-- for the target; but the match that follows has no token left before it.
pub record IsOvertaken (chunk reserve : ℕ) (rs : List ℕ) (batch : Batch) (s : Scheduler)
    : Type 0 where
  pub passed : List ℕ
  pub ref : ℕ
  pub rest : List ℕ
  pub split : rs ≡ passed ++ ref ∷ rest
  pub at : Scheduler
  pub sofar : Batch
  pub reached : prefill_loop chunk reserve passed batch s ≡ some (at, sofar)
  pub config : at.block_manager.config ≡ s.block_manager.config
  pub space : is_full at chunk sofar ≡ false
  pub before : (at.store ref).num_computed_tokens < prefill_target at chunk sofar (at.store ref)
  pub manager : BlockManager
  pub same : Same at.block_manager manager
  pub fits :
      can_allocate at.block_manager
        (at.store ref)
        (prefill_target at chunk sofar (at.store ref))
        reserve
      ≡ some (manager, true)
  pub past : IsPast manager (at.store ref) (prefill_target at chunk sofar (at.store ref))

-- From a later round to the one before, which the loop passes with the candidate `r`.
pub overtaken_later :
    (chunk reserve r : ℕ) (rs : List ℕ) (batch batch1 : Batch) (s s1 : Scheduler)
    → Same s.block_manager s1.block_manager
    → ((later : List ℕ)
        → prefill_loop chunk reserve (r ∷ later) batch s
          ≡ prefill_loop chunk reserve later batch1 s1)
    → IsOvertaken chunk reserve rs batch1 s1
    → IsOvertaken chunk reserve (r ∷ rs) batch s
overtaken_later chunk reserve r rs batch batch1 s s1 same goes o = record {
  passed = r ∷ o.passed;
  ref = o.ref;
  rest = o.rest;
  split = ap (λ t. r ∷ t) o.split;
  at = o.at;
  sofar = o.sofar;
  reached = goes o.passed ∙ o.reached;
  config = o.config ∙ same.config;
  space = o.space;
  before = o.before;
  manager = o.manager;
  same = o.same;
  fits = o.fits;
  past = o.past;
}

-- The candidates of `_schedule_prefill`.
abbrev pub candidates : Scheduler → List ℕ
candidates s = select (λ r. not (is_prompt_ready (s.store r))) s.running

-- `_schedule_prefill` raises: its loop, in the state that the admission leaves, comes to a candidate
-- whose match overtakes the target.
pub record PrefillRaises (s : Scheduler) : Type 0 where
  pub admitted : Scheduler
  pub admission : admit_waiting s ≡ some admitted
  pub overtaken :
      IsOvertaken
        (prefill_chunk_budget admitted)
        (prefill_reserve_blocks admitted)
        (candidates admitted)
        empty_batch
        admitted
  pub same : Same s.block_manager admitted.block_manager

-- `schedule` raises: its prefill step does. That step comes first, or after a decode step that
-- schedules nothing.
pub data ScheduleRaises (s : Scheduler) : Type 0 where
  prefill_raises :
      prefers_prefill s.scheduler_fairness (age_waiting s) ≡ true
      → PrefillRaises (age_waiting s)
      → ScheduleRaises s
  later_prefill_raises :
      (s1 : Scheduler)
      → prefers_prefill s.scheduler_fairness (age_waiting s) ≡ false
      → schedule_decode (age_waiting s) ≡ some (s1, [])
      → PrefillRaises s1
      → ScheduleRaises s
