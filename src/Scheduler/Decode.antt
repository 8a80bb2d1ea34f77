-- ===== src/Scheduler/Decode.antt =====
-- `Scheduler._schedule_decode`, `_select_preemption_victim` and `schedule`
-- (nanovllm/engine/scheduler.py).
use nano_vllm_online_serving.Common.{
  ℕ, zero, suc, ◌+◌, true, false, Option, none, some, List, [], ◌∷◌, ◌++◌, leb, ◌==◌, not, ◌&&◌,
  if◌then◌else◌, length, elem, discard, select, last?, ◌>>=◌,
}
use nano_vllm_online_serving.Sequence.{is_prompt_ready, is_running}
use nano_vllm_online_serving.BlockManager.Allocation.{can_append, may_append}
use nano_vllm_online_serving.Scheduler.State.{Scheduler, with_result}
use nano_vllm_online_serving.Scheduler.Policy.{prefers_prefill, age_waiting}
use nano_vllm_online_serving.Scheduler.Queues.{preempt}
use nano_vllm_online_serving.Scheduler.Prefill.{schedule_prefill}

-- `_select_preemption_victim(exclude, scheduled)`: the last that is eligible.
unfoldable pub select_preemption_victim : ℕ → List ℕ → List ℕ → Option ℕ
select_preemption_victim exclude scheduled running =
    last? (select (λ r. not (r == exclude) && not (elem r scheduled)) running)

-- `while not self.block_manager.can_append(seq)`. Each round but the last takes a sequence out of
-- `running`, so `length running + 1` rounds are enough.
unfoldable pub make_room : ℕ → ℕ → List ℕ → Scheduler → Option Scheduler
make_room zero r scheduled s = none
make_room (suc fuel) r scheduled s = do
  (bm, fits) ← can_append s.block_manager (s.store r)
  let s1 = record s { block_manager = bm }
  elim fits [
    | true ↦ some s1
    | false ↦ elim (select_preemption_victim r scheduled s1.running) [
      | none ↦ preempt r s1
      | some victim ↦ preempt victim s1 >>= λ s2. make_room fuel r scheduled s2
    ]
  ]

-- The first `for` of `_schedule_decode`, over a copy of `running`.
unfoldable pub decode_loop : List ℕ → List ℕ → Scheduler → Option (Scheduler × List ℕ)
decode_loop [] scheduled s = some (s, scheduled)
decode_loop (r ∷ rs) scheduled s = elim (leb s.max_num_seqs (length scheduled)) [
  | true ↦ some (s, scheduled)
  | false ↦ elim (is_prompt_ready (s.store r)) [
    | false ↦ decode_loop rs scheduled s
    | true ↦ do
      s1 ← make_room (length s.running + 1) r scheduled s
      elim (is_running (s1.store r) && is_prompt_ready (s1.store r)) [
        | false ↦ decode_loop rs scheduled s1
        | true ↦ do
          appended ← may_append s1.block_manager (s1.store r)
          decode_loop rs (scheduled ++ r ∷ []) (with_result r appended s1)
      ]
  ]
]

-- The second `for`: what was scheduled goes to the end of `running`.
unfoldable pub rotate : List ℕ → List ℕ → List ℕ
rotate [] running = running
rotate (r ∷ rs) running =
    rotate rs (if elem r running then discard r running ++ r ∷ [] else running)

-- `_schedule_decode()`
unfoldable pub schedule_decode : Scheduler → Option (Scheduler × List ℕ)
schedule_decode s = do
  (s1, scheduled) ← decode_loop s.running [] s
  some (record s1 { running = rotate scheduled s1.running }, scheduled)

-- What `schedule` returns, or its `RuntimeError`.
pub data Decision : Type 0 where
  prefill decode : List ℕ → Decision
  no_schedulable : Decision

abbrev pub after_prefill : Scheduler → Scheduler
after_prefill s = record s { last_step_was_prefill = true; prefill_steps = s.prefill_steps + 1 }

abbrev pub after_decode : Scheduler → Scheduler
after_decode s = record s { last_step_was_prefill = false; decode_steps = s.decode_steps + 1 }

-- A step of one kind, and the other when it schedules nothing.
unfoldable pub try_prefill :
    (Scheduler → Option (Scheduler × Decision)) → Scheduler → Option (Scheduler × Decision)
try_prefill otherwise s = do
  (s1, batch) ← schedule_prefill s
  elim batch.scheduled_seqs [
    | [] ↦ otherwise s1
    | r ∷ rs ↦ some (after_prefill s1, prefill (r ∷ rs))
  ]

unfoldable pub try_decode :
    (Scheduler → Option (Scheduler × Decision)) → Scheduler → Option (Scheduler × Decision)
try_decode otherwise s = do
  (s1, scheduled) ← schedule_decode s
  elim scheduled [ [] ↦ otherwise s1 | r ∷ rs ↦ some (after_decode s1, decode (r ∷ rs)) ]

abbrev pub give_up : Scheduler → Option (Scheduler × Decision)
give_up s = some (s, no_schedulable)

-- `schedule()`
unfoldable pub schedule : Scheduler → Option (Scheduler × Decision)
schedule s =
    let aged = age_waiting s in
    elim (prefers_prefill aged.scheduler_fairness aged) [
      | true ↦ try_prefill (try_decode give_up) aged
      | false ↦ try_decode (try_prefill give_up) aged
    ]
