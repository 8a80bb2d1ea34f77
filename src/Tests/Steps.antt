-- ===== src/Tests/Steps.antt =====
-- Runs of the scheduler (nanovllm/engine/scheduler.py) on a small state.
use nano_vllm_online_serving.Common.{
  ◌≡◌, some, ◌+◌, length, refl, true, false, [], ◌∷◌, arith, Ensures,
}
use nano_vllm_online_serving.Sequence.{is_running}
use nano_vllm_online_serving.Scheduler.State.{Scheduler, new_scheduler, is_idle}
use nano_vllm_online_serving.Scheduler.Policy.{reorder_waiting}
use nano_vllm_online_serving.Scheduler.Ranking.{Reorders, reorder_waiting-Reorders}
use nano_vllm_online_serving.Scheduler.Queues.{abort, preempt, admit_waiting}
use nano_vllm_online_serving.Scheduler.Prefill.{schedule_prefill}
use nano_vllm_online_serving.Scheduler.Decode.{make_room, schedule_decode, schedule}
use nano_vllm_online_serving.Scheduler.Postprocess.{postprocess}
use nano_vllm_online_serving.Scheduler.Invariant.{IsSound}
use nano_vllm_online_serving.Scheduler.Invariant.Queues.{IsNew, Preempts, preempt-Preempts}
use nano_vllm_online_serving.Scheduler.Invariant.Aborting.{AbortAnswers, abort-AbortAnswers}
use nano_vllm_online_serving.Scheduler.Invariant.Room.{Rooms, make_room-Rooms}
use nano_vllm_online_serving.Scheduler.Invariant.Admission.{Admitted, admit_waiting-Admitted}
use nano_vllm_online_serving.Scheduler.Invariant.Batches.{Decodes}
use nano_vllm_online_serving.Scheduler.Invariant.Decoding.{schedule_decode-Decodes}
use nano_vllm_online_serving.Scheduler.Invariant.Chunking.{Settles}
use nano_vllm_online_serving.Scheduler.Invariant.PrefillBatches.{Prefills}
use nano_vllm_online_serving.Scheduler.Invariant.PrefillSteps.{
  schedule_prefill-Prefills, schedule_prefill_uncached,
}
use nano_vllm_online_serving.Scheduler.Invariant.Scheduling.{schedule-Schedules}
use nano_vllm_online_serving.Scheduler.Invariant.Deciding.{Schedules}
use nano_vllm_online_serving.Scheduler.Invariant.Overtaking.{PrefillRaises, ScheduleRaises}
use nano_vllm_online_serving.Scheduler.Invariant.Events.{
  PostProcesses, postprocess_prefill, postprocess_decode,
}
use nano_vllm_online_serving.Scheduler.Purging.{purge_prefix_cache}
use nano_vllm_online_serving.Scheduler.Invariant.PurgeSafety.{purge_prefix_cache-IsSound}
use nano_vllm_online_serving.Scheduler.Invariant.Starting.{new_scheduler-IsSound}
use nano_vllm_online_serving.Tests.Fixtures.{
  toy_host, toy_config, toy_store, running_seq, warm-IsValid, busy, busy-IsSound,
}
use nano_vllm_online_serving.Tests.Batches.{
  chunked, chunked-IsSound, chunked-IsPrefillBatch, busy-IsDecodeBatch, uncached, uncached-IsSound,
}

-- Sequence 1 as it was before it came.
abbrev quiet : Scheduler
quiet = record busy { waiting = []; waiting_ages = [] }

quiet-IsSound : IsSound quiet
unfolding is_running
quiet-IsSound = record {
  valid = warm-IsValid;
  once = λ r. ground arith;
  positive = omega arith;
  bounded = omega arith;
  waits = λ r h. absurd (ground (arith, h));
  runs = λ r h. busy-IsSound.runs r (ground (arith, h));
  sized = λ r h. busy-IsSound.sized r (ground (arith, h));
}

quiet-IsNew : IsNew quiet 1
unfolding is_running
quiet-IsNew = record { absent = refl; empty = refl; idle = refl; sized = omega arith }

schedule-Schedules_example : Settles (schedule busy) (Schedules busy) (ScheduleRaises busy)
schedule-Schedules_example = schedule-Schedules busy busy-IsSound

schedule_decode-Decodes_example : Ensures (schedule_decode busy) (Decodes busy)
schedule_decode-Decodes_example = schedule_decode-Decodes busy busy-IsSound

schedule_prefill-Prefills_example :
    Settles (schedule_prefill busy) (Prefills busy) (PrefillRaises busy)
schedule_prefill-Prefills_example = schedule_prefill-Prefills busy busy-IsSound

schedule_prefill_uncached_example : Ensures (schedule_prefill uncached) (Prefills uncached)
schedule_prefill_uncached_example = schedule_prefill_uncached uncached uncached-IsSound refl

postprocess_prefill_example :
    Ensures (postprocess (0 ∷ []) (9 ∷ []) true chunked) (PostProcesses chunked (0 ∷ []))
postprocess_prefill_example =
    postprocess_prefill chunked (0 ∷ []) (9 ∷ []) chunked-IsSound chunked-IsPrefillBatch

postprocess_decode_example :
    Ensures (postprocess (0 ∷ []) (2 ∷ []) false busy) (PostProcesses busy (0 ∷ []))
postprocess_decode_example =
    postprocess_decode busy (0 ∷ []) (2 ∷ []) busy-IsSound busy-IsDecodeBatch

admit_waiting-Admitted_example : Ensures (admit_waiting busy) (Admitted busy)
admit_waiting-Admitted_example = admit_waiting-Admitted busy busy-IsSound

abort-AbortAnswers_example : Ensures (abort "a" busy) (AbortAnswers busy "a")
abort-AbortAnswers_example = abort-AbortAnswers busy "a" busy-IsSound

preempt-Preempts_example : Ensures (preempt 0 busy) (Preempts busy 0)
preempt-Preempts_example = preempt-Preempts busy 0 busy-IsSound (omega arith)

make_room-Rooms_example : Ensures (make_room 2 0 [] busy) (Rooms busy 0 [])
make_room-Rooms_example = make_room-Rooms 2 0 [] busy busy-IsSound (omega arith) (omega arith) refl

reorder_waiting-Reorders_example : Ensures (reorder_waiting busy) (Reorders busy)
reorder_waiting-Reorders_example = reorder_waiting-Reorders busy (0 ∷ []) warm-IsValid (omega arith)

purge_prefix_cache-IsSound_example :
    Ensures
      (purge_prefix_cache (some "") false busy)
      (λ r. IsSound r.0 × (r.1 + length r.0.block_manager.cached_block_ids ≡ 1))
purge_prefix_cache-IsSound_example = purge_prefix_cache-IsSound (some "") false busy busy-IsSound

new_scheduler-IsSound_example :
    Ensures
      (new_scheduler toy_host toy_config (toy_store running_seq))
      (λ s. IsSound s × (is_idle s ≡ true))
new_scheduler-IsSound_example =
    new_scheduler-IsSound toy_host toy_config (toy_store running_seq) (omega arith) (omega arith)
