-- ===== src/AsyncEngine/Invariant/Cancelling.antt =====
-- `abort` of `AsyncLLMEngine`, the client's loop and the invariant
-- (nanovllm/engine/async_engine.py).
use nano_vllm_online_serving.Common.{◌<◌, refl, true, String, arith, Option-cases, inl, inr}
use nano_vllm_online_serving.Pending.{AsyncRequest}
use nano_vllm_online_serving.AsyncEngine.State.{
  AsyncState, get_request, pop_request, remove_request, write_channel,
}
use nano_vllm_online_serving.AsyncEngine.Channels.{
  abort_in_engine, set_finished, put_stop, count_cancelled,
}
use nano_vllm_online_serving.AsyncEngine.Aborting.{abort_pending, abort_active, abort}
use nano_vllm_online_serving.AsyncEngine.Tally.{tally, is_request, get_request-named}
use nano_vllm_online_serving.AsyncEngine.Tally.Removal.{remove_request-Cuts}
use nano_vllm_online_serving.AsyncEngine.Invariant.{IsSound}
use nano_vllm_online_serving.AsyncEngine.Invariant.Touching.{
  Keeps-trans, same_Keeps, same_Touches, abort_in_engine-Keeps, set_finished-Keeps, put_stop-Keeps,
  write_channel-Keeps,
}
use nano_vllm_online_serving.AsyncEngine.Invariant.Leaving.{Leaves-IsSoundBut, told_IsSound}
use nano_vllm_online_serving.AsyncEngine.Invariant.Expiry.{Leaves-pending, told_active}

abort_pending-IsSound :
    (r : AsyncRequest) (s : AsyncState)
    → IsSound s
    → 0 < tally (is_request r) s.pending
    → IsSound (abort_pending r s)
unfolding abort_pending set_finished count_cancelled
abort_pending-IsSound r s sound here =
    let cut =
      remove_request-Cuts r s.pending here (omega (arith, sound.booked.objects r.output_queue)) in
    let s1 = record s {
      pending = remove_request r s.pending;
      pending_by_id = pop_request r.request_id s.pending_by_id;
    } in
    let but =
      Leaves-IsSoundBut r s s1 (Leaves-pending r (remove_request r s.pending) s sound cut) sound in
    let c = record (s.channels r.output_queue) { finished = true } in
    let s2 = write_channel r.output_queue c s1 in
    let k = write_channel-Keeps r.output_queue c s1 (λ f. f) in
    let s3 = count_cancelled s2 in
    let k1 =
      same_Keeps r.output_queue s2 s3 (same_Touches r.output_queue s2 s3 refl refl refl refl) refl
        refl in
    let (k2, over) = put_stop-Keeps r s3 in
    told_IsSound r s1 (put_stop r s3) (Keeps-trans (Keeps-trans k k1) k2) over but

abort_active-IsSound :
    (r : AsyncRequest) (s : AsyncState)
    → IsSound s
    → 0 < tally (is_request r) s.active
    → IsSound (abort_active r s)
unfolding abort_active count_cancelled
abort_active-IsSound r s sound here =
    let s1 = set_finished r s in
    let s2 = abort_in_engine r.request_id s1 in
    let (k, over) = put_stop-Keeps r s2 in
    let k1 =
      Keeps-trans
        (Keeps-trans (set_finished-Keeps r s)
          (abort_in_engine-Keeps r.output_queue r.request_id s1))
        k in
    told_active r s (put_stop r s2) (abort_active r s) sound here k1 over
      (same_Keeps r.output_queue _ _ (same_Touches r.output_queue _ _ refl refl refl refl) refl
        refl)
      refl

-- `abort` keeps the invariant.
pub abort-IsSound : (id : String) (s : AsyncState) → IsSound s → IsSound (abort id s).0
unfolding abort
abort-IsSound id s sound = elim (Option-cases (get_request id s.pending_by_id)) [
  | inr (r, waits) ↦
      let (key, found) = get_request-named id s.pending_by_id r waits in
      let same = sound.booked.same (is_request r) in
      simp (waits, abort) (abort_pending-IsSound r s sound (omega (arith, found, same)))
  | inl no_pending ↦ elim (Option-cases (get_request id s.active)) [
    | inr (r, runs) ↦
        let (key, found) = get_request-named id s.active r runs in
        simp (no_pending, runs, abort) (abort_active-IsSound r s sound found)
    | inl nobody ↦ simp (no_pending, nobody, abort) sound
  ]
]
