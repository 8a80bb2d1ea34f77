-- ===== src/AsyncEngine/Invariant/Submitting.antt =====
-- `add_request` of `AsyncLLMEngine` and the invariant (nanovllm/engine/async_engine.py).
use nano_vllm_online_serving.Common.{
  ℕ, ◌+◌, ◌<◌, ◌≡◌, refl, sym, subst, true, false, String, List, [], ◌∷◌, arith, ◌==◌, str_eq,
  Bool-cases, inl, inr,
}
use nano_vllm_online_serving.Pending.{AsyncRequest}
use nano_vllm_online_serving.AsyncEngine.State.{
  AsyncState, RequestCounters, new_channel, write_channel,
}
use nano_vllm_online_serving.AsyncEngine.Admission.{expire_pending}
use nano_vllm_online_serving.AsyncEngine.Submission.{
  Submission, has_request, count_refusal, check_request, submit, add_request,
}
use nano_vllm_online_serving.AsyncEngine.Validating.{Refusal, request_validation}
use nano_vllm_online_serving.AsyncEngine.Accepting.{Accepts, check_request-Accepts, Checked-cases}
use nano_vllm_online_serving.AsyncEngine.Tally.{
  tally, named, enqueue_pending-Cuts, set_request-Cuts,
}
use nano_vllm_online_serving.AsyncEngine.Invariant.{held, IsServed, IsSound, IsSoundBut}
use nano_vllm_online_serving.AsyncEngine.Invariant.Touching.{
  Keeps, same_Keeps, same_Touches, Keeps-refl,
}
use nano_vllm_online_serving.AsyncEngine.Invariant.Expiry.{expire_pending-IsSound, quiet_IsSound}
use nano_vllm_online_serving.AsyncEngine.Invariant.Entering.{Enters-IsSound}

-- A key that is not in a dictionary names none of its requests.
has_request-none :
    (id : String) (rs : List AsyncRequest) → has_request id rs ≡ false → tally (named id) rs ≡ 0
unfolding has_request
has_request-none id [] h = refl
has_request-none id (r ∷ rs) h = elim (Bool-cases (str_eq r.request_id id)) [
  | inl same ↦ let wrong : true ≡ false = rw same at h in absurd cc
  | inr other ↦ rw other (omega (arith, has_request-none id rs (rw other at h)))
]

-- The new object, before it enters the queues.
abbrev with_object : AsyncRequest → AsyncState → AsyncState
with_object r s =
    let s1 = write_channel r.output_queue new_channel s in
    record s1 {
      next_channel = s1.next_channel + 1;
      counters = record s1.counters { submitted_requests = s1.counters.submitted_requests + 1 };
    }

with_object-IsSoundBut :
    (r : AsyncRequest) (s : AsyncState)
    → IsSound s
    → r.output_queue ≡ s.next_channel
    → held (named r.request_id) s ≡ 0
    → IsSoundBut r (with_object r s)
with_object-IsSoundBut r s sound object new = record {
  booked = record {
    same = sound.booked.same;
    ids = sound.booked.ids;
    objects = sound.booked.objects;
    fresh = λ q h. sound.booked.fresh q (omega (arith, h));
  };
  served = λ q h other.
      let h1 : q < s.next_channel = ground (arith, h, other, object) in
      served q other (sound.served q h1);
  fits = λ q. elim (Bool-cases (r.output_queue == q)) [
    | inl same ↦ rw same (ground arith)
    | inr other ↦ rw other (sound.fits q)
  ];
  gone = new;
  gone_object = sound.booked.fresh r.output_queue (omega (arith, object));
  made = omega (arith, object);
}
  where
    served : (q : ℕ) → (r.output_queue == q) ≡ false → IsServed s q → IsServed (with_object r s) q
    served q other (inl here) = inl here
    served q other (inr over) = inr (rw other over)

pub submit-IsSound :
    (now : ℕ) (a : Submission) (r : AsyncRequest) (s : AsyncState)
    → IsSound s
    → Accepts now a s r
    → IsSound (submit r s)
unfolding submit
submit-IsSound now a r s sound ok =
    let key : (i : String) → a.request_id ≡ i → has_request i s.pending_by_id ≡ false =
      λ i e. subst (λ k. has_request k s.pending_by_id ≡ false) e ok.queue.new_pending in
    let key2 : (i : String) → a.request_id ≡ i → has_request i s.active ≡ false =
      λ i e. subst (λ k. has_request k s.active ≡ false) e ok.queue.new_active in
    let by_id = has_request-none r.request_id s.pending_by_id (key r.request_id (sym ok.id)) in
    let active = has_request-none r.request_id s.active (key2 r.request_id (sym ok.id)) in
    let same = sound.booked.same (named r.request_id) in
    let but = with_object-IsSoundBut r s sound ok.object (omega (arith, by_id, active, same)) in
    let queue = enqueue_pending-Cuts r s.pending in
    let dict = set_request-Cuts r s.pending_by_id by_id in
    Enters-IsSound r (with_object r s) (submit r s)
      (record {
        cuts = λ f. omega (arith, queue f);
        same = λ f. omega (arith, queue f, dict f, sound.booked.same f);
        next_channel = refl;
        channels = refl;
        config = refl;
      })
      but

pub counted_Keeps :
    (s : AsyncState) (c : RequestCounters) → Keeps s.next_channel s (record s { counters = c })
counted_Keeps s c =
    same_Keeps s.next_channel s _ (same_Touches s.next_channel s _ refl refl refl refl) refl refl

pub count_refusal-Keeps :
    (e : Refusal) (s : AsyncState) → Keeps s.next_channel s (count_refusal e s)
unfolding count_refusal
count_refusal-Keeps (request_validation message) s = Keeps-refl s.next_channel s
count_refusal-Keeps _ s = counted_Keeps s _

-- `add_request` keeps the invariant, whether it accepts the request or not.
pub add_request-IsSound :
    (now : ℕ) (a : Submission) (s : AsyncState) → IsSound s → IsSound (add_request now a s).0
unfolding add_request
add_request-IsSound now a s sound =
    let s1 = expire_pending now s in
    let sound1 = expire_pending-IsSound now s sound in
    elim (Checked-cases (check_request now a s1)) [
      | inl (e, refuses) ↦
          rw (refuses, add_request)
            (quiet_IsSound s1 (count_refusal e s1) (count_refusal-Keeps e s1) sound1)
      | inr (r, accepts) ↦
          rw (accepts, add_request)
            (submit-IsSound now a r s1 sound1 (check_request-Accepts now a s1 r accepts))
    ]
