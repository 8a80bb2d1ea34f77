-- ===== src/AsyncEngine/Invariant/Expiry.antt =====
-- Timeouts keep the invariant (nanovllm/engine/async_engine.py).
use nano_vllm_online_serving.Common.{
  ℕ, ◌+◌, ◌≤◌, ◌<◌, ◌≡◌, refl, sym, ap, subst, Bool, String, List, [], ◌∷◌, arith, Bool-cases, inl,
  inr,
}
use nano_vllm_online_serving.Pending.{AsyncRequest}
use nano_vllm_online_serving.AsyncEngine.State.{
  Channel, AsyncState, queue_timeout, request_timeout, pop_request, remove_request,
}
use nano_vllm_online_serving.AsyncEngine.Channels.{abort_in_engine}
use nano_vllm_online_serving.AsyncEngine.Admission.{
  is_overdue, expire_one_pending, expire_one_active, for_each, expire_pending, expire_active,
}
use nano_vllm_online_serving.AsyncEngine.Tally.{tally, named, is_request, is_request_self, Cuts}
use nano_vllm_online_serving.AsyncEngine.Tally.Removal.{pop_request-Cuts, remove_request-Cuts}
use nano_vllm_online_serving.AsyncEngine.Invariant.{IsOver, IsSound}
use nano_vllm_online_serving.AsyncEngine.Invariant.Touching.{
  Keeps, Keeps-trans, abort_in_engine-Keeps,
}
use nano_vllm_online_serving.AsyncEngine.Invariant.Ending.{timeout_request-Ends}
use nano_vllm_online_serving.AsyncEngine.Invariant.Leaving.{
  Leaves, Leaves-IsSoundBut, told_IsSound, Ends-Keeps, Ends-IsSound, Keeps-IsSound,
}

-- A request leaves the pending queue, and its dictionary.
pub Leaves-pending :
    (r : AsyncRequest) (rest : List AsyncRequest) (s : AsyncState)
    → IsSound s
    → Cuts r s.pending rest
    → Leaves r s
        (record s { pending = rest; pending_by_id = pop_request r.request_id s.pending_by_id })
Leaves-pending r rest s sound cut =
    let b = sound.booked in
    let here : 0 < tally (is_request r) s.pending_by_id =
      let self = is_request_self r in
      let c : tally (is_request r) s.pending ≡ 1 + tally (is_request r) rest =
        rw self at (cut (is_request r)) in
      omega (arith, c, b.same (is_request r)) in
    let by_id =
      pop_request-Cuts r s.pending_by_id here
        (omega (arith, b.same (named r.request_id), b.ids r.request_id)) in
    record {
      cuts = λ f. omega (arith, cut f);
      same = λ f. omega (arith, cut f, by_id f, b.same f);
      next_channel = refl;
      channels = refl;
      config = refl;
    }

-- A request leaves the requests that are served.
pub Leaves-active :
    (r : AsyncRequest) (s : AsyncState)
    → IsSound s
    → 0 < tally (is_request r) s.active
    → Leaves r s (record s { active = pop_request r.request_id s.active })
Leaves-active r s sound here =
    let b = sound.booked in
    let cut = pop_request-Cuts r s.active here (omega (arith, b.ids r.request_id)) in
    record {
      cuts = λ f. omega (arith, cut f);
      same = b.same;
      next_channel = refl;
      channels = refl;
      config = refl;
    }

-- A request that is served is told that it ends, and leaves; `s1` is the state in between.
pub told_active :
    (r : AsyncRequest) (s s1 s2 : AsyncState)
    → IsSound s
    → 0 < tally (is_request r) s.active
    → Keeps r.output_queue s s1
    → IsOver (s1.channels r.output_queue)
    → Keeps r.output_queue (record s1 { active = pop_request r.request_id s1.active }) s2
    → s2.channels ≡ s1.channels
    → IsSound s2
told_active r s s1 s2 sound here k over k1 same =
    let gone = record s { active = pop_request r.request_id s.active } in
    let but = Leaves-IsSoundBut r s gone (Leaves-active r s sound here) sound in
    let t = k.touches in
    let leaving : Keeps r.output_queue gone
        (record s1 { active = pop_request r.request_id s1.active }) =
      record {
        touches = record {
          config = t.config;
          next_channel = t.next_channel;
          pending = t.pending;
          others = t.others;
          fits = t.fits;
        };
        pending_by_id = k.pending_by_id;
        active = ap (pop_request r.request_id) k.active;
      } in
    told_IsSound r gone s2 (Keeps-trans leaving k1)
      (subst (λ (c : ℕ → Channel). IsOver (c r.output_queue)) (sym same) over) but

-- Each request of `rs` has its place in `xs`.
abbrev pub Within : List AsyncRequest → List AsyncRequest → Type 0
Within rs xs = (f : String → ℕ → Bool) → tally f rs ≤ tally f xs

pub Within-head :
    (r : AsyncRequest) (rs xs : List AsyncRequest)
    → Within (r ∷ rs) xs
    → 0 < tally (is_request r) xs
Within-head r rs xs w =
    let self = is_request_self r in
    let c : 1 + tally (is_request r) rs ≤ tally (is_request r) xs = rw self at (w (is_request r)) in
    omega (arith, c)

pub Within-tail : (r : AsyncRequest) (rs xs : List AsyncRequest) → Within (r ∷ rs) xs → Within rs xs
Within-tail r rs xs w f = omega (arith, w f)

pub Within-cut :
    (r : AsyncRequest) (rs xs ys : List AsyncRequest)
    → Within (r ∷ rs) xs
    → Cuts r xs ys
    → Within rs ys
Within-cut r rs xs ys w cut f = omega (arith, w f, cut f)

-- A loop over a copy of a queue, whose body takes out at most the request that it is at.
pub for_each-Within :
    (queue : AsyncState → List AsyncRequest) (step : AsyncRequest → AsyncState → AsyncState)
    (P : AsyncState → Type 0)
    → ((r : AsyncRequest) (rs : List AsyncRequest) (s : AsyncState)
        → P s
        → Within (r ∷ rs) (queue s)
        → P (step r s) × Within rs (queue (step r s)))
    → (rs : List AsyncRequest) (s : AsyncState) → P s
    → Within rs (queue s)
    → P (for_each step rs s)
unfolding for_each
for_each-Within queue step P body [] s p w = p
for_each-Within queue step P body (r ∷ rs) s p w =
    let (p1, w1) = body r rs s p w in for_each-Within queue step P body rs (step r s) p1 w1

-- One pending request is looked at.
expire_one_pending-IsSound :
    (now : ℕ) (r : AsyncRequest) (rs : List AsyncRequest) (s : AsyncState)
    → IsSound s
    → Within (r ∷ rs) s.pending
    → IsSound (expire_one_pending now r s) × Within rs (expire_one_pending now r s).pending
unfolding expire_one_pending
expire_one_pending-IsSound now r rs s sound w =
    elim (Bool-cases (is_overdue now r.queue_timeout_s r)) [
      | inr waits ↦ rw (waits, expire_one_pending) (sound, Within-tail r rs s.pending w)
      | inl overdue ↦
          let cut =
            remove_request-Cuts r s.pending (Within-head r rs s.pending w)
              (omega (arith, sound.booked.objects r.output_queue)) in
          let s1 = record s {
            pending = remove_request r s.pending;
            pending_by_id = pop_request r.request_id s.pending_by_id;
          } in
          let but =
            Leaves-IsSoundBut r s s1 (Leaves-pending r (remove_request r s.pending) s sound cut)
              sound in
          let e = timeout_request-Ends now r queue_timeout s1 in
          rw (overdue, expire_one_pending)
            (
              Ends-IsSound r s1 _ e but,
              λ f.
                  let p = ap (tally f) e.touches.pending in
                  omega (arith, Within-cut r rs s.pending s1.pending w cut f, p),
            )
    ]

-- `_expire_pending` keeps the invariant.
pub expire_pending-IsSound : (now : ℕ) (s : AsyncState) → IsSound s → IsSound (expire_pending now s)
unfolding expire_pending
expire_pending-IsSound now s sound =
    for_each-Within (λ t. t.pending) (expire_one_pending now) IsSound
      (expire_one_pending-IsSound now) s.pending s sound (λ f. omega arith)

-- What touches no object at all keeps the invariant.
pub quiet_IsSound : (s s' : AsyncState) → Keeps s.next_channel s s' → IsSound s → IsSound s'
quiet_IsSound s s' k sound =
    Keeps-IsSound s.next_channel s s' k sound (λ h. absurd (omega (arith, h)))

pub abort_in_engine-IsSound :
    (id : String) (s : AsyncState) → IsSound s → IsSound (abort_in_engine id s)
abort_in_engine-IsSound id s sound =
    quiet_IsSound s (abort_in_engine id s) (abort_in_engine-Keeps s.next_channel id s) sound

-- One request that is served is looked at.
expire_one_active-IsSound :
    (now : ℕ) (r : AsyncRequest) (rs : List AsyncRequest) (s : AsyncState)
    → IsSound s
    → Within (r ∷ rs) s.active
    → IsSound (expire_one_active now r s) × Within rs (expire_one_active now r s).active
unfolding expire_one_active
expire_one_active-IsSound now r rs s sound w =
    elim (Bool-cases (is_overdue now r.request_timeout_s r)) [
      | inr waits ↦ rw (waits, expire_one_active) (sound, Within-tail r rs s.active w)
      | inl overdue ↦
          let s1 = abort_in_engine r.request_id s in
          let k = abort_in_engine-Keeps r.output_queue r.request_id s in
          let sound1 = abort_in_engine-IsSound r.request_id s sound in
          let w1 : Within (r ∷ rs) s1.active =
            λ f. let a = ap (tally f) k.active in omega (arith, w f, a) in
          let here = Within-head r rs s1.active w1 in
          let s2 = record s1 { active = pop_request r.request_id s1.active } in
          let but = Leaves-IsSoundBut r s1 s2 (Leaves-active r s1 sound1 here) sound1 in
          let cut =
            pop_request-Cuts r s1.active here (omega (arith, sound1.booked.ids r.request_id)) in
          let e = timeout_request-Ends now r request_timeout s2 in
          let k2 = Ends-Keeps r s2 _ e but in
          rw (overdue, expire_one_active)
            (
              Ends-IsSound r s2 _ e but,
              λ f.
                  let a = ap (tally f) k2.active in
                  omega (arith, Within-cut r rs s1.active s2.active w1 cut f, a),
            )
    ]

-- `_expire_active` keeps the invariant.
pub expire_active-IsSound : (now : ℕ) (s : AsyncState) → IsSound s → IsSound (expire_active now s)
unfolding expire_active
expire_active-IsSound now s sound =
    for_each-Within (λ t. t.active) (expire_one_active now) IsSound (expire_one_active-IsSound now)
      s.active s sound (λ f. omega arith)
