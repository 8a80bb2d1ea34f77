-- ===== src/AsyncEngine/Invariant/Entering.antt =====
-- A request that enters a queue of `AsyncLLMEngine`, and the invariant: the move into the engine
-- (nanovllm/engine/async_engine.py).
use nano_vllm_online_serving.Common.{
  ℕ, zero, suc, ◌+◌, ◌≤◌, ◌<◌, ◌≡◌, ◌⊎◌, refl, sym, subst, Bool, true, false, none, some, String,
  List, arith, ◌==◌, Bool-cases, Option-cases, inl, inr, length, str_eq,
}
use nano_vllm_online_serving.LlmEngine.{LlmEngine, Failure, Added, added, not_added}
use nano_vllm_online_serving.Pending.{AsyncRequest, within}
use nano_vllm_online_serving.AsyncEngine.State.{
  Channel, AsyncState, AsyncConfig, failure, pop_request, set_request,
}
use nano_vllm_online_serving.AsyncEngine.Channels.{put_stop, fail_request}
use nano_vllm_online_serving.AsyncEngine.Admission.{
  record_queue_wait, call_engine, hand_over, admit_request, next_admissible, drain_rounds,
  drain_pending, expire_pending,
}
use nano_vllm_online_serving.AsyncEngine.Tally.{
  one, tally, named, refers, Cuts, set_request-Cuts, str_eq_sound,
}
use nano_vllm_online_serving.AsyncEngine.Tally.Removal.{pop_next_admissible-Cuts}
use nano_vllm_online_serving.AsyncEngine.Invariant.{
  held, IsOver, Fits, IsServed, IsSound, IsSoundBut,
}
use nano_vllm_online_serving.AsyncEngine.Invariant.Touching.{
  Keeps, same_Keeps, same_Touches, put_stop-Keeps,
}
use nano_vllm_online_serving.AsyncEngine.Invariant.Ending.{fail_request-Ends}
use nano_vllm_online_serving.AsyncEngine.Invariant.Leaving.{
  Leaves-IsSoundBut, Ends-IsSound, Keeps-IsBooked, Keeps-held, Keeps-IsServed, Touches-Fits,
  told_IsSound,
}
use nano_vllm_online_serving.AsyncEngine.Invariant.Expiry.{Leaves-pending, expire_pending-IsSound}

-- One request is put into a queue, and nothing else happens.
pub record Enters (r : AsyncRequest) (s s' : AsyncState) : Type 0 where
  pub cuts : (f : String → ℕ → Bool) → held f s' ≡ one (f r.request_id r.output_queue) + held f s
  pub same : (f : String → ℕ → Bool) → tally f s'.pending ≡ tally f s'.pending_by_id
  pub next_channel : s'.next_channel ≡ s.next_channel
  pub channels : s'.channels ≡ s.channels
  pub config : s'.config ≡ s.config

one_le : (b : Bool) → one b ≤ 1
one_le true = omega arith
one_le false = omega arith

pub Enters-IsSound :
    (r : AsyncRequest) (s s' : AsyncState) → Enters r s s' → IsSoundBut r s → IsSound s'
Enters-IsSound r s s' n sound = record {
  booked = record {
    same = n.same;
    ids = λ id. elim (Bool-cases (str_eq r.request_id id)) [
      | inl same ↦
          let e = str_eq_sound r.request_id id same in
          let gone = subst (λ i. held (named i) s ≡ 0) e sound.gone in
          omega (arith, n.cuts (named id), gone, one_le (str_eq r.request_id id))
      | inr other ↦
          let c : held (named id) s' ≡ 0 + held (named id) s = rw other at (n.cuts (named id)) in
          omega (arith, c, sound.booked.ids id)
    ];
    objects = λ q. elim (Bool-cases (r.output_queue == q)) [
      | inl same ↦
          let e : r.output_queue ≡ q = ground (arith, same) in
          let gone = subst (λ k. held (refers k) s ≡ 0) e sound.gone_object in
          omega (arith, n.cuts (refers q), gone, one_le (r.output_queue == q))
      | inr other ↦
          let c : held (refers q) s' ≡ 0 + held (refers q) s = rw other at (n.cuts (refers q)) in
          omega (arith, c, sound.booked.objects q)
    ];
    fresh = λ q h.
        let h1 : s.next_channel ≤ q = rw⁻¹ n.next_channel h in
        let other : (r.output_queue == q) ≡ false = ground (arith, sound.made, h1) in
        let c : held (refers q) s' ≡ 0 + held (refers q) s = rw other at (n.cuts (refers q)) in
        omega (arith, c, sound.booked.fresh q h1);
  };
  served = λ q h. elim (Bool-cases (r.output_queue == q)) [
    | inl same ↦
        let c : held (refers q) s' ≡ 1 + held (refers q) s = rw same at (n.cuts (refers q)) in
        inl (omega (arith, c))
    | inr other ↦
        let h1 : q < s.next_channel = rw (sym n.next_channel) h in
        let c : held (refers q) s' ≡ 0 + held (refers q) s = rw other at (n.cuts (refers q)) in
        moved q c (sound.served q h1 other)
  ];
  fits = λ q.
      subst (λ (c : AsyncConfig). Fits c.output_queue_size (s'.channels q).queue) (sym n.config)
        (subst (λ (k : ℕ → Channel). Fits s.config.output_queue_size (k q).queue) (sym n.channels)
          (sound.fits q));
}
  where
    moved : (q : ℕ) → held (refers q) s' ≡ 0 + held (refers q) s → IsServed s q → IsServed s' q
    moved q c (inl here) = inl (omega (arith, c, here))
    moved q c (inr over) = inr (subst (λ (k : ℕ → Channel). IsOver (k q)) (sym n.channels) over)

-- What happens to other things than the queues.
pub Keeps-IsSoundBut :
    (r : AsyncRequest) (s s' : AsyncState)
    → Keeps r.output_queue s s'
    → IsSoundBut r s
    → IsSoundBut r s'
Keeps-IsSoundBut r s s' k sound = record {
  booked = Keeps-IsBooked s s' k sound.booked;
  served = λ q h other.
      let h1 : q < s.next_channel = rw (sym k.touches.next_channel) h in
      Keeps-IsServed q s s' k other (sound.served q h1 other);
  fits = Touches-Fits r.output_queue s s' k.touches sound.fits;
  gone = let e = Keeps-held (named r.request_id) s s' k in omega (arith, e, sound.gone);
  gone_object =
      let e = Keeps-held (refers r.output_queue) s s' k in omega (arith, e, sound.gone_object);
  made = rw k.touches.next_channel sound.made;
}

pub hand_over_fails :
    (now : ℕ) (r : AsyncRequest) (s : AsyncState) (e : Failure)
    → call_engine r s.engine ≡ not_added e
    → hand_over now r s ≡ fail_request now r (failure e) "request_validation" s
unfolding hand_over
hand_over_fails now r s e h = rw (h, hand_over) refl

pub hand_over_adds :
    (now : ℕ) (r : AsyncRequest) (s : AsyncState) (e : LlmEngine)
    → call_engine r s.engine ≡ added e
    → hand_over now r s ≡ record s { engine = some e; active = set_request r s.active }
unfolding hand_over
hand_over_adds now r s e h = rw (h, hand_over) refl

pub Added-cases :
    (a : Added) → ((e : Failure) × (a ≡ not_added e)) ⊎ ((e : LlmEngine) × (a ≡ added e))
Added-cases (not_added e) = inl (e, refl)
Added-cases (added e) = inr (e, refl)

hand_over-IsSound :
    (now : ℕ) (r : AsyncRequest) (s : AsyncState) → IsSoundBut r s → IsSound (hand_over now r s)
hand_over-IsSound now r s but = elim (Added-cases (call_engine r s.engine)) [
  | inl (e, fails) ↦
      subst IsSound (sym (hand_over_fails now r s e fails))
        (Ends-IsSound r s _ (fail_request-Ends now r (failure e) "request_validation" s) but)
  | inr (e, adds) ↦
      let cut = set_request-Cuts r s.active (omega (arith, but.gone)) in
      subst IsSound (sym (hand_over_adds now r s e adds)) (
        Enters-IsSound r s (record s { engine = some e; active = set_request r s.active })
          (record {
            cuts = λ f. omega (arith, cut f);
            same = but.booked.same;
            next_channel = refl;
            channels = refl;
            config = refl;
          })
          but)
]

pub record_queue_wait-Keeps :
    (now : ℕ) (r : AsyncRequest) (s : AsyncState)
    → Keeps r.output_queue s (record_queue_wait now r s)
unfolding record_queue_wait
record_queue_wait-Keeps now r s =
    same_Keeps r.output_queue s _ (same_Touches r.output_queue s _ refl refl refl refl) refl refl

admit_request-IsSound :
    (now : ℕ) (r : AsyncRequest) (rest : List AsyncRequest) (s : AsyncState)
    → IsSound s
    → Cuts r s.pending rest
    → IsSound (admit_request now r rest s)
unfolding admit_request
admit_request-IsSound now r rest s sound cut =
    let s1 = record s {
      pending = rest;
      pending_by_id = pop_request r.request_id s.pending_by_id;
    } in
    let but = Leaves-IsSoundBut r s s1 (Leaves-pending r rest s sound cut) sound in
    elim (Bool-cases r.cancelled) [
      | inl cancelled ↦
          let (k, over) = put_stop-Keeps r s1 in
          simp (cancelled, admit_request) (told_IsSound r s1 (put_stop r s1) k over but)
      | inr wanted ↦
          simp (wanted, admit_request)
            (hand_over-IsSound now r (record_queue_wait now r s1) (
              Keeps-IsSoundBut r s1 (record_queue_wait now r s1) (record_queue_wait-Keeps now r s1)
                but))
    ]

pub next_admissible-Cuts :
    (s : AsyncState) (r : AsyncRequest) (rest : List AsyncRequest)
    → next_admissible s ≡ some (r, rest)
    → Cuts r s.pending rest
unfolding next_admissible
next_admissible-Cuts s r rest e =
    elim (Bool-cases (within s.config.limits.max_active_requests (length s.active + 1))) [
      | inl room ↦
          pop_next_admissible-Cuts s.config.limits s.active s.pending rest r
            (rw (room, next_admissible) at e)
      | inr full ↦ absurd (none_some (r, rest) (rw (full, next_admissible) at e))
    ]
  where
    none_some : (p : AsyncRequest × List AsyncRequest) → none ≡ some p → ⊥
    none_some p h = cc

drain_rounds-IsSound :
    (fuel now : ℕ) (s : AsyncState) → IsSound s → IsSound (drain_rounds fuel now s)
unfolding drain_rounds
drain_rounds-IsSound zero now s sound = sound
drain_rounds-IsSound (suc fuel) now s sound =
    let s1 = expire_pending now s in
    let sound1 = expire_pending-IsSound now s sound in
    elim (Option-cases (next_admissible s1)) [
      | inl nobody ↦ rw (nobody, drain_rounds) sound1
      | inr ((r, rest), e) ↦
          rw (e, drain_rounds)
            (drain_rounds-IsSound fuel now (admit_request now r rest s1)
              (admit_request-IsSound now r rest s1 sound1 (next_admissible-Cuts s1 r rest e)))
    ]

-- `_drain_pending` keeps the invariant.
pub drain_pending-IsSound : (now : ℕ) (s : AsyncState) → IsSound s → IsSound (drain_pending now s)
unfolding drain_pending
drain_pending-IsSound now s sound = drain_rounds-IsSound (length s.pending + 1) now s sound
