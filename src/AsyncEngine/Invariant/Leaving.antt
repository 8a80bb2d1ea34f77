-- ===== src/AsyncEngine/Invariant/Leaving.antt =====
-- A request that leaves the queues of `AsyncLLMEngine`, and the invariant
-- (nanovllm/engine/async_engine.py).
use nano_vllm_online_serving.Common.{
  ℕ, ◌+◌, ◌≤◌, ◌<◌, ◌≡◌, sym, ap, ◌∙◌, subst, Bool, true, false, String, arith, ◌==◌, ltb,
  Bool-cases, inl, inr,
}
use nano_vllm_online_serving.Pending.{AsyncRequest}
use nano_vllm_online_serving.AsyncEngine.State.{Channel, AsyncState, AsyncConfig}
use nano_vllm_online_serving.AsyncEngine.Tally.{one, tally, named, refers, str_eq_refl}
use nano_vllm_online_serving.AsyncEngine.Invariant.{
  held, IsOver, Fits, IsBooked, IsServed, IsSound, IsSoundBut,
}
use nano_vllm_online_serving.AsyncEngine.Invariant.Touching.{Touches, Keeps}
use nano_vllm_online_serving.AsyncEngine.Invariant.Ending.{Ends}

-- Everybody keeps to the bound if one object that is touched does.
pub Touches-Fits :
    (x : ℕ) (s s' : AsyncState)
    → Touches x s s'
    → ((q : ℕ) → Fits s.config.output_queue_size (s.channels q).queue)
    → (q : ℕ) → Fits s'.config.output_queue_size (s'.channels q).queue
Touches-Fits x s s' t fits q =
    subst (λ (c : AsyncConfig). Fits c.output_queue_size (s'.channels q).queue) (sym t.config)
      (elim (Bool-cases (x == q)) [
        | inl same ↦ at_x (ground (arith, same))
        | inr other ↦
            subst (λ (c : Channel). Fits s.config.output_queue_size c.queue)
              (sym (t.others q other)) (fits q)
      ])
  where
    at_x : x ≡ q → Fits s.config.output_queue_size (s'.channels q).queue
    at_x e = subst (λ k. Fits s.config.output_queue_size (s'.channels k).queue) e (t.fits (fits x))

pub Keeps-held :
    {x : ℕ} (f : String → ℕ → Bool) (s s' : AsyncState) → Keeps x s s' → held f s' ≡ held f s
Keeps-held f s s' k =
    let p = ap (tally f) k.touches.pending in let a = ap (tally f) k.active in omega (arith, p, a)

-- Calls that keep the queues keep the books.
pub Keeps-IsBooked : {x : ℕ} (s s' : AsyncState) → Keeps x s s' → IsBooked s → IsBooked s'
Keeps-IsBooked s s' k b = record {
  same = λ f. ap (tally f) k.touches.pending ∙ b.same f ∙ sym (ap (tally f) k.pending_by_id);
  ids = λ id. let e = Keeps-held (named id) s s' k in omega (arith, e, b.ids id);
  objects = λ q. let e = Keeps-held (refers q) s s' k in omega (arith, e, b.objects q);
  fresh = λ q h.
      let e = Keeps-held (refers q) s s' k in
      let h1 : s.next_channel ≤ q = rw⁻¹ k.touches.next_channel h in omega (arith, e, b.fresh q h1);
}

pub Keeps-IsServed :
    {x : ℕ} (q : ℕ) (s s' : AsyncState)
    → Keeps x s s'
    → (x == q) ≡ false
    → IsServed s q
    → IsServed s' q
Keeps-IsServed q s s' k other (inl here) =
    let e = Keeps-held (refers q) s s' k in inl (omega (arith, e, here))
Keeps-IsServed q s s' k other (inr over) = inr (subst IsOver (sym (k.touches.others q other)) over)

-- A request that stays in a queue may be sent things.
pub Keeps-IsSound :
    (x : ℕ) (s s' : AsyncState)
    → Keeps x s s'
    → IsSound s
    → (x < s.next_channel → IsServed s' x)
    → IsSound s'
Keeps-IsSound x s s' k sound at_x = record {
  booked = Keeps-IsBooked s s' k sound.booked;
  served = λ q h.
      let h1 : q < s.next_channel = rw (sym k.touches.next_channel) h in
      elim (Bool-cases (x == q)) [
        | inl same ↦ let e : x ≡ q = ground (arith, same) in subst (IsServed s') e (at_x (rw e h1))
        | inr other ↦ Keeps-IsServed q s s' k other (sound.served q h1)
      ];
  fits = Touches-Fits x s s' k.touches sound.fits;
}

-- The request that is dealt with is told: the invariant holds again.
pub told_IsSound :
    (r : AsyncRequest) (s s' : AsyncState)
    → Keeps r.output_queue s s'
    → IsOver (s'.channels r.output_queue)
    → IsSoundBut r s
    → IsSound s'
told_IsSound r s s' k over sound = record {
  booked = Keeps-IsBooked s s' k sound.booked;
  served = λ q h.
      let h1 : q < s.next_channel = rw (sym k.touches.next_channel) h in
      elim (Bool-cases (r.output_queue == q)) [
        | inl same ↦
            let e : r.output_queue ≡ q = ground (arith, same) in
            inr (subst (λ k. IsOver (s'.channels k)) e over)
        | inr other ↦ Keeps-IsServed q s s' k other (sound.served q h1 other)
      ];
  fits = Touches-Fits r.output_queue s s' k.touches sound.fits;
}

pub Ends-Keeps :
    (r : AsyncRequest) (s s' : AsyncState)
    → Ends r s s'
    → IsSoundBut r s
    → Keeps r.output_queue s s'
Ends-Keeps r s s' e sound =
    let same = sound.booked.same (named r.request_id) in
    e.keeps (omega (arith, same, sound.gone)) (omega (arith, sound.gone))

pub Ends-IsSound :
    (r : AsyncRequest) (s s' : AsyncState) → Ends r s s' → IsSoundBut r s → IsSound s'
Ends-IsSound r s s' e sound = told_IsSound r s s' (Ends-Keeps r s s' e sound) e.over sound

-- One request is taken out of the queues, and nothing else happens.
pub record Leaves (r : AsyncRequest) (s s' : AsyncState) : Type 0 where
  pub cuts : (f : String → ℕ → Bool) → held f s ≡ one (f r.request_id r.output_queue) + held f s'
  pub same : (f : String → ℕ → Bool) → tally f s'.pending ≡ tally f s'.pending_by_id
  pub next_channel : s'.next_channel ≡ s.next_channel
  pub channels : s'.channels ≡ s.channels
  pub config : s'.config ≡ s.config

pub Leaves-IsSoundBut :
    (r : AsyncRequest) (s s' : AsyncState) → Leaves r s s' → IsSound s → IsSoundBut r s'
Leaves-IsSoundBut r s s' l sound = record {
  booked = record {
    same = l.same;
    ids = λ id. omega (arith, l.cuts (named id), sound.booked.ids id);
    objects = λ q. omega (arith, l.cuts (refers q), sound.booked.objects q);
    fresh = λ q h.
        let h1 : s.next_channel ≤ q = rw⁻¹ l.next_channel h in
        omega (arith, l.cuts (refers q), sound.booked.fresh q h1);
  };
  served = λ q h other.
      let h1 : q < s.next_channel = rw (sym l.next_channel) h in served q other (sound.served q h1);
  fits = λ q.
      subst (λ (c : AsyncConfig). Fits c.output_queue_size (s'.channels q).queue) (sym l.config)
        (subst (λ (k : ℕ → Channel). Fits s.config.output_queue_size (k q).queue) (sym l.channels)
          (sound.fits q));
  gone =
      let self = str_eq_refl r.request_id in
      let c : held (named r.request_id) s ≡ 1 + held (named r.request_id) s' =
        rw self at (l.cuts (named r.request_id)) in
      omega (arith, c, sound.booked.ids r.request_id);
  gone_object =
      let self : (r.output_queue == r.output_queue) ≡ true = ground arith in
      let c : held (refers r.output_queue) s ≡ 1 + held (refers r.output_queue) s' =
        rw self at (l.cuts (refers r.output_queue)) in
      omega (arith, c, sound.booked.objects r.output_queue);
  made =
      let self : (r.output_queue == r.output_queue) ≡ true = ground arith in
      let c : held (refers r.output_queue) s ≡ 1 + held (refers r.output_queue) s' =
        rw self at (l.cuts (refers r.output_queue)) in
      made (omega (arith, c));
}
  where
    served : (q : ℕ) → (r.output_queue == q) ≡ false → IsServed s q → IsServed s' q
    served q other (inl here) =
        let c : held (refers q) s ≡ 0 + held (refers q) s' = rw other at (l.cuts (refers q)) in
        inl (omega (arith, c, here))
    served q other (inr over) =
        inr (subst (λ (k : ℕ → Channel). IsOver (k q)) (sym l.channels) over)

    made : 0 < held (refers r.output_queue) s → r.output_queue < s'.next_channel
    made some_one = elim (Bool-cases (ltb r.output_queue s'.next_channel)) [
      | inl yes1 ↦ ground (arith, yes1)
      | inr no1 ↦
          let h : s'.next_channel ≤ r.output_queue = ground (arith, no1) in
          let h1 : s.next_channel ≤ r.output_queue = rw⁻¹ l.next_channel h in
          absurd (omega (arith, some_one, sound.booked.fresh r.output_queue h1))
    ]
