-- ===== src/Scheduler/Invariant/Events.antt =====
-- `Scheduler.postprocess` of nanovllm/engine/scheduler.py as a whole, on the batches that `schedule`
-- returns.
use nano_vllm_online_serving.Common.{
  ℕ, ◌≤◌, ◌<◌, ◌≡◌, refl, ap, ◌∙◌, Bool, true, false, Option, none, some, List, [], ◌∷◌, arith,
  ◌==◌, if◌then◌else◌, count, elem, elem-count, Ensures, Ensures-value, ◌>>=◌,
}
use nano_vllm_online_serving.Sequence.{Sequence}
use nano_vllm_online_serving.Scheduler.State.{Scheduler}
use nano_vllm_online_serving.Scheduler.Postprocess.{
  Event, after_chunk, after_decode_token, add_event, postprocess,
}
use nano_vllm_online_serving.Scheduler.Invariant.{IsSound}
use nano_vllm_online_serving.Scheduler.Invariant.Batches.{IsCovered, IsDecodeBatch, size-Same}
use nano_vllm_online_serving.Scheduler.Invariant.PrefillBatches.{IsPrefillBatch}
use nano_vllm_online_serving.Scheduler.Invariant.Finishing.{EventFits, Processes}
use nano_vllm_online_serving.Scheduler.Invariant.Postprocessing.{
  after_chunk-Processes, after_decode_token-Processes,
}

-- The tokens that the step has computed for a sequence.
abbrev step_tokens : Bool → Sequence → ℕ
step_tokens is_prefill seq = if is_prefill then seq.scheduled_prefill_end else seq.num_tokens

-- It runs, and its table covers what the step has computed.
abbrev IsStepped : Bool → Scheduler → ℕ → Type 0
IsStepped is_prefill s r =
    (0 < count r s.running)
    × IsCovered s.block_manager.block_size (s.store r) (step_tokens is_prefill (s.store r))

round : Bool → ℕ → ℕ → Scheduler → Option (Scheduler × Option Event)
round is_prefill r t s = if is_prefill then after_chunk r t s else after_decode_token r t s

round-Processes :
    (is_prefill : Bool) (s : Scheduler) (r t : ℕ)
    → IsSound s
    → IsStepped is_prefill s r
    → Ensures (round is_prefill r t s) (Processes s r)
unfolding round
round-Processes true s r t sound h = after_chunk-Processes s r t sound h.0 h.1
round-Processes false s r t sound h = after_decode_token-Processes s r t sound h.0 h.1

-- Every event tells whether its sequence still runs.
abbrev pub AllFit : Scheduler → List Event → Type 0
AllFit s [] = Unit {0}
AllFit s (e ∷ es) =
    ((e.finished ≡ true → count e.seq s.running ≡ 0)
      × (e.finished ≡ false → 0 < count e.seq s.running))
    × AllFit s es

pub record PostProcesses (s : Scheduler) (rs : List ℕ) (q : Scheduler × List Event) : Type 0 where
  pub sound : IsSound q.0
  pub config : q.0.config ≡ s.config
  -- nobody outside the batch is affected
  pub outside : (x : ℕ) → elem x rs ≡ false → q.0.store x ≡ s.store x
  pub running : (x : ℕ) → elem x rs ≡ false → count x q.0.running ≡ count x s.running
  pub events : AllFit q.0 q.1

postprocess_step :
    (is_prefill : Bool) (s : Scheduler) (r t : ℕ) (rs ts : List ℕ) (q : Scheduler × Option Event)
    (q' : Scheduler × List Event)
    → round is_prefill r t s ≡ some q
    → postprocess rs ts is_prefill q.0 ≡ some q'
    → postprocess (r ∷ rs) (t ∷ ts) is_prefill s ≡ some (q'.0, add_event q.1 q'.1)
unfolding postprocess round
postprocess_step is_prefill s r t rs ts q q' e e1 = rw (e, postprocess, ◌>>=◌) (rw (e1, ◌>>=◌) refl)

-- The first event still fits after the rounds that follow.
fits_later :
    (r : ℕ) (rs : List ℕ) (s1 : Scheduler) (o : Option Event) (q : Scheduler × List Event)
    → elem r rs ≡ false
    → EventFits s1 r o
    → PostProcesses s1 rs q
    → AllFit q.0 (add_event o q.1)
unfolding add_event
fits_later r rs s1 none q fresh h p = p.events
fits_later r rs s1 (some e) q fresh h p =
    let still : count e.seq q.0.running ≡ count r s1.running =
      ap (λ x. count x q.0.running) h.0 ∙ p.running r fresh in
    ((λ over. still ∙ h.1 over, λ on. rw still (h.2 on)), p.events)

after_round :
    (s : Scheduler) (r : ℕ) (rs : List ℕ) (q : Scheduler × Option Event)
    (q' : Scheduler × List Event)
    → elem r rs ≡ false
    → Processes s r q
    → PostProcesses q.0 rs q'
    → PostProcesses s (r ∷ rs) (q'.0, add_event q.1 q'.1)
after_round s r rs q q' fresh p n = record {
  sound = n.sound;
  config = n.config ∙ p.config;
  outside = λ x h. n.outside x (away x h) ∙ p.others x (other x h);
  running = λ x h. n.running x (away x h) ∙ p.running x (other x h);
  events = fits_later r rs q.0 q.1 q' fresh p.event n;
}
  where
    other : (x : ℕ) → elem x (r ∷ rs) ≡ false → (r == x) ≡ false
    other x h = ground (arith, h)

    away : (x : ℕ) → elem x (r ∷ rs) ≡ false → elem x rs ≡ false
    away x h = ground (arith, h)

none_done : (s : Scheduler) (rs : List ℕ) → IsSound s → PostProcesses s rs (s, [])
none_done s rs sound = record {
  sound = sound;
  config = refl;
  outside = λ x h. refl;
  running = λ x h. refl;
  events = tt;
}

postprocess-PostProcesses :
    (is_prefill : Bool) (rs ts : List ℕ) (s : Scheduler)
    → IsSound s
    → ((x : ℕ) → count x rs ≤ 1)
    → ((x : ℕ) → elem x rs ≡ true → IsStepped is_prefill s x)
    → Ensures (postprocess rs ts is_prefill s) (PostProcesses s rs)
unfolding postprocess
postprocess-PostProcesses is_prefill [] ts s sound once ready = none_done s [] sound
postprocess-PostProcesses is_prefill (r ∷ rs) [] s sound once ready = none_done s (r ∷ rs) sound
postprocess-PostProcesses is_prefill (r ∷ rs) (t ∷ ts) s sound once ready =
    let fresh : elem r rs ≡ false = ground (arith, once r, elem-count r rs) in
    let (q, e, p) =
      Ensures-value (round is_prefill r t s) _
        (round-Processes is_prefill s r t sound (ready r (ground arith))) in
    let (q', e1, n) = Ensures-value (postprocess rs ts is_prefill q.0) (PostProcesses q.0 rs) (
      postprocess-PostProcesses is_prefill rs ts q.0 p.sound (λ x. ground (arith, once x))
        (λ x h.
          let other : (r == x) ≡ false = ground (arith, once x, h, elem-count x rs) in
          let before = ready x (ground (arith, h)) in
          (rw (p.running x other) before.0, rw (p.others x other, size-Same p.same) before.1))) in
    rw (postprocess_step is_prefill s r t rs ts q q' e e1) (after_round s r rs q q' fresh p n)

-- After a prefill step `postprocess` raises nothing, keeps the scheduler sound, and affects nobody
-- outside the batch; an event says finished exactly where its sequence has left `running`.
pub postprocess_prefill :
    (s : Scheduler) (batch ts : List ℕ)
    → IsSound s
    → IsPrefillBatch s batch
    → Ensures (postprocess batch ts true s) (PostProcesses s batch)
postprocess_prefill s batch ts sound b =
    postprocess-PostProcesses true batch ts s sound b.distinct
      (λ x h. (b.runs x h, (b.chunks x h).covered))

-- After a decode step `postprocess` raises nothing, keeps the scheduler sound, and affects nobody
-- outside the batch; an event says finished exactly where its sequence has left `running`.
pub postprocess_decode :
    (s : Scheduler) (batch ts : List ℕ)
    → IsSound s
    → IsDecodeBatch s batch
    → Ensures (postprocess batch ts false s) (PostProcesses s batch)
postprocess_decode s batch ts sound b =
    postprocess-PostProcesses false batch ts s sound b.distinct (λ x h. (b.runs x h, b.covered x h))
