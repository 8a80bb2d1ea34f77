-- ===== src/AsyncEngine/Invariant/Crashing.antt =====
-- The `except` branch of the loop of `AsyncLLMEngine`, and a whole round, keep the invariant
-- (nanovllm/engine/async_engine.py).
use nano_vllm_online_serving.Common.{
  ℕ, zero, suc, ◌+◌, ◌<◌, ◌≡◌, ◌⊎◌, refl, sym, ap, ◌∙◌, subst, Bool, false, String, none, some,
  List, [], ◌∷◌, ◌++◌, arith, ◌==◌, max, Bool-cases, Option-cases, inl, inr,
}
use nano_vllm_online_serving.Validation.{ℤ, pos, negsuc}
use nano_vllm_online_serving.LlmEngine.{LlmEngine, Failure, raised, Output}
use nano_vllm_online_serving.Pending.{AsyncRequest}
use nano_vllm_online_serving.AsyncEngine.State.{failure, Channel, AsyncState}
use nano_vllm_online_serving.AsyncEngine.Channels.{fail_request}
use nano_vllm_online_serving.AsyncEngine.Admission.{for_each}
use nano_vllm_online_serving.AsyncEngine.Loop.{
  Position, in_outputs, ended, prepare_step, observe_tokens, crash, step_engine, run_step,
  has_no_work, begin_round,
}
use nano_vllm_online_serving.AsyncEngine.Tally.{tally, named, refers, tally-append}
use nano_vllm_online_serving.AsyncEngine.Invariant.{IsOver, Fits, IsServed, IsSound}
use nano_vllm_online_serving.AsyncEngine.Invariant.Touching.{
  Keeps, Keeps-refl, same_Keeps, same_Touches,
}
use nano_vllm_online_serving.AsyncEngine.Invariant.Ending.{Ends, fail_request-Ends}
use nano_vllm_online_serving.AsyncEngine.Invariant.Leaving.{Touches-Fits}
use nano_vllm_online_serving.AsyncEngine.Invariant.Expiry.{
  quiet_IsSound, expire_pending-IsSound, expire_active-IsSound,
}
use nano_vllm_online_serving.AsyncEngine.Invariant.Entering.{drain_pending-IsSound}

-- Until the queues are emptied: the clients of the requests in `rs` are still to be told, and those
-- of all others are.
record IsCrashing (next : ℕ) (waits rs : List AsyncRequest) (s : AsyncState) : Type 0 where
  pub next_channel : s.next_channel ≡ next
  pub pending : s.pending ≡ waits
  pub told : (q : ℕ) → q < next → (0 < tally (refers q) rs) ⊎ IsOver (s.channels q)
  pub fits : (q : ℕ) → Fits s.config.output_queue_size (s.channels q).queue

fail_one :
    (next : ℕ) (waits rs : List AsyncRequest) (r : AsyncRequest) (s s' : AsyncState)
    → Ends r s s'
    → IsCrashing next waits (r ∷ rs) s
    → IsCrashing next waits rs s'
fail_one next waits rs r s s' e c = record {
  next_channel = e.touches.next_channel ∙ c.next_channel;
  pending = e.touches.pending ∙ c.pending;
  told = λ q h. elim (Bool-cases (r.output_queue == q)) [
    | inl same ↦
        let at : r.output_queue ≡ q = ground (arith, same) in
        inr (subst (λ k. IsOver (s'.channels k)) at e.over)
    | inr other ↦ others q other (c.told q h)
  ];
  fits = Touches-Fits r.output_queue s s' e.touches c.fits;
}
  where
    others :
        (q : ℕ)
        → (r.output_queue == q) ≡ false
        → (0 < tally (refers q) (r ∷ rs)) ⊎ IsOver (s.channels q)
        → (0 < tally (refers q) rs) ⊎ IsOver (s'.channels q)
    others q other (inl here) =
        let here1 : 0 < 0 + tally (refers q) rs = rw other at here in inl (omega (arith, here1))
    others q other (inr over) = inr (subst IsOver (sym (e.touches.others q other)) over)

abbrev pub fail : ℕ → Failure → AsyncRequest → AsyncState → AsyncState
fail now e r s = fail_request now r (failure e) "engine_error" s

fail_each :
    (now : ℕ) (e : Failure) (next : ℕ) (waits rs later : List AsyncRequest) (s : AsyncState)
    → IsCrashing next waits (rs ++ later) s
    → IsCrashing next waits later (for_each (fail now e) rs s)
unfolding for_each
fail_each now e next waits [] later s c = c
fail_each now e next waits (r ∷ rs) later s c =
    fail_each now e next waits rs later (fail now e r s) (
      fail_one next waits (rs ++ later) r s (fail now e r s)
        (fail_request-Ends now r (failure e) "engine_error" s) c)

fail_each-idle :
    (now : ℕ) (e : Failure) (rs : List AsyncRequest) (s : AsyncState)
    → s.active ≡ []
    → (for_each (fail now e) rs s).active ≡ []
unfolding for_each
fail_each-idle now e [] s h = h
fail_each-idle now e (r ∷ rs) s h =
    fail_each-idle now e rs (fail now e r s)
      ((fail_request-Ends now r (failure e) "engine_error" s).idle h)

-- When the loop fails, every request that was made is over, and the queues are empty.
pub crash-IsSound :
    (now : ℕ) (e : Failure) (s : AsyncState)
    → IsSound s
    → IsSound (crash now e s)
      × ((q : ℕ) → q < (crash now e s).next_channel → IsOver ((crash now e s).channels q))
      × ((crash now e s).active ≡ [])
      × ((crash now e s).pending ≡ [])
      × ((crash now e s).pending_by_id ≡ [])
unfolding crash
crash-IsSound now e s sound =
    let next = s.next_channel in
    let s1 = record s {
      counters = record s.counters { loop_errors = s.counters.loop_errors + 1 };
      last_engine_error = some e;
      fatal_error = some e;
    } in
    let c1 : IsCrashing next s.pending (s.active ++ s.pending) s1 = record {
      next_channel = refl;
      pending = refl;
      told = λ q h. start q (sound.served q h);
      fits = sound.fits;
    } in
    let s2 = for_each (fail now e) s.active s1 in
    let c2 = fail_each now e next s.pending s.active s.pending s1 c1 in
    let s3 = record s2 { active = [] } in
    let c3 : IsCrashing next s.pending (s3.pending ++ []) s3 = record {
      next_channel = c2.next_channel;
      pending = c2.pending;
      told = λ q h.
          subst (λ rs. (0 < tally (refers q) rs) ⊎ IsOver (s2.channels q))
            (sym (append_nil s3.pending ∙ c2.pending)) (c2.told q h);
      fits = c2.fits;
    } in
    let s4 = for_each (fail now e) s3.pending s3 in
    let c4 = fail_each now e next s.pending s3.pending [] s3 c3 in
    let all_over : (q : ℕ) → q < s4.next_channel → IsOver (s4.channels q) = λ q h.
      let h1 : q < next = rw (sym c4.next_channel) h in finally (s4.channels q) (c4.told q h1) in
    let idle = fail_each-idle now e s3.pending s3 refl in
    let nobody : (f : String → ℕ → Bool) → tally f s4.active ≡ 0 = λ f. ap (tally f) idle in
    (
      record {
        booked = record {
          same = λ f. refl;
          ids = λ id. omega (arith, nobody (named id));
          objects = λ q. omega (arith, nobody (refers q));
          fresh = λ q h. omega (arith, nobody (refers q));
        };
        served = λ q h. inr (all_over q h);
        fits = c4.fits;
      },
      all_over,
      idle,
      refl,
      refl,
    )
  where
    start :
        (q : ℕ)
        → IsServed s q
        → (0 < tally (refers q) (s.active ++ s.pending)) ⊎ IsOver (s.channels q)
    start q (inl here) =
        let both = tally-append (refers q) s.active s.pending in inl (omega (arith, here, both))
    start q (inr over) = inr over

    append_nil : (rs : List AsyncRequest) → rs ++ [] ≡ rs
    append_nil [] = refl
    append_nil (r ∷ rs) = ap (λ t. r ∷ t) (append_nil rs)

    finally : (c : Channel) → (0 < 0) ⊎ IsOver c → IsOver c
    finally c (inl h) = absurd (omega (arith, h))
    finally c (inr over) = over

pub observe_tokens-Keeps :
    (n : ℤ) (elapsed : ℕ) (s : AsyncState) → Keeps s.next_channel s (observe_tokens n elapsed s)
unfolding observe_tokens
observe_tokens-Keeps (pos zero) elapsed s = Keeps-refl s.next_channel s
observe_tokens-Keeps (pos (suc n)) elapsed s =
    same_Keeps s.next_channel s _ (same_Touches s.next_channel s _ refl refl refl refl) refl refl
observe_tokens-Keeps (negsuc n) elapsed s =
    same_Keeps s.next_channel s _ (same_Touches s.next_channel s _ refl refl refl refl) refl refl

pub run_step_raises :
    (now elapsed : ℕ) (s : AsyncState)
    → step_engine s.engine ≡ none
    → run_step now elapsed s ≡ (crash now raised s, ended)
unfolding run_step
run_step_raises now elapsed s e = rw (e, run_step) refl

pub run_step_returns :
    (now elapsed : ℕ) (s : AsyncState) (p : LlmEngine × List Output × ℤ)
    → step_engine s.engine ≡ some p
    → run_step now elapsed s
      ≡ (observe_tokens p.2 (max elapsed 1) (record s { engine = some p.0 }), in_outputs p.1)
unfolding run_step
run_step_returns now elapsed s p e = rw (e, run_step) refl

run_step-IsSound :
    (now elapsed : ℕ) (s : AsyncState) → IsSound s → IsSound (run_step now elapsed s).0
run_step-IsSound now elapsed s sound = elim (Option-cases (step_engine s.engine)) [
  | inl raises ↦
      subst (λ (p : AsyncState × Position). IsSound p.0)
        (sym (run_step_raises now elapsed s raises)) (crash-IsSound now raised s sound).0
  | inr (p, returns) ↦
      let s1 = record s { engine = some p.0 } in
      let k : Keeps s.next_channel s s1 =
        same_Keeps s.next_channel s s1 (same_Touches s.next_channel s s1 refl refl refl refl) refl
          refl in
      subst (λ (p : AsyncState × Position). IsSound p.0)
        (sym (run_step_returns now elapsed s p returns))
        (quiet_IsSound s1 _ (observe_tokens-Keeps p.2 (max elapsed 1) s1)
          (quiet_IsSound s s1 k sound))
]

prepare_step-IsSound : (now : ℕ) (s : AsyncState) → IsSound s → IsSound (prepare_step now s)
unfolding prepare_step
prepare_step-IsSound now s sound =
    expire_active-IsSound now _ (
      drain_pending-IsSound now _
        (expire_active-IsSound now _ (expire_pending-IsSound now s sound)))

-- From the top of the loop to the first output of a step.
pub begin_round-IsSound :
    (now elapsed : ℕ) (s : AsyncState) → IsSound s → IsSound (begin_round now elapsed s).0
unfolding begin_round
begin_round-IsSound now elapsed s sound =
    let s1 = prepare_step now s in
    let sound1 = prepare_step-IsSound now s sound in
    elim (Bool-cases (has_no_work s1.engine)) [
      | inl idle ↦ rw (idle, begin_round) sound1
      | inr busy ↦ rw (busy, begin_round) (run_step-IsSound now elapsed s1 sound1)
    ]
