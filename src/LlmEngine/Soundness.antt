-- ===== src/LlmEngine/Soundness.antt =====
-- A step of the engine and its scheduler's invariant (nanovllm/engine/llm_engine.py).
use nano_vllm_online_serving.Common.{
  ℕ, ◌+◌, ◌<◌, ◌≡◌, refl, sym, subst, Bool, true, false, none, some, List, [], ◌∷◌, map, arith,
  length, elem, Ensures, Ensures-value, Option-cases, inl, inr, ◌>>=◌,
}
use nano_vllm_online_serving.Validation.{ℤ, pos, negsuc}
use nano_vllm_online_serving.LlmEngine.{
  LlmEngine, Output, output_of, scheduled_tokens, negated, finish_step, step,
}
use nano_vllm_online_serving.Scheduler.State.{Scheduler}
use nano_vllm_online_serving.Scheduler.Decode.{Decision, prefill, decode, no_schedulable, schedule}
use nano_vllm_online_serving.Scheduler.Postprocess.{Event, postprocess}
use nano_vllm_online_serving.Scheduler.Invariant.{IsSound}
use nano_vllm_online_serving.Scheduler.Invariant.PrefillBatches.{IsPrefillBatch}
use nano_vllm_online_serving.Scheduler.Invariant.Chunking.{Settles}
use nano_vllm_online_serving.Scheduler.Invariant.Scheduling.{schedule-Schedules}
use nano_vllm_online_serving.Scheduler.Invariant.Deciding.{Schedules}
use nano_vllm_online_serving.Scheduler.Invariant.Overtaking.{ScheduleRaises}
use nano_vllm_online_serving.Scheduler.Invariant.Events.{
  PostProcesses, postprocess_prefill, postprocess_decode,
}

-- The number of tokens that a step reports says which kind of step it was.
abbrev pub ReportsTokens : Decision → ℤ → Type 0
ReportsTokens (prefill batch) (pos n) = 0 < n
ReportsTokens (prefill batch) (negsuc n) = ⊥
ReportsTokens (decode batch) (pos n) = ⊥
ReportsTokens (decode batch) (negsuc n) = length batch ≡ n + 1
ReportsTokens no_schedulable n = ⊥

-- A step that returns.
pub record Steps (e : LlmEngine) (q : LlmEngine × List Output × ℤ) : Type 0 where
  pub sound : IsSound q.0.scheduler
  pub scheduled : Scheduler
  pub decision : Decision
  pub decided : schedule e.scheduler ≡ some (scheduled, decision)
  pub tokens : ReportsTokens decision q.2

-- Why a step raises: in `schedule` a match in the prefix cache has overtaken a target, `schedule`
-- finds nothing to schedule, or the model raises on the batch that `schedule` has decided.
pub data StepFails (e : LlmEngine) : Type 0 where
  overtaken : ScheduleRaises e.scheduler → StepFails e
  nothing_fits : (s : Scheduler) → schedule e.scheduler ≡ some (s, no_schedulable) → StepFails e
  prefill_model_raises :
      (s : Scheduler) (seqs : List ℕ)
      → schedule e.scheduler ≡ some (s, prefill seqs)
      → e.backend.run e.model_runs (map s.store seqs) true ≡ none
      → StepFails e
  decode_model_raises :
      (s : Scheduler) (seqs : List ℕ)
      → schedule e.scheduler ≡ some (s, decode seqs)
      → e.backend.run e.model_runs (map s.store seqs) false ≡ none
      → StepFails e

finish_step_raises :
    (seqs : List ℕ) (is_prefill : Bool) (n : ℤ) (s : Scheduler) (e : LlmEngine)
    → e.backend.run e.model_runs (map s.store seqs) is_prefill ≡ none
    → finish_step seqs is_prefill n s e ≡ none
unfolding finish_step
finish_step_raises seqs is_prefill n s e h = rw (h, ◌>>=◌) refl

finish_step_returns :
    (seqs ts : List ℕ) (is_prefill : Bool) (n : ℤ) (s : Scheduler) (e : LlmEngine)
    (p : Scheduler × List Event)
    → e.backend.run e.model_runs (map s.store seqs) is_prefill ≡ some ts
    → postprocess seqs ts is_prefill s ≡ some p
    → finish_step seqs is_prefill n s e
      ≡ some (
        record e { scheduler = p.0; model_runs = e.model_runs + 1 },
        map (output_of e.backend p.0.store) p.1,
        n,
      )
unfolding finish_step
finish_step_returns seqs ts is_prefill n s e p h h1 = rw (h, ◌>>=◌) (rw (h1, ◌>>=◌) refl)

-- The second half of a step, where `postprocess` does what it should.
finish_step-Steps :
    (seqs : List ℕ) (is_prefill : Bool) (n : ℤ) (s : Scheduler) (d : Decision) (e : LlmEngine)
    → schedule e.scheduler ≡ some (s, d)
    → ReportsTokens d n
    → (e.backend.run e.model_runs (map s.store seqs) is_prefill ≡ none → StepFails e)
    → ((ts : List ℕ) → Ensures (postprocess seqs ts is_prefill s) (PostProcesses s seqs))
    → Settles (finish_step seqs is_prefill n s e) (Steps e) (StepFails e)
finish_step-Steps seqs is_prefill n s d e decided reports fails post =
    elim (Option-cases (e.backend.run e.model_runs (map s.store seqs) is_prefill)) [
      | inl raises ↦
          subst (λ o. Settles o (Steps e) (StepFails e))
            (sym (finish_step_raises seqs is_prefill n s e raises)) (fails raises)
      | inr (ts, returns) ↦
          let (p, h, done) =
            Ensures-value (postprocess seqs ts is_prefill s) (PostProcesses s seqs) (post ts) in
          subst (λ o. Settles o (Steps e) (StepFails e))
            (sym (finish_step_returns seqs ts is_prefill n s e p returns h))
            (record {
              sound = done.sound;
              scheduled = s;
              decision = d;
              decided = decided;
              tokens = reports;
            })
    ]

scheduled_positive :
    (s : Scheduler) (seqs : List ℕ)
    → IsPrefillBatch s seqs
    → 0 < length seqs
    → 0 < scheduled_tokens s.store seqs
unfolding scheduled_tokens
scheduled_positive s [] b h = absurd (omega (arith, h))
scheduled_positive s (r ∷ rs) b h =
    let here : elem r (r ∷ rs) ≡ true = ground arith in
    let c = (b.chunks r here).nonempty in omega (arith, c)

negated_reports :
    (batch : List ℕ) → 0 < length batch → ReportsTokens (decode batch) (negated (length batch))
unfolding negated
negated_reports [] h = absurd (omega (arith, h))
negated_reports (r ∷ rs) h = omega arith

step_raises : (e : LlmEngine) → schedule e.scheduler ≡ none → step e ≡ none
unfolding step
step_raises e h = rw (h, ◌>>=◌) refl

step_prefill :
    (e : LlmEngine) (s : Scheduler) (seqs : List ℕ)
    → schedule e.scheduler ≡ some (s, prefill seqs)
    → step e ≡ finish_step seqs true (pos (scheduled_tokens s.store seqs)) s e
unfolding step
step_prefill e s seqs h = rw (h, ◌>>=◌) refl

step_decode :
    (e : LlmEngine) (s : Scheduler) (seqs : List ℕ)
    → schedule e.scheduler ≡ some (s, decode seqs)
    → step e ≡ finish_step seqs false (negated (length seqs)) s e
unfolding step
step_decode e s seqs h = rw (h, ◌>>=◌) refl

step_stuck :
    (e : LlmEngine) (s : Scheduler)
    → schedule e.scheduler ≡ some (s, no_schedulable)
    → step e ≡ none
unfolding step
step_stuck e s h = rw (h, ◌>>=◌) refl

-- A step of an engine with a sound scheduler returns with a sound scheduler, and reports a positive
-- number of tokens after a prefill and minus the number of sequences after a decode; or it raises,
-- because a match in the prefix cache has overtaken the target computed before it, because `schedule`
-- finds nothing to schedule, or because the model raises on the batch that was decided.
pub step-Steps : (e : LlmEngine) → IsSound e.scheduler → Settles (step e) (Steps e) (StepFails e)
step-Steps e sound = elim (Option-cases (schedule e.scheduler)) [
  | inl raises ↦
      subst (λ o. Settles o (Steps e) (StepFails e)) (sym (step_raises e raises))
        (overtaken (
          subst (λ o. Settles o (Schedules e.scheduler) (ScheduleRaises e.scheduler)) raises
            (schedule-Schedules e.scheduler sound)))
  | inr (q, returns) ↦ decided q.0 q.1 returns (
      subst (λ o. Settles o (Schedules e.scheduler) (ScheduleRaises e.scheduler)) returns
        (schedule-Schedules e.scheduler sound))
]
  where
    decided :
        (s : Scheduler) (d : Decision)
        → schedule e.scheduler ≡ some (s, d)
        → Schedules e.scheduler (s, d)
        → Settles (step e) (Steps e) (StepFails e)
    decided s (prefill seqs) h done =
        let (batch, some_one) = done.decision in
        subst (λ o. Settles o (Steps e) (StepFails e)) (sym (step_prefill e s seqs h))
          (finish_step-Steps seqs true _ s (prefill seqs) e h
            (scheduled_positive s seqs batch some_one) (prefill_model_raises s seqs h)
            (λ ts. postprocess_prefill s seqs ts done.sound batch))
    decided s (decode seqs) h done =
        let (batch, some_one) = done.decision in
        subst (λ o. Settles o (Steps e) (StepFails e)) (sym (step_decode e s seqs h))
          (finish_step-Steps seqs false _ s (decode seqs) e h (negated_reports seqs some_one)
            (decode_model_raises s seqs h) (λ ts. postprocess_decode s seqs ts done.sound batch))
    decided s no_schedulable h done =
        subst (λ o. Settles o (Steps e) (StepFails e)) (sym (step_stuck e s h)) (nothing_fits s h)
