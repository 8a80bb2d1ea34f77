-- ===== src/Scheduler/Invariant/Scheduling.antt =====
-- `schedule` of nanovllm/engine/scheduler.py as a whole.
use nano_vllm_online_serving.Common.{
  ℕ, ◌≡◌, refl, true, false, Option, some, List, [], ◌∷◌, Bool-cases, inl, inr, Ensures-value,
  ◌>>=◌,
}
use nano_vllm_online_serving.Scheduler.State.{Scheduler}
use nano_vllm_online_serving.Scheduler.Policy.{prefers_prefill, age_waiting}
use nano_vllm_online_serving.Scheduler.Prefill.{Batch, schedule_prefill}
use nano_vllm_online_serving.Scheduler.Decode.{
  schedule_decode, schedule, try_prefill, try_decode, give_up, Decision, prefill, decode,
  after_prefill, after_decode,
}
use nano_vllm_online_serving.Scheduler.Invariant.{IsSound}
use nano_vllm_online_serving.Scheduler.Invariant.Admitting.{Same-refl}
use nano_vllm_online_serving.Scheduler.Invariant.Chunking.{Settles}
use nano_vllm_online_serving.Scheduler.Invariant.PrefillBatches.{Prefills}
use nano_vllm_online_serving.Scheduler.Invariant.PrefillRounds.{Settles-cases}
use nano_vllm_online_serving.Scheduler.Invariant.Batches.{Decodes}
use nano_vllm_online_serving.Scheduler.Invariant.Decoding.{schedule_decode-Decodes}
use nano_vllm_online_serving.Scheduler.Invariant.PrefillSteps.{schedule_prefill-Prefills}
use nano_vllm_online_serving.Scheduler.Invariant.Overtaking.{
  PrefillRaises, ScheduleRaises, prefill_raises, later_prefill_raises,
}
use nano_vllm_online_serving.Scheduler.Invariant.Deciding.{
  Schedules, marked-IsSound, later_Settles, prefilled, decoded,
}

-- A step of one kind raises, or it schedules nothing and the other kind raises.
data PrefillFirst (F : Scheduler → Type 0) (s : Scheduler) : Type 0 where
  at_once : PrefillRaises s → PrefillFirst F s
  afterwards :
      (s1 : Scheduler) (batch : Batch)
      → schedule_prefill s ≡ some (s1, batch)
      → F s1
      → PrefillFirst F s

record DecodeFirst (F : Scheduler → Type 0) (s : Scheduler) : Type 0 where
  left : Scheduler
  went : schedule_decode s ≡ some (left, [])
  why : F left

-- What a step of one kind leaves to the other; `F` says when it raises.
abbrev Goes : (Scheduler → Option (Scheduler × Decision)) → (Scheduler → Type 0) → Type 0
Goes step F = (s : Scheduler) → IsSound s → Settles (step s) (Schedules s) (F s)

abbrev Never : Scheduler → Type 0
Never s = ⊥

try_prefill-Goes :
    (otherwise : Scheduler → Option (Scheduler × Decision)) (F : Scheduler → Type 0)
    → Goes otherwise F
    → Goes (try_prefill otherwise) (PrefillFirst F)
unfolding try_prefill
try_prefill-Goes otherwise F goes s sound =
    elim (Settles-cases (schedule_prefill s) _ _ (schedule_prefill-Prefills s sound)) [
      | inl (raised, why) ↦ rw (raised, ◌>>=◌) (at_once why)
      | inr (q, e, p) ↦ rw (e, ◌>>=◌) (by_batch q.1.scheduled_seqs q refl e p)
    ]
  where
    by_batch :
        (batch : List ℕ) (q : Scheduler × Batch)
        → q.1.scheduled_seqs ≡ batch
        → schedule_prefill s ≡ some q
        → Prefills s q
        → Settles
            (elim q.1.scheduled_seqs [
              | [] ↦ otherwise q.0
              | r ∷ rs ↦ some (after_prefill q.0, prefill (r ∷ rs))
            ])
            (Schedules s)
            (PrefillFirst F s)
    by_batch [] q e went p = rw e (
        later_Settles s q.0 (otherwise q.0) p.config p.same _ _ (λ f. afterwards q.0 q.1 went f)
          (goes q.0 p.sound))
    by_batch (r ∷ rs) q e went p =
        rw e (prefilled s q.0 r rs p.sound p.config p.same (rw e at p.batch))

try_decode-Goes :
    (otherwise : Scheduler → Option (Scheduler × Decision)) (F : Scheduler → Type 0)
    → Goes otherwise F
    → Goes (try_decode otherwise) (DecodeFirst F)
unfolding try_decode
try_decode-Goes otherwise F goes s sound =
    let (q, e, d) =
      Ensures-value (schedule_decode s) (Decodes s) (schedule_decode-Decodes s sound) in
    rw (e, ◌>>=◌) (by_batch q.1 q.0 e d)
  where
    by_batch :
        (batch : List ℕ) (s1 : Scheduler)
        → schedule_decode s ≡ some (s1, batch)
        → Decodes s (s1, batch)
        → Settles
            (elim batch [ [] ↦ otherwise s1 | r ∷ rs ↦ some (after_decode s1, decode (r ∷ rs)) ])
            (Schedules s)
            (DecodeFirst F s)
    by_batch [] s1 went d =
        later_Settles s s1 (otherwise s1) d.config d.same _ _
          (λ f. record { left = s1; went = went; why = f }) (goes s1 d.sound)
    by_batch (r ∷ rs) s1 went d = decoded s s1 r rs d

give_up-Goes : Goes give_up Never
give_up-Goes s sound = record {
  sound = sound;
  config = refl;
  same = Same-refl s.block_manager;
  decision = tt;
}

pub schedule_prefers :
    (s : Scheduler)
    → prefers_prefill s.scheduler_fairness (age_waiting s) ≡ true
    → schedule s ≡ try_prefill (try_decode give_up) (age_waiting s)
unfolding schedule age_waiting
schedule_prefers s e = rw (e, schedule) refl

pub schedule_defers :
    (s : Scheduler)
    → prefers_prefill s.scheduler_fairness (age_waiting s) ≡ false
    → schedule s ≡ try_decode (try_prefill give_up) (age_waiting s)
unfolding schedule age_waiting
schedule_defers s e = rw (e, schedule) refl

-- `schedule` keeps the scheduler sound, and what it decides is a non-empty prefill batch, a
-- non-empty decode batch, or that nothing can be scheduled; or it raises, which happens only where
-- a match in the prefix cache has overtaken the target that was computed before it.
pub schedule-Schedules :
    (s : Scheduler) → IsSound s → Settles (schedule s) (Schedules s) (ScheduleRaises s)
unfolding age_waiting
schedule-Schedules s sound =
    let aged = age_waiting s in
    let sound1 =
      marked-IsSound s s.last_step_was_prefill s.prefill_steps s.decode_steps aged.waiting_ages
        sound in
    elim (Bool-cases (prefers_prefill s.scheduler_fairness aged)) [
      | inl prefills ↦ rw (schedule_prefers s prefills) (
          later_Settles s aged (try_prefill (try_decode give_up) aged) refl
            (Same-refl s.block_manager) _ _
            (λ f. elim f [
              | at_once why ↦ prefill_raises prefills why
              | afterwards s1 batch e later ↦ absurd later.why
            ])
            (try_prefill-Goes (try_decode give_up) _ (try_decode-Goes give_up Never give_up-Goes)
              aged sound1))
      | inr decodes ↦ rw (schedule_defers s decodes) (
          later_Settles s aged (try_decode (try_prefill give_up) aged) refl
            (Same-refl s.block_manager) _ _
            (λ d. elim d.why [
              | at_once why ↦ later_prefill_raises d.left decodes d.went why
              | afterwards s1 batch e never ↦ absurd never
            ])
            (try_decode-Goes (try_prefill give_up) _ (try_prefill-Goes give_up Never give_up-Goes)
              aged sound1))
    ]
