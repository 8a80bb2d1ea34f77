-- ===== src/Scheduler/Invariant/Raising.antt =====
-- When `schedule` of nanovllm/engine/scheduler.py raises.
use nano_vllm_online_serving.Common.{
  ℕ, ◌≡◌, refl, sym, ap, ◌∙◌, subst, true, false, Option, none, some, List, [], ◌∷◌, ◌++◌, arith,
  leb, Bool-cases, Option-cases, inl, inr, ◌>>=◌,
}
use nano_vllm_online_serving.BlockManager.Allocation.{can_allocate}
use nano_vllm_online_serving.BlockManager.Invariant.Preparing.{prepare_prefill_raises}
use nano_vllm_online_serving.Scheduler.State.{Scheduler}
use nano_vllm_online_serving.Scheduler.Policy.{
  prefill_chunk_budget, prefill_reserve_blocks, age_waiting,
}
use nano_vllm_online_serving.Scheduler.Prefill.{
  Batch, empty_batch, is_full, prefill_target, schedule_chunk, prefill_loop, schedule_prefill,
}
use nano_vllm_online_serving.Scheduler.Decode.{
  schedule_decode, schedule, try_prefill, try_decode, give_up, Decision,
}
use nano_vllm_online_serving.Scheduler.Invariant.{IsSound}
use nano_vllm_online_serving.Scheduler.Invariant.Overtaking.{
  IsOvertaken, PrefillRaises, ScheduleRaises, prefill_raises, later_prefill_raises, candidates,
}
use nano_vllm_online_serving.Scheduler.Invariant.Chunking.{Settles, schedule_chunk_raises}
use nano_vllm_online_serving.Scheduler.Invariant.PrefillRounds.{
  prefill_loop_full, prefill_loop_done, prefill_loop_short, prefill_loop_raises, prefill_loop_take,
}
use nano_vllm_online_serving.Scheduler.Invariant.PrefillSteps.{schedule_prefill_lem}
use nano_vllm_online_serving.Scheduler.Invariant.Scheduling.{
  schedule_prefers, schedule_defers, schedule-Schedules,
}
use nano_vllm_online_serving.Scheduler.Invariant.Deciding.{Schedules}

same_result {ℓ} : {A : Type ℓ} {x y : A} → some x ≡ some y → x ≡ y
same_result {x = x} e = ap (λ o. elim o [ none ↦ x | some z ↦ z ]) e

contradicts {ℓ} : {A : Type ℓ} {m : Option A} {a : A} → m ≡ none → m ≡ some a → ⊥
contradicts e h = cc

-- A round whose test for room raises.
prefill_loop_stuck :
    (chunk reserve r : ℕ) (rs : List ℕ) (batch : Batch) (s : Scheduler)
    → is_full s chunk batch ≡ false
    → leb (prefill_target s chunk batch (s.store r)) (s.store r).num_computed_tokens ≡ false
    → can_allocate s.block_manager (s.store r) (prefill_target s chunk batch (s.store r)) reserve
      ≡ none
    → prefill_loop chunk reserve (r ∷ rs) batch s ≡ none
unfolding prefill_loop
prefill_loop_stuck chunk reserve r rs batch s e e1 e2 =
    rw (e, prefill_loop) (rw e1 (rw (e2, ◌>>=◌) refl))

-- Where the batch is not full after the first candidates, the loop goes on with the others.
prefill_loop_resumes :
    (chunk reserve : ℕ) (passed rest : List ℕ) (batch sofar : Batch) (s at : Scheduler)
    → prefill_loop chunk reserve passed batch s ≡ some (at, sofar)
    → is_full at chunk sofar ≡ false
    → prefill_loop chunk reserve (passed ++ rest) batch s ≡ prefill_loop chunk reserve rest sofar at
unfolding prefill_loop
prefill_loop_resumes chunk reserve [] rest batch sofar s at e space =
    let same = same_result e in
    ap (λ (p : Scheduler × Batch). prefill_loop chunk reserve rest p.1 p.0) same
prefill_loop_resumes chunk reserve (r ∷ passed) rest batch sofar s at e space =
    let target = prefill_target s chunk batch (s.store r) in
    elim (Bool-cases (is_full s chunk batch)) [
      | inl full ↦
          let same =
            same_result (sym (prefill_loop_full chunk reserve r passed batch s full) ∙ e) in
          let wrong : true ≡ false =
            sym full ∙ ap (λ (p : Scheduler × Batch). is_full p.0 chunk p.1) same ∙ space in
          absurd cc
      | inr open_ ↦ elim (Bool-cases (leb target (s.store r).num_computed_tokens)) [
        | inl done ↦
            prefill_loop_done chunk reserve r (passed ++ rest) batch s open_ done
            ∙ prefill_loop_resumes chunk reserve passed rest batch sofar s at
                (sym (prefill_loop_done chunk reserve r passed batch s open_ done) ∙ e) space
        | inr more ↦ elim (Option-cases (can_allocate s.block_manager (s.store r) target reserve)) [
          | inl stuck ↦
              absurd
                (contradicts (prefill_loop_stuck chunk reserve r passed batch s open_ more stuck) e)
          | inr (d, e1) ↦ elim (Bool-cases d.1) [
            | inr short ↦
                let e2 = e1 ∙ ap (λ a. some (d.0, a)) short in
                prefill_loop_short chunk reserve r (passed ++ rest) batch s d.0 open_ more e2
                ∙ prefill_loop_resumes chunk reserve passed rest batch sofar
                    (record s { block_manager = d.0 }) at
                    (sym (prefill_loop_short chunk reserve r passed batch s d.0 open_ more e2) ∙ e)
                    space
            | inl fits ↦
                let e2 = e1 ∙ ap (λ a. some (d.0, a)) fits in
                elim (Option-cases
                  (schedule_chunk r target batch (record s { block_manager = d.0 }))) [
                    | inl raised ↦ absurd (
                        contradicts
                          (prefill_loop_raises chunk reserve r passed batch s d.0 open_ more e2
                            raised)
                          e)
                    | inr (q, taken) ↦
                        prefill_loop_take chunk reserve r (passed ++ rest) batch s d.0 q open_ more
                          e2 taken
                        ∙ prefill_loop_resumes chunk reserve passed rest q.1 sofar q.0 at
                            (sym (
                                prefill_loop_take chunk reserve r passed batch s d.0 q open_ more e2
                                  taken)
                              ∙ e)
                            space
                  ]
          ]
        ]
      ]
    ]

IsOvertaken-raises :
    (chunk reserve : ℕ) (rs : List ℕ) (batch : Batch) (s : Scheduler)
    → IsOvertaken chunk reserve rs batch s
    → prefill_loop chunk reserve rs batch s ≡ none
IsOvertaken-raises chunk reserve rs batch s o =
    let target = prefill_target o.at chunk o.sofar (o.at.store o.ref) in
    let more : leb target (o.at.store o.ref).num_computed_tokens ≡ false =
      ground (arith, o.before) in
    ap (λ t. prefill_loop chunk reserve t batch s) o.split
    ∙ prefill_loop_resumes chunk reserve o.passed (o.ref ∷ o.rest) batch o.sofar s o.at o.reached
        o.space
    ∙ prefill_loop_raises chunk reserve o.ref o.rest o.sofar o.at o.manager o.space more o.fits (
        schedule_chunk_raises (record o.at { block_manager = o.manager }) o.ref target o.sofar
          (prepare_prefill_raises o.manager (o.at.store o.ref) target o.past.result o.past.matched
            o.past.after))

PrefillRaises-raises : (s : Scheduler) → PrefillRaises s → schedule_prefill s ≡ none
PrefillRaises-raises s p =
    schedule_prefill_lem s p.admitted p.admission
    ∙ IsOvertaken-raises (prefill_chunk_budget p.admitted) (prefill_reserve_blocks p.admitted)
        (candidates p.admitted) empty_batch p.admitted p.overtaken

try_prefill_raises :
    (otherwise : Scheduler → Option (Scheduler × Decision)) (s : Scheduler)
    → schedule_prefill s ≡ none
    → try_prefill otherwise s ≡ none
unfolding try_prefill
try_prefill_raises otherwise s e = rw (e, ◌>>=◌) refl

try_decode_passes :
    (otherwise : Scheduler → Option (Scheduler × Decision)) (s s1 : Scheduler)
    → schedule_decode s ≡ some (s1, [])
    → try_decode otherwise s ≡ otherwise s1
unfolding try_decode
try_decode_passes otherwise s s1 e = rw (e, ◌>>=◌) refl

ScheduleRaises-raises : (s : Scheduler) → ScheduleRaises s → schedule s ≡ none
ScheduleRaises-raises s (prefill_raises prefills why) =
    schedule_prefers s prefills
    ∙ try_prefill_raises (try_decode give_up) (age_waiting s)
        (PrefillRaises-raises (age_waiting s) why)
ScheduleRaises-raises s (later_prefill_raises s1 decodes went why) =
    schedule_defers s decodes
    ∙ try_decode_passes (try_prefill give_up) (age_waiting s) s1 went
    ∙ try_prefill_raises give_up s1 (PrefillRaises-raises s1 why)

pub schedule-ScheduleRaises :
    (s : Scheduler)
    → IsSound s
    → (schedule s ≡ none → ScheduleRaises s) × (ScheduleRaises s → schedule s ≡ none)
schedule-ScheduleRaises s sound = (
  λ e. subst (λ o. Settles o (Schedules s) (ScheduleRaises s)) e (schedule-Schedules s sound),
  ScheduleRaises-raises s,
)
