-- ===== src/Scheduler/Invariant/Finishing.antt =====
-- The ends of the loop's body in `Scheduler.postprocess` (nanovllm/engine/scheduler.py): a sequence
-- takes its token, and is retired where it is finished.
use nano_vllm_online_serving.Common.{
  ℕ, ◌<◌, ◌≡◌, refl, ap, ◌∙◌, true, false, Option, none, some, arith, ◌==◌, leb, count,
  count-append, count-discard, length-discard, discard, Bool-cases, inl, inr, Ensures,
  Ensures-value, ◌>>=◌, ◌⊎◌,
}
use nano_vllm_online_serving.Sequence.{
  Sequence, is_running, is_finished, append_token, finish, num_completion_tokens,
}
use nano_vllm_online_serving.BlockManager.Allocation.{deallocate}
use nano_vllm_online_serving.BlockManager.Invariant.{Same}
use nano_vllm_online_serving.BlockManager.Invariant.Tables.{deallocate-Releases}
use nano_vllm_online_serving.Scheduler.State.{Scheduler, with_result}
use nano_vllm_online_serving.Scheduler.Postprocess.{
  Event, retire, finish_event, stops_at, finish_if_done, take_token,
}
use nano_vllm_online_serving.Scheduler.Invariant.{IsSound, refs}
use nano_vllm_online_serving.Scheduler.Invariant.Changes.{
  others, focus, leaves-IsSound, runs_on-IsSound,
}
use nano_vllm_online_serving.Scheduler.Invariant.Admitting.{Same-refl}

-- An event tells whether its sequence runs on.
abbrev pub EventFits : Scheduler → ℕ → Option Event → Type 0
EventFits s r none = 0 < count r s.running
EventFits s r (some e) =
    (e.seq ≡ r)
    × (e.finished ≡ true → count r s.running ≡ 0)
    × (e.finished ≡ false → 0 < count r s.running)

-- What one round has done with `r`; nobody else is affected.
pub record Processes (s : Scheduler) (r : ℕ) (q : Scheduler × Option Event) : Type 0 where
  pub sound : IsSound q.0
  pub config : q.0.config ≡ s.config
  pub same : Same s.block_manager q.0.block_manager
  pub others : (x : ℕ) → (r == x) ≡ false → q.0.store x ≡ s.store x
  pub running : (x : ℕ) → (r == x) ≡ false → count x q.0.running ≡ count x s.running
  pub event : EventFits q.0 r q.1

abbrev pub with_event : Scheduler × Event → Scheduler × Option Event
with_event (s, e) = (s, some e)

-- A finished sequence leaves `running` and gives its blocks back.
pub finish_event-Processes :
    (s : Scheduler) (r : ℕ) (token_id : Option ℕ) (seq : Sequence)
    → IsSound s
    → 0 < count r s.running
    → seq.block_table ≡ (s.store r).block_table
    → Ensures (finish_event r token_id seq s) (λ q. Processes s r (with_event q))
unfolding finish_event retire
finish_event-Processes s r token_id seq sound runs table =
    let here : 0 < count r (refs s) = omega (arith, runs, count-append r s.waiting s.running) in
    let (p, e, done) =
      Ensures-value (deallocate s.block_manager seq) _
        (deallocate-Releases s.block_manager seq (others s r) (rw table (focus s r sound here))) in
    rw (e, ◌>>=◌)
      (record {
        sound =
            leaves-IsSound s sound r p.0 p.1 done.0.same s.waiting (discard r s.running)
              s.waiting_ages s.preemptions s.prefill_watermark_delays done.0.valid
              (λ x. ground (
                arith,
                count-append x s.waiting s.running,
                count-discard r x s.running,
                count-discard r x (refs s),
                runs,
              ))
              (λ x. omega arith) (λ x. ground (arith, count-discard r x s.running))
              (omega (arith, sound.bounded, length-discard r s.running));
        config = refl;
        same = done.0.same;
        others = λ x other. rw other;
        running = λ x other. ground (arith, other, count-discard r x s.running);
        event = (
          refl,
          λ h. ground (
            arith,
            count-discard r r s.running,
            sound.once r,
            count-append r s.waiting s.running,
          ),
          λ h. absurd cc,
        );
      })

-- The decision after a token keeps the sequence as it is, or finishes it.
finish_if_done_cases :
    (eos : Option ℕ) (seq : Sequence) (t : ℕ)
    → (finish_if_done eos seq t ≡ seq) ⊎ (is_finished (finish_if_done eos seq t) ≡ true)
unfolding finish_if_done finish is_finished
finish_if_done_cases eos seq t = elim (Bool-cases (stops_at eos seq t)) [
  | inl stop ↦ inr (rw stop refl)
  | inr go ↦ elim (Bool-cases (leb seq.max_tokens (num_completion_tokens seq))) [
    | inl long ↦ inr (rw (go, long) refl)
    | inr short ↦ inl (rw (go, short) refl)
  ]
]

finish_if_done-table :
    (eos : Option ℕ) (seq : Sequence) (t : ℕ)
    → (finish_if_done eos seq t).block_table ≡ seq.block_table
unfolding finish_if_done finish
finish_if_done-table eos seq t = elim (Bool-cases (stops_at eos seq t)) [
  | inl stop ↦ rw stop refl
  | inr go ↦ elim (Bool-cases (leb seq.max_tokens (num_completion_tokens seq))) [
    | inl long ↦ rw (go, long) refl
    | inr short ↦ rw (go, short) refl
  ]
]

take_token_finished :
    (r t : ℕ) (before : Sequence) (s : Scheduler)
    → is_finished (finish_if_done s.eos (append_token before t) t) ≡ true
    → take_token r t before s
      ≡ finish_event r (some t) (finish_if_done s.eos (append_token before t) t) s
unfolding take_token
take_token_finished r t before s e = rw (e, take_token) refl

-- The event of a sequence that runs on.
abbrev told : ℕ → ℕ → Event
told r t = record {
  seq = r;
  token_id = some t;
  finished = false;
  finish_reason = none;
  usage = none;
}

take_token_running :
    (r t : ℕ) (before : Sequence) (s : Scheduler)
    → is_finished (append_token before t) ≡ false
    → finish_if_done s.eos (append_token before t) t ≡ append_token before t
    → take_token r t before s
      ≡ some (with_result r (s.block_manager, append_token before t) s, told r t)
unfolding take_token
take_token_running r t before s e same =
    let on : is_finished (finish_if_done s.eos (append_token before t) t) ≡ false =
      ap is_finished same ∙ e in
    rw (on, take_token) (ap (λ q. some (with_result r (s.block_manager, q) s, told r t)) same)

not_finished : (seq : Sequence) → is_running seq ≡ true → is_finished seq ≡ false
unfolding is_running is_finished
not_finished seq h = ground (arith, h)

-- A running sequence takes its token, and runs on or leaves.
pub take_token-Processes :
    (s : Scheduler) (r t : ℕ) (before : Sequence)
    → IsSound s
    → 0 < count r s.running
    → before.block_table ≡ (s.store r).block_table
    → is_running before ≡ true
    → Ensures (take_token r t before s) (λ q. Processes s r (with_event q))
unfolding append_token is_running
take_token-Processes s r t before sound runs table going =
    let seq = append_token before t in
    let here : 0 < count r (refs s) = omega (arith, runs, count-append r s.waiting s.running) in
    elim (finish_if_done_cases s.eos seq t) [
      | inr over ↦ rw (take_token_finished r t before s over) (
          finish_event-Processes s r (some t) (finish_if_done s.eos seq t) sound runs
            (finish_if_done-table s.eos seq t ∙ table))
      | inl on ↦ rw (take_token_running r t before s (not_finished seq going) on) (record {
        sound =
            runs_on-IsSound s r s.block_manager seq sound (Same-refl s.block_manager) runs
              (rw table (focus s r sound here)) going (omega arith);
        config = refl;
        same = Same-refl s.block_manager;
        others = λ x other. rw other;
        running = λ x other. refl;
        event = (refl, λ h. absurd cc, λ h. runs);
      })
    ]
