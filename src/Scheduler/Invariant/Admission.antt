-- ===== src/Scheduler/Invariant/Admission.antt =====
-- `_admit_waiting` of nanovllm/engine/scheduler.py as a whole.
use mathlib.Core.List.{append-nil}
use mathlib.Core.Path.{subst}
use nano_vllm_online_serving.Common.{
  ℕ, ◌≡◌, refl, ap, sym, ◌∙◌, true, false, some, List, [], ◌∷◌, ◌++◌, arith, ltb, length, count,
  Bool-cases, inl, inr, Ensures, Ensures-mono, Ensures-value, Ensures->>=,
}
use nano_vllm_online_serving.BlockManager.Allocation.{can_allocate}
use nano_vllm_online_serving.BlockManager.Prefix.{match_cached_prefix}
use nano_vllm_online_serving.BlockManager.Invariant.{Same}
use nano_vllm_online_serving.BlockManager.Invariant.Tables.{can_allocate-PurgesExactly}
use nano_vllm_online_serving.BlockManager.Invariant.Prefill.{match_cached_prefix-Matched}
use nano_vllm_online_serving.Scheduler.State.{Scheduler, with_result}
use nano_vllm_online_serving.Scheduler.Policy.{
  reorder_waiting, prefill_reserve_blocks, is_cache_aware,
}
use nano_vllm_online_serving.Scheduler.Ranking.{Reorders, reorder_waiting-Reorders, IsStarvedFirst}
use nano_vllm_online_serving.Scheduler.Queues.{admit, admit_loop, admit_waiting}
use nano_vllm_online_serving.Scheduler.Invariant.{IsSound, refs, held}
use nano_vllm_online_serving.Scheduler.Invariant.Changes.{others, focus, reordered-IsSound}
use nano_vllm_online_serving.Scheduler.Invariant.Victims.{purged-IsSound}
use nano_vllm_online_serving.Scheduler.Invariant.Admitting.{
  queued, Admits, Matched-IsSound, admit-IsSound, stop-Admits, count_delay-Admits, from_first,
  Same-trans, admit_loop_full, admit_loop_stuck, admit_loop_next, target_of,
}

pub admit_loop-Admits :
    (reserve : ℕ) (ws : List ℕ) (s : Scheduler)
    → IsSound (queued s ws)
    → Ensures (admit_loop reserve ws s) (Admits s ws)
unfolding admit_loop admit
admit_loop-Admits reserve [] s sound = record {
  sound = sound;
  config = refl;
  same = record { host = refl; config = refl; blocks = refl };
  admitted = [];
  running = sym (append-nil s.running);
  waiting = refl;
}
admit_loop-Admits reserve (r ∷ rest) s sound =
    elim (Bool-cases (ltb (length s.running) s.max_num_seqs)) [
      | inr full ↦ rw (admit_loop_full reserve r rest s full) (
          stop-Admits s (r ∷ rest) (queued s (r ∷ rest)) sound refl
            (record { host = refl; config = refl; blocks = refl }) refl refl)
      | inl space ↦
          let q = queued s (r ∷ rest) in
          let (p, e, m) = Ensures-value (match_cached_prefix s.block_manager (s.store r)) _ (
            match_cached_prefix-Matched s.block_manager (s.store r) (others q r)
              (focus q r sound (ground arith)) sound.positive) in
          let s1 = queued (with_result r p s) (r ∷ rest) in
          let sound1 = Matched-IsSound s r rest p sound m in
          let (d, e1, done) =
            Ensures-value (can_allocate p.0 (s1.store r) (target_of reserve r rest s p) reserve) _ (
              can_allocate-PurgesExactly p.0 (s1.store r) (held s1.store (refs s1))
                (target_of reserve r rest s p) reserve sound1.valid) in
          let purged = purged-IsSound s1 d.0 sound1 done.0.0 done.0.1.same in
          let same = Same-trans m.same done.0.1.same in
          elim (Bool-cases d.1) [
            | inr short ↦
                rw
                  (admit_loop_stuck reserve r rest s p d.0 space e
                    (e1 ∙ ap (λ b. some (d.0, b)) short))
                  (count_delay-Admits s (r ∷ rest) reserve (s1.store r)
                    (target_of reserve r rest s p) (queued (with_result r (d.0, p.1) s) (r ∷ rest))
                    purged refl same refl refl)
            | inl fits ↦
                let s2 = with_result r (d.0, p.1) s in
                rw
                  (admit_loop_next reserve r rest s p d.0 space e
                    (e1 ∙ ap (λ b. some (d.0, b)) fits))
                  (Ensures-mono (admit_loop reserve rest (admit r s2)) (Admits (admit r s2) rest)
                    (Admits s (r ∷ rest))
                    (admit_loop-Admits reserve rest (admit r s2)
                      (admit-IsSound s2 r rest purged (ground (arith, space))))
                    (λ s' a. from_first s r rest (admit r s2) s' refl same refl a))
          ]
    ]

-- What `_admit_waiting` has done: the queue is put in order, and a first part of it starts to run.
pub record Admitted (s s' : Scheduler) : Type 0 where
  pub sound : IsSound s'
  pub config : s'.config ≡ s.config
  pub same : Same s.block_manager s'.block_manager
  pub admitted : List ℕ
  pub running : s'.running ≡ s.running ++ admitted
  pub everybody : (x : ℕ) → count x (admitted ++ s'.waiting) ≡ count x s.waiting
  pub ordered :
      is_cache_aware s.scheduler_fairness ≡ true → IsStarvedFirst s (admitted ++ s'.waiting)
  pub in_turn : is_cache_aware s.scheduler_fairness ≡ false → s.waiting ≡ admitted ++ s'.waiting

Admitted-from :
    (s : Scheduler) (ws : List ℕ) (s' : Scheduler)
    → Reorders s (queued s ws)
    → Admits (queued s ws) ws s'
    → Admitted s s'
Admitted-from s ws s' o a = record {
  sound = a.sound;
  config = a.config;
  same = a.same;
  admitted = a.admitted;
  running = a.running;
  everybody = λ x. ap (count x) (sym a.waiting) ∙ o.same x;
  ordered = λ aware. rw a.waiting at (o.first aware);
  in_turn = λ plain. ap (λ (q : Scheduler). q.waiting) (sym (o.idle plain)) ∙ a.waiting;
}

after_reorder :
    (s : Scheduler) (ws : List ℕ)
    → IsSound s
    → Reorders s (queued s ws)
    → Ensures (admit_loop (prefill_reserve_blocks (queued s ws)) ws (queued s ws)) (Admitted s)
after_reorder s ws sound o =
    Ensures-mono (admit_loop (prefill_reserve_blocks (queued s ws)) ws (queued s ws))
      (Admits (queued s ws) ws) (Admitted s)
      (admit_loop-Admits (prefill_reserve_blocks (queued s ws)) ws (queued s ws)
        (reordered-IsSound s ws s.running sound o.same (λ x. refl)))
      (λ s' a. Admitted-from s ws s' o a)

-- `_admit_waiting` raises nothing and keeps the scheduler sound. It appends a first part of the
-- waiting queue to `running`, in the order of the queue: the order of arrival, or, under
-- `cache_aware_lpm`, one in which nobody stands directly behind a sequence that is less starved.
pub admit_waiting-Admitted : (s : Scheduler) → IsSound s → Ensures (admit_waiting s) (Admitted s)
unfolding admit_waiting
admit_waiting-Admitted s sound =
    Ensures->>= (reorder_waiting s) _ (Reorders s) _
      (reorder_waiting-Reorders s (held s.store (refs s)) sound.valid sound.positive)
      (λ s1 o.
        subst (λ t. Ensures (admit_loop (prefill_reserve_blocks t) t.waiting t) (Admitted s))
          (sym o.only) (after_reorder s s1.waiting sound (subst (Reorders s) o.only o)))
