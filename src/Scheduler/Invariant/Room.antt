-- ===== src/Scheduler/Invariant/Room.antt =====
-- The inner loop of `_schedule_decode` (nanovllm/engine/scheduler.py): preemption until the blocks
-- of one sequence fit.
use nano_vllm_online_serving.Common.{
  ℕ, zero, suc, ◌-◌, ◌≤◌, ◌<◌, ◌≡◌, refl, ap, sym, ◌∙◌, true, false, some, List, arith, ◌==◌, leb,
  length, count, count-discard, elem-count, length-discard, discard, elem, Bool-cases, Option-cases,
  inl, inr, Ensures, Ensures-mono, Ensures-value,
}
use nano_vllm_online_serving.BlockManager.State.{BlockManager}
use nano_vllm_online_serving.BlockManager.Allocation.{can_append}
use nano_vllm_online_serving.BlockManager.Invariant.{Same}
use nano_vllm_online_serving.BlockManager.Invariant.Purges.{Purges}
use nano_vllm_online_serving.BlockManager.Invariant.Taking.{room}
use nano_vllm_online_serving.BlockManager.Invariant.Tables.{missing_blocks, missing_blocks-Same}
use nano_vllm_online_serving.Scheduler.State.{Scheduler}
use nano_vllm_online_serving.Scheduler.Queues.{preempt}
use nano_vllm_online_serving.Scheduler.Decode.{make_room, select_preemption_victim}
use nano_vllm_online_serving.Scheduler.Invariant.{IsSound, refs, held}
use nano_vllm_online_serving.Scheduler.Invariant.Queues.{IsStopped, Preempts, preempt-Preempts}
use nano_vllm_online_serving.Scheduler.Invariant.Victims.{
  purged-IsSound, can_append-PurgesExactly, victim_lem, make_room_fits, make_room_last,
  make_room_next,
}

-- What the loop has done: some sequences that run no longer do. Those that still run are
-- unchanged, and what is scheduled still runs. Sequence `r` has room for its blocks, unless it was
-- preempted itself.
pub record Rooms (s : Scheduler) (r : ℕ) (scheduled : List ℕ) (s' : Scheduler) : Type 0 where
  pub sound : IsSound s'
  pub config : s'.config ≡ s.config
  pub same : Same s.block_manager s'.block_manager
  pub fewer : (x : ℕ) → count x s'.running ≤ count x s.running
  pub kept : (x : ℕ) → elem x scheduled ≡ true → count x s'.running ≡ count x s.running
  pub untouched : (x : ℕ) → 0 < count x s'.running → s'.store x ≡ s.store x
  pub fits :
      0 < count r s'.running
      → missing_blocks s'.block_manager (s'.store r) (s'.store r).num_tokens ≤ room s'.block_manager
  pub outside : (x : ℕ) → count x s.running ≡ 0 → s'.store x ≡ s.store x
  pub stopped : (x : ℕ) → 0 < count x s.running → count x s'.running ≡ 0 → IsStopped (s'.store x)

after_preempting :
    (s : Scheduler) (v r : ℕ) (scheduled : List ℕ) (bm : BlockManager) (s1 s' : Scheduler)
    → Same s.block_manager bm
    → elem v scheduled ≡ false
    → 0 < count v s.running
    → Preempts (record s { block_manager = bm }) v s1
    → Rooms s1 r scheduled s'
    → Rooms s r scheduled s'
after_preempting s v r scheduled bm s1 s' same unscheduled runs p m = record {
  sound = m.sound;
  config = m.config ∙ p.config;
  same = record {
    host = m.same.host ∙ p.same.host ∙ same.host;
    config = m.same.config ∙ p.same.config ∙ same.config;
    blocks = m.same.blocks ∙ p.same.blocks ∙ same.blocks;
  };
  fewer = λ x. ground (arith, m.fewer x, count_running x, count-discard v x s.running);
  kept = λ x e.
      ground (arith, m.kept x e, count_running x, count-discard v x s.running, different x e);
  untouched = λ x h. m.untouched x h ∙ p.others x (away x (omega (arith, h, m.fewer x)));
  fits = m.fits;
  outside = λ x h.
      let other : (v == x) ≡ false = ground (arith, h, runs) in
      m.outside x (ground (arith, h, count_running x, count-discard v x s.running))
      ∙ p.others x other;
  stopped = λ x h h'. elim (Bool-cases (v == x)) [
    | inl me ↦
        let e : v ≡ x = ground (arith, me) in
        let here = rw e at p.gone in rw (m.outside x here) (rw e at p.stopped)
    | inr other ↦
        m.stopped x (ground (arith, h, other, count_running x, count-discard v x s.running)) h'
  ];
}
  where
    count_running : (x : ℕ) → count x s1.running ≡ count x (discard v s.running)
    count_running x = ap (count x) p.running

    different : (x : ℕ) → elem x scheduled ≡ true → (v == x) ≡ false
    different x e = elim (Bool-cases (v == x)) [
      | inl me ↦
          let same_ref : v ≡ x = ground (arith, me) in
          absurd (ground (arith, e, rw same_ref at unscheduled))
      | inr other ↦ other
    ]

    away : (x : ℕ) → 0 < count x s1.running → (v == x) ≡ false
    away x h = ground (arith, h, count_running x, count-discard v x s.running, p.gone)

-- The blocks fit as it is.
fits-Rooms :
    (s : Scheduler) (r : ℕ) (scheduled : List ℕ) (bm : BlockManager)
    → IsSound s
    → Purges s.block_manager (held s.store (refs s)) bm
    → 0 < count r s.running
    → true
      ≡ leb
          (missing_blocks s.block_manager (s.store r) (s.store r).num_tokens)
          (room s.block_manager - 0)
    → Rooms s r scheduled (record s { block_manager = bm })
fits-Rooms s r scheduled bm sound p runs fits = record {
  sound = purged-IsSound s bm sound p.0 p.1.same;
  config = refl;
  same = p.1.same;
  fewer = λ x. omega arith;
  kept = λ x h. refl;
  untouched = λ x h. refl;
  fits = λ h.
      ground
        (arith, fits, p.1.room, missing_blocks-Same (s.store r) (s.store r).num_tokens p.1.same);
  outside = λ x h. refl;
  stopped = λ x h h'. absurd (omega (arith, h, h'));
}

-- Nobody is left to preempt but the sequence itself.
last-Rooms :
    (s : Scheduler) (r : ℕ) (scheduled : List ℕ) (bm : BlockManager) (s' : Scheduler)
    → elem r scheduled ≡ false
    → Same s.block_manager bm
    → 0 < count r s.running
    → Preempts (record s { block_manager = bm }) r s'
    → Rooms s r scheduled s'
last-Rooms s r scheduled bm s' fresh same runs p =
    after_preempting s r r scheduled bm s' s' same fresh runs p (record {
      sound = p.sound;
      config = refl;
      same = record { host = refl; config = refl; blocks = refl };
      fewer = λ x. omega arith;
      kept = λ x h. refl;
      untouched = λ x h. refl;
      fits = λ h. absurd (omega (arith, h, p.gone));
      outside = λ x h. refl;
      stopped = λ x h h'. absurd (omega (arith, h, h'));
    })

-- For a running sequence that is not scheduled, and with more fuel than sequences run, the search
-- for room ends and raises nothing: the blocks of the sequence fit, or it was preempted itself;
-- what is scheduled runs on, and whoever still runs is unchanged.
pub make_room-Rooms :
    (fuel r : ℕ) (scheduled : List ℕ) (s : Scheduler)
    → IsSound s
    → length s.running < fuel
    → 0 < count r s.running
    → elem r scheduled ≡ false
    → Ensures (make_room fuel r scheduled s) (Rooms s r scheduled)
make_room-Rooms zero r scheduled s sound enough runs fresh = absurd (omega (arith, enough))
make_room-Rooms (suc fuel) r scheduled s sound enough runs fresh =
    let (p, e, done) =
      Ensures-value (can_append s.block_manager (s.store r)) _
        (can_append-PurgesExactly s r sound) in
    let s1 = record s { block_manager = p.0 } in
    let sound1 = purged-IsSound s p.0 sound done.0.0 done.0.1.same in
    elim (Bool-cases p.1) [
      | inl fits ↦
          rw (make_room_fits fuel r scheduled s p.0 (e ∙ ap (λ b. some (p.0, b)) fits))
            (fits-Rooms s r scheduled p.0 sound done.0 runs (sym fits ∙ done.1))
      | inr short ↦
          let e1 = e ∙ ap (λ b. some (p.0, b)) short in
          elim (Option-cases (select_preemption_victim r scheduled s.running)) [
            | inl nobody ↦ rw (make_room_last fuel r scheduled s p.0 e1 nobody) (
                Ensures-mono (preempt r s1) (Preempts s1 r) (Rooms s r scheduled)
                  (preempt-Preempts s1 r sound1 runs)
                  (λ s' q. last-Rooms s r scheduled p.0 s' fresh done.0.1.same runs q))
            | inr (v, found) ↦
                let victim = victim_lem r v scheduled s.running found in
                let (s2, e2, q) =
                  Ensures-value (preempt v s1) (Preempts s1 v)
                    (preempt-Preempts s1 v sound1 victim.0) in
                let runs2 = ap (count r) q.running in
                let fewer = ap length q.running in
                rw (make_room_next fuel r v scheduled s p.0 s2 e1 found e2) (
                  Ensures-mono (make_room fuel r scheduled s2) (Rooms s2 r scheduled)
                    (Rooms s r scheduled)
                    (make_room-Rooms fuel r scheduled s2 q.sound
                      (ground (
                        arith,
                        fewer,
                        length-discard v s.running,
                        elem-count v s.running,
                        victim.0,
                        enough,
                      ))
                      (ground (arith, runs2, count-discard v r s.running, victim.1, runs)) fresh)
                    (λ s' m.
                      after_preempting s v r scheduled p.0 s2 s' done.0.1.same victim.2 victim.0 q
                        m))
          ]
    ]
