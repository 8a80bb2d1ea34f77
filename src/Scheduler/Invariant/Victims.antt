-- ===== src/Scheduler/Invariant/Victims.antt =====
-- The choice of a victim, and the rounds of the loop of `_schedule_decode` that makes room
-- (nanovllm/engine/scheduler.py).
use nano_vllm_online_serving.Common.{
  ℕ, suc, ◌-◌, ◌<◌, ◌≡◌, refl, ap, true, false, not, ◌&&◌, none, some, List, [], ◌∷◌, arith, ◌==◌,
  leb, count, count-select, elem, last?, select, Ensures, ◌>>=◌,
}
use nano_vllm_online_serving.BlockManager.State.{BlockManager, CacheConfig}
use nano_vllm_online_serving.BlockManager.Allocation.{can_append}
use nano_vllm_online_serving.BlockManager.Invariant.{IsValid, Same}
use nano_vllm_online_serving.BlockManager.Invariant.Purges.{Purges}
use nano_vllm_online_serving.BlockManager.Invariant.Taking.{room}
use nano_vllm_online_serving.BlockManager.Invariant.Tables.{
  missing_blocks, can_allocate-PurgesExactly,
}
use nano_vllm_online_serving.Scheduler.State.{Scheduler}
use nano_vllm_online_serving.Scheduler.Queues.{preempt}
use nano_vllm_online_serving.Scheduler.Decode.{make_room, select_preemption_victim}
use nano_vllm_online_serving.Scheduler.Invariant.{IsSound, refs, held}

-- A purge inside the block manager.
pub purged-IsSound :
    (s : Scheduler) (bm : BlockManager)
    → IsSound s
    → IsValid bm (held s.store (refs s))
    → Same s.block_manager bm
    → IsSound (record s { block_manager = bm })
purged-IsSound s bm sound v same = record {
  valid = v;
  once = sound.once;
  positive =
      let size = ap (λ (c : CacheConfig). c.block_size) same.config in rw size sound.positive;
  bounded = sound.bounded;
  waits = sound.waits;
  runs = sound.runs;
  sized = sound.sized;
}

last-count : (xs : List ℕ) (v : ℕ) → last? xs ≡ some v → 0 < count v xs
last-count [] v e = absurd cc
last-count (x ∷ []) v e = ground (arith, e)
last-count (x ∷ y ∷ ys) v e = ground (arith, last-count (y ∷ ys) v e)

pub can_append-PurgesExactly :
    (s : Scheduler) (r : ℕ)
    → IsSound s
    → Ensures (can_append s.block_manager (s.store r)) (λ p.
      Purges s.block_manager (held s.store (refs s)) p.0
      × (p.1
          ≡ leb
              (missing_blocks s.block_manager (s.store r) (s.store r).num_tokens)
              (room s.block_manager - 0)))
unfolding can_append
can_append-PurgesExactly s r sound =
    can_allocate-PurgesExactly s.block_manager (s.store r) (held s.store (refs s))
      (s.store r).num_tokens 0 sound.valid

-- A victim runs, is another sequence, and is not scheduled yet.
pub victim_lem :
    (r v : ℕ) (scheduled run : List ℕ)
    → select_preemption_victim r scheduled run ≡ some v
    → (0 < count v run) × ((v == r) ≡ false) × (elem v scheduled ≡ false)
unfolding select_preemption_victim
victim_lem r v scheduled run e =
    let p = λ (x : ℕ). not (x == r) && not (elem x scheduled) in
    let found = last-count (select p run) v e in
    let counted = count-select p v run in
    (ground (arith, found, counted), ground (arith, found, counted), ground (arith, found, counted))

pub make_room_fits :
    (fuel r : ℕ) (scheduled : List ℕ) (s : Scheduler) (bm : BlockManager)
    → can_append s.block_manager (s.store r) ≡ some (bm, true)
    → make_room (suc fuel) r scheduled s ≡ some (record s { block_manager = bm })
unfolding make_room
make_room_fits fuel r scheduled s bm e = rw e refl

pub make_room_last :
    (fuel r : ℕ) (scheduled : List ℕ) (s : Scheduler) (bm : BlockManager)
    → can_append s.block_manager (s.store r) ≡ some (bm, false)
    → select_preemption_victim r scheduled s.running ≡ none
    → make_room (suc fuel) r scheduled s ≡ preempt r (record s { block_manager = bm })
unfolding make_room
make_room_last fuel r scheduled s bm e e1 = rw (e, ◌>>=◌) (rw e1 refl)

pub make_room_next :
    (fuel r v : ℕ) (scheduled : List ℕ) (s : Scheduler) (bm : BlockManager) (s' : Scheduler)
    → can_append s.block_manager (s.store r) ≡ some (bm, false)
    → select_preemption_victim r scheduled s.running ≡ some v
    → preempt v (record s { block_manager = bm }) ≡ some s'
    → make_room (suc fuel) r scheduled s ≡ make_room fuel r scheduled s'
unfolding make_room
make_room_next fuel r v scheduled s bm s' e e1 e2 = rw (e, ◌>>=◌) (rw e1 (rw e2 refl))
