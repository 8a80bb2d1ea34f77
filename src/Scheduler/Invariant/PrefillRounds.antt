-- ===== src/Scheduler/Invariant/PrefillRounds.antt =====
-- The rounds of the loop of `_schedule_prefill` (nanovllm/engine/scheduler.py), one equation for
-- each way that a round can go.
use nano_vllm_online_serving.Common.{
  ℕ, ◌≡◌, ◌⊎◌, refl, ◌∙◌, true, false, Option, none, some, List, ◌∷◌, leb, inl, inr, ◌>>=◌,
}
use nano_vllm_online_serving.BlockManager.State.{BlockManager}
use nano_vllm_online_serving.BlockManager.Allocation.{can_allocate}
use nano_vllm_online_serving.BlockManager.Invariant.{Same}
use nano_vllm_online_serving.Scheduler.State.{Scheduler}
use nano_vllm_online_serving.Scheduler.Prefill.{
  Batch, is_full, prefill_target, schedule_chunk, prefill_loop,
}
use nano_vllm_online_serving.Scheduler.Invariant.Admitting.{Same-trans}
use nano_vllm_online_serving.Scheduler.Invariant.Chunking.{Settles}
use nano_vllm_online_serving.Scheduler.Invariant.PrefillBatches.{Prefills}

pub Settles-mono {ℓ} :
    {A : Type ℓ} (m : Option A) (P Q : A → Type 0) (E F : Type 0)
    → ((a : A) → P a → Q a)
    → (E → F)
    → Settles m P E
    → Settles m Q F
Settles-mono none P Q E F f g h = g h
Settles-mono (some a) P Q E F f g h = f a h

pub Settles-cases {ℓ} :
    {A : Type ℓ} (m : Option A) (P : A → Type 0) (E : Type 0)
    → Settles m P E
    → ((m ≡ none) × E) ⊎ ((a : A) × (m ≡ some a) × P a)
Settles-cases none P E h = inl (refl, h)
Settles-cases (some a) P E h = inr (a, refl, h)

-- From the state after a step to the one before it.
pub from_step :
    (s s1 : Scheduler) (m : Option (Scheduler × Batch))
    → s1.config ≡ s.config
    → Same s.block_manager s1.block_manager
    → (E F : Type 0) → (E → F)
    → Settles m (Prefills s1) E
    → Settles m (Prefills s) F
from_step s s1 m config same E F why h =
    Settles-mono m _ _ _ _
      (λ q d. record {
        sound = d.sound;
        config = d.config ∙ config;
        same = Same-trans same d.same;
        batch = d.batch;
      })
      why h

-- The ways a round can go.
module _ (chunk reserve r : ℕ) (rs : List ℕ) (batch : Batch) (s : Scheduler) where
  abbrev pub goal : ℕ
  goal = prefill_target s chunk batch (s.store r)

  pub prefill_loop_full :
      is_full s chunk batch ≡ true → prefill_loop chunk reserve (r ∷ rs) batch s ≡ some (s, batch)
  unfolding prefill_loop
  prefill_loop_full e = rw (e, prefill_loop) refl

  pub prefill_loop_done :
      is_full s chunk batch ≡ false
      → leb goal (s.store r).num_computed_tokens ≡ true
      → prefill_loop chunk reserve (r ∷ rs) batch s ≡ prefill_loop chunk reserve rs batch s
  unfolding prefill_loop
  prefill_loop_done e e1 = rw (e, prefill_loop) (rw e1 refl)

  pub prefill_loop_short :
      (bm : BlockManager)
      → is_full s chunk batch ≡ false
      → leb goal (s.store r).num_computed_tokens ≡ false
      → can_allocate s.block_manager (s.store r) goal reserve ≡ some (bm, false)
      → prefill_loop chunk reserve (r ∷ rs) batch s
        ≡ prefill_loop chunk reserve rs batch (record s { block_manager = bm })
  unfolding prefill_loop
  prefill_loop_short bm e e1 e2 = rw (e, prefill_loop) (rw e1 (rw (e2, ◌>>=◌) refl))

  pub prefill_loop_raises :
      (bm : BlockManager)
      → is_full s chunk batch ≡ false
      → leb goal (s.store r).num_computed_tokens ≡ false
      → can_allocate s.block_manager (s.store r) goal reserve ≡ some (bm, true)
      → schedule_chunk r goal batch (record s { block_manager = bm }) ≡ none
      → prefill_loop chunk reserve (r ∷ rs) batch s ≡ none
  unfolding prefill_loop
  prefill_loop_raises bm e e1 e2 e3 =
      rw (e, prefill_loop) (rw e1 (rw (e2, ◌>>=◌) (rw (e3, ◌>>=◌) refl)))

  pub prefill_loop_take :
      (bm : BlockManager) (q : Scheduler × Batch)
      → is_full s chunk batch ≡ false
      → leb goal (s.store r).num_computed_tokens ≡ false
      → can_allocate s.block_manager (s.store r) goal reserve ≡ some (bm, true)
      → schedule_chunk r goal batch (record s { block_manager = bm }) ≡ some q
      → prefill_loop chunk reserve (r ∷ rs) batch s ≡ prefill_loop chunk reserve rs q.1 q.0
  unfolding prefill_loop
  prefill_loop_take bm q e e1 e2 e3 =
      rw (e, prefill_loop) (rw e1 (rw (e2, ◌>>=◌) (rw (e3, ◌>>=◌) refl)))
