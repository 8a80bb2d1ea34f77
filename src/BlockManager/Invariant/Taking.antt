-- ===== src/BlockManager/Invariant/Taking.antt =====
-- Taking a block: `_take_free_block_id`, `_evict_cached_block` and `_allocate_new_block` of
-- nanovllm/engine/block_manager.py.
use nano_vllm_online_serving.Common.{
  ℕ, ◌+◌, ◌<◌, ◌≡◌, refl, ◌∙◌, true, none, some, List, [], ◌∷◌, arith, length, get_elem?, elem,
  elem-count, discard, Option-cases, inl, inr, Ensures, Ensures-mono, Ensures-value, subst,
  length-append, Ensures->>=, ap,
}
use nano_vllm_online_serving.BlockManager.State.{Block, BlockManager, current_time}
use nano_vllm_online_serving.BlockManager.Eviction.{
  free_block, purge_expired, pop_free, oldest, evict_cached_block, add_eviction, has_expired,
}
use nano_vllm_online_serving.BlockManager.Allocation.{take_free_block_id}
use nano_vllm_online_serving.BlockManager.Invariant.{IsValid, IsLoose, Kept, Same, ref_of}
use nano_vllm_online_serving.BlockManager.Invariant.Moves.{unfree-IsLoose}
use nano_vllm_online_serving.BlockManager.Invariant.Purges.{Kept-trans, free_cached-Purges}
use nano_vllm_online_serving.BlockManager.Invariant.Expiry.{
  Kept-counters, PurgesExactly, purge_expired-PurgesExactly,
}
use nano_vllm_online_serving.BlockManager.Invariant.Oldest.{Resolves, oldest-IsOldest}

-- The blocks that can still be handed out.
abbrev pub room : BlockManager → ℕ
room bm = length bm.free_block_ids + length bm.cached_block_ids

-- Block `i` was taken out of the pools: it is loose, idle and bare, and nothing else changed hands.
pub record Takes (bm : BlockManager) (held : List ℕ) (bm' : BlockManager) (i : ℕ) : Type 0 where
  pub block : Block
  pub loose : IsLoose i block bm' held
  pub idle : block.ref_count ≡ 0
  pub bare : block.hash ≡ none
  pub same : Same bm bm'
  pub less : room bm' + 1 ≡ room bm
  pub used : bm'.used_block_ids ≡ bm.used_block_ids
  pub live :
      (j : ℕ) → 0 < ref_of (get_elem? bm.blocks j) → get_elem? bm'.blocks j ≡ get_elem? bm.blocks j

pop_free-Takes :
    (bm : BlockManager) (held : List ℕ)
    → IsValid bm held
    → 0 < length bm.free_block_ids
    → Ensures (pop_free bm) (λ r. Takes bm held r.0 r.1)
unfolding pop_free
pop_free-Takes bm held v h = go bm.free_block_ids refl
  where
    go :
        (ids : List ℕ)
        → bm.free_block_ids ≡ ids
        → Ensures (pop_free bm) (λ r. Takes bm held r.0 r.1)
    go [] e = absurd (ground (arith, e))
    go (i ∷ rest) e =
        let (b, loose, idle, bare) = unfree-IsLoose i rest bm held v e in
        rw (e, pop_free)
          (record {
            block = b;
            loose = loose;
            idle = idle;
            bare = bare;
            same = record { host = refl; config = refl; blocks = refl };
            less = ground (arith, e);
            used = refl;
            live = λ j k. refl;
          })

after_Kept :
    (a b : BlockManager) (held : List ℕ) (r : BlockManager × ℕ)
    → Kept a b
    → Takes b held r.0 r.1
    → Takes a held r.0 r.1
after_Kept a b held r k t = record {
  block = t.block;
  loose = t.loose;
  idle = t.idle;
  bare = t.bare;
  same = record {
    host = t.same.host ∙ k.same.host;
    config = t.same.config ∙ k.same.config;
    blocks = t.same.blocks ∙ k.same.blocks;
  };
  less = omega (arith, t.less, k.room);
  used = t.used ∙ k.used;
  live = λ j h. ground (arith, k.live j h, t.live j);
}

pub cached-Resolves :
    (bm : BlockManager) (held : List ℕ) → IsValid bm held → Resolves bm.blocks bm.cached_block_ids
cached-Resolves bm held v j h = elim (Option-cases (get_elem? bm.blocks j)) [
  | inl absent ↦ absurd (ground (arith, absent, h, v.0 j, elem-count j bm.cached_block_ids))
  | inr (b, e) ↦ ground (arith, e)
]

free_block-nonempty :
    (i : ℕ) (b : Block) (bm : BlockManager) → 0 < length (free_block i b bm).free_block_ids
unfolding free_block
free_block-nonempty i b bm = omega (arith, length-append bm.free_block_ids (i ∷ []))

-- What happens once the victim is chosen.
evict_chosen-Takes :
    (i : ℕ) (bm : BlockManager) (held : List ℕ)
    → IsValid bm held
    → oldest bm.blocks bm.cached_block_ids ≡ some i
    → elem i bm.cached_block_ids ≡ true
    → Ensures (evict_cached_block bm) (λ r. Takes bm held r.0 r.1)
unfolding evict_cached_block
evict_chosen-Takes i bm held v chosen m = elim (Option-cases (get_elem? bm.blocks i)) [
  | inl absent ↦ absurd (ground (arith, absent, v.0 i, elem-count i bm.cached_block_ids))
  | inr (b, e) ↦
      let bm1 = free_block i b (record bm { cached_block_ids = discard i bm.cached_block_ids }) in
      let purged = free_cached-Purges i b bm held v e m in
      simp (chosen, e, m)
        (Ensures-mono (pop_free (add_eviction bm1)) _ _
          (pop_free-Takes (add_eviction bm1) held purged.0 (free_block-nonempty i b _))
          (λ r.
            after_Kept bm (add_eviction bm1) held r
              (Kept-trans purged.1 (Kept-counters bm1 _ bm1.time_reads))))
]

evict_cached_block-Takes :
    (bm : BlockManager) (held : List ℕ)
    → IsValid bm held
    → 0 < length bm.cached_block_ids
    → Ensures (evict_cached_block bm) (λ r. Takes bm held r.0 r.1)
evict_cached_block-Takes bm held v h = go bm.cached_block_ids refl
  where
    go :
        (ids : List ℕ)
        → bm.cached_block_ids ≡ ids
        → Ensures (evict_cached_block bm) (λ r. Takes bm held r.0 r.1)
    go [] e = absurd (ground (arith, e))
    go (i ∷ ids) e =
        let known = subst (Resolves bm.blocks) e (cached-Resolves bm held v) in
        let (victim, chosen, best) =
          Ensures-value (oldest bm.blocks (i ∷ ids)) _ (oldest-IsOldest bm.blocks i ids known) in
        evict_chosen-Takes victim bm held v (ap (oldest bm.blocks) e ∙ chosen)
          (ground (arith, e, best.listed))

pub take_free_block_id-Takes :
    (bm : BlockManager) (held : List ℕ)
    → IsValid bm held
    → 0 < room bm
    → Ensures (take_free_block_id bm) (λ r. Takes bm held r.0 r.1)
unfolding take_free_block_id
take_free_block_id-Takes bm held v h =
    Ensures->>= (purge_expired bm) _
      (λ r. PurgesExactly (has_expired (current_time bm)) bm held r.0 r.1) _
      (purge_expired-PurgesExactly bm held v)
      (λ r p. pick r.0 p.valid p.kept r.0.free_block_ids refl)
  where
    pick :
        (bm1 : BlockManager)
        → IsValid bm1 held
        → Kept bm bm1
        → (ids : List ℕ) → bm1.free_block_ids ≡ ids
        → Ensures
            (elim ids [ [] ↦ evict_cached_block bm1 | i ∷ rest ↦ pop_free bm1 ])
            (λ r. Takes bm held r.0 r.1)
    pick bm1 v1 k [] e =
        Ensures-mono (evict_cached_block bm1) _ _
          (evict_cached_block-Takes bm1 held v1 (ground (arith, e, k.room, h)))
          (λ r. after_Kept bm bm1 held r k)
    pick bm1 v1 k (i ∷ rest) e =
        Ensures-mono (pop_free bm1) _ _ (pop_free-Takes bm1 held v1 (ground (arith, e)))
          (λ r. after_Kept bm bm1 held r k)
