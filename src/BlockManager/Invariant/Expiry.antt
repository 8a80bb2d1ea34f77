-- ===== src/BlockManager/Invariant/Expiry.antt =====
-- The purges of `BlockManager` by expiry and by namespace, through their loop
-- (nanovllm/engine/block_manager.py).
use nano_vllm_online_serving.Common.{
  ℕ, ◌+◌, ◌≡◌, refl, Bool, false, String, Option, arith, ltb, ◌&&◌, if◌then◌else◌, get_elem?, count,
  elem, elem-count, length, Bool-cases, inl, inr, Ensures, Ensures-mono, Ensures->>=, List,
}
use nano_vllm_online_serving.BlockManager.State.{
  Block, BlockManager, Counters, current_time, after_reading,
}
use nano_vllm_online_serving.BlockManager.Eviction.{
  purge_loop, has_expired, purge_expired, in_namespace, purge_cached_blocks,
  purge_expired_cached_blocks,
}
use nano_vllm_online_serving.BlockManager.Invariant.{IsValid, Kept}
use nano_vllm_online_serving.BlockManager.Invariant.Purges.{
  PurgesWhere, test_at, Kept-trans, purge_loop-PurgesWhere,
}
use native.Mathlib.Nat.{le_refl}

-- Counters and the count of clock readings play no part.
pub Kept-counters :
    (bm : BlockManager) (c : Counters) (t : ℕ)
    → Kept bm (record bm { counters = c; time_reads = t })
Kept-counters bm c t = record {
  same = record { host = refl; config = refl; blocks = refl };
  room = refl;
  used = refl;
  live = λ j h. refl;
}

-- What the callers see: the cached ids that pass the test at the time of the call are gone.
pub record PurgesExactly (test : Block → Bool) (bm : BlockManager) (held : List ℕ)
    (bm' : BlockManager) (n : ℕ) : Type 0 where
  pub valid : IsValid bm' held
  pub kept : Kept bm bm'
  pub cached :
      (j : ℕ)
      → count j bm'.cached_block_ids
        ≡ (if test_at test (get_elem? bm.blocks j) then 0 else count j bm.cached_block_ids)
  pub blocks :
      (j : ℕ)
      → (elem j bm.cached_block_ids && test_at test (get_elem? bm.blocks j)) ≡ false
      → get_elem? bm'.blocks j ≡ get_elem? bm.blocks j
  pub number : n + length bm'.cached_block_ids ≡ length bm.cached_block_ids

exactly :
    (test : Block → Bool) (bm bm' : BlockManager) (held : List ℕ) (t : ℕ) (c : Counters) (n : ℕ)
    → PurgesWhere test bm.cached_block_ids 0 (record bm { time_reads = t }) held (bm', n)
    → PurgesExactly test bm held (record bm' { counters = c }) n
exactly test bm bm' held t c n ((valid, kept), purged, number) = record {
  valid = valid;
  kept =
      Kept-trans (Kept-counters bm bm.counters t)
        (Kept-trans kept (Kept-counters bm' c bm'.time_reads));
  cached = λ j. ground (arith, purged.cached j, elem-count j bm.cached_block_ids);
  blocks = purged.blocks;
  number = omega (arith, number);
}

-- `_purge_expired_cached_blocks` raises nothing, removes from the cached set exactly the blocks
-- that have expired, returns their number, and changes no other block.
pub purge_expired-PurgesExactly :
    (bm : BlockManager) (held : List ℕ)
    → IsValid bm held
    → Ensures
        (purge_expired bm)
        (λ r. PurgesExactly (has_expired (current_time bm)) bm held r.0 r.1)
unfolding purge_expired
purge_expired-PurgesExactly bm held v =
    Ensures->>=
      (purge_loop (has_expired (current_time bm)) bm.cached_block_ids 0 (after_reading bm)) _
      (PurgesWhere (has_expired (current_time bm)) bm.cached_block_ids 0 (after_reading bm) held)
      (λ r. PurgesExactly (has_expired (current_time bm)) bm held r.0 r.1)
      (purge_loop-PurgesWhere (has_expired (current_time bm)) bm.cached_block_ids 0
        (after_reading bm) held v (λ j. le_refl _))
      (λ r q. elim (Bool-cases (ltb 0 r.1)) [
        | inl some_purged ↦ rw some_purged (exactly _ bm r.0 held _ _ r.1 q)
        | inr none_purged ↦ rw none_purged (exactly _ bm r.0 held _ _ r.1 q)
      ])

-- `purge_cached_blocks` raises nothing, removes from the cached set exactly the blocks of the
-- namespace, or all without one, returns their number, and changes no other block.
pub purge_cached_blocks-PurgesExactly :
    (namespace : Option String) (bm : BlockManager) (held : List ℕ)
    → IsValid bm held
    → Ensures
        (purge_cached_blocks namespace bm)
        (λ r. PurgesExactly (in_namespace namespace) bm held r.0 r.1)
unfolding purge_cached_blocks
purge_cached_blocks-PurgesExactly namespace bm held v =
    Ensures-mono (purge_loop (in_namespace namespace) bm.cached_block_ids 0 bm) _ _
      (purge_loop-PurgesWhere (in_namespace namespace) bm.cached_block_ids 0 bm held v
        (λ j. le_refl _))
      (λ r q. exactly (in_namespace namespace) bm r.0 held bm.time_reads r.0.counters r.1 q)

abbrev pub expired_in : Option String → ℕ → Block → Bool
expired_in namespace now b = if in_namespace namespace b then has_expired now b else false

-- `purge_expired_cached_blocks` raises nothing, removes from the cached set exactly the expired
-- blocks of the namespace, or all expired ones without one, returns their number, and changes no
-- other block.
pub purge_expired_cached_blocks-PurgesExactly :
    (namespace : Option String) (bm : BlockManager) (held : List ℕ)
    → IsValid bm held
    → Ensures
        (purge_expired_cached_blocks namespace bm)
        (λ r. PurgesExactly (expired_in namespace (current_time bm)) bm held r.0 r.1)
unfolding purge_expired_cached_blocks
purge_expired_cached_blocks-PurgesExactly namespace bm held v =
    Ensures->>=
      (purge_loop (expired_in namespace (current_time bm)) bm.cached_block_ids 0 (after_reading bm))
      _
      (PurgesWhere (expired_in namespace (current_time bm)) bm.cached_block_ids 0 (after_reading bm)
        held)
      _
      (purge_loop-PurgesWhere (expired_in namespace (current_time bm)) bm.cached_block_ids 0
        (after_reading bm) held v (λ j. le_refl _))
      (λ r q. exactly _ bm r.0 held _ _ r.1 q)
