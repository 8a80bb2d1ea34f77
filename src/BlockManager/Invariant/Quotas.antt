-- ===== src/BlockManager/Invariant/Quotas.antt =====
-- The quotas on cached blocks: `_enforce_namespace_quota` and `_enforce_global_quota` of
-- nanovllm/engine/block_manager.py.
use nano_vllm_online_serving.Common.{
  ℕ, zero, suc, ◌+◌, ◌≤◌, ◌<◌, ◌≡◌, refl, ap, true, some, List, [], ◌∷◌, arith, ltb, ◌==◌, length,
  get_elem?, elem, elem-count, discard, length-discard, Bool-cases, Option-cases, inl, inr, Ensures,
  Ensures-mono, Ensures-value,
}
use native.Mathlib.Nat.{le_refl}
use nano_vllm_online_serving.BlockManager.State.{Block, CacheConfig, BlockManager}
use nano_vllm_online_serving.BlockManager.Eviction.{
  free_block, purge_cached_block, oldest, add_global_eviction, global_quota_loop,
  enforce_global_quota,
}
use nano_vllm_online_serving.BlockManager.Invariant.{IsValid}
use nano_vllm_online_serving.BlockManager.Invariant.Moves.{uncache-IsLoose}
use nano_vllm_online_serving.BlockManager.Invariant.Purges.{
  Purges, Within, Kept-trans, Kept-refl, free_cached-Purges, purge_cached_block_lem,
}
use nano_vllm_online_serving.BlockManager.Invariant.Expiry.{Kept-counters}
use nano_vllm_online_serving.BlockManager.Invariant.Oldest.{Resolves, IsOldest, oldest-IsOldest}
use nano_vllm_online_serving.BlockManager.Invariant.Taking.{cached-Resolves}

-- One round of a quota loop: the oldest of `ids`, all of them cached, goes to the free list.
pub record Evicts (ids : List ℕ) (bm : BlockManager) (held : List ℕ) : Type 0 where
  pub victim : ℕ
  pub block : Block
  pub chosen : oldest bm.blocks ids ≡ some victim
  pub best : IsOldest bm.blocks ids victim
  pub here : get_elem? bm.blocks victim ≡ some block
  pub cached : elem victim bm.cached_block_ids ≡ true
  pub purge :
      purge_cached_block victim bm
      ≡ some (
          free_block victim block
            (record bm { cached_block_ids = discard victim bm.cached_block_ids }))
  pub purged : Purges bm held (
      free_block victim block (record bm { cached_block_ids = discard victim bm.cached_block_ids }))

pub evict_round :
    (ids : List ℕ) (bm : BlockManager) (held : List ℕ)
    → IsValid bm held
    → Within ids bm
    → 0 < length ids
    → Evicts ids bm held
evict_round [] bm held v w h = elim h [ ]
evict_round (i ∷ ids) bm held v w h =
    let known : Resolves bm.blocks (i ∷ ids) = (λ j m.
      cached-Resolves bm held v j
        (ground (arith, m, w j, elem-count j (i ∷ ids), elem-count j bm.cached_block_ids))) in
    let (victim, chosen, best) =
      Ensures-value (oldest bm.blocks (i ∷ ids)) (IsOldest bm.blocks (i ∷ ids))
        (oldest-IsOldest bm.blocks i ids known) in
    let cached : elem victim bm.cached_block_ids ≡ true = ground (
      arith,
      best.listed,
      w victim,
      elem-count victim (i ∷ ids),
      elem-count victim bm.cached_block_ids,
    ) in
    elim (Option-cases (get_elem? bm.blocks victim)) [
      | inl absent ↦
          absurd (ground (arith, absent, v.0 victim, elem-count victim bm.cached_block_ids, cached))
      | inr (b, e) ↦
          let (loose, idle, hashed) = uncache-IsLoose victim b bm held v e cached in
          record {
            victim = victim;
            block = b;
            chosen = chosen;
            best = best;
            here = e;
            cached = cached;
            purge = purge_cached_block_lem victim b bm e idle cached;
            purged = free_cached-Purges victim b bm held v e cached;
          }
    ]

-- After the loop the cached set is within the limit, and the result is what it lost.
pub record MeetsGlobal (bm : BlockManager) (held : List ℕ) (limit n : ℕ) (r : BlockManager × ℕ)
    : Type 0 where
  pub purges : Purges bm held r.0
  pub within : length r.0.cached_block_ids ≤ limit
  pub number : r.1 + length r.0.cached_block_ids ≡ n + length bm.cached_block_ids

global_quota_step :
    (fuel n : ℕ) (bm : BlockManager) (held : List ℕ)
    → ltb bm.max_cached_blocks (length bm.cached_block_ids) ≡ true
    → (s : Evicts bm.cached_block_ids bm held)
    → global_quota_loop (suc fuel) n bm
      ≡ global_quota_loop fuel (n + 1) (
          add_global_eviction (
            free_block s.victim s.block
              (record bm { cached_block_ids = discard s.victim bm.cached_block_ids })))
unfolding global_quota_loop
global_quota_step fuel n bm held over s = rw (over, global_quota_loop) (simp (s.chosen, s.purge))

pub free_block-fewer :
    (i : ℕ) (b : Block) (bm : BlockManager)
    → elem i bm.cached_block_ids ≡ true
    → (let bm1 = free_block i b (record bm { cached_block_ids = discard i bm.cached_block_ids }) in
        length bm1.cached_block_ids + 1 ≡ length bm.cached_block_ids)
unfolding free_block
free_block-fewer i b bm m = ground (arith, m, length-discard i bm.cached_block_ids)

global_quota_loop-MeetsGlobal :
    (fuel n : ℕ) (bm : BlockManager) (held : List ℕ)
    → IsValid bm held
    → length bm.cached_block_ids < fuel
    → Ensures (global_quota_loop fuel n bm) (MeetsGlobal bm held bm.max_cached_blocks n)
unfolding global_quota_loop
global_quota_loop-MeetsGlobal zero n bm held v h = elim h [ ]
global_quota_loop-MeetsGlobal (suc fuel) n bm held v h =
    elim (Bool-cases (ltb bm.max_cached_blocks (length bm.cached_block_ids))) [
      | inl over ↦
          let s =
            evict_round bm.cached_block_ids bm held v (λ j. le_refl _) (ground (arith, over)) in
          let bm1 =
            free_block s.victim s.block
              (record bm { cached_block_ids = discard s.victim bm.cached_block_ids }) in
          let fewer = free_block-fewer s.victim s.block bm s.cached in
          rw (global_quota_step fuel n bm held over s) (
            Ensures-mono (global_quota_loop fuel (n + 1) (add_global_eviction bm1))
              (MeetsGlobal (add_global_eviction bm1) held bm1.max_cached_blocks (n + 1))
              (MeetsGlobal bm held bm.max_cached_blocks n)
              (global_quota_loop-MeetsGlobal fuel (n + 1) (add_global_eviction bm1) held s.purged.0
                (omega (arith, fewer)))
              (λ r q. record {
                purges = (
                  q.purges.0,
                  Kept-trans s.purged.1
                      (Kept-trans (Kept-counters bm1 _ bm1.time_reads) q.purges.1),
                );
                within =
                    rw (← ap (λ (c : CacheConfig). c.max_cached_blocks) s.purged.1.same.config)
                      q.within;
                number = omega (arith, fewer, q.number);
              }))
      | inr under ↦
          rw (under, global_quota_loop)
            (record { purges = (v, Kept-refl bm); within = ground (arith, under); number = refl })
    ]

-- `_enforce_global_quota` raises nothing, touches no block that is held, and with a positive quota
-- leaves at most that many cached blocks.
pub enforce_global_quota-MeetsGlobal :
    (bm : BlockManager) (held : List ℕ)
    → IsValid bm held
    → Ensures (enforce_global_quota bm) (λ r.
      Purges bm held r.0
      × (0 < bm.max_cached_blocks → length r.0.cached_block_ids ≤ bm.max_cached_blocks))
unfolding enforce_global_quota
enforce_global_quota-MeetsGlobal bm held v = elim (Bool-cases (bm.max_cached_blocks == 0)) [
  | inl unlimited ↦ rw unlimited ((v, Kept-refl bm), λ h. absurd (ground (arith, unlimited)))
  | inr limited ↦ rw limited (
      Ensures-mono (global_quota_loop (suc (length bm.cached_block_ids)) 0 bm) _ _
        (global_quota_loop-MeetsGlobal (suc (length bm.cached_block_ids)) 0 bm held v (omega arith))
        (λ r q. (q.purges, λ h. q.within)))
]
