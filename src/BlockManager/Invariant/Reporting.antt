-- ===== src/BlockManager/Invariant/Reporting.antt =====
-- `stats` of nanovllm/engine/block_manager.py: its numbers add up.
use nano_vllm_online_serving.Common.{
  ℕ, ◌+◌, ◌≡◌, List, [], ◌∷◌, TextDict, arith, length, get_elem?, add_to, total, total-add_to,
  Option-cases, inl, inr, Ensures, Ensures-mono, Ensures-value, ◌>>=◌,
}
use nano_vllm_online_serving.BlockManager.State.{Block, BlockManager}
use nano_vllm_online_serving.BlockManager.Eviction.{purge_expired}
use nano_vllm_online_serving.BlockManager.Reports.{
  Stats, count_namespaces, cached_blocks_by_namespace, stats,
}
use nano_vllm_online_serving.BlockManager.Invariant.{IsValid}
use nano_vllm_online_serving.BlockManager.Invariant.Purges.{Purges}
use nano_vllm_online_serving.BlockManager.Invariant.Expiry.{purge_expired-PurgesExactly}
use nano_vllm_online_serving.BlockManager.Invariant.Oldest.{Resolves}
use nano_vllm_online_serving.BlockManager.Invariant.Taking.{cached-Resolves}
use nano_vllm_online_serving.BlockManager.Invariant.Conservation.{blocks_conserved}

total-count_namespaces :
    (blocks : List Block) (ids : List ℕ) (result : TextDict ℕ)
    → Resolves blocks ids
    → Ensures (count_namespaces blocks ids result) (λ d. total d ≡ total result + length ids)
unfolding count_namespaces
total-count_namespaces blocks [] result known = omega arith
total-count_namespaces blocks (i ∷ ids) result known = elim (Option-cases (get_elem? blocks i)) [
  | inl absent ↦ absurd (ground (arith, absent, known i))
  | inr (b, found) ↦
      rw (found, ◌>>=◌)
        (Ensures-mono (count_namespaces blocks ids (add_to b.namespace 1 result)) _ _
          (total-count_namespaces blocks ids (add_to b.namespace 1 result)
            (λ j h. ground (arith, known j)))
          (λ d e. omega (arith, e, total-add_to b.namespace 1 result)))
]

-- The counts of blocks add up to all blocks, those of the namespaces to the cached ones.
pub record AddsUp (r : Stats) : Type 0 where
  pub blocks : r.free_blocks + r.cached_blocks + r.used_blocks ≡ r.num_blocks
  pub namespaces : total r.by_namespace ≡ r.cached_blocks

-- `stats` raises nothing and touches no block that is held. In its report the free, the cached and
-- the used blocks add up to all blocks, and the counts of the namespaces to the cached blocks.
pub stats-AddsUp :
    (bm : BlockManager) (held : List ℕ)
    → IsValid bm held
    → Ensures (stats bm) (λ r. Purges bm held r.0 × AddsUp r.1)
unfolding stats cached_blocks_by_namespace
stats-AddsUp bm held v =
    let (p, e, done) = Ensures-value (purge_expired bm) _ (purge_expired-PurgesExactly bm held v) in
    let (d, e1, counted) = Ensures-value (count_namespaces p.0.blocks p.0.cached_block_ids []) _ (
      total-count_namespaces p.0.blocks p.0.cached_block_ids []
        (cached-Resolves p.0 held done.valid)) in
    rw (e, ◌>>=◌)
      (rw (e1, ◌>>=◌)
        (
          (done.valid, done.kept),
          record {
            blocks = blocks_conserved p.0 held done.valid;
            namespaces = omega (arith, counted);
          },
        ))
