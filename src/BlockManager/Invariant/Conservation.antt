-- ===== src/BlockManager/Invariant/Conservation.antt =====
-- The start of `BlockManager` and its books: every block id stands in exactly one of the free list,
-- the cached set and the used set (nanovllm/engine/block_manager.py).
use nano_vllm_online_serving.Common.{
  ℕ, zero, suc, ◌+◌, ◌<◌, ◌≡◌, refl, ap, ◌∙◌, none, some, List, [], ◌++◌, map, arith, ltb, lt→ltb,
  if◌then◌else◌, length, length-append, get_elem?, get_elem?_lt, get_elem?-none, count,
  count-append, range_from, count-range_from, length_of_counts, Option-cases, inl, inr, Ensures,
}
use nano_vllm_online_serving.BlockManager.Hashing.{Host}
use nano_vllm_online_serving.BlockManager.State.{
  BlockManager, CacheConfig, new_block, new_block_manager,
}
use nano_vllm_online_serving.BlockManager.Invariant.{IsValid}

get_elem?-map-range_from {ℓ} :
    {A : Type ℓ} (f : ℕ → A) (i n j : ℕ)
    → get_elem? (map f (range_from i n)) j ≡ (if ltb j n then some (f (i + j)) else none)
get_elem?-map-range_from f i zero j = ground arith
get_elem?-map-range_from f i (suc n) zero =
    let e : i ≡ i + 0 = omega arith in rw (lt→ltb 0 (suc n) (omega arith)) (ap (λ k. some (f k)) e)
get_elem?-map-range_from f i (suc n) (suc j) =
    let e : i + 1 + j ≡ i + suc j = omega arith in
    get_elem?-map-range_from f (i + 1) n j
    ∙ ap (λ k. if ltb j n then some (f k) else none) e
    ∙ (ground arith)

length-range_from : (i n : ℕ) → length (range_from i n) ≡ n
length-range_from i zero = refl
length-range_from i (suc n) = ap suc (length-range_from (i + 1) n)

-- A manager with at least one block starts valid, with every block free and nothing held.
pub new_block_manager-IsValid :
    (host : Host) (c : CacheConfig)
    → 0 < c.num_blocks
    → Ensures
        (new_block_manager host c)
        (λ bm. IsValid bm [] × (length bm.free_block_ids ≡ c.num_blocks))
unfolding new_block_manager
new_block_manager-IsValid host c h = rw (lt→ltb 0 c.num_blocks h) (
  (
    λ j. ground (
      arith,
      get_elem?-map-range_from new_block 0 c.num_blocks j,
      count-range_from j 0 c.num_blocks,
    ),
    λ k j e. cc,
  ),
  length-range_from 0 c.num_blocks,
)

-- In a valid state the free, the cached and the used blocks are together as many as all blocks.
pub blocks_conserved :
    (bm : BlockManager) (held : List ℕ)
    → IsValid bm held
    → length bm.free_block_ids + length bm.cached_block_ids + length bm.used_block_ids
      ≡ length bm.blocks
blocks_conserved bm held v =
    let all = bm.free_block_ids ++ (bm.cached_block_ids ++ bm.used_block_ids) in
    let ids = range_from 0 (length bm.blocks) in
    omega (
      arith,
      length_of_counts all ids same,
      length-range_from 0 (length bm.blocks),
      length-append bm.free_block_ids (bm.cached_block_ids ++ bm.used_block_ids),
      length-append bm.cached_block_ids bm.used_block_ids,
    )
  where
    same :
        (j : ℕ)
        → count j (bm.free_block_ids ++ (bm.cached_block_ids ++ bm.used_block_ids))
          ≡ count j (range_from 0 (length bm.blocks))
    same j = elim (Option-cases (get_elem? bm.blocks j)) [
      | inl absent ↦ ground (
        arith,
        absent,
        v.0 j,
        get_elem?-none bm.blocks j absent,
        count-range_from j 0 (length bm.blocks),
        count-append j bm.free_block_ids (bm.cached_block_ids ++ bm.used_block_ids),
        count-append j bm.cached_block_ids bm.used_block_ids,
      )
      | inr (b, e) ↦ ground (
        arith,
        e,
        v.0 j,
        get_elem?_lt bm.blocks j e,
        count-range_from j 0 (length bm.blocks),
        count-append j bm.free_block_ids (bm.cached_block_ids ++ bm.used_block_ids),
        count-append j bm.cached_block_ids bm.used_block_ids,
      )
    ]
