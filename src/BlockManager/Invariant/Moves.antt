-- ===== src/BlockManager/Invariant/Moves.antt =====
-- One block moves between the pools: into the free list, out of the cache, out of the free list,
-- into a block table (nanovllm/engine/block_manager.py).
use nano_vllm_online_serving.Common.{
  ℕ, ◌≡◌, true, false, none, some, List, [], ◌∷◌, arith, get_elem?, get_elem?-set, count-append,
  count-discard, count-add_elem, add_elem, elem, elem-count, discard, lookup, lookup-erase, Dict,
  Option-cases, inl, inr,
}
use nano_vllm_online_serving.BlockManager.State.{
  Block, BlockManager, no_hash, clear, without_mapping,
}
use nano_vllm_online_serving.BlockManager.Eviction.{free_block}
use nano_vllm_online_serving.BlockManager.Invariant.{CellOf, IsMapped, IsValid, IsLoose}

-- What `_remove_hash_mapping` leaves was there before, and does not lead from the block's hash to
-- the block.
lookup-without_mapping :
    (h j : ℕ) (b : Block) (d : Dict ℕ)
    → lookup h (without_mapping b d) ≡ some j
    → (lookup h d ≡ some j) × (b.hash ≡ some h → j ≡ b.block_id → ⊥)
unfolding without_mapping
lookup-without_mapping h j b d e = elim (Option-cases b.hash) [
  | inl bare ↦ ground arith
  | inr (k, hashed) ↦ elim (Option-cases (lookup k d)) [
    | inl absent ↦ ground arith
    | inr (i, found) ↦ ground (arith, lookup-erase k h d)
  ]
]

free_block-IsMapped :
    (i : ℕ) (b : Block) (bm : BlockManager) (held : List ℕ)
    → IsLoose i b bm held
    → IsMapped (free_block i b bm).blocks (free_block i b bm).hash_to_block_id
unfolding free_block clear
free_block-IsMapped i b bm held v h j e =
    let (found, other) = lookup-without_mapping h j b bm.hash_to_block_id e in
    ground (
      arith,
      v.here,
      v.id,
      found,
      other,
      v.mapped h j found,
      get_elem?-set bm.blocks i j (clear b) v.here,
    )

free_block-cells :
    (i : ℕ) (b : Block) (bm : BlockManager) (held : List ℕ)
    → IsLoose i b bm held
    → (j : ℕ) → CellOf (free_block i b bm) held j
unfolding free_block clear
free_block-cells i b bm held v j = ground (
  arith,
  v.here,
  v.id,
  v.others j,
  get_elem?-set bm.blocks i j (clear b) v.here,
  count-append j bm.free_block_ids (i ∷ []),
)

-- A loose block that is cleared and appended to the free list is in order again.
pub free_block-IsValid :
    (i : ℕ) (b : Block) (bm : BlockManager) (held : List ℕ)
    → IsLoose i b bm held
    → IsValid (free_block i b bm) held
free_block-IsValid i b bm held v =
    (free_block-cells i b bm held v, free_block-IsMapped i b bm held v)

-- A loose block with a hash may enter the cached set.
pub cache-IsValid :
    (i : ℕ) (b : Block) (bm : BlockManager) (held : List ℕ)
    → IsLoose i b bm held
    → b.ref_count ≡ 0
    → no_hash b.hash ≡ false
    → IsValid (record bm { cached_block_ids = add_elem i bm.cached_block_ids }) held
cache-IsValid i b bm held v idle hashed = (
  λ j. ground (arith, v.here, v.id, v.others j, count-add_elem i j bm.cached_block_ids),
  v.mapped,
)

-- A cached block leaves the cached set.
pub uncache-IsLoose :
    (i : ℕ) (b : Block) (bm : BlockManager) (held : List ℕ)
    → IsValid bm held
    → get_elem? bm.blocks i ≡ some b
    → elem i bm.cached_block_ids ≡ true
    → IsLoose i b (record bm { cached_block_ids = discard i bm.cached_block_ids }) held
      × (b.ref_count ≡ 0)
      × (no_hash b.hash ≡ false)
uncache-IsLoose i b bm held v e m =
    let c = v.0 i in
    (
      record {
        others = λ j ne. ground (arith, v.0 j, count-discard i j bm.cached_block_ids);
        here = e;
        id = ground (arith, e, c);
        unfree = ground (arith, e, c, elem-count i bm.cached_block_ids);
        uncached =
            ground (
              arith,
              e,
              c,
              elem-count i bm.cached_block_ids,
              count-discard i i bm.cached_block_ids,
            );
        unused = ground (arith, e, c, elem-count i bm.cached_block_ids);
        unheld = ground (arith, e, c, elem-count i bm.cached_block_ids);
        mapped = v.1;
      },
      ground (arith, e, c, elem-count i bm.cached_block_ids),
      ground (arith, e, c, elem-count i bm.cached_block_ids),
    )

-- The first free block leaves the free list.
pub unfree-IsLoose :
    (i : ℕ) (rest : List ℕ) (bm : BlockManager) (held : List ℕ)
    → IsValid bm held
    → bm.free_block_ids ≡ i ∷ rest
    → (b : Block) × IsLoose i b (record bm { free_block_ids = rest }) held
      × (b.ref_count ≡ 0)
      × (b.hash ≡ none)
unfree-IsLoose i rest bm held v f = elim (Option-cases (get_elem? bm.blocks i)) [
  | inl absent ↦ absurd (ground (arith, absent, v.0 i, f))
  | inr (b, e) ↦
      let c = v.0 i in
      (
        b,
        record {
          others = λ j ne. ground (arith, v.0 j, f);
          here = e;
          id = ground (arith, e, c);
          unfree = ground (arith, e, c, f);
          uncached = ground (arith, e, c, f);
          unused = ground (arith, e, c, f);
          unheld = ground (arith, e, c, f);
          mapped = v.1;
        },
        ground (arith, e, c, f),
        ground (arith, e, c, f),
      )
]
