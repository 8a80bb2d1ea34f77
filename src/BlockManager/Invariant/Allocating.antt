-- ===== src/BlockManager/Invariant/Allocating.antt =====
-- `_allocate_new_block` of nanovllm/engine/block_manager.py.
use nano_vllm_online_serving.Common.{
  ℕ, ◌+◌, ◌<◌, ◌≡◌, ◌∙◌, none, List, ◌∷◌, arith, get_elem?, get_elem?-set, length-set, count,
  count-add_elem, elem-count, count-discard, Ensures, length-discard, Ensures->>=,
}
use nano_vllm_online_serving.BlockManager.State.{Block, BlockManager, reset_live}
use nano_vllm_online_serving.BlockManager.Allocation.{
  take_free_block_id, make_live, allocate_new_block,
}
use nano_vllm_online_serving.BlockManager.Invariant.{
  CellOf, IsMapped, IsValid, IsLoose, Same, ref_of,
}
use nano_vllm_online_serving.BlockManager.Invariant.Taking.{room, Takes, take_free_block_id-Takes}

-- A new block goes to one new holder: nobody held it, and no live block changes.
pub record Allocates (bm : BlockManager) (held : List ℕ) (bm' : BlockManager) (i : ℕ) : Type 0 where
  pub valid : IsValid bm' (i ∷ held)
  pub unheld : count i held ≡ 0
  pub same : Same bm bm'
  pub less : room bm' + 1 ≡ room bm
  pub live :
      (j : ℕ) → 0 < ref_of (get_elem? bm.blocks j) → get_elem? bm'.blocks j ≡ get_elem? bm.blocks j

make_live-cells :
    (i : ℕ) (b : Block) (bm : BlockManager) (held : List ℕ)
    → IsLoose i b bm held
    → (j : ℕ) → CellOf (make_live i b bm) (i ∷ held) j
unfolding make_live reset_live
make_live-cells i b bm held l j = ground (
  arith,
  l.here,
  l.id,
  l.others j,
  get_elem?-set bm.blocks i j (record (reset_live b) { last_accessed = bm.clock + 1 }) l.here,
  count-add_elem i j bm.used_block_ids,
  count-discard i j bm.cached_block_ids,
)

make_live-IsMapped :
    (i : ℕ) (b : Block) (bm : BlockManager) (held : List ℕ)
    → IsLoose i b bm held
    → b.hash ≡ none
    → IsMapped (make_live i b bm).blocks (make_live i b bm).hash_to_block_id
unfolding make_live reset_live
make_live-IsMapped i b bm held l bare h j e = ground (
  arith,
  e,
  bare,
  l.here,
  l.mapped h j e,
  get_elem?-set bm.blocks i j (record (reset_live b) { last_accessed = bm.clock + 1 }) l.here,
)

make_live-Allocates :
    (bm bm1 : BlockManager) (held : List ℕ) (i : ℕ)
    → (t : Takes bm held bm1 i) → Allocates bm held (make_live i t.block bm1) i
unfolding make_live reset_live
make_live-Allocates bm bm1 held i t = record {
  valid = (
    make_live-cells i t.block bm1 held t.loose,
    make_live-IsMapped i t.block bm1 held t.loose t.bare,
  );
  unheld = t.loose.unheld;
  same = record {
    host = t.same.host;
    config = t.same.config;
    blocks = length-set bm1.blocks i _ ∙ t.same.blocks;
  };
  less = ground (
    arith,
    t.less,
    t.loose.uncached,
    elem-count i bm1.cached_block_ids,
    length-discard i bm1.cached_block_ids,
  );
  live = λ j h. ground (
    arith,
    h,
    t.live j h,
    t.idle,
    t.loose.here,
    get_elem?-set bm1.blocks i j (record (reset_live t.block) { last_accessed = bm1.clock + 1 })
        t.loose.here,
  );
}

-- With a free or a cached block there is a block to allocate: the call raises nothing, hands out a
-- block that nobody holds, counts its new holder, and leaves every live block as it was.
pub allocate_new_block-Allocates :
    (bm : BlockManager) (held : List ℕ)
    → IsValid bm held
    → 0 < room bm
    → Ensures (allocate_new_block bm) (λ r. Allocates bm held r.0 r.1)
unfolding allocate_new_block
allocate_new_block-Allocates bm held v h =
    Ensures->>= (take_free_block_id bm) _ (λ r. Takes bm held r.0 r.1) _
      (take_free_block_id-Takes bm held v h)
      (λ r t. simp (t.loose.here, t.idle) (make_live-Allocates bm r.0 held r.1 t))
