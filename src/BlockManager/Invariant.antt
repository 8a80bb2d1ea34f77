-- ===== src/BlockManager/Invariant.antt =====
-- The invariant of `BlockManager` (nanovllm/engine/block_manager.py). `held` lists the block ids
-- that stand in block tables, one entry for each reference.
pub mod Moves
pub mod Purges
pub mod Expiry
pub mod Oldest
pub mod Taking
pub mod Allocating
pub mod Quotas
pub mod NamespaceQuota
pub mod Releasing
pub mod Emptying
pub mod Tables
pub mod Attaching
pub mod Rounds
pub mod Matching
pub mod Prefill
pub mod Preparing
pub mod Estimating
pub mod Entering
pub mod Committing
pub mod Conservation
pub mod Reporting
use nano_vllm_online_serving.Common.{
  ℕ, ◌+◌, ◌≡◌, ◌<◌, Bool, true, false, Option, none, some, List, Dict, ◌==◌, if◌then◌else◌, length,
  get_elem?, count, lookup,
}
use nano_vllm_online_serving.BlockManager.Hashing.{Host}
use nano_vllm_online_serving.BlockManager.State.{Block, CacheConfig, BlockManager, no_hash}

abbrev pub hash_of : Option Block → Option ℕ
hash_of none = none
hash_of (some b) = b.hash

abbrev pub ref_of : Option Block → ℕ
ref_of none = 0
ref_of (some b) = b.ref_count

-- How often a block with these attributes stands in the free list, the cached set, the used set.
abbrev pub free_weight : ℕ → Option ℕ → ℕ
free_weight refs hash = if refs == 0 then (if no_hash hash then 1 else 0) else 0

abbrev pub cached_weight : ℕ → Option ℕ → ℕ
cached_weight refs hash = if refs == 0 then (if no_hash hash then 0 else 1) else 0

abbrev pub used_weight : ℕ → ℕ
used_weight refs = if refs == 0 then 0 else 1

-- Id `i` stands for the block `o`, occurs so often in the three lists, and is held `r` times.
abbrev pub Cell : ℕ → Option Block → ℕ → ℕ → ℕ → ℕ → Type 0
Cell i none f c u r = (f ≡ 0) × (c ≡ 0) × (u ≡ 0) × (r ≡ 0)
Cell i (some b) f c u r =
    (b.block_id ≡ i)
    × (b.ref_count ≡ r)
    × (f ≡ free_weight r b.hash)
    × (c ≡ cached_weight r b.hash)
    × (u ≡ used_weight r)

abbrev pub CellOf : BlockManager → List ℕ → ℕ → Type 0
CellOf bm held i =
    Cell i (get_elem? bm.blocks i) (count i bm.free_block_ids) (count i bm.cached_block_ids)
      (count i bm.used_block_ids) (count i held)

-- A hash leads to a block that carries it.
abbrev pub IsMapped : List Block → Dict ℕ → Type 0
IsMapped blocks d = (h i : ℕ) → lookup h d ≡ some i → hash_of (get_elem? blocks i) ≡ some h

abbrev pub IsValid : BlockManager → List ℕ → Type 0
IsValid bm held = ((i : ℕ) → CellOf bm held i) × IsMapped bm.blocks bm.hash_to_block_id

-- Block `i` has just left the three lists, and nobody holds it. All other ids are in order.
pub record IsLoose (i : ℕ) (b : Block) (bm : BlockManager) (held : List ℕ) : Type 0 where
  pub others : (j : ℕ) → (i == j) ≡ false → CellOf bm held j
  pub here : get_elem? bm.blocks i ≡ some b
  pub id : b.block_id ≡ i
  pub unfree : count i bm.free_block_ids ≡ 0
  pub uncached : count i bm.cached_block_ids ≡ 0
  pub unused : count i bm.used_block_ids ≡ 0
  pub unheld : count i held ≡ 0
  pub mapped : IsMapped bm.blocks bm.hash_to_block_id

-- What no operation changes.
pub record Same (bm bm' : BlockManager) : Type 0 where
  pub host : bm'.host ≡ bm.host
  pub config : bm'.config ≡ bm.config
  pub blocks : length bm'.blocks ≡ length bm.blocks

-- What purges and evictions leave as it was: the room, the used set, and every live block.
pub record Kept (bm bm' : BlockManager) : Type 0 where
  pub same : Same bm bm'
  pub room :
      length bm'.free_block_ids + length bm'.cached_block_ids
      ≡ length bm.free_block_ids + length bm.cached_block_ids
  pub used : bm'.used_block_ids ≡ bm.used_block_ids
  pub live :
      (j : ℕ) → 0 < ref_of (get_elem? bm.blocks j) → get_elem? bm'.blocks j ≡ get_elem? bm.blocks j
