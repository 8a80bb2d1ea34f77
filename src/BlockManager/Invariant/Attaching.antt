-- ===== src/BlockManager/Invariant/Attaching.antt =====
-- One more reference to a block that is in the cache: `_attach_cached_block` of
-- nanovllm/engine/block_manager.py.
use nano_vllm_online_serving.Common.{
  ℕ, ◌+◌, ◌≤◌, ◌≡◌, refl, false, Option, none, some, List, ◌∷◌, arith, ◌==◌, if◌then◌else◌,
  get_elem?, get_elem?-set, length-set, discard, count-discard, length-discard, add_elem,
  count-add_elem, Ensures, ◌>>=◌,
}
use nano_vllm_online_serving.BlockManager.State.{
  Block, BlockManager, no_hash, write_block, tick, after_reading, current_time,
}
use nano_vllm_online_serving.BlockManager.Allocation.{
  refreshed_expiry, after_refresh, attach_cached_block,
}
use nano_vllm_online_serving.BlockManager.Invariant.{IsValid, Same, hash_of}
use nano_vllm_online_serving.BlockManager.Invariant.Taking.{room}
use nano_vllm_online_serving.BlockManager.Invariant.Releasing.{tokens_of}

-- No block changes its hash or its tokens.
abbrev pub SameContent : BlockManager → BlockManager → Type 0
SameContent bm bm' =
    (j : ℕ)
    → (hash_of (get_elem? bm'.blocks j) ≡ hash_of (get_elem? bm.blocks j))
      × (tokens_of (get_elem? bm'.blocks j) ≡ tokens_of (get_elem? bm.blocks j))

pub record Attaches (bm : BlockManager) (held : List ℕ) (i : ℕ) (bm' : BlockManager) : Type 0 where
  pub valid : IsValid bm' (i ∷ held)
  pub same : Same bm bm'
  pub mapping : bm'.hash_to_block_id ≡ bm.hash_to_block_id
  pub content : SameContent bm bm'
  pub room : room bm ≤ room bm' + 1

-- The state before the count of clock readings is settled, with any new expiry.
abbrev attached : ℕ → Block → Option ℕ → BlockManager → BlockManager
attached i b expires_at bm =
    let unused = b.ref_count == 0 in
    write_block i
      (record b {
        ref_count = b.ref_count + 1;
        last_accessed = bm.clock + 1;
        expires_at = expires_at;
      })
      (record (tick bm) {
        cached_block_ids = if unused then discard i bm.cached_block_ids else bm.cached_block_ids;
        used_block_ids = if unused then add_elem i bm.used_block_ids else bm.used_block_ids;
      })

attached-Attaches :
    (i : ℕ) (b : Block) (expires_at : Option ℕ) (bm : BlockManager) (held : List ℕ)
    → IsValid bm held
    → get_elem? bm.blocks i ≡ some b
    → no_hash b.hash ≡ false
    → Attaches bm held i (attached i b expires_at bm)
attached-Attaches i b expires_at bm held v e hashed =
    let new : Block = record b {
      ref_count = b.ref_count + 1;
      last_accessed = bm.clock + 1;
      expires_at = expires_at;
    } in
    record {
      valid = (
        λ j. ground (
          arith,
          e,
          hashed,
          v.0 j,
          get_elem?-set bm.blocks i j new e,
          count-discard i j bm.cached_block_ids,
          count-add_elem i j bm.used_block_ids,
        ),
        λ h j m. ground (arith, e, v.1 h j m, get_elem?-set bm.blocks i j new e),
      );
      same = record { host = refl; config = refl; blocks = length-set bm.blocks i new };
      mapping = refl;
      content = λ j. (
        ground (arith, e, get_elem?-set bm.blocks i j new e),
        ground (arith, e, get_elem?-set bm.blocks i j new e),
      );
      room = ground (arith, length-discard i bm.cached_block_ids);
    }

read-Attaches :
    (bm : BlockManager) (held : List ℕ) (i : ℕ) (bm' : BlockManager)
    → Attaches bm held i bm'
    → Attaches bm held i (after_reading bm')
read-Attaches bm held i bm' a = record {
  valid = a.valid;
  same = record { host = a.same.host; config = a.same.config; blocks = a.same.blocks };
  mapping = a.mapping;
  content = a.content;
  room = a.room;
}

-- Attaching a hashed block raises nothing and counts one more holder; no block changes its hash or
-- its tokens, and the dictionary of hashes stays as it is.
pub attach_cached_block-Attaches :
    (i : ℕ) (b : Block) (ttl : Option ℕ) (bm : BlockManager) (held : List ℕ)
    → IsValid bm held
    → get_elem? bm.blocks i ≡ some b
    → no_hash b.hash ≡ false
    → Ensures (attach_cached_block i ttl bm) (Attaches bm held i)
unfolding attach_cached_block refreshed_expiry after_refresh
attach_cached_block-Attaches i b none bm held v e hashed =
    rw (e, ◌>>=◌) (attached-Attaches i b none bm held v e hashed)
attach_cached_block-Attaches i b (some t) bm held v e hashed =
    rw (e, ◌>>=◌)
      (read-Attaches bm held i _
        (attached-Attaches i b (some (current_time bm + t)) bm held v e hashed))
