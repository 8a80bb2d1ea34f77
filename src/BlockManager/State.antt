-- ===== src/BlockManager/State.antt =====
-- The state of `BlockManager` in nanovllm/engine/block_manager.py. A hash of -1 is `none`. A Python
-- set is the list of its elements in the order of iteration, which no theorem fixes. `time_reads`
-- counts the calls of `time.time()` so far.
use nano_vllm_online_serving.Common.{
  ℕ, ◌+◌, ◌-◌, ◌*◌, Bool, true, false, String, Option, none, some, List, [], ◌∷◌, Dict, TextDict,
  ltb, ◌==◌, ◌&&◌, min, if◌then◌else◌, set, range_from, require, ◌>>◌, lookup, erase, add_to, map,
}
use nano_vllm_online_serving.Sequence.{Sequence}
use nano_vllm_online_serving.BlockManager.Hashing.{Host, compute_namespace_hash}

pub record Block : Type 0 where
  pub block_id : ℕ
  pub ref_count : ℕ
  pub hash : Option ℕ
  pub token_ids : Option (List ℕ)
  pub namespace : String
  pub last_accessed : ℕ
  pub expires_at : Option ℕ

abbrev pub no_hash : Option ℕ → Bool
no_hash none = true
no_hash (some h) = false

-- `Block.is_cached` and `Block.is_free`
unfoldable pub is_cached : Block → Bool
is_cached b = if no_hash b.hash then false else b.ref_count == 0

unfoldable pub is_free : Block → Bool
is_free b = b.ref_count == 0 && no_hash b.hash

unfoldable pub reset_live : Block → Block
reset_live b = record b { ref_count = 1; hash = none; token_ids = none }

unfoldable pub update_hash : Block → ℕ → List ℕ → ℕ → String → Block
update_hash b hash_value token_ids clock namespace = record b {
  hash = some hash_value;
  token_ids = some token_ids;
  namespace = namespace;
  last_accessed = clock;
}

unfoldable pub clear : Block → Block
clear b = record b {
  ref_count = 0;
  hash = none;
  token_ids = none;
  namespace = "";
  expires_at = none;
}

-- The statistics among the attributes.
pub record Counters : Type 0 where
  pub prefix_cache_hits : ℕ
  pub prefix_cache_misses : ℕ
  pub prefix_cache_hits_by_namespace : TextDict ℕ
  pub prefix_cache_misses_by_namespace : TextDict ℕ
  pub cache_read_input_tokens_by_namespace : TextDict ℕ
  pub cache_creation_input_tokens_by_namespace : TextDict ℕ
  pub evictions : ℕ
  pub global_quota_evictions : ℕ
  pub namespace_quota_evictions : ℕ
  pub expired_purges : ℕ
  pub duplicate_cache_blocks_skipped : ℕ
  pub prefix_cache_miss_reasons : TextDict ℕ

-- The options of `BlockManager.__init__`.
pub record CacheConfig : Type 0 where
  pub num_blocks : ℕ
  pub block_size : ℕ
  pub enable_prefix_cache : Bool
  pub prefix_cache_min_tokens : ℕ
  pub max_cached_blocks : ℕ
  pub max_cached_blocks_per_namespace : ℕ

-- The attributes of `BlockManager`; those that never change stand in `config`.
pub record BlockManager : Type 0 where
  pub host : Host
  pub config : CacheConfig
  pub open config use {
    block_size, enable_prefix_cache, prefix_cache_min_tokens, max_cached_blocks,
    max_cached_blocks_per_namespace,
  }
  pub blocks : List Block
  pub hash_to_block_id : Dict ℕ
  pub free_block_ids : List ℕ
  pub cached_block_ids : List ℕ
  pub used_block_ids : List ℕ
  pub clock : ℕ
  pub time_reads : ℕ
  pub counters : Counters

abbrev pub new_block : ℕ → Block
new_block i = record {
  block_id = i;
  ref_count = 0;
  hash = none;
  token_ids = none;
  namespace = "";
  last_accessed = 0;
  expires_at = none;
}

abbrev pub new_counters : Counters
new_counters = record {
  prefix_cache_hits = 0;
  prefix_cache_misses = 0;
  prefix_cache_hits_by_namespace = [];
  prefix_cache_misses_by_namespace = [];
  cache_read_input_tokens_by_namespace = [];
  cache_creation_input_tokens_by_namespace = [];
  evictions = 0;
  global_quota_evictions = 0;
  namespace_quota_evictions = 0;
  expired_purges = 0;
  duplicate_cache_blocks_skipped = 0;
  prefix_cache_miss_reasons =
      ("cache_disabled", 0)
      ∷ ("namespace_mismatch", 0)
      ∷ ("ttl_expired", 0)
      ∷ ("prefix_shorter_than_min", 0)
      ∷ ("no_full_block_at_breakpoint", 0)
      ∷ ("hash_miss", 0)
      ∷ ("token_guard_mismatch", 0)
      ∷ [];
}

-- `BlockManager.__init__`
unfoldable pub new_block_manager : Host → CacheConfig → Option BlockManager
new_block_manager host c = do
  require (ltb 0 c.num_blocks)
  some (record {
    host = host;
    config = c;
    blocks = map new_block (range_from 0 c.num_blocks);
    hash_to_block_id = [];
    free_block_ids = range_from 0 c.num_blocks;
    cached_block_ids = [];
    used_block_ids = [];
    clock = 0;
    time_reads = 0;
    counters = new_counters;
  })

-- `time.time()`: the reading, and the state after it.
abbrev pub current_time : BlockManager → ℕ
current_time bm = bm.host.time bm.time_reads

abbrev pub after_reading : BlockManager → BlockManager
after_reading bm = record bm { time_reads = bm.time_reads + 1 }

-- `self.blocks[i] = b`, for the mutation of the object that stands there.
abbrev pub write_block : ℕ → Block → BlockManager → BlockManager
write_block i b bm = record bm { blocks = set bm.blocks i b }

-- `_tick`: the new clock value is `clock + 1`.
abbrev pub tick : BlockManager → BlockManager
tick bm = record bm { clock = bm.clock + 1 }

abbrev pub add_miss_reason : String → ℕ → BlockManager → BlockManager
add_miss_reason reason value bm = record bm {
  counters =
      let c = bm.counters in
      record c { prefix_cache_miss_reasons = add_to reason value c.prefix_cache_miss_reasons };
}

-- `_prompt_tokens_in_block`
unfoldable pub prompt_tokens_in_block : BlockManager → Sequence → ℕ → ℕ
prompt_tokens_in_block bm seq block_index =
    let block_start = block_index * bm.block_size in
    min (block_start + bm.block_size) seq.num_prompt_tokens - block_start

-- `_initial_prefix_hash`
unfoldable pub initial_prefix_hash : BlockManager → Sequence → Option ℕ
initial_prefix_hash bm seq = compute_namespace_hash bm.host seq.cache_namespace

-- The dictionary after `_remove_hash_mapping(block)`.
unfoldable pub without_mapping : Block → Dict ℕ → Dict ℕ
without_mapping b d = elim b.hash [
  | none ↦ d
  | some h ↦ elim (lookup h d) [ none ↦ d | some i ↦ if i == b.block_id then erase h d else d ]
]
