-- ===== src/Tests/Blocks.antt =====
-- Runs of the block manager (nanovllm/engine/block_manager.py) on a small state.
use nano_vllm_online_serving.Common.{
  ◌+◌, ◌≡◌, ◌≤◌, ◌<◌, true, false, none, some, [], ◌∷◌, arith, length, Ensures,
}
use nano_vllm_online_serving.Sequence.{Sequence, num_blocks_for_tokens, max_cacheable_tokens}
use nano_vllm_online_serving.BlockManager.State.{Block, BlockManager, new_block, current_time}
use nano_vllm_online_serving.BlockManager.Eviction.{
  has_expired, purge_expired, enforce_global_quota,
}
use nano_vllm_online_serving.BlockManager.Allocation.{
  allocate_new_block, release_block, can_allocate, ensure_blocks, deallocate,
}
use nano_vllm_online_serving.BlockManager.Prefix.{match_cached_prefix, prepare_prefill}
use nano_vllm_online_serving.BlockManager.Commit.{commit_computed_tokens}
use nano_vllm_online_serving.BlockManager.Invariant.Purges.{Purges}
use nano_vllm_online_serving.BlockManager.Invariant.Expiry.{
  PurgesExactly, purge_expired-PurgesExactly,
}
use nano_vllm_online_serving.BlockManager.Invariant.Taking.{room}
use nano_vllm_online_serving.BlockManager.Invariant.Allocating.{
  Allocates, allocate_new_block-Allocates,
}
use nano_vllm_online_serving.BlockManager.Invariant.Quotas.{enforce_global_quota-MeetsGlobal}
use nano_vllm_online_serving.BlockManager.Invariant.Releasing.{Releases, release_block-Releases}
use nano_vllm_online_serving.BlockManager.Invariant.Tables.{
  Grows, missing_blocks, emptied, deallocate-Releases, ensure_blocks-Grows, can_allocate_decides,
}
use nano_vllm_online_serving.BlockManager.Invariant.Prefill.{Matched, match_cached_prefix-Matched}
use nano_vllm_online_serving.BlockManager.Invariant.Preparing.{prepare_prefill_decides}
use nano_vllm_online_serving.BlockManager.Invariant.Committing.{
  Covers, Commits, commit_computed_tokens-Commits,
}
use nano_vllm_online_serving.BlockManager.Reports.{stats}
use nano_vllm_online_serving.BlockManager.Invariant.Reporting.{AddsUp, stats-AddsUp}
use nano_vllm_online_serving.Tests.Fixtures.{warm, warm-IsValid, running_seq, waiting_seq}

abbrev cached_block : Block
cached_block = record (new_block 1) {
  hash = some 3;
  token_ids = some (1 ∷ 2 ∷ []);
  expires_at = some 1000;
}

match_cached_prefix-Matched_example :
    Ensures (match_cached_prefix warm waiting_seq) (Matched warm waiting_seq (0 ∷ []))
match_cached_prefix-Matched_example =
    match_cached_prefix-Matched warm waiting_seq (0 ∷ []) warm-IsValid (omega arith)

missing_3 : missing_blocks warm waiting_seq 3 ≤ room warm
unfolding num_blocks_for_tokens
missing_3 = omega arith

prepare_prefill_decides_example :
    (r : BlockManager × Sequence) × (match_cached_prefix warm waiting_seq ≡ some r)
    × Matched warm waiting_seq (0 ∷ []) r
    × (r.1.num_computed_tokens < 3
        → Ensures
            (prepare_prefill warm waiting_seq 3)
            (Grows r.0 r.1 (0 ∷ []) (missing_blocks r.0 r.1 3)))
    × (3 ≤ r.1.num_computed_tokens → prepare_prefill warm waiting_seq 3 ≡ none)
prepare_prefill_decides_example =
    prepare_prefill_decides warm waiting_seq (0 ∷ []) 3 warm-IsValid (omega arith) missing_3

Covers-2 : Covers warm running_seq 2
unfolding max_cacheable_tokens
Covers-2 = omega arith

commit_computed_tokens-Commits_example :
    Ensures (commit_computed_tokens warm running_seq 2) (Commits warm running_seq [] 2)
commit_computed_tokens-Commits_example =
    commit_computed_tokens-Commits warm running_seq [] 2 warm-IsValid (omega arith) Covers-2

can_allocate_decides_example : Ensures (can_allocate warm waiting_seq 3 1) (λ r.
    Purges warm (0 ∷ []) r.0
    × (r.1 ≡ true
        → Ensures
            (ensure_blocks r.0 waiting_seq 3)
            (Grows r.0 waiting_seq (0 ∷ []) (missing_blocks warm waiting_seq 3)))
    × (r.1 ≡ false → room warm < missing_blocks warm waiting_seq 3 + 1))
can_allocate_decides_example =
    can_allocate_decides warm waiting_seq (0 ∷ []) 3 1 warm-IsValid (omega arith)

ensure_blocks-Grows_example :
    Ensures
      (ensure_blocks warm waiting_seq 3)
      (Grows warm waiting_seq (0 ∷ []) (missing_blocks warm waiting_seq 3))
ensure_blocks-Grows_example =
    ensure_blocks-Grows warm waiting_seq (0 ∷ []) 3 warm-IsValid (omega arith) missing_3

deallocate-Releases_example :
    Ensures (deallocate warm running_seq) (λ r. Releases warm [] r.0 × (r.1 ≡ emptied running_seq))
deallocate-Releases_example = deallocate-Releases warm running_seq [] warm-IsValid

release_block-Releases_example : Ensures (release_block 0 warm) (Releases warm [])
release_block-Releases_example = release_block-Releases 0 warm [] warm-IsValid

allocate_new_block-Allocates_example :
    Ensures (allocate_new_block warm) (λ r. Allocates warm (0 ∷ []) r.0 r.1)
allocate_new_block-Allocates_example =
    allocate_new_block-Allocates warm (0 ∷ []) warm-IsValid (omega arith)

purge_expired-PurgesExactly_example :
    Ensures
      (purge_expired warm)
      (λ r. PurgesExactly (has_expired (current_time warm)) warm (0 ∷ []) r.0 r.1)
purge_expired-PurgesExactly_example = purge_expired-PurgesExactly warm (0 ∷ []) warm-IsValid

enforce_global_quota-MeetsGlobal_example : Ensures (enforce_global_quota warm) (λ r.
    Purges warm (0 ∷ []) r.0
    × (0 < warm.max_cached_blocks → length r.0.cached_block_ids ≤ warm.max_cached_blocks))
enforce_global_quota-MeetsGlobal_example =
    enforce_global_quota-MeetsGlobal warm (0 ∷ []) warm-IsValid

stats-AddsUp_example : Ensures (stats warm) (λ r. Purges warm (0 ∷ []) r.0 × AddsUp r.1)
stats-AddsUp_example = stats-AddsUp warm (0 ∷ []) warm-IsValid
