-- ===== src/BlockManager/Invariant/Preparing.antt =====
-- `prepare_prefill` of nanovllm/engine/block_manager.py: when it returns, and what it then holds.
use nano_vllm_online_serving.Common.{
  ℕ, ◌+◌, ◌≤◌, ◌<◌, ◌≡◌, ap, ◌∙◌, none, some, List, ◌++◌, arith, lt→ltb, length, length-append,
  Ensures, Ensures-value, ◌>>=◌,
}
use nano_vllm_online_serving.Sequence.{Sequence}
use nano_vllm_online_serving.BlockManager.State.{BlockManager}
use nano_vllm_online_serving.BlockManager.Allocation.{ensure_blocks}
use nano_vllm_online_serving.BlockManager.Prefix.{match_cached_prefix, prepare_prefill}
use nano_vllm_online_serving.BlockManager.Invariant.{IsValid}
use nano_vllm_online_serving.BlockManager.Invariant.Taking.{room}
use nano_vllm_online_serving.BlockManager.Invariant.Tables.{
  Grows, missing_blocks, missing_blocks-Same, ensure_blocks-Grows,
}
use nano_vllm_online_serving.BlockManager.Invariant.Prefill.{Matched, match_cached_prefix-Matched}

-- What the match took from the room it also put into the table.
missing-Matched :
    (bm : BlockManager) (seq : Sequence) (others : List ℕ) (target : ℕ)
    (r : BlockManager × Sequence)
    → Matched bm seq others r
    → missing_blocks bm seq target ≤ room bm
    → missing_blocks r.0 r.1 target ≤ room r.0
missing-Matched bm seq others target r m h =
    let grown : length r.1.block_table ≡ length seq.block_table + length m.new =
      ap length m.table ∙ length-append seq.block_table m.new in
    omega (arith, h, grown, m.room, missing_blocks-Same r.1 target m.same)

prepare_prefill_goes :
    (bm : BlockManager) (seq : Sequence) (target : ℕ) (r : BlockManager × Sequence)
    → match_cached_prefix bm seq ≡ some r
    → r.1.num_computed_tokens < target
    → prepare_prefill bm seq target ≡ ensure_blocks r.0 r.1 target
unfolding prepare_prefill
prepare_prefill_goes bm seq target r e h = rw (e, ◌>>=◌) (rw (lt→ltb _ _ h))

pub prepare_prefill_raises :
    (bm : BlockManager) (seq : Sequence) (target : ℕ) (r : BlockManager × Sequence)
    → match_cached_prefix bm seq ≡ some r
    → target ≤ r.1.num_computed_tokens
    → prepare_prefill bm seq target ≡ none
unfolding prepare_prefill
prepare_prefill_raises bm seq target r e h = ground (arith, e, h)

-- With room for the target's blocks, `prepare_prefill` first matches the prefix cache. It succeeds
-- where the tokens computed after the match are fewer than the target, and then adds the missing
-- blocks; where they are not, its assertion fails.
pub prepare_prefill_decides :
    (bm : BlockManager) (seq : Sequence) (others : List ℕ) (target : ℕ)
    → IsValid bm (seq.block_table ++ others)
    → 0 < bm.block_size
    → missing_blocks bm seq target ≤ room bm
    → (r : BlockManager × Sequence) × (match_cached_prefix bm seq ≡ some r)
      × Matched bm seq others r
      × (r.1.num_computed_tokens < target
          → Ensures
              (prepare_prefill bm seq target)
              (Grows r.0 r.1 others (missing_blocks r.0 r.1 target)))
      × (target ≤ r.1.num_computed_tokens → prepare_prefill bm seq target ≡ none)
prepare_prefill_decides bm seq others target v positive h =
    let (r, e, m) =
      Ensures-value (match_cached_prefix bm seq) (Matched bm seq others)
        (match_cached_prefix-Matched bm seq others v positive) in
    (
      r,
      e,
      m,
      λ less. rw (prepare_prefill_goes bm seq target r e less) (
          ensure_blocks-Grows r.0 r.1 others target m.valid (omega (arith, less))
            (missing-Matched bm seq others target r m h)),
      λ over. prepare_prefill_raises bm seq target r e over,
    )
