-- ===== src/BlockManager/Invariant/Tables.antt =====
-- Operations on a sequence's block table: `can_allocate`, `ensure_blocks`, `deallocate` of
-- nanovllm/engine/block_manager.py. `others` are the references of all other sequences.
use mathlib.Core.List.{append_assoc, append-nil, reverse-cons}
use nano_vllm_online_serving.Common.{
  ℕ, zero, suc, ◌+◌, ◌-◌, ◌≤◌, ◌<◌, ◌≡◌, refl, ap, ◌∙◌, true, false, List, [], ◌∷◌, ◌++◌, arith,
  leb, lt→ltb, length, get_elem?, count, count-append, elem, Ensures, Ensures-mono, Ensures->>=,
  Ensures-value, reverse,
}
use nano_vllm_online_serving.Sequence.{Sequence, num_blocks_for_tokens, reset_cache_usage}
use nano_vllm_online_serving.BlockManager.State.{BlockManager, CacheConfig}
use nano_vllm_online_serving.BlockManager.Eviction.{purge_expired}
use nano_vllm_online_serving.BlockManager.Allocation.{
  allocate_new_block, available_blocks, can_allocate, grow_table, ensure_blocks, release_all,
  deallocate,
}
use nano_vllm_online_serving.BlockManager.Invariant.{IsValid, Same, ref_of}
use nano_vllm_online_serving.BlockManager.Invariant.Purges.{Purges}
use nano_vllm_online_serving.BlockManager.Invariant.Expiry.{purge_expired-PurgesExactly}
use nano_vllm_online_serving.BlockManager.Invariant.Taking.{room}
use nano_vllm_online_serving.BlockManager.Invariant.Allocating.{
  Allocates, allocate_new_block-Allocates,
}
use nano_vllm_online_serving.BlockManager.Invariant.Releasing.{Releases}
use nano_vllm_online_serving.BlockManager.Invariant.Emptying.{release_all-Releases}

-- Only how often an id is held matters.
pub IsValid-counts :
    (bm : BlockManager) (xs ys : List ℕ)
    → ((j : ℕ) → count j xs ≡ count j ys)
    → IsValid bm xs
    → IsValid bm ys
IsValid-counts bm xs ys h v = (λ j. ground (arith, h j, v.0 j), v.1)

count-reverse : (j : ℕ) (xs : List ℕ) → count j (reverse xs) ≡ count j xs
count-reverse j [] = refl
count-reverse j (x ∷ xs) =
    rw (reverse-cons x xs)
      (ground (arith, count-append j (reverse xs) (x ∷ []), count-reverse j xs))

-- The sequence as `deallocate` leaves it.
abbrev pub emptied : Sequence → Sequence
emptied seq = record seq {
  num_cached_tokens = 0;
  num_computed_tokens = 0;
  block_table = [];
  cache_read_input_tokens = 0;
  cache_creation_input_tokens = 0;
}

-- In a valid state deallocating a sequence raises nothing and gives up its references only: the
-- state stays valid for the other holders, who find their blocks undisturbed, and the sequence
-- comes back with an empty table and its counts at 0.
pub deallocate-Releases :
    (bm : BlockManager) (seq : Sequence) (others : List ℕ)
    → IsValid bm (seq.block_table ++ others)
    → Ensures (deallocate bm seq) (λ r. Releases bm others r.0 × (r.1 ≡ emptied seq))
unfolding deallocate reset_cache_usage
deallocate-Releases bm seq others v =
    Ensures->>= (release_all (reverse seq.block_table) bm) _ (Releases bm others) _
      (release_all-Releases (reverse seq.block_table) bm others (
        IsValid-counts bm (seq.block_table ++ others) (reverse seq.block_table ++ others)
          (λ j. omega (
            arith,
            count-append j seq.block_table others,
            count-append j (reverse seq.block_table) others,
            count-reverse j seq.block_table,
          ))
          v))
      (λ bm' p. (p, refl))

-- A table grew by `k` fresh blocks; the other attributes of the sequence, and all blocks that were
-- live before, are as they were.
pub record Grows (bm : BlockManager) (seq : Sequence) (others : List ℕ) (k : ℕ)
    (r : BlockManager × Sequence) : Type 0 where
  pub new : List ℕ
  pub table : r.1 ≡ record seq { block_table = seq.block_table ++ new }
  pub number : length new ≡ k
  pub fresh : (j : ℕ) → elem j new ≡ true → count j (seq.block_table ++ others) ≡ 0
  pub valid : IsValid r.0 ((seq.block_table ++ new) ++ others)
  pub same : Same bm r.0
  pub less : room r.0 + k ≡ room bm
  pub live :
      (j : ℕ) → 0 < ref_of (get_elem? bm.blocks j) → get_elem? r.0.blocks j ≡ get_elem? bm.blocks j

-- One more reference at the end of a table.
pub count-extend :
    (j i : ℕ) (table others : List ℕ)
    → count j (i ∷ (table ++ others)) ≡ count j ((table ++ i ∷ []) ++ others)
count-extend j i table others = ground (
  arith,
  count-append j table others,
  count-append j (table ++ i ∷ []) others,
  count-append j table (i ∷ []),
)

grow_one :
    (bm : BlockManager) (seq : Sequence) (others : List ℕ) (k : ℕ) (r : BlockManager × ℕ)
    (s : BlockManager × Sequence)
    → Allocates bm (seq.block_table ++ others) r.0 r.1
    → Grows r.0 (record seq { block_table = seq.block_table ++ r.1 ∷ [] }) others k s
    → Grows bm seq others (suc k) s
grow_one bm seq others k r s p q = record {
  new = r.1 ∷ q.new;
  table = rw (← append_assoc seq.block_table (r.1 ∷ []) q.new) q.table;
  number = omega (arith, q.number);
  fresh = λ j m. ground (arith, m, q.fresh j, p.unheld, count-extend j r.1 seq.block_table others);
  valid = rw (← append_assoc seq.block_table (r.1 ∷ []) q.new) q.valid;
  same = record {
    host = q.same.host ∙ p.same.host;
    config = q.same.config ∙ p.same.config;
    blocks = q.same.blocks ∙ p.same.blocks;
  };
  less = omega (arith, p.less, q.less);
  live = λ j h. ground (arith, p.live j h, q.live j);
}

grow_table-Grows :
    (k : ℕ) (bm : BlockManager) (seq : Sequence) (others : List ℕ)
    → IsValid bm (seq.block_table ++ others)
    → k ≤ room bm
    → Ensures (grow_table k bm seq) (Grows bm seq others k)
unfolding grow_table
grow_table-Grows zero bm seq others v h = record {
  new = [];
  table = rw (append-nil seq.block_table);
  number = refl;
  fresh = λ j m. cc;
  valid = rw (append-nil seq.block_table) v;
  same = record { host = refl; config = refl; blocks = refl };
  less = omega arith;
  live = λ j m. refl;
}
grow_table-Grows (suc k) bm seq others v h =
    Ensures->>= (allocate_new_block bm) _ (λ r. Allocates bm (seq.block_table ++ others) r.0 r.1) _
      (allocate_new_block-Allocates bm (seq.block_table ++ others) v (omega arith))
      (λ r p.
        let seq1 = record seq { block_table = seq.block_table ++ r.1 ∷ [] } in
        Ensures-mono (grow_table k r.0 seq1) (Grows r.0 seq1 others k) (Grows bm seq others (suc k))
          (grow_table-Grows k r.0 seq1 others
            (IsValid-counts r.0 (r.1 ∷ (seq.block_table ++ others)) (seq1.block_table ++ others)
              (λ j. count-extend j r.1 seq.block_table others) p.valid)
            (omega (arith, p.less)))
          (λ s q. grow_one bm seq others k r s p q))

-- How many blocks the table lacks for so many tokens.
abbrev pub missing_blocks : BlockManager → Sequence → ℕ → ℕ
missing_blocks bm seq target = num_blocks_for_tokens bm.block_size target - length seq.block_table

-- For a positive target and with room for the missing blocks, `ensure_blocks` raises nothing and
-- adds exactly those, which nobody held before; live blocks stay as they are.
pub ensure_blocks-Grows :
    (bm : BlockManager) (seq : Sequence) (others : List ℕ) (target : ℕ)
    → IsValid bm (seq.block_table ++ others)
    → 0 < target
    → missing_blocks bm seq target ≤ room bm
    → Ensures (ensure_blocks bm seq target) (Grows bm seq others (missing_blocks bm seq target))
unfolding ensure_blocks
ensure_blocks-Grows bm seq others target v positive h =
    rw (lt→ltb 0 target positive)
      (grow_table-Grows (missing_blocks bm seq target) bm seq others v h)

-- The answer of `can_allocate` compares what is missing with the room beyond the reserve.
pub can_allocate-PurgesExactly :
    (bm : BlockManager) (seq : Sequence) (held : List ℕ) (target reserve : ℕ)
    → IsValid bm held
    → Ensures
        (can_allocate bm seq target reserve)
        (λ r. Purges bm held r.0 × (r.1 ≡ leb (missing_blocks bm seq target) (room bm - reserve)))
unfolding can_allocate available_blocks
can_allocate-PurgesExactly bm seq held target reserve v =
    let (r, e, p) = Ensures-value (purge_expired bm) _ (purge_expired-PurgesExactly bm held v) in
    rw e ((p.valid, p.kept), rw p.kept.room)

pub missing_blocks-Same :
    {bm bm' : BlockManager} (seq : Sequence) (target : ℕ)
    → Same bm bm'
    → missing_blocks bm' seq target ≡ missing_blocks bm seq target
missing_blocks-Same seq target s =
    ap (λ (c : CacheConfig). num_blocks_for_tokens c.block_size target - length seq.block_table)
      s.config

-- For a positive target `can_allocate` raises nothing and changes nothing that anyone holds. Where
-- it answers yes, `ensure_blocks` goes through from the state that it leaves, and adds exactly the
-- missing blocks; where it answers no, the room beyond the reserve is too small.
pub can_allocate_decides :
    (bm : BlockManager) (seq : Sequence) (others : List ℕ) (target reserve : ℕ)
    → IsValid bm (seq.block_table ++ others)
    → 0 < target
    → Ensures (can_allocate bm seq target reserve) (λ r.
      Purges bm (seq.block_table ++ others) r.0
      × (r.1 ≡ true
          → Ensures
              (ensure_blocks r.0 seq target)
              (Grows r.0 seq others (missing_blocks bm seq target)))
      × (r.1 ≡ false → room bm < missing_blocks bm seq target + reserve))
can_allocate_decides bm seq others target reserve v positive =
    Ensures-mono (can_allocate bm seq target reserve) _ _
      (can_allocate-PurgesExactly bm seq (seq.block_table ++ others) target reserve v)
      (λ r q.
        let same = missing_blocks-Same seq target q.0.1.same in
        (
          q.0,
          λ fits. rw (← same) (
              ensure_blocks-Grows r.0 seq others target q.0.0 positive
                (ground (arith, same, q.1, fits, q.0.1.room))),
          λ short. ground (arith, q.1, short),
        ))
