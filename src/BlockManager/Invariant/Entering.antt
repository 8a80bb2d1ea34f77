-- ===== src/BlockManager/Invariant/Entering.antt =====
-- One block enters the prefix cache: the body of the loop of `commit_computed_tokens`
-- (nanovllm/engine/block_manager.py).
use nano_vllm_online_serving.Common.{
  ℕ, suc, ◌+◌, ◌<◌, ◌≡◌, refl, ap, ◌∙◌, Bool, true, false, Option, none, some, List, arith, ◌==◌,
  length, get_elem?, get_elem?-set, length-set, lookup, insert, lookup-insert, Option-cases,
  Bool-cases, inl, inr,
}
use nano_vllm_online_serving.Sequence.{Sequence, block_for_tokens}
use nano_vllm_online_serving.BlockManager.Hashing.{compute_hash}
use nano_vllm_online_serving.BlockManager.State.{
  Block, BlockManager, Counters, update_hash, write_block, tick, prompt_tokens_in_block,
}
use nano_vllm_online_serving.BlockManager.Allocation.{refreshed_expiry, after_refresh}
use nano_vllm_online_serving.BlockManager.Prefix.{holds_tokens}
use nano_vllm_online_serving.BlockManager.Commit.{
  is_duplicate, register_block, commit_loop, count_duplicate,
}
use nano_vllm_online_serving.BlockManager.Invariant.{IsValid, Same, hash_of}
use nano_vllm_online_serving.BlockManager.Invariant.Taking.{room}
use nano_vllm_online_serving.BlockManager.Invariant.Releasing.{tokens_of}
use nano_vllm_online_serving.BlockManager.Invariant.Rounds.{mapped_block}

-- A hashed block stays as it is; only hash, tokens and bookkeeping of block `j` may be new, and
-- then they are `h` and `ts`.
pub record Enters (bm : BlockManager) (held : List ℕ) (j h : ℕ) (ts : List ℕ) (bm' : BlockManager)
    : Type 0 where
  pub valid : IsValid bm' held
  pub same : Same bm bm'
  pub here : hash_of (get_elem? bm'.blocks j) ≡ some h
  pub tokens : tokens_of (get_elem? bm'.blocks j) ≡ some ts
  pub found : lookup h bm'.hash_to_block_id ≡ some j
  pub others : (k : ℕ) → (j == k) ≡ false → get_elem? bm'.blocks k ≡ get_elem? bm.blocks k
  pub room : room bm' ≡ room bm

abbrev entry : BlockManager → ℕ → List ℕ → Sequence → Option ℕ → Block → Block
entry bm h ts seq e b = record (update_hash b h ts (bm.clock + 1) seq.cache_namespace) {
  expires_at = e;
}

abbrev entered : BlockManager → ℕ → ℕ → Block → BlockManager
entered bm h j b =
    write_block j b (record (tick bm) { hash_to_block_id = insert h j bm.hash_to_block_id })

entered-Enters :
    (bm : BlockManager) (held : List ℕ) (j h : ℕ) (ts : List ℕ) (seq : Sequence) (x : Option ℕ)
    (b : Block)
    → IsValid bm held
    → get_elem? bm.blocks j ≡ some b
    → 0 < b.ref_count
    → b.hash ≡ none
    → Enters bm held j h ts (entered bm h j (entry bm h ts seq x b))
unfolding update_hash
entered-Enters bm held j h ts seq x b v e used bare =
    let write = λ (k : ℕ). get_elem?-set bm.blocks j k (entry bm h ts seq x b) e in
    record {
      valid = (
        λ k. ground (arith, e, used, bare, v.0 k, write k),
        λ g k m.
            ground (arith, e, bare, m, v.1 g k, write k, lookup-insert h g j bm.hash_to_block_id),
      );
      same = record { host = refl; config = refl; blocks = length-set bm.blocks j _ };
      here = ground (arith, write j);
      tokens = ground (arith, write j);
      found = ground (arith, lookup-insert h h j bm.hash_to_block_id);
      others = λ k ne. ground (arith, ne, write k);
      room = refl;
    }

-- Clock readings and counters play no part.
touch-Enters :
    (bm : BlockManager) (held : List ℕ) (j h : ℕ) (ts : List ℕ) (bm' : BlockManager) (c : Counters)
    (t : ℕ)
    → Enters bm held j h ts bm'
    → Enters bm held j h ts (record bm' { counters = c; time_reads = t })
touch-Enters bm held j h ts bm' c t n = record {
  valid = n.valid;
  same = record { host = n.same.host; config = n.same.config; blocks = n.same.blocks };
  here = n.here;
  tokens = n.tokens;
  found = n.found;
  others = n.others;
  room = n.room;
}

refresh-Enters :
    (bm : BlockManager) (held : List ℕ) (j h : ℕ) (ts : List ℕ) (bm' : BlockManager)
    (ttl : Option ℕ)
    → Enters bm held j h ts bm'
    → Enters bm held j h ts (after_refresh ttl bm')
unfolding after_refresh
refresh-Enters bm held j h ts bm' none n = n
refresh-Enters bm held j h ts bm' (some t) n =
    touch-Enters bm held j h ts bm' bm'.counters (bm'.time_reads + 1) n

pub register_block-Enters :
    (i h : ℕ) (ts : List ℕ) (j : ℕ) (b : Block) (bm : BlockManager) (seq : Sequence) (held : List ℕ)
    → IsValid bm held
    → get_elem? bm.blocks j ≡ some b
    → 0 < b.ref_count
    → b.hash ≡ none
    → Enters bm held j h ts (register_block i h ts j b bm seq).0
unfolding register_block
register_block-Enters i h ts j b bm seq held v e used bare =
    let x = refreshed_expiry bm seq.cache_ttl_seconds in
    let bm1 = entered bm h j (entry bm h ts seq x b) in
    let bm2 = after_refresh seq.cache_ttl_seconds bm1 in
    touch-Enters bm held j h ts bm2 _ bm2.time_reads (
      refresh-Enters bm held j h ts bm1 seq.cache_ttl_seconds
        (entered-Enters bm held j h ts seq x b v e used bare))

register_block-seq :
    (i h : ℕ) (ts : List ℕ) (j : ℕ) (b : Block) (bm : BlockManager) (seq : Sequence)
    → (register_block i h ts j b bm seq).1 ≡ record seq {
      cache_creation_input_tokens =
          seq.cache_creation_input_tokens + prompt_tokens_in_block bm seq i;
    }
unfolding register_block
register_block-seq i h ts j b bm seq = refl

pub is_duplicate-returns :
    (bm : BlockManager) (held : List ℕ) (j h : ℕ) (ts : List ℕ)
    → IsValid bm held
    → (d : Bool) × (is_duplicate bm j ts (lookup h bm.hash_to_block_id) ≡ some d)
unfolding is_duplicate
is_duplicate-returns bm held j h ts v = elim (Option-cases (lookup h bm.hash_to_block_id)) [
  | inl absent ↦ (false, ground (arith, absent))
  | inr (k, found) ↦
      let (b, e, hashed) = mapped_block bm held h k v found in
      elim (Bool-cases (k == j)) [
        | inl self ↦ (false, ground (arith, found, self))
        | inr other ↦ (holds_tokens b ts, ground (arith, found, other, e))
      ]
]

-- The ways a round of the loop can go.
module _ (up_to rounds i : ℕ) (p : Option ℕ) (bm : BlockManager) (seq : Sequence) (j : ℕ)
    (b : Block) (ts : List ℕ) (at : get_elem? seq.block_table i ≡ some j)
    (here : get_elem? bm.blocks j ≡ some b)
    (read : block_for_tokens bm.block_size seq i up_to ≡ some ts) where
  pub commit_loop_hashed :
      (h : ℕ)
      → b.hash ≡ some h
      → commit_loop up_to (suc rounds) i p bm seq ≡ commit_loop up_to rounds (i + 1) (some h) bm seq
  unfolding commit_loop
  commit_loop_hashed h e = ground (arith, at, here, read, e)

  pub commit_loop_partial :
      b.hash ≡ none
      → (length ts == bm.block_size) ≡ false
      → commit_loop up_to (suc rounds) i p bm seq ≡ commit_loop up_to rounds (i + 1) p bm seq
  unfolding commit_loop
  commit_loop_partial e partial = ground (arith, at, here, read, e, partial)

  pub commit_loop_duplicate :
      b.hash ≡ none
      → (length ts == bm.block_size) ≡ true
      → is_duplicate bm j ts (lookup (compute_hash bm.host ts p) bm.hash_to_block_id) ≡ some true
      → commit_loop up_to (suc rounds) i p bm seq
        ≡ commit_loop up_to rounds
            (i + 1)
            (some (compute_hash bm.host ts p))
            (count_duplicate bm)
            seq
  unfolding commit_loop
  commit_loop_duplicate e full d = ground (arith, at, here, read, e, full, d)

  -- The sequence after a block of its table has entered the cache.
  abbrev pub credited : Sequence
  credited = record seq {
    cache_creation_input_tokens = seq.cache_creation_input_tokens + prompt_tokens_in_block bm seq i;
  }

  pub commit_loop_enter :
      b.hash ≡ none
      → (length ts == bm.block_size) ≡ true
      → is_duplicate bm j ts (lookup (compute_hash bm.host ts p) bm.hash_to_block_id) ≡ some false
      → commit_loop up_to (suc rounds) i p bm seq
        ≡ commit_loop up_to rounds
            (i + 1)
            (some (compute_hash bm.host ts p))
            (register_block i (compute_hash bm.host ts p) ts j b bm seq).0
            credited
  unfolding commit_loop
  commit_loop_enter e full d =
      let g = compute_hash bm.host ts p in
      let r = register_block i g ts j b bm seq in
      let entered : commit_loop up_to (suc rounds) i p bm seq
          ≡ commit_loop up_to rounds (i + 1) (some g) r.0 r.1 =
        ground (arith, at, here, read, e, full, d) in
      entered
      ∙ ap (commit_loop up_to rounds (i + 1) (some g) r.0) (register_block-seq i g ts j b bm seq)
