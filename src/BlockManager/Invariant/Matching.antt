-- ===== src/BlockManager/Invariant/Matching.antt =====
-- `match_cached_prefix` of nanovllm/engine/block_manager.py: the blocks that a sequence takes from
-- the cache hold its own tokens.
use mathlib.Core.List.{append_assoc, append-nil}
use mathlib.Core.Path.{ap₂}
use nano_vllm_online_serving.Common.{
  ℕ, zero, suc, ◌+◌, ◌*◌, ◌≤◌, ◌<◌, ◌≡◌, refl, ap, sym, ◌∙◌, Option, some, List, [], ◌∷◌, ◌++◌,
  arith, ◌==◌, length, length-append, get_elem?, lookup, min, slice, Bool-cases, Option-cases, inl,
  inr, Ensures, Ensures-mono, Ensures-value,
}
use nano_vllm_online_serving.Sequence.{Sequence, block_for_tokens}
use nano_vllm_online_serving.BlockManager.Hashing.{compute_hash}
use nano_vllm_online_serving.BlockManager.State.{
  Block, BlockManager, CacheConfig, Counters, prompt_tokens_in_block,
}
use nano_vllm_online_serving.BlockManager.Allocation.{attach_cached_block}
use nano_vllm_online_serving.BlockManager.Prefix.{holds_tokens, match_loop, count_hit, take_hit}
use nano_vllm_online_serving.BlockManager.Invariant.{IsValid, Same}
use nano_vllm_online_serving.BlockManager.Invariant.Taking.{room, cached-Resolves}
use nano_vllm_online_serving.BlockManager.Invariant.Releasing.{tokens_of}
use nano_vllm_online_serving.BlockManager.Invariant.Tables.{IsValid-counts, count-extend}
use nano_vllm_online_serving.BlockManager.Invariant.Attaching.{
  SameContent, Attaches, attach_cached_block-Attaches,
}
use nano_vllm_online_serving.BlockManager.Invariant.Rounds.{
  holds_tokens-eq, cached_elsewhere-returns, block_for_tokens-returns, mapped_block,
  match_loop_partial, match_loop_miss, match_loop_guard, match_loop_hit,
}

-- What a run of the loop has done: the table grew by `new`, whose blocks hold the tokens of the
-- sequence at their places, and the counts of tokens went up by whole blocks.
pub record Matches (bm : BlockManager) (seq : Sequence) (others : List ℕ) (rounds : ℕ)
    (r : BlockManager × Sequence) : Type 0 where
  pub new : List ℕ
  pub table : r.1.block_table ≡ seq.block_table ++ new
  pub only : r.1 ≡ record seq {
    block_table = r.1.block_table;
    num_cached_tokens = r.1.num_cached_tokens;
    num_computed_tokens = r.1.num_computed_tokens;
    cache_read_input_tokens = r.1.cache_read_input_tokens;
  }
  pub bound : length new ≤ rounds
  pub computed : r.1.num_computed_tokens ≡ seq.num_computed_tokens + length new * bm.block_size
  pub cached : r.1.num_cached_tokens ≡ seq.num_cached_tokens + length new * bm.block_size
  pub tokens :
      (k b : ℕ)
      → get_elem? new k ≡ some b
      → tokens_of (get_elem? r.0.blocks b)
        ≡ block_for_tokens bm.block_size seq (length seq.block_table + k) seq.prefill_target_tokens
  pub valid : IsValid r.0 (r.1.block_table ++ others)
  pub same : Same bm r.0
  pub content : SameContent bm r.0
  pub room : room bm ≤ room r.0 + length new

-- A round that takes nothing.
pub stop-Matches :
    (bm : BlockManager) (seq : Sequence) (others : List ℕ) (rounds : ℕ) (c : Counters)
    → IsValid bm (seq.block_table ++ others)
    → Matches bm seq others rounds (record bm { counters = c }, seq)
stop-Matches bm seq others rounds c v = record {
  new = [];
  table = sym (append-nil seq.block_table);
  only = refl;
  bound = omega arith;
  computed = omega arith;
  cached = omega arith;
  tokens = λ k b m. cc;
  valid = v;
  same = record { host = refl; config = refl; blocks = refl };
  content = λ j. (refl, refl);
  room = omega arith;
}

hit-tokens :
    (bm bm1 : BlockManager) (seq : Sequence) (others : List ℕ) (rounds i n : ℕ) (b : Block)
    (c : Counters) (r : BlockManager × Sequence)
    → get_elem? bm.blocks i ≡ some b
    → b.token_ids
      ≡ block_for_tokens bm.block_size seq (length seq.block_table) seq.prefill_target_tokens
    → Attaches bm (seq.block_table ++ others) i bm1
    → (m : Matches (record bm1 { counters = c }) (take_hit bm.block_size i n seq) others rounds r)
    → (k j : ℕ) → get_elem? (i ∷ m.new) k ≡ some j
    → tokens_of (get_elem? r.0.blocks j)
      ≡ block_for_tokens bm.block_size seq (length seq.block_table + k) seq.prefill_target_tokens
unfolding block_for_tokens
hit-tokens bm bm1 seq others rounds i n b c r e holds a m zero j at =
    let same : i ≡ j = cc in
    let place : length seq.block_table ≡ length seq.block_table + 0 = omega arith in
    rw (← same, ← place) ((m.content i).1 ∙ (a.content i).1 ∙ ap tokens_of e ∙ holds)
hit-tokens bm bm1 seq others rounds i n b c r e holds a m (suc k) j at =
    let size : bm1.block_size ≡ bm.block_size =
      ap (λ (g : CacheConfig). g.block_size) a.same.config in
    let place : length (seq.block_table ++ i ∷ []) + k ≡ length seq.block_table + suc k =
      omega (arith, length-append seq.block_table (i ∷ [])) in
    m.tokens k j at
    ∙ ap₂ (λ bs p. block_for_tokens bs (take_hit bm.block_size i n seq) p seq.prefill_target_tokens)
        size place
    ∙ refl

-- A hit on block `i`, and what the rest of the loop does.
hit-Matches :
    (bm bm1 : BlockManager) (seq : Sequence) (others : List ℕ) (rounds i n : ℕ) (b : Block)
    (c : Counters) (r : BlockManager × Sequence)
    → get_elem? bm.blocks i ≡ some b
    → b.token_ids
      ≡ block_for_tokens bm.block_size seq (length seq.block_table) seq.prefill_target_tokens
    → Attaches bm (seq.block_table ++ others) i bm1
    → Matches (record bm1 { counters = c }) (take_hit bm.block_size i n seq) others rounds r
    → Matches bm seq others (suc rounds) r
hit-Matches bm bm1 seq others rounds i n b c r e holds a m =
    let size : bm1.block_size ≡ bm.block_size =
      ap (λ (g : CacheConfig). g.block_size) a.same.config in
    record {
      new = i ∷ m.new;
      table = m.table ∙ append_assoc seq.block_table (i ∷ []) m.new;
      only = m.only;
      bound = omega (arith, m.bound);
      computed = (rw size at m.computed) ∙ (omega arith);
      cached = (rw size at m.cached) ∙ (omega arith);
      tokens = λ k j at. hit-tokens bm bm1 seq others rounds i n b c r e holds a m k j at;
      valid = m.valid;
      same = record {
        host = m.same.host ∙ a.same.host;
        config = m.same.config ∙ a.same.config;
        blocks = m.same.blocks ∙ a.same.blocks;
      };
      content = λ j. ((m.content j).0 ∙ (a.content j).0, (m.content j).1 ∙ (a.content j).1);
      room = omega (arith, a.room, m.room);
    }

-- The state after a hit, given that the reference was attached.
extended :
    (bm bm1 : BlockManager) (seq : Sequence) (others : List ℕ) (j n : ℕ) (c : Counters)
    → Attaches bm (seq.block_table ++ others) j bm1
    → IsValid (record bm1 { counters = c }) ((take_hit bm.block_size j n seq).block_table ++ others)
extended bm bm1 seq others j n c a =
    IsValid-counts bm1 (j ∷ (seq.block_table ++ others)) ((seq.block_table ++ j ∷ []) ++ others)
      (λ k. count-extend k j seq.block_table others) a.valid

Same-size : {bm bm1 : BlockManager} → Same bm bm1 → bm1.block_size ≡ bm.block_size
Same-size s = ap (λ (g : CacheConfig). g.block_size) s.config

pub match_loop-Matches :
    (rounds i : ℕ) (p : Option ℕ) (bm : BlockManager) (seq : Sequence) (others : List ℕ)
    → i ≡ length seq.block_table
    → IsValid bm (seq.block_table ++ others)
    → 0 < bm.block_size
    → (i + rounds) * bm.block_size ≤ seq.prefill_target_tokens
    → Ensures (match_loop rounds i p bm seq) (Matches bm seq others rounds)
unfolding match_loop
match_loop-Matches zero i p bm seq others at v positive h =
    stop-Matches bm seq others zero bm.counters v
match_loop-Matches (suc rounds) i p bm seq others at v positive h =
    let ts =
      slice (i * bm.block_size) (min ((i + 1) * bm.block_size) seq.prefill_target_tokens)
        seq.token_ids in
    let read =
      block_for_tokens-returns bm.block_size seq i seq.prefill_target_tokens positive
        (omega arith) in
    elim (Bool-cases (length ts == bm.block_size)) [
      | inr partial ↦
          rw (match_loop_partial rounds i p bm seq ts read partial)
            (stop-Matches bm seq others (suc rounds) bm.counters v)
      | inl full ↦ elim (Option-cases (lookup (compute_hash bm.host ts p) bm.hash_to_block_id)) [
        | inl miss ↦
            let (elsewhere, searched) =
              cached_elsewhere-returns bm.blocks ts seq.cache_namespace bm.cached_block_ids
                (cached-Resolves bm (seq.block_table ++ others) v) in
            rw (match_loop_miss rounds i p bm seq ts read elsewhere full miss searched)
              (stop-Matches bm seq others (suc rounds) _ v)
        | inr (j, found) ↦
            let (b, e, hashed) =
              mapped_block bm (seq.block_table ++ others) (compute_hash bm.host ts p) j v found in
            elim (Bool-cases (holds_tokens b ts)) [
              | inr differs ↦
                  rw (match_loop_guard rounds i p bm seq ts read j b full found e differs)
                    (stop-Matches bm seq others (suc rounds) _ v)
              | inl holds ↦
                  let (bm1, attached, a) =
                    Ensures-value (attach_cached_block j seq.cache_ttl_seconds bm) _ (
                      attach_cached_block-Attaches j b seq.cache_ttl_seconds bm
                        (seq.block_table ++ others) v e hashed) in
                  let n = prompt_tokens_in_block bm seq i in
                  rw (match_loop_hit rounds i p bm seq ts read j b bm1 full found e holds attached)
                    (Ensures-mono
                      (match_loop rounds (i + 1) (some (compute_hash bm.host ts p))
                        (count_hit seq n bm1) (take_hit bm.block_size j n seq))
                      _ _
                      (match_loop-Matches rounds (i + 1) (some (compute_hash bm.host ts p))
                        (count_hit seq n bm1) (take_hit bm.block_size j n seq) others
                        (omega (arith, at, length-append seq.block_table (j ∷ [])))
                        (extended bm bm1 seq others j n (count_hit seq n bm1).counters a)
                        (rw (Same-size a.same) positive) (rw (Same-size a.same) (omega (arith, h))))
                      (λ r m.
                        hit-Matches bm bm1 seq others rounds j n b (count_hit seq n bm1).counters r
                          e (holds_tokens-eq b ts holds ∙ sym (rw (← at) read)) a m))
            ]
      ]
    ]
