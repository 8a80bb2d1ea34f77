-- ===== src/BlockManager/Invariant/Prefill.antt =====
-- `match_cached_prefix` and `prepare_prefill` of nanovllm/engine/block_manager.py as a whole.
use mathlib.Core.List.{append-nil}
use native.Mathlib.Nat.{div-mul-le_self, le_trans, mul-le-mul_right}
use nano_vllm_online_serving.Common.{
  ℕ, ◌+◌, ◌-◌, ◌*◌, ◌/◌, ◌≤◌, ◌<◌, ◌≡◌, refl, ap, sym, ◌∙◌, true, false, ◌&&◌, some, List, [], ◌∷◌,
  ◌++◌, arith, ltb, ◌==◌, length, get_elem?, Bool-cases, inl, inr, Ensures, Ensures-mono,
  Ensures-value,
}
use nano_vllm_online_serving.Sequence.{Sequence, block_for_tokens, reset_cache_usage}
use nano_vllm_online_serving.BlockManager.State.{
  BlockManager, CacheConfig, add_miss_reason, initial_prefix_hash,
}
use nano_vllm_online_serving.BlockManager.Eviction.{purge_expired}
use nano_vllm_online_serving.BlockManager.Prefix.{
  max_cache_tokens, match_loop, match_enabled, match_cached_prefix,
}
use nano_vllm_online_serving.BlockManager.Invariant.{IsValid, Kept, Same, hash_of}
use nano_vllm_online_serving.BlockManager.Invariant.Purges.{Kept-refl, Kept-trans}
use nano_vllm_online_serving.BlockManager.Invariant.Expiry.{
  Kept-counters, purge_expired-PurgesExactly,
}
use nano_vllm_online_serving.BlockManager.Invariant.Taking.{room}
use nano_vllm_online_serving.BlockManager.Invariant.Releasing.{tokens_of, Undisturbed}
use nano_vllm_online_serving.BlockManager.Invariant.Matching.{Matches, match_loop-Matches}

-- What `match_cached_prefix` has done: `new` are the blocks that it attached.
pub record Matched (bm : BlockManager) (seq : Sequence) (others : List ℕ)
    (r : BlockManager × Sequence) : Type 0 where
  pub new : List ℕ
  pub table : r.1.block_table ≡ seq.block_table ++ new
  pub only : r.1 ≡ record seq {
    block_table = r.1.block_table;
    num_cached_tokens = r.1.num_cached_tokens;
    num_computed_tokens = r.1.num_computed_tokens;
    cache_read_input_tokens = r.1.cache_read_input_tokens;
    cache_creation_input_tokens = r.1.cache_creation_input_tokens;
  }
  pub computed : r.1.num_computed_tokens ≡ seq.num_computed_tokens + length new * bm.block_size
  pub left : length new * bm.block_size ≤ seq.prefill_target_tokens - 1
  pub tokens :
      (k b : ℕ)
      → get_elem? new k ≡ some b
      → tokens_of (get_elem? r.0.blocks b)
        ≡ block_for_tokens bm.block_size seq (length seq.block_table + k) seq.prefill_target_tokens
  pub valid : IsValid r.0 (r.1.block_table ++ others)
  pub same : Same bm r.0
  pub undisturbed : Undisturbed (seq.block_table ++ others) bm r.0
  pub room : room bm ≤ room r.0 + length new

max_cache_tokens-le : (seq : Sequence) → max_cache_tokens seq ≤ seq.prefill_target_tokens - 1
unfolding max_cache_tokens
max_cache_tokens-le seq = omega arith

whole_blocks : (n bs tokens : ℕ) → n ≤ tokens / bs → n * bs ≤ tokens
whole_blocks n bs tokens h = le_trans (mul-le-mul_right bs h) (div-mul-le_self tokens bs)

-- From the state after the purge to the one before it.
after_purge :
    (bm bm1 : BlockManager) (seq : Sequence) (others : List ℕ) (rounds : ℕ)
    (r : BlockManager × Sequence)
    → seq.block_table ≡ []
    → rounds * bm.block_size ≤ seq.prefill_target_tokens - 1
    → IsValid bm (seq.block_table ++ others)
    → Kept bm bm1
    → Matches bm1 (reset_cache_usage seq) others rounds r
    → Matched bm seq others r
unfolding reset_cache_usage block_for_tokens
after_purge bm bm1 seq others rounds r empty fits v k m =
    let size : bm1.block_size ≡ bm.block_size =
      ap (λ (g : CacheConfig). g.block_size) k.same.config in
    record {
      new = m.new;
      table = m.table;
      only =
          m.only
          ∙ ap
              (λ n. record seq {
                block_table = r.1.block_table;
                num_cached_tokens = r.1.num_cached_tokens;
                num_computed_tokens = r.1.num_computed_tokens;
                cache_read_input_tokens = r.1.cache_read_input_tokens;
                cache_creation_input_tokens = n;
              })
              (sym (ap (λ (q : Sequence). q.cache_creation_input_tokens) m.only));
      computed = rw size at m.computed;
      left = le_trans (mul-le-mul_right bm.block_size m.bound) fits;
      tokens = λ j b at. rw size at (m.tokens j b at);
      valid = m.valid;
      same = record {
        host = m.same.host ∙ k.same.host;
        config = m.same.config ∙ k.same.config;
        blocks = m.same.blocks ∙ k.same.blocks;
      };
      undisturbed = λ j h.
          let kept = k.live j (ground (arith, h, v.0 j)) in
          ((m.content j).0 ∙ ap hash_of kept, (m.content j).1 ∙ ap tokens_of kept);
      room = omega (arith, m.room, k.room);
    }

-- Nothing is attached; the creation count may have been reset.
idle-Matched :
    (bm bm1 : BlockManager) (seq : Sequence) (others : List ℕ) (n m : ℕ)
    → IsValid bm (seq.block_table ++ others)
    → IsValid bm1 (seq.block_table ++ others)
    → Kept bm bm1
    → Matched bm seq others
        (bm1, record seq { cache_read_input_tokens = n; cache_creation_input_tokens = m })
idle-Matched bm bm1 seq others n m v v1 k = record {
  new = [];
  table = sym (append-nil seq.block_table);
  only = refl;
  computed = omega arith;
  left = omega arith;
  tokens = λ j b at. cc;
  valid = v1;
  same = k.same;
  undisturbed =
      λ j h. let kept = k.live j (ground (arith, h, v.0 j)) in (ap hash_of kept, ap tokens_of kept);
  room = omega (arith, k.room);
}

match_enabled-Matched :
    (bm : BlockManager) (seq : Sequence) (others : List ℕ)
    → seq.block_table ≡ []
    → IsValid bm (seq.block_table ++ others)
    → 0 < bm.block_size
    → Ensures (match_enabled bm seq) (Matched bm seq others)
unfolding match_enabled reset_cache_usage
match_enabled-Matched bm seq others empty v positive =
    let seq1 = reset_cache_usage seq in
    let tokens = max_cache_tokens seq1 in
    let (r, purged, p) =
      Ensures-value (purge_expired bm) _
        (purge_expired-PurgesExactly bm (seq.block_table ++ others) v) in
    let size : r.0.block_size ≡ bm.block_size =
      ap (λ (g : CacheConfig). g.block_size) p.kept.same.config in
    let fits = le_trans (div-mul-le_self tokens bm.block_size) (max_cache_tokens-le seq1) in
    rw purged (elim (Bool-cases (ltb tokens bm.prefix_cache_min_tokens)) [
      | inl short ↦ rw short (
          idle-Matched bm _ seq others 0 0 v p.valid
            (Kept-trans p.kept (Kept-counters r.0 _ r.0.time_reads)))
      | inr long ↦ rw long (elim (Bool-cases (ltb 0 tokens && tokens / bm.block_size == 0)) [
        | inl partial ↦ rw partial (
            idle-Matched bm _ seq others 0 0 v p.valid
              (Kept-trans p.kept (Kept-counters r.0 _ r.0.time_reads)))
        | inr full ↦ rw full (
            Ensures-mono
              (match_loop (tokens / bm.block_size) 0 (initial_prefix_hash r.0 seq1) r.0 seq1) _ _
              (match_loop-Matches (tokens / bm.block_size) 0 (initial_prefix_hash r.0 seq1) r.0 seq1
                others (ground (arith, empty)) p.valid (rw size positive)
                (rw size (omega (arith, fits))))
              (λ s m.
                after_purge bm r.0 seq others (tokens / bm.block_size) s empty fits v p.kept m))
      ])
    ])

match_resumed :
    (bm : BlockManager) (seq : Sequence) (b : ℕ) (bs : List ℕ)
    → seq.block_table ≡ b ∷ bs
    → match_cached_prefix bm seq ≡ some (bm, seq)
unfolding match_cached_prefix
match_resumed bm seq b bs e = ground (arith, e)

match_disabled :
    (bm : BlockManager) (seq : Sequence)
    → seq.block_table ≡ []
    → (bm.enable_prefix_cache && seq.cache_enabled) ≡ false
    → match_cached_prefix bm seq ≡ some (add_miss_reason "cache_disabled" 1 bm, seq)
unfolding match_cached_prefix
match_disabled bm seq e off = ground (arith, e, off)

match_fresh :
    (bm : BlockManager) (seq : Sequence)
    → seq.block_table ≡ []
    → (bm.enable_prefix_cache && seq.cache_enabled) ≡ true
    → match_cached_prefix bm seq ≡ match_enabled bm seq
unfolding match_cached_prefix
match_fresh bm seq e on = ground (arith, e, on)

match_by_table :
    (bm : BlockManager) (seq : Sequence) (others table : List ℕ)
    → seq.block_table ≡ table
    → IsValid bm (seq.block_table ++ others)
    → 0 < bm.block_size
    → Ensures (match_cached_prefix bm seq) (Matched bm seq others)
match_by_table bm seq others (b ∷ bs) e v positive = rw (match_resumed bm seq b bs e) (
    idle-Matched bm bm seq others seq.cache_read_input_tokens seq.cache_creation_input_tokens v v
      (Kept-refl bm))
match_by_table bm seq others [] e v positive =
    elim (Bool-cases (bm.enable_prefix_cache && seq.cache_enabled)) [
      | inl on ↦ rw (match_fresh bm seq e on) (match_enabled-Matched bm seq others e v positive)
      | inr off ↦ rw (match_disabled bm seq e off) (
          idle-Matched bm _ seq others seq.cache_read_input_tokens seq.cache_creation_input_tokens v
            v (Kept-counters bm _ bm.time_reads))
    ]

-- In a valid state `match_cached_prefix` raises nothing. The blocks that it attaches hold the
-- tokens of the sequence at their places, whatever the hashes are; at least one token of a
-- non-empty target stays to be computed; and no block that anyone holds is disturbed.
pub match_cached_prefix-Matched :
    (bm : BlockManager) (seq : Sequence) (others : List ℕ)
    → IsValid bm (seq.block_table ++ others)
    → 0 < bm.block_size
    → Ensures (match_cached_prefix bm seq) (Matched bm seq others)
match_cached_prefix-Matched bm seq others v positive =
    match_by_table bm seq others seq.block_table refl v positive
