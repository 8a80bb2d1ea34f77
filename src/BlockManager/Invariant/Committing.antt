-- ===== src/BlockManager/Invariant/Committing.antt =====
-- `commit_computed_tokens` of nanovllm/engine/block_manager.py: what enters the cache, and what
-- stays as it is.
use native.Mathlib.Nat.{div-mul-le_self}
use nano_vllm_online_serving.Common.{
  ℕ, zero, suc, ◌+◌, ◌*◌, ◌/◌, ◌≤◌, ◌<◌, ◌≡◌, refl, ap, sym, ◌∙◌, ◌&&◌, Option, none, some, List,
  [], ◌∷◌, ◌++◌, arith, ltb, ◌==◌, length, get_elem?, get_elem?-some, count, count-append, min,
  slice, Option-cases, Bool-cases, inl, inr, Ensures, Ensures-mono,
}
use nano_vllm_online_serving.Sequence.{Sequence, block_for_tokens, max_cacheable_tokens}
use nano_vllm_online_serving.BlockManager.Hashing.{compute_hash}
use nano_vllm_online_serving.BlockManager.State.{
  BlockManager, CacheConfig, Counters, initial_prefix_hash,
}
use nano_vllm_online_serving.BlockManager.Commit.{
  register_block, commit_loop, commit_computed_tokens, count_duplicate,
}
use nano_vllm_online_serving.BlockManager.Invariant.{IsValid, Same, hash_of}
use nano_vllm_online_serving.BlockManager.Invariant.Taking.{room}
use nano_vllm_online_serving.BlockManager.Invariant.Releasing.{tokens_of}
use nano_vllm_online_serving.BlockManager.Invariant.Rounds.{block_for_tokens-returns}
use nano_vllm_online_serving.BlockManager.Invariant.Entering.{
  Enters, register_block-Enters, is_duplicate-returns, commit_loop_hashed, commit_loop_partial,
  commit_loop_duplicate, commit_loop_enter, credited,
}

count-get_elem : (xs : List ℕ) (i j : ℕ) → get_elem? xs i ≡ some j → 0 < count j xs
count-get_elem [] i j e = absurd cc
count-get_elem (x ∷ xs) zero j e = ground (arith, e)
count-get_elem (x ∷ xs) (suc i) j e = ground (arith, count-get_elem xs i j e)

-- A block of the table was given a hash together with the tokens of its place.
pub record IsEntry (bm : BlockManager) (seq : Sequence) (up_to j : ℕ) (o : Option (List ℕ))
    : Type 0 where
  pub place : ℕ
  pub at : get_elem? seq.block_table place ≡ some j
  pub tokens : o ≡ block_for_tokens bm.block_size seq place up_to

pub record Commits (bm : BlockManager) (seq : Sequence) (others : List ℕ) (up_to : ℕ)
    (r : BlockManager × Sequence) : Type 0 where
  pub only : r.1 ≡ record seq { cache_creation_input_tokens = r.1.cache_creation_input_tokens }
  pub valid : IsValid r.0 (seq.block_table ++ others)
  pub same : Same bm r.0
  pub room : room r.0 ≡ room bm
  -- a block that has a hash already does not change
  pub hashed :
      (j h : ℕ)
      → hash_of (get_elem? bm.blocks j) ≡ some h
      → get_elem? r.0.blocks j ≡ get_elem? bm.blocks j
  -- a block that gets a hash gets it with the tokens of its place in the sequence
  pub entered :
      (j h : ℕ)
      → hash_of (get_elem? bm.blocks j) ≡ none
      → hash_of (get_elem? r.0.blocks j) ≡ some h
      → IsEntry bm seq up_to j (tokens_of (get_elem? r.0.blocks j))

keep-Commits :
    (bm : BlockManager) (seq : Sequence) (others : List ℕ) (up_to : ℕ)
    → IsValid bm (seq.block_table ++ others)
    → Commits bm seq others up_to (bm, seq)
keep-Commits bm seq others up_to v = record {
  only = refl;
  valid = v;
  same = record { host = refl; config = refl; blocks = refl };
  room = refl;
  hashed = λ j h e. refl;
  entered = λ j h bare e. absurd (ground (arith, bare, e));
}

count-Commits :
    (bm : BlockManager) (c : Counters) (seq : Sequence) (others : List ℕ) (up_to : ℕ)
    (r : BlockManager × Sequence)
    → Commits (record bm { counters = c }) seq others up_to r
    → Commits bm seq others up_to r
count-Commits bm c seq others up_to r m = record {
  only = m.only;
  valid = m.valid;
  same = record { host = m.same.host; config = m.same.config; blocks = m.same.blocks };
  room = m.room;
  hashed = m.hashed;
  entered = λ j h bare e.
      let n = m.entered j h bare e in record { place = n.place; at = n.at; tokens = n.tokens };
}

module _ (bm bm1 : BlockManager) (seq : Sequence) (others : List ℕ) (up_to i j h n : ℕ)
    (ts : List ℕ) (r : BlockManager × Sequence) (bare : hash_of (get_elem? bm.blocks j) ≡ none)
    (at : get_elem? seq.block_table i ≡ some j)
    (read : block_for_tokens bm.block_size seq i up_to ≡ some ts)
    (e : Enters bm (seq.block_table ++ others) j h ts bm1)
    (m : Commits bm1 (record seq { cache_creation_input_tokens = n }) others up_to r) where
  enter-hashed :
      (k g : ℕ)
      → hash_of (get_elem? bm.blocks k) ≡ some g
      → get_elem? r.0.blocks k ≡ get_elem? bm.blocks k
  enter-hashed k g old = elim (Bool-cases (j == k)) [
    | inl self ↦ absurd (ground (arith, self, bare, old))
    | inr other ↦ m.hashed k g (ap hash_of (e.others k other) ∙ old) ∙ e.others k other
  ]

  enter-entered :
      (k g : ℕ)
      → hash_of (get_elem? bm.blocks k) ≡ none
      → hash_of (get_elem? r.0.blocks k) ≡ some g
      → IsEntry bm seq up_to k (tokens_of (get_elem? r.0.blocks k))
  unfolding block_for_tokens
  enter-entered k g old new = elim (Bool-cases (j == k)) [
    | inl self ↦
        let same : j ≡ k = ground (arith, self) in
        record {
          place = i;
          at = at ∙ ap some same;
          tokens = rw (← same) (ap tokens_of (m.hashed j h e.here) ∙ e.tokens ∙ sym read);
        }
    | inr other ↦
        let q = m.entered k g (ap hash_of (e.others k other) ∙ old) new in
        record {
          place = q.place;
          at = q.at;
          tokens = rw (ap (λ (c : CacheConfig). c.block_size) e.same.config) at q.tokens;
        }
  ]

  enter-Commits : Commits bm seq others up_to r
  enter-Commits = record {
    only = m.only;
    valid = m.valid;
    same = record {
      host = m.same.host ∙ e.same.host;
      config = m.same.config ∙ e.same.config;
      blocks = m.same.blocks ∙ e.same.blocks;
    };
    room = m.room ∙ e.room;
    hashed = enter-hashed;
    entered = enter-entered;
  }

pub commit_loop-Commits :
    (up_to rounds i : ℕ) (p : Option ℕ) (bm : BlockManager) (seq : Sequence) (others : List ℕ)
    → IsValid bm (seq.block_table ++ others)
    → 0 < bm.block_size
    → (i + rounds) * bm.block_size ≤ up_to
    → i + rounds ≤ length seq.block_table
    → Ensures (commit_loop up_to rounds i p bm seq) (Commits bm seq others up_to)
unfolding commit_loop
commit_loop-Commits up_to zero i p bm seq others v positive h long =
    keep-Commits bm seq others up_to v
commit_loop-Commits up_to (suc rounds) i p bm seq others v positive h long =
    let (j, at) = get_elem?-some seq.block_table i (omega arith) in
    let ts = slice (i * bm.block_size) (min ((i + 1) * bm.block_size) up_to) seq.token_ids in
    let read = block_for_tokens-returns bm.block_size seq i up_to positive (omega arith) in
    let g = compute_hash bm.host ts p in
    let listed = count-get_elem seq.block_table i j at in
    elim (Option-cases (get_elem? bm.blocks j)) [
      | inl absent ↦
          absurd (ground (arith, absent, v.0 j, listed, count-append j seq.block_table others))
      | inr (b, here) ↦ elim (Option-cases b.hash) [
        | inr (k, hashed) ↦
            rw (commit_loop_hashed up_to rounds i p bm seq j b ts at here read k hashed) (
              commit_loop-Commits up_to rounds (i + 1) (some k) bm seq others v positive
                (omega arith) (omega arith))
        | inl bare ↦ elim (Bool-cases (length ts == bm.block_size)) [
          | inr partial ↦
              rw (commit_loop_partial up_to rounds i p bm seq j b ts at here read bare partial) (
                commit_loop-Commits up_to rounds (i + 1) p bm seq others v positive (omega arith)
                  (omega arith))
          | inl full ↦
              let (d, answered) = is_duplicate-returns bm (seq.block_table ++ others) j g ts v in
              elim (Bool-cases d) [
                | inl duplicate ↦
                    rw
                      (commit_loop_duplicate up_to rounds i p bm seq j b ts at here read bare full
                        (answered ∙ ap some duplicate))
                      (Ensures-mono
                        (commit_loop up_to rounds (i + 1) (some g) (count_duplicate bm) seq) _ _
                        (commit_loop-Commits up_to rounds (i + 1) (some g) (count_duplicate bm) seq
                          others v positive (omega arith) (omega arith))
                        (λ r m.
                          count-Commits bm (count_duplicate bm).counters seq others up_to r m))
                | inr fresh ↦
                    let seq1 = credited up_to rounds i p bm seq j b ts at here read in
                    let bm1 = (register_block i g ts j b bm seq).0 in
                    let used : 0 < b.ref_count =
                      ground (arith, here, v.0 j, listed, count-append j seq.block_table others) in
                    let e =
                      register_block-Enters i g ts j b bm seq (seq.block_table ++ others) v here
                        used bare in
                    let size = ap (λ (c : CacheConfig). c.block_size) e.same.config in
                    rw
                      (commit_loop_enter up_to rounds i p bm seq j b ts at here read bare full
                        (answered ∙ ap some fresh))
                      (Ensures-mono (commit_loop up_to rounds (i + 1) (some g) bm1 seq1) _ _
                        (commit_loop-Commits up_to rounds (i + 1) (some g) bm1 seq1 others e.valid
                          (rw size positive) (rw size (omega arith)) (omega arith))
                        (λ r m.
                          enter-Commits bm bm1 seq others up_to i j g
                            seq1.cache_creation_input_tokens ts r (ap hash_of here ∙ bare) at read e
                            m))
              ]
        ]
      ]
    ]

-- The blocks that `commit_computed_tokens` looks at are those of the table.
abbrev pub Covers : BlockManager → Sequence → ℕ → Type 0
Covers bm seq up_to =
    min up_to (max_cacheable_tokens seq up_to) / bm.block_size ≤ length seq.block_table

-- Where the table covers the cacheable tokens, `commit_computed_tokens` raises nothing; blocks that
-- have a hash stay as they are, a block that gets one gets it with the tokens of its place, and of
-- the sequence only the count of created tokens changes.
pub commit_computed_tokens-Commits :
    (bm : BlockManager) (seq : Sequence) (others : List ℕ) (up_to : ℕ)
    → IsValid bm (seq.block_table ++ others)
    → 0 < bm.block_size
    → Covers bm seq up_to
    → Ensures (commit_computed_tokens bm seq up_to) (Commits bm seq others up_to)
unfolding commit_computed_tokens
commit_computed_tokens-Commits bm seq others up_to v positive covers =
    let tokens = min up_to (max_cacheable_tokens seq up_to) in
    let fits : (0 + tokens / bm.block_size) * bm.block_size ≤ up_to =
      omega (arith, div-mul-le_self tokens bm.block_size) in
    elim (Bool-cases (bm.enable_prefix_cache && seq.cache_enabled)) [
      | inr off ↦ rw off (keep-Commits bm seq others up_to v)
      | inl on ↦
          rw on
            (elim (Bool-cases (ltb (max_cacheable_tokens seq up_to) bm.prefix_cache_min_tokens)) [
              | inl short ↦ rw short (keep-Commits bm seq others up_to v)
              | inr long ↦ rw long (
                  commit_loop-Commits up_to (tokens / bm.block_size) 0 (initial_prefix_hash bm seq)
                    bm seq others v positive fits (omega arith))
            ])
    ]
