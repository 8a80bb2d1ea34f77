-- ===== src/BlockManager/Invariant/Oldest.antt =====
-- The choice of a victim: `min(ids, key=last_accessed)` in nanovllm/engine/block_manager.py.
use nano_vllm_online_serving.Common.{
  ℕ, ◌≤◌, ◌≡◌, Bool, true, false, Option, none, some, List, [], ◌∷◌, arith, ltb, get_elem?, elem,
  Bool-cases, Option-cases, inl, inr, Ensures, Ensures-mono, ◌>>=◌,
}
use nano_vllm_online_serving.BlockManager.State.{Block}
use nano_vllm_online_serving.BlockManager.Eviction.{oldest_from, oldest}

abbrev pub access_of : Option Block → ℕ
access_of none = 0
access_of (some b) = b.last_accessed

abbrev pub is_some : Option Block → Bool
is_some none = false
is_some (some b) = true

-- Every id of the list names a block.
abbrev pub Resolves : List Block → List ℕ → Type 0
Resolves blocks ids = (j : ℕ) → elem j ids ≡ true → is_some (get_elem? blocks j) ≡ true

-- The victim stands in the list, and no block of the list was accessed before it.
pub record IsOldest (blocks : List Block) (ids : List ℕ) (victim : ℕ) : Type 0 where
  pub listed : elem victim ids ≡ true
  pub least :
      (j : ℕ)
      → elem j ids ≡ true
      → access_of (get_elem? blocks victim) ≤ access_of (get_elem? blocks j)

oldest_from-IsOldest :
    (blocks : List Block) (best key : ℕ) (ids : List ℕ)
    → Resolves blocks ids
    → access_of (get_elem? blocks best) ≡ key
    → Ensures (oldest_from blocks best key ids) (IsOldest blocks (best ∷ ids))
unfolding oldest_from
oldest_from-IsOldest blocks best key [] known e = record {
  listed = ground arith;
  least = λ j h. ground (arith, h);
}
oldest_from-IsOldest blocks best key (i ∷ ids) known e = elim (Option-cases (get_elem? blocks i)) [
  | inl absent ↦ absurd (ground (arith, absent, known i))
  | inr (b, found) ↦ elim (Bool-cases (ltb b.last_accessed key)) [
    | inl better ↦
        rw (found, ◌>>=◌)
          (rw better (
            Ensures-mono (oldest_from blocks i b.last_accessed ids) (IsOldest blocks (i ∷ ids))
              (IsOldest blocks (best ∷ i ∷ ids))
              (oldest_from-IsOldest blocks i b.last_accessed ids (λ j h. ground (arith, known j))
                (ground (arith, found)))
              (λ v q. record {
                listed = ground (arith, q.listed);
                least = λ j h. ground (arith, q.least j, q.least i, e, found);
              })))
    | inr worse ↦
        rw (found, ◌>>=◌)
          (rw worse (
            Ensures-mono (oldest_from blocks best key ids) (IsOldest blocks (best ∷ ids))
              (IsOldest blocks (best ∷ i ∷ ids))
              (oldest_from-IsOldest blocks best key ids (λ j h. ground (arith, known j)) e)
              (λ v q. record {
                listed = ground (arith, q.listed);
                least = λ j h. ground (arith, q.least j, q.least best, e, found);
              })))
  ]
]

pub oldest-IsOldest :
    (blocks : List Block) (i : ℕ) (ids : List ℕ)
    → Resolves blocks (i ∷ ids)
    → Ensures (oldest blocks (i ∷ ids)) (IsOldest blocks (i ∷ ids))
unfolding oldest
oldest-IsOldest blocks i ids known = elim (Option-cases (get_elem? blocks i)) [
  | inl absent ↦ absurd (ground (arith, absent, known i))
  | inr (b, found) ↦
      rw (found, ◌>>=◌)
        (oldest_from-IsOldest blocks i b.last_accessed ids (λ j h. ground (arith, known j))
          (ground (arith, found)))
]
