-- ===== src/BlockManager/Invariant/NamespaceQuota.antt =====
-- The quota of one namespace: `_enforce_namespace_quota` of nanovllm/engine/block_manager.py.
use nano_vllm_online_serving.Common.{
  ℕ, zero, suc, ◌+◌, ◌≤◌, ◌<◌, ◌≡◌, ap, sym, ◌∙◌, Bool, true, String, some, List, [], ◌∷◌, arith,
  ltb, ◌==◌, if◌then◌else◌, length, get_elem?, get_elem?-set, count, discard, count-discard,
  length-discard, select, count-select, length_of_counts, Bool-cases, Option-cases, inl, inr,
  Ensures, Ensures-mono, Ensures-value,
}
use nano_vllm_online_serving.BlockManager.State.{Block, CacheConfig, BlockManager, clear}
use nano_vllm_online_serving.BlockManager.Eviction.{
  free_block, add_namespace_eviction, ids_in_namespace, in_namespace, namespace_quota_loop,
  enforce_namespace_quota,
}
use nano_vllm_online_serving.BlockManager.Invariant.{IsValid}
use nano_vllm_online_serving.BlockManager.Invariant.Purges.{
  Purges, Within, test_at, Kept-trans, Kept-refl,
}
use nano_vllm_online_serving.BlockManager.Invariant.Expiry.{Kept-counters}
use nano_vllm_online_serving.BlockManager.Invariant.Oldest.{Resolves}
use nano_vllm_online_serving.BlockManager.Invariant.Taking.{cached-Resolves}
use nano_vllm_online_serving.BlockManager.Invariant.Quotas.{Evicts, evict_round}

-- Whether id `j` names a block of the namespace.
abbrev pub belongs : String → BlockManager → ℕ → Bool
belongs ns bm j = test_at (in_namespace (some ns)) (get_elem? bm.blocks j)

-- `ids` are the cached ids of the namespace.
abbrev Lists : String → List ℕ → BlockManager → Type 0
Lists ns ids bm =
    (j : ℕ) → count j ids ≡ (if belongs ns bm j then count j bm.cached_block_ids else 0)

-- The number of cached blocks of the namespace.
abbrev pub cached_in : String → BlockManager → ℕ
cached_in ns bm = length (select (belongs ns bm) bm.cached_block_ids)

ids_in_namespace-Lists :
    (blocks : List Block) (ns : String) (xs : List ℕ)
    → Resolves blocks xs
    → Ensures (ids_in_namespace blocks ns xs) (λ ids.
      (j : ℕ)
      → count j ids
        ≡ (if test_at (in_namespace (some ns)) (get_elem? blocks j) then count j xs else 0))
unfolding ids_in_namespace in_namespace
ids_in_namespace-Lists blocks ns [] known = λ j. ground arith
ids_in_namespace-Lists blocks ns (i ∷ xs) known = elim (Option-cases (get_elem? blocks i)) [
  | inl absent ↦ absurd (ground (arith, absent, known i))
  | inr (b, e) ↦
      let (ids, made, counts) =
        Ensures-value (ids_in_namespace blocks ns xs) _
          (ids_in_namespace-Lists blocks ns xs (λ j h. ground (arith, known j))) in
      simp (e, made) (λ j. ground (arith, e, counts j))
]

Lists-Within : (ns : String) (ids : List ℕ) (bm : BlockManager) → Lists ns ids bm → Within ids bm
Lists-Within ns ids bm l j = ground (arith, l j)

-- At the end of the loop the list is short enough, and still it is the namespace.
record MeetsQuota (ns : String) (limit : ℕ) (bm : BlockManager) (held : List ℕ) (bm' : BlockManager)
    : Type 0 where
  purges : Purges bm held bm'
  within : cached_in ns bm' ≤ limit

Lists-cached_in :
    (ns : String) (ids : List ℕ) (bm : BlockManager)
    → Lists ns ids bm
    → cached_in ns bm ≡ length ids
Lists-cached_in ns ids bm l =
    length_of_counts (select (belongs ns bm) bm.cached_block_ids) ids
      (λ j. count-select (belongs ns bm) j bm.cached_block_ids ∙ sym (l j))

namespace_quota_step :
    (fuel n : ℕ) (ids : List ℕ) (bm : BlockManager) (held : List ℕ)
    → ltb bm.max_cached_blocks_per_namespace (length ids) ≡ true
    → (s : Evicts ids bm held)
    → namespace_quota_loop (suc fuel) ids n bm
      ≡ namespace_quota_loop fuel (discard s.victim ids) (n + 1) (
          add_namespace_eviction (
            free_block s.victim s.block
              (record bm { cached_block_ids = discard s.victim bm.cached_block_ids })))
unfolding namespace_quota_loop
namespace_quota_step fuel n ids bm held over s =
    rw (over, namespace_quota_loop) (simp (s.chosen, s.purge, s.best.listed))

step-Lists :
    (ns : String) (ids : List ℕ) (i : ℕ) (b : Block) (bm : BlockManager) (held : List ℕ)
    → IsValid bm held
    → get_elem? bm.blocks i ≡ some b
    → Lists ns ids bm
    → Lists ns
        (discard i ids)
        (free_block i b (record bm { cached_block_ids = discard i bm.cached_block_ids }))
unfolding free_block
step-Lists ns ids i b bm held v e l j = ground (
  arith,
  e,
  l j,
  v.0 i,
  get_elem?-set bm.blocks i j (clear b) e,
  count-discard i j ids,
  count-discard i j bm.cached_block_ids,
)

namespace_quota_loop-MeetsQuota :
    (fuel n : ℕ) (ns : String) (ids : List ℕ) (bm : BlockManager) (held : List ℕ)
    → IsValid bm held
    → Lists ns ids bm
    → length ids < fuel
    → Ensures
        (namespace_quota_loop fuel ids n bm)
        (λ r. MeetsQuota ns bm.max_cached_blocks_per_namespace bm held r.0)
unfolding namespace_quota_loop
namespace_quota_loop-MeetsQuota zero n ns ids bm held v l h = elim h [ ]
namespace_quota_loop-MeetsQuota (suc fuel) n ns ids bm held v l h =
    elim (Bool-cases (ltb bm.max_cached_blocks_per_namespace (length ids))) [
      | inl over ↦
          let s = evict_round ids bm held v (Lists-Within ns ids bm l) (ground (arith, over)) in
          let bm1 =
            free_block s.victim s.block
              (record bm { cached_block_ids = discard s.victim bm.cached_block_ids }) in
          rw (namespace_quota_step fuel n ids bm held over s) (
            Ensures-mono
              (namespace_quota_loop fuel (discard s.victim ids) (n + 1)
                (add_namespace_eviction bm1))
              _ _
              (namespace_quota_loop-MeetsQuota fuel (n + 1) ns (discard s.victim ids)
                (add_namespace_eviction bm1) held s.purged.0
                (step-Lists ns ids s.victim s.block bm held v s.here l)
                (ground (arith, h, s.best.listed, length-discard s.victim ids)))
              (λ r q. record {
                purges = (
                  q.purges.0,
                  Kept-trans s.purged.1
                      (Kept-trans (Kept-counters bm1 _ bm1.time_reads) q.purges.1),
                );
                within =
                    rw
                      (← ap (λ (c : CacheConfig). c.max_cached_blocks_per_namespace)
                        s.purged.1.same.config)
                      q.within;
              }))
      | inr under ↦
          rw (under, namespace_quota_loop)
            (record {
              purges = (v, Kept-refl bm);
              within = ground (arith, under, Lists-cached_in ns ids bm l);
            })
    ]

-- `_enforce_namespace_quota` raises nothing, touches no block that is held, and with a positive
-- quota leaves at most that many cached blocks in the namespace.
pub enforce_namespace_quota-MeetsQuota :
    (ns : String) (bm : BlockManager) (held : List ℕ)
    → IsValid bm held
    → Ensures (enforce_namespace_quota ns bm) (λ r.
      Purges bm held r.0
      × (0 < bm.max_cached_blocks_per_namespace
          → cached_in ns r.0 ≤ bm.max_cached_blocks_per_namespace))
unfolding enforce_namespace_quota
enforce_namespace_quota-MeetsQuota ns bm held v =
    elim (Bool-cases (bm.max_cached_blocks_per_namespace == 0)) [
      | inl unlimited ↦ rw unlimited ((v, Kept-refl bm), λ h. absurd (ground (arith, unlimited)))
      | inr limited ↦
          let (ids, made, lists) =
            Ensures-value (ids_in_namespace bm.blocks ns bm.cached_block_ids) _ (
              ids_in_namespace-Lists bm.blocks ns bm.cached_block_ids
                (cached-Resolves bm held v)) in
          rw limited (
            rw made (
              Ensures-mono (namespace_quota_loop (suc (length ids)) ids 0 bm) _ _
                (namespace_quota_loop-MeetsQuota (suc (length ids)) 0 ns ids bm held v lists
                  (omega arith))
                (λ r q. (q.purges, λ h. q.within))))
    ]
