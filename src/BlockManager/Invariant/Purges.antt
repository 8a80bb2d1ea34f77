-- ===== src/BlockManager/Invariant/Purges.antt =====
-- Purges, evictions and quotas keep the invariant, raise nothing, and touch no live block
-- (nanovllm/engine/block_manager.py).
use nano_vllm_online_serving.Common.{
  ℕ, ◌+◌, ◌≤◌, ◌≡◌, refl, ◌∙◌, Bool, true, false, Option, none, some, List, [], ◌∷◌, arith, ◌&&◌,
  if◌then◌else◌, length, get_elem?, get_elem?-set, length-set, count, length-append, length-discard,
  elem, elem-count, discard, Bool-cases, Option-cases, inl, inr, Ensures, Ensures-mono,
  count-discard,
}
use nano_vllm_online_serving.BlockManager.State.{Block, BlockManager, clear}
use nano_vllm_online_serving.BlockManager.Eviction.{free_block, purge_cached_block, purge_loop}
use nano_vllm_online_serving.BlockManager.Invariant.{IsValid, Kept}
use nano_vllm_online_serving.BlockManager.Invariant.Moves.{free_block-IsValid, uncache-IsLoose}

pub Kept-refl : (bm : BlockManager) → Kept bm bm
Kept-refl bm = record {
  same = record { host = refl; config = refl; blocks = refl };
  room = refl;
  used = refl;
  live = λ j h. refl;
}

pub Kept-trans : {a b c : BlockManager} → Kept a b → Kept b c → Kept a c
Kept-trans {a} {b} {c} p q = record {
  same = record {
    host = q.same.host ∙ p.same.host;
    config = q.same.config ∙ p.same.config;
    blocks = q.same.blocks ∙ p.same.blocks;
  };
  room = q.room ∙ p.room;
  used = q.used ∙ p.used;
  live = λ j h. ground (arith, p.live j h, q.live j);
}

-- The postcondition of every purge: the call returns, the state is valid, and `Kept` holds.
abbrev pub Purges : BlockManager → List ℕ → BlockManager → Type 0
Purges bm held bm' = IsValid bm' held × Kept bm bm'

-- A cached block that is cleared into the free list.
pub free_cached-Purges :
    (i : ℕ) (b : Block) (bm : BlockManager) (held : List ℕ)
    → IsValid bm held
    → get_elem? bm.blocks i ≡ some b
    → elem i bm.cached_block_ids ≡ true
    → Purges bm held
        (free_block i b (record bm { cached_block_ids = discard i bm.cached_block_ids }))
unfolding free_block
free_cached-Purges i b bm held v e m =
    let (loose, idle, hashed) = uncache-IsLoose i b bm held v e m in
    (
      free_block-IsValid i b (record bm { cached_block_ids = discard i bm.cached_block_ids }) held
          loose,
      record {
        same = record { host = refl; config = refl; blocks = length-set bm.blocks i (clear b) };
        room = ground (
          arith,
          m,
          length-append bm.free_block_ids (i ∷ []),
          length-discard i bm.cached_block_ids,
        );
        used = refl;
        live = λ j h. ground (arith, e, idle, get_elem?-set bm.blocks i j (clear b) e);
      },
    )

pub purge_cached_block_lem :
    (i : ℕ) (b : Block) (bm : BlockManager)
    → get_elem? bm.blocks i ≡ some b
    → b.ref_count ≡ 0
    → elem i bm.cached_block_ids ≡ true
    → purge_cached_block i bm
      ≡ some (free_block i b (record bm { cached_block_ids = discard i bm.cached_block_ids }))
unfolding purge_cached_block
purge_cached_block_lem i b bm e idle m = simp (e, idle, m)

pub purge_cached_block-Purges :
    (i : ℕ) (bm : BlockManager) (held : List ℕ)
    → IsValid bm held
    → elem i bm.cached_block_ids ≡ true
    → Ensures (purge_cached_block i bm) (Purges bm held)
purge_cached_block-Purges i bm held v m = elim (Option-cases (get_elem? bm.blocks i)) [
  | inl absent ↦ absurd (ground (arith, absent, v.0 i, elem-count i bm.cached_block_ids))
  | inr (b, e) ↦
      let (loose, idle, hashed) = uncache-IsLoose i b bm held v e m in
      rw (purge_cached_block_lem i b bm e idle m) (free_cached-Purges i b bm held v e m)
]

abbrev pub test_at : (Block → Bool) → Option Block → Bool
test_at test none = false
test_at test (some b) = test b

-- The ids of `ids` whose block passes the test have left the cache, and no other.
pub record IsPurged (test : Block → Bool) (ids : List ℕ) (bm bm' : BlockManager) : Type 0 where
  pub cached :
      (j : ℕ)
      → count j bm'.cached_block_ids ≡ (
          if elem j ids && test_at test (get_elem? bm.blocks j)
          then 0
          else count j bm.cached_block_ids)
  pub blocks :
      (j : ℕ)
      → (elem j ids && test_at test (get_elem? bm.blocks j)) ≡ false
      → get_elem? bm'.blocks j ≡ get_elem? bm.blocks j

-- Every id of the list is cached, as often as it is listed.
abbrev pub Within : List ℕ → BlockManager → Type 0
Within ids bm = (j : ℕ) → count j ids ≤ count j bm.cached_block_ids

abbrev pub PurgesWhere :
    (Block → Bool) → List ℕ → ℕ → BlockManager → List ℕ → BlockManager × ℕ → Type 0
PurgesWhere test ids n bm held r =
    Purges bm held r.0
    × IsPurged test ids bm r.0
    × (r.1 + length r.0.cached_block_ids ≡ n + length bm.cached_block_ids)

skip-IsPurged :
    (test : Block → Bool) (i : ℕ) (ids : List ℕ) (b : Block) (bm bm' : BlockManager)
    → get_elem? bm.blocks i ≡ some b
    → test b ≡ false
    → IsPurged test ids bm bm'
    → IsPurged test (i ∷ ids) bm bm'
skip-IsPurged test i ids b bm bm' e miss p = record {
  cached = λ j. ground (arith, e, p.cached j);
  blocks = λ j h. ground (arith, e, p.blocks j);
}

hit-IsPurged :
    (test : Block → Bool) (i : ℕ) (ids : List ℕ) (b : Block) (bm bm' : BlockManager)
    → get_elem? bm.blocks i ≡ some b
    → test b ≡ true
    → Within (i ∷ ids) bm
    → count i bm.cached_block_ids ≤ 1
    → IsPurged test ids
        (free_block i b (record bm { cached_block_ids = discard i bm.cached_block_ids }))
        bm'
    → IsPurged test (i ∷ ids) bm bm'
unfolding free_block
hit-IsPurged test i ids b bm bm' e hit within once p = record {
  cached = λ j. ground (
    arith,
    e,
    within i,
    once,
    p.cached j,
    elem-count i ids,
    get_elem?-set bm.blocks i j (clear b) e,
    count-discard i j bm.cached_block_ids,
  );
  blocks = λ j h. ground (arith, e, p.blocks j, get_elem?-set bm.blocks i j (clear b) e);
}

purge_loop_skip :
    (test : Block → Bool) (i : ℕ) (ids : List ℕ) (n : ℕ) (b : Block) (bm : BlockManager)
    → get_elem? bm.blocks i ≡ some b
    → test b ≡ false
    → purge_loop test (i ∷ ids) n bm ≡ purge_loop test ids n bm
unfolding purge_loop
purge_loop_skip test i ids n b bm e miss = simp (e, miss)

purge_loop_hit :
    (test : Block → Bool) (i : ℕ) (ids : List ℕ) (n : ℕ) (b : Block) (bm bm' : BlockManager)
    → get_elem? bm.blocks i ≡ some b
    → test b ≡ true
    → purge_cached_block i bm ≡ some bm'
    → purge_loop test (i ∷ ids) n bm ≡ purge_loop test ids (n + 1) bm'
unfolding purge_loop
purge_loop_hit test i ids n b bm bm' e hit p = simp (e, hit, p)

hit-Within :
    (i : ℕ) (ids : List ℕ) (b : Block) (bm : BlockManager)
    → Within (i ∷ ids) bm
    → Within ids (free_block i b (record bm { cached_block_ids = discard i bm.cached_block_ids }))
unfolding free_block
hit-Within i ids b bm w j = ground (arith, w j, count-discard i j bm.cached_block_ids)

hit-length :
    (i : ℕ) (b : Block) (bm bm' : BlockManager) (n k : ℕ)
    → elem i bm.cached_block_ids ≡ true
    → (let bm1 = free_block i b (record bm { cached_block_ids = discard i bm.cached_block_ids }) in
        k + length bm'.cached_block_ids ≡ n + 1 + length bm1.cached_block_ids)
    → k + length bm'.cached_block_ids ≡ n + length bm.cached_block_ids
unfolding free_block
hit-length i b bm bm' n k m e = ground (arith, m, e, length-discard i bm.cached_block_ids)

-- The loop over a snapshot of the cached set purges what passes the test.
pub purge_loop-PurgesWhere :
    (test : Block → Bool) (ids : List ℕ) (n : ℕ) (bm : BlockManager) (held : List ℕ)
    → IsValid bm held
    → Within ids bm
    → Ensures (purge_loop test ids n bm) (PurgesWhere test ids n bm held)
unfolding purge_loop
purge_loop-PurgesWhere test [] n bm held v w =
    ((v, Kept-refl bm), record { cached = λ j. refl; blocks = λ j h. refl }, refl)
purge_loop-PurgesWhere test (i ∷ ids) n bm held v w = elim (Option-cases (get_elem? bm.blocks i)) [
  | inl absent ↦ absurd (ground (arith, absent, v.0 i, w i))
  | inr (b, e) ↦ elim (Bool-cases (test b)) [
    | inl hit ↦
        let m : elem i bm.cached_block_ids ≡ true =
          ground (arith, w i, elem-count i bm.cached_block_ids) in
        let (loose, idle, hashed) = uncache-IsLoose i b bm held v e m in
        let bm1 = free_block i b (record bm { cached_block_ids = discard i bm.cached_block_ids }) in
        let purged = free_cached-Purges i b bm held v e m in
        rw (purge_loop_hit test i ids n b bm bm1 e hit (purge_cached_block_lem i b bm e idle m)) (
          Ensures-mono (purge_loop test ids (n + 1) bm1) (PurgesWhere test ids (n + 1) bm1 held)
            (PurgesWhere test (i ∷ ids) n bm held)
            (purge_loop-PurgesWhere test ids (n + 1) bm1 held purged.0 (hit-Within i ids b bm w))
            (λ r q. (
              (q.0.0, Kept-trans purged.1 q.0.1),
              hit-IsPurged test i ids b bm r.0 e hit w (ground (arith, v.0 i, e)) q.1,
              hit-length i b bm r.0 n r.1 m q.2,
            )))
    | inr miss ↦ rw (purge_loop_skip test i ids n b bm e miss) (
        Ensures-mono (purge_loop test ids n bm) (PurgesWhere test ids n bm held)
          (PurgesWhere test (i ∷ ids) n bm held)
          (purge_loop-PurgesWhere test ids n bm held v (λ j. ground (arith, w j)))
          (λ r q. (q.0, skip-IsPurged test i ids b bm r.0 e miss q.1, q.2)))
  ]
]
