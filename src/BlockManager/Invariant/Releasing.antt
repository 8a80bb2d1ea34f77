-- ===== src/BlockManager/Invariant/Releasing.antt =====
-- Releasing references: `_release_block` and `deallocate` of nanovllm/engine/block_manager.py.
use nano_vllm_online_serving.Common.{
  ℕ, ◌+◌, ◌-◌, ◌≤◌, ◌<◌, ◌≡◌, refl, ap, ◌∙◌, false, not, ◌&&◌, Option, none, some, List, [], ◌∷◌,
  arith, ltb, length, get_elem?, get_elem?-set, length-set, length-append, lt→ltb, ltb→lt, count,
  add_elem, discard, count-discard, Bool-cases, Option-cases, inl, inr, Ensures, Ensures-mono,
  Ensures-value,
}
use native.Mathlib.Nat.{le_refl}
use nano_vllm_online_serving.BlockManager.State.{
  Block, BlockManager, no_hash, clear, write_block, tick,
}
use nano_vllm_online_serving.BlockManager.Eviction.{
  free_block, enforce_namespace_quota, enforce_global_quota,
}
use nano_vllm_online_serving.BlockManager.Allocation.{cache_block, retire_block, release_block}
use nano_vllm_online_serving.BlockManager.Invariant.{IsValid, IsLoose, Same, hash_of}
use nano_vllm_online_serving.BlockManager.Invariant.Moves.{free_block-IsValid, cache-IsValid}
use nano_vllm_online_serving.BlockManager.Invariant.Purges.{Kept-trans}
use nano_vllm_online_serving.BlockManager.Invariant.Taking.{room}
use nano_vllm_online_serving.BlockManager.Invariant.Quotas.{enforce_global_quota-MeetsGlobal}
use nano_vllm_online_serving.BlockManager.Invariant.NamespaceQuota.{
  enforce_namespace_quota-MeetsQuota,
}

abbrev pub tokens_of : Option Block → Option (List ℕ)
tokens_of none = none
tokens_of (some b) = b.token_ids

-- Whoever still holds a block finds its hash and its tokens unchanged.
abbrev pub Undisturbed : List ℕ → BlockManager → BlockManager → Type 0
Undisturbed held bm bm' =
    (j : ℕ)
    → 0 < count j held
    → (hash_of (get_elem? bm'.blocks j) ≡ hash_of (get_elem? bm.blocks j))
      × (tokens_of (get_elem? bm'.blocks j) ≡ tokens_of (get_elem? bm.blocks j))

pub record Releases (bm : BlockManager) (held : List ℕ) (bm' : BlockManager) : Type 0 where
  pub valid : IsValid bm' held
  pub same : Same bm bm'
  pub room : room bm ≤ room bm'
  pub undisturbed : Undisturbed held bm bm'

shared-Releases :
    (i : ℕ) (b : Block) (bm : BlockManager) (held : List ℕ)
    → IsValid bm (i ∷ held)
    → get_elem? bm.blocks i ≡ some b
    → 1 < b.ref_count
    → Releases bm held (write_block i (record b { ref_count = b.ref_count - 1 }) bm)
shared-Releases i b bm held v e many = record {
  valid = (
    λ j. ground (
      arith,
      e,
      v.0 j,
      v.0 i,
      get_elem?-set bm.blocks i j (record b { ref_count = b.ref_count - 1 }) e,
    ),
    λ h j m. ground (
      arith,
      e,
      v.1 h j m,
      get_elem?-set bm.blocks i j (record b { ref_count = b.ref_count - 1 }) e,
    ),
  );
  same = record { host = refl; config = refl; blocks = length-set bm.blocks i _ };
  room = le_refl _;
  undisturbed = λ j h. (
    ground (arith, e, get_elem?-set bm.blocks i j (record b { ref_count = b.ref_count - 1 }) e),
    ground (arith, e, get_elem?-set bm.blocks i j (record b { ref_count = b.ref_count - 1 }) e),
  );
}

-- The state in which `_release_block` has dropped the last reference.
abbrev idle_block : Block → BlockManager → Block
idle_block b bm = record b { ref_count = 0; last_accessed = bm.clock + 1 }

abbrev dropped : ℕ → Block → BlockManager → BlockManager
dropped i b bm =
    write_block i (idle_block b bm)
      (record (tick bm) { used_block_ids = discard i bm.used_block_ids })

dropped-IsLoose :
    (i : ℕ) (b : Block) (bm : BlockManager) (held : List ℕ)
    → IsValid bm (i ∷ held)
    → get_elem? bm.blocks i ≡ some b
    → b.ref_count ≡ 1
    → IsLoose i (idle_block b bm) (dropped i b bm) held
dropped-IsLoose i b bm held v e last =
    let c = v.0 i in
    record {
      others = λ j ne. ground (
        arith,
        e,
        v.0 j,
        get_elem?-set bm.blocks i j (idle_block b bm) e,
        count-discard i j bm.used_block_ids,
      );
      here = ground (arith, get_elem?-set bm.blocks i i (idle_block b bm) e);
      id = ground (arith, e, c);
      unfree = ground (arith, e, c, last);
      uncached = ground (arith, e, c, last);
      unused = ground (arith, e, c, last, count-discard i i bm.used_block_ids);
      unheld = ground (arith, e, c, last);
      mapped =
          λ h j m. ground (arith, e, v.1 h j m, get_elem?-set bm.blocks i j (idle_block b bm) e);
    }

length-add_elem : (x : ℕ) (xs : List ℕ) → length xs ≤ length (add_elem x xs)
length-add_elem x xs = ground (arith, length-append xs (x ∷ []))

free_block-Same : (i : ℕ) (b : Block) (bm : BlockManager) → Same bm (free_block i b bm)
unfolding free_block
free_block-Same i b bm = record {
  host = refl;
  config = refl;
  blocks = length-set bm.blocks i (clear b);
}

free_block-room : (i : ℕ) (b : Block) (bm : BlockManager) → room bm ≤ room (free_block i b bm)
unfolding free_block
free_block-room i b bm = omega (arith, length-append bm.free_block_ids (i ∷ []))

free_block-Undisturbed :
    (i : ℕ) (b : Block) (bm : BlockManager) (held : List ℕ)
    → IsLoose i b bm held
    → Undisturbed held bm (free_block i b bm)
unfolding free_block
free_block-Undisturbed i b bm held l j h =
    let write = get_elem?-set bm.blocks i j (clear b) l.here in
    (ground (arith, h, l.unheld, write), ground (arith, h, l.unheld, write))

-- A block that is kept in the cache, within the quotas.
cache_block-Releases :
    (i : ℕ) (b : Block) (bm : BlockManager) (held : List ℕ)
    → IsLoose i b bm held
    → b.ref_count ≡ 0
    → no_hash b.hash ≡ false
    → Ensures (cache_block i b bm) (Releases bm held)
unfolding cache_block
cache_block-Releases i b bm held l idle hashed =
    let bm0 = record bm { cached_block_ids = add_elem i bm.cached_block_ids } in
    let (r1, e1, s1) = Ensures-value (enforce_namespace_quota b.namespace bm0) _ (
      enforce_namespace_quota-MeetsQuota b.namespace bm0 held
        (cache-IsValid i b bm held l idle hashed)) in
    let (r2, e2, s2) =
      Ensures-value (enforce_global_quota r1.0) _
        (enforce_global_quota-MeetsGlobal r1.0 held s1.0.0) in
    let k = Kept-trans s1.0.1 s2.0.1 in
    rw e1 (
      rw e2 (record {
        valid = s2.0.0;
        same = record { host = k.same.host; config = k.same.config; blocks = k.same.blocks };
        room = omega (arith, k.room, length-add_elem i bm.cached_block_ids);
        undisturbed = λ j h.
            let kept = k.live j (ground (arith, h, l.unheld, l.others j)) in
            (ap hash_of kept, ap tokens_of kept);
      }))

free_block-Releases :
    (i : ℕ) (b : Block) (bm : BlockManager) (held : List ℕ)
    → IsLoose i b bm held
    → Releases bm held (free_block i b bm)
free_block-Releases i b bm held l = record {
  valid = free_block-IsValid i b bm held l;
  same = free_block-Same i b bm;
  room = free_block-room i b bm;
  undisturbed = free_block-Undisturbed i b bm held l;
}

-- From the state without the last reference to the final one.
after_dropped :
    (i : ℕ) (b : Block) (bm bm' : BlockManager) (held : List ℕ)
    → get_elem? bm.blocks i ≡ some b
    → Releases (dropped i b bm) held bm'
    → Releases bm held bm'
after_dropped i b bm bm' held e r = record {
  valid = r.valid;
  same = record {
    host = r.same.host;
    config = r.same.config;
    blocks = r.same.blocks ∙ length-set bm.blocks i _;
  };
  room = r.room;
  undisturbed = λ j h.
      let write = get_elem?-set bm.blocks i j (idle_block b bm) e in
      (ground (arith, h, e, r.undisturbed j, write), ground (arith, h, e, r.undisturbed j, write));
}

retire_block-Releases :
    (i : ℕ) (b : Block) (bm : BlockManager) (held : List ℕ)
    → IsLoose i b bm held
    → b.ref_count ≡ 0
    → Ensures (retire_block i b bm) (Releases bm held)
unfolding retire_block
retire_block-Releases i b bm held l idle =
    elim (Bool-cases (bm.enable_prefix_cache && not (no_hash b.hash))) [
      | inl cached ↦ rw cached (cache_block-Releases i b bm held l idle (ground (arith, cached)))
      | inr freed ↦ rw freed (free_block-Releases i b bm held l)
    ]

-- A reference that is held can be released: the call raises nothing, the state stays valid for the
-- other references, and the blocks that they hold keep their hashes and tokens.
pub release_block-Releases :
    (i : ℕ) (bm : BlockManager) (held : List ℕ)
    → IsValid bm (i ∷ held)
    → Ensures (release_block i bm) (Releases bm held)
unfolding release_block
release_block-Releases i bm held v = elim (Option-cases (get_elem? bm.blocks i)) [
  | inl absent ↦ absurd (ground (arith, absent, v.0 i))
  | inr (b, e) ↦
      let counted : 0 < b.ref_count = ground (arith, e, v.0 i) in
      elim (Bool-cases (ltb 1 b.ref_count)) [
        | inl many ↦
            simp (e, lt→ltb 0 b.ref_count counted, many)
              (shared-Releases i b bm held v e (ltb→lt 1 b.ref_count many))
        | inr one ↦
            simp (e, lt→ltb 0 b.ref_count counted, one)
              (Ensures-mono (retire_block i (idle_block b bm) (dropped i b bm)) _ _
                (retire_block-Releases i (idle_block b bm) (dropped i b bm) held
                  (dropped-IsLoose i b bm held v e (ground (arith, one, counted))) refl)
                (λ bm'. after_dropped i b bm bm' held e))
      ]
]
