-- ===== src/BlockManager/Invariant/Emptying.antt =====
-- The release of a whole block table, for `deallocate` of nanovllm/engine/block_manager.py.
use nano_vllm_online_serving.Common.{
  ℕ, ◌<◌, refl, ◌∙◌, List, [], ◌∷◌, ◌++◌, arith, count, count-append, Ensures, Ensures-mono,
  Ensures->>=,
}
use native.Mathlib.Nat.{le_refl, le_trans}
use nano_vllm_online_serving.BlockManager.State.{BlockManager}
use nano_vllm_online_serving.BlockManager.Allocation.{release_block, release_all}
use nano_vllm_online_serving.BlockManager.Invariant.{IsValid}
use nano_vllm_online_serving.BlockManager.Invariant.Releasing.{Releases, release_block-Releases}

Releases-trans :
    {a b c : BlockManager} {xs ys : List ℕ}
    → Releases a xs b
    → Releases b ys c
    → ((j : ℕ) → 0 < count j ys → 0 < count j xs)
    → Releases a ys c
Releases-trans p q sub = record {
  valid = q.valid;
  same = record {
    host = q.same.host ∙ p.same.host;
    config = q.same.config ∙ p.same.config;
    blocks = q.same.blocks ∙ p.same.blocks;
  };
  room = le_trans p.room q.room;
  undisturbed = λ j h. (
    (q.undisturbed j h).0 ∙ (p.undisturbed j (sub j h)).0,
    (q.undisturbed j h).1 ∙ (p.undisturbed j (sub j h)).1,
  );
}

pub release_all-Releases :
    (ids : List ℕ) (bm : BlockManager) (held : List ℕ)
    → IsValid bm (ids ++ held)
    → Ensures (release_all ids bm) (Releases bm held)
unfolding release_all
release_all-Releases [] bm held v = record {
  valid = v;
  same = record { host = refl; config = refl; blocks = refl };
  room = le_refl _;
  undisturbed = λ j h. (refl, refl);
}
release_all-Releases (i ∷ ids) bm held v =
    Ensures->>= (release_block i bm) (release_all ids) (Releases bm (ids ++ held))
      (Releases bm held) (release_block-Releases i bm (ids ++ held) v)
      (λ bm1 p.
        Ensures-mono (release_all ids bm1) (Releases bm1 held) (Releases bm held)
          (release_all-Releases ids bm1 held p.valid)
          (λ bm2 q. Releases-trans p q (λ j h. omega (arith, h, count-append j ids held))))
