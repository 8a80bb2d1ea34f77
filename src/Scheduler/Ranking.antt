-- ===== src/Scheduler/Ranking.antt =====
-- `_reorder_waiting_for_cache_affinity` of nanovllm/engine/scheduler.py.
use nano_vllm_online_serving.Common.{
  ℕ, ◌+◌, ◌<◌, ◌≡◌, refl, ap, ◌∙◌, Bool, true, false, List, [], ◌∷◌, map, arith, leb, length, count,
  Bool-cases, inl, inr, get_or_zero, Ensures, Ensures->>=,
}
use nano_vllm_online_serving.BlockManager.Prefix.{estimate_cached_prefix_tokens}
use nano_vllm_online_serving.BlockManager.Invariant.{IsValid}
use nano_vllm_online_serving.BlockManager.Invariant.Estimating.{estimate_cached_prefix_tokens-bound}
use nano_vllm_online_serving.Scheduler.State.{Scheduler, cache_aware_starvation_limit}
use nano_vllm_online_serving.Scheduler.Policy.{
  Rank, before, insert_rank, sort_ranks, rank_all, is_cache_aware, reorder_waiting,
}

-- No entry comes before the one in front of it.
abbrev pub IsRanked : List Rank → Type 0
IsRanked [] = Unit {0}
IsRanked (a ∷ []) = Unit {0}
IsRanked (a ∷ b ∷ bs) = (before b a ≡ false) × IsRanked (b ∷ bs)

before_asym : (a b : Rank) → before a b ≡ true → before b a ≡ false
unfolding before
before_asym a b h = ground (arith, h)

insert_rank-IsRanked : (a : Rank) (bs : List Rank) → IsRanked bs → IsRanked (insert_rank a bs)
unfolding insert_rank
insert_rank-IsRanked a [] h = tt
insert_rank-IsRanked a (b ∷ []) h = elim (Bool-cases (before a b)) [
  | inl first ↦ rw first (before_asym a b first, tt)
  | inr later ↦ rw later (later, tt)
]
insert_rank-IsRanked a (b ∷ c ∷ cs) h = elim (Bool-cases (before a b)) [
  | inl first ↦ rw first (before_asym a b first, h)
  | inr later ↦
      let rest = insert_rank-IsRanked a (c ∷ cs) h.1 in
      elim (Bool-cases (before a c)) [
        | inl first ↦ rw (later, first) (later, rw first at rest)
        | inr last ↦ rw (later, last) (h.0, rw last at rest)
      ]
]

pub sort_ranks-IsRanked : (rs : List Rank) → IsRanked (sort_ranks rs)
unfolding sort_ranks
sort_ranks-IsRanked [] = tt
sort_ranks-IsRanked (a ∷ rest) = insert_rank-IsRanked a (sort_ranks rest) (sort_ranks-IsRanked rest)

abbrev refs_of : List Rank → List ℕ
refs_of rs = map (λ a. a.ref) rs

count-insert_rank :
    (x : ℕ) (a : Rank) (bs : List Rank)
    → count x (refs_of (insert_rank a bs)) ≡ count x (a.ref ∷ refs_of bs)
unfolding insert_rank
count-insert_rank x a [] = refl
count-insert_rank x a (b ∷ bs) = elim (Bool-cases (before a b)) [
  | inl first ↦ rw first refl
  | inr later ↦ rw later (ground (arith, count-insert_rank x a bs))
]

count-sort_ranks :
    (x : ℕ) (rs : List Rank) → count x (refs_of (sort_ranks rs)) ≡ count x (refs_of rs)
unfolding sort_ranks
count-sort_ranks x [] = refl
count-sort_ranks x (a ∷ rest) =
    ground (arith, count-insert_rank x a (sort_ranks rest), count-sort_ranks x rest)

-- It has waited for so many steps that it is served before anything that is cached.
abbrev pub is_starved : Scheduler → ℕ → Bool
is_starved s r =
    leb cache_aware_starvation_limit (get_or_zero (s.store r).request_id s.waiting_ages)

abbrev AreRanks : Scheduler → List Rank → Type 0
AreRanks s [] = Unit {0}
AreRanks s (a ∷ rest) = (a.starved ≡ is_starved s a.ref) × AreRanks s rest

insert_rank-AreRanks :
    (s : Scheduler) (a : Rank) (bs : List Rank)
    → a.starved ≡ is_starved s a.ref
    → AreRanks s bs
    → AreRanks s (insert_rank a bs)
unfolding insert_rank
insert_rank-AreRanks s a [] e h = (e, tt)
insert_rank-AreRanks s a (b ∷ bs) e h = elim (Bool-cases (before a b)) [
  | inl first ↦ rw first (e, h)
  | inr later ↦ rw later (h.0, insert_rank-AreRanks s a bs e h.1)
]

sort_ranks-AreRanks : (s : Scheduler) (rs : List Rank) → AreRanks s rs → AreRanks s (sort_ranks rs)
unfolding sort_ranks
sort_ranks-AreRanks s [] h = tt
sort_ranks-AreRanks s (a ∷ rest) h =
    insert_rank-AreRanks s a (sort_ranks rest) h.0 (sort_ranks-AreRanks s rest h.1)

rank_all-AreRanks :
    (s : Scheduler) (held : List ℕ) (i : ℕ) (rs : List ℕ)
    → IsValid s.block_manager held
    → 0 < s.block_manager.block_size
    → Ensures (rank_all s i rs) (λ ranked. AreRanks s ranked × (refs_of ranked ≡ rs))
unfolding rank_all
rank_all-AreRanks s held i [] v positive = (tt, refl)
rank_all-AreRanks s held i (r ∷ rs) v positive =
    Ensures->>= (estimate_cached_prefix_tokens s.block_manager (s.store r)) _ _ _
      (estimate_cached_prefix_tokens-bound s.block_manager (s.store r) held v positive)
      (λ n le.
        Ensures->>= (rank_all s (i + 1) rs) _ _ _ (rank_all-AreRanks s held (i + 1) rs v positive)
          (λ ranked h. ((refl, h.0), ap (λ t. r ∷ t) h.1)))

-- Nobody stands directly behind a sequence that is less starved.
abbrev pub IsStarvedFirst : Scheduler → List ℕ → Type 0
IsStarvedFirst s [] = Unit {0}
IsStarvedFirst s (a ∷ []) = Unit {0}
IsStarvedFirst s (a ∷ b ∷ bs) =
    (is_starved s b ≡ true → is_starved s a ≡ true) × IsStarvedFirst s (b ∷ bs)

starved_order :
    (s : Scheduler) (a b : Rank)
    → before b a ≡ false
    → a.starved ≡ is_starved s a.ref
    → b.starved ≡ is_starved s b.ref
    → is_starved s b.ref ≡ true
    → is_starved s a.ref ≡ true
unfolding before
starved_order s a b order ea eb h = ground (arith, order, ea, eb, h)

IsRanked-IsStarvedFirst :
    (s : Scheduler) (rs : List Rank) → IsRanked rs → AreRanks s rs → IsStarvedFirst s (refs_of rs)
IsRanked-IsStarvedFirst s [] h k = tt
IsRanked-IsStarvedFirst s (a ∷ []) h k = tt
IsRanked-IsStarvedFirst s (a ∷ b ∷ rs) h k =
    (starved_order s a b h.0 k.0 k.1.0, IsRanked-IsStarvedFirst s (b ∷ rs) h.1 k.1)

-- What `_reorder_waiting_for_cache_affinity` has done.
pub record Reorders (s s' : Scheduler) : Type 0 where
  pub only : s' ≡ record s { waiting = s'.waiting }
  pub same : (x : ℕ) → count x s'.waiting ≡ count x s.waiting
  pub first : is_cache_aware s.scheduler_fairness ≡ true → IsStarvedFirst s s'.waiting
  pub idle : is_cache_aware s.scheduler_fairness ≡ false → s' ≡ s

short_order : (s : Scheduler) (rs : List ℕ) → leb (length rs) 1 ≡ true → IsStarvedFirst s rs
short_order s [] h = tt
short_order s (r ∷ []) h = tt
short_order s (r ∷ q ∷ rs) h = absurd (ground (arith, h))

-- The reordering raises nothing. It changes the order of the waiting queue only, under the policy
-- `cache_aware_lpm` only, and then no sequence stands directly behind one that is less starved.
pub reorder_waiting-Reorders :
    (s : Scheduler) (held : List ℕ)
    → IsValid s.block_manager held
    → 0 < s.block_manager.block_size
    → Ensures (reorder_waiting s) (Reorders s)
unfolding reorder_waiting
reorder_waiting-Reorders s held v positive =
    elim (Bool-cases (is_cache_aware s.scheduler_fairness)) [
      | inr off ↦ rw off (record {
        only = refl;
        same = λ x. refl;
        first = λ on. absurd (ground (arith, on, off));
        idle = λ h. refl;
      })
      | inl on ↦ rw on (elim (Bool-cases (leb (length s.waiting) 1)) [
        | inl short ↦ rw short (record {
          only = refl;
          same = λ x. refl;
          first = λ h. short_order s s.waiting short;
          idle = λ h. refl;
        })
        | inr long ↦ rw long (
            Ensures->>= (rank_all s 0 s.waiting) _ _ _
              (rank_all-AreRanks s held 0 s.waiting v positive)
              (λ ranked h. record {
                only = refl;
                same = λ x. count-sort_ranks x ranked ∙ ap (count x) h.1;
                first = λ on1.
                    IsRanked-IsStarvedFirst s (sort_ranks ranked) (sort_ranks-IsRanked ranked)
                      (sort_ranks-AreRanks s ranked h.0);
                idle = λ h1. absurd (ground (arith, on, h1));
              }))
      ])
    ]
