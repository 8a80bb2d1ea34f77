-- ===== src/Scheduler/Policy.antt =====
-- The choices of `Scheduler` in nanovllm/engine/scheduler.py that read its state: the kind of the
-- next step, the order of the waiting queue, and the budget of a prefill chunk.
use nano_vllm_online_serving.Common.{
  ℕ, ◌+◌, ◌/◌, Bool, true, false, Option, some, List, [], ◌∷◌, map, ltb, leb, ◌==◌, not, ◌&&◌, ◌||◌,
  min, max, if◌then◌else◌, length, select, any_of, TextDict, put, get_or_zero, ◌>>=◌,
}
use nano_vllm_online_serving.Sequence.{Sequence, is_prompt_ready}
use nano_vllm_online_serving.BlockManager.Prefix.{estimate_cached_prefix_tokens}
use nano_vllm_online_serving.Scheduler.State.{
  Scheduler, Fairness, alternate, fcfs, prefill_first, decode_first, cache_aware_lpm,
  cache_aware_starvation_limit, has_prefill_work, has_decode_work,
}

-- `_prefer_prefill()`; the last two policies share the code at its end.
unfoldable pub prefers_prefill : Fairness → Scheduler → Bool
prefers_prefill fcfs s =
    if any_of (λ r. not (is_prompt_ready (s.store r))) s.running
    then true
    else if has_decode_work s
    then false
    else has_prefill_work s
prefers_prefill prefill_first s = has_prefill_work s
prefers_prefill decode_first s = not (has_decode_work s) && has_prefill_work s
prefers_prefill alternate s =
    if not (has_decode_work s)
    then has_prefill_work s
    else if not (has_prefill_work s)
    then false
    else not s.last_step_was_prefill
prefers_prefill cache_aware_lpm s =
    if not (has_decode_work s)
    then has_prefill_work s
    else if not (has_prefill_work s)
    then false
    else not s.last_step_was_prefill

-- `_age_waiting()`, over the queue.
unfoldable pub age_all : (ℕ → Sequence) → List ℕ → TextDict ℕ → TextDict ℕ
age_all store [] ages = ages
age_all store (r ∷ rs) ages =
    let id = (store r).request_id in age_all store rs (put id (get_or_zero id ages + 1) ages)

unfoldable pub age_waiting : Scheduler → Scheduler
age_waiting s = record s { waiting_ages = age_all s.store s.waiting s.waiting_ages }

-- The key by which `_reorder_waiting_for_cache_affinity` ranks a sequence; the index comes last.
pub record Rank : Type 0 where
  pub starved : Bool
  pub cached_tokens : ℕ
  pub age : ℕ
  pub index : ℕ
  pub ref : ℕ

-- Whether `a` comes before `b`: the tuples `(starved, cached_tokens, age, -index)`, largest first.
unfoldable pub before : Rank → Rank → Bool
before a b =
    if a.starved && not b.starved
    then true
    else if b.starved && not a.starved
    then false
    else if ltb b.cached_tokens a.cached_tokens
    then true
    else if ltb a.cached_tokens b.cached_tokens
    then false
    else if ltb b.age a.age
    then true
    else if ltb a.age b.age
    then false
    else ltb a.index b.index

-- `ranked.sort(reverse=True, ...)`: the keys are all different, so any sort gives this order.
unfoldable pub insert_rank : Rank → List Rank → List Rank
insert_rank a [] = a ∷ []
insert_rank a (b ∷ bs) = if before a b then a ∷ b ∷ bs else b ∷ insert_rank a bs

unfoldable pub sort_ranks : List Rank → List Rank
sort_ranks [] = []
sort_ranks (a ∷ rest) = insert_rank a (sort_ranks rest)

unfoldable pub rank_all : Scheduler → ℕ → List ℕ → Option (List Rank)
rank_all s index [] = some []
rank_all s index (r ∷ rs) = do
  let age = get_or_zero (s.store r).request_id s.waiting_ages
  cached_tokens ← estimate_cached_prefix_tokens s.block_manager (s.store r)
  rest ← rank_all s (index + 1) rs
  some (
      record {
        starved = leb cache_aware_starvation_limit age;
        cached_tokens = cached_tokens;
        age = age;
        index = index;
        ref = r;
      }
      ∷ rest)

abbrev pub is_cache_aware : Fairness → Bool
is_cache_aware cache_aware_lpm = true
is_cache_aware alternate = false
is_cache_aware fcfs = false
is_cache_aware prefill_first = false
is_cache_aware decode_first = false

-- `_reorder_waiting_for_cache_affinity()`
unfoldable pub reorder_waiting : Scheduler → Option Scheduler
reorder_waiting s =
    if not (is_cache_aware s.scheduler_fairness) || leb (length s.waiting) 1
    then some s
    else rank_all s 0 s.waiting >>= λ ranked.
        some (record s { waiting = map (λ a. a.ref) (sort_ranks ranked) })

-- `_prefill_chunk_budget()`
unfoldable pub prefill_chunk_budget : Scheduler → ℕ
prefill_chunk_budget s =
    let budget = min s.max_prefill_chunk_tokens s.max_num_batched_tokens in
    let decode_pressure = length (select (λ r. is_prompt_ready (s.store r)) s.running) in
    if decode_pressure == 0
    then budget
    else max s.min_prefill_chunk_tokens (budget / min (decode_pressure + 1) 8)

-- `_prefill_reserve_blocks()`
unfoldable pub prefill_reserve_blocks : Scheduler → ℕ
prefill_reserve_blocks s = if has_decode_work s then s.kvcache_watermark_blocks else 0
