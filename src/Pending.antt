-- ===== src/Pending.antt =====
-- The pending queue of `AsyncLLMEngine` in nanovllm/engine/async_engine.py: the order of requests by
-- priority, the limits on active requests, and the choice of the next one to admit. A priority is
-- only compared, so it is a natural.
pub mod Order
pub mod Limits
use nano_vllm_online_serving.Common.{
  ℕ, ◌+◌, Bool, true, false, String, Option, none, some, List, [], ◌∷◌, ◌++◌, ltb, leb, ◌&&◌, ◌||◌,
  if◌then◌else◌, length, select, last?, str_eq,
}
use nano_vllm_online_serving.Sequence.{SamplingParams}
use nano_vllm_online_serving.LlmEngine.{Prompt, CacheOptions}

-- `AsyncRequest`, without what changes while it is served: `output_queue` refers to the object that
-- the client shares, with the output queue and `finished`. `created_at` and the timeouts are whole
-- ticks of the clock. `cancelled` is set only in calls that take the request out of the engine, so
-- the copies of a request that wait or are served hold what it was created with.
pub record AsyncRequest : Type 0 where
  pub request_id : String
  pub trace_id : String
  pub prompt : Prompt
  pub sampling_params : SamplingParams
  pub cache_options : CacheOptions
  pub output_queue : ℕ
  pub created_at : ℕ
  pub request_timeout_s : Option ℕ
  pub queue_timeout_s : Option ℕ
  pub priority : ℕ
  pub namespace : String
  pub prompt_token_count : ℕ
  pub estimated_token_count : ℕ
  pub cancelled : Bool

-- The limits among the attributes of `AsyncLLMEngine`; `none` is no limit.
pub record ActiveLimits : Type 0 where
  pub max_active_requests : Option ℕ
  pub max_active_requests_per_namespace : Option ℕ
  pub max_active_tokens : Option ℕ
  pub max_active_tokens_per_namespace : Option ℕ

-- `self.pending.insert(index, request)` in front of the first of a lower priority.
unfoldable pub insert_pending : AsyncRequest → List AsyncRequest → List AsyncRequest
insert_pending r [] = r ∷ []
insert_pending r (q ∷ qs) =
    if ltb q.priority r.priority then r ∷ q ∷ qs else q ∷ insert_pending r qs

-- `_enqueue_pending(request)`, with its short cut for the end of the queue.
unfoldable pub enqueue_pending : AsyncRequest → List AsyncRequest → List AsyncRequest
enqueue_pending r pending = elim (last? pending) [
  | none ↦ pending ++ r ∷ []
  | some q ↦ if leb r.priority q.priority then pending ++ r ∷ [] else insert_pending r pending
]

-- The sums of `_active_estimated_tokens` and `_active_estimated_tokens_for_namespace`.
unfoldable pub estimated_tokens : List AsyncRequest → ℕ
estimated_tokens [] = 0
estimated_tokens (r ∷ rs) = r.estimated_token_count + estimated_tokens rs

unfoldable pub of_namespace : String → List AsyncRequest → List AsyncRequest
of_namespace ns rs = select (λ r. str_eq r.namespace ns) rs

-- A number keeps to an optional limit.
unfoldable pub within : Option ℕ → ℕ → Bool
within none n = true
within (some limit) n = leb n limit

-- `_can_admit_active(request)`; `len(x) >= limit` is the failure of `len(x) + 1 <= limit`.
unfoldable pub can_admit_active : ActiveLimits → List AsyncRequest → AsyncRequest → Bool
can_admit_active l active r =
    let here = of_namespace r.namespace active in
    if r.cancelled
    then true
    else within l.max_active_requests (length active + 1)
      && within l.max_active_requests_per_namespace (length here + 1)
      && within l.max_active_tokens (estimated_tokens active + r.estimated_token_count)
      && within l.max_active_tokens_per_namespace (estimated_tokens here + r.estimated_token_count)

-- `_pop_next_admissible_pending()`: the request and the queue without it.
unfoldable pub pop_next_admissible :
    ActiveLimits → List AsyncRequest → List AsyncRequest → Option (AsyncRequest × List AsyncRequest)
pop_next_admissible l active [] = none
pop_next_admissible l active (q ∷ qs) = elim (can_admit_active l active q) [
  | true ↦ some (q, qs)
  | false ↦ elim (pop_next_admissible l active qs) [
    | none ↦ none
    | some (r, rest) ↦ some (r, q ∷ rest)
  ]
]
