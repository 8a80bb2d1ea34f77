-- ===== src/Sequence.antt =====
-- nanovllm/engine/sequence.py and sampling_params.py: one request inside the engine. Token ids,
-- token counts and block ids are naturals. `temperature` and the ttl are carried, never computed
-- with here, so they are naturals in some fixed unit. `Sequence.block_size` is a class attribute
-- in the source; the functions that read it take it as an argument.
pub mod Breakpoints
pub mod Blocks
pub mod Pickle
use nano_vllm_online_serving.Common.{
  ℕ, ◌+◌, ◌-◌, ◌*◌, ◌/◌, ◌≡◌, Bool, true, false, String, Option, none, some, List, [], ◌∷◌, ◌++◌,
  ltb, leb, ◌&&◌, min, if◌then◌else◌, length, slice, last?, select, require, ◌>>=◌, ◌>>◌, str_eq,
}

-- `class SamplingParams`
pub record SamplingParams : Type 0 where
  pub temperature : ℕ
  pub max_tokens : ℕ
  pub ignore_eos : Bool

pub data SequenceStatus : Type 0 where
  waiting running finished : SequenceStatus

-- The attributes that `Sequence.__init__` sets.
pub record Sequence : Type 0 where
  pub seq_id : ℕ
  pub request_id : String
  pub status : SequenceStatus
  pub token_ids : List ℕ
  pub last_token : ℕ
  pub num_tokens : ℕ
  pub num_prompt_tokens : ℕ
  pub prefill_target_tokens : ℕ
  pub num_cached_tokens : ℕ
  pub num_computed_tokens : ℕ
  pub block_table : List ℕ
  pub temperature : ℕ
  pub max_tokens : ℕ
  pub ignore_eos : Bool
  pub cache_breakpoint_tokens : List ℕ
  pub cacheable_prefix_tokens : Option ℕ
  pub cache_ttl_seconds : Option ℕ
  pub cache_namespace : String
  pub cache_enabled : Bool
  pub cache_read_input_tokens : ℕ
  pub cache_creation_input_tokens : ℕ
  pub scheduled_prefill_start : ℕ
  pub scheduled_prefill_end : ℕ
  pub finish_reason : Option String

-- A number into an ascending list, once.
insert_sorted : ℕ → List ℕ → List ℕ
insert_sorted x [] = x ∷ []
insert_sorted x (y ∷ ys) =
    if ltb x y then x ∷ y ∷ ys else if ltb y x then y ∷ insert_sorted x ys else y ∷ ys

-- `sorted({x for x in xs if x > 0})`
unfoldable pub sorted_positive : List ℕ → List ℕ
unfolding insert_sorted
sorted_positive [] = []
sorted_positive (x ∷ xs) =
    if ltb 0 x then insert_sorted x (sorted_positive xs) else sorted_positive xs

-- `Sequence._normalize_cache_breakpoints`; a missing list and an empty one act alike.
unfoldable pub normalize_cache_breakpoints : Option ℕ → List ℕ → List ℕ
unfolding sorted_positive
normalize_cache_breakpoints none breakpoints = sorted_positive breakpoints
normalize_cache_breakpoints (some n) breakpoints = sorted_positive (breakpoints ++ n ∷ [])

-- What `Sequence.__init__` takes besides the prompt. `seq_id` is the next value of the counter;
-- `request_id` is already resolved by `request_id or str(seq_id)`.
pub record SequenceOptions : Type 0 where
  pub seq_id : ℕ
  pub request_id : String
  pub sampling_params : SamplingParams
  pub cacheable_prefix_tokens : Option ℕ
  pub cache_breakpoint_tokens : List ℕ
  pub cache_ttl_seconds : Option ℕ
  pub cache_namespace : String
  pub cache_enabled : Bool

-- `Sequence.__init__`: an empty prompt fails its assertion.
unfoldable pub new_sequence : List ℕ → SequenceOptions → Option Sequence
unfolding normalize_cache_breakpoints
new_sequence token_ids o = do
  last_token ← last? token_ids
  let breakpoints = normalize_cache_breakpoints o.cacheable_prefix_tokens o.cache_breakpoint_tokens
  some (record {
    seq_id = o.seq_id;
    request_id = o.request_id;
    status = waiting;
    token_ids = token_ids;
    last_token = last_token;
    num_tokens = length token_ids;
    num_prompt_tokens = length token_ids;
    prefill_target_tokens = length token_ids;
    num_cached_tokens = 0;
    num_computed_tokens = 0;
    block_table = [];
    temperature = o.sampling_params.temperature;
    max_tokens = o.sampling_params.max_tokens;
    ignore_eos = o.sampling_params.ignore_eos;
    cache_breakpoint_tokens = breakpoints;
    cacheable_prefix_tokens = elim (last? breakpoints) [
      | none ↦ o.cacheable_prefix_tokens
      | some n ↦ some n
    ];
    cache_ttl_seconds = o.cache_ttl_seconds;
    cache_namespace = o.cache_namespace;
    cache_enabled = o.cache_enabled;
    cache_read_input_tokens = 0;
    cache_creation_input_tokens = 0;
    scheduled_prefill_start = 0;
    scheduled_prefill_end = 0;
    finish_reason = none;
  })

unfoldable pub is_finished : Sequence → Bool
is_finished s = elim s.status [ finished ↦ true | _ ↦ false ]

-- `seq.status == SequenceStatus.RUNNING`
unfoldable pub is_running : Sequence → Bool
is_running s = elim s.status [ running ↦ true | _ ↦ false ]

unfoldable pub is_prompt_ready : Sequence → Bool
is_prompt_ready s = leb s.prefill_target_tokens s.num_computed_tokens

unfoldable pub num_completion_tokens : Sequence → ℕ
num_completion_tokens s = s.num_tokens - s.num_prompt_tokens

unfoldable pub prompt_token_ids : Sequence → List ℕ
prompt_token_ids s = slice 0 s.num_prompt_tokens s.token_ids

unfoldable pub completion_token_ids : Sequence → List ℕ
completion_token_ids s = slice s.num_prompt_tokens (length s.token_ids) s.token_ids

-- `(num_tokens + block_size - 1) // block_size`
unfoldable pub num_blocks_for_tokens : ℕ → ℕ → ℕ
num_blocks_for_tokens block_size num_tokens = (num_tokens + block_size - 1) / block_size

unfoldable pub num_blocks : ℕ → Sequence → ℕ
unfolding num_blocks_for_tokens
num_blocks block_size s = num_blocks_for_tokens block_size s.num_tokens

unfoldable pub last_block_num_tokens : ℕ → Sequence → ℕ
unfolding num_blocks
last_block_num_tokens block_size s = s.num_tokens - (num_blocks block_size s - 1) * block_size

-- `Sequence.max_cacheable_tokens(up_to_token)`, always called with a token count.
unfoldable pub max_cacheable_tokens : Sequence → ℕ → ℕ
max_cacheable_tokens s up_to_token = elim s.cache_breakpoint_tokens [
  | [] ↦ elim s.cacheable_prefix_tokens [ none ↦ up_to_token | some n ↦ n ]
  | b ∷ bs ↦ elim (last? (select (λ t. leb t up_to_token) (b ∷ bs))) [ none ↦ 0 | some t ↦ t ]
]

-- `Sequence.block(i)`
unfoldable pub block : ℕ → Sequence → ℕ → Option (List ℕ)
unfolding num_blocks
block block_size s i = do
  require (ltb i (num_blocks block_size s))
  some (slice (i * block_size) ((i + 1) * block_size) s.token_ids)

-- `Sequence.block_for_tokens(i, num_tokens)`
unfoldable pub block_for_tokens : ℕ → Sequence → ℕ → ℕ → Option (List ℕ)
unfolding num_blocks_for_tokens
block_for_tokens block_size s i num_tokens = do
  require (ltb i (num_blocks_for_tokens block_size num_tokens))
  some (slice (i * block_size) (min ((i + 1) * block_size) num_tokens) s.token_ids)

unfoldable pub set_prefill_chunk : Sequence → ℕ → ℕ → Option Sequence
set_prefill_chunk s start end = do
  require (ltb start end && leb end s.prefill_target_tokens)
  some (record s { scheduled_prefill_start = start; scheduled_prefill_end = end })

unfoldable pub clear_prefill_chunk : Sequence → Sequence
clear_prefill_chunk s = record s { scheduled_prefill_start = 0; scheduled_prefill_end = 0 }

unfoldable pub append_token : Sequence → ℕ → Sequence
append_token s token_id = record s {
  token_ids = s.token_ids ++ token_id ∷ [];
  last_token = token_id;
  num_tokens = s.num_tokens + 1;
}

unfoldable pub finish : Sequence → String → Sequence
finish s reason = record s { status = finished; finish_reason = some reason }

unfoldable pub reset_cache_usage : Sequence → Sequence
reset_cache_usage s = record s { cache_read_input_tokens = 0; cache_creation_input_tokens = 0 }

-- The dictionary that `Sequence.cache_usage` returns.
pub record CacheUsage : Type 0 where
  pub prompt_tokens : ℕ
  pub input_tokens : ℕ
  pub cache_read_input_tokens : ℕ
  pub cache_creation_input_tokens : ℕ

-- `max(0, a - b - c)` is the truncated difference.
unfoldable pub cache_usage : Sequence → CacheUsage
cache_usage s = record {
  prompt_tokens = s.num_prompt_tokens;
  input_tokens = s.num_prompt_tokens - s.cache_read_input_tokens - s.cache_creation_input_tokens;
  cache_read_input_tokens = s.cache_read_input_tokens;
  cache_creation_input_tokens = s.cache_creation_input_tokens;
}
