-- ===== src/Sequence/Pickle.antt =====
-- How a sequence travels between processes: `__getstate__` and `__setstate__` of
-- nanovllm/engine/sequence.py.
use nano_vllm_online_serving.Common.{
  ℕ, ◌≡◌, refl, Bool, String, Option, none, some, List, [], ◌∷◌, last?, ◌>>=◌, arith,
}
use nano_vllm_online_serving.Sequence.{
  Sequence, SequenceStatus, sorted_positive, normalize_cache_breakpoints,
}

-- The dictionary that `__getstate__` returns.
pub record SequenceState : Type 0 where
  pub seq_id : ℕ
  pub request_id : String
  pub token_ids : List ℕ
  pub num_tokens : ℕ
  pub num_prompt_tokens : ℕ
  pub prefill_target_tokens : ℕ
  pub num_cached_tokens : ℕ
  pub num_computed_tokens : ℕ
  pub block_table : List ℕ
  pub temperature : ℕ
  pub max_tokens : ℕ
  pub ignore_eos : Bool
  pub cacheable_prefix_tokens : Option ℕ
  pub cache_breakpoint_tokens : List ℕ
  pub cache_ttl_seconds : Option ℕ
  pub cache_namespace : String
  pub cache_enabled : Bool
  pub cache_read_input_tokens : ℕ
  pub cache_creation_input_tokens : ℕ
  pub scheduled_prefill_start : ℕ
  pub scheduled_prefill_end : ℕ

unfoldable pub get_state : Sequence → SequenceState
get_state s = record {
  seq_id = s.seq_id;
  request_id = s.request_id;
  token_ids = s.token_ids;
  num_tokens = s.num_tokens;
  num_prompt_tokens = s.num_prompt_tokens;
  prefill_target_tokens = s.prefill_target_tokens;
  num_cached_tokens = s.num_cached_tokens;
  num_computed_tokens = s.num_computed_tokens;
  block_table = s.block_table;
  temperature = s.temperature;
  max_tokens = s.max_tokens;
  ignore_eos = s.ignore_eos;
  cacheable_prefix_tokens = s.cacheable_prefix_tokens;
  cache_breakpoint_tokens = s.cache_breakpoint_tokens;
  cache_ttl_seconds = s.cache_ttl_seconds;
  cache_namespace = s.cache_namespace;
  cache_enabled = s.cache_enabled;
  cache_read_input_tokens = s.cache_read_input_tokens;
  cache_creation_input_tokens = s.cache_creation_input_tokens;
  scheduled_prefill_start = s.scheduled_prefill_start;
  scheduled_prefill_end = s.scheduled_prefill_end;
}

-- `state.get("cache_breakpoint_tokens") or self._normalize_cache_breakpoints(...)`
unfoldable pub restored_breakpoints : List ℕ → Option ℕ → List ℕ
restored_breakpoints [] prefix = normalize_cache_breakpoints prefix []
restored_breakpoints (b ∷ bs) prefix = b ∷ bs

-- `__setstate__`, on a state with all keys; an empty token list raises.
unfoldable pub set_state : SequenceState → Option Sequence
set_state state = do
  last_token ← last? state.token_ids
  some (record {
    seq_id = state.seq_id;
    request_id = state.request_id;
    status = SequenceStatus.running;
    token_ids = state.token_ids;
    last_token = last_token;
    num_tokens = state.num_tokens;
    num_prompt_tokens = state.num_prompt_tokens;
    prefill_target_tokens = state.prefill_target_tokens;
    num_cached_tokens = state.num_cached_tokens;
    num_computed_tokens = state.num_computed_tokens;
    block_table = state.block_table;
    temperature = state.temperature;
    max_tokens = state.max_tokens;
    ignore_eos = state.ignore_eos;
    cache_breakpoint_tokens =
        restored_breakpoints state.cache_breakpoint_tokens state.cacheable_prefix_tokens;
    cacheable_prefix_tokens = state.cacheable_prefix_tokens;
    cache_ttl_seconds = state.cache_ttl_seconds;
    cache_namespace = state.cache_namespace;
    cache_enabled = state.cache_enabled;
    cache_read_input_tokens = state.cache_read_input_tokens;
    cache_creation_input_tokens = state.cache_creation_input_tokens;
    scheduled_prefill_start = state.scheduled_prefill_start;
    scheduled_prefill_end = state.scheduled_prefill_end;
    finish_reason = none;
  })

-- A cacheable prefix makes a breakpoint, unless it is 0.
abbrev pub HasBreakpoints : List ℕ → Option ℕ → Type 0
HasBreakpoints [] (some n) = n ≡ 0
HasBreakpoints [] none = Unit {0}
HasBreakpoints (b ∷ bs) prefix = Unit {0}

restored_same :
    (breakpoints : List ℕ) (prefix : Option ℕ)
    → HasBreakpoints breakpoints prefix
    → restored_breakpoints breakpoints prefix ≡ breakpoints
unfolding restored_breakpoints normalize_cache_breakpoints sorted_positive
restored_same [] none h = refl
restored_same [] (some n) h = ground (arith, h)
restored_same (b ∷ bs) prefix h = refl

-- A sequence that travels arrives as it was, but for its status, which is running, and its finish
-- reason, which is gone.
pub set_state-get_state :
    (s : Sequence)
    → last? s.token_ids ≡ some s.last_token
    → HasBreakpoints s.cache_breakpoint_tokens s.cacheable_prefix_tokens
    → set_state (get_state s)
      ≡ some (record s { status = SequenceStatus.running; finish_reason = none })
unfolding set_state get_state
set_state-get_state s last kept =
    rw (last, ◌>>=◌)
      (rw (restored_same s.cache_breakpoint_tokens s.cacheable_prefix_tokens kept) refl)
