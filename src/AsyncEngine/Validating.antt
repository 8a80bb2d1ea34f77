-- ===== src/AsyncEngine/Validating.antt =====
-- The arguments of `add_request` before they are checked, and their validation, the refusals
-- included (nanovllm/engine/async_engine.py).
use nano_vllm_online_serving.Common.{
  ℕ, Bool, true, false, String, Option, none, some, List, [], ◌∷◌,
}
use nano_vllm_online_serving.Sequence.{SamplingParams}
use nano_vllm_online_serving.Validation.{ℤ, pos, negsuc}
use nano_vllm_online_serving.LlmEngine.{Failure, Prompt, text, token_list}

-- A value that should be a float: `float(value)` raises, or gives an infinity or no number, a
-- negative number, or a number of ticks.
pub data Number : Type 0 where
  unreadable not_finite negative : Number
  amount : ℕ → Number

-- The sampling parameters of a request before they are checked. `none` is a `max_tokens` on which
-- `int` raises, and an `ignore_eos` that is no bool.
pub record RawSampling : Type 0 where
  pub max_tokens : Option ℤ
  pub temperature : Number
  pub ignore_eos : Option Bool

-- A prompt before it is checked; `none` is an element that is no integer.
pub data RawPrompt : Type 0 where
  raw_text : String → RawPrompt
  raw_tokens : List (Option ℕ) → RawPrompt
  raw_other : RawPrompt

-- Why a request is refused: `RequestFailed` with the error type "request_validation" for the
-- last, with "engine_error" for the first, and `RequestRejected` for the others.
pub data Refusal : Type 0 where
  engine_fatal_error : Failure → Refusal
  engine_draining queue_full duplicate_request_id : Refusal
  pending_request_namespace_budget pending_prompt_token_budget : Refusal
  single_request_active_token_budget single_request_namespace_active_token_budget : Refusal
  request_validation : String → Refusal

-- The outcome of a test: the value that it computes, or the exception that it raises.
pub data Checked {ℓ} (A : Type ℓ) : Type ℓ where
  refused : Refusal → Checked A
  passed : A → Checked A

infixl 5 ◌>>=◌ ◌>>◌
abbrev pub ◌>>=◌ {ℓ κ} : {A : Type ℓ} {B : Type κ} → Checked A → (A → Checked B) → Checked B
refused e >>= f = refused e
passed a >>= f = f a

abbrev pub ◌>>◌ {ℓ} : {B : Type ℓ} → Checked (Unit {0}) → Checked B → Checked B
m >> k = m >>= λ _. k

-- `if b: raise ...`
unfoldable pub refuse_if : Bool → Refusal → Checked (Unit {0})
refuse_if true e = refused e
refuse_if false e = passed tt

-- `_validate_timeout(value, name)`
unfoldable pub validate_timeout : Option Number → Checked (Option ℕ)
validate_timeout none = passed none
validate_timeout (some unreadable) = refused (request_validation "timeout must be a number")
validate_timeout (some not_finite) = refused (request_validation "timeout must be finite")
validate_timeout (some negative) = refused (request_validation "timeout must be non-negative")
validate_timeout (some (amount n)) = passed (some n)

-- `_validate_sampling_params(sampling_params)`
unfoldable pub validate_max_tokens : Option ℤ → Checked ℕ
validate_max_tokens none = refused (request_validation "max_tokens must be an integer")
validate_max_tokens (some (negsuc n)) =
    refused (request_validation "max_tokens must be non-negative")
validate_max_tokens (some (pos n)) = passed n

unfoldable pub validate_temperature : Number → Checked ℕ
validate_temperature unreadable = refused (request_validation "temperature must be a number")
validate_temperature not_finite = refused (request_validation "temperature must be finite")
validate_temperature negative = refused (request_validation "temperature must be non-negative")
validate_temperature (amount n) = passed n

unfoldable pub validate_ignore_eos : Option Bool → Checked Bool
validate_ignore_eos none = refused (request_validation "ignore_eos must be a boolean")
validate_ignore_eos (some b) = passed b

unfoldable pub validate_sampling_params : RawSampling → Checked SamplingParams
validate_sampling_params p = do
  max_tokens ← validate_max_tokens p.max_tokens
  temperature ← validate_temperature p.temperature
  ignore_eos ← validate_ignore_eos p.ignore_eos
  passed (record { temperature = temperature; max_tokens = max_tokens; ignore_eos = ignore_eos })

unfoldable pub validate_priority : Option ℕ → Checked ℕ
validate_priority none = refused (request_validation "priority must be an integer")
validate_priority (some n) = passed n

-- `all(isinstance(token_id, int) for token_id in prompt)`, and the prompt as ids.
unfoldable pub all_integers : List (Option ℕ) → Checked (List ℕ)
all_integers [] = passed []
all_integers (none ∷ ts) = refused (request_validation "prompt_token_ids must be integers")
all_integers (some t ∷ ts) = all_integers ts >>= λ rest. passed (t ∷ rest)

-- The type tests of `_prompt_token_count(prompt)`.
unfoldable pub check_prompt : RawPrompt → Checked Prompt
check_prompt (raw_text t) = passed (text t)
check_prompt (raw_tokens ts) = all_integers ts >>= λ ids. passed (token_list ids)
check_prompt raw_other = refused (request_validation "prompt must be a string or token id list")
