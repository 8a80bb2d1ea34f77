-- ===== src/Validation.antt =====
-- nanovllm/engine/request_validation.py: which requests the engine accepts. A `ValueError` is the
-- error that names the limit. `num_kvcache_blocks` is -1 until it is known, so it is an integer,
-- as are the two numbers that come from the caller.
use native.Mathlib.Nat.{div-lt_iff_lt-mul}
use nano_vllm_online_serving.Common.{
  ℕ, zero, suc, ◌+◌, ◌-◌, ◌*◌, ◌/◌, ◌≤◌, ◌<◌, ◌≡◌, refl, ltb, if◌then◌else◌, arith, Bool-cases, inl,
  inr,
}

-- An integer: `negsuc n` is -1 - n.
pub data ℤ : Type 0 where
  pos negsuc : ℕ → ℤ

-- The errors, in the order of the tests.
pub data LimitError : Type 0 where
  empty_prompt negative_max_tokens prompt_too_long total_too_long too_few_blocks : LimitError

pub data Verdict : Type 0 where
  accepted : Verdict
  refused : LimitError → Verdict

-- `num_blocks_for_tokens(num_tokens, block_size)`
unfoldable pub blocks_needed : ℕ → ℕ → ℕ
blocks_needed num_tokens block_size = (num_tokens + block_size - 1) / block_size

-- The last test; there is none before the number of blocks is known.
unfoldable pub check_blocks : ℕ → ℕ → ℤ → Verdict
check_blocks tokens block_size (negsuc n) = accepted
check_blocks tokens block_size (pos num_kvcache_blocks) =
    if ltb 0 num_kvcache_blocks
    then (if ltb num_kvcache_blocks (blocks_needed tokens block_size)
        then refused too_few_blocks
        else accepted)
    else accepted

-- The tests for numbers that are not negative.
unfoldable pub check_lengths : ℕ → ℕ → ℕ → ℕ → ℤ → Verdict
check_lengths prompt_len max_tokens max_model_len block_size num_kvcache_blocks =
    if ltb max_model_len prompt_len
    then refused prompt_too_long
    else if ltb max_model_len (prompt_len + max_tokens)
    then refused total_too_long
    else check_blocks (prompt_len + max_tokens) block_size num_kvcache_blocks

-- `validate_request_limits(...)`
unfoldable pub validate_request_limits : ℤ → ℤ → ℕ → ℕ → ℤ → Verdict
validate_request_limits (negsuc n) max_tokens max_model_len block_size num_kvcache_blocks =
    refused empty_prompt
validate_request_limits (pos zero) max_tokens max_model_len block_size num_kvcache_blocks =
    refused empty_prompt
validate_request_limits (pos (suc n)) (negsuc m) max_model_len block_size num_kvcache_blocks =
    refused negative_max_tokens
validate_request_limits (pos (suc n)) (pos m) max_model_len block_size num_kvcache_blocks =
    check_lengths (suc n) m max_model_len block_size num_kvcache_blocks

-- What an accepted request keeps to: all its tokens fit the model, and the cache.
abbrev pub Fits : ℕ → ℕ → ℤ → Type 0
Fits tokens block_size (negsuc n) = Unit {0}
Fits tokens block_size (pos num_kvcache_blocks) =
    0 < num_kvcache_blocks → tokens ≤ num_kvcache_blocks * block_size

abbrev pub IsWithin : ℤ → ℤ → ℕ → ℕ → ℤ → Type 0
IsWithin (negsuc n) max_tokens max_model_len block_size num_kvcache_blocks = ⊥
IsWithin (pos n) (negsuc m) max_model_len block_size num_kvcache_blocks = ⊥
IsWithin (pos n) (pos m) max_model_len block_size num_kvcache_blocks =
    (0 < n) × (n + m ≤ max_model_len) × Fits (n + m) block_size num_kvcache_blocks

-- The blocks that are needed hold the tokens, and are no more than any blocks that do.
blocks_needed-le :
    (tokens block_size blocks : ℕ)
    → 0 < block_size
    → (blocks_needed tokens block_size ≤ blocks → tokens ≤ blocks * block_size)
      × (tokens ≤ blocks * block_size → blocks_needed tokens block_size ≤ blocks)
unfolding blocks_needed
blocks_needed-le tokens bs blocks positive = (
  λ h.
      let less : tokens + bs - 1 < (blocks + 1) * bs =
        (div-lt_iff_lt-mul positive).0 (omega (arith, h)) in
      omega (arith, less, positive),
  λ h.
      let less : (tokens + bs - 1) / bs < blocks + 1 =
        (div-lt_iff_lt-mul positive).1 (omega (arith, h, positive)) in
      omega (arith, less),
)

check_blocks-Fits :
    (tokens block_size : ℕ) (blocks : ℤ)
    → 0 < block_size
    → (check_blocks tokens block_size blocks ≡ accepted → Fits tokens block_size blocks)
      × (Fits tokens block_size blocks → check_blocks tokens block_size blocks ≡ accepted)
unfolding check_blocks
check_blocks-Fits tokens bs (negsuc n) positive = (λ h. tt, λ h. refl)
check_blocks-Fits tokens bs (pos n) positive =
    let bound = blocks_needed-le tokens bs n positive in
    elim (Bool-cases (ltb 0 n)) [
      | inr unknown ↦ (λ h k. absurd (ground (arith, unknown, k)), λ h. rw unknown refl)
      | inl known ↦ elim (Bool-cases (ltb n (blocks_needed tokens bs))) [
        | inl short ↦ (
          λ h. absurd (cc_refused (rw (known, short) at h)),
          λ h. absurd (ground (arith, short, bound.1 (h (ground (arith, known))))),
        )
        | inr enough ↦ (λ h k. bound.0 (ground (arith, enough)), λ h. rw (known, enough) refl)
      ]
    ]
  where
    cc_refused : refused too_few_blocks ≡ accepted → ⊥
    cc_refused h = cc

check_lengths-IsWithin :
    (n m limit block_size : ℕ) (blocks : ℤ)
    → 0 < block_size
    → (check_lengths n m limit block_size blocks ≡ accepted
        → (n + m ≤ limit) × Fits (n + m) block_size blocks)
      × ((n + m ≤ limit) × Fits (n + m) block_size blocks
          → check_lengths n m limit block_size blocks ≡ accepted)
unfolding check_lengths
check_lengths-IsWithin n m limit bs blocks positive =
    let last = check_blocks-Fits (n + m) bs blocks positive in
    elim (Bool-cases (ltb limit n)) [
      | inl long ↦
          (λ h. absurd (not_refused _ (rw long at h)), λ h. absurd (ground (arith, long, h.0)))
      | inr short ↦ elim (Bool-cases (ltb limit (n + m))) [
        | inl over ↦ (
          λ h. absurd (not_refused _ (rw (short, over) at h)),
          λ h. absurd (ground (arith, over, h.0)),
        )
        | inr within ↦ (
          λ h. (ground (arith, within), last.0 (rw (short, within) at h)),
          λ h. rw (short, within) (last.1 h.1),
        )
      ]
    ]
  where
    not_refused : (e : LimitError) → refused e ≡ accepted → ⊥
    not_refused e h = cc

-- With a positive block size, a request is accepted exactly where its prompt is not empty, no
-- number is negative, and all its tokens fit the model and, once the number of blocks is known,
-- the cache.
pub validate_request_limits-IsWithin :
    (n m : ℤ) (limit block_size : ℕ) (blocks : ℤ)
    → 0 < block_size
    → (validate_request_limits n m limit block_size blocks ≡ accepted
        → IsWithin n m limit block_size blocks)
      × (IsWithin n m limit block_size blocks
          → validate_request_limits n m limit block_size blocks ≡ accepted)
unfolding validate_request_limits
validate_request_limits-IsWithin (negsuc n) m limit bs blocks positive = (λ h. cc, λ h. absurd h)
validate_request_limits-IsWithin (pos zero) (pos m) limit bs blocks positive =
    (λ h. absurd cc, λ h. absurd (omega (arith, h.0)))
validate_request_limits-IsWithin (pos zero) (negsuc m) limit bs blocks positive =
    (λ h. cc, λ h. absurd h)
validate_request_limits-IsWithin (pos (suc n)) (negsuc m) limit bs blocks positive =
    (λ h. cc, λ h. absurd h)
validate_request_limits-IsWithin (pos (suc n)) (pos m) limit bs blocks positive =
    let rest = check_lengths-IsWithin (suc n) m limit bs blocks positive in
    (λ h. let r = rest.0 h in (omega arith, r.0, r.1), λ h. rest.1 (h.1, h.2))
