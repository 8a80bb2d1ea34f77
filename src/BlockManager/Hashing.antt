-- ===== src/BlockManager/Hashing.antt =====
-- The hashes of `BlockManager` in nanovllm/engine/block_manager.py. xxhash is a third-party package
-- and blake2b a C routine: both are arguments, from bytes to the integer of the 8-byte digest.
-- Token ids and hashes fit in 64 bits, so packing does not raise.
use Prim.Native.Char.{code}
use Prim.Native.String.{String}
use nano_vllm_online_serving.Common.{
  ℕ, zero, suc, ◌+◌, ◌/◌, ◌%◌, Option, none, some, List, [], ◌∷◌, ◌++◌, ltb, if◌then◌else◌,
}

-- What the process gives: the hash functions and the clock. `time n` is the n-th value that
-- `time.time()` returns, in some fixed unit.
pub record Host : Type 0 where
  pub xxhash : Option (List ℕ → ℕ)
  pub blake2b : List ℕ → ℕ
  pub time : ℕ → ℕ

-- `n.to_bytes(k, "little")`
unfoldable pub to_bytes : ℕ → ℕ → List ℕ
to_bytes zero n = []
to_bytes (suc k) n = (n % 256) ∷ to_bytes k (n / 256)

-- `struct.pack(f"<{len(token_ids)}q", *token_ids)`
unfoldable pub pack_tokens : List ℕ → List ℕ
unfolding to_bytes
pack_tokens [] = []
pack_tokens (t ∷ ts) = to_bytes 8 t ++ pack_tokens ts

-- The UTF-8 bytes of a code point.
encode_char : ℕ → List ℕ
encode_char c =
    if ltb c 0x80
    then c ∷ []
    else if ltb c 0x800
    then (0xc0 + c / 64) ∷ (0x80 + c % 64) ∷ []
    else if ltb c 0x10000
    then (0xe0 + c / 4096) ∷ (0x80 + c / 64 % 64) ∷ (0x80 + c % 64) ∷ []
    else (0xf0 + c / 262144) ∷ (0x80 + c / 4096 % 64) ∷ (0x80 + c / 64 % 64) ∷ (0x80 + c % 64) ∷ []

-- `namespace.encode("utf-8")`
unfoldable pub encode : String → List ℕ
unfolding encode_char
encode String.[] = []
encode (String.◌∷◌ c s) = encode_char (code c) ++ encode s

-- The digest of the bytes that `update` was given.
unfoldable pub digest : Host → List ℕ → ℕ
digest host bytes = elim host.xxhash [ none ↦ host.blake2b bytes | some h ↦ h bytes ]

-- `BlockManager.compute_hash(token_ids, prefix)`; `none` is the prefix -1.
unfoldable pub compute_hash : Host → List ℕ → Option ℕ → ℕ
unfolding digest pack_tokens
compute_hash host token_ids none = digest host (pack_tokens token_ids)
compute_hash host token_ids (some prefix) = digest host (to_bytes 8 prefix ++ pack_tokens token_ids)

-- `BlockManager.compute_namespace_hash(namespace)`
unfoldable pub compute_namespace_hash : Host → String → Option ℕ
unfolding digest encode
compute_namespace_hash host String.[] = none
compute_namespace_hash host (String.◌∷◌ c s) = some (digest host (encode (String.◌∷◌ c s)))
