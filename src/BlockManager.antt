-- ===== src/BlockManager.antt =====
-- nanovllm/engine/block_manager.py: the paged KV cache. Each block is free, cached (no reference,
-- reusable by its hash) or used; sequences hold references through their block tables.
pub mod Hashing
pub mod State
pub mod Eviction
pub mod Allocation
pub mod Prefix
pub mod Commit
pub mod Reports
pub mod Invariant
