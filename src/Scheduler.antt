-- ===== src/Scheduler.antt =====
-- nanovllm/engine/scheduler.py: which sequences the next step runs.
pub mod State
pub mod Policy
pub mod Ranking
pub mod Queues
pub mod Prefill
pub mod Decode
pub mod Postprocess
pub mod Purging
pub mod Invariant
