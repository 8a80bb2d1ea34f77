-- ===== src/Tests.antt =====
-- Small states of the block manager (nanovllm/engine/block_manager.py) and the scheduler
-- (nanovllm/engine/scheduler.py), with runs of the code on them.
pub mod Fixtures
pub mod Batches
pub mod Blocks
pub mod Steps
pub mod Overtaken
pub mod Requests
pub mod Serving
