-- ===== src/AsyncEngine.antt =====
-- `AsyncLLMEngine` of nanovllm/engine/async_engine.py: the queues in front of the engine, the limits
-- on them, the loop that steps the engine, and the output queues of the clients.
pub mod State
pub mod Channels
pub mod Aborting
pub mod Admission
pub mod Validating
pub mod Submission
pub mod Loop
pub mod Control
pub mod Reports
pub mod Tally
pub mod Invariant
pub mod Accepting
pub mod Runs
pub mod Draining
pub mod Clients
