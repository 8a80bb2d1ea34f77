-- ===== src/Lib.antt =====
-- nano-vllm online serving: the inference engine under nanovllm/engine, from the requests of the
-- clients to the blocks of the cache.
--
-- The parts. The asynchronous engine (`AsyncEngine`) takes requests from clients, keeps them in a
-- queue, moves them into the `LlmEngine` as its limits allow, steps that engine, and puts the
-- outputs into one queue for each client. The `LlmEngine` makes a sequence of a request; a step of
-- it is a batch of the scheduler, one call of the model, and the scheduler's postprocessing. A
-- `Sequence` is one request. The `BlockManager` hands out the blocks of the key-value cache, counts
-- who holds each of them, and keeps released blocks as a prefix cache, found by a chain of hashes.
-- The `Scheduler` keeps the waiting and the running sequences, and makes the batches: it calls the
-- block manager for room, for cached prefixes, for growth, and, once the model has run, to commit
-- what was computed.
--
-- The files.
-- - Common and its children: tests, lists, dictionaries, results, and the lemmas about them.
-- - Sequence: nanovllm/engine/sequence.py and nanovllm/sampling_params.py. Its children hold
--   `__getstate__` and `__setstate__` (Pickle), and theorems on blocks and breakpoints.
-- - BlockManager: nanovllm/engine/block_manager.py. Hashing has `compute_hash`, State the
--   attributes and `__init__`, Eviction the purges, evictions and quotas, Allocation the calls that
--   take and release blocks, Prefix `match_cached_prefix` and its estimate, Commit
--   `commit_computed_tokens`, Reports `stats` and `inspect`. Invariant and its children hold the
--   theorems: `IsValid bm held` says that the free list, the cached set and the used set split the
--   blocks by reference count and hash, that the count of each block is the number of its entries
--   in `held`, and that every hash leads to a block that carries it.
-- - Scheduler: nanovllm/engine/scheduler.py. State has the attributes, Policy the choice of the
--   next step and the order of the queue, Queues `add`, `abort`, `preempt` and admission, Prefill,
--   Decode and Postprocess the methods of these names, Purging `purge_prefix_cache`. Invariant and
--   its children hold the theorems: `IsSound s` says that the block tables of all queued sequences
--   are together the references that the block manager counts, that a sequence stands in one queue
--   once, and that its status says in which. Overtaking says what it is that a match in the prefix
--   cache overtakes the target of a chunk.
-- - Validation: nanovllm/engine/request_validation.py.
-- - LlmEngine: nanovllm/engine/llm_engine.py, with its theorem in Soundness.
-- - Pending: of nanovllm/engine/async_engine.py the pending queue and the limits on admission.
-- - AsyncEngine: the rest of nanovllm/engine/async_engine.py. State has the attributes, Channels
--   `_put_or_drop`, `_fail_request` and `_timeout_request`, Aborting `abort` and `iter_request`,
--   Admission `_drain_pending` and the timeouts, Validating and Submission `add_request`, Loop
--   `_run_loop`, Control `status`, `restart` and their like, Reports `metrics`. Runs has the steps
--   of the whole: `Reach m n` says that any calls, in any order, lead from `m` to `n`. Tally,
--   Invariant and their children hold the theorems: `IsSound s` is about which requests the queues
--   hold and what their clients find, `IsLimited s` says that the queues keep to the limits.
--   Accepting, Draining and Clients are about `add_request`, `_drain_pending` and the clients.
-- - Tests: small states, and the theorems applied to them.
--
-- How the code is read. A method is a function from the state to the next state; a call that may
-- raise returns an `Option`, with `none` for the exception. `Ensures m P` says that the call
-- returns and that the result meets `P`; `Settles m P E` allows it to raise where `E` holds. Shared
-- objects: the scheduler's `store` maps a reference to the present attributes of a sequence, and
-- queues hold references. The method names are kept, without a leading underscore. `purge_expired`
-- is `_purge_expired_cached_blocks`, `is_idle` is `Scheduler.is_finished`, and `purge_cache` and
-- `pop_next_admissible` are `purge_prefix_cache` and `_pop_next_admissible_pending` of the
-- asynchronous engine.
--
-- Coroutines. The loop suspends at its top and after an output that is not a request's last, and a
-- client at its empty queue; what stands between two suspensions is one step. The dictionaries of
-- requests are lists of their values, each under its `request_id`. What a client shares with the
-- engine, an output queue and what is marked on its request, is the object that `channels` gives
-- for the reference in the request.
--
-- Loops. A `for` is structural recursion on the list or the range. The `while` loops of the two
-- quotas, of `_schedule_decode` and of `_drain_pending` run on fuel, one more than the cached
-- blocks, the running sequences or the pending requests; every round takes one of these away, and
-- the theorems on these loops show that the fuel suffices. The loop of `iter_request` has the
-- number of items as its fuel. The `while` of `ensure_blocks` runs once for each missing block,
-- that of `_admit_waiting` along the queue.
--
-- Numbers. Token ids, counts and block ids are naturals, and so are priorities, which are only
-- compared. Times and lifetimes are naturals in some unit; within a call of the asynchronous engine
-- the clock is read once. A hash of -1 is `none`. A Python set is a list in the order of iteration;
-- no theorem depends on the order. xxhash, blake2b and `time.time` are the record `Host`, an
-- argument of every definition that uses them, and the tokenizer and the model are the record
-- `Backend`. Nothing is assumed about them: hashes may collide, and the model may raise.
--
-- Not modelled: of the asynchronous engine the request log, `generate`, and an exception of the
-- scheduler inside `abort_request`, after which the engine stays as it was; of the LLM engine the
-- offline loop `generate` and the processes of tensor parallelism; the statistics of the scheduler
-- that are only read. The model runner, the models and the layers are tensor code. The engine over
-- the transformers package (hf_auto_engine.py) is mostly calls of that package, the HTTP server and
-- its protocol convert the requests of a web framework, and the configuration (config.py) tests its
-- fields against files of the model.
pub mod Common
pub mod Sequence
pub mod BlockManager
pub mod Scheduler
pub mod Validation
pub mod LlmEngine
pub mod Pending
pub mod AsyncEngine
pub mod Tests
