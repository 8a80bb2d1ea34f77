-- ===== src/AsyncEngine/Control.antt =====
-- The calls that start, stop, drain and restart `AsyncLLMEngine`, and those about the prefix cache
-- (nanovllm/engine/async_engine.py). The process that runs the model is outside of the model.
use nano_vllm_online_serving.Common.{
  ℕ, ◌+◌, Bool, true, false, String, Option, none, some, [], ◌∷◌, not, ◌&&◌, ◌>>=◌,
}
use nano_vllm_online_serving.LlmEngine.{LlmEngine, Failure, raised, purge_prefix_cache}
use nano_vllm_online_serving.AsyncEngine.State.{AsyncState}
use nano_vllm_online_serving.AsyncEngine.Submission.{start}

-- What `status()` returns.
pub record Status : Type 0 where
  pub started : Bool
  pub ready : Bool
  pub draining : Bool
  pub fatal_error : Option Failure
  pub engine_loop_running : Bool
  pub engine_loop_errors : ℕ
  pub last_engine_error : Option Failure

abbrev pub is_some {ℓ} : {A : Type ℓ} → Option A → Bool
is_some none = false
is_some (some a) = true

-- `status()`
unfoldable pub status : AsyncState → Status
status s = record {
  started = is_some s.engine;
  ready = is_some s.engine && s.task_running && not s.draining && not (is_some s.fatal_error);
  draining = s.draining;
  fatal_error = s.fatal_error;
  engine_loop_running = s.task_running;
  engine_loop_errors = s.counters.loop_errors;
  last_engine_error = s.last_engine_error;
}

-- `set_draining(enabled)`
unfoldable pub set_draining : Bool → AsyncState → AsyncState × Status
set_draining enabled s = let s1 = record s { draining = enabled } in (s1, status s1)

-- `_stop_loop()`: the loop sees the event at its top and ends.
unfoldable pub stop_loop : AsyncState → AsyncState
stop_loop s = record s { task_running = false }

-- `shutdown()`
unfoldable pub shutdown : AsyncState → AsyncState
shutdown s = let s1 = stop_loop s in record s1 { engine = none }

-- What `restart()` returns or raises.
pub data Restarted : Type 0 where
  in_flight : Restarted
  restart_failed : Failure → Restarted
  restarted : Status → Restarted

-- `if self.active or self.pending_by_id`
unfoldable pub is_busy : AsyncState → Bool
is_busy s = elim s.active [
  | r ∷ rs ↦ true
  | [] ↦ elim s.pending_by_id [ r ∷ rs ↦ true | [] ↦ false ]
]

-- `restart()` once the old engine is gone; `make` is what `engine_cls(...)` gives, `none` where it
-- raises.
unfoldable pub start_again : Option LlmEngine → AsyncState → AsyncState × Restarted
start_again make s = elim make [
  | some e ↦ let s1 = start e s in (s1, restarted (status s1))
  | none ↦ (
    record s {
      counters = record s.counters { loop_errors = s.counters.loop_errors + 1 };
      last_engine_error = some raised;
      fatal_error = some raised;
    },
    restart_failed raised,
  )
]

-- `restart()`
unfoldable pub restart : Option LlmEngine → AsyncState → AsyncState × Restarted
restart make s = elim (is_busy s) [
  | true ↦ (s, in_flight)
  | false ↦ let s1 = shutdown s in start_again make (record s1 { fatal_error = none })
]

-- `purge_prefix_cache(namespace, expired_only)` after `start()`.
unfoldable pub purge_cache : Option String → Bool → AsyncState → Option (AsyncState × ℕ)
purge_cache namespace expired_only s = do
  e ← s.engine
  (e1, purged) ← purge_prefix_cache namespace expired_only e
  some (record s { engine = some e1 }, purged)
