-- ===== src/AsyncEngine/Runs.antt =====
-- The runs of `AsyncLLMEngine` (nanovllm/engine/async_engine.py): the calls of the server, the
-- clients and the loop in any order, each from one suspension to the next.
use nano_vllm_online_serving.Common.{ℕ, ◌≡◌, Bool, true, false, String, Option, some, List, [], ◌∷◌}
use nano_vllm_online_serving.LlmEngine.{LlmEngine, Output}
use nano_vllm_online_serving.Pending.{AsyncRequest}
use nano_vllm_online_serving.AsyncEngine.State.{AsyncOptions, AsyncState, Item, new_async_engine}
use nano_vllm_online_serving.AsyncEngine.Admission.{expire_active}
use nano_vllm_online_serving.AsyncEngine.Aborting.{abort, take_item}
use nano_vllm_online_serving.AsyncEngine.Submission.{Submission, start, add_request}
use nano_vllm_online_serving.AsyncEngine.Control.{set_draining, shutdown, restart, purge_cache}
use nano_vllm_online_serving.AsyncEngine.Loop.{
  Position, at_top, in_outputs, ended, begin_round, deliver_output,
}

-- The engine, and where its loop is suspended.
pub record Machine : Type 0 where
  pub state : AsyncState
  pub position : Position

abbrev pub new_machine : AsyncOptions → Machine
new_machine o = record { state = new_async_engine o; position = at_top }

-- The loop has come to its top or to its end, where `_stop_loop` waits for it.
unfoldable pub is_between : Position → Bool
is_between at_top = true
is_between (in_outputs os) = false
is_between ended = true

-- One call, or one stretch of the loop. The clock may show anything.
pub data Step (m : Machine) : Machine → Type 0 where
  starts : (make : LlmEngine) → Step m (record m { state = start make m.state })
  submits : (now : ℕ) (a : Submission) → Step m (record m { state = (add_request now a m.state).0 })
  aborts : (request_id : String) → Step m (record m { state = (abort request_id m.state).0 })
  takes :
      (r : AsyncRequest) (item : Item) (s : AsyncState)
      → take_item r m.state ≡ some (item, s)
      → Step m (record m { state = s })
  drains : (enabled : Bool) → Step m (record m { state = (set_draining enabled m.state).0 })
  purges :
      (namespace : Option String) (expired_only : Bool) (s : AsyncState) (purged : ℕ)
      → purge_cache namespace expired_only m.state ≡ some (s, purged)
      → Step m (record m { state = s })
  stops :
      is_between m.position ≡ true → Step m (record { state = shutdown m.state; position = at_top })
  restarts :
      (make : Option LlmEngine)
      → is_between m.position ≡ true
      → Step m (record { state = (restart make m.state).0; position = at_top })
  begins :
      (now elapsed : ℕ)
      → m.position ≡ at_top
      → m.state.task_running ≡ true
      → Step m (record {
        state = (begin_round now elapsed m.state).0;
        position = (begin_round now elapsed m.state).1;
      })
  delivers :
      (now : ℕ) (o : Output) (rest : List Output)
      → m.position ≡ in_outputs (o ∷ rest)
      → Step m (record { state = deliver_output now o m.state; position = in_outputs rest })
  ends :
      (now : ℕ)
      → m.position ≡ in_outputs []
      → Step m (record { state = expire_active now m.state; position = at_top })

-- What comes of a machine after any number of steps.
pub data Reach (m : Machine) : Machine → Type 0 where
  here : Reach m m
  next : {n k : Machine} → Reach m n → Step n k → Reach m k
