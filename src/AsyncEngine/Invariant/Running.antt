-- ===== src/AsyncEngine/Invariant/Running.antt =====
-- The invariant of `AsyncLLMEngine` along its runs (nanovllm/engine/async_engine.py).
use nano_vllm_online_serving.Common.{
  ℕ, refl, subst, Bool, true, false, String, Option, none, some, arith, Bool-cases, inl, inr, ◌>>=◌,
}
use nano_vllm_online_serving.LlmEngine.{LlmEngine, Failure, purge_prefix_cache}
use nano_vllm_online_serving.AsyncEngine.State.{AsyncOptions, AsyncState, new_async_engine}
use nano_vllm_online_serving.AsyncEngine.Submission.{start}
use nano_vllm_online_serving.AsyncEngine.Control.{
  set_draining, is_busy, start_again, restart, shutdown, stop_loop, purge_cache,
}
use nano_vllm_online_serving.AsyncEngine.Runs.{
  Machine, new_machine, Step, starts, submits, aborts, takes, drains, purges, stops, restarts,
  begins, delivers, ends, Reach, here, next,
}
use nano_vllm_online_serving.AsyncEngine.Invariant.{IsSound}
use nano_vllm_online_serving.AsyncEngine.Invariant.Touching.{
  Keeps, Keeps-refl, Keeps-trans, same_Keeps, same_Touches,
}
use nano_vllm_online_serving.AsyncEngine.Invariant.Expiry.{quiet_IsSound, expire_active-IsSound}
use nano_vllm_online_serving.AsyncEngine.Invariant.Submitting.{add_request-IsSound}
use nano_vllm_online_serving.AsyncEngine.Invariant.Cancelling.{abort-IsSound}
use nano_vllm_online_serving.AsyncEngine.Invariant.Taking.{take_item-IsSound}
use nano_vllm_online_serving.AsyncEngine.Invariant.Looping.{deliver_output-IsSound}
use nano_vllm_online_serving.AsyncEngine.Invariant.Crashing.{begin_round-IsSound}

new_async_engine-IsSound : (o : AsyncOptions) → IsSound (new_async_engine o)
unfolding new_async_engine
new_async_engine-IsSound o = record {
  booked = record {
    same = λ f. refl;
    ids = λ id. omega arith;
    objects = λ q. omega arith;
    fresh = λ q h. omega arith;
  };
  served = λ q h. absurd (omega (arith, h));
  fits = λ q. ground arith;
}

pub start-Keeps : (x : ℕ) (make : LlmEngine) (s : AsyncState) → Keeps x s (start make s)
unfolding start
start-Keeps x make s = begun s.fatal_error
  where
    begun :
        (e : Option Failure)
        → Keeps x s (elim e [
          | some e ↦ s
          | none ↦ record s {
            engine = elim s.engine [ none ↦ some make | some e ↦ some e ];
            task_running = true;
          }
        ])
    begun (some e) = Keeps-refl x s
    begun none = same_Keeps x s _ (same_Touches x s _ refl refl refl refl) refl refl

start_again-Keeps :
    (x : ℕ) (make : Option LlmEngine) (s : AsyncState) → Keeps x s (start_again make s).0
unfolding start_again
start_again-Keeps x none s = same_Keeps x s _ (same_Touches x s _ refl refl refl refl) refl refl
start_again-Keeps x (some e) s = start-Keeps x e s

pub shutdown-Keeps : (x : ℕ) (s : AsyncState) → Keeps x s (shutdown s)
unfolding shutdown stop_loop
shutdown-Keeps x s = same_Keeps x s _ (same_Touches x s _ refl refl refl refl) refl refl

pub restart-Keeps :
    (x : ℕ) (make : Option LlmEngine) (s : AsyncState) → Keeps x s (restart make s).0
unfolding restart shutdown stop_loop
restart-Keeps x make s = elim (Bool-cases (is_busy s)) [
  | inl busy ↦ simp (busy, restart) (Keeps-refl x s)
  | inr idle ↦
      let s1 = record s { task_running = false; engine = none; fatal_error = none } in
      let k = same_Keeps x s s1 (same_Touches x s s1 refl refl refl refl) refl refl in
      simp (idle, restart) (Keeps-trans k (start_again-Keeps x make s1))
]

abbrev pub PurgeKeeps : ℕ → AsyncState → Option (AsyncState × ℕ) → Type 0
PurgeKeeps x s none = Unit {0}
PurgeKeeps x s (some (s', n)) = Keeps x s s'

purged_Keeps :
    (x : ℕ) (s : AsyncState) (o : Option (LlmEngine × ℕ))
    → PurgeKeeps x s (o >>= λ p. some (record s { engine = some p.0 }, p.1))
purged_Keeps x s none = tt
purged_Keeps x s (some (e, n)) = same_Keeps x s _ (same_Touches x s _ refl refl refl refl) refl refl

pub purge_cache-PurgeKeeps :
    (x : ℕ) (namespace : Option String) (expired_only : Bool) (s : AsyncState)
    → PurgeKeeps x s (purge_cache namespace expired_only s)
unfolding purge_cache
purge_cache-PurgeKeeps x namespace expired_only s = from s.engine
  where
    from :
        (o : Option LlmEngine)
        → PurgeKeeps x s (
            o >>= λ e. purge_prefix_cache namespace expired_only e >>= λ p.
            some (record s { engine = some p.0 }, p.1))
    from none = tt
    from (some e) = purged_Keeps x s (purge_prefix_cache namespace expired_only e)

-- Every step keeps the invariant.
pub Step-IsSound : {m n : Machine} → Step m n → IsSound m.state → IsSound n.state
unfolding set_draining
Step-IsSound {m} (starts make) sound =
    quiet_IsSound m.state _ (start-Keeps m.state.next_channel make m.state) sound
Step-IsSound {m} (submits now a) sound = add_request-IsSound now a m.state sound
Step-IsSound {m} (aborts id) sound = abort-IsSound id m.state sound
Step-IsSound {m} (takes r item s e) sound = take_item-IsSound r m.state s item sound e
Step-IsSound {m} (drains enabled) sound =
    quiet_IsSound m.state _
      (same_Keeps m.state.next_channel m.state _
        (same_Touches m.state.next_channel m.state _ refl refl refl refl) refl refl)
      sound
Step-IsSound {m} (purges namespace expired_only s n e) sound =
    quiet_IsSound m.state s
      (subst (PurgeKeeps m.state.next_channel m.state) e
        (purge_cache-PurgeKeeps m.state.next_channel namespace expired_only m.state))
      sound
Step-IsSound {m} (stops e) sound =
    quiet_IsSound m.state _ (shutdown-Keeps m.state.next_channel m.state) sound
Step-IsSound {m} (restarts make e) sound =
    quiet_IsSound m.state _ (restart-Keeps m.state.next_channel make m.state) sound
Step-IsSound {m} (begins now elapsed e running) sound =
    begin_round-IsSound now elapsed m.state sound
Step-IsSound {m} (delivers now o rest e) sound = deliver_output-IsSound now o m.state sound
Step-IsSound {m} (ends now e) sound = expire_active-IsSound now m.state sound

-- In every run of the engine, the deque and the dictionary of pending requests hold the same
-- requests, no two requests that wait or are served share an id or a client's object, every output
-- queue keeps to its bound, and a request that was made waits, is served, or has had `_STOP` put
-- last into its queue, unless its client has left.
pub Reach-IsSound : (o : AsyncOptions) {m : Machine} → Reach (new_machine o) m → IsSound m.state
Reach-IsSound o here = new_async_engine-IsSound o
Reach-IsSound o (next r st) = Step-IsSound st (Reach-IsSound o r)
