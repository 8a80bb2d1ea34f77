-- ===== src/AsyncEngine/Invariant.antt =====
-- The invariant of `AsyncLLMEngine` (nanovllm/engine/async_engine.py): which requests its queues
-- hold, and what a client finds in the output queue of a request that they no longer hold.
pub mod Touching
pub mod Shrinking
pub mod Ending
pub mod Leaving
pub mod Expiry
pub mod Entering
pub mod Submitting
pub mod Cancelling
pub mod Taking
pub mod Looping
pub mod Crashing
pub mod Running
pub mod Narrowing
pub mod Withdrawing
pub mod Quotas
pub mod Admitting
pub mod Limits
use nano_vllm_online_serving.Common.{
  ℕ, ◌+◌, ◌≤◌, ◌<◌, ◌≡◌, ◌⊎◌, Bool, true, false, String, Option, some, List, [], ◌∷◌, ◌==◌, leb,
  ◌||◌, last?, length,
}
use nano_vllm_online_serving.Pending.{AsyncRequest}
use nano_vllm_online_serving.AsyncEngine.State.{Item, stop, Channel, AsyncState}
use nano_vllm_online_serving.AsyncEngine.Tally.{tally, named, refers}

-- The requests that wait or are served.
abbrev pub held : (String → ℕ → Bool) → AsyncState → ℕ
held f s = tally f s.pending + tally f s.active

-- The client has left, or `_STOP` is the last item of its queue.
abbrev pub IsOver : Channel → Type 0
IsOver c = (c.ended ≡ true) ⊎ (last? c.queue ≡ some stop)

-- The queue keeps to the bound, where there is one.
abbrev pub Fits : ℕ → List Item → Type 0
Fits size queue = (size == 0 || leb (length queue) size) ≡ true

-- The deque and the dictionary hold the same requests; no two requests share an id or an object, and
-- objects that are not made yet are in no queue.
pub record IsBooked (s : AsyncState) : Type 0 where
  pub same : (f : String → ℕ → Bool) → tally f s.pending ≡ tally f s.pending_by_id
  pub ids : (id : String) → held (named id) s ≤ 1
  pub objects : (q : ℕ) → held (refers q) s ≤ 1
  pub fresh : (q : ℕ) → s.next_channel ≤ q → held (refers q) s ≡ 0

-- A request that was made is in a queue of the engine or over, but for the one that is being dealt
-- with.
abbrev pub IsServed : AsyncState → ℕ → Type 0
IsServed s q = (0 < held (refers q) s) ⊎ IsOver (s.channels q)

abbrev pub ServesBut : ℕ → AsyncState → Type 0
ServesBut x s = (q : ℕ) → q < s.next_channel → (x == q) ≡ false → IsServed s q

pub record IsSound (s : AsyncState) : Type 0 where
  pub booked : IsBooked s
  pub served : (q : ℕ) → q < s.next_channel → IsServed s q
  pub fits : (q : ℕ) → Fits s.config.output_queue_size (s.channels q).queue

-- Between two changes: request `r` is out of the queues, and its client is not told yet.
pub record IsSoundBut (r : AsyncRequest) (s : AsyncState) : Type 0 where
  pub booked : IsBooked s
  pub served : ServesBut r.output_queue s
  pub fits : (q : ℕ) → Fits s.config.output_queue_size (s.channels q).queue
  pub gone : held (named r.request_id) s ≡ 0
  pub gone_object : held (refers r.output_queue) s ≡ 0
  pub made : r.output_queue < s.next_channel
