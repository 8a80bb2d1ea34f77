-- ===== src/AsyncEngine/Invariant/Touching.antt =====
-- The calls on one request's output queue leave the others alone (nanovllm/engine/async_engine.py).
use nano_vllm_online_serving.Common.{
  ℕ, ◌≡◌, refl, sym, ap, ◌∙◌, subst, true, false, String, some, List, [], ◌∷◌, ◌++◌, arith, ◌==◌,
  last?, length-append, Bool-cases, Option-cases, inl, inr,
}
use nano_vllm_online_serving.LlmEngine.{abort_request}
use nano_vllm_online_serving.Pending.{AsyncRequest}
use nano_vllm_online_serving.AsyncEngine.State.{
  Item, stop, Channel, AsyncState, AsyncConfig, write_channel,
}
use nano_vllm_online_serving.AsyncEngine.Channels.{
  has_room, abort_in_engine, put_nowait, set_finished, put_stop,
}
use nano_vllm_online_serving.AsyncEngine.Invariant.{IsOver, Fits}

-- From `s` to `s'` at most the object of `x` has changed among the clients' objects, and the
-- pending queue has not.
pub record Touches (x : ℕ) (s s' : AsyncState) : Type 0 where
  pub config : s'.config ≡ s.config
  pub next_channel : s'.next_channel ≡ s.next_channel
  pub pending : s'.pending ≡ s.pending
  pub others : (q : ℕ) → (x == q) ≡ false → s'.channels q ≡ s.channels q
  pub fits :
      Fits s.config.output_queue_size (s.channels x).queue
      → Fits s.config.output_queue_size (s'.channels x).queue

-- And no request has left a queue.
pub record Keeps (x : ℕ) (s s' : AsyncState) : Type 0 where
  pub touches : Touches x s s'
  pub pending_by_id : s'.pending_by_id ≡ s.pending_by_id
  pub active : s'.active ≡ s.active

pub Touches-trans : {x : ℕ} {s t u : AsyncState} → Touches x s t → Touches x t u → Touches x s u
Touches-trans {x} {s} {t} {u} a b = record {
  config = b.config ∙ a.config;
  next_channel = b.next_channel ∙ a.next_channel;
  pending = b.pending ∙ a.pending;
  others = λ q h. b.others q h ∙ a.others q h;
  fits = λ h.
      subst (λ (c : AsyncConfig). Fits c.output_queue_size (u.channels x).queue) a.config
        (b.fits (
          subst (λ (c : AsyncConfig). Fits c.output_queue_size (t.channels x).queue) (sym a.config)
            (a.fits h)));
}

pub Keeps-trans : {x : ℕ} {s t u : AsyncState} → Keeps x s t → Keeps x t u → Keeps x s u
Keeps-trans a b = record {
  touches = Touches-trans a.touches b.touches;
  pending_by_id = b.pending_by_id ∙ a.pending_by_id;
  active = b.active ∙ a.active;
}

-- What changes no client's object, and neither the clock of objects nor the settings.
pub same_Touches :
    (x : ℕ) (s s' : AsyncState)
    → s'.config ≡ s.config
    → s'.next_channel ≡ s.next_channel
    → s'.pending ≡ s.pending
    → s'.channels ≡ s.channels
    → Touches x s s'
same_Touches x s s' c n p h = record {
  config = c;
  next_channel = n;
  pending = p;
  others = λ q e. ap (λ (k : ℕ → Channel). k q) h;
  fits = λ f. subst (λ (k : ℕ → Channel). Fits s.config.output_queue_size (k x).queue) (sym h) f;
}

abbrev pub same_Keeps :
    (x : ℕ) (s s' : AsyncState)
    → Touches x s s'
    → s'.pending_by_id ≡ s.pending_by_id
    → s'.active ≡ s.active
    → Keeps x s s'
same_Keeps x s s' t p a = record { touches = t; pending_by_id = p; active = a }

pub Keeps-refl : (x : ℕ) (s : AsyncState) → Keeps x s s
Keeps-refl x s = same_Keeps x s s (same_Touches x s s refl refl refl refl) refl refl

pub write_channel-Keeps :
    (x : ℕ) (c : Channel) (s : AsyncState)
    → (Fits s.config.output_queue_size (s.channels x).queue
        → Fits s.config.output_queue_size c.queue)
    → Keeps x s (write_channel x c s)
write_channel-Keeps x c s h =
    let self : (x == x) ≡ true = ground arith in
    record {
      touches = record {
        config = refl;
        next_channel = refl;
        pending = refl;
        others = λ q e. rw e refl;
        fits = λ f. rw self (h f);
      };
      pending_by_id = refl;
      active = refl;
    }

pub abort_in_engine-Keeps :
    (x : ℕ) (id : String) (s : AsyncState) → Keeps x s (abort_in_engine id s)
unfolding abort_in_engine
abort_in_engine-Keeps x id s = elim (Option-cases s.engine) [
  | inl nobody ↦ simp (nobody, abort_in_engine) (Keeps-refl x s)
  | inr (e, here) ↦ elim (Option-cases (abort_request id e)) [
    | inl raises ↦ simp (here, abort_in_engine, raises) (Keeps-refl x s)
    | inr (p, returns) ↦
        let s1 = record s { engine = some p.0 } in
        let kept = same_Keeps x s s1 (same_Touches x s s1 refl refl refl refl) refl refl in
        simp (here, abort_in_engine, returns) kept
  ]
]

pub set_finished-Keeps :
    (r : AsyncRequest) (s : AsyncState) → Keeps r.output_queue s (set_finished r s)
unfolding set_finished
set_finished-Keeps r s =
    write_channel-Keeps r.output_queue (record (s.channels r.output_queue) { finished = true }) s
      (λ f. f)

room_for_one :
    (size : ℕ) (queue : List Item) (item : Item)
    → has_room size queue ≡ true
    → Fits size (queue ++ item ∷ [])
unfolding has_room
room_for_one size queue item room = ground (arith, room, length-append queue (item ∷ []))

pub put_nowait-Keeps :
    (r : AsyncRequest) (item : Item) (s : AsyncState)
    → has_room s.config.output_queue_size (s.channels r.output_queue).queue ≡ true
    → Keeps r.output_queue s (put_nowait r item s)
unfolding put_nowait
put_nowait-Keeps r item s room =
    let c = s.channels r.output_queue in
    write_channel-Keeps r.output_queue (record c { queue = c.queue ++ item ∷ [] }) s
      (λ f. room_for_one s.config.output_queue_size c.queue item room)

last-append : (queue : List Item) (item : Item) → last? (queue ++ item ∷ []) ≡ some item
last-append [] item = refl
last-append (x ∷ []) item = refl
last-append (x ∷ y ∷ queue) item = last-append (y ∷ queue) item

one-Fits : (size : ℕ) (queue : List Item) → has_room size queue ≡ false → Fits size (stop ∷ [])
unfolding has_room
one-Fits size queue full = ground (arith, full)

put_stop_room :
    (r : AsyncRequest) (s : AsyncState)
    → has_room s.config.output_queue_size (s.channels r.output_queue).queue ≡ true
    → put_stop r s ≡ put_nowait r stop s
unfolding put_stop
put_stop_room r s room = rw (room, put_stop) refl

pub put_stop_full :
    (r : AsyncRequest) (s : AsyncState)
    → has_room s.config.output_queue_size (s.channels r.output_queue).queue ≡ false
    → put_stop r s
      ≡ write_channel r.output_queue (record (s.channels r.output_queue) { queue = stop ∷ [] }) s
unfolding put_stop
put_stop_full r s full = rw (full, put_stop) refl

-- A client that is told to stop is told last.
pub put_stop-Keeps :
    (r : AsyncRequest) (s : AsyncState)
    → Keeps r.output_queue s (put_stop r s) × IsOver ((put_stop r s).channels r.output_queue)
unfolding put_nowait
put_stop-Keeps r s =
    let x = r.output_queue in
    let c = s.channels x in
    let self : (x == x) ≡ true = ground arith in
    elim (Bool-cases (has_room s.config.output_queue_size c.queue)) [
      | inl room ↦
          subst (λ t. Keeps x s t × IsOver (t.channels x)) (sym (put_stop_room r s room))
            (put_nowait-Keeps r stop s room, rw self (inr (last-append c.queue stop)))
      | inr full ↦
          subst (λ t. Keeps x s t × IsOver (t.channels x)) (sym (put_stop_full r s full))
            (
              write_channel-Keeps x (record c { queue = stop ∷ [] }) s
                  (λ f. one-Fits s.config.output_queue_size c.queue full),
              rw self (inr refl),
            )
    ]
