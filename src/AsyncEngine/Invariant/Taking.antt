-- ===== src/AsyncEngine/Invariant/Taking.antt =====
-- The client's loop over its output queue and the invariant
-- (nanovllm/engine/async_engine.py).
use nano_vllm_online_serving.Common.{
  ℕ, ◌≡◌, refl, sym, ap, ◌∙◌, subst, Bool, true, false, Option, none, some, List, [], ◌∷◌, arith,
  ◌==◌, last?, Bool-cases, inl, inr,
}
use nano_vllm_online_serving.Pending.{AsyncRequest}
use nano_vllm_online_serving.AsyncEngine.State.{Item, stop, AsyncState, write_channel}
use nano_vllm_online_serving.AsyncEngine.Channels.{set_finished, is_stop, is_last}
use nano_vllm_online_serving.AsyncEngine.Aborting.{abort, close_client, take_item}
use nano_vllm_online_serving.AsyncEngine.Invariant.{Fits, IsServed, IsSound}
use nano_vllm_online_serving.AsyncEngine.Invariant.Touching.{
  Keeps, Keeps-trans, set_finished-Keeps, write_channel-Keeps,
}
use nano_vllm_online_serving.AsyncEngine.Invariant.Leaving.{Keeps-IsSound}
use nano_vllm_online_serving.AsyncEngine.Invariant.Cancelling.{abort-IsSound}

pub elim_true {ℓ} :
    {A : Type ℓ} (b : Bool) (x y : A) → b ≡ true → elim b [ true ↦ x | false ↦ y ] ≡ x
elim_true true x y e = refl
elim_true false x y e = absurd cc

elim_false {ℓ} : {A : Type ℓ} (b : Bool) (x y : A) → b ≡ false → elim b [ true ↦ x | false ↦ y ] ≡ y
elim_false true x y e = absurd cc
elim_false false x y e = refl

-- The object when the client's loop has ended.
abbrev pub closed : AsyncRequest → AsyncState → AsyncState
closed r s = write_channel r.output_queue (record (s.channels r.output_queue) { ended = true }) s

pub close_client_done :
    (r : AsyncRequest) (s : AsyncState)
    → (s.channels r.output_queue).finished ≡ true
    → close_client r s ≡ closed r s
unfolding close_client
close_client_done r s e = elim_true (s.channels r.output_queue).finished _ _ e

pub close_client_early :
    (r : AsyncRequest) (s : AsyncState)
    → (s.channels r.output_queue).finished ≡ false
    → close_client r s ≡ (abort r.request_id (closed r s)).0
unfolding close_client
close_client_early r s e = elim_false (s.channels r.output_queue).finished _ _ e

-- The client's loop ends, and its request is aborted unless it is finished.
close_client-IsSound :
    (r : AsyncRequest) (s s1 : AsyncState)
    → IsSound s
    → Keeps r.output_queue s s1
    → IsSound (close_client r s1)
close_client-IsSound r s s1 sound k =
    let c = record (s1.channels r.output_queue) { ended = true } in
    let self : (r.output_queue == r.output_queue) ≡ true = ground arith in
    let k2 = Keeps-trans k (write_channel-Keeps r.output_queue c s1 (λ f. f)) in
    let sound2 =
      Keeps-IsSound r.output_queue s (closed r s1) k2 sound (λ h. inr (rw self (inl refl))) in
    elim (Bool-cases (s1.channels r.output_queue).finished) [
      | inl done ↦ subst IsSound (sym (close_client_done r s1 done)) sound2
      | inr early ↦
          subst IsSound (sym (close_client_early r s1 early))
            (abort-IsSound r.request_id (closed r s1) sound2)
    ]

tail-Fits : (size : ℕ) (item : Item) (rest : List Item) → Fits size (item ∷ rest) → Fits size rest
tail-Fits size item rest f = ground (arith, f)

not_stop : (item : Item) → is_stop item ≡ false → some item ≡ some stop → ⊥
unfolding is_stop
not_stop item h e =
    let same : is_stop item ≡ true = ap (λ o. elim o [ none ↦ true | some i ↦ is_stop i ]) e in
    let wrong : false ≡ true = sym h ∙ same in cc

-- An item that is not `_STOP` is not what the client waits for.
pub rest_over :
    (item : Item) (rest : List Item)
    → is_stop item ≡ false
    → last? (item ∷ rest) ≡ some stop
    → last? rest ≡ some stop
rest_over item [] h e = absurd (not_stop item h e)
rest_over item (x ∷ rest) h e = e

-- The queue without its first item.
abbrev pub taken : AsyncRequest → List Item → AsyncState → AsyncState
taken r rest s =
    write_channel r.output_queue (record (s.channels r.output_queue) { queue = rest }) s

module _ (r : AsyncRequest) (s : AsyncState) (item : Item) (rest : List Item)
    (e : (s.channels r.output_queue).queue ≡ item ∷ rest) where
  pub taken-Keeps : Keeps r.output_queue s (taken r rest s)
  taken-Keeps =
      write_channel-Keeps r.output_queue (record (s.channels r.output_queue) { queue = rest }) s
        (λ f.
          tail-Fits s.config.output_queue_size item rest
            (subst (Fits s.config.output_queue_size) e f))

  taken-IsSound : is_stop item ≡ false → IsSound s → IsSound (taken r rest s)
  taken-IsSound more sound =
      Keeps-IsSound r.output_queue s (taken r rest s) taken-Keeps sound
        (λ h. still (sound.served r.output_queue h))
    where
      still : IsServed s r.output_queue → IsServed (taken r rest s) r.output_queue
      still (inl here) = inl here
      still (inr (inl left)) =
          let self : (r.output_queue == r.output_queue) ≡ true = ground arith in
          inr (rw self (inl left))
      still (inr (inr last)) =
          let self : (r.output_queue == r.output_queue) ≡ true = ground arith in
          let last1 : last? (item ∷ rest) ≡ some stop = subst (λ q. last? q ≡ some stop) e last in
          inr (rw self (inr (rest_over item rest more last1)))

  pub take_stop : is_stop item ≡ true → take_item r s ≡ some (item, close_client r (taken r rest s))
  unfolding take_item
  take_stop stops = rw (e, take_item) (rw stops refl)

  pub take_last :
      is_stop item ≡ false
      → is_last item ≡ true
      → take_item r s ≡ some (item, close_client r (set_finished r (taken r rest s)))
  unfolding take_item
  take_last more ends = rw (e, take_item) (rw (more, ends) refl)

  pub take_more :
      is_stop item ≡ false → is_last item ≡ false → take_item r s ≡ some (item, taken r rest s)
  unfolding take_item
  take_more more goes_on = rw (e, take_item) (rw (more, goes_on) refl)

abbrev TakesSoundly : Option (Item × AsyncState) → Type 0
TakesSoundly none = Unit {0}
TakesSoundly (some (item, s')) = IsSound s'

pub take_empty :
    (r : AsyncRequest) (s : AsyncState)
    → (s.channels r.output_queue).queue ≡ []
    → take_item r s ≡ none
unfolding take_item
take_empty r s e = rw (e, take_item) refl

take_item-TakesSoundly :
    (r : AsyncRequest) (s : AsyncState) (queue : List Item)
    → (s.channels r.output_queue).queue ≡ queue
    → IsSound s
    → TakesSoundly (take_item r s)
take_item-TakesSoundly r s [] e sound = subst TakesSoundly (sym (take_empty r s e)) tt
take_item-TakesSoundly r s (item ∷ rest) e sound =
    let k = taken-Keeps r s item rest e in
    let t = taken r rest s in
    elim (Bool-cases (is_stop item)) [
      | inl stops ↦
          subst TakesSoundly (sym (take_stop r s item rest e stops))
            (close_client-IsSound r s t sound k)
      | inr more ↦ elim (Bool-cases (is_last item)) [
        | inl ends ↦ subst TakesSoundly (sym (take_last r s item rest e more ends)) (
            close_client-IsSound r s (set_finished r t) sound
              (Keeps-trans k (set_finished-Keeps r t)))
        | inr goes_on ↦
            subst TakesSoundly (sym (take_more r s item rest e more goes_on))
              (taken-IsSound r s item rest e more sound)
      ]
    ]

-- A client that takes an item keeps the invariant.
pub take_item-IsSound :
    (r : AsyncRequest) (s s' : AsyncState) (item : Item)
    → IsSound s
    → take_item r s ≡ some (item, s')
    → IsSound s'
take_item-IsSound r s s' item sound e =
    subst TakesSoundly e (take_item-TakesSoundly r s (s.channels r.output_queue).queue refl sound)
