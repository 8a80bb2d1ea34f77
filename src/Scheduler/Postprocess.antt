-- ===== src/Scheduler/Postprocess.antt =====
-- `Scheduler.postprocess` (nanovllm/engine/scheduler.py): the tokens that the model returned for
-- one batch enter their sequences.
use nano_vllm_online_serving.Common.{
  ℕ, Bool, true, false, String, Option, none, some, List, [], ◌∷◌, leb, ◌==◌, not, ◌&&◌, max,
  if◌then◌else◌, discard, ◌>>=◌,
}
use nano_vllm_online_serving.Sequence.{
  Sequence, is_finished, is_prompt_ready, num_completion_tokens, append_token, finish,
  clear_prefill_chunk, CacheUsage, cache_usage,
}
use nano_vllm_online_serving.BlockManager.Allocation.{deallocate}
use nano_vllm_online_serving.BlockManager.Commit.{commit_computed_tokens}
use nano_vllm_online_serving.Scheduler.State.{Scheduler, write_seq, with_result}

-- The dictionary that one sequence adds to `events`.
pub record Event : Type 0 where
  pub seq : ℕ
  pub token_id : Option ℕ
  pub finished : Bool
  pub finish_reason : Option String
  pub usage : Option CacheUsage

-- A finished sequence gives its blocks back and leaves `running`.
unfoldable pub retire : ℕ → Sequence → Scheduler → Option Scheduler
retire r seq s = do
  freed ← deallocate s.block_manager seq
  some (record (with_result r freed s) { running = discard r s.running })

-- The end of the loop's body for a sequence that was found finished.
unfoldable pub finish_event : ℕ → Option ℕ → Sequence → Scheduler → Option (Scheduler × Event)
finish_event r token_id seq s = do
  s1 ← retire r seq s
  some (
    s1,
    record {
      seq = r;
      token_id = token_id;
      finished = true;
      finish_reason = seq.finish_reason;
      usage = some (cache_usage seq);
    },
  )

-- `not seq.ignore_eos and token_id == self.eos`
unfoldable pub stops_at : Option ℕ → Sequence → ℕ → Bool
stops_at none seq token_id = false
stops_at (some eos) seq token_id = not seq.ignore_eos && token_id == eos

-- The two reasons to finish after a token.
unfoldable pub finish_if_done : Option ℕ → Sequence → ℕ → Sequence
finish_if_done eos seq token_id =
    if stops_at eos seq token_id
    then finish seq "stop"
    else if leb seq.max_tokens (num_completion_tokens seq)
    then finish seq "length"
    else seq

-- From `seq.append_token(token_id)` on; `s` holds `seq` already.
unfoldable pub take_token : ℕ → ℕ → Sequence → Scheduler → Option (Scheduler × Event)
take_token r token_id before s =
    let seq = finish_if_done s.eos (append_token before token_id) token_id in
    elim (is_finished seq) [
      | true ↦ finish_event r (some token_id) seq s
      | false ↦ some (
        record s { store = write_seq r seq s.store },
        record {
          seq = r;
          token_id = some token_id;
          finished = false;
          finish_reason = none;
          usage = none;
        },
      )
    ]

-- The body of the loop for a sequence of a prefill batch; `none` in the result is `continue`
-- with no event.
unfoldable pub after_chunk : ℕ → ℕ → Scheduler → Option (Scheduler × Option Event)
after_chunk r token_id s = do
  let seq = s.store r
  let computed = record seq { num_computed_tokens = seq.scheduled_prefill_end }
  (bm, committed) ← commit_computed_tokens s.block_manager computed computed.num_computed_tokens
  let cleared = clear_prefill_chunk committed
  let s1 = with_result r (bm, cleared) s
  elim (is_prompt_ready cleared) [
    | false ↦ some (s1, none)
    | true ↦ elim (cleared.max_tokens == 0) [
      | true ↦ finish_event r none (finish cleared "cache_warmed") s1 >>= λ e. some (e.0, some e.1)
      | false ↦ take_token r token_id cleared s1 >>= λ e. some (e.0, some e.1)
    ]
  ]

-- The body of the loop for a sequence of a decode batch.
unfoldable pub after_decode_token : ℕ → ℕ → Scheduler → Option (Scheduler × Option Event)
after_decode_token r token_id s = do
  let seq = s.store r
  let computed = record seq { num_computed_tokens = max seq.num_computed_tokens seq.num_tokens }
  (bm, committed) ← commit_computed_tokens s.block_manager computed computed.num_tokens
  (s1, event) ← take_token r token_id committed (with_result r (bm, committed) s)
  some (s1, some event)

unfoldable pub add_event : Option Event → List Event → List Event
add_event none events = events
add_event (some e) events = e ∷ events

-- `postprocess(seqs, token_ids, is_prefill)`; `zip` stops at the end of the shorter list.
unfoldable pub postprocess : List ℕ → List ℕ → Bool → Scheduler → Option (Scheduler × List Event)
postprocess [] token_ids is_prefill s = some (s, [])
postprocess (r ∷ rs) [] is_prefill s = some (s, [])
postprocess (r ∷ rs) (t ∷ ts) is_prefill s = do
  (s1, event) ← (if is_prefill then after_chunk r t s else after_decode_token r t s)
  (s2, events) ← postprocess rs ts is_prefill s1
  some (s2, add_event event events)
