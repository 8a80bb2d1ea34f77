-- ===== src/Scheduler/Invariant/Decoding.antt =====
-- `_schedule_decode` of nanovllm/engine/scheduler.py as a whole: it raises nothing, and every
-- sequence that it returns has the blocks for its next token.
use nano_vllm_online_serving.Scheduler.Invariant.Batches.{
  IsDecodeBatch, Decodes, empty-IsDecodeBatch, keeps-IsDecodeBatch, appended,
}
use nano_vllm_online_serving.Common.{
  ℕ, ◌+◌, ◌≤◌, ◌<◌, ◌≡◌, refl, ap, ◌∙◌, true, false, ◌&&◌, some, List, [], ◌∷◌, ◌++◌, arith, ◌==◌,
  ltb, leb, length, count, count-append, count-discard, elem-count, discard, elem, if◌then◌else◌,
  Bool-cases, inl, inr, Ensures, Ensures-mono, Ensures-value, ◌>>=◌,
}
use nano_vllm_online_serving.Sequence.{Sequence, is_running, is_prompt_ready}
use nano_vllm_online_serving.BlockManager.State.{BlockManager}
use nano_vllm_online_serving.BlockManager.Allocation.{may_append}
use nano_vllm_online_serving.BlockManager.Invariant.Taking.{room}
use nano_vllm_online_serving.BlockManager.Invariant.Tables.{
  Grows, missing_blocks, ensure_blocks-Grows,
}
use nano_vllm_online_serving.Scheduler.State.{Scheduler, with_result}
use nano_vllm_online_serving.Scheduler.Decode.{make_room, decode_loop, rotate, schedule_decode}
use nano_vllm_online_serving.Scheduler.Invariant.{IsSound, refs}
use nano_vllm_online_serving.Scheduler.Invariant.Changes.{others, focus, reordered-IsSound}
use nano_vllm_online_serving.Scheduler.Invariant.Admitting.{Same-trans, Same-refl}
use nano_vllm_online_serving.Scheduler.Invariant.Room.{Rooms, make_room-Rooms}

-- A candidate of the loop runs, or was preempted since.
abbrev IsCandidate : Scheduler → ℕ → Type 0
IsCandidate s x = (count x s.running ≡ 0) → is_prompt_ready (s.store x) ≡ false

IsCandidate-Rooms :
    (s : Scheduler) (r : ℕ) (scheduled : List ℕ) (s' : Scheduler) (x : ℕ)
    → Rooms s r scheduled s'
    → IsCandidate s x
    → IsCandidate s' x
IsCandidate-Rooms s r scheduled s' x m c gone = elim (Bool-cases (ltb 0 (count x s.running))) [
  | inl ran ↦ (m.stopped x (ground (arith, ran)) gone).1
  | inr idle ↦ let e : count x s.running ≡ 0 = ground (arith, idle) in rw (m.outside x e) (c e)
]

decode_loop_nil :
    (scheduled : List ℕ) (s : Scheduler) → decode_loop [] scheduled s ≡ some (s, scheduled)
unfolding decode_loop
decode_loop_nil scheduled s = refl

decode_loop_full :
    (r : ℕ) (rs scheduled : List ℕ) (s : Scheduler)
    → leb s.max_num_seqs (length scheduled) ≡ true
    → decode_loop (r ∷ rs) scheduled s ≡ some (s, scheduled)
unfolding decode_loop
decode_loop_full r rs scheduled s e = rw (e, decode_loop) refl

decode_loop_unready :
    (r : ℕ) (rs scheduled : List ℕ) (s : Scheduler)
    → leb s.max_num_seqs (length scheduled) ≡ false
    → is_prompt_ready (s.store r) ≡ false
    → decode_loop (r ∷ rs) scheduled s ≡ decode_loop rs scheduled s
unfolding decode_loop
decode_loop_unready r rs scheduled s e e1 = rw (e, decode_loop) (rw e1 refl)

decode_loop_skip :
    (r : ℕ) (rs scheduled : List ℕ) (s s1 : Scheduler)
    → leb s.max_num_seqs (length scheduled) ≡ false
    → is_prompt_ready (s.store r) ≡ true
    → make_room (length s.running + 1) r scheduled s ≡ some s1
    → (is_running (s1.store r) && is_prompt_ready (s1.store r)) ≡ false
    → decode_loop (r ∷ rs) scheduled s ≡ decode_loop rs scheduled s1
unfolding decode_loop
decode_loop_skip r rs scheduled s s1 e e1 e2 e3 =
    rw (e, decode_loop) (rw e1 (rw (e2, ◌>>=◌) (rw e3 refl)))

decode_loop_take :
    (r : ℕ) (rs scheduled : List ℕ) (s s1 : Scheduler) (p : BlockManager × Sequence)
    → leb s.max_num_seqs (length scheduled) ≡ false
    → is_prompt_ready (s.store r) ≡ true
    → make_room (length s.running + 1) r scheduled s ≡ some s1
    → (is_running (s1.store r) && is_prompt_ready (s1.store r)) ≡ true
    → may_append s1.block_manager (s1.store r) ≡ some p
    → decode_loop (r ∷ rs) scheduled s ≡ decode_loop rs (scheduled ++ r ∷ []) (with_result r p s1)
unfolding decode_loop
decode_loop_take r rs scheduled s s1 p e e1 e2 e3 e4 =
    rw (e, decode_loop) (rw e1 (rw (e2, ◌>>=◌) (rw (e3, ◌>>=◌) (rw (e4, ◌>>=◌) refl))))

from_Rooms :
    (s : Scheduler) (r : ℕ) (scheduled : List ℕ) (s1 : Scheduler) (q : Scheduler × List ℕ)
    → Rooms s r scheduled s1
    → Decodes s1 q
    → Decodes s q
from_Rooms s r scheduled s1 q m d = record {
  sound = d.sound;
  config = d.config ∙ m.config;
  same = Same-trans m.same d.same;
  batch = d.batch;
}

candidate_runs :
    (s : Scheduler) (r : ℕ)
    → IsCandidate s r
    → is_prompt_ready (s.store r) ≡ true
    → 0 < count r s.running
candidate_runs s r c ready = elim (Bool-cases (ltb 0 (count r s.running))) [
  | inl here ↦ ground (arith, here)
  | inr away ↦ absurd (ground (arith, c (ground (arith, away)), ready))
]

-- Who goes on after the search for room was not preempted in it.
going_runs :
    (s : Scheduler) (r : ℕ) (scheduled : List ℕ) (s1 : Scheduler)
    → Rooms s r scheduled s1
    → 0 < count r s.running
    → (is_running (s1.store r) && is_prompt_ready (s1.store r)) ≡ true
    → 0 < count r s1.running
going_runs s r scheduled s1 m runs going = elim (Bool-cases (ltb 0 (count r s1.running))) [
  | inl here ↦ ground (arith, here)
  | inr away ↦ absurd (ground (arith, (m.stopped r runs (ground (arith, away))).0, going))
]

may_append-Grows :
    (s : Scheduler) (r : ℕ)
    → IsSound s
    → 0 < count r s.running
    → missing_blocks s.block_manager (s.store r) (s.store r).num_tokens ≤ room s.block_manager
    → Ensures (may_append s.block_manager (s.store r)) (
        Grows s.block_manager
          (s.store r)
          (others s r)
          (missing_blocks s.block_manager (s.store r) (s.store r).num_tokens))
unfolding may_append
may_append-Grows s r sound runs fits =
    let here : 0 < count r (refs s) = omega (arith, runs, count-append r s.waiting s.running) in
    ensure_blocks-Grows s.block_manager (s.store r) (others s r) (s.store r).num_tokens
      (focus s r sound here) (sound.sized r here) fits

-- The next candidate is taken, passed over, or was preempted to no avail.
pub decode_loop-Decodes :
    (rs scheduled : List ℕ) (s : Scheduler)
    → IsSound s
    → IsDecodeBatch s scheduled
    → ((x : ℕ) → count x rs + count x scheduled ≤ 1)
    → ((x : ℕ) → 0 < count x rs → IsCandidate s x)
    → Ensures (decode_loop rs scheduled s) (Decodes s)
decode_loop-Decodes [] scheduled s sound b once c =
    rw (decode_loop_nil scheduled s)
      (record { sound = sound; config = refl; same = Same-refl s.block_manager; batch = b })
decode_loop-Decodes (r ∷ rs) scheduled s sound b once c =
    elim (Bool-cases (leb s.max_num_seqs (length scheduled))) [
      | inl full ↦
          rw (decode_loop_full r rs scheduled s full)
            (record { sound = sound; config = refl; same = Same-refl s.block_manager; batch = b })
      | inr space ↦ elim (Bool-cases (is_prompt_ready (s.store r))) [
        | inr unready ↦ rw (decode_loop_unready r rs scheduled s space unready) (
            decode_loop-Decodes rs scheduled s sound b (λ x. ground (arith, once x))
              (λ x h. c x (ground (arith, h))))
        | inl ready ↦
            let runs = candidate_runs s r (c r (ground arith)) ready in
            let fresh : elem r scheduled ≡ false = ground (arith, once r, elem-count r scheduled) in
            let (s1, e, m) = Ensures-value (make_room (length s.running + 1) r scheduled s) _ (
              make_room-Rooms (length s.running + 1) r scheduled s sound (omega arith) runs
                fresh) in
            let b1 = keeps-IsDecodeBatch s r scheduled s1 b m in
            let c1 = λ (x : ℕ) (h : 0 < count x rs).
              IsCandidate-Rooms s r scheduled s1 x m (c x (ground (arith, h))) in
            elim (Bool-cases (is_running (s1.store r) && is_prompt_ready (s1.store r))) [
              | inr stopped ↦ rw (decode_loop_skip r rs scheduled s s1 space ready e stopped) (
                  Ensures-mono (decode_loop rs scheduled s1) (Decodes s1) (Decodes s)
                    (decode_loop-Decodes rs scheduled s1 m.sound b1 (λ x. ground (arith, once x))
                      c1)
                    (λ q d. from_Rooms s r scheduled s1 q m d))
              | inl going ↦
                  let runs1 = going_runs s r scheduled s1 m runs going in
                  let (p, e1, g) =
                    Ensures-value (may_append s1.block_manager (s1.store r)) _
                      (may_append-Grows s1 r m.sound runs1 (m.fits runs1)) in
                  let space1 : length scheduled < s1.max_num_seqs =
                    ground (arith, space, ap (λ c. c.max_num_seqs) m.config) in
                  let grown =
                    appended s1 r scheduled p m.sound b1 space1 fresh runs1 (ground (arith, going))
                      g in
                  rw (decode_loop_take r rs scheduled s s1 p space ready e going e1) (
                    Ensures-mono (decode_loop rs (scheduled ++ r ∷ []) (with_result r p s1))
                      (Decodes (with_result r p s1)) (Decodes s)
                      (decode_loop-Decodes rs (scheduled ++ r ∷ []) (with_result r p s1) grown.0
                        grown.1 (λ x. ground (arith, once x, count-append x scheduled (r ∷ [])))
                        (λ x h gone.
                          let other : (r == x) ≡ false = ground (arith, once x, h) in
                          rw other (c1 x h gone)))
                      (λ q d. from_Rooms s r scheduled s1 q m (record {
                        sound = d.sound;
                        config = d.config;
                        same = Same-trans g.same d.same;
                        batch = d.batch;
                      })))
            ]
      ]
    ]

count-rotate : (x : ℕ) (rs run : List ℕ) → count x (rotate rs run) ≡ count x run
unfolding rotate
count-rotate x [] run = refl
count-rotate x (r ∷ rs) run = ground (
  arith,
  count-rotate x rs (if elem r run then discard r run ++ r ∷ [] else run),
  elem-count r run,
  count-append x (discard r run) (r ∷ []),
  count-discard r x run,
)

-- A change of order only.
rotated :
    (s s' : Scheduler) (batch : List ℕ)
    → Decodes s (s', batch)
    → Decodes s (record s' { running = rotate batch s'.running }, batch)
rotated s s' batch d =
    let same : (x : ℕ) → count x (rotate batch s'.running) ≡ count x s'.running =
      λ x. count-rotate x batch s'.running in
    record {
      sound = reordered-IsSound s' s'.waiting (rotate batch s'.running) d.sound (λ x. refl) same;
      config = d.config;
      same = d.same;
      batch = record {
        small = d.batch.small;
        distinct = d.batch.distinct;
        runs = λ x h. rw (same x) (d.batch.runs x h);
        ready = d.batch.ready;
        covered = d.batch.covered;
      };
    }

-- `_schedule_decode` raises nothing, keeps the scheduler sound, and returns a batch whose
-- sequences run, each once, and have blocks for all their tokens.
pub schedule_decode-Decodes : (s : Scheduler) → IsSound s → Ensures (schedule_decode s) (Decodes s)
unfolding schedule_decode
schedule_decode-Decodes s sound =
    let (q, e, d) = Ensures-value (decode_loop s.running [] s) (Decodes s) (
      decode_loop-Decodes s.running [] s sound (empty-IsDecodeBatch s)
        (λ x. omega (arith, sound.once x, count-append x s.waiting s.running))
        (λ x h gone. absurd (omega (arith, h, gone)))) in
    rw e (rotated s q.0 q.1 d)
