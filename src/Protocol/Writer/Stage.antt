-- ===== src/Protocol/Writer/Stage.antt =====
-- internal/shared/protocol/writer.go: the stages of `Close` and of the write loop.
use tunl.Base.{◌≡◌, refl, ap, ◌∙◌, inl, inr, Bool, true, false, List, [], ◌∷◌, arith, Option-cases}
use tunl.Base.Channel.{Channel}
use tunl.Protocol.Frame.{Frame, write_frame, WriteError}
use tunl.Protocol.Writer.{
  FrameWriter, uncount, discard, flush_frame, flush_all, flush_batch, unmark_queued, note_error,
  call_hook, put_on_wire,
}
use tunl.Protocol.Writer.Steps.{
  Loop, stopping, stopped, Closing, not_yet, marked_closed, queue_closed, drains_queue,
  drains_control, finished,
}
use tunl.Protocol.Writer.Backlog.{parts}

-- How far `Close` is.
abbrev pub started : Closing → Bool
started not_yet = false
started c = true

abbrev pub q_closed : Closing → Bool
q_closed not_yet = false
q_closed marked_closed = false
q_closed c = true

abbrev pub k_closed : Closing → Bool
k_closed drains_queue = true
k_closed drains_control = true
k_closed finished = true
k_closed c = false

abbrev pub q_drained : Closing → Bool
q_drained drains_control = true
q_drained finished = true
q_drained c = false

abbrev pub is_finished : Closing → Bool
is_finished finished = true
is_finished c = false

abbrev pub ended : Loop → Bool
ended stopping = true
ended stopped = true
ended l = false

abbrev pub flags {ℓ} : {A : Type ℓ} → Channel A → Bool × Bool
flags c = (c.closed, c.panicked)

-- The channels, the batch and `closed` at each stage of `Close` and of the write loop.
pub record Stage (c : Closing) (l : Loop) (w : FrameWriter) : Type 0 where
  pub queue_flags : flags w.queue ≡ (q_closed c, false)
  pub control_flags : flags w.control_queue ≡ (k_closed c, false)
  pub done_flags : flags w.done ≡ (is_finished c, false)
  pub queue_empty : q_drained c ≡ true → w.queue.items ≡ []
  pub control_empty : is_finished c ≡ true → w.control_queue.items ≡ []
  pub loop_ends : ended l ≡ true → q_closed c ≡ true
  pub batch_empty : l ≡ stopped → w.batch ≡ []
  pub is_closed : started c ≡ true → w.closed ≡ true

-- Steps that neither close a channel nor put a frame in a queue.
pub later :
    (c : Closing) (l l' : Loop) (w w' : FrameWriter)
    → flags w'.queue ≡ flags w.queue
    → flags w'.control_queue ≡ flags w.control_queue
    → w'.done ≡ w.done
    → (q_drained c ≡ true → w.queue.items ≡ [] → w'.queue.items ≡ [])
    → (is_finished c ≡ true → w.control_queue.items ≡ [] → w'.control_queue.items ≡ [])
    → (ended l' ≡ true → q_closed c ≡ true)
    → (l' ≡ stopped → w'.batch ≡ [])
    → (w.closed ≡ true → w'.closed ≡ true)
    → Stage c l w
    → Stage c l' w'
later c l l' w w' q k d qe ke le be ce v = record {
  queue_flags = q ∙ v.queue_flags;
  control_flags = k ∙ v.control_flags;
  done_flags = ap flags d ∙ v.done_flags;
  queue_empty = λ e. qe e (v.queue_empty e);
  control_empty = λ e. ke e (v.control_empty e);
  loop_ends = le;
  batch_empty = be;
  is_closed = λ e. ce (v.is_closed e);
}

-- Steps that touch neither queue.
pub elsewhere :
    (c : Closing) (l l' : Loop) (w w' : FrameWriter)
    → w'.queue ≡ w.queue
    → w'.control_queue ≡ w.control_queue
    → w'.done ≡ w.done
    → (ended l' ≡ true → q_closed c ≡ true)
    → (l' ≡ stopped → w'.batch ≡ [])
    → (w.closed ≡ true → w'.closed ≡ true)
    → Stage c l w
    → Stage c l' w'
elsewhere c l l' w w' q k d =
    later c l l' w w' (ap flags q) (ap flags k) d (λ f e. ap (λ q. q.items) q ∙ e)
      (λ f e. ap (λ q. q.items) k ∙ e)

pub q_closed-drained : (c : Closing) → q_drained c ≡ true → q_closed c ≡ true
q_closed-drained not_yet e = cc
q_closed-drained marked_closed e = cc
q_closed-drained queue_closed e = refl
q_closed-drained drains_queue e = refl
q_closed-drained drains_control e = refl
q_closed-drained finished e = refl

pub k_closed-finished : (c : Closing) → is_finished c ≡ true → k_closed c ≡ true
k_closed-finished not_yet e = cc
k_closed-finished marked_closed e = cc
k_closed-finished queue_closed e = cc
k_closed-finished drains_queue e = refl
k_closed-finished drains_control e = refl
k_closed-finished finished e = refl

pub q_closed-k_closed : (c : Closing) → k_closed c ≡ true → q_closed c ≡ true
q_closed-k_closed not_yet e = cc
q_closed-k_closed marked_closed e = cc
q_closed-k_closed queue_closed e = refl
q_closed-k_closed drains_queue e = refl
q_closed-k_closed drains_control e = refl
q_closed-k_closed finished e = refl

-- Nothing opens the writer again.
note_error-closed :
    (e : WriteError) (w : FrameWriter) → w.closed ≡ true → (note_error e w).closed ≡ true
unfolding note_error
note_error-closed e w c = elim (Option-cases w.write_err) [
  | inl r ↦ rw (r, note_error) refl
  | inr (x, r) ↦ rw (r, note_error) c
]

put_on_wire-closed :
    (f : Frame) (w : FrameWriter) → w.closed ≡ true → (put_on_wire f w).closed ≡ true
unfolding put_on_wire
put_on_wire-closed f w c = elim (Option-cases (write_frame w.conn f).1) [
  | inl r ↦ rw (r, put_on_wire) c
  | inr (x, r) ↦ rw (r, put_on_wire) (note_error-closed x _ c)
]

pub discard-closed : (f : Frame) (w : FrameWriter) → (discard f w).closed ≡ w.closed
unfolding discard unmark_queued uncount
discard-closed f w = ground arith

pub flush_frame-closed :
    (f : Frame) (w : FrameWriter) → w.closed ≡ true → (flush_frame f w).closed ≡ true
unfolding flush_frame call_hook
flush_frame-closed f w c = discard-closed f _ ∙ put_on_wire-closed f (call_hook f w) c

flush_all-closed :
    (fs : List Frame) (w : FrameWriter) → w.closed ≡ true → (flush_all fs w).closed ≡ true
unfolding flush_all
flush_all-closed [] w c = c
flush_all-closed (f ∷ fs) w c = flush_all-closed fs (flush_frame f w) (flush_frame-closed f w c)

pub flush_batch-closed : (w : FrameWriter) → w.closed ≡ true → (flush_batch w).closed ≡ true
unfolding flush_batch
flush_batch-closed w c = flush_all-closed w.batch w c

-- What `flush_frame` and its like leave.
pub flushed :
    (c : Closing) (l l' : Loop) (b : List Frame) (w w' : FrameWriter)
    → parts w' ≡ parts (record w { batch = b })
    → (ended l' ≡ true → q_closed c ≡ true)
    → (l' ≡ stopped → b ≡ [])
    → (w.closed ≡ true → w'.closed ≡ true)
    → Stage c l w
    → Stage c l' w'
flushed c l l' b w w' e le be =
    elsewhere c l l' w w' (ap (λ p. p.0) e) (ap (λ p. p.1) e) (ap (λ p. p.4) e) le
      (λ f. ap (λ p. p.2) e ∙ be f)
