-- ===== src/Protocol/Writer/Reachable.antt =====
-- internal/shared/protocol/writer.go: `QueuedFrames` and `QueuedBytes` in every interleaving.
use tunl.Base.{
  ℕ, ◌+◌, ◌≡◌, refl, ap, ◌∙◌, inl, inr, true, false, List, [], ◌∷◌, ◌++◌, arith, if◌then◌else◌,
  Bool-cases, length, sum_by, sum_by-append,
}
use tunl.Base.Int.{pos}
use tunl.Protocol.Frame.{Frame, Sink}
use tunl.Protocol.Writer.{
  new_frame_writer, FrameWriter, Lane, data_lane, control_lane, lane_of, size_of, mark_queued, push,
  enable_heartbeat, disable_heartbeat, set_write_error_handler, enable_adaptive_flush,
  disable_adaptive_flush, set_pre_write_hook,
}
use tunl.Protocol.Writer.Steps.{
  Loop, looks, waits, stopping, stopped, has_control, has_data, Sender, World, Setting,
  heartbeat_on, heartbeat_off, adaptive_off, adaptive_on, error_handler, write_hook, apply,
  GivesFresh, SendStep, begins, counts, pushes, panics, gives_up, LoopStep, takes_control,
  control_ends, finds_none, writes_control, takes_data, queue_ends, batches, ticks, beats, hears,
  sees_done, stops, CallStep, marks_closed, closes_queue, closes_control, drops_data, ends_queue,
  drops_control, finishes, flushes, sets, Reaches, stays, sends, loops, calls, sender,
}
use tunl.Protocol.Writer.Backlog.{marked, mark}
use tunl.Protocol.Writer.Exact.{
  odd, inside, Sound, moves, flush_frame-Sound, discard-Sound, flush_batch-Sound, give_up-Sound,
  add_to_batch-Sound, beat-Sound, flush-Sound, mark-odd, marked-odd, mark_queued-Sound,
}

-- The sums over the frames that the write loop has, and the senders that have counted theirs.
abbrev pub in_loop : (Frame → ℕ) → Loop → ℕ
in_loop f (has_control x) = f x
in_loop f (has_data x) = f x
in_loop f l = 0

abbrev pub of_sender : (Frame → ℕ) → Sender → ℕ
of_sender f s = if s.counted then f s.frame else 0

abbrev pub away : Loop → List Sender → (Frame → ℕ) → ℕ
away l ss f = in_loop f l + sum_by (of_sender f) ss

abbrev pub IsSound : World → Type 0
IsSound w = Sound (away w.loop w.senders) w.writer

-- One sender's frame, with the others apart.
sender-IsSound :
    (before after : List Sender) (s : Sender) (w : World)
    → w.senders ≡ before ++ (s ∷ after)
    → IsSound w
    → Sound (λ f. of_sender f s + away w.loop (before ++ after) f) w.writer
sender-IsSound before after s w e v =
    moves (away w.loop w.senders) _ w.writer w.writer
      (λ f. rw e (
        omega (
          arith,
          sum_by-append (of_sender f) before (s ∷ after),
          sum_by-append (of_sender f) before after,
        )))
      refl refl refl v

push-Sound :
    (a : (Frame → ℕ) → ℕ) (l : Lane) (x : Frame) (w : FrameWriter)
    → (lane_of l w).closed ≡ false
    → Sound (λ f. f x + a f) w
    → Sound a (push l x w)
unfolding push
push-Sound a data_lane x w e s =
    rw e
      (moves _ a w _ (λ f. omega (arith, sum_by-append f w.queue.items (x ∷ []))) refl refl refl s)
push-Sound a control_lane x w e s = rw e (
    moves _ a w _ (λ f. omega (arith, sum_by-append f w.control_queue.items (x ∷ []))) refl refl
      refl s)

SendStep-IsSound : (w w' : World) → SendStep w w' → IsSound w → IsSound w'
SendStep-IsSound w w' (begins l f e) v =
    moves (away w.loop w.senders) _ w.writer _ (λ f. omega arith) refl refl refl v
SendStep-IsSound w w' (counts before after l x e) v =
    moves _ (away w.loop (before ++ (sender l (mark_queued x w.writer).0 true ∷ after))) _ _
      (λ f. omega (
        arith,
        sum_by-append (of_sender f) before (sender l (mark_queued x w.writer).0 true ∷ after),
        sum_by-append (of_sender f) before after,
      ))
      refl refl refl
      (mark_queued-Sound (away w.loop (before ++ after)) x w.writer (
        moves _ (away w.loop (before ++ after)) _ _ (λ f. omega arith) refl refl refl
          (sender-IsSound before after (sender l x false) w e v)))
SendStep-IsSound w w' (pushes before after l x e o r) v =
    push-Sound (away w.loop (before ++ after)) l x w.writer o
      (sender-IsSound before after (sender l x true) w e v)
SendStep-IsSound w w' (panics before after l x e o) v = v
SendStep-IsSound w w' (gives_up before after l x e) v =
    give_up-Sound (away w.loop (before ++ after)) x w.writer
      (sender-IsSound before after (sender l x true) w e v)

LoopStep-IsSound : (w w' : World) → LoopStep w w' → IsSound w → IsSound w'
LoopStep-IsSound w w' (takes_control x rest p e) v =
    moves (away w.loop w.senders) _ w.writer _ (λ f. rw (p, e) (omega arith)) refl refl refl v
LoopStep-IsSound w w' (control_ends p e c) v =
    moves (away w.loop w.senders) _ w.writer _ (λ f. rw p refl) refl refl refl v
LoopStep-IsSound w w' (finds_none p e c) v =
    moves (away w.loop w.senders) _ w.writer _ (λ f. rw p refl) refl refl refl v
LoopStep-IsSound w w' (writes_control x p) v =
    flush_frame-Sound (away looks w.senders) x w.writer
      (moves (away w.loop w.senders) _ w.writer _ (λ f. rw p (omega arith)) refl refl refl v)
LoopStep-IsSound w w' (takes_data x rest p e) v =
    moves (away w.loop w.senders) _ w.writer _ (λ f. rw (p, e) (omega arith)) refl refl refl v
LoopStep-IsSound w w' (queue_ends p e c) v =
    moves (away w.loop w.senders) _ w.writer _ (λ f. rw p refl) refl refl refl v
LoopStep-IsSound w w' (batches x p) v =
    add_to_batch-Sound (away looks w.senders) x w.writer
      (moves (away w.loop w.senders) _ w.writer _ (λ f. rw p (omega arith)) refl refl refl v)
LoopStep-IsSound w w' (ticks p) v =
    flush_batch-Sound (away looks w.senders) w.writer
      (moves (away w.loop w.senders) _ w.writer _ (λ f. rw p refl) refl refl refl v)
LoopStep-IsSound w w' (beats now p) v =
    beat-Sound (away looks w.senders) now w.writer
      (moves (away w.loop w.senders) _ w.writer _ (λ f. rw p refl) refl refl refl v)
LoopStep-IsSound w w' (hears rest p e) v =
    moves (away w.loop w.senders) _ w.writer _ (λ f. rw p refl) refl refl refl v
LoopStep-IsSound w w' (sees_done p c) v =
    moves (away w.loop w.senders) _ w.writer _ (λ f. rw p refl) refl refl refl v
LoopStep-IsSound w w' (stops p) v =
    flush_batch-Sound (away stopped w.senders) w.writer
      (moves (away w.loop w.senders) _ w.writer _ (λ f. rw p refl) refl refl refl v)

apply-Sound :
    (a : (Frame → ℕ) → ℕ) (s : Setting) (w : FrameWriter)
    → GivesFresh s
    → Sound a w
    → Sound a (apply s w)
unfolding apply enable_heartbeat disable_heartbeat set_write_error_handler enable_adaptive_flush
    disable_adaptive_flush set_pre_write_hook
apply-Sound a (heartbeat_on i c) w g v = record {
  counts = record { frames = v.counts.frames; bytes = v.counts.bytes };
  even = v.even;
  fresh = λ c' e now f r. g now f (cc (e, r));
}
apply-Sound a heartbeat_off w g v = moves a a w _ (λ f. refl) refl refl refl v
apply-Sound a adaptive_off w g v = moves a a w _ (λ f. refl) refl refl refl v
apply-Sound a (adaptive_on n) w g v = moves a a w _ (λ f. refl) refl refl refl v
apply-Sound a (error_handler b) w g v = moves a a w _ (λ f. refl) refl refl refl v
apply-Sound a (write_hook b) w g v = moves a a w _ (λ f. refl) refl refl refl v

CallStep-IsSound : (w w' : World) → CallStep w w' → IsSound w → IsSound w'
CallStep-IsSound w w' (marks_closed p e) v =
    moves (away w.loop w.senders) _ w.writer _ (λ f. refl) refl refl refl v
CallStep-IsSound w w' (closes_queue p) v =
    moves (away w.loop w.senders) _ w.writer _ (λ f. refl) refl refl refl v
CallStep-IsSound w w' (closes_control p) v =
    moves (away w.loop w.senders) _ w.writer _ (λ f. refl) refl refl refl v
CallStep-IsSound w w' (drops_data x rest p e) v =
    discard-Sound (away w.loop w.senders) x _
      (moves (away w.loop w.senders) _ w.writer _ (λ f. rw e (omega arith)) refl refl refl v)
CallStep-IsSound w w' (ends_queue p e) v = v
CallStep-IsSound w w' (drops_control x rest p e) v =
    discard-Sound (away w.loop w.senders) x _
      (moves (away w.loop w.senders) _ w.writer _ (λ f. rw e (omega arith)) refl refl refl v)
CallStep-IsSound w w' (finishes p e) v =
    moves (away w.loop w.senders) _ w.writer _ (λ f. refl) refl refl refl v
CallStep-IsSound w w' flushes v = flush-Sound (away w.loop w.senders) w.writer v
CallStep-IsSound w w' (sets s g) v = apply-Sound (away w.loop w.senders) s w.writer g v

Reaches-IsSound :
    (conn : Sink) (max_batch queue_size lent : ℕ) (w : World)
    → Reaches (new_frame_writer conn max_batch queue_size lent) w
    → IsSound w
Reaches-IsSound conn max_batch queue_size lent x stays =
    unfold new_frame_writer in
    record { counts = record { frames = refl; bytes = refl }; even = refl; fresh = λ c e now f. cc }
Reaches-IsSound conn max_batch queue_size lent x (sends u w r s) =
    SendStep-IsSound u w s (Reaches-IsSound conn max_batch queue_size lent u r)
Reaches-IsSound conn max_batch queue_size lent x (loops u w r s) =
    LoopStep-IsSound u w s (Reaches-IsSound conn max_batch queue_size lent u r)
Reaches-IsSound conn max_batch queue_size lent x (calls u w r s) =
    CallStep-IsSound u w s (Reaches-IsSound conn max_batch queue_size lent u r)

-- The frames that wait.
abbrev pub of_loop : Loop → List Frame
of_loop (has_control x) = x ∷ []
of_loop (has_data x) = x ∷ []
of_loop l = []

abbrev pub counted_frames : List Sender → List Frame
counted_frames [] = []
counted_frames (s ∷ ss) = (if s.counted then s.frame ∷ [] else []) ++ counted_frames ss

abbrev pub waiting : World → List Frame
waiting w =
    of_loop w.loop
    ++ (counted_frames w.senders
        ++ (w.writer.queue.items ++ (w.writer.control_queue.items ++ w.writer.batch)))

sum_by-of_loop : (f : Frame → ℕ) (l : Loop) → sum_by f (of_loop l) ≡ in_loop f l
sum_by-of_loop f looks = refl
sum_by-of_loop f waits = refl
sum_by-of_loop f stopping = refl
sum_by-of_loop f stopped = refl
sum_by-of_loop f (has_control x) = omega arith
sum_by-of_loop f (has_data x) = omega arith

sum_by-counted_frames :
    (f : Frame → ℕ) (ss : List Sender) → sum_by f (counted_frames ss) ≡ sum_by (of_sender f) ss
sum_by-counted_frames f [] = refl
sum_by-counted_frames f (s ∷ ss) = elim (Bool-cases s.counted) [
  | inl e ↦ rw e (omega (arith, sum_by-counted_frames f ss))
  | inr e ↦ rw e (omega (arith, sum_by-counted_frames f ss))
]

sum_by-waiting :
    (f : Frame → ℕ) (w : World) → sum_by f (waiting w) ≡ away w.loop w.senders f + inside f w.writer
sum_by-waiting f w = omega (
  arith,
  sum_by-of_loop f w.loop,
  sum_by-counted_frames f w.senders,
  sum_by-append f (of_loop w.loop) (
      counted_frames w.senders
      ++ (w.writer.queue.items ++ (w.writer.control_queue.items ++ w.writer.batch))),
  sum_by-append f (counted_frames w.senders)
      (w.writer.queue.items ++ (w.writer.control_queue.items ++ w.writer.batch)),
  sum_by-append f w.writer.queue.items (w.writer.control_queue.items ++ w.writer.batch),
  sum_by-append f w.writer.control_queue.items w.writer.batch,
)

-- Frames that all have their size as their mark.
marks-even :
    (xs : List Frame)
    → sum_by odd xs ≡ 0
    → (sum_by marked xs ≡ length xs) × (sum_by mark xs ≡ sum_by size_of xs)
marks-even [] e = (refl, refl)
marks-even (x ∷ xs) e =
    let one : odd x ≡ 0 = omega (arith, e) in
    let (m, b) = marks-even xs (omega (arith, e)) in
    (omega (arith, m, marked-odd x one), omega (arith, b, mark-odd x one))

-- In every state that a new frame writer reaches, with any number of senders, the write loop, and a
-- `Close`, in any order, `QueuedFrames` is the number of frames that wait to be written or dropped
-- (in the two queues, in the batch, in the hands of the write loop or of a sender that has counted
-- its frame), and `QueuedBytes` is their size with headers. The heartbeat callbacks give new frames.
pub Reaches-waiting :
    (conn : Sink) (max_batch queue_size lent : ℕ) (w : World)
    → Reaches (new_frame_writer conn max_batch queue_size lent) w
    → (w.writer.queued_frames ≡ pos (length (waiting w)))
      × (w.writer.queued_bytes ≡ pos (sum_by size_of (waiting w)))
Reaches-waiting conn max_batch queue_size lent w r =
    let v = Reaches-IsSound conn max_batch queue_size lent w r in
    let (m, b) = marks-even (waiting w) (omega (arith, v.even, sum_by-waiting odd w)) in
    (
      v.counts.frames ∙ ap pos (omega (arith, m, sum_by-waiting marked w)),
      v.counts.bytes ∙ ap pos (omega (arith, b, sum_by-waiting mark w)),
    )
