-- ===== src/Protocol/Writer/Shutdown.antt =====
-- internal/shared/protocol/writer.go: what `Close` leaves, and what it leaves after a write error.
use mathlib.Core.List.{append-nil}
use tunl.Base.{ℕ, ◌≡◌, refl, ap, ◌∙◌, Bool, true, false, ◌||◌, [], ◌++◌, length, sum_by}
use tunl.Base.Channel
use tunl.Base.Channel.{Channel}
use tunl.Base.Int.{pos}
use tunl.Protocol.Frame.{Sink}
use tunl.Protocol.Writer.{
  new_frame_writer, FrameWriter, size_of, discard, flush_batch, flush, enable_heartbeat,
  disable_heartbeat, set_write_error_handler, enable_adaptive_flush, disable_adaptive_flush,
  set_pre_write_hook,
}
use tunl.Protocol.Writer.Steps.{
  Loop, looks, stopped, World, Setting, Closing, finished, heartbeat_on, heartbeat_off,
  adaptive_off, adaptive_on, error_handler, write_hook, apply, CallStep, marks_closed, closes_queue,
  closes_control, drops_data, ends_queue, drops_control, finishes, flushes, sets, Reaches, start,
  Leads, stays, sends, loops, calls,
}
use tunl.Protocol.Writer.Backlog.{discard-parts, flush_batch-parts}
use tunl.Protocol.Writer.Stage.{
  started, q_closed, k_closed, q_drained, is_finished, flags, Stage, later, elsewhere,
  flush_batch-closed, discard-closed, flushed,
}
use tunl.Protocol.Writer.LoopStages.{StageOf, SendStep-Stage, LoopStep-Stage, if-Stage}
use tunl.Protocol.Writer.Reachable.{waiting, Reaches-waiting, counted_frames}

flush-Stage : (w : World) → StageOf w → Stage w.closing w.loop (flush w.writer)
unfolding flush
flush-Stage w v =
    let x = w.writer in
    let drained : FrameWriter = record x {
      batch = x.batch ++ x.queue.items;
      queue = record x.queue { items = [] };
    } in
    if-Stage w.closing w.loop x.closed x (flush_batch drained) v (
      flushed w.closing looks w.loop [] drained _ (flush_batch-parts drained) v.loop_ends
        (λ e. refl) (flush_batch-closed drained)
        (later w.closing w.loop looks x drained refl refl refl (λ d e. refl) (λ d e. e) (λ e. cc)
          (λ e. cc) (λ e. e) v))

apply-Stage :
    (c : Closing) (l : Loop) (s : Setting) (w : FrameWriter) → Stage c l w → Stage c l (apply s w)
unfolding apply enable_heartbeat disable_heartbeat set_write_error_handler enable_adaptive_flush
    disable_adaptive_flush set_pre_write_hook
apply-Stage c l (heartbeat_on i f) w v =
    elsewhere c l l w _ refl refl refl v.loop_ends v.batch_empty (λ e. e) v
apply-Stage c l heartbeat_off w v =
    elsewhere c l l w _ refl refl refl v.loop_ends v.batch_empty (λ e. e) v
apply-Stage c l adaptive_off w v =
    elsewhere c l l w _ refl refl refl v.loop_ends v.batch_empty (λ e. e) v
apply-Stage c l (adaptive_on n) w v =
    elsewhere c l l w _ refl refl refl v.loop_ends v.batch_empty (λ e. e) v
apply-Stage c l (error_handler b) w v =
    elsewhere c l l w _ refl refl refl v.loop_ends v.batch_empty (λ e. e) v
apply-Stage c l (write_hook b) w v =
    elsewhere c l l w _ refl refl refl v.loop_ends v.batch_empty (λ e. e) v

-- A channel that is open, and closes.
close-flags {ℓ} :
    {A : Type ℓ} (q : Channel A) (b : Bool)
    → flags q ≡ (b, false)
    → b ≡ false
    → flags (Channel.close q) ≡ (true, false)
close-flags q b e n = ap (λ f. (true, f.1 || f.0)) e ∙ ap (λ b. (true, b)) n

CallStep-Stage : (w w' : World) → CallStep w w' → StageOf w → StageOf w'
CallStep-Stage w w' (marks_closed p e) v = record {
  queue_flags = v.queue_flags ∙ ap (λ c. (q_closed c, false)) p;
  control_flags = v.control_flags ∙ ap (λ c. (k_closed c, false)) p;
  done_flags = v.done_flags ∙ ap (λ c. (is_finished c, false)) p;
  queue_empty = λ e. cc;
  control_empty = λ e. cc;
  loop_ends = λ e. absurd (cc (v.loop_ends e, ap q_closed p));
  batch_empty = v.batch_empty;
  is_closed = λ e. refl;
}
CallStep-Stage w w' (closes_queue p) v = record {
  queue_flags = close-flags w.writer.queue _ v.queue_flags (ap q_closed p);
  control_flags = v.control_flags ∙ ap (λ c. (k_closed c, false)) p;
  done_flags = v.done_flags ∙ ap (λ c. (is_finished c, false)) p;
  queue_empty = λ e. cc;
  control_empty = λ e. cc;
  loop_ends = λ e. refl;
  batch_empty = v.batch_empty;
  is_closed = λ e. v.is_closed (ap started p);
}
CallStep-Stage w w' (closes_control p) v = record {
  queue_flags = v.queue_flags ∙ ap (λ c. (q_closed c, false)) p;
  control_flags = close-flags w.writer.control_queue _ v.control_flags (ap k_closed p);
  done_flags = v.done_flags ∙ ap (λ c. (is_finished c, false)) p;
  queue_empty = λ e. cc;
  control_empty = λ e. cc;
  loop_ends = λ e. refl;
  batch_empty = v.batch_empty;
  is_closed = λ e. v.is_closed (ap started p);
}
CallStep-Stage w w' (drops_data x rest p e) v =
    let took = record w.writer { queue = record w.writer.queue { items = rest } } in
    flushed w.closing w.loop w.loop took.batch took (discard x took) (discard-parts x took)
      v.loop_ends v.batch_empty (λ c. discard-closed x took ∙ c)
      (later w.closing w.loop w.loop w.writer took refl refl refl (λ d q. absurd (cc (e, q)))
        (λ d q. q) v.loop_ends v.batch_empty (λ c. c) v)
CallStep-Stage w w' (ends_queue p e) v = record {
  queue_flags = v.queue_flags ∙ ap (λ c. (q_closed c, false)) p;
  control_flags = v.control_flags ∙ ap (λ c. (k_closed c, false)) p;
  done_flags = v.done_flags ∙ ap (λ c. (is_finished c, false)) p;
  queue_empty = λ d. e;
  control_empty = λ e. cc;
  loop_ends = λ e. refl;
  batch_empty = v.batch_empty;
  is_closed = λ e. v.is_closed (ap started p);
}
CallStep-Stage w w' (drops_control x rest p e) v =
    let took = record w.writer { control_queue = record w.writer.control_queue { items = rest } } in
    flushed w.closing w.loop w.loop took.batch took (discard x took) (discard-parts x took)
      v.loop_ends v.batch_empty (λ c. discard-closed x took ∙ c)
      (later w.closing w.loop w.loop w.writer took refl refl refl (λ d q. q)
        (λ d q. absurd (cc (e, q))) v.loop_ends v.batch_empty (λ c. c) v)
CallStep-Stage w w' (finishes p e) v = record {
  queue_flags = v.queue_flags ∙ ap (λ c. (q_closed c, false)) p;
  control_flags = v.control_flags ∙ ap (λ c. (k_closed c, false)) p;
  done_flags = close-flags w.writer.done _ v.done_flags (ap is_finished p);
  queue_empty = λ d. v.queue_empty (ap q_drained p);
  control_empty = λ d. e;
  loop_ends = λ e. refl;
  batch_empty = v.batch_empty;
  is_closed = λ e. v.is_closed (ap started p);
}
CallStep-Stage w w' flushes v = flush-Stage w v
CallStep-Stage w w' (sets s g) v = apply-Stage w.closing w.loop s w.writer v

pub Leads-Stage : (u w : World) → Leads u w → StageOf u → StageOf w
Leads-Stage u x stays s = s
Leads-Stage u x (sends v w r t) s = SendStep-Stage v w t (Leads-Stage u v r s)
Leads-Stage u x (loops v w r t) s = LoopStep-Stage v w t (Leads-Stage u v r s)
Leads-Stage u x (calls v w r t) s = CallStep-Stage v w t (Leads-Stage u v r s)

pub Reaches-Stage :
    (conn : Sink) (max_batch queue_size lent : ℕ) (w : World)
    → Reaches (new_frame_writer conn max_batch queue_size lent) w
    → StageOf w
Reaches-Stage conn max_batch queue_size lent w r =
    Leads-Stage (start (new_frame_writer conn max_batch queue_size lent)) w r (
      unfold new_frame_writer in
      record {
        queue_flags = refl;
        control_flags = refl;
        done_flags = refl;
        queue_empty = λ e. refl;
        control_empty = λ e. refl;
        loop_ends = λ e. cc;
        batch_empty = λ e. refl;
        is_closed = λ e. cc;
      })

-- When `Close` has returned and the write loop has ended, no frame waits in the queues or in the
-- batch, both counters are those of the senders that have not given up yet, and `done` is closed.
pub Reaches-finished :
    (conn : Sink) (max_batch queue_size lent : ℕ) (w : World)
    → Reaches (new_frame_writer conn max_batch queue_size lent) w
    → w.closing ≡ finished
    → w.loop ≡ stopped
    → (waiting w ≡ counted_frames w.senders)
      × (w.writer.queued_frames ≡ pos (length (counted_frames w.senders)))
      × (w.writer.queued_bytes ≡ pos (sum_by size_of (counted_frames w.senders)))
      × (w.writer.done.closed ≡ true)
Reaches-finished conn max_batch queue_size lent w r p q =
    let v = Reaches-Stage conn max_batch queue_size lent w r in
    let e : waiting w ≡ counted_frames w.senders =
      rw (q, v.queue_empty (ap q_drained p), v.control_empty (ap is_finished p), v.batch_empty q)
        (append-nil (counted_frames w.senders)) in
    let (m, b) = Reaches-waiting conn max_batch queue_size lent w r in
    (
      e,
      m ∙ ap (λ xs. pos (length xs)) e,
      b ∙ ap (λ xs. pos (sum_by size_of xs)) e,
      ap (λ f. f.0) v.done_flags ∙ ap is_finished p,
    )
