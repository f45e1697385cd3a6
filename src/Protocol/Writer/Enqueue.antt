-- ===== src/Protocol/Writer/Enqueue.antt =====
-- internal/shared/protocol/writer.go: what `WriteFrameWithCancel` and `WriteControl` return.
use tunl.Base.{◌<◌, ◌≤◌, ◌≡◌, true, false, Option, none, some, [], ◌∷◌, ◌++◌, length}
use tunl.Base.Int.{pos, ◌+ℤ◌, ◌-ℤ◌}
use tunl.Protocol.Frame.{Frame, WriteError}
use tunl.Protocol.Writer.{
  FrameWriter, Lane, data_lane, control_lane, SendError, write_failed, writer_closed,
  write_cancelled, write_timeout, control_timeout, Reason, has_room, is_done, is_cancelled,
  timed_out, lane_of, put_lane, size_of,
}

-- The counters with one more frame, and with one less.
abbrev pub one_more : Frame → FrameWriter → FrameWriter
one_more f w = record w {
  queued_frames = w.queued_frames +ℤ pos 1;
  queued_bytes = w.queued_bytes +ℤ pos (size_of f);
}

abbrev pub one_less : Frame → FrameWriter → FrameWriter
one_less f w = record w {
  queued_frames = w.queued_frames -ℤ pos 1;
  queued_bytes = w.queued_bytes -ℤ pos (size_of f);
}

-- The writer with a frame, which bears its mark, at the end of a queue.
abbrev pub appended : Lane → Frame → FrameWriter → FrameWriter
appended l f w =
    put_lane l
      (record (lane_of l w) {
        items = (lane_of l w).items ++ (record f { queued_bytes = size_of f } ∷ []);
      })
      w

-- The error of a writer that is closed: what ended it, if something did.
pub data ClosedBy (w : FrameWriter) : SendError → Type 0 where
  by_error : (x : WriteError) → w.write_err ≡ some x → ClosedBy w (write_failed x)
  by_close : w.write_err ≡ none → ClosedBy w writer_closed

-- What became of a call on the queue of `l`. `later` is the writer when its wait ended.
pub data Outcome (l : Lane) (f : Frame) (r : Reason) (w later : FrameWriter)
    : FrameWriter × Option SendError → Type 0 where
  refused : (e : SendError) → w.closed ≡ true → ClosedBy w e → Outcome l f r w later (w, some e)
  queued :
      w.closed ≡ false
      → length (lane_of l w).items < (lane_of l w).cap
      → Outcome l f r w later (appended l f (one_more f w), none)
  queued_later :
      w.closed ≡ false
      → (lane_of l w).cap ≤ length (lane_of l w).items
      → r ≡ has_room
      → Outcome l f r w later (appended l f later, none)
  ended :
      (e : SendError)
      → w.closed ≡ false
      → (lane_of l w).cap ≤ length (lane_of l w).items
      → r ≡ is_done
      → ClosedBy later e
      → Outcome l f r w later (one_less f later, some e)
  cancelled :
      w.closed ≡ false
      → (lane_of l w).cap ≤ length (lane_of l w).items
      → r ≡ is_cancelled
      → Outcome l f r w later (one_less f later, some write_cancelled)
  data_late :
      w.closed ≡ false
      → (lane_of l w).cap ≤ length (lane_of l w).items
      → (r ≡ timed_out) × (l ≡ data_lane)
      → Outcome l f r w later (one_less f later, some write_timeout)
  control_late :
      w.closed ≡ false
      → (lane_of l w).cap ≤ length (lane_of l w).items
      → (r ≡ timed_out) × (l ≡ control_lane)
      → Outcome l f r w later (one_less f later, some control_timeout)
