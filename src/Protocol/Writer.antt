-- ===== src/Protocol/Writer.antt =====
-- internal/shared/protocol/writer.go: frames wait in two queues and in a batch until the write loop
-- writes them. What one goroutine does under the lock, or by one channel or atomic operation, is one
-- function. `queued_frames` and `queued_bytes` are int64 counters that the theorems keep at sums of
-- sizes, so they are integers here. `hooked` and `notified` record the calls of the two callbacks,
-- `lent` is the number of pooled buffers that are lent out.
pub mod Steps
pub mod Backlog
pub mod Exact
pub mod Reachable
pub mod Stage
pub mod LoopStages
pub mod Wire
pub mod Enqueue
pub mod Shutdown
pub mod Stuck
use tunl.Base.{
  ℕ, ◌+◌, ◌≡◌, refl, Bool, true, false, ◌&&◌, ◌||◌, Option, none, some, List, [], ◌∷◌, ◌++◌, ltb,
  leb, ◌==◌, if◌then◌else◌, length,
}
use Prim.Native.Nat.{min}
use tunl.Base.Int.{ℤ, pos, ◌+ℤ◌, ◌-ℤ◌}
use tunl.Base.Channel
use tunl.Base.Channel.{Channel}
use tunl.Protocol.Frame.{Frame, frame_header_size, Sink, WriteError, write_frame, release}

pub record FrameWriter : Type 0 where
  pub conn : Sink
  pub queue : Channel Frame
  pub control_queue : Channel Frame
  pub batch : List Frame
  pub closed : Bool
  pub done : Channel (Unit {0})
  pub max_batch : ℕ
  pub heartbeat_interval : ℕ
  pub heartbeat_callback : Option (ℕ → Option Frame)
  pub heartbeat_enabled : Bool
  pub heartbeat_control : Channel (Unit {0})
  pub write_err : Option WriteError
  pub on_write_error : Bool
  pub adaptive_flush : Bool
  pub low_concurrency_threshold : ℕ
  pub pre_write_hook : Bool
  pub queued_frames : ℤ
  pub queued_bytes : ℤ
  pub hooked : List Frame
  pub notified : List WriteError
  pub lent : ℕ

-- The two queues, for data and for control frames.
pub data Lane : Type 0 where
  data_lane control_lane : Lane

pub data SendError : Type 0 where
  write_failed : WriteError → SendError
  writer_closed write_cancelled write_timeout control_timeout : SendError

-- `NewFrameWriterWithConfig`, with the pooled buffers that are lent out by then.
unfoldable pub new_frame_writer : Sink → ℕ → ℕ → ℕ → FrameWriter
new_frame_writer conn max_batch queue_size lent = record {
  conn = conn;
  queue = Channel.make queue_size;
  control_queue = Channel.make (if ltb queue_size 256 then queue_size else 256);
  batch = [];
  closed = false;
  done = Channel.make 0;
  max_batch = max_batch;
  heartbeat_interval = 0;
  heartbeat_callback = none;
  heartbeat_enabled = false;
  heartbeat_control = Channel.make 1;
  write_err = none;
  on_write_error = false;
  adaptive_flush = false;
  low_concurrency_threshold = 0;
  pre_write_hook = false;
  queued_frames = pos 0;
  queued_bytes = pos 0;
  hooked = [];
  notified = [];
  lent = lent;
}

unfoldable pub size_of : Frame → ℕ
size_of f = length f.payload + frame_header_size

-- The counters, when a frame of `size` bytes leaves.
unfoldable pub uncount : ℕ → FrameWriter → FrameWriter
uncount size w = record w {
  queued_frames = w.queued_frames -ℤ pos 1;
  queued_bytes = w.queued_bytes -ℤ pos size;
}

unfoldable pub unmark_queued : Frame → FrameWriter → FrameWriter
unfolding uncount
unmark_queued f w = if f.queued_bytes == 0 then w else uncount f.queued_bytes w

-- The first error closes the writer and is told to the handler; later ones are dropped.
unfoldable pub note_error : WriteError → FrameWriter → FrameWriter
note_error e w = elim w.write_err [
  | some first ↦ w
  | none ↦ record w {
    write_err = some e;
    notified = if w.on_write_error then w.notified ++ (e ∷ []) else w.notified;
    closed = true;
  }
]

unfoldable pub call_hook : Frame → FrameWriter → FrameWriter
call_hook f w = record w { hooked = if w.pre_write_hook then w.hooked ++ (f ∷ []) else w.hooked }

-- `WriteFrame` on the connection.
unfoldable pub put_on_wire : Frame → FrameWriter → FrameWriter
unfolding note_error
put_on_wire f w =
    let (conn, e) = write_frame w.conn f in
    let w' = record w { conn = conn } in elim e [ none ↦ w' | some x ↦ note_error x w' ]

-- A frame that is written or discarded leaves the counters and gives its buffer back.
unfoldable pub discard : Frame → FrameWriter → FrameWriter
unfolding unmark_queued
discard f w =
    let w' = unmark_queued f w in
    record w' { lent = (release (record f { queued_bytes = 0 }) w'.lent).1 }

unfoldable pub flush_frame : Frame → FrameWriter → FrameWriter
unfolding call_hook put_on_wire discard
flush_frame f w = discard f (put_on_wire f (call_hook f w))

unfoldable pub flush_all : List Frame → FrameWriter → FrameWriter
unfolding flush_frame
flush_all [] w = w
flush_all (f ∷ fs) w = flush_all fs (flush_frame f w)

unfoldable pub flush_batch : FrameWriter → FrameWriter
unfolding flush_all
flush_batch w = record (flush_all w.batch w) { batch = [] }

-- The error of a writer that is closed.
unfoldable pub closed_error : FrameWriter → SendError
closed_error w = elim w.write_err [ none ↦ writer_closed | some e ↦ write_failed e ]

-- The first part of `WriteFrameWithCancel` and of `WriteControl`, under the lock.
unfoldable pub check_open : FrameWriter → Option SendError
unfolding closed_error
check_open w = if w.closed then some (closed_error w) else none

-- The counters, when a frame comes, and the frame with its mark.
unfoldable pub mark_queued : Frame → FrameWriter → Frame × FrameWriter
unfolding size_of
mark_queued f w = (
  record f { queued_bytes = size_of f },
  record w {
    queued_frames = w.queued_frames +ℤ pos 1;
    queued_bytes = w.queued_bytes +ℤ pos (size_of f);
  },
)

abbrev pub lane_of : Lane → FrameWriter → Channel Frame
lane_of data_lane w = w.queue
lane_of control_lane w = w.control_queue

abbrev pub put_lane : Lane → Channel Frame → FrameWriter → FrameWriter
put_lane data_lane c w = record w { queue = c }
put_lane control_lane c w = record w { control_queue = c }

unfoldable pub push : Lane → Frame → FrameWriter → FrameWriter
push l f w = put_lane l (Channel.send f (lane_of l w)) w

-- Every error path of `WriteFrameWithCancel` and of `WriteControl` after the frame was counted.
unfoldable pub give_up : Frame → FrameWriter → FrameWriter
unfolding uncount size_of
give_up f w = uncount (size_of f) w

-- The write loop puts a frame that it took from the queue in the batch.
unfoldable pub add_to_batch : Frame → FrameWriter → FrameWriter
unfolding flush_batch
add_to_batch f w =
    let w' = record w { batch = w.batch ++ (f ∷ []) } in
    if leb w.max_batch (length w'.batch)
      || w.adaptive_flush && leb (length w.queue.items) w.low_concurrency_threshold
    then flush_batch w'
    else w'

-- The heartbeat at time `now`.
unfoldable pub beat : ℕ → FrameWriter → FrameWriter
unfolding flush_frame
beat now w = elim w.heartbeat_callback [
  | none ↦ w
  | some callback ↦ elim (callback now) [ none ↦ w | some f ↦ flush_frame f w ]
]

-- `Flush` holds the lock while it drains the queue; a frame that is sent or taken meanwhile counts as
-- sent or taken before.
unfoldable pub flush : FrameWriter → FrameWriter
unfolding flush_batch
flush w =
    if w.closed
    then w
    else flush_batch
        (record w { batch = w.batch ++ w.queue.items; queue = record w.queue { items = [] } })

-- A receiver that is ready keeps one signal.
abbrev signal : Channel (Unit {0}) → Channel (Unit {0})
signal c = if ltb (length c.items) c.cap then Channel.send tt c else c

unfoldable pub enable_heartbeat : ℕ → (ℕ → Option Frame) → FrameWriter → FrameWriter
enable_heartbeat interval callback w = record w {
  heartbeat_interval = interval;
  heartbeat_callback = some callback;
  heartbeat_enabled = true;
  heartbeat_control = signal w.heartbeat_control;
}

unfoldable pub disable_heartbeat : FrameWriter → FrameWriter
disable_heartbeat w = record w {
  heartbeat_enabled = false;
  heartbeat_control = signal w.heartbeat_control;
}

unfoldable pub set_write_error_handler : Bool → FrameWriter → FrameWriter
set_write_error_handler handler w = record w { on_write_error = handler }

unfoldable pub enable_adaptive_flush : ℕ → FrameWriter → FrameWriter
enable_adaptive_flush threshold w = record w {
  adaptive_flush = true;
  low_concurrency_threshold = threshold;
}

unfoldable pub disable_adaptive_flush : FrameWriter → FrameWriter
disable_adaptive_flush w = record w { adaptive_flush = false }

unfoldable pub set_pre_write_hook : Bool → FrameWriter → FrameWriter
set_pre_write_hook hook w = record w { pre_write_hook = hook }

-- `NewFrameWriter`.
unfoldable pub default_writer : Sink → ℕ → FrameWriter
unfolding enable_adaptive_flush new_frame_writer
default_writer conn lent = enable_adaptive_flush 16 (new_frame_writer conn 256 4096 lent)

-- What ends the wait of a caller whose queue is full: room, the end of the writer, the channel that
-- cancels (if the caller gave one), or the time (if it gave none).
pub data Reason : Type 0 where
  has_room is_done is_cancelled timed_out : Reason

unfoldable pub wait_error : Lane → Reason → FrameWriter → Option SendError
unfolding closed_error
wait_error l has_room w = none
wait_error l is_done w = some (closed_error w)
wait_error l is_cancelled w = some write_cancelled
wait_error data_lane timed_out w = some write_timeout
wait_error control_lane timed_out w = some control_timeout

-- The blocking `select` of a caller, whose wait `r` ends; `w` is the writer by then.
unfoldable pub wait : Lane → Frame → Frame → Reason → FrameWriter → FrameWriter × Option SendError
unfolding push give_up wait_error
wait l f f' r w = elim (wait_error l r w) [
  | none ↦ (push l f' w, none)
  | some e ↦ (give_up f w, some e)
]

-- A call that finds the writer as `w`. If the queue is full it waits, and `others` is what the other
-- goroutines do to the writer in the meantime, until `r` ends the wait.
unfoldable pub enqueue :
    Lane
    → Frame
    → Reason
    → (FrameWriter → FrameWriter)
    → FrameWriter
    → FrameWriter × Option SendError
unfolding check_open mark_queued push wait
enqueue l f r others w = elim (check_open w) [
  | some e ↦ (w, some e)
  | none ↦
      let (f', w') = mark_queued f w in
      if Channel.ready (lane_of l w') then (push l f' w', none) else wait l f f' r (others w')
]

unfoldable pub write_frame_with_cancel :
    Frame → Reason → (FrameWriter → FrameWriter) → FrameWriter → FrameWriter × Option SendError
unfolding enqueue
write_frame_with_cancel f r others w = enqueue data_lane f r others w

unfoldable pub write_control :
    Frame → Reason → (FrameWriter → FrameWriter) → FrameWriter → FrameWriter × Option SendError
unfolding enqueue
write_control f r others w = enqueue control_lane f r others w
