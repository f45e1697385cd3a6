-- ===== src/Protocol/Writer/Steps.antt =====
-- internal/shared/protocol/writer.go: the goroutines around a frame writer. Each step is what one of
-- them does under the lock, or by one channel operation, or by the two atomic operations on the
-- counters; any of them may be next.
use tunl.Base.{ℕ, ◌≡◌, Bool, true, false, Option, some, List, [], ◌∷◌, ◌++◌, ltb, length}
use tunl.Base.Channel
use tunl.Base.Channel.{Channel}
use tunl.Protocol.Frame.{Frame}
use tunl.Protocol.Writer.{
  FrameWriter, Lane, lane_of, mark_queued, push, give_up, discard, flush_frame, flush_batch,
  add_to_batch, beat, flush, enable_heartbeat, disable_heartbeat, set_write_error_handler,
  enable_adaptive_flush, disable_adaptive_flush, set_pre_write_hook,
}

-- Where the write loop is: before it looks at the control queue, before the second `select`, with a
-- frame in its hands, or on its way out.
pub data Loop : Type 0 where
  looks waits stopping stopped : Loop
  has_control has_data : Frame → Loop

-- A goroutine in `WriteFrameWithCancel` or `WriteControl` that found the writer open, and whether it
-- has counted its frame.
pub record Sender : Type 0 where
  pub lane : Lane
  pub frame : Frame
  pub counted : Bool

-- The goroutine that closes the writer: only one finds it open.
pub data Closing : Type 0 where
  not_yet marked_closed queue_closed drains_queue drains_control finished : Closing

pub record World : Type 0 where
  pub writer : FrameWriter
  pub loop : Loop
  pub senders : List Sender
  pub closing : Closing
  pub crashed : Bool

abbrev pub sender : Lane → Frame → Bool → Sender
sender l f c = record { lane = l; frame = f; counted = c }

-- The settings that a caller changes under the lock.
pub data Setting : Type 0 where
  heartbeat_on : ℕ → (ℕ → Option Frame) → Setting
  heartbeat_off adaptive_off : Setting
  adaptive_on : ℕ → Setting
  error_handler write_hook : Bool → Setting

unfoldable pub apply : Setting → FrameWriter → FrameWriter
apply (heartbeat_on interval callback) w = enable_heartbeat interval callback w
apply heartbeat_off w = disable_heartbeat w
apply adaptive_off w = disable_adaptive_flush w
apply (adaptive_on threshold) w = enable_adaptive_flush threshold w
apply (error_handler b) w = set_write_error_handler b w
apply (write_hook b) w = set_pre_write_hook b w

-- A heartbeat callback makes new frames.
abbrev pub GivesFresh : Setting → Type 0
GivesFresh (heartbeat_on interval callback) =
    (now : ℕ) (f : Frame) → callback now ≡ some f → f.queued_bytes ≡ 0
GivesFresh s = Unit

-- A step of a caller of `WriteFrameWithCancel` or `WriteControl`. It gives up at the end of its
-- time, when it is cancelled, or when the writer is done. A send on a closed queue panics, which
-- ends the program.
pub data SendStep (w : World) : World → Type 0 where
  begins :
      (l : Lane) (f : Frame)
      → w.writer.closed ≡ false
      → SendStep w (record w { senders = sender l f false ∷ w.senders })
  counts :
      (before after : List Sender) (l : Lane) (f : Frame)
      → w.senders ≡ before ++ (sender l f false ∷ after)
      → SendStep w (record w {
        writer = (mark_queued f w.writer).1;
        senders = before ++ (sender l (mark_queued f w.writer).0 true ∷ after);
      })
  pushes :
      (before after : List Sender) (l : Lane) (f : Frame)
      → w.senders ≡ before ++ (sender l f true ∷ after)
      → (lane_of l w.writer).closed ≡ false
      → ltb (length (lane_of l w.writer).items) (lane_of l w.writer).cap ≡ true
      → SendStep w (record w { writer = push l f w.writer; senders = before ++ after })
  panics :
      (before after : List Sender) (l : Lane) (f : Frame)
      → w.senders ≡ before ++ (sender l f true ∷ after)
      → (lane_of l w.writer).closed ≡ true
      → SendStep w (record w { crashed = true })
  gives_up :
      (before after : List Sender) (l : Lane) (f : Frame)
      → w.senders ≡ before ++ (sender l f true ∷ after)
      → SendStep w (record w { writer = give_up f w.writer; senders = before ++ after })

-- A step of the write loop.
pub data LoopStep (w : World) : World → Type 0 where
  takes_control :
      (f : Frame) (rest : List Frame)
      → w.loop ≡ looks
      → w.writer.control_queue.items ≡ f ∷ rest
      → LoopStep w (record w {
        writer = record w.writer { control_queue = record w.writer.control_queue { items = rest } };
        loop = has_control f;
      })
  control_ends :
      w.loop ≡ looks
      → w.writer.control_queue.items ≡ []
      → w.writer.control_queue.closed ≡ true
      → LoopStep w (record w { loop = stopping })
  finds_none :
      w.loop ≡ looks
      → w.writer.control_queue.items ≡ []
      → w.writer.control_queue.closed ≡ false
      → LoopStep w (record w { loop = waits })
  writes_control :
      (f : Frame)
      → w.loop ≡ has_control f
      → LoopStep w (record w { writer = flush_frame f w.writer; loop = looks })
  takes_data :
      (f : Frame) (rest : List Frame)
      → w.loop ≡ waits
      → w.writer.queue.items ≡ f ∷ rest
      → LoopStep w (record w {
        writer = record w.writer { queue = record w.writer.queue { items = rest } };
        loop = has_data f;
      })
  queue_ends :
      w.loop ≡ waits
      → w.writer.queue.items ≡ []
      → w.writer.queue.closed ≡ true
      → LoopStep w (record w { loop = stopping })
  batches :
      (f : Frame)
      → w.loop ≡ has_data f
      → LoopStep w (record w { writer = add_to_batch f w.writer; loop = looks })
  ticks : w.loop ≡ waits → LoopStep w (record w { writer = flush_batch w.writer; loop = looks })
  beats :
      (now : ℕ)
      → w.loop ≡ waits
      → LoopStep w (record w { writer = beat now w.writer; loop = looks })
  hears :
      (rest : List (Unit {0}))
      → w.loop ≡ waits
      → w.writer.heartbeat_control.items ≡ tt ∷ rest
      → LoopStep w (record w {
        writer = record w.writer {
          heartbeat_control = record w.writer.heartbeat_control { items = rest };
        };
        loop = looks;
      })
  sees_done :
      w.loop ≡ waits → w.writer.done.closed ≡ true → LoopStep w (record w { loop = stopping })
  stops :
      w.loop ≡ stopping → LoopStep w (record w { writer = flush_batch w.writer; loop = stopped })

-- A step of `Close`, of `Flush`, or of a setter.
pub data CallStep (w : World) : World → Type 0 where
  marks_closed :
      w.closing ≡ not_yet
      → w.writer.closed ≡ false
      → CallStep w
          (record w { writer = record w.writer { closed = true }; closing = marked_closed })
  closes_queue :
      w.closing ≡ marked_closed
      → CallStep w (record w {
        writer = record w.writer { queue = Channel.close w.writer.queue };
        closing = queue_closed;
      })
  closes_control :
      w.closing ≡ queue_closed
      → CallStep w (record w {
        writer = record w.writer { control_queue = Channel.close w.writer.control_queue };
        closing = drains_queue;
      })
  drops_data :
      (f : Frame) (rest : List Frame)
      → w.closing ≡ drains_queue
      → w.writer.queue.items ≡ f ∷ rest
      → CallStep w (record w {
        writer = discard f (record w.writer { queue = record w.writer.queue { items = rest } });
      })
  ends_queue :
      w.closing ≡ drains_queue
      → w.writer.queue.items ≡ []
      → CallStep w (record w { closing = drains_control })
  drops_control :
      (f : Frame) (rest : List Frame)
      → w.closing ≡ drains_control
      → w.writer.control_queue.items ≡ f ∷ rest
      → CallStep w (record w {
        writer =
            discard f
              (record w.writer { control_queue = record w.writer.control_queue { items = rest } });
      })
  finishes :
      w.closing ≡ drains_control
      → w.writer.control_queue.items ≡ []
      → CallStep w (record w {
        writer = record w.writer { done = Channel.close w.writer.done };
        closing = finished;
      })
  flushes : CallStep w (record w { writer = flush w.writer })
  sets : (s : Setting) → GivesFresh s → CallStep w (record w { writer = apply s w.writer })

-- A new writer, before anyone uses it.
abbrev pub start : FrameWriter → World
start w = record { writer = w; loop = looks; senders = []; closing = not_yet; crashed = false }

-- The states that a state leads to, before a panic ends the program.
pub data Leads (u : World) : World → Type 0 where
  stays : Leads u u
  sends : (v w : World) → Leads u v → SendStep v w → Leads u w
  loops : (v w : World) → Leads u v → LoopStep v w → Leads u w
  calls : (v w : World) → Leads u v → CallStep v w → Leads u w

abbrev pub Reaches : FrameWriter → World → Type 0
Reaches w0 w = Leads (start w0) w
