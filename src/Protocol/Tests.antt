-- ===== src/Protocol/Tests.antt =====
-- internal/shared/pool and internal/shared/protocol: runs at concrete inputs.
use tunl.Base.{
  ◌+◌, ◌-◌, ◌≤◌, ◌≡◌, refl, ◌↔◌, none, some, [], ◌∷◌, ◌++◌, arith, Text, text_eq, nat_eq, length,
  take, ok, err,
}
use tunl.Base.{◌≢◌, List, sum_by, true, false}
use tunl.Base.Int.{pos}
use tunl.Base.Channel
use tunl.Protocol.Writer.{
  FrameWriter, control_lane, new_frame_writer, mark_queued, push, flush_frame, flush_batch, size_of,
}
use tunl.Protocol.Writer.Steps.{
  Loop, Closing, control_ends, looks, stopping, stopped, has_control, World, Reaches, start, stays,
  sends, loops, calls, sender, begins, counts, pushes, takes_control, writes_control, marks_closed,
  closes_queue, closes_control, ends_queue, finishes, stops, marked_closed, queue_closed,
  drains_queue, drains_control, finished,
}
use tunl.Protocol.Writer.Reachable.{waiting, counted_frames, Reaches-waiting}
use tunl.Protocol.Writer.Wire.{took, encode_all, flush_batch-encode_all}
use tunl.Protocol.Writer.Shutdown.{Reaches-finished}
use tunl.Protocol.Writer.Stuck.{IsStuck, Leads-not_closed}
use tunl.Protocol.Pool.{Class, capacity, get_buffer, put_buffer, get_buffer_fits}
use tunl.Protocol.Frame.{
  Frame, Sink, Source, type_heartbeat, write_frame, read_frame, release, FrameError,
}
use tunl.Protocol.Frame.RoundTrip.{
  encode, received, buffer_for, lent_by, read_frame-write_frame, write_frame-encode,
}
use tunl.Protocol.Frame.Decode.{Reads, read_frame-Reads, read_frame-release}

get_buffer_fits_example :
    (5000 ≤ capacity (get_buffer 5000))
    × ((c : Class) → 5000 ≤ capacity c → capacity (get_buffer 5000) ≤ capacity c)
    × (put_buffer (capacity (get_buffer 5000)) ≡ some (get_buffer 5000))
get_buffer_fits_example = get_buffer_fits 5000 (omega arith)

abbrev beat : Frame
beat = record {
  frame_type = type_heartbeat;
  payload = 7 ∷ 8 ∷ [];
  pool_buffer = none;
  queued_bytes = 0;
}

abbrev wire : Sink
wire = record { out = 1 ∷ []; room = 100 }

sent : (write_frame wire beat).1 ≡ none
unfolding write_frame
sent = refl

bytes : encode beat ≡ 0 ∷ 0 ∷ 0 ∷ 2 ∷ 3 ∷ 7 ∷ 8 ∷ []
unfolding write_frame
bytes = refl

write_frame-encode_example :
    ((write_frame wire beat).0 ≡ record {
      out = wire.out ++ take wire.room (encode beat);
      room = wire.room - length (encode beat);
    })
    × (((write_frame wire beat).1 ≡ none) ↔ (length (encode beat) ≤ wire.room))
write_frame-encode_example = write_frame-encode wire beat (omega arith)

read_frame-write_frame_example :
    (bs : Text) × ((write_frame wire beat).0.out ≡ wire.out ++ bs)
    × (read_frame (record { input = bs ++ (9 ∷ []); lent = 3 }) ≡ (
      ok (received beat),
      record { input = 9 ∷ []; lent = 3 + lent_by (buffer_for (length beat.payload)) },
    ))
read_frame-write_frame_example = read_frame-write_frame wire beat (9 ∷ []) 3 (omega arith) sent

abbrev cut : Source
cut = record { input = 0 ∷ 0 ∷ 0 ∷ 2 ∷ 3 ∷ 7 ∷ []; lent = 1 }

read_frame-Reads_example : Reads cut (read_frame cut)
read_frame-Reads_example = read_frame-Reads cut (omega arith)

read_frame-release_example :
    ((e : FrameError) → (read_frame cut).0 ≡ err e → (read_frame cut).1.lent ≡ 1)
    × ((g : Frame) → (read_frame cut).0 ≡ ok g → (release g (read_frame cut).1.lent).1 ≡ 1)
read_frame-release_example = read_frame-release cut (omega arith)

-- A writer of a connection that fails after three bytes, with a sender of a heartbeat.
abbrev fresh : FrameWriter
fresh = new_frame_writer (record { out = []; room = 3 }) 8 4096 2

abbrev begun : World
begun = record (start fresh) { senders = sender control_lane beat false ∷ [] }

abbrev counted : World
counted = record begun {
  writer = (mark_queued beat fresh).1;
  senders = sender control_lane (mark_queued beat fresh).0 true ∷ [];
}

abbrev pushed : World
pushed = record counted {
  writer = push control_lane (mark_queued beat fresh).0 counted.writer;
  senders = [];
}

pushed_reached : Reaches fresh pushed
unfolding new_frame_writer mark_queued
pushed_reached =
    sends counted pushed
      (sends begun counted (sends (start fresh) begun stays (begins control_lane beat refl))
        (counts [] [] control_lane beat refl))
      (pushes [] [] control_lane (mark_queued beat fresh).0 refl refl refl)

Reaches-waiting_example :
    (pushed.writer.queued_frames ≡ pos (length (waiting pushed)))
    × (pushed.writer.queued_bytes ≡ pos (sum_by size_of (waiting pushed)))
Reaches-waiting_example =
    Reaches-waiting (record { out = []; room = 3 }) 8 4096 2 pushed pushed_reached

pushed_bytes : pushed.writer.queued_bytes ≡ pos 7
unfolding new_frame_writer mark_queued push tunl.Base.Int.◌+ℤ◌ size_of
pushed_bytes = refl

abbrev looked : World
looked = record pushed {
  writer = record pushed.writer {
    control_queue = record pushed.writer.control_queue { items = [] };
  };
  loop = has_control (mark_queued beat fresh).0;
}

abbrev failed : World
failed = record looked {
  writer = flush_frame (mark_queued beat fresh).0 looked.writer;
  loop = looks;
}

failed_reached : Reaches fresh failed
failed_reached =
    loops looked failed
      (loops pushed looked pushed_reached (
        takes_control (mark_queued beat fresh).0 [] refl
          (unfold new_frame_writer mark_queued push in refl)))
      (writes_control (mark_queued beat fresh).0 refl)

failed-IsStuck : IsStuck failed
failed-IsStuck = record {
  is_closed = unfold new_frame_writer mark_queued push flush_frame write_frame size_of in refl;
  not_closing = refl;
}

Leads-not_closed_example :
    IsStuck failed
    × (failed.loop ≢ stopping)
    × (failed.loop ≢ stopped)
    × (failed.writer.queue.closed ≡ false)
    × (failed.writer.control_queue.closed ≡ false)
    × (failed.writer.done.closed ≡ false)
Leads-not_closed_example =
    Leads-not_closed (record { out = []; room = 3 }) 8 4096 2 failed failed failed_reached
      failed-IsStuck stays

flush_batch-encode_all_example :
    ((flush_batch (record fresh { batch = beat ∷ beat ∷ [] })).conn
      ≡ took (encode_all (beat ∷ beat ∷ [])) (record { out = []; room = 3 }))
    × ((flush_batch (record fresh { batch = beat ∷ beat ∷ [] })).batch ≡ [])
    × (((flush_batch (record fresh { batch = beat ∷ beat ∷ [] })).write_err ≡ none) ↔ (
        ((record fresh { batch = beat ∷ beat ∷ [] }).write_err ≡ none)
        × (length (encode_all (beat ∷ beat ∷ [])) ≤ 3)))
unfolding new_frame_writer
flush_batch-encode_all_example =
    flush_batch-encode_all (record fresh { batch = beat ∷ beat ∷ [] })
      (omega arith, (omega arith, tt))

-- A writer that is closed at once.
abbrev shut_writer : FrameWriter
shut_writer = record fresh {
  closed = true;
  queue = Channel.close fresh.queue;
  control_queue = Channel.close fresh.control_queue;
}

abbrev closing_world : Loop → Closing → World
closing_world l c = record {
  writer = shut_writer;
  loop = l;
  senders = [];
  closing = c;
  crashed = false;
}

abbrev shut : World
shut = record (closing_world stopped finished) {
  writer = record (flush_batch shut_writer) { done = Channel.close (flush_batch shut_writer).done };
}

shut_reached : Reaches fresh shut
unfolding new_frame_writer flush_batch
shut_reached =
    calls (record (closing_world stopped drains_control) { writer = flush_batch shut_writer }) shut
      (loops (closing_world stopping drains_control) _
        (loops (closing_world looks drains_control) _
          (calls (closing_world looks drains_queue) _
            (calls
              (record (start fresh) {
                writer = record fresh { closed = true; queue = Channel.close fresh.queue };
                closing = queue_closed;
              })
              _
              (calls
                (record (start fresh) {
                  writer = record fresh { closed = true };
                  closing = marked_closed;
                })
                _ (calls (start fresh) _ stays (marks_closed refl refl)) (closes_queue refl))
              (closes_control refl))
            (ends_queue refl refl))
          (control_ends refl refl refl))
        (stops refl))
      (finishes refl refl)

Reaches-finished_example :
    (waiting shut ≡ counted_frames [])
    × (shut.writer.queued_frames ≡ pos (length (counted_frames [])))
    × (shut.writer.queued_bytes ≡ pos (sum_by size_of (counted_frames [])))
    × (shut.writer.done.closed ≡ true)
Reaches-finished_example =
    Reaches-finished (record { out = []; room = 3 }) 8 4096 2 shut shut_reached refl refl

-- A control queue that is full.
abbrev crowded : FrameWriter
crowded = record fresh { control_queue = record fresh.control_queue { items = beat ∷ []; cap = 1 } }

-- The wait ends when the frames have left the queue.
abbrev frames_leave : FrameWriter → FrameWriter
frames_leave w = record w { control_queue = record w.control_queue { items = [] } }
