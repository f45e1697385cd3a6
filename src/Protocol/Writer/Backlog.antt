-- ===== src/Protocol/Writer/Backlog.antt =====
-- internal/shared/protocol/writer.go: what the operations do to the counters of the backlog.
use tunl.Base.{
  ℕ, ◌+◌, ◌≡◌, refl, ap, ◌∙◌, inl, inr, Option, List, [], ◌∷◌, arith, ◌==◌, if◌then◌else◌,
  Bool-cases, Option-cases, sum_by,
}
use tunl.Base.Channel.{Channel}
use tunl.Base.Int.{ℤ, pos, ◌+ℤ◌, ◌-ℤ◌}
use tunl.Protocol.Frame.{Frame, write_frame, WriteError}
use tunl.Protocol.Writer.{
  FrameWriter, size_of, uncount, unmark_queued, note_error, call_hook, put_on_wire, discard,
  flush_frame, flush_all, flush_batch, mark_queued,
}

-- Whether a frame is counted, as a number.
abbrev pub marked : Frame → ℕ
marked f = if f.queued_bytes == 0 then 0 else 1

abbrev pub mark : Frame → ℕ
mark f = f.queued_bytes

-- The counters stand at `q` frames and `b` bytes.
pub record Counts (q b : ℕ) (w : FrameWriter) : Type 0 where
  pub frames : w.queued_frames ≡ pos q
  pub bytes : w.queued_bytes ≡ pos b

pub Counts-eq : (q q' b b' : ℕ) (w : FrameWriter) → q ≡ q' → b ≡ b' → Counts q b w → Counts q' b' w
Counts-eq q q' b b' w e e' c = record { frames = c.frames ∙ ap pos e; bytes = c.bytes ∙ ap pos e' }

sub_pos : (z : ℤ) (n k : ℕ) → z ≡ pos (n + k) → z -ℤ pos n ≡ pos k
unfolding ◌-ℤ◌
sub_pos z n k e = rw e (ground arith)

add_pos : (z : ℤ) (n k : ℕ) → z ≡ pos k → z +ℤ pos n ≡ pos (n + k)
unfolding ◌+ℤ◌
add_pos z n k e = rw e (ground arith)

pub uncount-Counts :
    (n q b : ℕ) (w : FrameWriter) → Counts (1 + q) (n + b) w → Counts q b (uncount n w)
unfolding uncount
uncount-Counts n q b w c = record {
  frames = sub_pos w.queued_frames 1 q c.frames;
  bytes = sub_pos w.queued_bytes n b c.bytes;
}

unmark_queued-Counts :
    (f : Frame) (q b : ℕ) (w : FrameWriter)
    → Counts (marked f + q) (mark f + b) w
    → Counts q b (unmark_queued f w)
unfolding unmark_queued
unmark_queued-Counts f q b w c = elim (Bool-cases (f.queued_bytes == 0)) [
  | inl e ↦ rw e (Counts-eq _ q _ b w (rw e (omega arith)) (ground arith) c)
  | inr e ↦ rw e (uncount-Counts (mark f) q b w (Counts-eq _ _ _ _ w (rw e refl) refl c))
]

pub discard-Counts :
    (f : Frame) (q b : ℕ) (w : FrameWriter)
    → Counts (marked f + q) (mark f + b) w
    → Counts q b (discard f w)
unfolding discard
discard-Counts f q b w c =
    let u = unmark_queued-Counts f q b w c in record { frames = u.frames; bytes = u.bytes }

-- What a write leaves as it was.
abbrev pub parts :
    FrameWriter
    → Channel Frame × Channel Frame × List Frame × Option (ℕ → Option Frame) × Channel (Unit {0})
parts w = (w.queue, w.control_queue, w.batch, w.heartbeat_callback, w.done)

note_error-untouched :
    (e : WriteError) (w : FrameWriter)
    → (parts (note_error e w) ≡ parts w)
      × ((note_error e w).queued_frames ≡ w.queued_frames)
      × ((note_error e w).queued_bytes ≡ w.queued_bytes)
unfolding note_error
note_error-untouched e w = elim (Option-cases w.write_err) [
  | inl r ↦ rw (r, note_error) (refl, refl, refl)
  | inr (x, r) ↦ rw (r, note_error) (refl, refl, refl)
]

put_on_wire-untouched :
    (f : Frame) (w : FrameWriter)
    → (parts (put_on_wire f w) ≡ parts w)
      × ((put_on_wire f w).queued_frames ≡ w.queued_frames)
      × ((put_on_wire f w).queued_bytes ≡ w.queued_bytes)
unfolding put_on_wire
put_on_wire-untouched f w = elim (Option-cases (write_frame w.conn f).1) [
  | inl r ↦ rw (r, put_on_wire) (refl, refl, refl)
  | inr (x, r) ↦ rw (r, put_on_wire) (note_error-untouched x _)
]

pub discard-parts : (f : Frame) (w : FrameWriter) → parts (discard f w) ≡ parts w
unfolding discard unmark_queued uncount
discard-parts f w = ground arith

pub flush_frame-parts : (f : Frame) (w : FrameWriter) → parts (flush_frame f w) ≡ parts w
unfolding flush_frame call_hook
flush_frame-parts f w = discard-parts f _ ∙ (put_on_wire-untouched f (call_hook f w)).0

pub flush_frame-Counts :
    (f : Frame) (q b : ℕ) (w : FrameWriter)
    → Counts (marked f + q) (mark f + b) w
    → Counts q b (flush_frame f w)
unfolding flush_frame call_hook
flush_frame-Counts f q b w c =
    let u = put_on_wire-untouched f (call_hook f w) in
    discard-Counts f q b _ (record { frames = u.1 ∙ c.frames; bytes = u.2 ∙ c.bytes })

flush_all-parts : (fs : List Frame) (w : FrameWriter) → parts (flush_all fs w) ≡ parts w
unfolding flush_all
flush_all-parts [] w = refl
flush_all-parts (f ∷ fs) w = flush_all-parts fs (flush_frame f w) ∙ flush_frame-parts f w

flush_all-Counts :
    (fs : List Frame) (q b : ℕ) (w : FrameWriter)
    → Counts (sum_by marked fs + q) (sum_by mark fs + b) w
    → Counts q b (flush_all fs w)
unfolding flush_all
flush_all-Counts [] q b w c = Counts-eq _ q _ b w (omega arith) (omega arith) c
flush_all-Counts (f ∷ fs) q b w c =
    flush_all-Counts fs q b (flush_frame f w)
      (flush_frame-Counts f _ _ w (Counts-eq _ _ _ _ w (omega arith) (omega arith) c))

-- A batch that is flushed has left the counters.
pub flush_batch-Counts :
    (q b : ℕ) (w : FrameWriter)
    → Counts (sum_by marked w.batch + q) (sum_by mark w.batch + b) w
    → Counts q b (flush_batch w)
unfolding flush_batch
flush_batch-Counts q b w c =
    let u = flush_all-Counts w.batch q b w c in record { frames = u.frames; bytes = u.bytes }

pub flush_batch-parts : (w : FrameWriter) → parts (flush_batch w) ≡ parts (record w { batch = [] })
unfolding flush_batch
flush_batch-parts w = ap (λ p. (p.0, p.1, [], p.3, p.4)) (flush_all-parts w.batch w)

pub mark_queued-Counts :
    (f : Frame) (q b : ℕ) (w : FrameWriter)
    → Counts q b w
    → Counts (1 + q) (size_of f + b) (mark_queued f w).1
unfolding mark_queued
mark_queued-Counts f q b w c = record {
  frames = add_pos w.queued_frames 1 q c.frames;
  bytes = add_pos w.queued_bytes (size_of f) b c.bytes;
}
