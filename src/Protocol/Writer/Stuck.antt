-- ===== src/Protocol/Writer/Stuck.antt =====
-- internal/shared/protocol/writer.go: a writer that a write error closed.
use tunl.Base.{
  ℕ, ◌≡◌, refl, ap, ◌∙◌, ◌≢◌, inl, inr, Bool, true, false, [], ◌∷◌, ◌++◌, if◌then◌else◌,
  Option-cases,
}
use tunl.Protocol.Frame.{Frame, Sink}
use tunl.Protocol.Writer.{
  new_frame_writer, FrameWriter, Lane, data_lane, control_lane, uncount, flush_batch, mark_queued,
  push, give_up, add_to_batch, beat, flush, enable_heartbeat, disable_heartbeat,
  set_write_error_handler, enable_adaptive_flush, disable_adaptive_flush, set_pre_write_hook,
}
use tunl.Protocol.Writer.Steps.{
  stopping, stopped, World, Setting, not_yet, heartbeat_on, heartbeat_off, adaptive_off,
  adaptive_on, error_handler, write_hook, apply, SendStep, begins, counts, pushes, panics, gives_up,
  LoopStep, takes_control, control_ends, finds_none, writes_control, takes_data, queue_ends,
  batches, ticks, beats, hears, sees_done, stops, CallStep, marks_closed, closes_queue,
  closes_control, drops_data, ends_queue, drops_control, finishes, flushes, sets, Reaches, Leads,
  stays, sends, loops, calls,
}
use tunl.Protocol.Writer.Stage.{
  q_closed, k_closed, is_finished, ended, flush_frame-closed, flush_batch-closed,
}
use tunl.Protocol.Writer.Shutdown.{Leads-Stage, Reaches-Stage}

-- The first write error closed the writer before `Close` was called.
pub record IsStuck (w : World) : Type 0 where
  pub is_closed : w.writer.closed ≡ true
  pub not_closing : w.closing ≡ not_yet

if-closed :
    (b : Bool) (w w' : FrameWriter)
    → w.closed ≡ true
    → w'.closed ≡ true
    → (if b then w else w').closed ≡ true
if-closed true w w' c c' = c
if-closed false w w' c c' = c'

push-closed : (l : Lane) (x : Frame) (w : FrameWriter) → (push l x w).closed ≡ w.closed
unfolding push
push-closed data_lane x w = refl
push-closed control_lane x w = refl

apply-closed : (s : Setting) (w : FrameWriter) → (apply s w).closed ≡ w.closed
unfolding apply enable_heartbeat disable_heartbeat set_write_error_handler enable_adaptive_flush
    disable_adaptive_flush set_pre_write_hook
apply-closed (heartbeat_on i f) w = refl
apply-closed heartbeat_off w = refl
apply-closed adaptive_off w = refl
apply-closed (adaptive_on n) w = refl
apply-closed (error_handler b) w = refl
apply-closed (write_hook b) w = refl

beat-closed : (now : ℕ) (w : FrameWriter) → w.closed ≡ true → (beat now w).closed ≡ true
unfolding beat
beat-closed now w c = elim (Option-cases w.heartbeat_callback) [
  | inl e ↦ rw (e, beat) c
  | inr (f, e) ↦ elim (Option-cases (f now)) [
    | inl r ↦ rw (e, beat, r, beat) c
    | inr (x, r) ↦ rw (e, beat, r, beat) (flush_frame-closed x w c)
  ]
]

add_to_batch-closed :
    (x : Frame) (w : FrameWriter) → w.closed ≡ true → (add_to_batch x w).closed ≡ true
unfolding add_to_batch
add_to_batch-closed x w c =
    let more : FrameWriter = record w { batch = w.batch ++ (x ∷ []) } in
    if-closed _ (flush_batch more) more (flush_batch-closed more c) c

SendStep-IsStuck : (w w' : World) → SendStep w w' → IsStuck w → IsStuck w'
SendStep-IsStuck w w' (begins l f e) v = record {
  is_closed = v.is_closed;
  not_closing = v.not_closing;
}
SendStep-IsStuck w w' (counts before after l x e) v = record {
  is_closed = unfold mark_queued in v.is_closed;
  not_closing = v.not_closing;
}
SendStep-IsStuck w w' (pushes before after l x e o r) v = record {
  is_closed = push-closed l x w.writer ∙ v.is_closed;
  not_closing = v.not_closing;
}
SendStep-IsStuck w w' (panics before after l x e o) v = record {
  is_closed = v.is_closed;
  not_closing = v.not_closing;
}
SendStep-IsStuck w w' (gives_up before after l x e) v = record {
  is_closed = unfold give_up uncount in v.is_closed;
  not_closing = v.not_closing;
}

LoopStep-IsStuck : (w w' : World) → LoopStep w w' → IsStuck w → IsStuck w'
LoopStep-IsStuck w w' (takes_control x rest p e) v = record {
  is_closed = v.is_closed;
  not_closing = v.not_closing;
}
LoopStep-IsStuck w w' (control_ends p e c) v = record {
  is_closed = v.is_closed;
  not_closing = v.not_closing;
}
LoopStep-IsStuck w w' (finds_none p e c) v = record {
  is_closed = v.is_closed;
  not_closing = v.not_closing;
}
LoopStep-IsStuck w w' (writes_control x p) v = record {
  is_closed = flush_frame-closed x w.writer v.is_closed;
  not_closing = v.not_closing;
}
LoopStep-IsStuck w w' (takes_data x rest p e) v = record {
  is_closed = v.is_closed;
  not_closing = v.not_closing;
}
LoopStep-IsStuck w w' (queue_ends p e c) v = record {
  is_closed = v.is_closed;
  not_closing = v.not_closing;
}
LoopStep-IsStuck w w' (batches x p) v = record {
  is_closed = add_to_batch-closed x w.writer v.is_closed;
  not_closing = v.not_closing;
}
LoopStep-IsStuck w w' (ticks p) v = record {
  is_closed = flush_batch-closed w.writer v.is_closed;
  not_closing = v.not_closing;
}
LoopStep-IsStuck w w' (beats now p) v = record {
  is_closed = beat-closed now w.writer v.is_closed;
  not_closing = v.not_closing;
}
LoopStep-IsStuck w w' (hears rest p e) v = record {
  is_closed = v.is_closed;
  not_closing = v.not_closing;
}
LoopStep-IsStuck w w' (sees_done p c) v = record {
  is_closed = v.is_closed;
  not_closing = v.not_closing;
}
LoopStep-IsStuck w w' (stops p) v = record {
  is_closed = flush_batch-closed w.writer v.is_closed;
  not_closing = v.not_closing;
}

CallStep-IsStuck : (w w' : World) → CallStep w w' → IsStuck w → IsStuck w'
CallStep-IsStuck w w' (marks_closed p e) v = absurd (cc (e, v.is_closed))
CallStep-IsStuck w w' (closes_queue p) v = absurd (cc (p, v.not_closing))
CallStep-IsStuck w w' (closes_control p) v = absurd (cc (p, v.not_closing))
CallStep-IsStuck w w' (drops_data x rest p e) v = absurd (cc (p, v.not_closing))
CallStep-IsStuck w w' (ends_queue p e) v = absurd (cc (p, v.not_closing))
CallStep-IsStuck w w' (drops_control x rest p e) v = absurd (cc (p, v.not_closing))
CallStep-IsStuck w w' (finishes p e) v = absurd (cc (p, v.not_closing))
CallStep-IsStuck w w' flushes v =
    let x = w.writer in
    let drained : FrameWriter = record x {
      batch = x.batch ++ x.queue.items;
      queue = record x.queue { items = [] };
    } in
    record {
      is_closed =
          unfold flush in
          if-closed w.writer.closed w.writer _ v.is_closed (flush_batch-closed drained v.is_closed);
      not_closing = v.not_closing;
    }
CallStep-IsStuck w w' (sets s g) v = record {
  is_closed = apply-closed s w.writer ∙ v.is_closed;
  not_closing = v.not_closing;
}

pub Leads-IsStuck : (u w : World) → Leads u w → IsStuck u → IsStuck w
Leads-IsStuck u x stays s = s
Leads-IsStuck u x (sends v w r t) s = SendStep-IsStuck v w t (Leads-IsStuck u v r s)
Leads-IsStuck u x (loops v w r t) s = LoopStep-IsStuck v w t (Leads-IsStuck u v r s)
Leads-IsStuck u x (calls v w r t) s = CallStep-IsStuck v w t (Leads-IsStuck u v r s)

-- Once a write error has closed a writer whose `Close` was not called before, `Close` never runs: in
-- every later state the queues and `done` are open and the write loop has not ended.
pub Leads-not_closed :
    (conn : Sink) (max_batch queue_size lent : ℕ) (u w : World)
    → Reaches (new_frame_writer conn max_batch queue_size lent) u
    → IsStuck u
    → Leads u w
    → IsStuck w
      × (w.loop ≢ stopping)
      × (w.loop ≢ stopped)
      × (w.writer.queue.closed ≡ false)
      × (w.writer.control_queue.closed ≡ false)
      × (w.writer.done.closed ≡ false)
Leads-not_closed conn max_batch queue_size lent u w r s l =
    let t = Leads-IsStuck u w l s in
    let v = Leads-Stage u w l (Reaches-Stage conn max_batch queue_size lent u r) in
    let n = t.not_closing in
    (
      t,
      (λ e. cc (v.loop_ends (ap ended e), ap q_closed n)),
      (λ e. cc (v.loop_ends (ap ended e), ap q_closed n)),
      ap (λ f. f.0) v.queue_flags ∙ ap q_closed n,
      ap (λ f. f.0) v.control_flags ∙ ap k_closed n,
      ap (λ f. f.0) v.done_flags ∙ ap is_finished n,
    )
