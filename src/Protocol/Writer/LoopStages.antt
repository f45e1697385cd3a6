-- ===== src/Protocol/Writer/LoopStages.antt =====
-- internal/shared/protocol/writer.go: the stages through the steps of the senders and of the write loop.
use tunl.Base.{
  ℕ, ◌≡◌, refl, sym, ap, subst, inl, inr, Bool, true, false, [], ◌∷◌, ◌++◌, if◌then◌else◌,
  Option-cases,
}
use tunl.Base.Channel
use tunl.Base.Channel.{Channel}
use tunl.Protocol.Frame.{Frame}
use tunl.Protocol.Writer.{
  FrameWriter, Lane, data_lane, control_lane, lane_of, uncount, flush_batch, mark_queued, push,
  give_up, add_to_batch, beat,
}
use tunl.Protocol.Writer.Steps.{
  Loop, looks, waits, stopping, stopped, World, Closing, SendStep, begins, counts, pushes, panics,
  gives_up, LoopStep, takes_control, control_ends, finds_none, writes_control, takes_data,
  queue_ends, batches, ticks, beats, hears, sees_done, stops,
}
use tunl.Protocol.Writer.Backlog.{flush_frame-parts, flush_batch-parts}
use tunl.Protocol.Writer.Stage.{
  q_closed, ended, Stage, later, elsewhere, q_closed-drained, k_closed-finished, q_closed-k_closed,
  flush_frame-closed, flush_batch-closed, flushed,
}

abbrev pub StageOf : World → Type 0
StageOf w = Stage w.closing w.loop w.writer

send_open :
    (x : Frame) (c : Channel Frame)
    → c.closed ≡ false
    → Channel.send x c ≡ record c { items = c.items ++ (x ∷ []) }
send_open x c e =
    ap (λ b. if b then record c { panicked = true } else record c { items = c.items ++ (x ∷ []) }) e

push-Stage :
    (c : Closing) (l : Loop) (n : Lane) (x : Frame) (w : FrameWriter)
    → (lane_of n w).closed ≡ false
    → Stage c l w
    → Stage c l (push n x w)
unfolding push
push-Stage c l data_lane x w o v =
    subst (λ q. Stage c l (record w { queue = q })) (sym (send_open x w.queue o))
      (later c l l w _ refl refl refl
        (λ d e. absurd (cc (q_closed-drained c d, ap (λ p. p.0) v.queue_flags, o))) (λ d e. e)
        v.loop_ends v.batch_empty (λ e. e) v)
push-Stage c l control_lane x w o v =
    subst (λ q. Stage c l (record w { control_queue = q })) (sym (send_open x w.control_queue o))
      (later c l l w _ refl refl refl (λ d e. e)
        (λ d e. absurd (cc (k_closed-finished c d, ap (λ p. p.0) v.control_flags, o))) v.loop_ends
        v.batch_empty (λ e. e) v)

pub SendStep-Stage : (w w' : World) → SendStep w w' → StageOf w → StageOf w'
SendStep-Stage w w' (begins l f e) v = v
SendStep-Stage w w' (counts before after l x e) v =
    unfold mark_queued in
    elsewhere w.closing w.loop w.loop w.writer _ refl refl refl v.loop_ends v.batch_empty (λ e. e) v
SendStep-Stage w w' (pushes before after l x e o r) v = push-Stage w.closing w.loop l x w.writer o v
SendStep-Stage w w' (panics before after l x e o) v = v
SendStep-Stage w w' (gives_up before after l x e) v =
    unfold give_up uncount in
    elsewhere w.closing w.loop w.loop w.writer _ refl refl refl v.loop_ends v.batch_empty (λ e. e) v

-- The write loop turns to another place.
turns :
    (l' : Loop) (w : World)
    → (ended l' ≡ true → q_closed w.closing ≡ true)
    → (l' ≡ stopped → w.writer.batch ≡ [])
    → StageOf w
    → Stage w.closing l' w.writer
turns l' w le be v = elsewhere w.closing w.loop l' w.writer w.writer refl refl refl le be (λ e. e) v

pub if-Stage :
    (c : Closing) (l : Loop) (b : Bool) (w w' : FrameWriter)
    → Stage c l w
    → Stage c l w'
    → Stage c l (if b then w else w')
if-Stage c l true w w' v v' = v
if-Stage c l false w w' v v' = v'

add_to_batch-Stage :
    (x : Frame) (w : World) → StageOf w → Stage w.closing looks (add_to_batch x w.writer)
unfolding add_to_batch
add_to_batch-Stage x w v =
    let more = record w.writer { batch = w.writer.batch ++ (x ∷ []) } in
    if-Stage w.closing looks _ (flush_batch more) more
      (flushed w.closing w.loop looks [] w.writer _ (flush_batch-parts more) (λ e. cc) (λ e. cc)
        (flush_batch-closed more) v)
      (elsewhere w.closing w.loop looks w.writer more refl refl refl (λ e. cc) (λ e. cc) (λ e. e) v)

beat-Stage : (now : ℕ) (w : World) → StageOf w → Stage w.closing looks (beat now w.writer)
unfolding beat
beat-Stage now w v = elim (Option-cases w.writer.heartbeat_callback) [
  | inl e ↦ rw (e, beat) (turns looks w (λ e. cc) (λ e. cc) v)
  | inr (c, e) ↦ elim (Option-cases (c now)) [
    | inl r ↦ rw (e, beat, r, beat) (turns looks w (λ e. cc) (λ e. cc) v)
    | inr (x, r) ↦
        rw (e, beat, r, beat)
          (flushed w.closing w.loop looks w.writer.batch w.writer _ (flush_frame-parts x w.writer)
            (λ e. cc) (λ e. cc) (flush_frame-closed x w.writer) v)
  ]
]

pub LoopStep-Stage : (w w' : World) → LoopStep w w' → StageOf w → StageOf w'
LoopStep-Stage w w' (takes_control x rest p e) v =
    later w.closing w.loop _ w.writer _ refl refl refl (λ d q. q) (λ d q. absurd (cc (e, q)))
      (λ e. cc) (λ e. cc) (λ e. e) v
LoopStep-Stage w w' (control_ends p e c) v =
    turns stopping w (λ s. q_closed-k_closed w.closing (cc (c, ap (λ p. p.0) v.control_flags)))
      (λ e. cc) v
LoopStep-Stage w w' (finds_none p e c) v = turns waits w (λ e. cc) (λ e. cc) v
LoopStep-Stage w w' (writes_control x p) v =
    flushed w.closing w.loop looks w.writer.batch w.writer _ (flush_frame-parts x w.writer)
      (λ e. cc) (λ e. cc) (flush_frame-closed x w.writer) v
LoopStep-Stage w w' (takes_data x rest p e) v =
    later w.closing w.loop _ w.writer _ refl refl refl (λ d q. absurd (cc (e, q))) (λ d q. q)
      (λ e. cc) (λ e. cc) (λ e. e) v
LoopStep-Stage w w' (queue_ends p e c) v =
    turns stopping w (λ s. cc (c, ap (λ p. p.0) v.queue_flags)) (λ e. cc) v
LoopStep-Stage w w' (batches x p) v = add_to_batch-Stage x w v
LoopStep-Stage w w' (ticks p) v =
    flushed w.closing w.loop looks [] w.writer _ (flush_batch-parts w.writer) (λ e. cc) (λ e. cc)
      (flush_batch-closed w.writer) v
LoopStep-Stage w w' (beats now p) v = beat-Stage now w v
LoopStep-Stage w w' (hears rest p e) v =
    elsewhere w.closing w.loop looks w.writer _ refl refl refl (λ e. cc) (λ e. cc) (λ e. e) v
LoopStep-Stage w w' (sees_done p c) v =
    turns stopping w
      (λ s.
        q_closed-k_closed w.closing
          (k_closed-finished w.closing (cc (c, ap (λ p. p.0) v.done_flags))))
      (λ e. cc) v
LoopStep-Stage w w' (stops p) v =
    flushed w.closing w.loop stopped [] w.writer _ (flush_batch-parts w.writer)
      (λ e. v.loop_ends (rw p refl)) (λ e. refl) (flush_batch-closed w.writer) v
