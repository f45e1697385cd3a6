-- ===== src/Protocol/Writer/Exact.antt =====
-- internal/shared/protocol/writer.go: the counters of the backlog in every interleaving.
use tunl.Base.{
  ℕ, ◌+◌, ◌≡◌, refl, sym, ap, ◌∙◌, inl, inr, Bool, true, false, Option, some, [], ◌∷◌, ◌++◌, arith,
  ◌==◌, if◌then◌else◌, ==_iff, Option-cases, length, sum_by, sum_by-append,
}
use tunl.Base.Int.{pos}
use tunl.Protocol.Frame.{Frame}
use tunl.Protocol.Writer.{
  FrameWriter, size_of, uncount, discard, flush_frame, flush_batch, mark_queued, give_up,
  add_to_batch, beat, flush,
}
use tunl.Protocol.Writer.Backlog.{
  marked, mark, Counts, Counts-eq, uncount-Counts, discard-Counts, discard-parts,
  flush_frame-Counts, flush_frame-parts, flush_batch-Counts, flush_batch-parts, mark_queued-Counts,
  parts,
}

-- Whether a frame has another mark than its size, as a number.
abbrev pub odd : Frame → ℕ
odd f = if f.queued_bytes == size_of f then 0 else 1

-- The sum of `f` over the frames in the queues and in the batch.
abbrev pub inside : (Frame → ℕ) → FrameWriter → ℕ
inside f w = sum_by f w.queue.items + (sum_by f w.control_queue.items + sum_by f w.batch)

-- The counters of a writer, and its frames, where `away` are the sums over the frames that its
-- goroutines have.
pub record Sound (away : (Frame → ℕ) → ℕ) (w : FrameWriter) : Type 0 where
  pub counts : Counts (away marked + inside marked w) (away mark + inside mark w) w
  pub even : away odd + inside odd w ≡ 0
  pub fresh :
      (c : ℕ → Option Frame)
      → w.heartbeat_callback ≡ some c
      → (now : ℕ) (f : Frame) → c now ≡ some f
      → f.queued_bytes ≡ 0

-- Frames that move from one place to another.
pub moves :
    (away away' : (Frame → ℕ) → ℕ) (w w' : FrameWriter)
    → ((f : Frame → ℕ) → away f + inside f w ≡ away' f + inside f w')
    → w'.queued_frames ≡ w.queued_frames
    → w'.queued_bytes ≡ w.queued_bytes
    → w'.heartbeat_callback ≡ w.heartbeat_callback
    → Sound away w
    → Sound away' w'
moves away away' w w' e q b h s = record {
  counts = record {
    frames = q ∙ s.counts.frames ∙ ap pos (e marked);
    bytes = b ∙ s.counts.bytes ∙ ap pos (e mark);
  };
  even = omega (arith, e odd, s.even);
  fresh = λ c r. s.fresh c (sym h ∙ r);
}

-- Frames that leave the counters.
leaves :
    (away away' gone : (Frame → ℕ) → ℕ) (w w' : FrameWriter)
    → ((f : Frame → ℕ) → away f + inside f w ≡ gone f + (away' f + inside f w'))
    → ((q b : ℕ) → Counts (gone marked + q) (gone mark + b) w → Counts q b w')
    → w'.heartbeat_callback ≡ w.heartbeat_callback
    → Sound away w
    → Sound away' w'
leaves away away' gone w w' e go h s = record {
  counts = go _ _ (Counts-eq _ _ _ _ w (e marked) (e mark) s.counts);
  even = omega (arith, e odd, s.even);
  fresh = λ c r. s.fresh c (sym h ∙ r);
}

inside-parts : (f : Frame → ℕ) (w w' : FrameWriter) → parts w ≡ parts w' → inside f w ≡ inside f w'
inside-parts f w w' e = ap (λ p. sum_by f p.0.items + (sum_by f p.1.items + sum_by f p.2)) e

pub flush_frame-Sound :
    (away : (Frame → ℕ) → ℕ) (x : Frame) (w : FrameWriter)
    → Sound (λ f. f x + away f) w
    → Sound away (flush_frame x w)
flush_frame-Sound away x w s =
    leaves _ away (λ f. f x) w _
      (λ f. omega (arith, inside-parts f (flush_frame x w) w (flush_frame-parts x w)))
      (λ q b. flush_frame-Counts x q b w) (ap (λ p. p.3) (flush_frame-parts x w)) s

pub discard-Sound :
    (away : (Frame → ℕ) → ℕ) (x : Frame) (w : FrameWriter)
    → Sound (λ f. f x + away f) w
    → Sound away (discard x w)
discard-Sound away x w s =
    leaves _ away (λ f. f x) w _
      (λ f. omega (arith, inside-parts f (discard x w) w (discard-parts x w)))
      (λ q b. discard-Counts x q b w) (ap (λ p. p.3) (discard-parts x w)) s

pub flush_batch-Sound :
    (away : (Frame → ℕ) → ℕ) (w : FrameWriter) → Sound away w → Sound away (flush_batch w)
flush_batch-Sound away w s =
    leaves away away (λ f. sum_by f w.batch) w _
      (λ f.
        omega
          (arith, inside-parts f (flush_batch w) (record w { batch = [] }) (flush_batch-parts w)))
      (λ q b. flush_batch-Counts q b w) (ap (λ p. p.3) (flush_batch-parts w)) s

pub mark-odd : (x : Frame) → odd x ≡ 0 → x.queued_bytes ≡ size_of x
mark-odd x e = ground (arith, ==_iff x.queued_bytes (size_of x))

pub marked-odd : (x : Frame) → odd x ≡ 0 → marked x ≡ 1
unfolding size_of
marked-odd x e = let m = mark-odd x e in rw m (ground arith)

pub give_up-Sound :
    (away : (Frame → ℕ) → ℕ) (x : Frame) (w : FrameWriter)
    → Sound (λ f. f x + away f) w
    → Sound away (give_up x w)
unfolding give_up uncount
give_up-Sound away x w s =
    let even : odd x ≡ 0 = omega (arith, s.even) in
    leaves _ away (λ f. f x) w _ (λ f. omega arith)
      (λ q b c.
        uncount-Counts (size_of x) q b w (
          Counts-eq _ _ _ _ w (omega (arith, marked-odd x even)) (omega (arith, mark-odd x even))
            c))
      refl s

if-Sound :
    (away : (Frame → ℕ) → ℕ) (c : Bool) (w w' : FrameWriter)
    → Sound away w
    → Sound away w'
    → Sound away (if c then w else w')
if-Sound away true w w' s s' = s
if-Sound away false w w' s s' = s'

pub add_to_batch-Sound :
    (away : (Frame → ℕ) → ℕ) (x : Frame) (w : FrameWriter)
    → Sound (λ f. f x + away f) w
    → Sound away (add_to_batch x w)
unfolding add_to_batch
add_to_batch-Sound away x w s =
    let w' = record w { batch = w.batch ++ (x ∷ []) } in
    let s' : Sound away w' =
      moves _ away w w' (λ f. omega (arith, sum_by-append f w.batch (x ∷ []))) refl refl refl s in
    if-Sound away _ _ _ (flush_batch-Sound away w' s') s'

pub beat-Sound :
    (away : (Frame → ℕ) → ℕ) (now : ℕ) (w : FrameWriter) → Sound away w → Sound away (beat now w)
unfolding beat
beat-Sound away now w s = elim (Option-cases w.heartbeat_callback) [
  | inl e ↦ rw (e, beat) s
  | inr (c, e) ↦ elim (Option-cases (c now)) [
    | inl r ↦ rw (e, beat, r, beat) s
    | inr (x, r) ↦
        rw (e, beat, r, beat)
          (leaves away away (λ f. 0) w _
            (λ f. omega (arith, inside-parts f (flush_frame x w) w (flush_frame-parts x w)))
            (λ q b k. flush_frame-Counts x q b w (
              Counts-eq _ _ _ _ w (ground (arith, s.fresh c e now x r))
                (omega (arith, s.fresh c e now x r)) k))
            (ap (λ p. p.3) (flush_frame-parts x w)) s)
  ]
]

pub flush-Sound : (away : (Frame → ℕ) → ℕ) (w : FrameWriter) → Sound away w → Sound away (flush w)
unfolding flush
flush-Sound away w s =
    let drained : FrameWriter = record w {
      batch = w.batch ++ w.queue.items;
      queue = record w.queue { items = [] };
    } in
    if-Sound away w.closed w (flush_batch drained) s (
      flush_batch-Sound away drained (
        moves away away w drained (λ f. omega (arith, sum_by-append f w.batch w.queue.items)) refl
          refl refl s))

-- A frame after `mark_queued`.
mark_queued-marks :
    (x : Frame) (w : FrameWriter)
    → (marked (mark_queued x w).0 ≡ 1)
      × (mark (mark_queued x w).0 ≡ size_of x)
      × (odd (mark_queued x w).0 ≡ 0)
unfolding mark_queued size_of
mark_queued-marks x w =
    (ground arith, refl, ground (arith, ==_iff (length x.payload + 5) (length x.payload + 5)))

pub mark_queued-Sound :
    (away : (Frame → ℕ) → ℕ) (x : Frame) (w : FrameWriter)
    → Sound away w
    → Sound (λ f. f (mark_queued x w).0 + away f) (mark_queued x w).1
mark_queued-Sound away x w s =
    let x' = (mark_queued x w).0 in
    let w' = (mark_queued x w).1 in
    let e = mark_queued-marks x w in
    let i : (f : Frame → ℕ) → inside f w' ≡ inside f w = λ f. unfold mark_queued in refl in
    record {
      counts =
          Counts-eq (1 + (away marked + inside marked w))
            (marked x' + away marked + inside marked w') (size_of x + (away mark + inside mark w))
            (mark x' + away mark + inside mark w') w' (omega (arith, e.0, i marked))
            (omega (arith, e.1, i mark)) (mark_queued-Counts x _ _ w s.counts);
      even = omega (arith, s.even, e.2, i odd);
      fresh = unfold mark_queued in s.fresh;
    }
