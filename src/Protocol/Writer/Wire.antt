-- ===== src/Protocol/Writer/Wire.antt =====
-- internal/shared/protocol/writer.go: what a batch puts on the wire.
use mathlib.Core.List.{append-nil, append_assoc}
use tunl.Base.{
  ℕ, ◌-◌, ◌≤◌, ◌≡◌, refl, sym, ap, ◌∙◌, ◌≢◌, ◌↔◌, inl, inr, none, List, [], ◌∷◌, ◌++◌, arith,
  Option-cases, Text, length, take, length-append, take-append, take-nil, All,
}
use tunl.Protocol.Frame.{Frame, Sink, write_frame, WriteError, max_frame_size}
use tunl.Protocol.Frame.RoundTrip.{encode, write_frame-encode}
use tunl.Protocol.Writer.{
  FrameWriter, discard, flush_frame, flush_all, flush_batch, unmark_queued, uncount, note_error,
  call_hook, put_on_wire,
}

-- The bytes of several frames.
abbrev pub encode_all : List Frame → Text
encode_all [] = []
encode_all (f ∷ fs) = encode f ++ encode_all fs

-- A connection that got some bytes, as many as it still took.
abbrev pub took : Text → Sink → Sink
took bs s = record { out = s.out ++ take s.room bs; room = s.room - length bs }

took-append : (xs ys : Text) (s : Sink) → took ys (took xs s) ≡ took (xs ++ ys) s
took-append xs ys s =
    ap (λ (p : Text × ℕ). record { out = p.0; room = p.1 })
      (ap (λ o. (o, s.room - length xs - length ys))
          (append_assoc s.out (take s.room xs) (take (s.room - length xs) ys)
            ∙ ap (◌++◌ s.out) (sym (take-append s.room xs ys)))
        ∙ ap (λ n. (s.out ++ take s.room (xs ++ ys), n)) (omega (arith, length-append xs ys)))

note_error-wire :
    (e : WriteError) (w : FrameWriter)
    → ((note_error e w).conn ≡ w.conn) × ((note_error e w).write_err ≢ none)
unfolding note_error
note_error-wire e w = elim (Option-cases w.write_err) [
  | inl r ↦ rw (r, note_error) (refl, λ q. cc)
  | inr (x, r) ↦ rw (r, note_error) (refl, λ q. cc (q, r))
]

put_on_wire-wire :
    (f : Frame) (w : FrameWriter)
    → ((put_on_wire f w).conn ≡ (write_frame w.conn f).0)
      × (((put_on_wire f w).write_err ≡ none)
          ↔ ((w.write_err ≡ none) × ((write_frame w.conn f).1 ≡ none)))
unfolding put_on_wire
put_on_wire-wire f w = elim (Option-cases (write_frame w.conn f).1) [
  | inl r ↦ rw (r, put_on_wire) (refl, ((λ q. (q, refl)), (λ p. p.0)))
  | inr (x, r) ↦
      let n = note_error-wire x (record w { conn = (write_frame w.conn f).0 }) in
      rw (r, put_on_wire) (n.0, ((λ q. absurd (n.1 q)), (λ p. absurd (cc (p.1)))))
]

discard-wire :
    (f : Frame) (w : FrameWriter)
    → ((discard f w).conn ≡ w.conn) × ((discard f w).write_err ≡ w.write_err)
unfolding discard unmark_queued uncount
discard-wire f w = ground arith

flush_frame-wire :
    (f : Frame) (w : FrameWriter)
    → length f.payload ≤ max_frame_size
    → ((flush_frame f w).conn ≡ took (encode f) w.conn)
      × (((flush_frame f w).write_err ≡ none)
          ↔ ((w.write_err ≡ none) × (length (encode f) ≤ w.conn.room)))
unfolding flush_frame call_hook
flush_frame-wire f w h =
    let d = discard-wire f (put_on_wire f (call_hook f w)) in
    let p = put_on_wire-wire f (call_hook f w) in
    let e = write_frame-encode w.conn f h in
    (
      d.0 ∙ p.0 ∙ e.0,
      (
        (λ q. let (a, b) = p.1.0 (sym d.1 ∙ q) in (a, e.1.0 b)),
        (λ q. d.1 ∙ p.1.1 (q.0, e.1.1 q.1)),
      ),
    )

took-nil : (s : Sink) → took [] s ≡ s
took-nil s =
    ap (λ (p : Text × ℕ). record { out = p.0; room = p.1 })
      (ap (λ t. (s.out ++ t, s.room - 0)) (take-nil s.room)
        ∙ ap (λ o. (o, s.room - 0)) (append-nil s.out)
        ∙ ap (λ n. (s.out, n)) (omega arith))

flush_all-wire :
    (fs : List Frame) (w : FrameWriter)
    → All (λ f. length f.payload ≤ max_frame_size) fs
    → ((flush_all fs w).conn ≡ took (encode_all fs) w.conn)
      × (((flush_all fs w).write_err ≡ none)
          ↔ ((w.write_err ≡ none) × (length (encode_all fs) ≤ w.conn.room)))
unfolding flush_all
flush_all-wire [] w h = (sym (took-nil w.conn), ((λ q. (q, omega arith)), (λ q. q.0)))
flush_all-wire (f ∷ fs) w h =
    let one = flush_frame-wire f w h.0 in
    let more = flush_all-wire fs (flush_frame f w) h.1 in
    let room : (flush_frame f w).conn.room ≡ w.conn.room - length (encode f) =
      ap (λ s. s.room) one.0 in
    let sizes = length-append (encode f) (encode_all fs) in
    (
      more.0 ∙ ap (took (encode_all fs)) one.0 ∙ took-append (encode f) (encode_all fs) w.conn,
      (
        (λ q.
            let (a, b) = more.1.0 q in
            let (c, d) = one.1.0 a in (c, omega (arith, b, d, room, sizes))),
        (λ q. more.1.1 (one.1.1 (q.0, omega (arith, q.1, sizes)), omega (arith, q.1, room, sizes))),
      ),
    )

-- When the write loop writes a batch of frames of at most 1 MB each, the connection gets their bytes
-- in the order of the batch, or, if it fails on the way, the first `room` bytes of them and nothing
-- later; the batch is empty then, and there is a write error exactly if there was one before or the
-- connection failed.
pub flush_batch-encode_all :
    (w : FrameWriter)
    → All (λ f. length f.payload ≤ max_frame_size) w.batch
    → ((flush_batch w).conn ≡ took (encode_all w.batch) w.conn)
      × ((flush_batch w).batch ≡ [])
      × (((flush_batch w).write_err ≡ none)
          ↔ ((w.write_err ≡ none) × (length (encode_all w.batch) ≤ w.conn.room)))
unfolding flush_batch
flush_batch-encode_all w h = let (a, b) = flush_all-wire w.batch w h in (a, refl, b)
