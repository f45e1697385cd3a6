-- ===== src/Protocol/Frame/RoundTrip.antt =====
-- internal/shared/protocol/frame.go: what `ReadFrame` makes of what `WriteFrame` wrote.
use mathlib.Core.List.{append-nil, append_assoc}
use tunl.Base.{
  ℕ, ◌+◌, ◌-◌, ◌/◌, ◌%◌, ◌^◌, ◌≤◌, ◌<◌, ◌≡◌, ◌↔◌, refl, ap, ◌∙◌, Option, none, some, [], ◌∷◌, ◌++◌,
  arith, ltb, ◌==◌, if◌then◌else◌, Text, length, take, ok, length-append, take-append_length,
  drop-append_length, take_all, take-append, take_none, take-nil, length_zero, Bool-cases, inl, inr,
}
use tunl.Protocol.Pool.{size_large, get_buffer, capacity}
use tunl.Protocol.Frame.{
  Frame, Sink, too_large, max_frame_size, write_frame, header_of, uint32, sink_write, read_full,
  read_body, read_frame, new_frame, new_frame_pooled,
}

-- The bytes of a frame on the wire.
abbrev pub encode : Frame → Text
encode f = header_of f ++ f.payload

-- The pooled buffer that a payload of `n` bytes is read into.
abbrev pub buffer_for : ℕ → Option ℕ
buffer_for n =
    if n == 0 then none else if ltb size_large n then none else some (capacity (get_buffer n))

-- The frame that arrives.
abbrev pub received : Frame → Frame
received f = record {
  frame_type = f.frame_type;
  payload = f.payload;
  pool_buffer = buffer_for (length f.payload);
  queued_bytes = 0;
}

abbrev pub lent_by : Option ℕ → ℕ
lent_by none = 0
lent_by (some cap) = 1

uint32-put_uint32 :
    (n : ℕ)
    → n ≤ max_frame_size
    → uint32
        (n % 2 ^ 32 / 2 ^ 24 % 256)
        (n % 2 ^ 32 / 2 ^ 16 % 256)
        (n % 2 ^ 32 / 2 ^ 8 % 256)
        (n % 2 ^ 32 % 256)
      ≡ n
unfolding uint32
uint32-put_uint32 n h = omega arith

length-header_of : (f : Frame) → length (header_of f) ≡ 5
unfolding header_of
length-header_of f = refl

read_full-append : (p rest : Text) → read_full (length p) (p ++ rest) ≡ ok (p, rest)
unfolding read_full
read_full-append p rest =
    ground (arith, length-append p rest, take-append_length p rest, drop-append_length p rest)

read_body-append :
    (t : ℕ) (p rest : Text) (lent : ℕ)
    → read_body t (length p) (p ++ rest) lent ≡ (
      ok (received (new_frame t p)),
      record { input = rest; lent = lent + lent_by (buffer_for (length p)) },
    )
unfolding read_body new_frame new_frame_pooled
read_body-append t [] rest lent = ground arith
read_body-append t (b ∷ p) rest lent = elim (Bool-cases (ltb size_large (length (b ∷ p)))) [
  | inl e ↦ rw (read_full-append (b ∷ p) rest) (rw e (ground arith))
  | inr e ↦ rw (read_full-append (b ∷ p) rest) (rw e (ground arith))
]

pub read_frame-encode :
    (f : Frame) (rest : Text) (lent : ℕ)
    → length f.payload ≤ max_frame_size
    → read_frame (record { input = encode f ++ rest; lent = lent }) ≡ (
      ok (received f),
      record { input = rest; lent = lent + lent_by (buffer_for (length f.payload)) },
    )
unfolding read_frame header_of
read_frame-encode f rest lent h = ground (
  arith,
  uint32-put_uint32 (length f.payload) h,
  read_body-append f.frame_type f.payload rest lent,
)

-- `WriteFrame` takes every frame of at most 1 MB, and the writer gets its header and its payload.
-- Where the writer fails on the way, it has got the first `room` bytes of these, and the call
-- returns an error.
pub write_frame-encode :
    (w : Sink) (f : Frame)
    → length f.payload ≤ max_frame_size
    → ((write_frame w f).0
        ≡ record { out = w.out ++ take w.room (encode f); room = w.room - length (encode f) })
      × (((write_frame w f).1 ≡ none) ↔ (length (encode f) ≤ w.room))
unfolding write_frame sink_write
write_frame-encode w f h =
    let hd = header_of f in
    ground (
      arith,
      length-header_of f,
      length-append hd f.payload,
      take-append w.room hd f.payload,
      take_all w.room hd,
      length_zero f.payload,
      take_none (w.room - length hd) f.payload,
      take-nil {A = ℕ} (w.room - length hd),
      append-nil (take w.room hd),
      append-nil hd,
      append_assoc w.out hd (take (w.room - length hd) f.payload),
    )

-- A longer payload is refused, and nothing is written.
pub write_frame_too_large :
    (w : Sink) (f : Frame)
    → max_frame_size < length f.payload
    → write_frame w f ≡ (w, some (too_large (length f.payload)))
unfolding write_frame
write_frame_too_large w f h = ground arith

-- `ReadFrame` reads back the type and the payload of a frame of at most 1 MB from what `WriteFrame`
-- wrote to a writer that did not fail, and leaves whatever follows. The payload lies in a pooled
-- buffer, which is then lent out, if it has 1 byte to 256 KB.
pub read_frame-write_frame :
    (w : Sink) (f : Frame) (rest : Text) (lent : ℕ)
    → length f.payload ≤ max_frame_size
    → (write_frame w f).1 ≡ none
    → (bs : Text) × ((write_frame w f).0.out ≡ w.out ++ bs)
      × (read_frame (record { input = bs ++ rest; lent = lent }) ≡ (
        ok (received f),
        record { input = rest; lent = lent + lent_by (buffer_for (length f.payload)) },
      ))
read_frame-write_frame w f rest lent h e =
    let (now, sent) = write_frame-encode w f h in
    (
      encode f,
      ap (λ s. s.out) now ∙ ap (◌++◌ w.out) (take_all w.room (encode f) (sent.0 e)),
      read_frame-encode f rest lent h,
    )
