-- ===== src/Protocol/Frame.antt =====
-- internal/shared/protocol/frame.go: a frame is four bytes of payload length, big endian, one byte
-- of type, and the payload.
pub mod RoundTrip
pub mod Decode
use tunl.Base.{
  ℕ, suc, ◌+◌, ◌-◌, ◌*◌, ◌/◌, ◌%◌, ◌^◌, ◌≤◌, ◌<◌, ◌≡◌, refl, Bool, true, false, Option, none, some,
  List, [], ◌∷◌, ◌++◌, arith, ltb, leb, ◌==◌, if◌then◌else◌, Text, length, take, drop, get_or, ok,
  err,
}
use tunl.Base.Result.{Result}
use tunl.Protocol.Pool.{size_large, get_buffer, capacity}

abbrev pub frame_header_size : ℕ
frame_header_size = 5

abbrev pub max_frame_size : ℕ
max_frame_size = 1 * 1024 * 1024

-- `FrameType` is a byte, of which these values have a name.
abbrev pub type_register : ℕ
type_register = 0x01

abbrev pub type_register_ack : ℕ
type_register_ack = 0x02

abbrev pub type_heartbeat : ℕ
type_heartbeat = 0x03

abbrev pub type_heartbeat_ack : ℕ
type_heartbeat_ack = 0x04

abbrev pub type_close : ℕ
type_close = 0x05

abbrev pub type_error : ℕ
type_error = 0x06

abbrev pub type_data_connect : ℕ
type_data_connect = 0x07

abbrev pub type_data_connect_ack : ℕ
type_data_connect_ack = 0x08

-- `pool_buffer` is the capacity of the pooled buffer that holds the payload, if one does.
pub record Frame : Type 0 where
  pub frame_type : ℕ
  pub payload : Text
  pub pool_buffer : Option ℕ
  pub queued_bytes : ℕ

unfoldable pub new_frame : ℕ → Text → Frame
new_frame t p = record { frame_type = t; payload = p; pool_buffer = none; queued_bytes = 0 }

unfoldable pub new_frame_pooled : ℕ → Text → Option ℕ → Frame
new_frame_pooled t p b = record { frame_type = t; payload = p; pool_buffer = b; queued_bytes = 0 }

-- An `io.Writer` that fails for good once it fails, as a TLS connection and a web socket do: the bytes
-- that it took, and how many it will still take before it fails. A write that fails may have taken a
-- part of its bytes.
pub record Sink : Type 0 where
  pub out : Text
  pub room : ℕ

unfoldable pub sink_write : Text → Sink → Sink × Bool
sink_write bs s =
    (record { out = s.out ++ take s.room bs; room = s.room - length bs }, leb (length bs) s.room)

pub data WriteError : Type 0 where
  too_large : ℕ → WriteError
  write_header write_body : WriteError

-- `binary.BigEndian.PutUint32` of `uint32(n)`.
unfoldable pub put_uint32 : ℕ → Text
put_uint32 n =
    let v = n % 2 ^ 32 in
    (v / 2 ^ 24 % 256) ∷ (v / 2 ^ 16 % 256) ∷ (v / 2 ^ 8 % 256) ∷ (v % 256) ∷ []

unfoldable pub uint32 : ℕ → ℕ → ℕ → ℕ → ℕ
uint32 a b c d = a * 2 ^ 24 + b * 2 ^ 16 + c * 2 ^ 8 + d

unfoldable pub header_of : Frame → Text
unfolding put_uint32
header_of f = put_uint32 (length f.payload) ++ (f.frame_type ∷ [])

-- `net.Buffers.WriteTo` writes the header and then the payload, and stops at the first error.
unfoldable pub write_frame : Sink → Frame → Sink × Option WriteError
unfolding header_of sink_write
write_frame w f =
    let n = length f.payload in
    let (w1, sent) = sink_write (header_of f) w in
    let (w2, sent_body) = sink_write f.payload w1 in
    if ltb max_frame_size n
    then (w, some (too_large n))
    else if n == 0
    then (w1, if sent then none else some write_header)
    else if sent
    then (w2, if sent_body then none else some write_body)
    else (w1, some write_body)

pub data ReadError : Type 0 where
  eof unexpected_eof : ReadError

pub data FrameError : Type 0 where
  read_header : ReadError → FrameError
  payload_too_large : ℕ → FrameError
  read_payload : ReadError → FrameError

-- An `io.Reader` over the bytes that are still to come, and how many pooled buffers are lent out.
pub record Source : Type 0 where
  pub input : Text
  pub lent : ℕ

abbrev short : Text → ReadError
short [] = eof
short (b ∷ bs) = unexpected_eof

-- `io.ReadFull`: all `n` bytes, or the error that the input ended.
unfoldable pub read_full : ℕ → Text → Result ReadError (Text × Text)
read_full n input =
    if leb n (length input) then ok (take n input, drop n input) else err (short input)

-- The payload goes into a new slice above 256 KB and into a pooled buffer below; a buffer whose
-- read fails is put back.
read_body : ℕ → ℕ → Text → ℕ → Result FrameError Frame × Source
unfolding read_full new_frame new_frame_pooled
read_body t n rest lent =
    if n == 0
    then (ok (new_frame t []), record { input = rest; lent = lent })
    else if ltb size_large n
    then elim (read_full n rest) [
      | ok (p, more) ↦ (ok (new_frame t p), record { input = more; lent = lent })
      | err e ↦ (err (read_payload e), record { input = []; lent = lent })
    ]
    else elim (read_full n rest) [
      | ok (p, more) ↦ (
        ok (new_frame_pooled t p (some (capacity (get_buffer n)))),
        record { input = more; lent = lent + 1 },
      )
      | err e ↦ (err (read_payload e), record { input = []; lent = lent })
    ]

unfoldable pub read_frame : Source → Result FrameError Frame × Source
unfolding read_full read_body uint32
read_frame s = elim (read_full frame_header_size s.input) [
  | err e ↦ (err (read_header e), record s { input = [] })
  | ok (h, rest) ↦
      let n = uint32 (get_or h 0 0) (get_or h 1 0) (get_or h 2 0) (get_or h 3 0) in
      if ltb max_frame_size n
      then (err (payload_too_large n), record s { input = rest })
      else read_body (get_or h 4 0) n rest s.lent
]

-- `Release` gives the pooled buffer back; the payload goes with it.
unfoldable pub release : Frame → ℕ → Frame × ℕ
release f lent = elim f.pool_buffer [
  | some cap ↦ (
    record { frame_type = f.frame_type; payload = []; pool_buffer = none; queued_bytes = 0 },
    lent - 1,
  )
  | none ↦ (record f { queued_bytes = 0 }, lent)
]
