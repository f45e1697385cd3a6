-- ===== src/Wsutil/Conn.antt =====
-- internal/shared/wsutil/conn.go: `Read`, `Write` and `Close`. The web socket is gorilla's: here it is
-- the messages that are still to come, after which it fails, and what was sent. How many bytes the
-- reader of a message gives at a time, and whether it reports the end with them, is an argument.
pub mod Stream
use tunl.Base.{
  ℕ, ◌≤◌, ◌≡◌, Bool, true, false, Option, none, some, List, [], ◌∷◌, ◌++◌, ltb, if◌then◌else◌,
  length, take, drop,
}
use Prim.Native.Nat.{min}
use tunl.Base.Result.{Result, ok, err}
use tunl.Base.Channel
use tunl.Base.Channel.{Channel}

pub record Message : Type 0 where
  pub is_binary : Bool
  pub payload : List ℕ

pub data Sent : Type 0 where
  binary : List ℕ → Sent
  close_frame hang_up : Sent

pub record Conn : Type 0 where
  pub reader : Option (List ℕ)
  pub messages : List Message
  pub sent : List Sent
  pub ping_stop : Channel (Unit {0})

unfoldable pub new_conn : List Message → Conn
new_conn messages = record {
  reader = none;
  messages = messages;
  sent = [];
  ping_stop = Channel.make 0;
}

-- The number of bytes that the reader puts into a buffer, from those that are left of the message, and
-- whether it says that the message has ended.
abbrev pub Reader : Type 0
Reader = List ℕ → ℕ → ℕ × Bool

-- What `io.Reader` promises: it does not give more than the buffer holds or than there is, the end comes
-- when nothing is left, and a buffer that is not empty gets something before it.
pub record IsReader (r : Reader) : Type 0 where
  pub within : (bytes : List ℕ) (k : ℕ) → (r bytes k).0 ≤ min k (length bytes)
  pub ends : (bytes : List ℕ) (k : ℕ) → (r bytes k).1 ≡ true → (r bytes k).0 ≡ length bytes
  pub moves : (bytes : List ℕ) (k : ℕ) → 1 ≤ k → (r bytes k).1 ≡ false → 1 ≤ (r bytes k).0

-- The part of `Conn` that `Read` changes, with the bytes that it returns.
abbrev pub ReadResult : Type 0
ReadResult = (Option (List ℕ) × List Message) × Result (Unit {0}) (List ℕ)

-- A read from the current message; `next` is what the following ones give.
unfoldable pub read_current : Reader → ℕ → List ℕ → List Message → ReadResult → ReadResult
read_current r k bytes messages next =
    let (n, ended) = r bytes k in
    if ended
    then if ltb 0 n then ((none, messages), ok (take n bytes)) else next
    else ((some (drop n bytes), messages), ok (take n bytes))

-- Messages that are not binary are skipped.
unfoldable pub read_next : Reader → ℕ → List Message → ReadResult
unfolding read_current
read_next r k [] = ((none, []), err tt)
read_next r k (m ∷ ms) =
    let next = read_next r k ms in if m.is_binary then read_current r k m.payload ms next else next

unfoldable pub read_part : Reader → ℕ → Option (List ℕ) → List Message → ReadResult
unfolding read_next read_current
read_part r k none messages = read_next r k messages
read_part r k (some bytes) messages = read_current r k bytes messages (read_next r k messages)

unfoldable pub read : Reader → ℕ → Conn → Conn × Result (Unit {0}) (List ℕ)
unfolding read_part
read r k c =
    let x = read_part r k c.reader c.messages in
    (record c { reader = x.0.0; messages = x.0.1 }, x.1)

-- A message is sent as a whole, or the web socket fails.
unfoldable pub write : Bool → List ℕ → Conn → Conn × Result (Unit {0}) ℕ
write fails p c =
    if fails then (c, err tt) else (record c { sent = c.sent ++ (binary p ∷ []) }, ok (length p))

unfoldable pub close_conn : Conn → Conn
close_conn c = record c {
  ping_stop = if c.ping_stop.closed then c.ping_stop else Channel.close c.ping_stop;
  sent = c.sent ++ (close_frame ∷ hang_up ∷ []);
}
