-- ===== src/Tunnel/Connection.antt =====
-- internal/server/tunnel/connection.go: one tunnel. Times (`time.Now()`) are arguments. The byte
-- counters are 64-bit words, read as signed numbers. Of the function that opens a stream the record
-- keeps whether it is set; what it returns is an argument. Writes to the web socket are left out.
pub mod Lifecycle
pub mod Streams
use tunl.Base.{
  ℕ, suc, ◌+◌, ◌-◌, ◌%◌, ◌^◌, ◌≡◌, refl, Bool, true, false, not, ◌&&◌, ◌||◌, Option, none, some,
  List, [], ◌∷◌, ltb, leb, ◌==◌, if◌then◌else◌, Text, text_beq, ok, err, length,
}
use tunl.Base.Int.{ℤ, pos, negsuc}
use tunl.Base.Result.{Result}
use tunl.Base.Channel
use tunl.Base.Channel.{Channel}
use tunl.Netutil.{Parsers}
use tunl.Netutil.Access.{IpAccessChecker, new_ip_access_checker, is_allowed, has_rules}

pub record ProxyAuth : Type 0 where
  pub enabled : Bool
  pub kind : Text
  pub password : Text
  pub token : Text

pub record Connection : Type 0 where
  pub subdomain : Text
  pub has_conn : Bool
  pub send_ch : Channel Text
  pub close_ch : Channel (Unit {0})
  pub last_active : ℕ
  pub closed : Bool
  pub conn_closed : Bool
  pub tunnel_type : Text
  pub remote_ip : Text
  pub bytes_in : ℕ
  pub bytes_out : ℕ
  pub active_connections : ℕ
  pub proxy_auth : Option ProxyAuth
  pub ip_access : Option IpAccessChecker
  pub has_open : Bool

pub data Error : Type 0 where
  connection_closed send_timeout : Error

unfoldable pub new_connection : Text → Bool → ℕ → Connection
new_connection subdomain has_conn now = record {
  subdomain = subdomain;
  has_conn = has_conn;
  send_ch = Channel.make 256;
  close_ch = Channel.make 0;
  last_active = now;
  closed = false;
  conn_closed = false;
  tunnel_type = [];
  remote_ip = [];
  bytes_in = 0;
  bytes_out = 0;
  active_connections = 0;
  proxy_auth = none;
  ip_access = none;
  has_open = false;
}

-- `Send` in its two steps, between which other goroutines run: the test of `closed`, and the
-- `select`, which takes the channel if it is ready and otherwise waits for five seconds.
unfoldable pub send_check : Connection → Option Error
send_check c = if c.closed then some connection_closed else none

unfoldable pub send_push : Text → Connection → Connection × Option Error
send_push msg c =
    if Channel.ready c.send_ch
    then (record c { send_ch = Channel.send msg c.send_ch }, none)
    else (c, some send_timeout)

unfoldable pub send : Text → Connection → Connection × Option Error
unfolding send_check send_push
send msg c = elim (send_check c) [ some e ↦ (c, some e) | none ↦ send_push msg c ]

unfoldable pub update_activity : ℕ → Connection → Connection
update_activity now c = record c { last_active = now }

-- `time.Since(c.LastActive) < timeout`
unfoldable pub is_alive : ℕ → ℕ → Connection → Bool
is_alive now timeout c = ltb now (c.last_active + timeout)

unfoldable pub close : Connection → Connection
close c = if c.closed then c else record c {
  closed = true;
  close_ch = Channel.close c.close_ch;
  send_ch = Channel.close c.send_ch;
  conn_closed = c.conn_closed || c.has_conn;
}

-- The cases of the write pump's `select`, one of which each round takes: a message (or the end of
-- the closed channel), the ticker, and the close signal.
pub data Ready : Type 0 where
  message tick quit : Ready

-- The deferred `Close` of the pump of a web socket.
stop_pump : Connection → Connection × Bool
unfolding close
stop_pump c = (if c.has_conn then close c else c, false)

-- One round of `StartWritePump`, and whether it goes on. `fails` says whether a write to the web
-- socket fails. A case that is not ready is not taken: the round waits. Without a web socket the
-- pump only drops messages, and there is no ticker.
unfoldable pub pump : Ready → Bool → Connection → Connection × Bool
unfolding stop_pump
pump message fails c = elim c.send_ch.items [
  | msg ∷ rest ↦
      let c' = record c { send_ch = record c.send_ch { items = rest } } in
      if c.has_conn && fails then stop_pump c' else (c', true)
  | [] ↦ if c.send_ch.closed && c.has_conn then stop_pump c else (c, true)
]
pump tick fails c = if c.has_conn && fails then stop_pump c else (c, true)
pump quit fails c = if c.close_ch.closed then stop_pump c else (c, true)

abbrev pub word : ℕ
word = 2 ^ 64

-- The value of a 64-bit word as an int64.
unfoldable pub int64 : ℕ → ℤ
int64 w = if ltb w (2 ^ 63) then pos w else negsuc (word - 1 - w)

unfoldable pub add_bytes_in : ℤ → Connection → Connection
add_bytes_in (pos n) c = if n == 0 then c else record c { bytes_in = (c.bytes_in + n) % word }
add_bytes_in (negsuc n) c = c

unfoldable pub add_bytes_out : ℤ → Connection → Connection
add_bytes_out (pos n) c = if n == 0 then c else record c { bytes_out = (c.bytes_out + n) % word }
add_bytes_out (negsuc n) c = c

unfoldable pub inc_active_connections : Connection → Connection
inc_active_connections c = record c { active_connections = (c.active_connections + 1) % word }

-- The two atomic operations of `DecActiveConnections`, between which other goroutines run: `Add(-1)`,
-- which also says whether the sum is negative, and then `Store(0)`.
unfoldable pub dec_add : Connection → Connection × Bool
dec_add c =
    let v = (c.active_connections + word - 1) % word in
    (record c { active_connections = v }, leb (2 ^ 63) v)

unfoldable pub dec_store : Connection → Connection
dec_store c = record c { active_connections = 0 }

unfoldable pub set_tunnel_type : Text → Connection → Connection
set_tunnel_type t c = record c { tunnel_type = t }

unfoldable pub set_proxy_auth : Option ProxyAuth → Connection → Connection
set_proxy_auth a c = record c { proxy_auth = a }

unfoldable pub has_proxy_auth : Connection → Bool
has_proxy_auth c = elim c.proxy_auth [ none ↦ false | some a ↦ a.enabled ]

unfoldable pub validate_proxy_auth : Text → Connection → Bool
validate_proxy_auth password c = elim c.proxy_auth [
  | none ↦ true
  | some a ↦ if not a.enabled then true else text_beq a.password password
]

unfoldable pub set_ip_access_control : Parsers → List Text → List Text → Connection → Connection
set_ip_access_control p allow deny c = record c {
  ip_access = some (new_ip_access_checker p allow deny);
}

unfoldable pub is_ip_allowed : Parsers → Text → Connection → Bool
is_ip_allowed p ip c = elim c.ip_access [ none ↦ true | some checker ↦ is_allowed p checker ip ]

unfoldable pub has_ip_access_control : Connection → Bool
has_ip_access_control c = elim c.ip_access [ none ↦ false | some checker ↦ has_rules checker ]

unfoldable pub set_open_stream : Connection → Connection
set_open_stream c = record c { has_open = true }

-- `OpenStream`, where `opened` is what the function that opens a stream returns.
unfoldable pub open_stream {ℓ κ} :
    {E : Type ℓ} {A : Type κ} → (Error → E) → Result E A → Connection → Result E A
open_stream fail opened c =
    if c.closed
    then err (fail connection_closed)
    else if not c.has_open
    then err (fail connection_closed)
    else opened
