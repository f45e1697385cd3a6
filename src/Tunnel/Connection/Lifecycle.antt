-- ===== src/Tunnel/Connection/Lifecycle.antt =====
-- internal/server/tunnel/connection.go: closing, and sending against it.
use tunl.Base.{
  ℕ, ◌≤◌, ◌≡◌, Bool, true, false, ◌&&◌, Option, none, some, List, [], ◌∷◌, Text, length,
  length-append, arith,
}
use tunl.Base.Int.{ℤ, pos, negsuc}
use tunl.Netutil.{Parsers}
use tunl.Tunnel.Connection.{
  Connection, connection_closed, new_connection, send_check, send_push, send, update_activity,
  close, Ready, message, tick, quit, pump, add_bytes_in, add_bytes_out, inc_active_connections,
  dec_add, dec_store, set_tunnel_type, set_open_stream, set_proxy_auth, set_ip_access_control,
  ProxyAuth,
}

-- The two channels are closed when the flag is set and not before, none was closed twice or sent on
-- when closed, and the web socket is closed with them.
pub record IsSound (c : Connection) : Type 0 where
  pub sending : c.send_ch.closed ≡ c.closed
  pub signal : c.close_ch.closed ≡ c.closed
  pub send_safe : c.send_ch.panicked ≡ false
  pub signal_safe : c.close_ch.panicked ≡ false
  pub socket : c.conn_closed ≡ (c.closed && c.has_conn)
  pub bounded : length c.send_ch.items ≤ c.send_ch.cap

-- What goroutines do with a connection, each in one step: whole calls, but that `DecActiveConnections`
-- is its two operations, `decrements` and `resets`.
pub data Action : Type 0 where
  sends sets_type : Text → Action
  closes increments decrements resets sets_open : Action
  sets_auth : Option ProxyAuth → Action
  sets_access : Parsers → List Text → List Text → Action
  pumps : Ready → Bool → Action
  touches : ℕ → Action
  receives transmits : ℤ → Action

unfoldable pub act : Action → Connection → Connection
act (sends msg) c = (send msg c).0
act closes c = close c
act (pumps r fails) c = (pump r fails c).0
act increments c = inc_active_connections c
act decrements c = (dec_add c).0
act resets c = dec_store c
act (sets_type t) c = set_tunnel_type t c
act sets_open c = set_open_stream c
act (sets_auth a) c = set_proxy_auth a c
act (sets_access p allow deny) c = set_ip_access_control p allow deny c
act (touches now) c = update_activity now c
act (receives n) c = add_bytes_in n c
act (transmits n) c = add_bytes_out n c

unfoldable pub act_all : List Action → Connection → Connection
act_all [] c = c
act_all (a ∷ as') c = act_all as' (act a c)

act-IsSound : (a : Action) (c : Connection) → IsSound c → IsSound (act a c)
unfolding act send close pump inc_active_connections dec_add dec_store update_activity add_bytes_in
    add_bytes_out set_tunnel_type set_open_stream set_proxy_auth set_ip_access_control
act-IsSound (sends msg) c s = ground (arith, length-append c.send_ch.items (msg ∷ []))
act-IsSound closes c s = ground arith
act-IsSound (pumps message fails) c s = ground arith
act-IsSound (pumps tick fails) c s = ground arith
act-IsSound (pumps quit fails) c s = ground arith
act-IsSound increments c s = ground arith
act-IsSound decrements c s = ground arith
act-IsSound resets c s = ground arith
act-IsSound (sets_type t) c s = ground arith
act-IsSound sets_open c s = ground arith
act-IsSound (sets_auth a) c s = ground arith
act-IsSound (sets_access p allow deny) c s = ground arith
act-IsSound (touches now) c s = ground arith
act-IsSound (receives (pos n)) c s = ground arith
act-IsSound (receives (negsuc n)) c s = s
act-IsSound (transmits (pos n)) c s = ground arith
act-IsSound (transmits (negsuc n)) c s = s

IsSound-act_all : (as' : List Action) (c : Connection) → IsSound c → IsSound (act_all as' c)
unfolding act_all
IsSound-act_all [] c s = s
IsSound-act_all (a ∷ as') c s = IsSound-act_all as' (act a c) (act-IsSound a c s)

-- Whatever whole calls are made on a new connection, and in whatever order, also with the two operations
-- of `DecActiveConnections` apart, no channel of it is
-- closed twice or sent on after it was closed, its channels and its web socket are closed when the
-- flag is set and not before, and no more messages wait than the channel holds.
pub act_all-IsSound :
    (subdomain : Text) (has_conn : Bool) (now : ℕ) (as' : List Action)
    → IsSound (act_all as' (new_connection subdomain has_conn now))
unfolding new_connection
act_all-IsSound subdomain has_conn now as' = IsSound-act_all as' _ (ground arith)

-- A `Close` between the two steps of a `Send` makes the send panic, on every open connection.
pub send_push-close :
    (msg : Text) (c : Connection)
    → IsSound c
    → send_check c ≡ none
    → (send_push msg (close c)).0.send_ch.panicked ≡ true
unfolding send_check send_push close
send_push-close msg c s e = ground arith

-- A closed connection refuses every message, stays as it is under `Close`, and its write pump ends
-- in the round that takes the close signal.
pub close_final :
    (msg : Text) (fails : Bool) (c : Connection)
    → IsSound c
    → (close (close c) ≡ close c)
      × (send msg (close c) ≡ (close c, some connection_closed))
      × (pump quit fails (close c) ≡ (close c, false))
unfolding close send send_check pump
close_final msg fails c s = (ground arith, ground arith, ground arith)
