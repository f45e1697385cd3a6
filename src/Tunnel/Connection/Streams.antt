-- ===== src/Tunnel/Connection/Streams.antt =====
-- internal/server/tunnel/connection.go: the counter of open streams.
use tunl.Base.{
  ℕ, ◌+◌, ◌-◌, ◌^◌, ◌≤◌, ◌<◌, ◌≡◌, refl, sym, subst, ap, ◌∙◌, Bool, List, [], ◌∷◌, length, arith,
  bit, ltb, if◌then◌else◌,
}
use tunl.Base.Int.{pos, negsuc}
use tunl.Tunnel.Connection.{
  Connection, send, update_activity, close, Ready, message, tick, quit, pump, add_bytes_in,
  add_bytes_out, inc_active_connections, dec_add, dec_store, set_tunnel_type, set_open_stream,
  set_proxy_auth, set_ip_access_control,
}
use tunl.Tunnel.Connection.Lifecycle.{
  Action, sends, closes, increments, decrements, resets, pumps, touches, receives, transmits,
  sets_type, sets_open, sets_auth, sets_access, act,
}

-- A connection, and how many goroutines have seen a negative sum and are still to store zero.
pub record Counting : Type 0 where
  pub conn : Connection
  pub owing : ℕ

-- `Store(0)` comes only after such a sum; until then it is no step.
unfoldable pub count_step : Action → Counting → Counting
unfolding act dec_add
count_step decrements s = record {
  conn = (dec_add s.conn).0;
  owing = s.owing + bit (dec_add s.conn).1;
}
count_step resets s =
    if ltb 0 s.owing then record { conn = act resets s.conn; owing = s.owing - 1 } else s
count_step a s = record s { conn = act a s.conn }

unfoldable pub count_all : List Action → Counting → Counting
unfolding count_step
count_all [] s = s
count_all (a ∷ as') s = count_all as' (count_step a s)

-- The number of open streams, on plain numbers.
unfoldable pub counted : Action → ℕ → ℕ
counted increments n = n + 1
counted decrements n = n - 1
counted a n = n

unfoldable pub tally : List Action → ℕ → ℕ
unfolding counted
tally [] n = n
tally (a ∷ as') n = tally as' (counted a n)

-- A stream ends only after it has begun.
abbrev pub Allowed : Action → ℕ → Type 0
Allowed decrements n = 1 ≤ n
Allowed a n = Unit

abbrev pub AreStreams : List Action → ℕ → Type 0
AreStreams [] n = Unit
AreStreams (a ∷ as') n = Allowed a n × AreStreams as' (counted a n)

counted-le : (a : Action) (n : ℕ) → counted a n ≤ n + 1
unfolding counted
counted-le increments n = omega arith
counted-le decrements n = omega arith
counted-le a n = omega arith

pump_active :
    (r : Ready) (fails : Bool) (c : Connection)
    → (pump r fails c).0.active_connections ≡ c.active_connections
unfolding pump close
pump_active message fails c = ground arith
pump_active tick fails c = ground arith
pump_active quit fails c = ground arith

-- A step keeps the counter at the number of streams, and nobody has to store zero.
count_step_exact :
    (a : Action) (c : Connection)
    → c.active_connections + 1 < 2 ^ 63
    → Allowed a c.active_connections
    → ((count_step a (record { conn = c; owing = 0 })).conn.active_connections
        ≡ counted a c.active_connections)
      × ((count_step a (record { conn = c; owing = 0 })).owing ≡ 0)
unfolding count_step act counted inc_active_connections dec_add dec_store send update_activity close
    add_bytes_in add_bytes_out set_tunnel_type set_open_stream set_proxy_auth set_ip_access_control
count_step_exact increments c h l = ground arith
count_step_exact decrements c h l = ground arith
count_step_exact resets c h l = ground arith
count_step_exact (sends msg) c h l = ground arith
count_step_exact closes c h l = ground arith
count_step_exact (pumps r fails) c h l = (pump_active r fails c, refl)
count_step_exact (touches now) c h l = (refl, refl)
count_step_exact (receives (pos n)) c h l = ground arith
count_step_exact (receives (negsuc n)) c h l = (refl, refl)
count_step_exact (transmits (pos n)) c h l = ground arith
count_step_exact (transmits (negsuc n)) c h l = (refl, refl)
count_step_exact (sets_type t) c h l = (refl, refl)
count_step_exact sets_open c h l = (refl, refl)
count_step_exact (sets_auth a) c h l = (refl, refl)
count_step_exact (sets_access p allow deny) c h l = (refl, refl)

-- If a stream ends only after it has begun, and fewer than 2 ^ 63 can be open, then the counter of open
-- streams is exact whatever goroutines do in between: `IncActiveConnections` adds one, the `Add(-1)` of
-- `DecActiveConnections` takes one away and never gives a negative sum, so that nobody stores zero, and
-- no other call, the setters included, changes it.
pub active_connections-count_all :
    (as' : List Action) (c : Connection)
    → c.active_connections + length as' < 2 ^ 63
    → AreStreams as' c.active_connections
    → ((count_all as' (record { conn = c; owing = 0 })).conn.active_connections
        ≡ tally as' c.active_connections)
      × ((count_all as' (record { conn = c; owing = 0 })).owing ≡ 0)
unfolding count_all tally
active_connections-count_all [] c h l = (refl, refl)
active_connections-count_all (a ∷ as') c h l =
    let s = count_step a (record { conn = c; owing = 0 }) in
    let (e, z) = count_step_exact a c (omega arith) l.0 in
    let ih =
      active_connections-count_all as' s.conn
        (omega (arith, h, e, counted-le a c.active_connections))
        (subst (AreStreams as') (sym e) l.1) in
    let same : s ≡ record { conn = s.conn; owing = 0 } =
      ap (λ n. record { conn = s.conn; owing = n }) z in
    let q = ap (count_all as') same in
    (ap (λ x. x.conn.active_connections) q ∙ ih.0 ∙ ap (tally as') e, ap (λ x. x.owing) q ∙ ih.1)
