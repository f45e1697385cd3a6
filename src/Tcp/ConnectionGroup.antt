-- ===== src/Tcp/ConnectionGroup.antt =====
-- internal/server/tcp/connection_group.go: the sessions of a tunnel. A session is a number; the
-- multiplexer behind it is a third party's, so what it answers is an argument, and `closings` records
-- the calls of its `Close`. Of the fields that never change only the
-- token is kept.
pub mod Heartbeat
pub mod Streams
use tunl.Base.{
  ℕ, ◌+◌, ◌-◌, ◌≡◌, refl, Bool, true, false, Option, none, some, List, [], ◌∷◌, ◌++◌, map, ltb, leb,
  if◌then◌else◌, Text, text_beq, text_eq, length,
}
use tunl.Base.Channel
use tunl.Base.Channel.{Channel}
use tunl.Base.Map.{lookup, insert, erase}

pub record ConnectionGroup : Type 0 where
  pub token : Text
  pub sessions : List (Text × ℕ)
  pub last_activity : ℕ
  pub stop_ch : Channel (Unit {0})
  pub heartbeat_started : Bool
  pub closings : List ℕ

unfoldable pub new_connection_group : Text → ℕ → ConnectionGroup
new_connection_group token now = record {
  token = token;
  sessions = [];
  last_activity = now;
  stop_ch = Channel.make 0;
  heartbeat_started = false;
  closings = [];
}

unfoldable pub close_group : ConnectionGroup → ConnectionGroup
close_group g = if g.stop_ch.closed then g else record g {
  stop_ch = Channel.close g.stop_ch;
  sessions = [];
  closings = g.closings ++ map (λ p. p.1) g.sessions;
}

unfoldable pub is_stale : ℕ → ℕ → ConnectionGroup → Bool
is_stale now timeout g = ltb timeout (now - g.last_activity)

unfoldable pub add_session : Text → Option ℕ → ℕ → ConnectionGroup → ConnectionGroup
add_session conn_id session now g = if text_beq conn_id [] then g else elim session [
  | none ↦ g
  | some s ↦ record g {
    sessions = insert conn_id s g.sessions;
    last_activity = now;
    heartbeat_started = true;
  }
]

unfoldable pub remove_session : Text → ConnectionGroup → ConnectionGroup
remove_session conn_id g = if text_beq conn_id [] then g else elim (lookup conn_id g.sessions) [
  | none ↦ g
  | some s ↦ record g { sessions = erase conn_id g.sessions; closings = g.closings ++ (s ∷ []) }
]

unfoldable pub session_count : ConnectionGroup → ℕ
session_count g = length g.sessions

-- What a session answers to a ping: it is closed, or it answers by a time, or it fails or is too late.
pub data Ping : Type 0 where
  gone failed : Ping
  answered : ℕ → Ping

abbrev pub max_consecutive_failures : ℕ
max_consecutive_failures = 3

-- `failureCount[id]`.
unfoldable pub failures : Text → List (Text × ℕ) → ℕ
failures id t = elim (lookup id t) [ none ↦ 0 | some n ↦ n ]

unfoldable pub ping_failed :
    Text → ConnectionGroup × List (Text × ℕ) → ConnectionGroup × List (Text × ℕ)
unfolding failures remove_session
ping_failed id (g, t) =
    let n = failures id t + 1 in
    if leb max_consecutive_failures n
    then (remove_session id g, erase id (insert id n t))
    else (g, insert id n t)

-- What the heartbeat does with one session of its snapshot.
unfoldable pub ping_session :
    Text → Ping → ConnectionGroup × List (Text × ℕ) → ConnectionGroup × List (Text × ℕ)
unfolding remove_session ping_failed
ping_session id gone (g, t) = (remove_session id g, erase id t)
ping_session id failed (g, t) = ping_failed id (g, t)
ping_session id (answered now) (g, t) = (record g { last_activity = now }, insert id 0 t)

-- The sessions of one or more rounds with their answers.
unfoldable pub heartbeat :
    List (Text × Ping) → ConnectionGroup × List (Text × ℕ) → ConnectionGroup × List (Text × ℕ)
unfolding ping_session
heartbeat [] s = s
heartbeat ((id, p) ∷ ps) s = heartbeat ps (ping_session id p s)
